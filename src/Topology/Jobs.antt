-- ===== src/Topology/Jobs.antt =====
-- The jobs that src/topology/temporal.rs runs under the graph's write lock: computations on a graph
-- `G` that end with a value, an error or a panic. A panic or an error keeps the graph as it is then.
use koalisi.Topology.Errors.{hypergraph, Outcome, ok, err, panicked, Attempt, done, failed}

abbrev pub Job : Type 0 → Type 0 → Type 0 → Type 0
Job G E A = G → G × Outcome E A

module _ {G E : Type 0} where
  -- what `?` does with the outcome of a step
  abbrev pub proceed : {A B : Type 0} → (A → Job G E B) → G × Outcome E A → G × Outcome E B
  proceed f (g, ok a) = f a g
  proceed f (g, err e) = (g, err e)
  proceed f (g, panicked) = (g, panicked)

  infixl 5 ◌>>=◌ ◌>>◌
  abbrev pub ◌>>=◌ : {A B : Type 0} → Job G E A → (A → Job G E B) → Job G E B
  ◌>>=◌ m f g = proceed f (m g)

  abbrev pub ◌>>◌ : {A B : Type 0} → Job G E A → Job G E B → Job G E B
  m >> k = m >>= λ _. k

  abbrev pub pure : {A : Type 0} → A → Job G E A
  pure a g = (g, ok a)

  -- a closure's own result
  abbrev pub give : {A : Type 0} → Outcome E A → Job G E A
  give o g = (g, o)

  -- a call of the library that cannot fail
  abbrev pub change : {A : Type 0} → (G → G × A) → Job G E A
  change f g = ((f g).0, ok (f g).1)

-- `From<HypergraphError> for TemporalError`
abbrev pub of_attempt : {E A : Type 0} → Attempt E A → Outcome E A
of_attempt (done a) = ok a
of_attempt (failed e) = err (hypergraph e)

module _ {G E : Type 0} where
  -- a call of the library that reads the graph, and one that may change it
  abbrev pub ask : {A : Type 0} → (G → Attempt E A) → Job G E A
  ask f g = (g, of_attempt (f g))

  abbrev pub call : {A : Type 0} → (G → G × Attempt E A) → Job G E A
  call f g = ((f g).0, of_attempt (f g).1)
