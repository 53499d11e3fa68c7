-- ===== src/Topology/Coalitions/Membership.antt =====
-- What joins and leaves do to the members of a coalition, and what they record
-- (src/topology/coalitions.rs).
use koalisi.Common.{
  ℕ, ◌≡◌, ◌≢◌, refl, ap, sym, ◌∙◌, append-nil, if◌then◌else◌, false, not, ◌&&◌, ◌||◌, List, [], ◌∷◌,
  ◌++◌, arith, All, contains, ◌==◌, Bool-cases, inl, inr,
}
use koalisi.Topology.Timestamp.{current, tick}
use koalisi.Topology.Events.{hyperedge_vertices_updated, VertexIndex, HyperedgeIndex}
use koalisi.Topology.EventLog.{append}
use koalisi.Topology.Errors.{Outcome, ok, err, empty_coalition, done, Attempt-cases, Outcome-cases}
use koalisi.Topology.Hypergraph.{Library}
use koalisi.Topology.Temporal.{TemporalHypergraph, mutate, settle}
use koalisi.Topology.Temporal.Mutations.{update_hyperedge_vertices_try}
use koalisi.Topology.Coalitions.{joined, without, or_empty, join_coalition, leave_coalition}

contains-append :
    (xs ys : List ℕ) (b : ℕ) → contains (xs ++ ys) b ≡ (contains xs b || contains ys b)
contains-append [] ys b = refl
contains-append (x ∷ xs) ys b = ground (arith, contains-append xs ys b)

-- A join adds the agent and nobody else.
contains-joined :
    (agent : VertexIndex) (vs : List VertexIndex) (b : VertexIndex)
    → contains (joined agent vs) b ≡ (contains vs b || agent == b)
unfolding joined
contains-joined agent vs b = elim (Bool-cases (contains vs agent)) [
  | inl old ↦ rw old (ground (arith, ap (contains vs) {x = agent} {y = b}))
  | inr fresh ↦ rw (fresh, contains-append) (ground arith)
]

-- The agent is put last, unless it is a member.
joined_once :
    (agent : VertexIndex) (vs : List VertexIndex)
    → joined agent vs ≡ vs ++ (if contains vs agent then [] else agent ∷ [])
unfolding joined
joined_once agent vs = elim (Bool-cases (contains vs agent)) [
  | inl old ↦ rw old (sym (append-nil vs))
  | inr fresh ↦ rw fresh refl
]

-- A leave takes the agent away and nobody else.
contains-without :
    (agent : VertexIndex) (vs : List VertexIndex) (b : VertexIndex)
    → contains (without agent vs) b ≡ (contains vs b && not (b == agent))
contains-without agent [] b = refl
contains-without agent (v ∷ vs) b = ground (arith, contains-without agent vs b)

without_self :
    (agent : VertexIndex) (vs : List VertexIndex) → All (λ v. v ≡ agent) vs → without agent vs ≡ []
without_self agent [] h = refl
without_self agent (v ∷ vs) h = ground (arith, without_self agent vs h.1)

module _ {V HE : Type 0} (lib : Library V HE) (agent : VertexIndex) (coalition : HyperedgeIndex)
    (th : TemporalHypergraph lib) where
  -- The update that a successful join or leave made: from `old` to `fresh`, under the graph lock, with
  -- one event that says so.
  abbrev pub IsUpdated : TemporalHypergraph lib → List VertexIndex → List VertexIndex → Type 0
  IsUpdated th' old fresh =
      (lib.get_hyperedge_vertices coalition th.graph ≡ done old)
      × (lib.update_hyperedge_vertices coalition fresh th.graph ≡ (th'.graph, done tt))
      × (th'.log
          ≡ append (hyperedge_vertices_updated (current th.clock) coalition old fresh) th.log)

  -- whatever the closure is
  try-IsUpdated :
      (mutator : List VertexIndex → Outcome lib.HypergraphError (List VertexIndex))
      (th' : TemporalHypergraph lib)
      → update_hyperedge_vertices_try lib coalition mutator th ≡ (th', ok tt)
      → (old fresh : List VertexIndex) × (mutator old ≡ ok fresh) × IsUpdated th' old fresh
  unfolding update_hyperedge_vertices_try mutate settle current tick
  try-IsUpdated mutator th' h =
      elim (Attempt-cases (lib.get_hyperedge_vertices coalition th.graph)) [
        | inl (old, found) ↦ elim (Outcome-cases (mutator old)) [
          | inl (fresh, given) ↦ (old, fresh, given, (found, ground arith, ground arith))
          | inr (inl (x, other)) ↦ absurd (ground arith)
          | inr (inr other) ↦ absurd (ground arith)
        ]
        | inr (e, missing) ↦ absurd (ground arith)
      ]

  -- A join that succeeds has left the members of the coalition as they were, in their order, and has
  -- put the agent after them if it was not among them already: nobody is added twice. The log has got
  -- exactly that change, at the current time.
  pub join_coalition-IsUpdated :
      (th' : TemporalHypergraph lib)
      → join_coalition lib agent coalition th ≡ (th', ok tt)
      → (old fresh : List VertexIndex) × IsUpdated th' old fresh
        × (fresh ≡ old ++ (if contains old agent then [] else agent ∷ []))
        × ((b : VertexIndex) → contains fresh b ≡ (contains old b || agent == b))
  unfolding join_coalition
  join_coalition-IsUpdated th' h =
      let (old, fresh, given, updated) = try-IsUpdated (λ ms. ok (joined agent ms)) th' h in
      (old, fresh, updated, once old fresh given, λ b. ok_fresh old fresh given b)
    where
      once :
          (old fresh : List VertexIndex)
          → ◌≡◌ {A = Outcome lib.HypergraphError (List VertexIndex)}
              (ok (joined agent old))
              (ok fresh)
          → fresh ≡ old ++ (if contains old agent then [] else agent ∷ [])
      once old fresh given =
          let same : joined agent old ≡ fresh = cc in sym same ∙ joined_once agent old

      ok_fresh :
          (old fresh : List VertexIndex)
          → ◌≡◌ {A = Outcome lib.HypergraphError (List VertexIndex)}
              (ok (joined agent old))
              (ok fresh)
          → (b : VertexIndex) → contains fresh b ≡ (contains old b || agent == b)
      ok_fresh old fresh given b =
          let same : joined agent old ≡ fresh = cc in rw (← same) (contains-joined agent old b)

  or_empty-ok :
      (vs fresh : List VertexIndex)
      → or_empty {E = lib.HypergraphError} vs ≡ ok fresh
      → (fresh ≡ vs) × (fresh ≢ [])
  or_empty-ok [] fresh h = absurd (ground arith)
  or_empty-ok (v ∷ vs) fresh h = (cc, λ e. ground arith)

  -- A leave that succeeds has replaced the members of the coalition by the same members without the
  -- agent, of whom some are left, and has recorded exactly that change in the log.
  pub leave_coalition-IsUpdated :
      (th' : TemporalHypergraph lib)
      → leave_coalition lib agent coalition th ≡ (th', ok tt)
      → (old fresh : List VertexIndex) × IsUpdated th' old fresh
        × (fresh ≢ [])
        × ((b : VertexIndex) → contains fresh b ≡ (contains old b && not (b == agent)))
  unfolding leave_coalition
  leave_coalition-IsUpdated th' h =
      let (old, fresh, given, updated) = try-IsUpdated (λ ms. or_empty (without agent ms)) th' h in
      let same = or_empty-ok (without agent old) fresh given in
      (old, fresh, updated, same.1, λ b. rw (same.0) (contains-without agent old b))

  -- While the lock is not poisoned, the agent cannot leave a coalition in which nobody else is
  -- a member: the error is `empty_coalition`, and nothing at all changes.
  pub leave_coalition-last :
      (members : List VertexIndex)
      → th.poisoned ≡ false
      → lib.get_hyperedge_vertices coalition th.graph ≡ done members
      → All (λ v. v ≡ agent) members
      → leave_coalition lib agent coalition th ≡ (th, err empty_coalition)
  unfolding leave_coalition update_hyperedge_vertices_try mutate settle
  leave_coalition-last members free found alone = ground (arith, without_self agent members alone)
