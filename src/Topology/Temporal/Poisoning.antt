-- ===== src/Topology/Temporal/Poisoning.antt =====
-- A panic under the graph's write lock poisons it for good (src/topology/temporal.rs).
use koalisi.Common.{◌≡◌, refl, ap, true, false, List, [], ◌∷◌, arith, if◌then◌else◌}
use koalisi.Topology.Timestamp.{Timestamp}
use koalisi.Topology.Events.{TemporalEvent, VertexIndex, HyperedgeIndex, timestamp}
use koalisi.Topology.Errors.{Outcome, ok, err, panicked, lock_poisoned, done}
use koalisi.Topology.Jobs.{Job, of_attempt}
use koalisi.Topology.Hypergraph.{Library}
use koalisi.Topology.Temporal.{
  mutate, settle, read, get_vertex_weight, get_hyperedge_weight, get_hyperedge_vertices,
}
use koalisi.Topology.Temporal.Mutations.{update_hyperedge_vertices_try}
use koalisi.Topology.Temporal.Runs.{
  Mutation, State, forget, run, run_all, run-mutate, update_hyperedge_vertices_try as call_try,
}
use koalisi.Topology.Temporal.Recording.{IsRecorded, run-IsRecorded}

module _ {V HE : Type 0} (lib : Library V HE) where
  mutate_refused :
      (T R : Type 0) (job : Job lib.Graph lib.HypergraphError T)
      (finish : Timestamp → T → TemporalEvent V HE × R)
      → ((t : Timestamp) (x : T) → timestamp (finish t x).0 ≡ t)
      → (th : State lib) → th.poisoned ≡ true
      → forget lib (mutate lib job finish th) ≡ (th, err lock_poisoned)
  unfolding mutate
  mutate_refused T R job finish stamped th p =
      ap
        (λ b.
          forget lib (if b then (th, err lock_poisoned) else settle lib finish th (job th.graph)))
        p

  -- Every mutation of a poisoned graph is refused, and changes nothing.
  refused :
      (m : Mutation lib) (th : State lib)
      → th.poisoned ≡ true
      → run lib m th ≡ (th, err lock_poisoned)
  refused =
      run-mutate lib (λ th out. th.poisoned ≡ true → out ≡ (th, err lock_poisoned)) mutate_refused

  refused_all :
      (ms : List (Mutation lib)) (th : State lib) → th.poisoned ≡ true → run_all lib ms th ≡ th
  unfolding run_all
  refused_all [] th p = refl
  refused_all (m ∷ ms) th p = rw (refused m th p) (refused_all ms th p)

  panicked_poisons :
      (th : State lib) (out : State lib × Outcome lib.HypergraphError (Unit {0}))
      → IsRecorded lib th out
      → out.1 ≡ panicked
      → (out.0.poisoned ≡ true) × (out.0.log ≡ th.log)
  panicked_poisons th (th', ok x) r e = cc
  panicked_poisons th (th', err x) r e = cc
  panicked_poisons th (th', panicked) r e = (r.4, r.0)

  reads_refused :
      (th : State lib) (v : VertexIndex) (h : HyperedgeIndex)
      → th.poisoned ≡ true
      → (get_vertex_weight lib th v ≡ err lock_poisoned)
        × (get_hyperedge_weight lib th h ≡ err lock_poisoned)
        × (get_hyperedge_vertices lib th h ≡ err lock_poisoned)
  unfolding get_vertex_weight get_hyperedge_weight get_hyperedge_vertices read
  reads_refused th v h p = (
    ap (λ b. if b then err lock_poisoned else of_attempt (lib.get_vertex_weight v th.graph)) p,
    ap (λ b. if b then err lock_poisoned else of_attempt (lib.get_hyperedge_weight h th.graph)) p,
    ap (λ b. if b then err lock_poisoned else of_attempt (lib.get_hyperedge_vertices h th.graph)) p,
  )

  -- A mutation that panics records nothing, and no later mutations change anything: each of
  -- them returns `lock_poisoned`, and so do the reads of a vertex's weight, of a hyperedge's
  -- weight and of its vertices.
  pub panic_is_final :
      (th : State lib) (m : Mutation lib) (ms : List (Mutation lib)) (later : Mutation lib)
      (v : VertexIndex) (h : HyperedgeIndex)
      → (run lib m th).1 ≡ panicked
      → ((run lib m th).0.log ≡ th.log)
        × (run_all lib ms (run lib m th).0 ≡ (run lib m th).0)
        × ((run lib later (run lib m th).0).1 ≡ err lock_poisoned)
        × (get_vertex_weight lib (run lib m th).0 v ≡ err lock_poisoned)
        × (get_hyperedge_weight lib (run lib m th).0 h ≡ err lock_poisoned)
        × (get_hyperedge_vertices lib (run lib m th).0 h ≡ err lock_poisoned)
  panic_is_final th m ms later v h p =
      let after = panicked_poisons th (run lib m th) (run-IsRecorded lib m th) p in
      let reads = reads_refused (run lib m th).0 v h after.0 in
      (
        after.1,
        refused_all ms (run lib m th).0 after.0,
        ap (λ out. out.1) (refused later (run lib m th).0 after.0),
        reads.0,
        reads.1,
        reads.2,
      )

  -- While the lock is not poisoned, a closure that panics on the vertices of a hyperedge makes
  -- the update panic.
  pub mutator_panic :
      (index : HyperedgeIndex)
      (mutator : List VertexIndex → Outcome lib.HypergraphError (List VertexIndex)) (th : State lib)
      (vs : List VertexIndex)
      → th.poisoned ≡ false
      → lib.get_hyperedge_vertices index th.graph ≡ done vs
      → mutator vs ≡ panicked
      → (run lib (call_try index mutator) th).1 ≡ panicked
  unfolding run update_hyperedge_vertices_try mutate settle
  mutator_panic index mutator th vs free found p = ground arith
