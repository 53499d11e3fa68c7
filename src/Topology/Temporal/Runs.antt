-- ===== src/Topology/Temporal/Runs.antt =====
-- Sequences of mutations of one event-sourced hypergraph (src/topology/temporal.rs): the mutation
-- lock makes every run of concurrent callers such a sequence.
use koalisi.Common.{◌≡◌, refl, List, [], ◌∷◌}
use koalisi.Topology.Timestamp.{Timestamp}
use koalisi.Topology.Events.{TemporalEvent, VertexIndex, HyperedgeIndex, timestamp}
use koalisi.Topology.Errors.{Outcome, ok, err, panicked}
use koalisi.Topology.Jobs.{Job}
use koalisi.Topology.Hypergraph.{Library}
use koalisi.Topology.Temporal.{TemporalHypergraph, mutate}
use koalisi.Topology.Temporal.Mutations

-- a call of a mutation
pub data Mutation {V HE : Type 0} (lib : Library V HE) : Type 0 where
  add_vertex : V → Mutation lib
  remove_vertex : VertexIndex → Mutation lib
  update_vertex_weight : VertexIndex → V → Mutation lib
  add_hyperedge : List VertexIndex → HE → Mutation lib
  remove_hyperedge : HyperedgeIndex → Mutation lib
  update_hyperedge_weight : HyperedgeIndex → HE → Mutation lib
  update_hyperedge_vertices : HyperedgeIndex → List VertexIndex → Mutation lib
  update_hyperedge_vertices_try :
      HyperedgeIndex
      → (List VertexIndex → Outcome lib.HypergraphError (List VertexIndex))
      → Mutation lib
  reverse_hyperedge : HyperedgeIndex → Mutation lib
  join_hyperedges : List HyperedgeIndex → Mutation lib
  contract_hyperedge_vertices : HyperedgeIndex → List VertexIndex → VertexIndex → Mutation lib
  clear_hyperedges : Mutation lib
  clear : Mutation lib

module _ {V HE : Type 0} (lib : Library V HE) where
  abbrev pub State : Type 0
  State = TemporalHypergraph lib

  abbrev pub without_value : {A E : Type 0} → Outcome E A → Outcome E (Unit {0})
  without_value (ok a) = ok tt
  without_value (err e) = err e
  without_value panicked = panicked

  abbrev pub forget :
      {A : Type 0}
      → State × Outcome lib.HypergraphError A
      → State × Outcome lib.HypergraphError (Unit {0})
  forget (th, o) = (th, without_value o)

  -- The state after a mutation, and how it ended.
  unfoldable pub run : Mutation lib → State → State × Outcome lib.HypergraphError (Unit {0})
  run (add_vertex weight) th = forget (Mutations.add_vertex lib weight th)
  run (remove_vertex index) th = forget (Mutations.remove_vertex lib index th)
  run (update_vertex_weight index weight) th =
      forget (Mutations.update_vertex_weight lib index weight th)
  run (add_hyperedge vertices weight) th = forget (Mutations.add_hyperedge lib vertices weight th)
  run (remove_hyperedge index) th = forget (Mutations.remove_hyperedge lib index th)
  run (update_hyperedge_weight index weight) th =
      forget (Mutations.update_hyperedge_weight lib index weight th)
  run (update_hyperedge_vertices index vertices) th =
      forget (Mutations.update_hyperedge_vertices lib index vertices th)
  run (update_hyperedge_vertices_try index mutator) th =
      forget (Mutations.update_hyperedge_vertices_try lib index mutator th)
  run (reverse_hyperedge index) th = forget (Mutations.reverse_hyperedge lib index th)
  run (join_hyperedges indices) th = forget (Mutations.join_hyperedges lib indices th)
  run (contract_hyperedge_vertices index vertices target) th =
      forget (Mutations.contract_hyperedge_vertices lib index vertices target th)
  run clear_hyperedges th = forget (Mutations.clear_hyperedges lib th)
  run clear th = forget (Mutations.clear lib th)

  unfoldable pub run_all : List (Mutation lib) → State → State
  run_all [] th = th
  run_all (m ∷ ms) th = run_all ms (run m th).0

  -- What holds of every call of `mutate` whose event has the clock's timestamp holds of every
  -- mutation.
  pub run-mutate :
      (P : State → State × Outcome lib.HypergraphError (Unit {0}) → Type 0)
      → ((T R : Type 0) (job : Job lib.Graph lib.HypergraphError T)
            (finish : Timestamp → T → TemporalEvent V HE × R)
          → ((t : Timestamp) (x : T) → timestamp (finish t x).0 ≡ t)
          → (th : State) → P th (forget (mutate lib job finish th)))
      → (m : Mutation lib) (th : State) → P th (run m th)
  unfolding run Mutations.add_vertex Mutations.remove_vertex Mutations.update_vertex_weight
      Mutations.add_hyperedge Mutations.remove_hyperedge Mutations.update_hyperedge_weight
      Mutations.update_hyperedge_vertices Mutations.update_hyperedge_vertices_try
      Mutations.reverse_hyperedge Mutations.join_hyperedges Mutations.contract_hyperedge_vertices
      Mutations.clear_hyperedges Mutations.clear timestamp
  run-mutate P h (add_vertex weight) th = h _ _ _ _ (λ t x. refl) th
  run-mutate P h (remove_vertex index) th = h _ _ _ _ (λ t x. refl) th
  run-mutate P h _ th = h _ _ _ _ (λ t x. refl) th
