-- ===== src/Tests/Graphs.antt =====
-- A small graph library, and the event-sourced hypergraph over it.
use koalisi.Common.{
  ℕ, ◌+◌, ◌<◌, ◌≡◌, refl, false, Option, none, some, List, [], ◌∷◌, length, not, filter, arith,
  ◌==◌,
}
use koalisi.Common.SortedMap
use koalisi.Common.SortedMap.{SortedMap}
use koalisi.Topology.Timestamp.{current, tick, u64_mod}
use koalisi.Topology.Events.{TemporalEvent}
use koalisi.Topology.Errors.{ok, err, panicked, lock_poisoned, Attempt, done, failed}
use koalisi.Topology.Hypergraph.{Library, sent}
use koalisi.Topology.Temporal.{
  fresh, mutate, settle, record_event, clone, see, get_vertex_weight, get_hyperedge_weight,
  get_hyperedge_vertices,
}
use koalisi.Topology.Temporal.Mutations
use koalisi.Topology.Temporal.Runs.{
  Mutation, State, run, run_all, add_vertex, remove_vertex, add_hyperedge,
  update_hyperedge_vertices_try,
}
use koalisi.Topology.Temporal.Recording.{
  IsRecorded, run-IsRecorded, IsSound, fresh-IsSound, run_all-IsSound,
}
use koalisi.Topology.Temporal.Poisoning.{panic_is_final, mutator_panic}

-- Vertices and hyperedges by their indices, which are handed out in order.
pub record Graph : Type 0 where
  pub vertices : SortedMap ℕ
  pub hyperedges : SortedMap (ℕ × List ℕ)
  pub next : ℕ

abbrev found : {A : Type 0} → Option A → Attempt ℕ A
found none = failed 0
found (some a) = done a

abbrev members : Option (ℕ × List ℕ) → Attempt ℕ (List ℕ)
members none = failed 0
members (some (w, vs)) = done vs

abbrev weight : Option (ℕ × List ℕ) → Attempt ℕ ℕ
weight none = failed 0
weight (some (w, vs)) = done w

abbrev weight_or : Option (ℕ × List ℕ) → ℕ
weight_or none = 0
weight_or (some (w, vs)) = w

abbrev dropped : {A : Type 0} → ℕ → SortedMap A → SortedMap A
dropped k = filter (λ kv. not (kv.0 == k))

abbrev pub sample_library : Library ℕ ℕ
sample_library = record {
  Graph = Graph;
  HypergraphError = ℕ;
  new = record { vertices = []; hyperedges = []; next = 0 };
  add_vertex = λ w g.
      (record g { vertices = SortedMap.insert g.next w g.vertices; next = g.next + 1 }, g.next);
  get_vertex_weight = λ v g. found (SortedMap.get v g.vertices);
  remove_vertex = λ v g. (record g { vertices = dropped v g.vertices }, done tt);
  update_vertex_weight =
      λ v w g. (record g { vertices = SortedMap.insert v w g.vertices }, done tt);
  add_hyperedge = λ vs w g. (
    record g { hyperedges = SortedMap.insert g.next (w, vs) g.hyperedges; next = g.next + 1 },
    done g.next,
  );
  get_hyperedge_weight = λ h g. weight (SortedMap.get h g.hyperedges);
  get_hyperedge_vertices = λ h g. members (SortedMap.get h g.hyperedges);
  remove_hyperedge = λ h g. (record g { hyperedges = dropped h g.hyperedges }, done tt);
  update_hyperedge_weight = λ h w g. (g, failed 1);
  update_hyperedge_vertices = λ h vs g.
      (record g { hyperedges = SortedMap.update h (λ o. (weight_or o, vs)) g.hyperedges }, done tt);
  reverse_hyperedge = λ h g. (g, failed 1);
  join_hyperedges = λ hs g. (g, failed 1);
  contract_hyperedge_vertices = λ h vs t g. (g, failed 1);
  count_vertices = λ g. length g.vertices;
  count_hyperedges = λ g. length g.hyperedges;
  clear_hyperedges = λ g. record g { hyperedges = [] };
  clear = λ g. record { vertices = []; hyperedges = []; next = 0 };
  Tap = List (TemporalEvent ℕ ℕ);
  try_send = λ e tap. (e ∷ tap, sent);
}

-- Two agents, and a coalition of the first.
abbrev pub sample_state : State sample_library
sample_state =
    run_all sample_library (add_vertex 10 ∷ add_vertex 11 ∷ add_hyperedge (0 ∷ []) 7 ∷ [])
      (fresh sample_library)

run-IsRecorded_example :
    IsRecorded sample_library sample_state (run sample_library (remove_vertex 1) sample_state)
run-IsRecorded_example = run-IsRecorded sample_library (remove_vertex 1) sample_state

room : current (fresh sample_library).clock + 3 < u64_mod
unfolding fresh current Mutations.add_vertex
room = omega arith

run_all-IsSound_example : IsSound sample_library sample_state
run_all-IsSound_example =
    run_all-IsSound sample_library (add_vertex 10 ∷ add_vertex 11 ∷ add_hyperedge (0 ∷ []) 7 ∷ [])
      (fresh sample_library) room (fresh-IsSound sample_library)

sample-IsSound : IsSound sample_library sample_state
sample-IsSound =
    run_all-IsSound sample_library (add_vertex 10 ∷ add_vertex 11 ∷ add_hyperedge (0 ∷ []) 7 ∷ [])
      (fresh sample_library) room (fresh-IsSound sample_library)

snapshot_room : current sample_state.clock + 1 < u64_mod
unfolding run_all run fresh Mutations.add_vertex Mutations.add_hyperedge mutate settle record_event
    tick current
snapshot_room = omega arith

mine_succeeds : (run sample_library (add_vertex 1) sample_state).1 ≡ ok tt
unfolding run_all run fresh Mutations.add_vertex Mutations.add_hyperedge mutate settle record_event
mine_succeeds = refl

theirs_succeeds :
    (run sample_library (remove_vertex 0) (
      see sample_library
        (run sample_library (add_vertex 1) sample_state).0
        (clone sample_library sample_state))).1
    ≡ ok tt
unfolding run_all run fresh see clone Mutations.add_vertex Mutations.remove_vertex
    Mutations.add_hyperedge mutate settle record_event SortedMap.update
theirs_succeeds = refl

abbrev panicking : Mutation sample_library
panicking = update_hyperedge_vertices_try 2 (λ vs. panicked)

sample_free : sample_state.poisoned ≡ false
unfolding run_all run fresh Mutations.add_vertex Mutations.add_hyperedge mutate settle
sample_free = refl

sample_members : sample_library.get_hyperedge_vertices 2 sample_state.graph ≡ done (0 ∷ [])
unfolding run_all run fresh Mutations.add_vertex Mutations.add_hyperedge mutate settle
    SortedMap.update
sample_members = refl

sample_panics : (run sample_library panicking sample_state).1 ≡ panicked
sample_panics =
    mutator_panic sample_library 2 (λ vs. panicked) sample_state (0 ∷ []) sample_free sample_members
      refl

panic_is_final_example :
    ((run sample_library panicking sample_state).0.log ≡ sample_state.log)
    × (run_all sample_library (add_vertex 1 ∷ []) (run sample_library panicking sample_state).0
        ≡ (run sample_library panicking sample_state).0)
    × ((run sample_library (remove_vertex 0) (run sample_library panicking sample_state).0).1
        ≡ err lock_poisoned)
    × (get_vertex_weight sample_library (run sample_library panicking sample_state).0 0
        ≡ err lock_poisoned)
    × (get_hyperedge_weight sample_library (run sample_library panicking sample_state).0 2
        ≡ err lock_poisoned)
    × (get_hyperedge_vertices sample_library (run sample_library panicking sample_state).0 2
        ≡ err lock_poisoned)
panic_is_final_example =
    panic_is_final sample_library sample_state panicking (add_vertex 1 ∷ []) (remove_vertex 0) 0 2
      sample_panics
