-- ===== src/Tests/Agents.antt =====
-- Agents and coalitions over the small graph library.
use koalisi.Common.{
  ℕ, ◌≡◌, refl, true, false, ◌||◌, none, some, List, [], ◌∷◌, ◌++◌, if◌then◌else◌, length, arith,
  contains, ltb, ◌==◌,
}
use koalisi.Common.HashMap
use koalisi.Common.SortedMap
use koalisi.Topology.Events.{timestamp, VertexIndex}
use koalisi.Topology.EventLog.Chronology.{IsChronological}
use koalisi.Topology.Errors.{ok, panicked, done}
use koalisi.Topology.Temporal.{
  fresh, mutate, settle, record_event, read, get_vertex_weight, get_hyperedge_vertices,
}
use koalisi.Topology.Temporal.Mutations
use koalisi.Topology.Temporal.Runs.{State, run, run_all}
use koalisi.Topology.Queries.World.{empty, apply, replay, is_some}
use koalisi.Topology.Coalitions.{
  Policy, joined, join_coalition, leave_coalition, agent_weights, get_agent, coalition_members,
  when_act, try_join_coalition,
}
use koalisi.Topology.Coalitions.History.{history_loop, nothing_yet}
use koalisi.Topology.Coalitions.Episodes.{IsTrue, is_member, members, open_memberships}
use koalisi.Topology.Coalitions.Membership.{IsUpdated, join_coalition-IsUpdated}
use koalisi.Tests.Samples.{sample_events}
use koalisi.Tests.Graphs.{sample_library, sample_state}

-- Join a crowd, leave the rest.
abbrev pub sociable : Policy ℕ
sociable = record {
  Score = ℕ;
  zero_score = 0;
  should_join = λ own others. some (record { act = ltb 0 (length others); score = length others });
  should_leave = λ own others. some (record { act = ltb (length others) 2; score = length others });
}

-- A policy that panics whenever it is asked.
abbrev pub alarmed : Policy ℕ
alarmed = record {
  Score = ℕ;
  zero_score = 0;
  should_join = λ own others. none;
  should_leave = λ own others. none;
}

-- Both agents in the coalition.
abbrev pub full_state : State sample_library
full_state = (join_coalition sample_library 1 2 sample_state).0

join_succeeds : join_coalition sample_library 1 2 sample_state ≡ (full_state, ok tt)
unfolding join_coalition Mutations.update_hyperedge_vertices_try mutate settle record_event run_all
    run fresh Mutations.add_vertex Mutations.add_hyperedge SortedMap.update joined
join_succeeds = refl

join_coalition-IsUpdated_example :
    (old fresh : List VertexIndex) × IsUpdated sample_library 1 2 sample_state full_state old fresh
    × (fresh ≡ old ++ (if contains old 1 then [] else 1 ∷ []))
    × ((b : VertexIndex) → contains fresh b ≡ (contains old b || 1 == b))
join_coalition-IsUpdated_example =
    join_coalition-IsUpdated sample_library 1 2 sample_state full_state join_succeeds

abbrev left_state : State sample_library
left_state = (leave_coalition sample_library 0 2 full_state).0

leave_succeeds : leave_coalition sample_library 0 2 full_state ≡ (left_state, ok tt)
unfolding join_coalition leave_coalition Mutations.update_hyperedge_vertices_try mutate settle
    record_event run_all run fresh Mutations.add_vertex Mutations.add_hyperedge SortedMap.update
    joined
leave_succeeds = refl

sample_free : sample_state.poisoned ≡ false
unfolding run_all run fresh Mutations.add_vertex Mutations.add_hyperedge mutate settle
sample_free = refl

sample_members : sample_library.get_hyperedge_vertices 2 sample_state.graph ≡ done (0 ∷ [])
unfolding run_all run fresh Mutations.add_vertex Mutations.add_hyperedge mutate settle
    SortedMap.update
sample_members = refl

pub try_join_succeeds :
    try_join_coalition sample_library sociable (λ _ th. th) 1 2 sample_state
    ≡ (full_state, ok (record { act = true; score = 1 }))
unfolding try_join_coalition get_agent coalition_members agent_weights when_act get_vertex_weight
    get_hyperedge_vertices read join_coalition Mutations.update_hyperedge_vertices_try mutate settle
    record_event run_all run fresh Mutations.add_vertex Mutations.add_hyperedge SortedMap.update
    joined
try_join_succeeds = refl

pub try_join_panics :
    try_join_coalition sample_library alarmed (λ _ th. th) 1 2 sample_state
    ≡ (sample_state, panicked)
unfolding try_join_coalition get_agent coalition_members agent_weights get_vertex_weight
    get_hyperedge_vertices read mutate settle run_all run fresh Mutations.add_vertex
    Mutations.add_hyperedge SortedMap.update
try_join_panics = refl

members_read : get_hyperedge_vertices sample_library sample_state 2 ≡ ok (0 ∷ [])
unfolding get_hyperedge_vertices read run_all run fresh Mutations.add_vertex Mutations.add_hyperedge
    mutate settle SortedMap.update
members_read = refl

weights_read : (agent_weights sample_library (λ _ th. th) 2 (0 ∷ []) sample_state).1 ≡ ok (10 ∷ [])
unfolding agent_weights get_agent get_vertex_weight read run_all run fresh Mutations.add_vertex
    Mutations.add_hyperedge mutate settle SortedMap.update
weights_read = refl

sample-IsTrue : IsTrue empty sample_events
unfolding apply
sample-IsTrue = (tt, (tt, (refl, (refl, (refl, (tt, ((refl, refl, λ a p. p), (tt, (tt, tt)))))))))

open_memberships_example :
    is_some (HashMap.get 0 (history_loop 1 nothing_yet sample_events).membership_start)
    ≡ is_member 1 (members (replay empty sample_events) 0)
open_memberships_example = open_memberships 1 sample_events 0 sample-IsTrue

sample_order : IsChronological sample_events
unfolding timestamp
sample_order = omega arith
