-- ===== src/Tests/Services.antt =====
-- A service over the small graph library.
use koalisi.Common.{ℕ, ◌≡◌, refl, true, false, some, List, [], ◌∷◌, get_elem?}
use koalisi.Topology.Errors.{ok}
use koalisi.Topology.Events
use koalisi.Topology.Events.{TemporalEvent, timestamp}
use koalisi.Topology.Hypergraph.{sent, full}
use koalisi.Remote.Buffer.{DecisionKind}
use koalisi.Persistence.Forwarding.{DecisionTrace}
use koalisi.Subsystems.Service.{
  Surroundings, Service, join, leave, members, decided, listed, refused, Wake, received,
  token_cancelled, service_loop, serve_command, serve, reported, decision_record, try_emit,
}
use koalisi.Subsystems.Service.Reports.{serve_command-traced}
use koalisi.Tests.Graphs.{sample_library, sample_state}
use koalisi.Tests.Agents.{sociable, alarmed, full_state, try_join_succeeds, try_join_panics}
use koalisi.Topology.Coalitions.{coalition_members}
use koalisi.Topology.Temporal.{get_hyperedge_vertices, read, mutate, settle, fresh}
use koalisi.Topology.Temporal.Mutations
use koalisi.Topology.Temporal.Runs.{run, run_all}
use koalisi.Common.SortedMap
use koalisi.Subsystems.Service.Errors.{ServiceError}

-- The tap of decisions is full; the other one keeps what it is sent.
abbrev lists : Surroundings ℕ
lists = record {
  Tap = ℕ;
  TraceTap = List (DecisionTrace ℕ);
  send = λ r tap. (tap, full);
  send_trace = λ trace tap. (trace ∷ tap, sent);
  label = λ n. "coalition";
}

abbrev sample_service : Service sample_library sociable lists
sample_service = record { manager = sample_state; tap = some 0; trace_tap = some []; flag = false }

abbrev three_wakes : List (Wake sample_library sociable lists)
three_wakes =
    received 5 (join 1 2) (λ th. th) (λ _ th. th)
    ∷ received 6 (members 2) (λ th. th) (λ _ th. th)
    ∷ token_cancelled ((7, leave 0 2) ∷ [])
    ∷ []

-- the same with a policy that panics
abbrev alarmed_service : Service sample_library alarmed lists
alarmed_service = record { manager = sample_state; tap = some 0; trace_tap = some []; flag = false }

abbrev alarmed_wakes : List (Wake sample_library alarmed lists)
alarmed_wakes =
    received 5 (members 2) (λ th. th) (λ _ th. th)
    ∷ received 6 (join 1 2) (λ th. th) (λ _ th. th)
    ∷ received 7 (members 2) (λ th. th) (λ _ th. th)
    ∷ []

-- The panic of the policy is answered, sets the flag, and ends the loop.
panic_ends_loop :
    let (svc', answers) = service_loop sample_library alarmed lists alarmed_wakes alarmed_service in
    (svc'.flag ≡ true) × (answers ≡ (5, listed (0 ∷ [])) ∷ (6, refused ServiceError.panicked) ∷ [])
unfolding service_loop serve_command serve reported coalition_members get_hyperedge_vertices read
    mutate settle run_all run fresh Mutations.add_vertex Mutations.add_hyperedge SortedMap.update
panic_ends_loop = (rw try_join_panics refl, rw try_join_panics refl)

abbrev after_join : Service sample_library sociable lists
after_join =
    (reported sample_library sociable lists 2 1 DecisionKind.join sample_service
      (full_state, ok (record { act = true; score = 1 }))).0

join_served :
    serve_command sample_library sociable lists (join 1 2) (λ _ th. th) sample_service
    ≡ (after_join, decided (record { act = true; score = 1 }), true)
unfolding serve_command serve reported
join_served = rw try_join_succeeds refl

serve_command-traced_example :
    (trace : DecisionTrace ℕ) × (event : TemporalEvent ℕ ℕ) × (after_join.trace_tap
      ≡ some (try_emit lists.send_trace trace []))
    × (trace.decided
        ≡ decision_record sample_library sociable lists 2 1 DecisionKind.join
            (record { act = true; score = 1 }))
    × (get_elem? after_join.manager.log.events trace.event_log_len ≡ some event)
    × (timestamp event ≡ trace.timestamp)
    × (Events.hyperedge_index event ≡ some 2)
serve_command-traced_example =
    serve_command-traced sample_library sociable lists 1 2 sample_service []
      (record { act = true; score = 1 }) after_join refl refl join_served
