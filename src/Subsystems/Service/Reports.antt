-- ===== src/Subsystems/Service/Reports.antt =====
-- What the coalition service reports on its taps (src/subsystems/coalition_actor.rs).
use koalisi.Common.{
  ℕ, ◌≡◌, refl, ap, sym, ◌∙◌, true, Option, some, List, [], ◌∷◌, ◌++◌, get_elem?,
  get_elem?-append_length, arith,
}
use koalisi.Topology.Errors.{Outcome, ok, err, panicked}
use koalisi.Topology.Hypergraph.{Library}
use koalisi.Topology.Temporal.{TemporalHypergraph, current_timestamp}
use koalisi.Topology.Events
use koalisi.Topology.Events.{
  VertexIndex, HyperedgeIndex, timestamp, hyperedge_vertices_updated, TemporalEvent,
}
use koalisi.Topology.EventLog.{append, len}
use koalisi.Topology.Timestamp.{current}
use koalisi.Topology.Coalitions.{Decision, Policy, without, try_join_coalition}
use koalisi.Topology.Coalitions.Gated.{try_join_coalition-IsActed, agent_weights-unchanged}
use koalisi.Topology.Coalitions.Membership.{join_coalition-IsUpdated}
use koalisi.Remote.Buffer.{DecisionKind, DecisionRecord}
use koalisi.Persistence.Forwarding.{DecisionTrace}
use koalisi.Subsystems.Service.{
  CoalitionCommand, join, leave, Answer, decided, Surroundings, Service, decision_record,
  emit_decision, try_emit, reported, serve, serve_command, Wake, received,
}

module _ {V HE : Type 0} (lib : Library V HE) (policy : Policy V)
    (around : Surroundings policy.Score) where
  open lib use {HypergraphError}
  open policy use {Score}

  abbrev Reply : Type 0
  Reply = Answer HypergraphError Score

  -- the record of a command's answer, if the answer is a decision
  abbrev pub record_of : CoalitionCommand → Reply → List (DecisionRecord Score)
  record_of (join agent coalition) (decided d) =
      decision_record lib policy around coalition agent DecisionKind.join d ∷ []
  record_of (leave agent coalition) (decided d) =
      decision_record lib policy around coalition agent DecisionKind.leave d ∷ []
  record_of _ _ = []

  -- the records of the answers of a run
  abbrev pub records_of :
      List (Wake lib policy around) → List (ℕ × Reply) → List (DecisionRecord Score)
  records_of (received reply command others meanwhile ∷ later) ((n, answer) ∷ answers) =
      record_of command answer ++ records_of later answers
  records_of _ _ = []

  abbrev pub emit_all : List (DecisionRecord Score) → Option around.Tap → Option around.Tap
  emit_all [] tap = tap
  emit_all (r ∷ rs) tap = emit_all rs (emit_decision lib policy around r tap)

  -- A join that is answered with a decision that acts, with a trace tap present and while nobody
  -- else changes the graph: the trace that is offered on the trace tap holds the decision, and the
  -- position and the timestamp of the event that records the join.
  pub serve_command-traced :
      (agent : VertexIndex) (coalition : HyperedgeIndex) (svc : Service lib policy around)
      (tap : around.TraceTap) (d : Decision Score) (svc' : Service lib policy around)
      → svc.trace_tap ≡ some tap
      → d.act ≡ true
      → serve_command lib policy around (join agent coalition) (λ _ th. th) svc
        ≡ (svc', decided d, true)
      → (trace : DecisionTrace Score) × (event : TemporalEvent V HE) × (svc'.trace_tap
          ≡ some (try_emit around.send_trace trace tap))
        × (trace.decided ≡ decision_record lib policy around coalition agent DecisionKind.join d)
        × (get_elem? svc'.manager.log.events trace.event_log_len ≡ some event)
        × (timestamp event ≡ trace.timestamp)
        × (Events.hyperedge_index event ≡ some coalition)
  unfolding serve_command append len timestamp current_timestamp Events.hyperedge_index
  serve_command-traced agent coalition svc tap d svc' has_tap acts h =
      go (try_join_coalition lib policy (λ _ th. th) agent coalition svc.manager) refl h
    where
      go :
          (x : TemporalHypergraph lib × Outcome HypergraphError (Decision Score))
          → try_join_coalition lib policy (λ _ th. th) agent coalition svc.manager ≡ x
          → serve lib policy around decided
              (reported lib policy around coalition agent DecisionKind.join svc x)
            ≡ (svc', decided d, true)
          → (trace : DecisionTrace Score) × (event : TemporalEvent V HE) × (svc'.trace_tap
              ≡ some (try_emit around.send_trace trace tap))
            × (trace.decided
                ≡ decision_record lib policy around coalition agent DecisionKind.join d)
            × (get_elem? svc'.manager.log.events trace.event_log_len ≡ some event)
            × (timestamp event ≡ trace.timestamp)
            × (Events.hyperedge_index event ≡ some coalition)
      go (th, ok given) call e =
          let same : given ≡ d = cc in
          let final = ap (λ t. t.0) e in
          let (weight, seen, views, weighed, _, _, read, _, (acted, kept)) =
            try_join_coalition-IsActed lib policy (λ _ m. m) svc.manager agent coalition given th
              call in
          let unmoved : weighed ≡ svc.manager =
            ap (λ x. x.0) (sym read)
            ∙ agent_weights-unchanged lib 2 (without agent seen) svc.manager in
          let (old, fresh, (_, _, logged), _, _) =
            join_coalition-IsUpdated lib agent coalition svc.manager th
              (rw (unmoved) at (acted (ap (λ x. x.act) same ∙ acts))) in
          let r = decision_record lib policy around coalition agent DecisionKind.join given in
          (
            record {
              decided = r;
              event_log_len = len svc.manager.log;
              timestamp = current_timestamp lib svc.manager;
            },
            hyperedge_vertices_updated (current svc.manager.clock) coalition old fresh,
            ap (λ s. s.trace_tap) (sym final) ∙ rw has_tap refl,
            ap (decision_record lib policy around coalition agent DecisionKind.join) same,
            ap (λ s. get_elem? s.manager.log.events (len svc.manager.log)) (sym final)
                ∙ ap (λ l. get_elem? l.events (len svc.manager.log)) logged
                ∙ get_elem?-append_length svc.manager.log.events _ [],
            refl,
            refl,
          )
      go (th, err x) call e = absurd (ground arith)
      go (th, panicked) call e = absurd (ground arith)
