-- ===== src/Subsystems/Service.antt =====
-- `CoalitionService` of src/subsystems/coalition_actor.rs: the task that takes commands from a
-- channel, asks the policy, changes the membership, and reports decisions on its taps. The command
-- channel and the reply channels are tokio's: a run is the list of what the `select!` of each round
-- sees, a reply channel is a number, and the replies are the list of what is sent on them. A panic
-- of the policy, or of a job on the graph, is an outcome of the manager's operation. The taps, with
-- their `try_send`, and the text of a coalition's label, `format!("coalition-{}", n)`, are
-- parameters. Log output is not modelled.
pub mod Errors
pub mod Answers
pub mod Reports
use Prim.Native.String.{String}
use koalisi.Common.{ℕ, Bool, true, false, Option, none, some, List, [], ◌∷◌, map, if◌then◌else◌}
use koalisi.Common.HashMap
use koalisi.Topology.Events.{VertexIndex, HyperedgeIndex}
use koalisi.Topology.EventLog.{len}
use koalisi.Topology.Errors.{Outcome, ok, err, panicked}
use koalisi.Topology.Hypergraph.{Library, SendOutcome, sent, full, closed}
use koalisi.Topology.Temporal.{TemporalHypergraph, current_timestamp}
use koalisi.Topology.Coalitions.{
  Decision, Policy, Others, coalition_members, try_join_coalition, try_leave_coalition,
}
use koalisi.Remote.Buffer.{DecisionKind, DecisionRecord}
use koalisi.Persistence.Forwarding.{DecisionTrace}
use koalisi.Subsystems.Service.Errors.{ServiceError, cancelled, topology}

pub data CoalitionCommand : Type 0 where
  join leave : VertexIndex → HyperedgeIndex → CoalitionCommand
  members : HyperedgeIndex → CoalitionCommand

-- what a reply channel carries
pub data Answer (E Score : Type 0) : Type 0 where
  decided : Decision Score → Answer E Score
  listed : List VertexIndex → Answer E Score
  refused : ServiceError E → Answer E Score

-- What the environment of the service does: the operations of its taps, and the label of a coalition.
pub record Surroundings (Score : Type 0) : Type 1 where
  pub Tap : Type 0
  pub TraceTap : Type 0
  pub send : DecisionRecord Score → Tap → Tap × SendOutcome
  pub send_trace : DecisionTrace Score → TraceTap → TraceTap × SendOutcome
  pub label : HyperedgeIndex → String

pub record DecisionPosition : Type 0 where
  pub event_log_len : ℕ
  pub timestamp : ℕ

-- `try_emit`: whatever becomes of the item, the tap's user goes on
unfoldable pub try_emit : {Item Tap : Type 0} → (Item → Tap → Tap × SendOutcome) → Item → Tap → Tap
try_emit send item tap =
    let (tap', outcome) = send item tap in
    elim outcome [ sent ↦ tap' | full ↦ tap' | closed ↦ tap' ]

module _ {V HE : Type 0} (lib : Library V HE) (policy : Policy V)
    (around : Surroundings policy.Score) where
  open lib use {HypergraphError}
  open policy use {Score}
  open around use {Tap, TraceTap, send, send_trace, label}

  pub record Service : Type 0 where
    pub manager : TemporalHypergraph lib
    pub tap : Option Tap
    pub trace_tap : Option TraceTap
    pub flag : Bool

  unfoldable pub decision_position :
      Option TraceTap → TemporalHypergraph lib → Option DecisionPosition
  decision_position none manager = none
  decision_position (some tap) manager =
      some (record { event_log_len = len manager.log; timestamp = current_timestamp lib manager })

  unfoldable pub decision_record :
      HyperedgeIndex → VertexIndex → DecisionKind → Decision Score → DecisionRecord Score
  decision_record coalition agent kind decision = record {
    coalition = label coalition;
    agent_id = agent;
    kind = kind;
    act = decision.act;
    score = decision.score;
  }

  unfoldable pub emit_decision : DecisionRecord Score → Option Tap → Option Tap
  unfolding try_emit
  emit_decision r none = none
  emit_decision r (some tap) = some (try_emit send r tap)

  abbrev pub trace_of : DecisionRecord Score → DecisionPosition → DecisionTrace Score
  trace_of r position = record {
    decided = r;
    event_log_len = position.event_log_len;
    timestamp = position.timestamp;
  }

  unfoldable pub emit_trace :
      DecisionRecord Score → Option DecisionPosition → Option TraceTap → Option TraceTap
  unfolding try_emit
  emit_trace r position none = none
  emit_trace r none (some tap) = some tap
  emit_trace r (some position) (some tap) = some (try_emit send_trace (trace_of r position) tap)

  -- The work of a join or a leave, after the manager's call: only a decision is reported.
  unfoldable pub reported :
      HyperedgeIndex
      → VertexIndex
      → DecisionKind
      → Service
      → TemporalHypergraph lib × Outcome HypergraphError (Decision Score)
      → Service × Outcome HypergraphError (Decision Score)
  unfolding decision_position decision_record emit_decision emit_trace
  reported coalition agent kind svc (manager, ok decision) =
      let r = decision_record coalition agent kind decision in
      let position = decision_position svc.trace_tap svc.manager in
      (
        record svc {
          manager = manager;
          tap = emit_decision r svc.tap;
          trace_tap = emit_trace r position svc.trace_tap;
        },
        ok decision,
      )
  reported coalition agent kind svc (manager, err e) = (record svc { manager = manager }, err e)
  reported coalition agent kind svc (manager, panicked) =
      (record svc { manager = manager }, panicked)

  -- `serve`: the answer, and whether the loop goes on
  unfoldable pub serve :
      {T : Type 0}
      → (T → Answer HypergraphError Score)
      → Service × Outcome HypergraphError T
      → Service × Answer HypergraphError Score × Bool
  serve answer (svc, ok output) = (svc, answer output, true)
  serve answer (svc, err e) = (svc, refused (topology e), true)
  serve answer (svc, panicked) = (record svc { flag = true }, refused ServiceError.panicked, false)

  -- one command, with what others do to the graph between its steps
  unfoldable pub serve_command :
      CoalitionCommand → Others lib → Service → Service × Answer HypergraphError Score × Bool
  unfolding reported serve
  serve_command (join agent coalition) meanwhile svc = serve decided (
      reported coalition agent DecisionKind.join svc
        (try_join_coalition lib policy meanwhile agent coalition svc.manager))
  serve_command (leave agent coalition) meanwhile svc = serve decided (
      reported coalition agent DecisionKind.leave svc
        (try_leave_coalition lib policy meanwhile agent coalition svc.manager))
  serve_command (members coalition) meanwhile svc =
      let (manager, out) = coalition_members lib coalition svc.manager in
      serve listed (record svc { manager = manager }, out)

  -- What the `select!` of a round sees: a cancelled token, with the commands then queued; a command,
  -- with its reply channel with what others have done to the graph since the last round, and with what
  -- they do between the steps of the command; or that all senders are gone.
  pub data Wake : Type 0 where
    token_cancelled : List (ℕ × CoalitionCommand) → Wake
    received :
        ℕ → CoalitionCommand → (TemporalHypergraph lib → TemporalHypergraph lib) → Others lib → Wake
    all_dropped : Wake

  unfoldable pub refuse_queued :
      List (ℕ × CoalitionCommand) → List (ℕ × Answer HypergraphError Score)
  refuse_queued [] = []
  refuse_queued ((reply, command) ∷ queued) = (reply, refused cancelled) ∷ refuse_queued queued

  unfoldable pub service_loop :
      List Wake → Service → Service × List (ℕ × Answer HypergraphError Score)
  unfolding serve_command refuse_queued
  service_loop [] svc = (svc, [])
  service_loop (token_cancelled queued ∷ later) svc = (svc, refuse_queued queued)
  service_loop (all_dropped ∷ later) svc = (svc, [])
  service_loop (received reply command others meanwhile ∷ later) svc =
      let (svc', answer, goes_on) =
        serve_command command meanwhile (record svc { manager = others svc.manager }) in
      let (last, answers) = service_loop later svc' in
      if goes_on then (last, (reply, answer) ∷ answers) else (svc', (reply, answer) ∷ [])

  -- `CoalitionServiceHandle::request`: when the command could be sent or not, and what came back
  unfoldable pub request :
      Bool → ℕ → List (ℕ × Answer HypergraphError Score) → Answer HypergraphError Score
  request false reply answers = refused ServiceError.gone
  request true reply answers = elim (HashMap.get reply answers) [
    | none ↦ refused ServiceError.reply_dropped
    | some answer ↦ answer
  ]
