-- ===== src/Subsystems/Fanout.antt =====
-- The loop of a task that hands each item of a channel to every one of its sinks, until its token is
-- cancelled or the channel closes: `spawn_decision_tee` (src/subsystems/coalition_actor.rs), whose
-- sinks are channels of their own. Log output is not modelled.
pub mod Delivery
use koalisi.Common.{List, [], ◌∷◌, map}
use koalisi.Remote.Buffer.{DecisionRecord}
use koalisi.Topology.Hypergraph.{SendOutcome, sent, full, closed}

-- What the `select!` of one round sees first.
pub data Arrival (A : Type 0) : Type 0 where
  received : A → Arrival A
  cancelled disconnected : Arrival A

module _ {A S : Type 0} (offer : A → S → S) where
  -- `for sink in sinks.iter()`
  unfoldable pub offer_each : A → List S → List S
  offer_each a [] = []
  offer_each a (s ∷ sinks) = offer a s ∷ offer_each a sinks

  unfoldable pub fan_out : List (Arrival A) → List S → List S
  unfolding offer_each
  fan_out [] sinks = sinks
  fan_out (received a ∷ later) sinks = fan_out later (offer_each a sinks)
  fan_out (cancelled ∷ later) sinks = sinks
  fan_out (disconnected ∷ later) sinks = sinks

-- A sink of the tee is the sender of a bounded channel, with its `try_send`; a record that a full or
-- a closed sink refuses is dropped.
module _ {Score Sink : Type 0} (try_send : DecisionRecord Score → Sink → Sink × SendOutcome) where
  unfoldable pub tee_to : DecisionRecord Score → Sink → Sink
  tee_to r sink =
      let (sink', outcome) = try_send r sink in
      elim outcome [ sent ↦ sink' | full ↦ sink' | closed ↦ sink' ]

  -- `spawn_decision_tee`
  unfoldable pub decision_tee : List (Arrival (DecisionRecord Score)) → List Sink → List Sink
  unfolding tee_to fan_out
  decision_tee = fan_out tee_to
