-- ===== src/Topology/Coalitions/Seeding.antt =====
-- `seed_feedback_history` of src/topology/coalitions.rs: the feedback store is given the number of an
-- agent's memberships in the log. The number of an agent's weight is a parameter.
use koalisi.Common.{ℕ, List, [], ◌∷◌, length}
use koalisi.Common.Floats.{Floats}
use koalisi.Topology.Events.{VertexIndex}
use koalisi.Topology.Errors.{Outcome, ok, err, panicked}
use koalisi.Topology.Hypergraph.{Library}
use koalisi.Topology.Temporal.{TemporalHypergraph}
use koalisi.Topology.Coalitions.{get_agent}
use koalisi.Topology.Coalitions.History.{agent_coalition_history}
use koalisi.Algorithms.Feedback.{FeedbackStore, add_history}

module _ {V HE : Type 0} (lib : Library V HE) (floats : Floats) (agent_id : V → ℕ) where
  open lib use {HypergraphError}

  -- An agent that cannot be read ends the loop; those before it stay seeded.
  unfoldable pub seed_feedback_history :
      List VertexIndex
      → TemporalHypergraph lib
      → FeedbackStore floats
      → FeedbackStore floats × Outcome HypergraphError Unit
  seed_feedback_history [] th store = (store, ok tt)
  seed_feedback_history (idx ∷ agents) th store =
      let seeded : V → FeedbackStore floats = λ agent.
        add_history floats (agent_id agent) (length (agent_coalition_history idx th.log.events))
          store in
      elim (get_agent lib idx th).1 [
        | ok agent ↦ seed_feedback_history agents th (seeded agent)
        | err e ↦ (store, err e)
        | panicked ↦ (store, panicked)
      ]
