-- ===== src/Subsystems/Outcome.antt =====
-- src/subsystems/outcome.rs: the outcomes of tasks, and the task that hands each of them to the
-- sinks. A sink is a clone of a feedback store, or the caller's hook, a closure with a state of its
-- own, which may also use the stores, and may panic. The forwarder catches a sink's panic. What
-- other threads do with the stores while the task runs, and log output, are not modelled.
pub mod Learning
use koalisi.Common.{ℕ, Bool, false, Option, none, some, List, [], ◌∷◌, if◌then◌else◌}
use koalisi.Common.Floats.{Floats}
use koalisi.Algorithms.Feedback.{FeedbackStore, record_outcome}
use koalisi.Topology.Hypergraph.{SendOutcome, sent, full, closed}
use koalisi.Topology.Queries.World.{put}
use koalisi.Subsystems.Fanout.{Arrival, received, cancelled, disconnected}

pub record TaskOutcome : Type 0 where
  -- a 32-bit mask
  pub required : ℕ
  pub members : List ℕ
  pub success : Bool

-- `emit_outcome`, on a bounded channel with its `try_send`
unfoldable pub emit_outcome :
    {Tap : Type 0} → (TaskOutcome → Tap → Tap × SendOutcome) → Option Tap → TaskOutcome → Option Tap
emit_outcome try_send none outcome = none
emit_outcome try_send (some tap) outcome =
    let (tap', result) = try_send outcome tap in
    elim result [ sent ↦ some tap' | full ↦ some tap' | closed ↦ some tap' ]

module _ (floats : Floats) where
  open floats use {of_nat}

  -- The data behind each store, by the number of its allocation: clones of a store have one number.
  abbrev pub Stores : Type 0
  Stores = ℕ → FeedbackStore floats

  module _ {Hook : Type 0} (call : Hook → TaskOutcome → Stores → Hook × Stores × Bool) where
    pub data OutcomeSink : Type 0 where
      store : ℕ → OutcomeSink
      hook : Hook → OutcomeSink

    -- `on_outcome`, and whether it panics
    unfoldable pub on_outcome : OutcomeSink → TaskOutcome → Stores → OutcomeSink × Stores × Bool
    on_outcome (store n) outcome stores =
        let value = if outcome.success then of_nat 1 else of_nat 0 in
        (store n, put n (record_outcome floats outcome.members value (stores n)) stores, false)
    on_outcome (hook h) outcome stores =
        let (h', stores', panics) = call h outcome stores in (hook h', stores', panics)

    -- `catch_unwind`: a panic is logged, and what the sink has done stays
    unfoldable pub deliver : TaskOutcome → OutcomeSink → Stores → OutcomeSink × Stores
    unfolding on_outcome
    deliver outcome sink stores =
        let (sink', stores', panics) = on_outcome sink outcome stores in (sink', stores')

    -- `for (i, sink) in sinks.iter().enumerate()`
    unfoldable pub deliver_each :
        TaskOutcome → List OutcomeSink → Stores → List OutcomeSink × Stores
    unfolding deliver
    deliver_each outcome [] stores = ([], stores)
    deliver_each outcome (sink ∷ rest) stores =
        let (sink', stores') = deliver outcome sink stores in
        let (rest', stores'') = deliver_each outcome rest stores' in (sink' ∷ rest', stores'')

    -- `spawn_outcome_forwarder`
    unfoldable pub forward_outcomes :
        List (Arrival TaskOutcome) → List OutcomeSink → Stores → List OutcomeSink × Stores
    unfolding deliver_each
    forward_outcomes [] sinks stores = (sinks, stores)
    forward_outcomes (received outcome ∷ later) sinks stores =
        let (sinks', stores') = deliver_each outcome sinks stores in
        forward_outcomes later sinks' stores'
    forward_outcomes (cancelled ∷ later) sinks stores = (sinks, stores)
    forward_outcomes (disconnected ∷ later) sinks stores = (sinks, stores)
