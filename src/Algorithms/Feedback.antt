-- ===== src/Algorithms/Feedback.antt =====
-- src/algorithms/feedback.rs: the counters of the agents' episodes and failures, and the calculator
-- that adds them to the value of a coalition. A store and its clones share their data, so that the
-- store is one state; a poisoned lock is recovered, so that no operation fails. The counters are 64
-- bits wide in the source and plain numbers here.
pub mod Counters
use koalisi.Common.{ℕ, ◌+◌, Bool, true, false, Option, none, some, List, [], ◌∷◌, if◌then◌else◌}
use koalisi.Common.HashMap
use koalisi.Common.HashMap.{HashMap}
use koalisi.Common.Floats.{Floats}
use koalisi.Algorithms.Agents.{AgentCapabilities}

pub record AgentFeedback : Type 0 where
  pub history : ℕ
  pub failures : ℕ

abbrev pub no_feedback : AgentFeedback
no_feedback = record { history = 0; failures = 0 }

-- `entry(id).or_default()`
abbrev pub or_default : Option AgentFeedback → AgentFeedback
or_default none = no_feedback
or_default (some r) = r

-- the counters after one more episode
unfoldable pub bumped : Bool → Option AgentFeedback → AgentFeedback
bumped is_failure o = record {
  history = (or_default o).history + 1;
  failures = if is_failure then (or_default o).failures + 1 else (or_default o).failures;
}

abbrev pub Records : Type 0
Records = HashMap AgentFeedback

-- `for &id in members`
unfoldable pub bump_each : Bool → List ℕ → Records → Records
bump_each is_failure [] records = records
bump_each is_failure (id ∷ members) records =
    bump_each is_failure members (HashMap.update id (bumped is_failure) records)

module _ (floats : Floats) where
  open floats use {F64, of_nat, add, sub, mul, lt, is_finite}

  -- `StoreInner`
  pub record FeedbackStore : Type 0 where
    pub failure_threshold : F64
    pub records : Records

  unfoldable pub new : F64 → FeedbackStore
  new failure_threshold = record { failure_threshold = failure_threshold; records = [] }

  unfoldable pub record_outcome : List ℕ → F64 → FeedbackStore → FeedbackStore
  unfolding bump_each
  record_outcome members value store =
      if is_finite value
      then record store {
        records = bump_each (lt value store.failure_threshold) members store.records;
      }
      else store

  unfoldable pub add_history : ℕ → ℕ → FeedbackStore → FeedbackStore
  add_history agent_id episodes store = record store {
    records =
        HashMap.update agent_id
          (λ o. record (or_default o) { history = (or_default o).history + episodes })
          store.records;
  }

  unfoldable pub history : ℕ → FeedbackStore → ℕ
  history agent_id store = (or_default (HashMap.get agent_id store.records)).history

  unfoldable pub failures : ℕ → FeedbackStore → ℕ
  failures agent_id store = (or_default (HashMap.get agent_id store.records)).failures

  abbrev pub history_unit : F64
  history_unit = of_nat 25

  abbrev pub failure_unit : F64
  failure_unit = of_nat 25

  pub record FeedbackCalculator : Type 0 where
    pub base : List AgentCapabilities → F64
    pub history_weight : F64
    pub failure_weight : F64
    pub store : FeedbackStore

  -- the loop over the agents, with the two totals
  unfoldable pub add_up : Records → List AgentCapabilities → F64 × F64 → F64 × F64
  add_up records [] totals = totals
  add_up records (a ∷ rest) (history_total, failure_total) =
      add_up records rest (elim (HashMap.get a.agent_id records) [
        | none ↦ (history_total, failure_total)
        | some r ↦ (add history_total (of_nat r.history), add failure_total (of_nat r.failures))
      ])

  unfoldable pub calculate_value : FeedbackCalculator → List AgentCapabilities → F64
  calculate_value c [] = of_nat 0
  calculate_value c (a ∷ rest) =
      let (history_total, failure_total) = add_up c.store.records (a ∷ rest) (of_nat 0, of_nat 0) in
      sub (add (c.base (a ∷ rest)) (mul (mul c.history_weight history_unit) history_total))
        (mul (mul c.failure_weight failure_unit) failure_total)
