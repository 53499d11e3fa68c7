-- ===== src/Subsystems/Outcome/Learning.antt =====
-- What a feedback store has learned from the outcomes that the forwarder took
-- (src/subsystems/outcome.rs).
use koalisi.Common.{
  ℕ, suc, ◌+◌, ◌*◌, ◌==◌, ◌≡◌, Bool, true, false, List, [], ◌∷◌, count, if◌then◌else◌,
}
use koalisi.Common.Floats.{Floats}
use koalisi.Algorithms.Feedback.{FeedbackStore, history, failures}
use koalisi.Subsystems.Outcome.{TaskOutcome, Stores, OutcomeSink, store, hook}

-- how often an agent stands among the members of the outcomes, and of those that failed
abbrev pub episodes : ℕ → List TaskOutcome → ℕ
episodes id [] = 0
episodes id (o ∷ rest) = count id o.members + episodes id rest

abbrev pub failed_episodes : ℕ → List TaskOutcome → ℕ
failed_episodes id [] = 0
failed_episodes id (o ∷ rest) =
    (if o.success then 0 else count id o.members) + failed_episodes id rest

module _ (floats : Floats) where
  open floats use {F64, of_nat, lt, is_finite}

  -- The threshold stands between the values of a failure and of a success.
  pub record Separates (threshold : F64) : Type 0 where
    pub zero_finite : is_finite (of_nat 0) ≡ true
    pub one_finite : is_finite (of_nat 1) ≡ true
    pub zero_below : lt (of_nat 0) threshold ≡ true
    pub one_above : lt (of_nat 1) threshold ≡ false

  -- a store that has counted each of the outcomes so many times, on top of what it had
  abbrev pub HasLearned :
      ℕ → List TaskOutcome → FeedbackStore floats → FeedbackStore floats → Type 0
  HasLearned times outcomes before after =
      (after.failure_threshold ≡ before.failure_threshold)
      × ((id : ℕ)
          → history floats id after ≡ history floats id before + times * episodes id outcomes)
      × ((id : ℕ)
          → failures floats id after
            ≡ failures floats id before + times * failed_episodes id outcomes)

  module _ {Hook : Type 0}
      (call : Hook → TaskOutcome → Stores floats → Hook × Stores floats × Bool) where
    -- how many of the sinks are clones of a store
    abbrev pub clones : ℕ → List (OutcomeSink floats call) → ℕ
    clones n [] = 0
    clones n (store m ∷ rest) = if m == n then suc (clones n rest) else clones n rest
    clones n (hook h ∷ rest) = clones n rest

    -- No hook touches the data of a store.
    abbrev pub IsApart : ℕ → Type 0
    IsApart n =
        (h : Hook) (o : TaskOutcome) (stores : Stores floats) → (call h o stores).1 n ≡ stores n
