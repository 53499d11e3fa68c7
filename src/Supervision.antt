-- ===== src/Supervision.antt =====
-- src/core/supervision.rs: the restarts of a supervised task. A task instance is run by tokio; what
-- the supervisor sees of it is a `Life`. Instants and the window are numbers of one unit of time. Log output is not
-- modelled.
pub mod Budget
use koalisi.Common.{
  ℕ, ◌-◌, Bool, true, false, Option, none, some, List, [], ◌∷◌, ◌++◌, length, ltb, if◌then◌else◌,
}

-- One round of the loop: the token is cancelled before the start; or the instance completes, is
-- aborted, or panics, which is seen at an instant, when the token may be cancelled by then.
pub data Life : Type 0 where
  cancelled completed aborted : Life
  panicked : ℕ → Bool → Life

-- The supervisor still waits, has stopped, or has given up and cancelled the token.
pub data Ending : Type 0 where
  waiting stopped gave_up : Ending

module _ (restart_limit window : ℕ) where
  -- `while let Some(&front) = restarts.front()`; `duration_since` is zero for a later instant
  unfoldable pub prune : ℕ → List ℕ → List ℕ
  prune now [] = []
  prune now (front ∷ restarts) =
      let rest = prune now restarts in if ltb window (now - front) then rest else front ∷ restarts

  -- what follows a panic at `now`: the restarts that count, or none if the budget is spent
  unfoldable pub restarted : ℕ → List ℕ → Option (List ℕ)
  restarted now restarts =
      let recent = prune now restarts in
      if ltb (length recent) restart_limit then some (recent ++ now ∷ []) else none

  -- `supervise`, from the sliding window on: the instants of the restarts, and how the loop ended
  unfoldable pub supervise : List ℕ → List Life → List ℕ × Ending
  supervise restarts [] = ([], waiting)
  supervise restarts (panicked now false ∷ lives) = elim (restarted now restarts) [
    | none ↦ ([], gave_up)
    | some recent ↦ let (times, ending) = supervise recent lives in (now ∷ times, ending)
  ]
  supervise restarts (_ ∷ lives) = ([], stopped)
