-- ===== src/Topology/Queries/Scans.antt =====
-- The loops of the queries against a replay of the whole log (src/topology/queries.rs).
use koalisi.Common.{
  ℕ, zero, suc, ◌≤◌, ◌<◌, ◌≡◌, refl, ◌∙◌, false, List, [], ◌∷◌, ◌++◌, arith, replicate, All,
  All-map, ltb, leb, Bool-cases, leb→le, zero-cases, inl, inr,
}
use koalisi.Topology.Timestamp.{Timestamp}
use koalisi.Topology.Events.{TemporalEvent, timestamp}
use koalisi.Topology.EventLog.Positions.{copies}
use koalisi.Topology.EventLog.Chronology.{IsChronological}
use koalisi.Topology.Queries.{scan_until}
use koalisi.Topology.Queries.World.{World, apply, replay, up_to, IsEnabled, IsReplayable}

le→not-lt : (a b : ℕ) → a ≤ b → ltb b a ≡ false
le→not-lt a b h = ground arith

-- A query's loop follows the replay: `view` is what the query asks of the replayed world, and `n`
-- says how often an event stands in the list that the loop goes through.
pub record Follows {V HE S : Type 0} (step : S → TemporalEvent V HE → S)
    (n : TemporalEvent V HE → ℕ) (view : World V HE → S) : Type 0 where
  pub again : (s : S) (e : TemporalEvent V HE) → step (step s e) e ≡ step s e
  pub skipped :
      (w : World V HE) (e : TemporalEvent V HE)
      → IsEnabled w e
      → n e ≡ 0
      → view (apply w e) ≡ view w
  pub stepped :
      (w : World V HE) (e : TemporalEvent V HE) (k : ℕ)
      → IsEnabled w e
      → n e ≡ suc k
      → view (apply w e) ≡ step (view w) e

module _ {V HE S : Type 0} (step : S → TemporalEvent V HE → S) where
  -- After the moment nothing counts.
  scan_until-late :
      (t : Timestamp) (s : S) (n : TemporalEvent V HE → ℕ) (es : List (TemporalEvent V HE))
      → All (λ e. t < timestamp e) es
      → scan_until step t s (copies n es) ≡ s
  unfolding scan_until
  scan_until-late t s n [] h = refl
  scan_until-late t s n (e ∷ es) h = go (scan_until-late t s n es h.1) (n e)
    where
      go :
          scan_until step t s (copies n es) ≡ s
          → (k : ℕ) → scan_until step t s (replicate k e ++ copies n es) ≡ s
      go ih zero = ih
      go ih (suc k) = ground arith

  module _ (again : (s : S) (e : TemporalEvent V HE) → step (step s e) e ≡ step s e) where
    -- Further copies of an event change nothing.
    scan_until-replicate :
        (t : Timestamp) (s : S) (k : ℕ) (e : TemporalEvent V HE) (es : List (TemporalEvent V HE))
        → timestamp e ≤ t
        → scan_until step t (step s e) (replicate k e ++ es) ≡ scan_until step t (step s e) es
    unfolding scan_until
    scan_until-replicate t s zero e es h = refl
    scan_until-replicate t s (suc k) e es h =
        rw (le→not-lt (timestamp e) t h, again) (scan_until-replicate t s k e es h)

module _ {V HE : Type 0} where
  up_to-late :
      (t : Timestamp) (es : List (TemporalEvent V HE))
      → All (λ e. t < timestamp e) es
      → up_to t es ≡ []
  up_to-late t [] h = refl
  up_to-late t (e ∷ es) h = ground (arith, up_to-late t es h.1)

  All-late :
      (t : Timestamp) (e : TemporalEvent V HE) (es : List (TemporalEvent V HE))
      → leb (timestamp e) t ≡ false
      → IsChronological (e ∷ es)
      → All (λ x. t < timestamp x) (e ∷ es)
  All-late t e es late order = (ground arith, All-map _ _ (λ x p. ground arith) es order.0)

module _ {V HE S : Type 0} {step : S → TemporalEvent V HE → S} {n : TemporalEvent V HE → ℕ}
    {view : World V HE → S} (follows : Follows step n view) where
  -- One event that is not too late: the loop makes the replay's step.
  scan_until-event :
      (t : Timestamp) (w : World V HE) (e : TemporalEvent V HE) (es : List (TemporalEvent V HE))
      → timestamp e ≤ t
      → IsEnabled w e
      → scan_until step t (view w) (replicate (n e) e ++ es)
        ≡ scan_until step t (view (apply w e)) es
  unfolding scan_until
  scan_until-event t w e es le enabled = elim (zero-cases (n e)) [
    | inl none ↦ rw (none, follows.skipped w e enabled none)
    | inr (k, more) ↦
        rw (more, le→not-lt (timestamp e) t le, follows.stepped w e k enabled more)
          (scan_until-replicate step follows.again t (view w) k e es le)
  ]

  -- On a log in time order, a query about a moment sees what stands when the events up to that
  -- moment are replayed.
  pub scan_until-replay :
      (t : Timestamp) (w : World V HE) (es : List (TemporalEvent V HE))
      → IsChronological es
      → IsReplayable w (up_to t es)
      → scan_until step t (view w) (copies n es) ≡ view (replay w (up_to t es))
  unfolding replay
  scan_until-replay t w [] order enabled = unfold scan_until in refl
  scan_until-replay t w (e ∷ es) order enabled = elim (Bool-cases (leb (timestamp e) t)) [
    | inl le ↦
        let ok : IsReplayable w (e ∷ up_to t es) = rw le at enabled in
        rw le (
          scan_until-event t w e (copies n es) (leb→le (timestamp e) t le) ok.0
          ∙ scan_until-replay t (apply w e) es order.1 ok.1)
    | inr late ↦
        rw (up_to-late t (e ∷ es) (All-late t e es late order))
          (scan_until-late step t (view w) n (e ∷ es) (All-late t e es late order))
  ]
