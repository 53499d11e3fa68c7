-- ===== src/Supervision/Budget.antt =====
-- The restart budget in every window of the past, and what it allows (src/core/supervision.rs).
use koalisi.Common.{
  ℕ, ◌+◌, ◌-◌, ◌≤◌, ◌<◌, ◌≡◌, refl, ap, ◌∙◌, true, false, Option, none, some, List, [], ◌∷◌, ◌++◌,
  arith, length, length-append, map, filter, leb, ltb, Bool-cases, inl, inr,
}
use koalisi.Supervision.{
  Life, cancelled, completed, aborted, panicked, Ending, prune, restarted, supervise, gave_up,
  waiting,
}

module _ (restart_limit window : ℕ) where
  -- how many of the instants are at most a window before `now`
  abbrev pub within : ℕ → List ℕ → ℕ
  within now ts = length (filter (λ t. leb (now - t) window) ts)

  -- Each restart, together with the earlier ones in its window, is within the budget.
  abbrev pub IsRationed : List ℕ → List ℕ → Type 0
  IsRationed past [] = Unit
  IsRationed past (t ∷ ts) = (within t (t ∷ past) ≤ restart_limit) × IsRationed (t ∷ past) ts

  -- The panics are seen one after the other.
  abbrev pub IsOrdered : ℕ → List Life → Type 0
  IsOrdered last [] = Unit
  IsOrdered last (panicked now b ∷ lives) = (last ≤ now) × IsOrdered now lives
  IsOrdered last (_ ∷ lives) = IsOrdered last lives

  -- What is pruned is out of every later window.
  within-prune :
      (now later : ℕ) (ts : List ℕ)
      → now ≤ later
      → within later (prune restart_limit window now ts) ≡ within later ts
  unfolding prune
  within-prune now later [] h = refl
  within-prune now later (t ∷ ts) h = ground (arith, within-prune now later ts h)

  within-append : (now t : ℕ) (ts : List ℕ) → within now (ts ++ t ∷ []) ≡ within now (t ∷ ts)
  within-append now t [] = refl
  within-append now t (x ∷ ts) = ground (arith, within-append now t ts)

  within-length : (now : ℕ) (ts : List ℕ) → within now ts ≤ length ts
  within-length now [] = omega arith
  within-length now (t ∷ ts) = ground (arith, within-length now ts)

  -- The sliding window has all restarts that later windows can see.
  abbrev IsKept : ℕ → List ℕ → List ℕ → Type 0
  IsKept last past restarts = (later : ℕ) → last ≤ later → within later restarts ≡ within later past

  -- A restart that is allowed has found fewer recent restarts than the limit.
  restarted-some :
      (now : ℕ) (restarts recent : List ℕ)
      → restarted restart_limit window now restarts ≡ some recent
      → (length (prune restart_limit window now restarts) < restart_limit)
        × (recent ≡ prune restart_limit window now restarts ++ now ∷ [])
  unfolding restarted
  restarted-some now restarts recent h =
      elim (Bool-cases (ltb (length (prune restart_limit window now restarts)) restart_limit)) [
        | inl free ↦ (ground arith, ground arith)
        | inr spent ↦ absurd (ground arith)
      ]

  restart-IsKept :
      (last now : ℕ) (past restarts : List ℕ)
      → last ≤ now
      → IsKept last past restarts
      → IsKept now (now ∷ past) (prune restart_limit window now restarts ++ now ∷ [])
  restart-IsKept last now past restarts h kept later le =
      within-append later now (prune restart_limit window now restarts)
      ∙ ground (arith, within-prune now later restarts le, kept later (omega arith))

  abbrev goes_on : ℕ → List Life → Option (List ℕ) → List ℕ × Ending
  goes_on now lives o = elim o [
    | none ↦ ([], gave_up)
    | some recent ↦ (
      now ∷ (supervise restart_limit window recent lives).0,
      (supervise restart_limit window recent lives).1,
    )
  ]

  -- a restart that is allowed, and what follows it
  restarted-IsRationed :
      (last now : ℕ) (past restarts : List ℕ) (lives : List Life) (o : Option (List ℕ))
      → restarted restart_limit window now restarts ≡ o
      → last ≤ now
      → IsKept last past restarts
      → ((recent : List ℕ)
          → IsKept now (now ∷ past) recent
          → IsRationed (now ∷ past) (supervise restart_limit window recent lives).0)
      → IsRationed past (goes_on now lives o).0
  restarted-IsRationed last now past restarts lives none e h kept rest = tt
  restarted-IsRationed last now past restarts lives (some recent) e h kept rest =
      let recent_before = prune restart_limit window now restarts in
      let (free, same) = restarted-some now restarts recent e in
      let still = restart-IsKept last now past restarts h kept in
      (
        omega (
          arith,
          free,
          still now (omega arith),
          within-length now (recent_before ++ now ∷ []),
          length-append recent_before (now ∷ []),
        ),
        rest recent (rw same still),
      )

  supervise-IsRationed_from :
      (last : ℕ) (past restarts : List ℕ) (lives : List Life)
      → IsKept last past restarts
      → IsOrdered last lives
      → IsRationed past (supervise restart_limit window restarts lives).0
  unfolding supervise
  supervise-IsRationed_from last past restarts [] kept order = tt
  supervise-IsRationed_from last past restarts (panicked now false ∷ lives) kept order =
      restarted-IsRationed last now past restarts lives
        (restarted restart_limit window now restarts) refl order.0 kept
        (λ recent still. supervise-IsRationed_from now (now ∷ past) recent lives still order.1)
  supervise-IsRationed_from last past restarts (panicked now true ∷ lives) kept order = tt
  supervise-IsRationed_from last past restarts (cancelled ∷ lives) kept order = tt
  supervise-IsRationed_from last past restarts (completed ∷ lives) kept order = tt
  supervise-IsRationed_from last past restarts (aborted ∷ lives) kept order = tt

  -- When the panics are seen one after the other, no restart of a supervised task makes more
  -- restarts in the window before it, itself included, than the limit.
  pub supervise-IsRationed :
      (lives : List Life)
      → IsOrdered 0 lives
      → IsRationed [] (supervise restart_limit window [] lives).0
  supervise-IsRationed lives order = supervise-IsRationed_from 0 [] [] lives (λ later h. refl) order

  length-prune : (now : ℕ) (ts : List ℕ) → length (prune restart_limit window now ts) ≤ length ts
  unfolding prune
  length-prune now [] = omega arith
  length-prune now (t ∷ ts) = ground (arith, length-prune now ts)

  restarted-free :
      (now : ℕ) (restarts : List ℕ)
      → length restarts < restart_limit
      → restarted restart_limit window now restarts
        ≡ some (prune restart_limit window now restarts ++ now ∷ [])
  unfolding restarted
  restarted-free now restarts free = ground (arith, length-prune now restarts)

  supervise-within_limit_from :
      (restarts times : List ℕ)
      → length restarts + length times ≤ restart_limit
      → supervise restart_limit window restarts (map (λ t. panicked t false) times)
        ≡ (times, waiting)
  unfolding supervise
  supervise-within_limit_from restarts [] few = refl
  supervise-within_limit_from restarts (now ∷ times) few =
      let recent = prune restart_limit window now restarts ++ now ∷ [] in
      ap (goes_on now (map (λ t. panicked t false) times))
        (restarted-free now restarts (omega arith))
      ∙ ap (λ out. (now ∷ out.0, out.1))
          (supervise-within_limit_from recent times (
            omega (
              arith,
              length-prune now restarts,
              length-append (prune restart_limit window now restarts) (now ∷ []),
            )))

  -- A task that panics no more often than the limit, whenever it does, is restarted after each
  -- panic, while its token is not cancelled, and its supervisor does not give up.
  pub supervise-within_limit :
      (times : List ℕ)
      → length times ≤ restart_limit
      → supervise restart_limit window [] (map (λ t. panicked t false) times) ≡ (times, waiting)
  supervise-within_limit times few = supervise-within_limit_from [] times (omega arith)
