-- ===== src/Process/Residual/Covering.antt =====
-- What a further member covers (src/process/residual.rs).
use Prim.Native.Nat.{bit_and}
use koalisi.Common.{
  ℕ, ◌≤◌, ◌≡◌, Bool, true, not, ◌&&◌, Bool-cases, inl, inr, Option-cases, List, [], ◌∷◌, ◌++◌, ◌==◌,
  if◌then◌else◌, arith,
}
use koalisi.Common.Floats.{Floats}
use koalisi.Decision.Magnitude.{Engine}
use koalisi.Process.{Step, capability_mask}
use koalisi.Process.Residual.{
  Residual, Staff, any_can, step_staffed, uncovered_from, uncovered, saturating_add,
}

module _ (floats : Floats) (engine : Engine floats) (role_id : ℕ → engine.RoleId)
    (same_role : engine.RoleId → engine.RoleId → Bool) where
  open engine use {RoleId}

  any_can-append :
      (wanted : RoleId) (mask : ℕ) (staff : Staff floats engine role_id same_role) (x : RoleId × ℕ)
      → any_can floats engine role_id same_role wanted mask staff ≡ true
      → any_can floats engine role_id same_role wanted mask (staff ++ x ∷ []) ≡ true
  unfolding any_can
  any_can-append wanted mask [] x h = absurd (ground arith)
  any_can-append wanted mask ((role, caps) ∷ staff) x h =
      elim (Bool-cases (same_role role wanted && not (bit_and caps mask == 0))) [
        | inl able ↦ ground (arith, able)
        | inr unable ↦
            let ih = any_can-append wanted mask staff x (ground (arith, unable, h)) in
            ground (arith, unable, ih)
      ]

  step_staffed-append :
      (staff : Staff floats engine role_id same_role) (x : RoleId × ℕ) (step : Step)
      → step_staffed floats engine role_id same_role staff step ≡ true
      → step_staffed floats engine role_id same_role (staff ++ x ∷ []) step ≡ true
  unfolding step_staffed
  step_staffed-append staff x step h = elim (Option-cases (capability_mask step)) [
    | inl outside ↦ absurd (ground (arith, outside))
    | inr (mask, inside) ↦
        rw (step_staffed, inside)
          (any_can-append (role_id step.role) mask staff x (rw (inside, step_staffed) at h))
  ]

  uncovered_from-le :
      (staff : Staff floats engine role_id same_role) (x : RoleId × ℕ) (priced : List (Step × ℕ))
      (less more : ℕ)
      → less ≤ more
      → more ≤ 18446744073709551615
      → uncovered_from floats engine role_id same_role (staff ++ x ∷ []) less priced
        ≤ uncovered_from floats engine role_id same_role staff more priced
  unfolding uncovered_from
  uncovered_from-le staff x [] less more le fits = le
  uncovered_from-le staff x ((step, price) ∷ priced) less more le fits =
      elim (Bool-cases (step_staffed floats engine role_id same_role staff step)) [
        | inl staffed ↦
            let still = step_staffed-append staff x step staffed in
            rw (staffed, still) (uncovered_from-le staff x priced less more le fits)
        | inr unstaffed ↦
            rw (unstaffed, uncovered_from)
              (uncovered_from-le staff x priced
                (if step_staffed floats engine role_id same_role (staff ++ x ∷ []) step
                  then less
                  else saturating_add less price)
                (saturating_add more price) (ground arith) (omega arith))
      ]

  -- A further member, whatever its role and its capabilities, never leaves more of the priced demand
  -- uncovered: the subtraction in the correction of a join never stops at 0.
  pub uncovered-append :
      (staff : Staff floats engine role_id same_role) (x : RoleId × ℕ) (r : Residual)
      → uncovered floats engine role_id same_role (staff ++ x ∷ []) r
        ≤ uncovered floats engine role_id same_role staff r
  unfolding uncovered
  uncovered-append staff x r = uncovered_from-le staff x r.priced 0 0 (omega arith) (omega arith)
