-- ===== src/Topology/EventLog/Positions.antt =====
-- Positions of events in a log, and the events selected by them (src/topology/event_log.rs).
use koalisi.Common.{
  ℕ, zero, suc, ◌+◌, ◌≡◌, refl, sym, ◌∙◌, some, List, [], ◌∷◌, ◌++◌, arith, length, get_elem?,
  replicate, count, append-nil, append_assoc, ◌==◌, ==_iff, Bool-cases, inl, inr, length-append,
  get_elem?-append_length,
}
use mathlib.Core.Path.{ap₂}
use native.Mathlib.Nat.{add-zero, zero-add}
use koalisi.Common.HashMap
use koalisi.Common.HashMap.{HashMap, get-update}
use koalisi.Topology.Events.{TemporalEvent}
use koalisi.Topology.EventLog.{or_default, pushed, push_each, select}

module _ {ℓ} {A : Type ℓ} where
  -- Each element as often as `n` says, in the order of the list.
  abbrev pub copies : (A → ℕ) → List A → List A
  copies n [] = []
  copies n (x ∷ xs) = replicate (n x) x ++ copies n xs

  -- The position of each element as often as `n` says, counted from `s`.
  abbrev pub positions : (A → ℕ) → ℕ → List A → List ℕ
  positions n s [] = []
  positions n s (x ∷ xs) = replicate (n x) s ++ positions n (suc s) xs

  pub positions-append :
      (n : A → ℕ) (s : ℕ) (xs : List A) (x : A)
      → positions n s (xs ++ x ∷ []) ≡ positions n s xs ++ replicate (n x) (s + length xs)
  positions-append n s [] x = simp (append-nil, add-zero)
  positions-append n s (y ∷ xs) x =
      let shift : s + suc (length xs) ≡ suc s + length xs = omega arith in
      simp (positions-append n (suc s) xs x, append_assoc, shift)

  pub copies-append :
      (n : A → ℕ) (xs ys : List A) → copies n (xs ++ ys) ≡ copies n xs ++ copies n ys
  copies-append n [] ys = refl
  copies-append n (x ∷ xs) ys = simp (copies-append n xs ys, append_assoc)

  replicate-add : (n m : ℕ) (x : A) → replicate n x ++ replicate m x ≡ replicate (n + m) x
  replicate-add zero m x = rw zero-add
  replicate-add (suc n) m x =
      let step : suc n + m ≡ suc (n + m) = omega arith in rw (step, replicate-add n m x)

  length-snoc : (xs : List A) (x : A) → length (xs ++ x ∷ []) ≡ suc (length xs)
  length-snoc xs x = omega (arith, length-append xs (x ∷ []))

module _ {V HE : Type 0} where
  pub select-append :
      (es : List (TemporalEvent V HE)) (is js : List ℕ)
      → select es (is ++ js) ≡ select es is ++ select es js
  unfolding select
  select-append es [] js = refl
  select-append es (i ∷ is) js = simp (select-append es is js, append_assoc)

  select-replicate :
      (es : List (TemporalEvent V HE)) (n i : ℕ) (e : TemporalEvent V HE)
      → get_elem? es i ≡ some e
      → select es (replicate n i) ≡ replicate n e
  unfolding select
  select-replicate es zero i e h = refl
  select-replicate es (suc n) i e h = rw (h, select-replicate es n i e h)

  select-positions_from :
      (n : TemporalEvent V HE → ℕ) (before es : List (TemporalEvent V HE))
      → select (before ++ es) (positions n (length before) es) ≡ copies n es
  select-positions_from n before [] = unfold select in refl
  select-positions_from n before (e ∷ es) =
      select-append (before ++ e ∷ es) (replicate (n e) (length before)) _
      ∙ ap₂ ◌++◌ (select-replicate _ (n e) (length before) e (get_elem?-append_length before e es))
          (rw (append_assoc, length-snoc before e) at
            (select-positions_from n (before ++ e ∷ []) es))

  -- The positions of some events select those events.
  pub select-positions :
      (n : TemporalEvent V HE → ℕ) (es : List (TemporalEvent V HE))
      → select es (positions n 0 es) ≡ copies n es
  select-positions n es = select-positions_from n [] es

-- A position pushed under several keys stands behind what each key had, once for each time that
-- the key occurs.
pub get-push_each :
    (ks : List ℕ) (i j : ℕ) (m : HashMap (List ℕ))
    → or_default (HashMap.get j (push_each ks i m))
      ≡ or_default (HashMap.get j m) ++ replicate (count j ks) i
unfolding push_each
get-push_each [] i j m = sym (append-nil _)
get-push_each (k ∷ ks) i j m =
    rw (get-push_each ks i j (HashMap.update k (pushed i) m), get-update k j (pushed i) m)
      (elim (Bool-cases (k == j)) [
        | inl e ↦ rw (e, (==_iff k j).0 e) (append_assoc (or_default (HashMap.get j m)) _ _)
        | inr e ↦ rw e
      ])

-- Two pushes in a row of the same position.
pub get-push_twice :
    (ks ls : List ℕ) (i j : ℕ) (m : HashMap (List ℕ))
    → or_default (HashMap.get j (push_each ks i (push_each ls i m)))
      ≡ or_default (HashMap.get j m) ++ replicate (count j ls + count j ks) i
get-push_twice ks ls i j m =
    rw (get-push_each, get-push_each, append_assoc, replicate-add (count j ls) (count j ks) i)
