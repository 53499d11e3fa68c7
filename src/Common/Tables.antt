-- ===== src/Common/Tables.antt =====
-- Lists of numbers as tables: reading and writing a position, and swapping two.
use Prim.Native.Nat.{ℕ, zero, suc, ◌+◌, ◌<◌}
use mathlib.Core.Path.{◌≡◌, refl, ap, ◌∙◌}
use mathlib.Core.Logic.{inl, inr}
use mathlib.Core.List.{List, [], ◌∷◌}
use native.Mathlib.Omega.{arith}
use koalisi.Common.Tests.{Bool-cases, if◌then◌else◌, ◌==◌}
use koalisi.Common.Lists.{length, count}

-- `p[i]`, for a position in the table
abbrev pub value_at : List ℕ → ℕ → ℕ
value_at [] i = 0
value_at (x ∷ xs) zero = x
value_at (x ∷ xs) (suc i) = value_at xs i

abbrev pub set_at : ℕ → ℕ → List ℕ → List ℕ
set_at i v [] = []
set_at zero v (x ∷ xs) = v ∷ xs
set_at (suc i) v (x ∷ xs) = x ∷ set_at i v xs

-- `swap`
abbrev pub swap_at : ℕ → ℕ → List ℕ → List ℕ
swap_at i j xs = set_at j (value_at xs i) (set_at i (value_at xs j) xs)

pub length-set_at : (i v : ℕ) (xs : List ℕ) → length (set_at i v xs) ≡ length xs
length-set_at i v [] = refl
length-set_at zero v (x ∷ xs) = refl
length-set_at (suc i) v (x ∷ xs) = omega (arith, length-set_at i v xs)

pub value_at-set_at :
    (i v j : ℕ) (xs : List ℕ)
    → i < length xs
    → value_at (set_at i v xs) j ≡ (if i == j then v else value_at xs j)
value_at-set_at i v j [] h = absurd (omega arith)
value_at-set_at zero v zero (x ∷ xs) h = ground arith
value_at-set_at zero v (suc j) (x ∷ xs) h = ground arith
value_at-set_at (suc i) v zero (x ∷ xs) h = ground arith
value_at-set_at (suc i) v (suc j) (x ∷ xs) h = ground (arith, value_at-set_at i v j xs)

abbrev number_of : ℕ → ℕ → ℕ
number_of a x = if x == a then 1 else 0

-- A write takes one element away and brings one in.
count-set_at :
    (a i v : ℕ) (xs : List ℕ)
    → i < length xs
    → count a (set_at i v xs) + number_of a (value_at xs i) ≡ count a xs + number_of a v
count-set_at a i v [] h = absurd (omega arith)
count-set_at a zero v (x ∷ xs) h = ground arith
count-set_at a (suc i) v (x ∷ xs) h = ground (arith, count-set_at a i v xs)

-- A swap keeps every element as often as it was.
pub count-swap_at :
    (a i j : ℕ) (xs : List ℕ)
    → i < length xs
    → j < length xs
    → count a (swap_at i j xs) ≡ count a xs
count-swap_at a i j xs hi hj =
    let ys = set_at i (value_at xs j) xs in
    let size : j < length ys = omega (arith, length-set_at i (value_at xs j) xs) in
    let there : value_at ys j ≡ value_at xs j =
      value_at-set_at i (value_at xs j) j xs hi
      ∙ elim (Bool-cases (i == j)) [ inl same ↦ rw same refl | inr other ↦ rw other refl ] in
    omega (
      arith,
      count-set_at a i (value_at xs j) xs hi,
      count-set_at a j (value_at xs i) ys size,
      ap (number_of a) there,
    )
