-- ===== src/Common/Slices.antt =====
-- Lists cut at a position: `skip(n)` and `take(n)`.
use Prim.Native.Nat.{ℕ, zero, suc, ◌+◌, ◌-◌, ◌<◌, ◌≤◌}
use mathlib.Core.Path.{◌≡◌, refl, ap, sym, ◌∙◌}
use mathlib.Core.Option.{none, some}
use mathlib.Core.List.{List, [], ◌∷◌, ◌++◌, map}
use native.Mathlib.Omega.{arith}
use koalisi.Common.Lists.{All, length, get_elem?, last?}

-- `skip(n)` and `take(n)`
module _ {ℓ} {A : Type ℓ} where
  abbrev pub drop : ℕ → List A → List A
  drop zero xs = xs
  drop (suc k) [] = []
  drop (suc k) (x ∷ xs) = drop k xs

  abbrev pub take : ℕ → List A → List A
  take zero xs = []
  take (suc k) [] = []
  take (suc k) (x ∷ xs) = x ∷ take k xs

module _ {ℓ} {A : Type ℓ} where
  pub length-drop : (k : ℕ) (xs : List A) → length (drop k xs) ≡ length xs - k
  length-drop zero xs = omega arith
  length-drop (suc k) [] = omega arith
  length-drop (suc k) (x ∷ xs) = omega (arith, length-drop k xs)

  pub drop-append : (k : ℕ) (xs ys : List A) → k ≤ length xs → drop k (xs ++ ys) ≡ drop k xs ++ ys
  drop-append zero xs ys h = refl
  drop-append (suc k) [] ys h = absurd (omega arith)
  drop-append (suc k) (x ∷ xs) ys h = drop-append k xs ys (omega arith)

  pub drop-nil : (k : ℕ) → drop {A = A} k [] ≡ []
  drop-nil zero = refl
  drop-nil (suc k) = refl

  pub drop-drop : (j k n : ℕ) (xs : List A) → n ≡ k + j → drop j (drop k xs) ≡ drop n xs
  drop-drop j zero n xs h = ap (λ m. drop m xs) (omega arith)
  drop-drop j (suc k) n [] h = drop-nil j ∙ sym (drop-nil n)
  drop-drop j (suc k) zero (x ∷ xs) h = absurd (omega arith)
  drop-drop j (suc k) (suc n) (x ∷ xs) h = drop-drop j k n xs (omega arith)

  -- What is skipped and taken at the length of the first part.
  pub drop-length_append : (xs ys : List A) → drop (length xs) (xs ++ ys) ≡ ys
  drop-length_append [] ys = refl
  drop-length_append (x ∷ xs) ys = drop-length_append xs ys

  pub take-length_append : (xs ys : List A) → take (length xs) (xs ++ ys) ≡ xs
  take-length_append [] ys = refl
  take-length_append (x ∷ xs) ys = ap (λ r. x ∷ r) (take-length_append xs ys)

  pub length-take-le : (k : ℕ) (xs : List A) → length (take k xs) ≤ k
  length-take-le zero xs = omega arith
  length-take-le (suc k) [] = omega arith
  length-take-le (suc k) (x ∷ xs) = omega (arith, length-take-le k xs)

  pub length-take : (k : ℕ) (xs : List A) → k ≤ length xs → length (take k xs) ≡ k
  length-take zero xs h = refl
  length-take (suc k) [] h = absurd (omega arith)
  length-take (suc k) (x ∷ xs) h = omega (arith, length-take k xs (omega arith))

module _ {ℓ} {A : Type ℓ} where
  -- Taking more than there is takes all, and skipping as much leaves nothing.
  pub take_all : (k : ℕ) (xs : List A) → length xs ≤ k → take k xs ≡ xs
  take_all zero [] h = refl
  take_all zero (x ∷ xs) h = absurd (omega arith)
  take_all (suc k) [] h = refl
  take_all (suc k) (x ∷ xs) h = ap (λ r. x ∷ r) (take_all k xs (omega arith))

  pub drop_all : (k : ℕ) (xs : List A) → length xs ≤ k → drop k xs ≡ []
  drop_all zero [] h = refl
  drop_all zero (x ∷ xs) h = absurd (omega arith)
  drop_all (suc k) [] h = refl
  drop_all (suc k) (x ∷ xs) h = drop_all k xs (omega arith)

  -- What is left from a position in the list starts with the element there.
  pub drop-get_elem? :
      (k : ℕ) (xs : List A)
      → k < length xs
      → (x : A) × (get_elem? xs k ≡ some x) × (drop k xs ≡ x ∷ drop (suc k) xs)
  drop-get_elem? k [] h = absurd (omega arith)
  drop-get_elem? zero (x ∷ xs) h = (x, refl, refl)
  drop-get_elem? (suc k) (x ∷ xs) h = drop-get_elem? k xs (omega arith)

module _ {ℓ} {A : Type ℓ} where
  -- What is taken, and what then is left.
  pub take-append-drop : (k : ℕ) (xs : List A) → take k xs ++ drop (length (take k xs)) xs ≡ xs
  take-append-drop zero xs = refl
  take-append-drop (suc k) [] = refl
  take-append-drop (suc k) (x ∷ xs) = ap (λ t. x ∷ t) (take-append-drop k xs)

  pub take-none : (k : ℕ) (xs : List A) → last? (take (suc k) xs) ≡ none → xs ≡ []
  take-none k [] h = refl
  take-none k (x ∷ xs) h = absurd (ground arith)

  pub length-take_le : (k : ℕ) (xs : List A) → length (take k xs) ≤ length xs
  length-take_le zero xs = omega arith
  length-take_le (suc k) [] = omega arith
  length-take_le (suc k) (x ∷ xs) = omega (arith, length-take_le k xs)

pub map-drop {ℓ κ} :
    {A : Type ℓ} {B : Type κ} (f : A → B) (k : ℕ) (xs : List A)
    → map f (drop k xs) ≡ drop k (map f xs)
map-drop f zero xs = refl
map-drop f (suc k) [] = refl
map-drop f (suc k) (x ∷ xs) = map-drop f k xs

pub All-drop {ℓ κ} :
    {A : Type ℓ} (P : A → Type κ) (k : ℕ) (xs : List A) → All P xs → All P (drop k xs)
All-drop P zero xs h = h
All-drop P (suc k) [] h = tt
All-drop P (suc k) (x ∷ xs) h = All-drop P k xs h.1
