-- ===== src/Harness/Rng/Draws.antt =====
-- What is drawn is a permutation (src/harness/rng.rs).
use koalisi.Common.{
  ℕ, zero, suc, ◌+◌, ◌<◌, ◌≡◌, refl, ◌∙◌, List, arith, length, count, swap_at, count-swap_at,
  set_at, value_at, length-set_at, ltb, leb, if◌then◌else◌,
}
use koalisi.Harness.Rng.{SplitMix64, below, range, shuffle_each, permutation}

below-lt : (bound : ℕ) (rng : SplitMix64) → 0 < bound → (below bound rng).1 < bound
unfolding below
below-lt bound rng pos = omega arith

length-swap_at : (i j : ℕ) (xs : List ℕ) → length (swap_at i j xs) ≡ length xs
length-swap_at i j xs =
    length-set_at j (value_at xs i) (set_at i (value_at xs j) xs)
    ∙ length-set_at i (value_at xs j) xs

count-shuffle_each :
    (a i : ℕ) (rng : SplitMix64) (out : List ℕ)
    → i < length out
    → (count a (shuffle_each i rng out).1 ≡ count a out)
      × (length (shuffle_each i rng out).1 ≡ length out)
unfolding shuffle_each
count-shuffle_each a zero rng out lt = (refl, refl)
count-shuffle_each a (suc i) rng out lt =
    let draw = below (suc i + 1) rng in
    let small = below-lt (suc i + 1) rng (omega arith) in
    let size = length-swap_at (suc i) draw.1 out in
    let rest = count-shuffle_each a i draw.0 (swap_at (suc i) draw.1 out) (omega arith) in
    (rest.0 ∙ count-swap_at a (suc i) draw.1 out lt (omega arith), rest.1 ∙ size)

count-range :
    (a first n : ℕ)
    → count a (range first n) ≡ (if leb first a then (if ltb a (first + n) then 1 else 0) else 0)
count-range a first zero = ground arith
count-range a first (suc n) = ground (arith, count-range a (suc first) n)

length-range : (first n : ℕ) → length (range first n) ≡ n
length-range first zero = refl
length-range first (suc n) = omega (arith, length-range (suc first) n)

-- Whatever the state of the stream, what is drawn for `n` has length `n`, and each number below `n`
-- stands in it once and no other number does.
pub permutation-IsPermutation :
    (n a : ℕ) (rng : SplitMix64)
    → (length (permutation rng n).1 ≡ n)
      × (count a (permutation rng n).1 ≡ (if ltb a n then 1 else 0))
unfolding permutation
permutation-IsPermutation zero a rng = (refl, ground arith)
permutation-IsPermutation (suc n) a rng =
    let drawn =
      count-shuffle_each a n rng (range 0 (suc n)) (omega (arith, length-range 0 (suc n))) in
    (drawn.1 ∙ length-range 0 (suc n), drawn.0 ∙ count-range a 0 (suc n) ∙ ground arith)
