-- ===== src/Harness/Rng.antt =====
-- src/harness/rng.rs: the SplitMix64 stream and the permutation drawn from it.
pub mod Draws
use Prim.Native.Nat.{bit_xor}
use koalisi.Common.{ℕ, zero, suc, ◌+◌, ◌*◌, ◌/◌, ◌%◌, ◌^◌, List, [], ◌∷◌, swap_at}

pub record SplitMix64 : Type 0 where
  pub state : ℕ

-- the xor with the bits shifted to the right
abbrev pub xor_shift : ℕ → ℕ → ℕ
xor_shift z bits = bit_xor z (z / 2 ^ bits)

-- The additions and products wrap around.
unfoldable pub next_u64 : SplitMix64 → SplitMix64 × ℕ
next_u64 rng =
    let state : ℕ = (rng.state + 11400714819323198485) % 2 ^ 64 in
    let first : ℕ = (xor_shift state 30 * 13787848793156543929) % 2 ^ 64 in
    let second : ℕ = (xor_shift first 27 * 10723151780598845931) % 2 ^ 64 in
    (record { state = state }, xor_shift second 31)

-- The remainder, for a bound of one or more.
unfoldable pub below : ℕ → SplitMix64 → SplitMix64 × ℕ
below bound rng = let next = next_u64 rng in (next.0, next.1 % bound)

-- `0..n`
abbrev pub range : ℕ → ℕ → List ℕ
range first zero = []
range first (suc n) = first ∷ range (suc first) n

-- `for i in (1..n).rev()`: the positions from `i` down
unfoldable pub shuffle_each : ℕ → SplitMix64 → List ℕ → SplitMix64 × List ℕ
shuffle_each zero rng out = (rng, out)
shuffle_each (suc i) rng out =
    let draw = below (suc i + 1) rng in shuffle_each i draw.0 (swap_at (suc i) draw.1 out)

unfoldable pub permutation : SplitMix64 → ℕ → SplitMix64 × List ℕ
permutation rng zero = (rng, [])
permutation rng (suc n) = shuffle_each n rng (range 0 (suc n))
