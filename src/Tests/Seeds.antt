-- ===== src/Tests/Seeds.antt =====
-- The stream of seed zero, against the outputs that the tests of src/harness/rng.rs name.
use koalisi.Common.{◌≡◌, refl, length, count, ltb, if◌then◌else◌}
use koalisi.Harness.Rng.{SplitMix64, next_u64, permutation}
use koalisi.Harness.Rng.Draws.{permutation-IsPermutation}

abbrev seed_zero : SplitMix64
seed_zero = record { state = 0 }

first_output : (next_u64 seed_zero).1 ≡ 16294208416658607535
unfolding next_u64
first_output = refl

second_output : (next_u64 (next_u64 seed_zero).0).1 ≡ 7960286522194355700
unfolding next_u64
second_output = refl

permutation-IsPermutation_example :
    (length (permutation seed_zero 4).1 ≡ 4)
    × (count 2 (permutation seed_zero 4).1 ≡ (if ltb 2 4 then 1 else 0))
permutation-IsPermutation_example = permutation-IsPermutation 4 2 seed_zero
