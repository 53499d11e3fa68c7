-- ===== src/Tests/Searches.antt =====
-- The partitions of four.
use koalisi.Common.{arith, true, ◌%◌, length, ◌≡◌, refl, [], ◌∷◌, if◌then◌else◌}
use koalisi.Algorithms.Partitions.{
  generate_partitions_recursive, generate_integer_partitions, verify_partition, sum_from,
  partition_count,
}
use koalisi.Algorithms.Partitions.Counting.{partition_count-length}
use koalisi.Algorithms.Partitions.Enumeration.{occurrences, occurrences-generate_integer_partitions}

partitions_of_4 :
    generate_integer_partitions 4
    ≡ (4 ∷ []) ∷ (3 ∷ 1 ∷ []) ∷ (2 ∷ 2 ∷ []) ∷ (2 ∷ 1 ∷ 1 ∷ []) ∷ (1 ∷ 1 ∷ 1 ∷ 1 ∷ []) ∷ []
unfolding generate_integer_partitions generate_partitions_recursive
partitions_of_4 = refl

-- A sum of `usize`s wraps: the check takes two halves of 2^8 for a partition of nothing.
wrapped_sum : verify_partition 255 (128 ∷ 128 ∷ []) 0 ≡ true
unfolding verify_partition sum_from
wrapped_sum = refl

occurrences-generate_integer_partitions_example :
    occurrences (2 ∷ 1 ∷ 1 ∷ []) (generate_integer_partitions 4)
    ≡ (if verify_partition 255 (2 ∷ 1 ∷ 1 ∷ []) 4 then 1 else 0)
occurrences-generate_integer_partitions_example =
    occurrences-generate_integer_partitions 255 4 (2 ∷ 1 ∷ 1 ∷ []) (omega arith)

-- In numbers below 7, the seven partitions of five are counted as none.
partition_count-length_example : partition_count 6 5 ≡ length (generate_integer_partitions 5) % 7
partition_count-length_example = partition_count-length 6 5 (omega arith)
