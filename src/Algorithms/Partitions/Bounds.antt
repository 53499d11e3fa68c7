-- ===== src/Algorithms/Partitions/Bounds.antt =====
-- The bounds of the partitions in src/algorithms/aipa.rs, and the choice among them. The comparison
-- `partial_cmp(…).unwrap_or(Equal)` is less, greater, or equal where neither holds. The sort is
-- stable; its order is unspecified where the values are not ordered (NaN), and the theorems do not
-- speak of it.
use koalisi.Common.{
  ℕ, ◌≤◌, ◌≡◌, ◌||◌, refl, ap, ◌∙◌, Bool, Option, none, some, List, [], ◌∷◌, map, length,
  if◌then◌else◌, arith, Bool-cases, inl, inr,
}
use koalisi.Common.HashMap
use koalisi.Common.HashMap.{HashMap}
use koalisi.Common.Floats.{Floats}
use koalisi.Algorithms.Partitions.{generate_integer_partitions, verify_partition}
use koalisi.Algorithms.Partitions.Enumeration.{
  sum, occurrences, occurrences-generate_integer_partitions,
}

module _ (floats : Floats) where
  open floats use {F64, of_nat, sub, div, total, max, lt, le}

  pub record PartitionBounds : Type 0 where
    pub partition : List ℕ
    pub upper_bound : F64
    pub lower_bound : F64

  unfoldable pub bound_range : PartitionBounds → F64
  bound_range b = sub b.upper_bound b.lower_bound

  -- `partial_cmp(…).unwrap()` panics (none) on values that are not ordered.
  abbrev pub comparable : F64 → F64 → Bool
  comparable a b = le a b || le b a

  -- `max_by` and `min_by`, from the first value on: the last of the greatest, the first of the least
  unfoldable pub max_by : F64 → List F64 → Option F64
  max_by acc [] = some acc
  max_by acc (v ∷ vs) =
      let rest = max_by (if lt v acc then acc else v) vs in if comparable acc v then rest else none

  unfoldable pub min_by : F64 → List F64 → Option F64
  min_by acc [] = some acc
  min_by acc (v ∷ vs) =
      let rest = min_by (if lt v acc then v else acc) vs in if comparable acc v then rest else none

  -- the values that are chosen for the sizes of a partition; none is a panic
  unfoldable pub chosen :
      (F64 → List F64 → Option F64) → List ℕ → HashMap (List F64) → Option (List F64)
  chosen choose [] values_by_size = some []
  chosen choose (s ∷ rest) values_by_size =
      let others = chosen choose rest values_by_size in
      elim (HashMap.get s values_by_size) [
        | none ↦ others
        | some values ↦ elim values [
          | [] ↦ others
          | ◌∷◌ v (vs → h) ↦ elim (choose v vs) [
            | none ↦ none
            | some w ↦ elim others [ none ↦ none | some ws ↦ some (w ∷ ws) ]
          ]
        ]
      ]

  unfoldable pub compute_partition_upper_bound : List ℕ → HashMap (List F64) → Option F64
  unfolding chosen max_by
  compute_partition_upper_bound partition values_by_size =
      elim (chosen max_by partition values_by_size) [ none ↦ none | some ws ↦ some (total ws) ]

  unfoldable pub compute_partition_min_bound : List ℕ → HashMap (List F64) → Option F64
  unfolding chosen min_by
  compute_partition_min_bound partition values_by_size =
      elim (chosen min_by partition values_by_size) [ none ↦ none | some ws ↦ some (total ws) ]

  -- `f64::NEG_INFINITY`, as 0 - 1 / 0
  abbrev pub neg_infinity : F64
  neg_infinity = sub (of_nat 0) (div (of_nat 1) (of_nat 0))

  abbrev pub fold_max : F64 → List F64 → F64
  fold_max acc [] = acc
  fold_max acc (v ∷ vs) = fold_max (max acc v) vs

  unfoldable pub aggregate_per_size : HashMap (List F64) → HashMap F64 × HashMap F64
  aggregate_per_size values_by_size = (
    map (λ kv. (kv.0, fold_max neg_infinity kv.1)) values_by_size,
    map (λ kv. (kv.0, div (total kv.1) (of_nat (length kv.1)))) values_by_size,
  )

  -- `filter_map`
  unfoldable pub values_of : List ℕ → HashMap F64 → List F64
  values_of [] m = []
  values_of (s ∷ rest) m = elim (HashMap.get s m) [
    | none ↦ values_of rest m
    | some v ↦ v ∷ values_of rest m
  ]

  unfoldable pub sum_for_partition : List ℕ → HashMap F64 → F64
  unfolding values_of
  sum_for_partition partition m = total (values_of partition m)

  unfoldable pub compute_partition_avg_bound : List ℕ → HashMap (List F64) → F64
  unfolding values_of
  compute_partition_avg_bound partition values_by_size = total (
      values_of partition
        (map (λ kv. (kv.0, div (total kv.1) (of_nat (length kv.1)))) values_by_size))

  unfoldable pub bounds_of : HashMap (List F64) → List ℕ → PartitionBounds
  bounds_of values_by_size partition =
      let (max_per_size, avg_per_size) = aggregate_per_size values_by_size in
      record {
        partition = partition;
        upper_bound = sum_for_partition partition max_per_size;
        lower_bound = sum_for_partition partition avg_per_size;
      }

  -- `sort_by`, the greatest upper bound first
  unfoldable pub insert_bounds : PartitionBounds → List PartitionBounds → List PartitionBounds
  insert_bounds b [] = b ∷ []
  insert_bounds b (c ∷ cs) =
      if lt b.upper_bound c.upper_bound then c ∷ insert_bounds b cs else b ∷ c ∷ cs

  unfoldable pub sort_bounds : List PartitionBounds → List PartitionBounds
  unfolding insert_bounds
  sort_bounds [] = []
  sort_bounds (b ∷ bs) = insert_bounds b (sort_bounds bs)

  unfoldable pub compute_all_partition_bounds : ℕ → HashMap (List F64) → List PartitionBounds
  compute_all_partition_bounds n values_by_size =
      sort_bounds (map (bounds_of values_by_size) (generate_integer_partitions n))

  -- `max_by`: the last of the greatest
  unfoldable pub best_from : PartitionBounds → List PartitionBounds → PartitionBounds
  best_from best [] = best
  best_from best (b ∷ bs) = best_from (if lt b.upper_bound best.upper_bound then best else b) bs

  abbrev pub best_of : List PartitionBounds → Option PartitionBounds
  best_of [] = none
  best_of (b ∷ bs) = some (best_from b bs)

  unfoldable pub find_best_partition : ℕ → HashMap (List F64) → Option PartitionBounds
  find_best_partition n values_by_size =
      best_of (map (bounds_of values_by_size) (generate_integer_partitions n))

  partitions-bounds_of :
      (values : HashMap (List F64)) (ps : List (List ℕ))
      → map (λ b. b.partition) (map (bounds_of values) ps) ≡ ps
  unfolding bounds_of
  partitions-bounds_of values [] = refl
  partitions-bounds_of values (p ∷ ps) = ap (λ l. p ∷ l) (partitions-bounds_of values ps)

  occurrences-insert_bounds :
      (p : List ℕ) (b : PartitionBounds) (bs : List PartitionBounds)
      → occurrences p (map (λ b. b.partition) (insert_bounds b bs))
        ≡ occurrences p (b.partition ∷ map (λ b. b.partition) bs)
  unfolding insert_bounds
  occurrences-insert_bounds p b [] = refl
  occurrences-insert_bounds p b (c ∷ cs) = elim (Bool-cases (lt b.upper_bound c.upper_bound)) [
    | inl below ↦ rw (below, insert_bounds) (omega (arith, occurrences-insert_bounds p b cs))
    | inr above ↦ rw (above, insert_bounds) refl
  ]

  occurrences-sort_bounds :
      (p : List ℕ) (bs : List PartitionBounds)
      → occurrences p (map (λ b. b.partition) (sort_bounds bs))
        ≡ occurrences p (map (λ b. b.partition) bs)
  unfolding sort_bounds
  occurrences-sort_bounds p [] = refl
  occurrences-sort_bounds p (b ∷ bs) =
      omega (arith, occurrences-insert_bounds p b (sort_bounds bs), occurrences-sort_bounds p bs)

  -- Whatever the values are, a list whose sum fits into a `usize` has its bounds computed once if it
  -- is a partition of the number, by the check, and not at all if it is none.
  pub occurrences-compute_all_partition_bounds :
      (usize_max n : ℕ) (values : HashMap (List F64)) (p : List ℕ)
      → sum p ≤ usize_max
      → occurrences p (map (λ b. b.partition) (compute_all_partition_bounds n values))
        ≡ (if verify_partition usize_max p n then 1 else 0)
  unfolding compute_all_partition_bounds
  occurrences-compute_all_partition_bounds usize_max n values p fits =
      occurrences-sort_bounds p (map (bounds_of values) (generate_integer_partitions n))
      ∙ ap (occurrences p) (partitions-bounds_of values (generate_integer_partitions n))
      ∙ occurrences-generate_integer_partitions usize_max n p fits
