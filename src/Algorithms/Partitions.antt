-- ===== src/Algorithms/Partitions.antt =====
-- src/algorithms/aipa.rs: the integer partitions that the search goes through, and their check.
-- The additions of the check and of the count are on `usize`s, with `usize_max` the largest: they
-- wrap around, as in a release build (a debug build panics in their place).
pub mod Enumeration
pub mod Counting
pub mod Bounds
use koalisi.Common.{
  ℕ, zero, suc, ◌+◌, ◌-◌, ◌%◌, Bool, true, false, not, ◌&&◌, List, [], ◌∷◌, ◌++◌, leb, ltb, ◌==◌,
  contains, replicate, value_at, set_at, if◌then◌else◌,
}

-- `for i in (1..=k).rev()`
abbrev pub for_each_down : {R : Type 0} → (ℕ → R → R) → ℕ → R → R
for_each_down f zero r = r
for_each_down f (suc k) r = for_each_down f k (f (suc k) r)

-- The recursion on what is left of the number, on fuel: each part is at least one. `current` is what
-- was chosen so far, and the results are pushed.
unfoldable pub generate_partitions_recursive : ℕ → ℕ → ℕ → List ℕ → List (List ℕ) → List (List ℕ)
generate_partitions_recursive zero n max_value current result =
    if n == 0 then result ++ current ∷ [] else result
generate_partitions_recursive (suc fuel) n max_value current result =
    if n == 0
    then result ++ current ∷ []
    else for_each_down (λ i r. generate_partitions_recursive fuel (n - i) i (current ++ i ∷ []) r)
        (if ltb max_value n then max_value else n) result

unfoldable pub generate_integer_partitions : ℕ → List (List ℕ)
generate_integer_partitions n =
    if n == 0 then [] ∷ [] else generate_partitions_recursive n n n [] []

-- `iter().sum::<usize>()`, from what was summed up so far
unfoldable pub sum_from : ℕ → ℕ → List ℕ → ℕ
sum_from usize_max acc [] = acc
sum_from usize_max acc (x ∷ xs) = sum_from usize_max ((acc + x) % suc usize_max) xs

-- the loop over the neighbours, which starts at the second part
abbrev pub descends_from : ℕ → List ℕ → Bool
descends_from before [] = true
descends_from before (x ∷ xs) = if ltb before x then false else descends_from x xs

abbrev pub descends : List ℕ → Bool
descends [] = true
descends (x ∷ xs) = descends_from x xs

unfoldable pub verify_partition : ℕ → List ℕ → ℕ → Bool
unfolding sum_from
verify_partition usize_max [] n = n == 0
verify_partition usize_max (x ∷ xs) n =
    if contains (x ∷ xs) 0
    then false
    else (if sum_from usize_max 0 (x ∷ xs) == n then descends (x ∷ xs) else false)

-- `for i in k..=n`: `left` positions from `i` on
unfoldable pub add_each : ℕ → ℕ → ℕ → ℕ → List ℕ → List ℕ
add_each usize_max k i zero p = p
add_each usize_max k i (suc left) p =
    add_each usize_max k (suc i) left
      (set_at i ((value_at p i + value_at p (i - k)) % suc usize_max) p)

-- `for k in 1..=n`: `left` parts from `k` on
unfoldable pub count_each : ℕ → ℕ → ℕ → ℕ → List ℕ → List ℕ
count_each usize_max n k zero p = p
count_each usize_max n k (suc left) p =
    count_each usize_max n (suc k) left (add_each usize_max k k (suc n - k) p)

unfoldable pub partition_count : ℕ → ℕ → ℕ
partition_count usize_max n =
    if n == 0 then 1 else value_at (count_each usize_max n 1 n (1 ∷ replicate n 0)) n
