-- ===== src/Algorithms/Partitions/Counting.antt =====
-- The table of `partition_count` counts what is generated (src/algorithms/aipa.rs).
use native.Mathlib.Nat.{add-mod, mod-eq_of_lt}
use koalisi.Common.{
  value_at, set_at, length-set_at, value_at-set_at, ◌%◌, ℕ, zero, suc, ◌+◌, ◌-◌, ◌≤◌, ◌<◌, ◌≡◌,
  refl, ap, sym, ◌∙◌, true, false, List, [], ◌∷◌, ◌++◌, arith, length, length-append, replicate,
  leb, ltb, ◌==◌, if◌then◌else◌, Bool-cases, inl, inr,
}
use koalisi.Algorithms.Partitions.{
  for_each_down, generate_partitions_recursive, generate_integer_partitions, value_at, set_at,
  add_each, count_each, partition_count,
}

abbrev sum_down : (ℕ → ℕ) → ℕ → ℕ
sum_down f zero = 0
sum_down f (suc k) = f (suc k) + sum_down f k

-- how many partitions of a number there are with parts up to a bound, on fuel
ways : ℕ → ℕ → ℕ → ℕ
ways zero n max = if n == 0 then 1 else 0
ways (suc fuel) n max =
    if n == 0 then 1 else sum_down (λ i. ways fuel (n - i) i) (if ltb max n then max else n)

length-for_each_down :
    (f : ℕ → List (List ℕ) → List (List ℕ)) (g : ℕ → ℕ)
    → ((i : ℕ) (r : List (List ℕ)) → 0 < i → length (f i r) ≡ length r + g i)
    → (k : ℕ) (result : List (List ℕ))
    → length (for_each_down f k result) ≡ length result + sum_down g k
length-for_each_down f g h zero result = omega arith
length-for_each_down f g h (suc k) result =
    omega (arith, length-for_each_down f g h k (f (suc k) result), h (suc k) result (omega arith))

length-generate :
    (fuel n max : ℕ) (cs : List ℕ) (result : List (List ℕ))
    → n ≤ fuel
    → length (generate_partitions_recursive fuel n max cs result) ≡ length result + ways fuel n max
unfolding generate_partitions_recursive ways
length-generate zero n max cs result enough =
    let test : (n == 0) ≡ true = ground arith in rw test (length-append result (cs ∷ []))
length-generate (suc fuel) n max cs result enough = elim (Bool-cases (n == 0)) [
  | inl none_left ↦ rw none_left (length-append result (cs ∷ []))
  | inr more ↦ rw more (
      length-for_each_down (λ i r. generate_partitions_recursive fuel (n - i) i (cs ++ i ∷ []) r)
        (λ i. ways fuel (n - i) i)
        (λ i r pos. length-generate fuel (n - i) i (cs ++ i ∷ []) r (omega arith))
        (if ltb max n then max else n) result)
]

sum_down-same :
    (f g : ℕ → ℕ) → ((i : ℕ) → 0 < i → f i ≡ g i) → (k : ℕ) → sum_down f k ≡ sum_down g k
sum_down-same f g h zero = refl
sum_down-same f g h (suc k) = omega (arith, h (suc k) (omega arith), sum_down-same f g h k)

-- More fuel changes nothing.
ways-fuel : (fuel more n max : ℕ) → n ≤ fuel → n ≤ more → ways fuel n max ≡ ways more n max
unfolding ways
ways-fuel zero zero n max h k = refl
ways-fuel zero (suc more) n max h k = ground arith
ways-fuel (suc fuel) zero n max h k = ground arith
ways-fuel (suc fuel) (suc more) n max h k = elim (Bool-cases (n == 0)) [
  | inl none_left ↦ rw none_left refl
  | inr some_left ↦ rw some_left (
      sum_down-same (λ i. ways fuel (n - i) i) (λ i. ways more (n - i) i)
        (λ i pos. ways-fuel fuel more (n - i) i (omega arith) (omega arith)) _)
]

abbrev parts_up_to : ℕ → ℕ → ℕ
parts_up_to n max = ways n n max

parts_up_to-zero : (n : ℕ) → parts_up_to n 0 ≡ (if n == 0 then 1 else 0)
unfolding ways
parts_up_to-zero zero = refl
parts_up_to-zero (suc n) = ground arith

-- The largest part does not occur, or is taken away.
parts_up_to-suc :
    (n m : ℕ)
    → parts_up_to n (suc m) ≡ (
        if leb (suc m) n
        then parts_up_to n m + parts_up_to (n - suc m) (suc m)
        else parts_up_to n m)
unfolding ways
parts_up_to-suc zero m = ground arith
parts_up_to-suc (suc a) m = elim (Bool-cases (leb (suc m) (suc a))) [
  | inl fits ↦
      (let first =
          ways-fuel a (suc a - suc m) (suc a - suc m) (suc m) (omega arith) (omega arith) in
        let bound : (if ltb (suc m) (suc a) then suc m else suc a) ≡ suc m = ground arith in
        let bound' : (if ltb m (suc a) then m else suc a) ≡ m = ground arith in
        let positive : (suc a == 0) ≡ false = ground arith in
        rw (positive, fits, bound, bound') (omega arith))
  | inr large ↦
      (let bound : (if ltb (suc m) (suc a) then suc m else suc a) ≡ suc a = ground arith in
        let bound' : (if ltb m (suc a) then m else suc a) ≡ suc a = ground arith in
        rw (large, bound, bound') refl)
]

length-replicate : (n v : ℕ) → length (replicate n v) ≡ n
length-replicate zero v = refl
length-replicate (suc n) v = omega (arith, length-replicate n v)

value_at-replicate : (n i : ℕ) → value_at (replicate n 0) i ≡ 0
value_at-replicate zero i = refl
value_at-replicate (suc n) zero = refl
value_at-replicate (suc n) (suc i) = value_at-replicate n i

module _ (usize_max : ℕ) where
  abbrev wrapped : ℕ → ℕ → ℕ
  wrapped j k = parts_up_to j k % suc usize_max

  -- The table for the parts up to `k`, and the same below position `i` for one part more.
  abbrev IsTable : ℕ → ℕ → List ℕ → Type 0
  IsTable n k p = (length p ≡ suc n) × ((j : ℕ) → j ≤ n → value_at p j ≡ wrapped j k)

  abbrev IsMixed : ℕ → ℕ → ℕ → List ℕ → Type 0
  IsMixed n k i p =
      (length p ≡ suc n)
      × ((j : ℕ) → j ≤ n → value_at p j ≡ (if ltb j i then wrapped j (suc k) else wrapped j k))

  set_at-IsMixed :
      (n k i : ℕ) (p : List ℕ)
      → i ≤ n
      → k < i
      → IsMixed n k i p
      → IsMixed n k (suc i) (set_at i ((value_at p i + value_at p (i - suc k)) % suc usize_max) p)
  set_at-IsMixed n k i p le lt h =
      let v = (value_at p i + value_at p (i - suc k)) % suc usize_max in
      let here = h.1 i le in
      let before = h.1 (i - suc k) (omega arith) in
      let both = parts_up_to-suc i k in
      (
        length-set_at i v p ∙ h.0,
        λ j le'. value_at-set_at i v j p (omega (arith, h.0)) ∙ elim (Bool-cases (i == j)) [
          | inl same ↦
              (let is : j ≡ i = ground arith in
                let here' : value_at p i ≡ wrapped i k = here ∙ ground arith in
                let before' : value_at p (i - suc k) ≡ wrapped (i - suc k) (suc k) =
                  before ∙ ground arith in
                let below : ltb i (suc i) ≡ true = ground arith in
                let fits : leb (suc k) i ≡ true = ground arith in
                let both' : parts_up_to i (suc k)
                    ≡ parts_up_to i k + parts_up_to (i - suc k) (suc k) =
                  both ∙ rw fits refl in
                rw (same, is, below, here', before')
                  (sym (add-mod (parts_up_to i k) (parts_up_to (i - suc k) (suc k)) (suc usize_max))
                    ∙ ap (λ t. t % suc usize_max) (sym both')))
          | inr other ↦ rw other (
              h.1 j le'
              ∙ (let same_side : ltb j i ≡ ltb j (suc i) = ground arith in
                  ap (λ b. if b then wrapped j (suc k) else wrapped j k) same_side))
        ],
      )

  add_each-IsMixed :
      (n k i left : ℕ) (p : List ℕ)
      → i + left ≡ suc n
      → k < i
      → IsMixed n k i p
      → IsMixed n k (suc n) (add_each usize_max (suc k) i left p)
  unfolding add_each
  add_each-IsMixed n k i zero p size lt h = (
    h.0,
    λ j le. h.1 j le ∙ ap (λ t. if ltb j t then wrapped j (suc k) else wrapped j k) (omega arith),
  )
  add_each-IsMixed n k i (suc left) p size lt h =
      add_each-IsMixed n k (suc i) left
        (set_at i ((value_at p i + value_at p (i - suc k)) % suc usize_max) p) (omega arith)
        (omega arith) (set_at-IsMixed n k i p (omega arith) lt h)

  add_each-IsTable :
      (n k : ℕ) (p : List ℕ)
      → k < n
      → IsTable n k p
      → IsTable n (suc k) (add_each usize_max (suc k) (suc k) (suc n - suc k) p)
  add_each-IsTable n k p lt h =
      let mixed = add_each-IsMixed n k (suc k) (suc n - suc k) p (omega arith) (omega arith) (
        h.0,
        λ j le.
            h.1 j le
            ∙ (let both = parts_up_to-suc j k in
                elim (Bool-cases (ltb j (suc k))) [
                  | inl below ↦
                      (let large : leb (suc k) j ≡ false = ground arith in
                        let same : wrapped j (suc k) ≡ wrapped j k =
                          ap (λ t. t % suc usize_max) (both ∙ rw large refl) in
                        rw below (sym same))
                  | inr above ↦ rw above refl
                ]),
      ) in
      (
        mixed.0,
        λ j le. (let below : ltb j (suc n) ≡ true = ground arith in mixed.1 j le ∙ rw below refl),
      )

  count_each-IsTable :
      (n k left : ℕ) (p : List ℕ)
      → k + left ≡ n
      → IsTable n k p
      → IsTable n n (count_each usize_max n (suc k) left p)
  unfolding count_each
  count_each-IsTable n k zero p size h = (h.0, λ j le. h.1 j le ∙ ap (wrapped j) (omega arith))
  count_each-IsTable n k (suc left) p size h =
      count_each-IsTable n (suc k) left (add_each usize_max (suc k) (suc k) (suc n - suc k) p)
        (omega arith) (add_each-IsTable n k p (omega arith) h)

  replicate-IsTable : (n : ℕ) → 0 < usize_max → IsTable n 0 (1 ∷ replicate n 0)
  replicate-IsTable n room = (
    omega (arith, length-replicate n 0),
    λ j le. row j ∙ ap (λ t. t % suc usize_max) (sym (parts_up_to-zero j)),
  )
    where
      row : (j : ℕ) → value_at (1 ∷ replicate n 0) j ≡ (if j == 0 then 1 else 0) % suc usize_max
      row zero = sym (mod-eq_of_lt (omega arith))
      row (suc j) =
          let positive : (suc j == 0) ≡ false = ground arith in
          value_at-replicate n j ∙ rw positive (sym (mod-eq_of_lt (omega arith)))

  -- For a number below the largest `usize`, the count of its partitions is how many are generated
  -- for it, modulo the number of `usize`s: the additions of the count wrap around.
  pub partition_count-length :
      (n : ℕ)
      → n < usize_max
      → partition_count usize_max n ≡ length (generate_integer_partitions n) % suc usize_max
  unfolding partition_count generate_integer_partitions
  partition_count-length n room = elim (Bool-cases (n == 0)) [
    | inl none_left ↦ rw none_left (sym (mod-eq_of_lt (omega arith)))
    | inr more ↦ rw more (
        (count_each-IsTable n 0 n (1 ∷ replicate n 0) (omega arith)
            (replicate-IsTable n (omega arith))).1
          n (omega arith)
        ∙ ap (λ t. t % suc usize_max) (omega (arith, length-generate n n n [] [] (omega arith))))
  ]
