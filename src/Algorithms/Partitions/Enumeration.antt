-- ===== src/Algorithms/Partitions/Enumeration.antt =====
-- Every partition is generated once, and nothing else is (src/algorithms/aipa.rs).
use native.Mathlib.Nat.{mod-eq_of_lt}
use koalisi.Common.{
  ℕ, zero, suc, ◌+◌, ◌-◌, ◌%◌, ◌≤◌, ◌<◌, ◌≡◌, refl, ap, sym, ◌∙◌, Bool, true, false, ◌&&◌, List, [],
  ◌∷◌, ◌++◌, arith, leb, ltb, ◌==◌, contains, if◌then◌else◌, Bool-cases, inl, inr,
}
use koalisi.Algorithms.Partitions.{
  for_each_down, generate_partitions_recursive, generate_integer_partitions, sum_from,
  descends_from, verify_partition,
}

-- the sum of the parts, without wrapping
abbrev pub sum : List ℕ → ℕ
sum [] = 0
sum (x ∷ xs) = x + sum xs

abbrev number : Bool → ℕ
number b = if b then 1 else 0

abbrev parts_eq : List ℕ → List ℕ → Bool
parts_eq [] [] = true
parts_eq (x ∷ xs) (y ∷ ys) = x == y && parts_eq xs ys
parts_eq _ _ = false

-- how often a partition stands in a list
abbrev pub occurrences : List ℕ → List (List ℕ) → ℕ
occurrences p [] = 0
occurrences p (q ∷ qs) = number (parts_eq q p) + occurrences p qs

occurrences-append :
    (p : List ℕ) (qs rs : List (List ℕ))
    → occurrences p (qs ++ rs) ≡ occurrences p qs + occurrences p rs
occurrences-append p [] rs = omega arith
occurrences-append p (q ∷ qs) rs = omega (arith, occurrences-append p qs rs)

-- the partitions of a number with parts up to a bound, each part up to the one before it
is_partition : ℕ → ℕ → List ℕ → Bool
is_partition n max [] = n == 0
is_partition n max (x ∷ p) = leb 1 x && leb x max && leb x n && is_partition (n - x) x p

-- a part of 1 to `k`, and then a partition of what is left
opens_with : ℕ → ℕ → List ℕ → Bool
opens_with k n [] = false
opens_with k n (x ∷ p) = leb 1 x && leb x k && is_partition (n - x) x p

-- the part `i`, and then what passes a test
abbrev after : ℕ → (List ℕ → Bool) → List ℕ → Bool
after i t [] = false
after i t (x ∷ p) = i == x && t p

-- the parts of a list, and then what passes a test
abbrev through : List ℕ → (List ℕ → Bool) → List ℕ → Bool
through [] t p = t p
through (c ∷ cs) t [] = false
through (c ∷ cs) t (x ∷ p) = c == x && through cs t p

through-one :
    (cs : List ℕ) (i : ℕ) (t : List ℕ → Bool) (p : List ℕ)
    → through (cs ++ i ∷ []) t p ≡ through cs (after i t) p
through-one [] i t [] = refl
through-one [] i t (x ∷ p) = refl
through-one (c ∷ cs) i t [] = refl
through-one (c ∷ cs) i t (x ∷ p) = ap (λ b. c == x && b) (through-one cs i t p)

through-plus :
    (cs : List ℕ) (t u v : List ℕ → Bool) (p : List ℕ)
    → ((q : List ℕ) → number (t q) ≡ number (u q) + number (v q))
    → number (through cs t p) ≡ number (through cs u p) + number (through cs v p)
through-plus [] t u v p h = h p
through-plus (c ∷ cs) t u v [] h = refl
through-plus (c ∷ cs) t u v (x ∷ p) h = elim (Bool-cases (c == x)) [
  | inl same ↦ rw same (through-plus cs t u v p h)
  | inr other ↦ rw other refl
]

through-same :
    (cs : List ℕ) (t u : List ℕ → Bool) (p : List ℕ)
    → ((q : List ℕ) → t q ≡ u q)
    → through cs t p ≡ through cs u p
through-same [] t u p h = h p
through-same (c ∷ cs) t u [] h = refl
through-same (c ∷ cs) t u (x ∷ p) h = ap (λ b. c == x && b) (through-same cs t u p h)

opens_with-suc :
    (k n : ℕ) (q : List ℕ)
    → number (opens_with (suc k) n q)
      ≡ number (opens_with k n q) + number (after (suc k) (is_partition (n - suc k) (suc k)) q)
unfolding opens_with
opens_with-suc k n [] = refl
opens_with-suc k n (x ∷ q) = elim (Bool-cases (suc k == x)) [
  | inl same ↦ (let is : x ≡ suc k = ground arith in rw is (ground arith))
  | inr other ↦ ground arith
]

opens_with-all :
    (n max : ℕ) (q : List ℕ)
    → 0 < n
    → opens_with (if ltb max n then max else n) n q ≡ is_partition n max q
unfolding opens_with is_partition
opens_with-all n max [] pos = ground arith
opens_with-all n max (x ∷ q) pos = ground arith

nothing_left : (max : ℕ) (cs p : List ℕ) → through cs (is_partition 0 max) p ≡ parts_eq cs p
unfolding is_partition
nothing_left max [] [] = refl
nothing_left max [] (x ∷ p) = ground arith
nothing_left max (c ∷ cs) [] = refl
nothing_left max (c ∷ cs) (x ∷ p) = ap (λ b. c == x && b) (nothing_left max cs p)

through-none :
    (cs : List ℕ) (t : List ℕ → Bool) (p : List ℕ)
    → ((q : List ℕ) → t q ≡ false)
    → through cs t p ≡ false
through-none [] t p h = h p
through-none (c ∷ cs) t [] h = refl
through-none (c ∷ cs) t (x ∷ p) h = elim (Bool-cases (c == x)) [
  | inl same ↦ rw same (through-none cs t p h)
  | inr other ↦ rw other refl
]

opens_with-zero : (n : ℕ) (q : List ℕ) → opens_with 0 n q ≡ false
unfolding opens_with
opens_with-zero n [] = refl
opens_with-zero n (x ∷ q) = ground arith

-- The loop pushes what each of its turns pushes.
occurrences-for_each_down :
    (n : ℕ) (cs p : List ℕ) (f : ℕ → List (List ℕ) → List (List ℕ))
    → ((i : ℕ) (r : List (List ℕ))
        → 0 < i
        → occurrences p (f i r)
          ≡ occurrences p r + number (through cs (after i (is_partition (n - i) i)) p))
    → (k : ℕ) (result : List (List ℕ))
    → occurrences p (for_each_down f k result)
      ≡ occurrences p result + number (through cs (opens_with k n) p)
occurrences-for_each_down n cs p f h zero result =
    let nothing = through-none cs (opens_with 0 n) p (opens_with-zero n) in
    omega (arith, ap number nothing)
occurrences-for_each_down n cs p f h (suc k) result =
    let more =
      through-plus cs (opens_with (suc k) n) (opens_with k n)
        (after (suc k) (is_partition (n - suc k) (suc k))) p (opens_with-suc k n) in
    omega (
      arith,
      occurrences-for_each_down n cs p f h k (f (suc k) result),
      h (suc k) result (omega arith),
      more,
    )

-- One list more.
occurrences-one :
    (max n : ℕ) (cs p : List ℕ) (result : List (List ℕ))
    → n ≡ 0
    → occurrences p (result ++ cs ∷ [])
      ≡ occurrences p result + number (through cs (is_partition n max) p)
occurrences-one max n cs p result none_left =
    rw none_left
      (omega (arith, occurrences-append p result (cs ∷ []), ap number (nothing_left max cs p)))

occurrences-generate :
    (fuel n max : ℕ) (cs : List ℕ) (result : List (List ℕ)) (p : List ℕ)
    → n ≤ fuel
    → occurrences p (generate_partitions_recursive fuel n max cs result)
      ≡ occurrences p result + number (through cs (is_partition n max) p)
unfolding generate_partitions_recursive
occurrences-generate zero n max cs result p enough =
    let none_left : n ≡ 0 = omega arith in
    let test : (n == 0) ≡ true = ground arith in
    rw test (occurrences-one max n cs p result none_left)
occurrences-generate (suc fuel) n max cs result p enough = elim (Bool-cases (n == 0)) [
  | inl none_left ↦ rw none_left (occurrences-one max n cs p result (ground arith))
  | inr more ↦ rw more (
      occurrences-for_each_down n cs p
        (λ i r. generate_partitions_recursive fuel (n - i) i (cs ++ i ∷ []) r)
        (λ i r pos.
          occurrences-generate fuel (n - i) i (cs ++ i ∷ []) r p (omega arith)
          ∙ ap (λ b. occurrences p r + number b) (through-one cs i (is_partition (n - i) i) p))
        (if ltb max n then max else n) result
      ∙ ap (λ b. occurrences p result + number b)
          (through-same cs _ _ p (λ q. opens_with-all n max q (ground arith))))
]

is_partition-verify :
    (n max : ℕ) (q : List ℕ)
    → is_partition n max q
      ≡ (if contains q 0 then false else (if sum q == n then descends_from max q else false))
unfolding is_partition
is_partition-verify n max [] = ground arith
is_partition-verify n max (x ∷ q) = ground (arith, is_partition-verify (n - x) x q)

-- A sum that fits is not wrapped around.
sum_from-fits :
    (usize_max acc : ℕ) (xs : List ℕ)
    → acc + sum xs ≤ usize_max
    → sum_from usize_max acc xs ≡ acc + sum xs
unfolding sum_from
sum_from-fits usize_max acc [] fits = omega arith
sum_from-fits usize_max acc (x ∷ xs) fits =
    let kept : (acc + x) % suc usize_max ≡ acc + x = mod-eq_of_lt (omega arith) in
    rw kept (omega (arith, sum_from-fits usize_max (acc + x) xs (omega arith)))

verify-is_partition :
    (usize_max n : ℕ) (q : List ℕ)
    → sum q ≤ usize_max
    → is_partition n n q ≡ verify_partition usize_max q n
unfolding verify_partition is_partition
verify-is_partition usize_max n [] fits = refl
verify-is_partition usize_max n (x ∷ q) fits =
    is_partition-verify n n (x ∷ q)
    ∙ rw (sum_from-fits usize_max 0 (x ∷ q) (omega arith)) (ground arith)

-- Take a list of parts whose sum fits into a `usize`. If it is a partition of a number, by the
-- check, it is generated for the number exactly once, and if not, it is not generated.
pub occurrences-generate_integer_partitions :
    (usize_max n : ℕ) (p : List ℕ)
    → sum p ≤ usize_max
    → occurrences p (generate_integer_partitions n)
      ≡ (if verify_partition usize_max p n then 1 else 0)
unfolding generate_integer_partitions
occurrences-generate_integer_partitions usize_max n p fits =
    let checked = verify-is_partition usize_max n p fits in
    elim (Bool-cases (n == 0)) [
      | inl none_left ↦
          (let is : n ≡ 0 = ground arith in
            rw none_left (
              omega (
                arith,
                ap number
                    (sym (nothing_left 0 [] p) ∙ ap (λ k. is_partition k k p) (sym is) ∙ checked),
              )))
      | inr more ↦
          rw more
            (omega (arith, occurrences-generate n n n [] [] p (omega arith), ap number checked))
    ]
