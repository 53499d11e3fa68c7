-- ===== src/Algorithms/Workload/Cover.antt =====
-- The check of a distribution (src/algorithms/dcvc.rs).
use koalisi.Common.{
  ℕ, zero, suc, ◌+◌, ◌≤◌, ◌<◌, ◌≡◌, refl, ap, ◌∙◌, ◌↔◌, inl, inr, Bool, true, false, ◌||◌, some,
  List, [], ◌∷◌, length, count, replicate, ltb, leb, ◌==◌, ==_iff, Bool-cases, Option-cases,
  if◌then◌else◌, arith,
}
use koalisi.Algorithms.Workload.{
  Shares, flag_at, set_flag, all_set, cover_indices, cover_shares, verify_distribution,
}

-- how often a coalition is given out, over all shares
abbrev pub times_given : ℕ → Shares → ℕ
times_given i [] = 0
times_given i ((k, share) ∷ shares) = count i share.coalition_indices + times_given i shares

-- 1 for a flag that is set
abbrev flagged : ℕ → List Bool → ℕ
flagged i covered = if flag_at covered i then 1 else 0

length-set_flag : (i : ℕ) (bs : List Bool) → length (set_flag i bs) ≡ length bs
length-set_flag i [] = refl
length-set_flag zero (b ∷ bs) = refl
length-set_flag (suc i) (b ∷ bs) = omega (arith, length-set_flag i bs)

flag_at-set_flag :
    (i j : ℕ) (bs : List Bool)
    → i < length bs
    → flag_at (set_flag i bs) j ≡ (if i == j then true else flag_at bs j)
flag_at-set_flag i j [] h = absurd (omega arith)
flag_at-set_flag zero zero (b ∷ bs) h = ground arith
flag_at-set_flag zero (suc j) (b ∷ bs) h = ground arith
flag_at-set_flag (suc i) zero (b ∷ bs) h = ground arith
flag_at-set_flag (suc i) (suc j) (b ∷ bs) h = ground (arith, flag_at-set_flag i j bs)

flag_at-outside : (i : ℕ) (bs : List Bool) → length bs ≤ i → flag_at bs i ≡ false
flag_at-outside i [] h = refl
flag_at-outside zero (b ∷ bs) h = absurd (omega arith)
flag_at-outside (suc i) (b ∷ bs) h = flag_at-outside i bs (omega arith)

flagged-set_flag :
    (i j : ℕ) (bs : List Bool)
    → i < length bs
    → flag_at bs i ≡ false
    → flagged j (set_flag i bs) ≡ flagged j bs + (if i == j then 1 else 0)
flagged-set_flag i j bs h free = elim (Bool-cases (i == j)) [
  | inl same ↦
      let e : i ≡ j = (==_iff i j).0 same in rw (flag_at-set_flag i j bs h, same, ← e, free) refl
  | inr other ↦ rw (flag_at-set_flag i j bs h, other) (omega arith)
]

-- An index that passes the test of the loop.
free_step :
    (total i : ℕ) (covered : List Bool)
    → (leb total i || flag_at covered i) ≡ false
    → (i < total) × (flag_at covered i ≡ false)
free_step total i covered h = ground arith

-- What the loops leave: flags for what was covered before, or is now.
cover_indices-some :
    (total : ℕ) (indices : List ℕ) (covered covered' : List Bool)
    → length covered ≡ total
    → cover_indices total indices covered ≡ some covered'
    → (length covered' ≡ total)
      × ((j : ℕ) → flagged j covered' ≡ count j indices + flagged j covered)
unfolding cover_indices
cover_indices-some total [] covered covered' size h = (cc, λ j. ground arith)
cover_indices-some total (i ∷ rest) covered covered' size h =
    elim (Bool-cases (leb total i || flag_at covered i)) [
      | inl bad ↦ absurd (ground arith)
      | inr good ↦
          let (inside, free) = free_step total i covered good in
          let i<size : i < length covered = omega arith in
          let (size', counted) =
            cover_indices-some total rest (set_flag i covered) covered'
              (length-set_flag i covered ∙ size) (rw good at h) in
          (size', λ j. ground (arith, counted j, flagged-set_flag i j covered))
    ]

cover_indices-fits :
    (total : ℕ) (indices : List ℕ) (covered : List Bool)
    → length covered ≡ total
    → ((j : ℕ) → count j indices + flagged j covered ≤ (if ltb j total then 1 else 0))
    → (covered' : List Bool) × (cover_indices total indices covered ≡ some covered')
unfolding cover_indices
cover_indices-fits total [] covered size h = (covered, refl)
cover_indices-fits total (i ∷ rest) covered size h =
    let room : count i (i ∷ rest) + flagged i covered ≤ (if ltb i total then 1 else 0) = h i in
    let good : (leb total i || flag_at covered i) ≡ false = ground arith in
    let (inside, free) = free_step total i covered good in
    let i<size : i < length covered = omega arith in
    let (covered', e) =
      cover_indices-fits total rest (set_flag i covered) (length-set_flag i covered ∙ size)
        (λ j. ground (arith, h j, flagged-set_flag i j covered)) in
    (covered', rw good e)

cover_shares-some :
    (total : ℕ) (shares : Shares) (covered covered' : List Bool)
    → length covered ≡ total
    → cover_shares total shares covered ≡ some covered'
    → (length covered' ≡ total)
      × ((j : ℕ) → flagged j covered' ≡ times_given j shares + flagged j covered)
unfolding cover_shares
cover_shares-some total [] covered covered' size h = (cc, λ j. ground arith)
cover_shares-some total ((k, share) ∷ shares) covered covered' size h =
    elim (Option-cases (cover_indices total share.coalition_indices covered)) [
      | inl bad ↦ absurd (ground arith)
      | inr (between, e) ↦
          let (size', counted) =
            cover_indices-some total share.coalition_indices covered between size e in
          let (size'', counted') =
            cover_shares-some total shares between covered' size' (rw (e, cover_shares) at h) in
          (size'', λ j. omega (arith, counted j, counted' j))
    ]

cover_shares-fits :
    (total : ℕ) (shares : Shares) (covered : List Bool)
    → length covered ≡ total
    → ((j : ℕ) → times_given j shares + flagged j covered ≤ (if ltb j total then 1 else 0))
    → (covered' : List Bool) × (cover_shares total shares covered ≡ some covered')
unfolding cover_shares
cover_shares-fits total [] covered size h = (covered, refl)
cover_shares-fits total ((k, share) ∷ shares) covered size h =
    let (between, e) =
      cover_indices-fits total share.coalition_indices covered size (λ j. omega (arith, h j)) in
    let (size', counted) =
      cover_indices-some total share.coalition_indices covered between size e in
    let (covered', e') =
      cover_shares-fits total shares between size' (λ j. omega (arith, h j, counted j)) in
    (covered', rw (e, cover_shares) e')

all_set_flags :
    (bs : List Bool) (j : ℕ)
    → all_set bs ≡ true
    → flagged j bs ≡ (if ltb j (length bs) then 1 else 0)
all_set_flags [] j h = ground arith
all_set_flags (b ∷ bs) zero h = ground arith
all_set_flags (b ∷ bs) (suc j) h = ground (arith, all_set_flags bs j)

flags_all_set :
    (bs : List Bool)
    → ((j : ℕ) → flagged j bs ≡ (if ltb j (length bs) then 1 else 0))
    → all_set bs ≡ true
flags_all_set [] h = refl
flags_all_set (b ∷ bs) h = ground (arith, h 0, flags_all_set bs (λ j. ground (arith, h (suc j))))

unset : (n j : ℕ) → flagged j (replicate n false) ≡ 0
unset zero j = refl
unset (suc n) zero = refl
unset (suc n) (suc j) = unset n j

length-replicate : (n : ℕ) → length (replicate n false) ≡ n
length-replicate zero = refl
length-replicate (suc n) = ap suc (length-replicate n)

-- The check accepts a distribution exactly when it gives out every coalition once, and nothing else.
pub verify_distribution_iff :
    (shares : Shares) (total : ℕ)
    → (verify_distribution shares total ≡ true)
      ↔ ((i : ℕ) → times_given i shares ≡ (if ltb i total then 1 else 0))
unfolding verify_distribution
verify_distribution_iff shares total =
    let fresh = replicate total false in
    let size = length-replicate total in
    (
      λ h. elim (Option-cases (cover_shares total shares fresh)) [
        | inl bad ↦ absurd (ground arith)
        | inr (covered, e) ↦
            let (size', counted) = cover_shares-some total shares fresh covered size e in
            λ i. ground (arith, counted i, unset total i, all_set_flags covered i)
      ],
      λ once.
          let (covered, e) =
            cover_shares-fits total shares fresh size (λ j. omega (arith, once j, unset total j)) in
          let (size', counted) = cover_shares-some total shares fresh covered size e in
          rw (e, verify_distribution)
            (flags_all_set covered (λ j. ground (arith, counted j, unset total j, once j))),
    )
