-- ===== src/Algorithms/Workload/Assignment.antt =====
-- What the distribution gives to whom (src/algorithms/dcvc.rs).
use Prim.Native.Nat.{min}
use koalisi.Common.{
  range_of, ℕ, zero, suc, ◌+◌, ◌-◌, ◌%◌, ◌≤◌, ◌<◌, ◌≡◌, refl, ap, subst, ◌∙◌, inl, inr, true, false,
  ◌&&◌, Option, none, some, List, [], ◌∷◌, ◌++◌, map, length, get_elem?, drop-get_elem?, count,
  contains, All, All-map, All-of, ltb, leb, ◌==◌, Bool-cases, Option-cases, if◌then◌else◌, arith,
  ◌≢◌,
}
use koalisi.Common.HashMap
use koalisi.Common.Floats.{Floats}
use koalisi.Algorithms.Agents.{AgentCapabilities}
use koalisi.Algorithms.Workload.{
  Shares, WorkloadShare, share_of, pushed, insert_by_trust, sort_by_trust, hand_over, hand_out,
  share_size, assign, distribute_workload, verify_distribution,
}
use koalisi.Algorithms.Workload.Cover.{times_given, verify_distribution_iff}

-- No agent's number stands twice.
abbrev pub IsDistinct : List AgentCapabilities → Type 0
IsDistinct [] = Unit
IsDistinct (a ∷ rest) = (contains (map (λ b. b.agent_id) rest) a.agent_id ≡ false) × IsDistinct rest

-- The agent has a share.
abbrev Has : Shares → AgentCapabilities → Type 0
Has shares a = (share : WorkloadShare) × (HashMap.get a.agent_id shares ≡ some share)

count-append : (i : ℕ) (xs ys : List ℕ) → count i (xs ++ ys) ≡ count i xs + count i ys
count-append i [] ys = omega arith
count-append i (x ∷ xs) ys = ground (arith, count-append i xs ys)

-- A range has each of its numbers once.
pub count-range_of :
    (i start n : ℕ)
    → count i (range_of start n) ≡ (if leb start i && ltb i (start + n) then 1 else 0)
count-range_of i start zero = ground arith
count-range_of i start (suc n) = ground (arith, count-range_of i (suc start) n)

-- 1 for a number in a range
abbrev within : ℕ → ℕ → ℕ → ℕ
within start end i = if leb start i && ltb i end then 1 else 0

split_range : (i a b c : ℕ) → a ≤ b → b ≤ c → within a b i + within b c i ≡ within a c i
split_range i a b c ab bc = ground arith

within_all : (i n : ℕ) → within 0 n i ≡ (if ltb i n then 1 else 0)
within_all i n = ground arith

count-share_of :
    (i agent start end : ℕ)
    → start ≤ end
    → count i (share_of agent start end).coalition_indices ≡ within start end i
count-share_of i agent start end h =
    count-range_of i start (end - start) ∙ ap (λ e. within start e i) (omega arith)

times_given-insert_new :
    (i k : ℕ) (share : WorkloadShare) (shares : Shares)
    → HashMap.get k shares ≡ none
    → times_given i (HashMap.insert k share shares)
      ≡ times_given i shares + count i share.coalition_indices
unfolding HashMap.update
times_given-insert_new i k share [] h = omega arith
times_given-insert_new i k share ((j, old) ∷ shares) h =
    ground (arith, times_given-insert_new i k share shares)

times_given-insert_old :
    (i k : ℕ) (share old : WorkloadShare) (shares : Shares)
    → HashMap.get k shares ≡ some old
    → times_given i (HashMap.insert k share shares) + count i old.coalition_indices
      ≡ times_given i shares + count i share.coalition_indices
unfolding HashMap.update
times_given-insert_old i k share old [] h = absurd (ground arith)
times_given-insert_old i k share old ((j, other) ∷ shares) h = elim (Bool-cases (j == k)) [
  | inl same ↦ let e : other ≡ old = ground arith in rw (same, e) (omega arith)
  | inr differs ↦
      rw differs (omega (arith, times_given-insert_old i k share old shares (rw differs at h)))
]

Has-insert :
    (k : ℕ) (share : WorkloadShare) (shares : Shares) (a : AgentCapabilities)
    → Has shares a
    → Has (HashMap.insert k share shares) a
Has-insert k share shares a (old, h) = elim (Bool-cases (k == a.agent_id)) [
  | inl same ↦ (share, HashMap.get-update k a.agent_id (λ _. share) shares ∙ rw same)
  | inr differs ↦ (old, HashMap.get-update k a.agent_id (λ _. share) shares ∙ rw differs h)
]

hand_over-Has :
    (index : ℕ) (to : Option AgentCapabilities) (shares : Shares) (a : AgentCapabilities)
    → Has shares a
    → Has (hand_over index to shares) a
unfolding hand_over
hand_over-Has index none shares a h = h
hand_over-Has index (some b) shares a h = elim (Option-cases (HashMap.get b.agent_id shares)) [
  | inl absent ↦ rw (absent, hand_over) h
  | inr (share, e) ↦ rw (e, hand_over) (Has-insert b.agent_id (pushed index share) shares a h)
]

hand_over-times_given :
    (i index : ℕ) (a : AgentCapabilities) (shares : Shares)
    → Has shares a
    → times_given i (hand_over index (some a) shares)
      ≡ times_given i shares + (if index == i then 1 else 0)
unfolding hand_over
hand_over-times_given i index a shares (share, e) =
    rw (e, hand_over)
      (ground (
        arith,
        times_given-insert_old i a.agent_id (pushed index share) share shares e,
        count-append i share.coalition_indices (index ∷ []),
      ))

All-get_elem? {ℓ κ} :
    {A : Type ℓ} (P : A → Type κ) (xs : List A) (i : ℕ) {x : A}
    → All P xs
    → get_elem? xs i ≡ some x
    → P x
All-get_elem? P [] i h e = absurd (ground arith)
All-get_elem? P (y ∷ xs) zero h e = subst P (cc) h.0
All-get_elem? P (y ∷ xs) (suc i) h e = All-get_elem? P xs i h.1 e

hand_out-times_given :
    (i : ℕ) (sorted : List AgentCapabilities) (n : ℕ) (indices : List ℕ) (shares : Shares)
    → 0 < length sorted
    → All (Has shares) sorted
    → times_given i (hand_out sorted n indices shares) ≡ times_given i shares + count i indices
unfolding hand_out
hand_out-times_given i sorted n [] shares some_one h = omega arith
hand_out-times_given i sorted n (index ∷ rest) shares some_one h =
    let (a, at, _) = drop-get_elem? (n % length sorted) sorted (ground arith) in
    rw at (
      hand_out-times_given i sorted (suc n) rest (hand_over index (some a) shares) some_one (
        All-map (Has shares) (Has (hand_over index (some a) shares))
          (hand_over-Has index (some a) shares) sorted h)
      ∙ ground (
        arith,
        hand_over-times_given i index a shares (All-get_elem? (Has shares) sorted _ h at),
      ))

-- Sorting keeps what holds of every agent, and their number.
insert_by_trust-All {κ} :
    (P : AgentCapabilities → Type κ) (a : AgentCapabilities) (agents : List AgentCapabilities)
    → P a
    → All P agents
    → All P (insert_by_trust a agents)
unfolding insert_by_trust
insert_by_trust-All P a [] p h = (p, tt)
insert_by_trust-All P a (b ∷ bs) p h = elim (Bool-cases (leb b.trust_level a.trust_level)) [
  | inl before ↦ rw (before, insert_by_trust) (p, h)
  | inr after ↦ rw (after, insert_by_trust) (h.0, insert_by_trust-All P a bs p h.1)
]

sort_by_trust-All {κ} :
    (P : AgentCapabilities → Type κ) (agents : List AgentCapabilities)
    → All P agents
    → All P (sort_by_trust agents)
unfolding sort_by_trust
sort_by_trust-All P [] h = tt
sort_by_trust-All P (a ∷ rest) h =
    insert_by_trust-All P a (sort_by_trust rest) h.0 (sort_by_trust-All P rest h.1)

length-insert_by_trust :
    (a : AgentCapabilities) (agents : List AgentCapabilities)
    → length (insert_by_trust a agents) ≡ suc (length agents)
unfolding insert_by_trust
length-insert_by_trust a [] = refl
length-insert_by_trust a (b ∷ bs) = ground (arith, length-insert_by_trust a bs)

length-sort_by_trust :
    (a : AgentCapabilities) (agents : List AgentCapabilities)
    → 0 < length (sort_by_trust (a ∷ agents))
unfolding sort_by_trust
length-sort_by_trust a agents = omega (arith, length-insert_by_trust a (sort_by_trust agents))

-- No agent of the list has a share yet.
abbrev IsFresh : Shares → List AgentCapabilities → Type 0
IsFresh shares = All (λ a. HashMap.get a.agent_id shares ≡ none)

IsFresh-insert :
    (k : ℕ) (share : WorkloadShare) (shares : Shares) (agents : List AgentCapabilities)
    → contains (map (λ b. b.agent_id) agents) k ≡ false
    → IsFresh shares agents
    → IsFresh (HashMap.insert k share shares) agents
IsFresh-insert k share shares [] h fresh = tt
IsFresh-insert k share shares (a ∷ rest) h fresh = (
  ground (arith, HashMap.get-update k a.agent_id (λ _. share) shares, fresh.0),
  IsFresh-insert k share shares rest (ground arith) fresh.1,
)

module _ (floats : Floats) (total_coalitions : ℕ) (speed : floats.F64) where
  -- The loop gives out the coalitions from where it starts to where it ends, each once, and gives
  -- every agent a share.
  abbrev IsAssigned : List AgentCapabilities → ℕ → Shares → Shares × ℕ → Type 0
  IsAssigned agents start shares (shares', start') =
      (start ≤ start')
      × (start' ≤ total_coalitions)
      × ((i : ℕ) → times_given i shares' ≡ times_given i shares + within start start' i)
      × ((a : AgentCapabilities) → Has shares a → Has shares' a)
      × All (Has shares') agents

  assign-IsAssigned :
      (agents : List AgentCapabilities) (start : ℕ) (shares : Shares)
      → start ≤ total_coalitions
      → IsDistinct agents
      → IsFresh shares agents
      → IsAssigned agents start shares (assign floats total_coalitions speed agents start shares)
  unfolding assign
  assign-IsAssigned [] start shares le distinct fresh =
      (omega arith, le, λ i. ground arith, λ a h. h, tt)
  assign-IsAssigned (a ∷ rest) start shares le distinct fresh =
      let end = min (start + share_size floats total_coalitions speed a) total_coalitions in
      let share = share_of a.agent_id start end in
      let shares' = HashMap.insert a.agent_id share shares in
      let (grows, inside, given, kept, all_have) =
        assign-IsAssigned rest end shares' (omega arith) distinct.1
          (IsFresh-insert a.agent_id share shares rest distinct.0 fresh.1) in
      let has_own : Has shares' a =
        (share, HashMap.get-update a.agent_id a.agent_id (λ _. share) shares ∙ ground arith) in
      (
        omega arith,
        inside,
        λ i. omega (
          arith,
          given i,
          times_given-insert_new i a.agent_id share shares fresh.0,
          count-share_of i a.agent_id start end (omega arith),
          split_range i start end _ (omega arith) grows,
        ),
        λ b h. kept b (Has-insert a.agent_id share shares b h),
        (kept a has_own, all_have),
      )

-- With at least one agent, and agents whose numbers differ, every coalition is in exactly one
-- share, once, whatever the floats make of the sizes: the distribution passes its own check.
pub verify_distribution-distribute_workload :
    (floats : Floats) (agents : List AgentCapabilities) (total : ℕ)
    → agents ≢ []
    → IsDistinct agents
    → verify_distribution (distribute_workload floats agents total) total ≡ true
unfolding distribute_workload
verify_distribution-distribute_workload floats [] total some_one distinct = absurd (some_one refl)
verify_distribution-distribute_workload floats (a ∷ rest) zero some_one distinct =
    (verify_distribution_iff [] 0).1 (λ i. ground arith)
verify_distribution-distribute_workload floats (a ∷ rest) (suc n) some_one distinct =
    let speed = floats.total (map (λ b. floats.of_nat b.trust_level) (a ∷ rest)) in
    let (grows, inside, given, kept, all_have) =
      assign-IsAssigned floats (suc n) speed (a ∷ rest) 0 [] (omega arith) distinct
        (All-of (λ b. HashMap.get b.agent_id [] ≡ none) (λ b. refl) (a ∷ rest)) in
    let start = (assign floats (suc n) speed (a ∷ rest) 0 []).1 in
    (verify_distribution_iff _ (suc n)).1 (λ i.
      hand_out-times_given i (sort_by_trust (a ∷ rest)) 0 (range_of start (suc n - start)) _
        (length-sort_by_trust a rest) (sort_by_trust-All (Has _) (a ∷ rest) all_have)
      ∙ omega (
        arith,
        given i,
        count-share_of i 0 start (suc n) inside,
        split_range i 0 start (suc n) (omega arith) inside,
        within_all i (suc n),
      ))
