-- ===== src/Common/SortedMap.antt =====
-- `std::collections::BTreeMap` with numbers for keys, as the association list that its iterators
-- show: pairs in ascending order of the keys.
use Prim.Native.Nat.{ℕ, ◌+◌, ◌≤◌, ◌<◌}
use mathlib.Core.Path.{◌≡◌, refl}
use mathlib.Core.Logic.{inl, inr}
use mathlib.Core.Bool.{Bool}
use mathlib.Core.Option.{Option, none, some}
use mathlib.Core.List.{List, [], ◌∷◌, map}
use native.Mathlib.Omega.{arith}
use koalisi.Common.Tests.{ltb, leb, leb→le, Bool-cases, ◌==◌, if◌then◌else◌}
use koalisi.Common.Lists.{filter, last?}

abbrev pub SortedMap {ℓ} : Type ℓ → Type ℓ
SortedMap V = List (ℕ × V)

module _ {ℓ} {V : Type ℓ} where
  -- `get`
  abbrev pub get : ℕ → SortedMap V → Option V
  get k [] = none
  get k ((j, v) ∷ m) = if k == j then some v else get k m

  -- `entry(k)`: the value at a key becomes a function of what stood there.
  unfoldable pub update : ℕ → (Option V → V) → SortedMap V → SortedMap V
  update k f [] = (k, f none) ∷ []
  update k f ((j, v) ∷ m) =
      if k == j
      then (j, f (some v)) ∷ m
      else (if ltb k j then (k, f none) ∷ (j, v) ∷ m else (j, v) ∷ update k f m)

  -- `insert`
  abbrev pub insert : ℕ → V → SortedMap V → SortedMap V
  insert k v = update k (λ _. v)

  -- `range`, for the keys that pass a test
  abbrev pub range : (ℕ → Bool) → SortedMap V → SortedMap V
  range p = filter (λ kv. p kv.0)

  -- `keys`
  abbrev pub keys : SortedMap V → List ℕ
  keys = map (λ kv. kv.0)

  -- The keys ascend, and none is below a bound.
  abbrev pub IsAbove : ℕ → SortedMap V → Type 0
  IsAbove b [] = Unit
  IsAbove b ((k, v) ∷ m) = (b ≤ k) × IsAbove (k + 1) m

  pub IsAbove-weaken : (b c : ℕ) (m : SortedMap V) → b ≤ c → IsAbove c m → IsAbove b m
  IsAbove-weaken b c [] le h = tt
  IsAbove-weaken b c ((k, v) ∷ m) le h = (omega arith, h.1)

  pub update-IsAbove :
      (b k : ℕ) (f : Option V → V) (m : SortedMap V)
      → b ≤ k
      → IsAbove b m
      → IsAbove b (update k f m)
  unfolding update
  update-IsAbove b k f [] le h = (le, tt)
  update-IsAbove b k f ((j, v) ∷ m) le h = ground (arith, update-IsAbove (j + 1) k f m)

  -- A key below the bound is absent.
  pub get-IsAbove : (b k : ℕ) (m : SortedMap V) → k < b → IsAbove b m → get k m ≡ none
  get-IsAbove b k [] lt h = refl
  get-IsAbove b k ((j, v) ∷ m) lt h = ground (arith, get-IsAbove (j + 1) k m)

  -- A write is seen at its own key, and nowhere else.
  pub get-update :
      (b k j : ℕ) (f : Option V → V) (m : SortedMap V)
      → IsAbove b m
      → get j (update k f m) ≡ (if k == j then some (f (get k m)) else get j m)
  unfolding update
  get-update b k j f [] h = ground arith
  get-update b k j f ((i, v) ∷ m) h =
      ground (arith, get-update (i + 1) k j f m, get-IsAbove (i + 1) k m)

module _ {V : Type 0} where
  -- `floor` is the entry at the greatest key up to `t`, if there is a key up to `t`.
  abbrev pub IsFloor : ℕ → SortedMap V → Option (ℕ × V) → Type 0
  IsFloor t m none = (k : ℕ) → k ≤ t → get k m ≡ none
  IsFloor t m (some kv) =
      (kv.0 ≤ t) × (get kv.0 m ≡ some kv.1) × ((k : ℕ) → kv.0 < k → k ≤ t → get k m ≡ none)

  -- The floor of a map, from the floor of its tail.
  IsFloor-cons :
      (t k : ℕ) (v : V) (m : SortedMap V) (floor : Option (ℕ × V))
      → IsAbove (k + 1) m
      → k ≤ t
      → IsFloor t m floor
      → IsFloor t ((k, v) ∷ m) (elim floor [ none ↦ some (k, v) | some y ↦ some y ])
  IsFloor-cons t k v m none above le h = (le, ground arith, λ j lt j≤t. ground (arith, h j))
  IsFloor-cons t k v m (some (j, w)) above le h = (
    h.0,
    ground (arith, get-IsAbove (k + 1) j m),
    λ i lt i≤t. ground (arith, get-IsAbove (k + 1) j m, h.2 i),
  )

  IsFloor-skip :
      (t k : ℕ) (v : V) (m : SortedMap V) (floor : Option (ℕ × V))
      → t < k
      → IsFloor t m floor
      → IsFloor t ((k, v) ∷ m) floor
  IsFloor-skip t k v m none lt h = λ j j≤t. ground (arith, h j)
  IsFloor-skip t k v m (some (j, w)) lt h =
      (h.0, ground (arith, h.1), λ i lt' i≤t. ground (arith, h.2 i))

  -- `range(..=t).next_back()`
  pub last?-range :
      (b t : ℕ) (m : SortedMap V) → IsAbove b m → IsFloor t m (last? (range (λ k. leb k t) m))
  last?-range b t [] h = λ k le. refl
  last?-range b t ((k, v) ∷ m) h = elim (Bool-cases (leb k t)) [
    | inl le ↦ rw le (IsFloor-cons t k v m _ h.1 (leb→le k t le) (last?-range (k + 1) t m h.1))
    | inr gt ↦ rw gt (IsFloor-skip t k v m _ (ground arith) (last?-range (k + 1) t m h.1))
  ]
