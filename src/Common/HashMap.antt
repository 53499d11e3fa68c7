-- ===== src/Common/HashMap.antt =====
-- `std::collections::HashMap` with numbers for keys, as an association list. The order in which a
-- `HashMap` is iterated is not specified; here it is the order of first insertion.
use Prim.Native.Nat.{ℕ}
use mathlib.Core.Path.{◌≡◌}
use mathlib.Core.Option.{Option, none, some}
use mathlib.Core.List.{List, [], ◌∷◌, map}
use native.Mathlib.Omega.{arith}
use koalisi.Common.Tests.{◌==◌, if◌then◌else◌}

abbrev pub HashMap {ℓ} : Type ℓ → Type ℓ
HashMap V = List (ℕ × V)

module _ {ℓ} {V : Type ℓ} where
  -- `get`
  abbrev pub get : ℕ → HashMap V → Option V
  get k [] = none
  get k ((j, v) ∷ m) = if j == k then some v else get k m

  -- `entry(k)`: the value at a key becomes a function of what stood there.
  unfoldable pub update : ℕ → (Option V → V) → HashMap V → HashMap V
  update k f [] = (k, f none) ∷ []
  update k f ((j, v) ∷ m) = if j == k then (j, f (some v)) ∷ m else (j, v) ∷ update k f m

  -- `insert`
  abbrev pub insert : ℕ → V → HashMap V → HashMap V
  insert k v = update k (λ _. v)

  -- `remove`, without the value
  unfoldable pub remove : ℕ → HashMap V → HashMap V
  remove k [] = []
  remove k ((j, v) ∷ m) = let rest = remove k m in if j == k then rest else (j, v) ∷ rest

  -- `keys`
  abbrev pub keys : HashMap V → List ℕ
  keys = map (λ kv. kv.0)

  pub get-update :
      (k j : ℕ) (f : Option V → V) (m : HashMap V)
      → get j (update k f m) ≡ (if k == j then some (f (get k m)) else get j m)
  unfolding update
  get-update k j f [] = ground arith
  get-update k j f ((i, v) ∷ m) = ground (arith, get-update k j f m)

  pub get-remove :
      (k j : ℕ) (m : HashMap V) → get j (remove k m) ≡ (if k == j then none else get j m)
  unfolding remove
  get-remove k j [] = ground arith
  get-remove k j ((i, v) ∷ m) = ground (arith, get-remove k j m)
