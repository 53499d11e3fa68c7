-- ===== src/Remote/Buffer/Stamps.antt =====
-- Lists of records with ascending sequence numbers (src/subsystems/remote.rs).
use koalisi.Common.{
  drop, drop-nil, ℕ, zero, suc, ◌+◌, ◌-◌, ◌≡◌, refl, ap, sym, ◌∙◌, none, List, [], ◌∷◌, ◌++◌, arith,
  length, filter, ltb, leb, if◌then◌else◌, ◌≤◌,
}
use koalisi.Remote.Buffer.{
  DecisionRecord, RemoteCoalitionEventV1, from_record, refuse_newer_schema, pop_front,
}

abbrev pub max : ℕ → ℕ → ℕ
max a b = if leb a b then b else a

pub pop_front-drop : {A : Type 0} (k : ℕ) (xs : List A) → pop_front (drop k xs) ≡ drop (suc k) xs
pop_front-drop zero [] = refl
pop_front-drop zero (x ∷ xs) = refl
pop_front-drop (suc k) [] = refl
pop_front-drop (suc k) (x ∷ xs) = pop_front-drop k xs

module _ {Score : Type 0} where
  -- The records with the sequence numbers from `s` on.
  abbrev pub stamped : ℕ → List (DecisionRecord Score) → List (RemoteCoalitionEventV1 Score)
  stamped s [] = []
  stamped s (r ∷ rs) = from_record s r ∷ stamped (s + 1) rs

  pub length-stamped :
      (s : ℕ) (rs : List (DecisionRecord Score)) → length (stamped s rs) ≡ length rs
  length-stamped s [] = refl
  length-stamped s (r ∷ rs) = ap suc (length-stamped (s + 1) rs)

  pub stamped-append :
      (s : ℕ) (rs : List (DecisionRecord Score)) (r : DecisionRecord Score)
      → stamped s (rs ++ r ∷ []) ≡ stamped s rs ++ from_record (s + length rs) r ∷ []
  stamped-append s [] r = ap (λ n. from_record n r ∷ []) (omega arith)
  stamped-append s (x ∷ rs) r =
      ap (λ es. from_record s x ∷ es)
        (stamped-append (s + 1) rs r
          ∙ ap (λ n. stamped (s + 1) rs ++ from_record n r ∷ []) (omega arith))

  pub drop-stamped :
      (k s : ℕ) (rs : List (DecisionRecord Score))
      → drop k (stamped s rs) ≡ stamped (s + k) (drop k rs)
  drop-stamped zero s rs = ap (λ n. stamped n rs) (omega arith)
  drop-stamped (suc k) s [] = refl
  drop-stamped (suc k) s (r ∷ rs) =
      drop-stamped k (s + 1) rs ∙ ap (λ n. stamped n (drop k rs)) (omega arith)

  all_after :
      (last s : ℕ) (rs : List (DecisionRecord Score))
      → last + 1 ≤ s
      → filter (λ e. ltb last e.seq) (stamped s rs) ≡ stamped s rs
  unfolding from_record
  all_after last s [] h = refl
  all_after last s (r ∷ rs) h = ground (arith, all_after last (s + 1) rs (omega arith))

  -- The events after a cursor are those from the cursor's place on.
  pub filter-stamped :
      (last s k : ℕ) (rs : List (DecisionRecord Score))
      → k ≡ last + 1 - s
      → filter (λ e. ltb last e.seq) (stamped s rs) ≡ drop k (stamped s rs)
  unfolding from_record
  filter-stamped last s k [] h = sym (drop-nil k)
  filter-stamped last s zero (r ∷ rs) h = all_after last s (r ∷ rs) (omega arith)
  filter-stamped last s (suc k) (r ∷ rs) h =
      ground (arith, filter-stamped last (s + 1) k rs (omega arith))

  pub refuse_newer_schema-stamped :
      (s : ℕ) (rs : List (DecisionRecord Score)) → refuse_newer_schema (stamped s rs) ≡ none
  unfolding refuse_newer_schema from_record
  refuse_newer_schema-stamped s [] = refl
  refuse_newer_schema-stamped s (r ∷ rs) = refuse_newer_schema-stamped (s + 1) rs
