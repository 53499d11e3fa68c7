-- ===== src/Topology/EventLog/Chronology.antt =====
-- Events in time order, oldest first and, at one timestamp, in the order in which they were
-- recorded: what the range queries of src/topology/event_log.rs promise.
use koalisi.Common.{
  ◌≤◌, ◌<◌, ◌≡◌, refl, List, [], ◌∷◌, ◌++◌, arith, ltb, All, All-map, append-nil, append_assoc, sym,
  ◌∙◌, if◌then◌else◌, Bool-cases, inl, inr,
}
use koalisi.Topology.Events.{TemporalEvent, timestamp}

All-middle {ℓ κ} :
    {A : Type ℓ} (P : A → Type κ) (xs : List A) (y : A) (ys : List A) → All P (xs ++ y ∷ ys) → P y
All-middle P [] y ys h = h.0
All-middle P (x ∷ xs) y ys h = All-middle P xs y ys h.1

module _ {V HE : Type 0} where
  -- No later element has an earlier timestamp.
  abbrev pub IsChronological : List (TemporalEvent V HE) → Type 0
  IsChronological [] = Unit
  IsChronological (e ∷ es) = All (λ x. timestamp e ≤ timestamp x) es × IsChronological es

  -- Put an event behind all those that are not later than it.
  unfoldable pub insert_by_time :
      TemporalEvent V HE → List (TemporalEvent V HE) → List (TemporalEvent V HE)
  insert_by_time e [] = e ∷ []
  insert_by_time e (x ∷ xs) =
      if ltb (timestamp e) (timestamp x) then e ∷ x ∷ xs else x ∷ insert_by_time e xs

  -- insertion sort, from a sorted list
  unfoldable pub sort_onto :
      List (TemporalEvent V HE) → List (TemporalEvent V HE) → List (TemporalEvent V HE)
  sort_onto sorted [] = sorted
  sort_onto sorted (e ∷ es) = sort_onto (insert_by_time e sorted) es

  -- The events in time order; events with one timestamp keep their order.
  abbrev pub sort_by_time : List (TemporalEvent V HE) → List (TemporalEvent V HE)
  sort_by_time = sort_onto []

  pub insert_by_time-All :
      (P : TemporalEvent V HE → Type 0) (e : TemporalEvent V HE) (xs : List (TemporalEvent V HE))
      → P e
      → All P xs
      → All P (insert_by_time e xs)
  unfolding insert_by_time
  insert_by_time-All P e [] p h = (p, tt)
  insert_by_time-All P e (x ∷ xs) p h = elim (Bool-cases (ltb (timestamp e) (timestamp x))) [
    | inl l ↦ rw l (p, h)
    | inr l ↦ rw l (h.0, insert_by_time-All P e xs p h.1)
  ]

  pub insert_by_time-IsChronological :
      (e : TemporalEvent V HE) (xs : List (TemporalEvent V HE))
      → IsChronological xs
      → IsChronological (insert_by_time e xs)
  unfolding insert_by_time
  insert_by_time-IsChronological e [] h = (tt, tt)
  insert_by_time-IsChronological e (x ∷ xs) h =
      elim (Bool-cases (ltb (timestamp e) (timestamp x))) [
        | inl l ↦ rw l ((ground arith, All-map _ _ (λ y p. ground arith) xs h.0), h)
        | inr l ↦
            rw l (
              insert_by_time-All _ e xs (ground arith) h.0,
              insert_by_time-IsChronological e xs h.1,
            )
      ]

  pub sort_onto-IsChronological :
      (sorted es : List (TemporalEvent V HE))
      → IsChronological sorted
      → IsChronological (sort_onto sorted es)
  unfolding sort_onto
  sort_onto-IsChronological sorted [] h = h
  sort_onto-IsChronological sorted (e ∷ es) h =
      sort_onto-IsChronological (insert_by_time e sorted) es
        (insert_by_time-IsChronological e sorted h)

  -- One more event is inserted into the sorted ones.
  pub sort_onto-append :
      (sorted es : List (TemporalEvent V HE)) (e : TemporalEvent V HE)
      → sort_onto sorted (es ++ e ∷ []) ≡ insert_by_time e (sort_onto sorted es)
  unfolding sort_onto
  sort_onto-append sorted [] e = refl
  sort_onto-append sorted (x ∷ es) e = sort_onto-append (insert_by_time x sorted) es e

  -- Past events that are not later, and before events that all are.
  pub insert_by_time-append :
      (e : TemporalEvent V HE) (xs ys : List (TemporalEvent V HE))
      → All (λ x. timestamp x ≤ timestamp e) xs
      → insert_by_time e (xs ++ ys) ≡ xs ++ insert_by_time e ys
  unfolding insert_by_time
  insert_by_time-append e [] ys h = refl
  insert_by_time-append e (x ∷ xs) ys h = ground (arith, insert_by_time-append e xs ys)

  pub insert_by_time-before :
      (e : TemporalEvent V HE) (ys : List (TemporalEvent V HE))
      → All (λ y. timestamp e < timestamp y) ys
      → insert_by_time e ys ≡ e ∷ ys
  unfolding insert_by_time
  insert_by_time-before e [] h = refl
  insert_by_time-before e (y ∷ ys) h = ground arith

  insert_by_time-last :
      (e : TemporalEvent V HE) (xs : List (TemporalEvent V HE))
      → All (λ x. timestamp x ≤ timestamp e) xs
      → insert_by_time e xs ≡ xs ++ e ∷ []
  unfolding insert_by_time
  insert_by_time-last e xs h = rw append-nil at (insert_by_time-append e xs [] h)

  IsChronological-before :
      (xs : List (TemporalEvent V HE)) (e : TemporalEvent V HE) (es : List (TemporalEvent V HE))
      → IsChronological (xs ++ e ∷ es)
      → All (λ x. timestamp x ≤ timestamp e) xs
  IsChronological-before [] e es h = tt
  IsChronological-before (x ∷ xs) e es h =
      (All-middle _ xs e es h.0, IsChronological-before xs e es h.1)

  -- The sort leaves events alone that are in time order already.
  sort_onto-id :
      (sorted es : List (TemporalEvent V HE))
      → IsChronological (sorted ++ es)
      → sort_onto sorted es ≡ sorted ++ es
  unfolding sort_onto
  sort_onto-id sorted [] h = sym (append-nil sorted)
  sort_onto-id sorted (e ∷ es) h =
      rw (insert_by_time-last e sorted (IsChronological-before sorted e es h))
        (sort_onto-id (sorted ++ e ∷ []) es (rw append_assoc h) ∙ append_assoc sorted _ es)

  pub sort_by_time-id : (es : List (TemporalEvent V HE)) → IsChronological es → sort_by_time es ≡ es
  sort_by_time-id es h = sort_onto-id [] es h
