-- ===== src/Topology/EventLog/Timeline.antt =====
-- The index by timestamp lists the events in time order (src/topology/event_log.rs).
use koalisi.Common.{
  ℕ, ◌+◌, ◌≤◌, ◌≡◌, refl, sym, ◌∙◌, some, List, [], ◌∷◌, ◌++◌, arith, ltb, ◌==◌, length, get_elem?,
  All, All-append, All-map, Bool-cases, inl, inr, append_assoc, get_elem?-append_some,
  get_elem?-append_length, ==_iff, ap,
}
use mathlib.Core.Path.{ap₂}
use native.Mathlib.Nat.{le_refl}
use koalisi.Common.SortedMap.{SortedMap, IsAbove, update, update-IsAbove}
use koalisi.Topology.Timestamp.{Timestamp}
use koalisi.Topology.Events.{TemporalEvent, timestamp}
use koalisi.Topology.EventLog.{EventLog, new, append, pushed, select, select_all}
use koalisi.Topology.EventLog.Positions.{select-append}
use koalisi.Topology.EventLog.Chronology.{
  insert_by_time, sort_by_time, sort_onto, insert_by_time-append, insert_by_time-before,
  sort_onto-append,
}

module _ {V HE : Type 0} where
  -- A position of an event at a timestamp.
  abbrev pub IsAt : List (TemporalEvent V HE) → Timestamp → ℕ → Type 0
  IsAt es t i = (e : TemporalEvent V HE) × (get_elem? es i ≡ some e) × (timestamp e ≡ t)

  -- The keys ascend, every key has positions of its own events, and all the positions in the order
  -- of the keys give the events in time order.
  pub record IsTimed (log : EventLog V HE) : Type 0 where
    pub ascending : IsAbove 0 log.time_index
    pub at_key : All (λ kv. All (IsAt log.events kv.0) kv.1) log.time_index
    pub timeline : select_all log.events log.time_index ≡ sort_by_time log.events

  pub new-IsTimed : IsTimed new
  new-IsTimed = record {
    ascending = tt;
    at_key = tt;
    timeline = unfold select_all sort_onto in refl;
  }

  module _ (es more : List (TemporalEvent V HE)) where
    IsAt-append : (t : Timestamp) (i : ℕ) → IsAt es t i → IsAt (es ++ more) t i
    IsAt-append t i h = (h.0, get_elem?-append_some es more i h.1, h.2)

    select-more :
        (t : Timestamp) (is : List ℕ) → All (IsAt es t) is → select (es ++ more) is ≡ select es is
    unfolding select
    select-more t [] h = refl
    select-more t (i ∷ is) h =
        rw (get_elem?-append_some es more i h.0.1, h.0.1, select-more t is h.1)

    select_all-more :
        (m : SortedMap (List ℕ))
        → All (λ kv. All (IsAt es kv.0) kv.1) m
        → select_all (es ++ more) m ≡ select_all es m
    unfolding select_all
    select_all-more [] h = refl
    select_all-more ((k, is) ∷ m) h = rw (select-more k is h.0, select_all-more m h.1)

  pub select-IsAt :
      (es : List (TemporalEvent V HE)) (t : Timestamp) (is : List ℕ)
      → All (IsAt es t) is
      → All (λ e. timestamp e ≡ t) (select es is)
  unfolding select
  select-IsAt es t [] h = tt
  select-IsAt es t (i ∷ is) h = rw (h.0.1) (h.0.2, select-IsAt es t is h.1)

  pub select_all-IsAbove :
      (es : List (TemporalEvent V HE)) (b : Timestamp) (m : SortedMap (List ℕ))
      → IsAbove b m
      → All (λ kv. All (IsAt es kv.0) kv.1) m
      → All (λ e. b ≤ timestamp e) (select_all es m)
  unfolding select_all
  select_all-IsAbove es b [] above h = tt
  select_all-IsAbove es b ((k, is) ∷ m) above h =
      All-append _ (select es is) _ (All-map _ _ (λ e p. omega arith) _ (select-IsAt es k is h.0))
        (All-map _ _ (λ e p. omega arith) _ (select_all-IsAbove es (k + 1) m above.1 h.1))

  select-last :
      (es : List (TemporalEvent V HE)) (e : TemporalEvent V HE)
      → select (es ++ e ∷ []) (length es ∷ []) ≡ e ∷ []
  unfolding select
  select-last es e = rw (get_elem?-append_length es e [])

  IsAt-last :
      (es : List (TemporalEvent V HE)) (e : TemporalEvent V HE)
      → IsAt (es ++ e ∷ []) (timestamp e) (length es)
  IsAt-last es e = (e, get_elem?-append_length es e [], refl)

  module _ (e : TemporalEvent V HE) (es : List (TemporalEvent V HE)) where
    IsAt-more :
        (m : SortedMap (List ℕ))
        → All (λ kv. All (IsAt es kv.0) kv.1) m
        → All (λ kv. All (IsAt (es ++ e ∷ []) kv.0) kv.1) m
    IsAt-more [] h = tt
    IsAt-more ((k, is) ∷ m) h = (All-map _ _ (IsAt-append es (e ∷ []) k) is h.0, IsAt-more m h.1)

    update-IsAt :
        (m : SortedMap (List ℕ))
        → All (λ kv. All (IsAt es kv.0) kv.1) m
        → All
            (λ kv. All (IsAt (es ++ e ∷ []) kv.0) kv.1)
            (update (timestamp e) (pushed (length es)) m)
    unfolding update
    update-IsAt [] h = ((IsAt-last es e, tt), tt)
    update-IsAt ((k, is) ∷ m) h = elim (Bool-cases (timestamp e == k)) [
      | inl same ↦ rw same (
        All-append _ is (length es ∷ []) (All-map _ _ (IsAt-append es (e ∷ []) k) is h.0)
            ((e, get_elem?-append_length es e [], (==_iff _ _).0 same), tt),
        IsAt-more m h.1,
      )
      | inr other ↦ rw other (elim (Bool-cases (ltb (timestamp e) k)) [
        | inl lt ↦ rw lt ((IsAt-last es e, tt), IsAt-more ((k, is) ∷ m) h)
        | inr ge ↦ rw ge (All-map _ _ (IsAt-append es (e ∷ []) k) is h.0, update-IsAt m h.1)
      ])
    ]

    -- The event is pushed under a key that is there already.
    insert-same :
        (k : Timestamp) (is : List ℕ) (m : SortedMap (List ℕ))
        → timestamp e ≡ k
        → IsAbove (k + 1) m
        → All (λ kv. All (IsAt es kv.0) kv.1) ((k, is) ∷ m)
        → select (es ++ e ∷ []) (is ++ length es ∷ []) ++ select_all (es ++ e ∷ []) m
          ≡ insert_by_time e (select es is ++ select_all es m)
    insert-same k is m same above h =
        rw
          (
            select-append,
            select-last,
            select-more es (e ∷ []) k is h.0,
            select_all-more es (e ∷ []) m h.1,
          )
          (append_assoc (select es is) _ _
            ∙ sym (
                insert_by_time-append e (select es is) _
                  (All-map _ _ (λ x p. omega arith) _ (select-IsAt es k is h.0))
                ∙ ap (λ rest. select es is ++ rest)
                    (insert_by_time-before e _ (
                      All-map _ _ (λ x p. omega arith) _
                        (select_all-IsAbove es (k + 1) m above h.1)))))

    -- One more event, at the end of the list and under its timestamp, is inserted by time.
    select_all-update :
        (b : Timestamp) (m : SortedMap (List ℕ))
        → IsAbove b m
        → All (λ kv. All (IsAt es kv.0) kv.1) m
        → select_all (es ++ e ∷ []) (update (timestamp e) (pushed (length es)) m)
          ≡ insert_by_time e (select_all es m)
    unfolding select_all update
    select_all-update b [] above h = rw select-last (unfold insert_by_time in refl)
    select_all-update b ((k, is) ∷ m) above h = elim (Bool-cases (timestamp e == k)) [
      | inl same ↦ rw same (insert-same k is m ((==_iff _ _).0 same) above.1 h)
      | inr other ↦ rw other (elim (Bool-cases (ltb (timestamp e) k)) [
        | inl lt ↦ rw lt (
            ap₂ ◌++◌ (select-last es e) (select_all-more es (e ∷ []) ((k, is) ∷ m) h)
            ∙ sym (
                insert_by_time-before e _ (
                  All-map _ _ (λ x p. ground arith) _
                    (select_all-IsAbove es k ((k, is) ∷ m) (le_refl k, above.1) h))))
        | inr ge ↦ rw ge (
            ap₂ ◌++◌ (select-more es (e ∷ []) k is h.0) (select_all-update (k + 1) m above.1 h.1)
            ∙ sym (
                insert_by_time-append e (select es is) _
                  (All-map _ _ (λ x p. ground arith) _ (select-IsAt es k is h.0))))
      ])
    ]

  pub append-IsTimed :
      (e : TemporalEvent V HE) (log : EventLog V HE) → IsTimed log → IsTimed (append e log)
  unfolding append
  append-IsTimed e log h = record {
    ascending =
        update-IsAbove 0 (timestamp e) (pushed (length log.events)) log.time_index (omega arith)
          h.ascending;
    at_key = update-IsAt e log.events log.time_index h.at_key;
    timeline =
        select_all-update e log.events 0 log.time_index h.ascending h.at_key
        ∙ ap (insert_by_time e) h.timeline
        ∙ sym (sort_onto-append [] log.events e);
  }
