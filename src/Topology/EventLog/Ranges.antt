-- ===== src/Topology/EventLog/Ranges.antt =====
-- The queries by timestamp and by time range (src/topology/event_log.rs).
use mathlib.Core.Path.{ap₂}
use koalisi.Common.{
  ℕ, ◌+◌, ◌<◌, ◌≡◌, refl, sym, ap, ◌∙◌, Bool, true, false, ◌&&◌, some, none, List, [], ◌∷◌, ◌++◌,
  arith, ltb, leb, ◌==◌, filter, filter-append, All, All-map, append-nil, append_assoc,
  if◌then◌else◌, Bool-cases, inl, inr,
}
use koalisi.Common.SortedMap
use koalisi.Common.SortedMap.{SortedMap, IsAbove}
use koalisi.Topology.Timestamp.{Timestamp, TimeRange, epoch, max_timestamp, unwrap_or, contains}
use koalisi.Topology.Events.{TemporalEvent, timestamp}
use koalisi.Topology.EventLog.{
  EventLog, or_default, select, select_all, events_at, events_in_range, events_until,
}
use koalisi.Topology.EventLog.Chronology.{
  IsChronological, insert_by_time, insert_by_time-All, insert_by_time-IsChronological, sort_onto,
  sort_by_time,
}
use koalisi.Topology.EventLog.Timeline.{IsAt, IsTimed, select-IsAt, select_all-IsAbove}

-- the bounds that `events_in_range` gives to `BTreeMap::range`
abbrev in_bounds : TimeRange → Timestamp → Bool
in_bounds r k = leb (unwrap_or r.start epoch) k && ltb k (unwrap_or r.end max_timestamp)

in_bounds-contains :
    (r : TimeRange) (t : Timestamp) → t < max_timestamp → in_bounds r t ≡ contains r t
unfolding contains
in_bounds-contains r t h = ground arith

module _ {V HE : Type 0} where
  filter-All :
      (p : Timestamp → Bool) (k : Timestamp) (xs : List (TemporalEvent V HE))
      → p k ≡ true
      → All (λ e. timestamp e ≡ k) xs
      → filter (λ e. p (timestamp e)) xs ≡ xs
  filter-All p k [] pk h = refl
  filter-All p k (x ∷ xs) pk h = rw (h.0, pk) (ap (λ r. x ∷ r) (filter-All p k xs pk h.1))

  filter_none :
      (p : Timestamp → Bool) (xs : List (TemporalEvent V HE))
      → All (λ e. p (timestamp e) ≡ false) xs
      → filter (λ e. p (timestamp e)) xs ≡ []
  filter_none p [] h = refl
  filter_none p (x ∷ xs) h = rw (h.0) (filter_none p xs h.1)

  -- Selecting a range of keys is filtering the timeline.
  select_all-range :
      (es : List (TemporalEvent V HE)) (p : Timestamp → Bool) (m : SortedMap (List ℕ))
      → All (λ kv. All (IsAt es kv.0) kv.1) m
      → select_all es (SortedMap.range p m) ≡ filter (λ e. p (timestamp e)) (select_all es m)
  unfolding select_all
  select_all-range es p [] h = refl
  select_all-range es p ((k, is) ∷ m) h = elim (Bool-cases (p k)) [
    | inl pk ↦ rw (
      pk,
      filter-append,
      filter-All p k (select es is) pk (select-IsAt es k is h.0),
      select_all-range es p m h.1,
    )
    | inr pk ↦ rw (
      pk,
      filter-append,
      filter_none p (select es is) (All-map _ _ (λ e q. rw q pk) _ (select-IsAt es k is h.0)),
      select_all-range es p m h.1,
    )
  ]

  select-get :
      (es : List (TemporalEvent V HE)) (b t : Timestamp) (m : SortedMap (List ℕ))
      → IsAbove b m
      → All (λ kv. All (IsAt es kv.0) kv.1) m
      → select es (or_default (SortedMap.get t m))
        ≡ filter (λ e. timestamp e == t) (select_all es m)
  unfolding select_all select
  select-get es b t [] above h = refl
  select-get es b t ((k, is) ∷ m) above h = elim (Bool-cases (t == k)) [
    | inl same ↦
        rw
          (
            same,
            filter-append,
            filter-All (λ x. x == t) k (select es is) (ground arith) (select-IsAt es k is h.0),
            filter_none (λ x. x == t) (select_all es m)
                (All-map _ _ (λ e q. ground arith) _ (select_all-IsAbove es (k + 1) m above.1 h.1)),
          )
          (sym (append-nil _))
    | inr other ↦ rw (
      other,
      filter-append,
      ← select-get es (k + 1) t m above.1 h.1,
      filter_none (λ x. x == t) (select es is)
          (All-map _ _ (λ e q. ground arith) _ (select-IsAt es k is h.0)),
    )
  ]

  filter-insert :
      (t : Timestamp) (e : TemporalEvent V HE) (xs : List (TemporalEvent V HE))
      → IsChronological xs
      → filter (λ x. timestamp x == t) (insert_by_time e xs)
        ≡ filter (λ x. timestamp x == t) xs ++ filter (λ x. timestamp x == t) (e ∷ [])
  unfolding insert_by_time
  filter-insert t e [] h = refl
  filter-insert t e (x ∷ xs) h = elim (Bool-cases (ltb (timestamp e) (timestamp x))) [
    | inl lt ↦ rw lt (elim (Bool-cases (timestamp e == t)) [
      | inl same ↦
          rw same (ap₂ ◌∷◌ refl (later same lt) ∙ sym (ap (λ r. r ++ e ∷ []) (later same lt)))
      | inr other ↦ rw other (sym (append-nil _))
    ])
    | inr ge ↦ rw ge (ground (arith, filter-insert t e xs h.1))
  ]
    where
      later :
          (timestamp e == t) ≡ true
          → ltb (timestamp e) (timestamp x) ≡ true
          → filter (λ y. timestamp y == t) (x ∷ xs) ≡ []
      later same lt =
          filter_none (λ y. y == t) (x ∷ xs)
            (ground arith, All-map _ _ (λ y p. ground arith) xs h.0)

  -- The sort keeps the order of the events of one timestamp.
  filter-sort_onto :
      (t : Timestamp) (sorted es : List (TemporalEvent V HE))
      → IsChronological sorted
      → filter (λ e. timestamp e == t) (sort_onto sorted es)
        ≡ filter (λ e. timestamp e == t) (sorted ++ es)
  unfolding sort_onto
  filter-sort_onto t sorted [] h = rw append-nil
  filter-sort_onto t sorted (e ∷ es) h =
      filter-sort_onto t (insert_by_time e sorted) es (insert_by_time-IsChronological e sorted h)
      ∙ rw (filter-append, filter-insert t e sorted h, append_assoc, filter-append)
          (ap (λ r. filter (λ x. timestamp x == t) sorted ++ r)
            (sym (filter-append (λ x. timestamp x == t) (e ∷ []) es)))

  -- On a log whose time index is right, the events at a timestamp are the events of the log
  -- with that timestamp, in the order in which they were recorded.
  pub events_at-filter :
      (log : EventLog V HE) (t : Timestamp)
      → IsTimed log
      → events_at log t ≡ filter (λ e. timestamp e == t) log.events
  unfolding events_at
  events_at-filter log t h =
      select-get log.events 0 t log.time_index h.ascending h.at_key
      ∙ ap (filter (λ e. timestamp e == t)) h.timeline
      ∙ filter-sort_onto t [] log.events tt

  -- On a log whose time index is right, the events until a timestamp are the events, sorted by
  -- time, whose timestamp is at most that one.
  pub events_until-filter :
      (log : EventLog V HE) (t : Timestamp)
      → IsTimed log
      → events_until log t ≡ filter (λ e. leb (timestamp e) t) (sort_by_time log.events)
  unfolding events_until
  events_until-filter log t h =
      select_all-range log.events (λ k. leb k t) log.time_index h.at_key
      ∙ ap (filter (λ e. leb (timestamp e) t)) h.timeline

  filter_agree :
      (p q : Timestamp → Bool) (es : List (TemporalEvent V HE))
      → All (λ e. p (timestamp e) ≡ q (timestamp e)) es
      → filter (λ e. p (timestamp e)) es ≡ filter (λ e. q (timestamp e)) es
  filter_agree p q [] h = refl
  filter_agree p q (e ∷ es) h = rw (h.0, filter_agree p q es h.1)

  sort_onto-All :
      (P : TemporalEvent V HE → Type 0) (sorted es : List (TemporalEvent V HE))
      → All P sorted
      → All P es
      → All P (sort_onto sorted es)
  unfolding sort_onto
  sort_onto-All P sorted [] hs he = hs
  sort_onto-All P sorted (e ∷ es) hs he =
      sort_onto-All P (insert_by_time e sorted) es (insert_by_time-All P e sorted he.0 hs) he.1

  -- On a log whose time index is right and whose timestamps are below the last one, the events
  -- in a range are the events, sorted by time, that the range contains, unless the range ends
  -- before it starts: then the query panics.
  pub events_in_range-filter :
      (log : EventLog V HE) (r : TimeRange)
      → IsTimed log
      → All (λ e. timestamp e < max_timestamp) log.events
      → events_in_range log r ≡ (
          if ltb (unwrap_or r.end max_timestamp) (unwrap_or r.start epoch)
          then none
          else some (filter (λ e. contains r (timestamp e)) (sort_by_time log.events)))
  unfolding events_in_range
  events_in_range-filter log r h early =
      ap
        (λ es.
          if ltb (unwrap_or r.end max_timestamp) (unwrap_or r.start epoch) then none else some es)
        (select_all-range log.events (in_bounds r) log.time_index h.at_key
          ∙ ap (filter (λ e. in_bounds r (timestamp e))) h.timeline
          ∙ filter_agree (in_bounds r) (contains r) _ (
              All-map _ _ (λ e p. in_bounds-contains r (timestamp e) p) _
                (sort_onto-All _ [] log.events tt early)))
