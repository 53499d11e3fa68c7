-- ===== src/Topology/EventLog/Snapshots.antt =====
-- The index of snapshots (src/topology/event_log.rs).
use koalisi.Common.{
  ℕ, ◌≤◌, ◌<◌, ◌≡◌, ◌≢◌, Option, none, some, Bool, Bool-cases, ==_iff, if◌then◌else◌, inl, inr,
  List, [], ◌∷◌, ◌++◌, arith, length, get_elem?, All, All-append, All-map, ◌==◌,
  get_elem?-append_some, get_elem?-append_length,
}
use koalisi.Common.SortedMap
use koalisi.Common.SortedMap.{SortedMap, IsAbove, IsFloor, update-IsAbove, get-update, last?-range}
use koalisi.Topology.Timestamp.{Timestamp}
use koalisi.Topology.Events.{TemporalEvent, snapshot_marker, SnapshotId}
use koalisi.Topology.EventLog.{EventLog, new, append, mark_snapshot, get_event, snapshot_before}

abbrev pub Snapshots : Type 0
Snapshots = SortedMap (SnapshotId × ℕ)

module _ {V HE : Type 0} where
  -- A marker's timestamp is a key; other events ask for nothing.
  abbrev pub IsMarked : Snapshots → TemporalEvent V HE → Type 0
  IsMarked m (snapshot_marker t s) = SortedMap.get t m ≢ none
  IsMarked m _ = Unit

  -- not a snapshot marker with a timestamp that satisfies `P`
  abbrev pub IsNotMarker : (Timestamp → Type 0) → TemporalEvent V HE → Type 0
  IsNotMarker P (snapshot_marker t s) = ¬ P t
  IsNotMarker P _ = Unit

  -- The keys ascend, each entry gives the marker that stands at its position, and each marker's
  -- timestamp has an entry.
  pub record IsMarkedLog (log : EventLog V HE) : Type 0 where
    pub ascending : IsAbove 0 log.snapshot_index
    pub entries :
        (t : Timestamp) (s : SnapshotId) (i : ℕ)
        → SortedMap.get t log.snapshot_index ≡ some (s, i)
        → get_elem? log.events i ≡ some (snapshot_marker t s)
    pub covered : All (IsMarked log.snapshot_index) log.events

  pub new-IsMarkedLog : IsMarkedLog new
  new-IsMarkedLog = record { ascending = tt; entries = λ t s i h. cc; covered = tt }

  mark_snapshot-IsAbove :
      (e : TemporalEvent V HE) (i : ℕ) (m : Snapshots)
      → IsAbove 0 m
      → IsAbove 0 (mark_snapshot e i m)
  unfolding mark_snapshot
  mark_snapshot-IsAbove (snapshot_marker t s) i m h = update-IsAbove 0 t _ m (omega arith) h
  mark_snapshot-IsAbove _ i m h = h

  -- A new entry does not take a key away.
  mark_snapshot-IsMarked :
      (e : TemporalEvent V HE) (i : ℕ) (m : Snapshots)
      → IsAbove 0 m
      → (x : TemporalEvent V HE) → IsMarked m x
      → IsMarked (mark_snapshot e i m) x
  unfolding mark_snapshot
  mark_snapshot-IsMarked (snapshot_marker t s) i m h (snapshot_marker t' s') marked =
      rw (get-update 0 t t' (λ _. (s, i)) m h) (ground arith)
  mark_snapshot-IsMarked (snapshot_marker t s) i m h _ marked = marked
  mark_snapshot-IsMarked _ i m h x marked = marked

  mark_snapshot_self :
      (e : TemporalEvent V HE) (i : ℕ) (m : Snapshots)
      → IsAbove 0 m
      → IsMarked (mark_snapshot e i m) e
  unfolding mark_snapshot
  mark_snapshot_self (snapshot_marker t s) i m h =
      rw (get-update 0 t t (λ _. (s, i)) m h) (ground arith)
  mark_snapshot_self _ i m h = tt

  mark_snapshot-entries :
      (e : TemporalEvent V HE) (es : List (TemporalEvent V HE)) (m : Snapshots)
      → IsAbove 0 m
      → ((t : Timestamp) (s : SnapshotId) (i : ℕ)
          → SortedMap.get t m ≡ some (s, i)
          → get_elem? es i ≡ some (snapshot_marker t s))
      → (t : Timestamp) (s : SnapshotId) (i : ℕ)
      → SortedMap.get t (mark_snapshot e (length es) m) ≡ some (s, i)
      → get_elem? (es ++ e ∷ []) i ≡ some (snapshot_marker t s)
  unfolding mark_snapshot
  mark_snapshot-entries (snapshot_marker t' s') es m above h t s i g = elim (Bool-cases (t' == t)) [
    | inl same ↦
        cc (split same, (==_iff t' t).0 same, get_elem?-append_length es (snapshot_marker t' s') [])
    | inr other ↦ get_elem?-append_some es _ i (h t s i (split other))
  ]
    where
      split :
          {b : Bool}
          → (t' == t) ≡ b
          → (if b then some (s', length es) else SortedMap.get t m) ≡ some (s, i)
      split e = rw (get-update 0 t' t (λ _. (s', length es)) m above, e) at g
  mark_snapshot-entries _ es m above h t s i g = get_elem?-append_some es _ i (h t s i g)

  pub append-IsMarkedLog :
      (e : TemporalEvent V HE) (log : EventLog V HE) → IsMarkedLog log → IsMarkedLog (append e log)
  unfolding append
  append-IsMarkedLog e log h = record {
    ascending = mark_snapshot-IsAbove e (length log.events) log.snapshot_index h.ascending;
    entries = mark_snapshot-entries e log.events log.snapshot_index h.ascending h.entries;
    covered =
        All-append _ log.events (e ∷ [])
          (All-map _ _ (mark_snapshot-IsMarked e (length log.events) log.snapshot_index h.ascending)
            log.events h.covered)
          (mark_snapshot_self e (length log.events) log.snapshot_index h.ascending, tt);
  }

  -- What a lookup of the latest snapshot up to `t` must say: `none` if the log has no marker up to
  -- `t`; else the position of a marker up to `t`, and no marker up to `t` is later.
  abbrev pub IsLatest : EventLog V HE → Timestamp → Option (SnapshotId × ℕ) → Type 0
  IsLatest log t none = All (λ e. IsNotMarker (λ k. k ≤ t) e) log.events
  IsLatest log t (some p) =
      (k : Timestamp) × (k ≤ t)
      × (get_event log p.1 ≡ some (snapshot_marker k p.0))
      × All (λ e. IsNotMarker (λ j. (k < j) × (j ≤ t)) e) log.events

  unmarked :
      (P : Timestamp → Type 0) (m : Snapshots)
      → ((k : Timestamp) → P k → SortedMap.get k m ≡ none)
      → (e : TemporalEvent V HE) → IsMarked m e
      → IsNotMarker P e
  unmarked P m h (snapshot_marker t s) marked = λ p. marked (h t p)
  unmarked P m h _ marked = tt

  floor-IsLatest :
      (log : EventLog V HE) (t : Timestamp) (floor : Option (ℕ × (SnapshotId × ℕ)))
      → IsMarkedLog log
      → IsFloor t log.snapshot_index floor
      → IsLatest log t (elim floor [ none ↦ none | some kv ↦ some kv.1 ])
  unfolding get_event
  floor-IsLatest log t none h f =
      All-map _ _ (unmarked (λ k. k ≤ t) log.snapshot_index f) log.events h.covered
  floor-IsLatest log t (some (k, p)) h f = (
    k,
    f.0,
    h.entries k p.0 p.1 f.1,
    All-map _ _ (unmarked (λ j. (k < j) × (j ≤ t)) log.snapshot_index (λ j q. f.2 j q.0 q.1))
        log.events h.covered,
  )

  -- On a log whose snapshot index is right, the latest snapshot up to a timestamp is given by
  -- its number and the position of its marker in the log, and no marker up to the timestamp is
  -- later; there is none only if the log has no marker up to the timestamp.
  pub snapshot_before-IsLatest :
      (log : EventLog V HE) (t : Timestamp)
      → IsMarkedLog log
      → IsLatest log t (snapshot_before log t)
  unfolding snapshot_before
  snapshot_before-IsLatest log t h =
      floor-IsLatest log t _ h (last?-range 0 t log.snapshot_index h.ascending)
