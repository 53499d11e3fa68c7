-- ===== src/Topology/EventLog.antt =====
-- src/topology/event_log.rs: the append-only log of events with its indexes. An index maps a
-- timestamp, a vertex or a hyperedge to the positions of events in the log, oldest first.
pub mod Positions
pub mod Indexed
pub mod Chronology
pub mod Timeline
pub mod Ranges
pub mod Snapshots
pub mod Counts
pub mod Valid
use Prim.Native.Nat.{ℕ}
use koalisi.Common.{
  ◌+◌, ◌≡◌, Bool, true, false, ◌&&◌, Option, none, some, List, [], ◌∷◌, ◌++◌, length, get_elem?,
  to_list, filter, last?, leb, ltb, if◌then◌else◌,
}
use koalisi.Common.SortedMap
use koalisi.Common.SortedMap.{SortedMap}
use koalisi.Common.HashMap
use koalisi.Common.HashMap.{HashMap}
use koalisi.Topology.Timestamp.{Timestamp, TimeRange, epoch, max_timestamp, unwrap_or}
use koalisi.Topology.Events.{
  TemporalEvent, vertices_contracted, hyperedges_joined, snapshot_marker, VertexIndex,
  HyperedgeIndex, SnapshotId, EventStats, no_stats, count_event, timestamp, vertex_index,
  hyperedge_index, is_mutation,
}

pub record EventLog (V HE : Type 0) : Type 0 where
  pub events : List (TemporalEvent V HE)
  pub time_index : SortedMap (List ℕ)
  pub vertex_index : HashMap (List ℕ)
  pub hyperedge_index : HashMap (List ℕ)
  pub snapshot_index : SortedMap (SnapshotId × ℕ)
  pub stats : EventStats

abbrev pub or_default : Option (List ℕ) → List ℕ
or_default none = []
or_default (some is) = is

-- `or_default().push(index)`
abbrev pub pushed : ℕ → Option (List ℕ) → List ℕ
pushed i is = or_default is ++ i ∷ []

-- `for k in keys { map.entry(k).or_default().push(index) }`
unfoldable pub push_each : List ℕ → ℕ → HashMap (List ℕ) → HashMap (List ℕ)
push_each [] i m = m
push_each (k ∷ ks) i m = push_each ks i (HashMap.update k (pushed i) m)

module _ {V HE : Type 0} where
  -- `EventLog::new`, `Default::default`
  abbrev pub new : EventLog V HE
  new = record {
    events = [];
    time_index = [];
    vertex_index = [];
    hyperedge_index = [];
    snapshot_index = [];
    stats = no_stats;
  }

  -- the loops of `append` over the contracted vertices and over the joined sources
  unfoldable pub contracted_vertices : TemporalEvent V HE → List VertexIndex
  contracted_vertices (vertices_contracted t i contracted target old fresh) = contracted
  contracted_vertices _ = []

  unfoldable pub joined_sources : TemporalEvent V HE → List HyperedgeIndex
  joined_sources (hyperedges_joined t i sources fresh) = sources
  joined_sources _ = []

  unfoldable pub mark_snapshot :
      TemporalEvent V HE → ℕ → SortedMap (SnapshotId × ℕ) → SortedMap (SnapshotId × ℕ)
  mark_snapshot (snapshot_marker t s) i m = SortedMap.insert t (s, i) m
  mark_snapshot _ i m = m

  unfoldable pub append : TemporalEvent V HE → EventLog V HE → EventLog V HE
  append e log =
      let index = length log.events in
      record {
        events = log.events ++ e ∷ [];
        time_index = SortedMap.update (timestamp e) (pushed index) log.time_index;
        vertex_index =
            push_each (contracted_vertices e) index
              (push_each (to_list (vertex_index e)) index log.vertex_index);
        hyperedge_index =
            push_each (joined_sources e) index
              (push_each (to_list (hyperedge_index e)) index log.hyperedge_index);
        snapshot_index = mark_snapshot e index log.snapshot_index;
        stats = count_event log.stats e;
      }

  unfoldable pub len : EventLog V HE → ℕ
  len log = length log.events

  unfoldable pub is_empty : EventLog V HE → Bool
  is_empty log = leb (length log.events) 0

  -- `get`
  unfoldable pub get_event : EventLog V HE → ℕ → Option (TemporalEvent V HE)
  get_event log i = get_elem? log.events i

  -- `indices.iter().filter_map(|&i| self.events.get(i))`
  unfoldable pub select : List (TemporalEvent V HE) → List ℕ → List (TemporalEvent V HE)
  select es [] = []
  select es (i ∷ is) = to_list (get_elem? es i) ++ select es is

  -- `flat_map(|(_, indices)| indices.iter()).filter_map(..)`
  unfoldable pub select_all :
      List (TemporalEvent V HE) → SortedMap (List ℕ) → List (TemporalEvent V HE)
  select_all es [] = []
  select_all es ((k, is) ∷ m) = select es is ++ select_all es m

  unfoldable pub events_at : EventLog V HE → Timestamp → List (TemporalEvent V HE)
  events_at log t = select log.events (or_default (SortedMap.get t log.time_index))

  -- `none` is the panic of `BTreeMap::range` at a start after the end.
  unfoldable pub events_in_range : EventLog V HE → TimeRange → Option (List (TemporalEvent V HE))
  events_in_range log r =
      let start = unwrap_or r.start epoch in
      let end = unwrap_or r.end max_timestamp in
      if ltb end start
      then none
      else some
          (select_all log.events (SortedMap.range (λ k. leb start k && ltb k end) log.time_index))

  unfoldable pub events_until : EventLog V HE → Timestamp → List (TemporalEvent V HE)
  events_until log t = select_all log.events (SortedMap.range (λ k. leb k t) log.time_index)

  unfoldable pub vertex_events : EventLog V HE → VertexIndex → List (TemporalEvent V HE)
  vertex_events log v = select log.events (or_default (HashMap.get v log.vertex_index))

  unfoldable pub hyperedge_events : EventLog V HE → HyperedgeIndex → List (TemporalEvent V HE)
  hyperedge_events log h = select log.events (or_default (HashMap.get h log.hyperedge_index))

  unfoldable pub first_timestamp : EventLog V HE → Option Timestamp
  first_timestamp log = elim log.time_index [ [] ↦ none | kv ∷ m ↦ some kv.0 ]

  unfoldable pub last_timestamp : EventLog V HE → Option Timestamp
  last_timestamp log = last? (SortedMap.keys log.time_index)

  unfoldable pub snapshot_before : EventLog V HE → Timestamp → Option (SnapshotId × ℕ)
  snapshot_before log t = elim (last? (SortedMap.range (λ k. leb k t) log.snapshot_index)) [
    | none ↦ none
    | some kv ↦ some kv.1
  ]

  unfoldable pub stats : EventLog V HE → EventStats
  stats log = log.stats

  -- the loop of `stats_in_range`
  unfoldable pub count_events : EventStats → List (TemporalEvent V HE) → EventStats
  count_events s [] = s
  count_events s (e ∷ es) = count_events (count_event s e) es

  unfoldable pub stats_in_range : EventLog V HE → TimeRange → Option EventStats
  stats_in_range log r = elim (events_in_range log r) [
    | none ↦ none
    | some es ↦ some (count_events no_stats es)
  ]

  unfoldable pub mutation_count : EventLog V HE → ℕ
  mutation_count log = length (filter is_mutation log.events)

  unfoldable pub distinct_timestamps : EventLog V HE → List Timestamp
  distinct_timestamps log = SortedMap.keys log.time_index

  -- `vertex_indices`, `all_vertex_indices`
  unfoldable pub vertex_indices : EventLog V HE → List VertexIndex
  vertex_indices log = HashMap.keys log.vertex_index

  -- `hyperedge_indices`, `all_hyperedge_indices`
  unfoldable pub hyperedge_indices : EventLog V HE → List HyperedgeIndex
  hyperedge_indices log = HashMap.keys log.hyperedge_index

  unfoldable pub clear : EventLog V HE → EventLog V HE
  clear log = new

  -- a log after a sequence of appends
  unfoldable pub append_all : List (TemporalEvent V HE) → EventLog V HE → EventLog V HE
  append_all [] log = log
  append_all (e ∷ es) log = append_all es (append e log)
