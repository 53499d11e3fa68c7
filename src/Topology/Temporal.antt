-- ===== src/Topology/Temporal.antt =====
-- src/topology/temporal.rs: the event-sourced hypergraph. Every mutation is one job on the graph,
-- under the mutation lock and the graph's write lock, followed by a clock tick and one event; here
-- it is one function from the state before to the state after and the outcome. The mutation lock
-- makes mutations of the values that share a graph follow one another, so that a run is a sequence
-- of such steps. Not modelled: the task that runs a mutation (its cancellation by a shutdown of the
-- runtime, `TaskCancelled`, and a caller that drops the future), the executor, and log output.
pub mod Mutations
pub mod Runs
pub mod Recording
pub mod Poisoning
pub mod Snapshots
pub mod Clones
use koalisi.Common.{
  ℕ, zero, suc, ◌+◌, ◌%◌, Bool, true, false, Option, none, some, List, [], ◌∷◌, length, map, ◌==◌,
  if◌then◌else◌,
}
use koalisi.Common.SortedMap
use koalisi.Common.SortedMap.{SortedMap}
use koalisi.Topology.Timestamp
use koalisi.Topology.Timestamp.{Timestamp, Clock, TimeRange, tick, current, starting_at, u64_mod}
use koalisi.Topology.Events.{
  TemporalEvent, vertex_added, vertex_removed, vertex_weight_updated, hyperedge_added,
  hyperedge_removed, hyperedge_weight_updated, hyperedge_vertices_updated, hyperedge_reversed,
  hyperedges_joined, vertices_contracted, hyperedges_cleared, graph_cleared, snapshot_marker,
  VertexIndex, HyperedgeIndex, SnapshotId, EventStats,
}
use koalisi.Topology.EventLog.{
  EventLog, new as empty_log, append, len, events_in_range, vertex_events, hyperedge_events, stats,
}
use koalisi.Topology.Errors.{
  TemporalError, hypergraph, lock_poisoned, Outcome, ok, err, panicked, Attempt, done, failed,
}
use koalisi.Topology.Jobs.{Job, of_attempt, ◌>>=◌, ◌>>◌, pure, ask, call, give, change}
use koalisi.Topology.Hypergraph.{Library, sent, full, closed}

pub record Snapshot : Type 0 where
  pub id : SnapshotId
  pub timestamp : Timestamp
  pub event_index : ℕ

-- `values().find(|s| s.id == id)`
abbrev pub find_snapshot : SnapshotId → SortedMap Snapshot → Option Snapshot
find_snapshot id [] = none
find_snapshot id ((t, s) ∷ m) = if s.id == id then some s else find_snapshot id m

module _ {V HE : Type 0} (lib : Library V HE) where
  open lib use {Graph, HypergraphError, Tap}

  -- `poisoned` is the state of the graph's `std::sync::RwLock`.
  pub record TemporalHypergraph : Type 0 where
    pub graph : Graph
    pub poisoned : Bool
    pub log : EventLog V HE
    pub snapshots : SortedMap Snapshot
    pub clock : Clock
    pub snapshot_counter : ℕ
    pub event_tap : Option Tap

  -- `wrap`
  unfoldable pub wrap : Graph → TemporalHypergraph
  wrap g = record {
    graph = g;
    poisoned = false;
    log = empty_log;
    snapshots = [];
    clock = Timestamp.new;
    snapshot_counter = 0;
    event_tap = none;
  }

  -- `new`
  unfoldable pub fresh : TemporalHypergraph
  unfolding wrap
  fresh = wrap lib.new

  unfoldable pub with_event_tap : TemporalHypergraph → Tap → TemporalHypergraph
  with_event_tap th tap = record th { event_tap = some tap }

  -- A full or a closed tap drops the event; nothing else depends on the outcome.
  unfoldable pub tap_event : Option Tap → TemporalEvent V HE → Option Tap
  tap_event none e = none
  tap_event (some tap) e =
      let (tap', outcome) = lib.try_send e tap in
      elim outcome [ sent ↦ some tap' | full ↦ some tap' | closed ↦ some tap' ]

  -- the event and the clock of a successful job, under the event log's write lock
  unfoldable pub record_event :
      {R : Type 0}
      → Timestamp
      → Clock
      → TemporalEvent V HE × R
      → TemporalHypergraph
      → TemporalHypergraph × Outcome HypergraphError R
  record_event t clock (e, value) th = (
    record th { clock = clock; event_tap = tap_event th.event_tap e; log = append e th.log },
    ok value,
  )

  -- what `mutate` does with the job's output
  unfoldable pub settle :
      {T R : Type 0} (finish : Timestamp → T → TemporalEvent V HE × R)
      → TemporalHypergraph
      → Graph × Outcome HypergraphError T
      → TemporalHypergraph × Outcome HypergraphError R
  unfolding record_event
  settle finish th (g, ok output) =
      let (t, clock) = tick th.clock in
      record_event t clock (finish t output) (record th { graph = g })
  settle finish th (g, err e) = (record th { graph = g }, err e)
  settle finish th (g, panicked) = (record th { graph = g; poisoned = true }, panicked)

  unfoldable pub mutate :
      {T R : Type 0} (job : Job Graph HypergraphError T)
      (finish : Timestamp → T → TemporalEvent V HE × R)
      → TemporalHypergraph
      → TemporalHypergraph × Outcome HypergraphError R
  unfolding settle
  mutate job finish th =
      if th.poisoned then (th, err lock_poisoned) else settle finish th (job th.graph)

  -- `read`
  unfoldable pub read :
      {T : Type 0}
      → (Graph → Attempt HypergraphError T)
      → TemporalHypergraph
      → Outcome HypergraphError T
  read job th = if th.poisoned then err lock_poisoned else of_attempt (job th.graph)

  unfoldable pub current_timestamp : TemporalHypergraph → Timestamp
  current_timestamp th = current th.clock

  -- `create_snapshot`: the marker stands in the log at the stored position. It does not touch the
  -- graph, so that a poisoned graph lock does not stop it. The counter's `fetch_add` wraps.
  unfoldable pub create_snapshot : TemporalHypergraph → TemporalHypergraph × SnapshotId
  create_snapshot th =
      let id = th.snapshot_counter in
      let (t, clock) = tick th.clock in
      let marker : TemporalEvent V HE = snapshot_marker t id in
      let index = len th.log in
      (
        record th {
          snapshots =
              SortedMap.insert t (record { id = id; timestamp = t; event_index = index })
                th.snapshots;
          clock = clock;
          snapshot_counter = (id + 1) % u64_mod;
          event_tap = tap_event th.event_tap marker;
          log = append marker th.log;
        },
        id,
      )

  unfoldable pub list_snapshots : TemporalHypergraph → List (Timestamp × SnapshotId)
  list_snapshots th = map (λ kv. (kv.0, kv.1.id)) th.snapshots

  unfoldable pub get_snapshot : TemporalHypergraph → SnapshotId → Option Snapshot
  get_snapshot th id = find_snapshot id th.snapshots

  unfoldable pub get_vertex_weight : TemporalHypergraph → VertexIndex → Outcome HypergraphError V
  get_vertex_weight th index = read (lib.get_vertex_weight index) th

  unfoldable pub get_hyperedge_weight :
      TemporalHypergraph → HyperedgeIndex → Outcome HypergraphError HE
  get_hyperedge_weight th index = read (lib.get_hyperedge_weight index) th

  unfoldable pub get_hyperedge_vertices :
      TemporalHypergraph → HyperedgeIndex → Outcome HypergraphError (List VertexIndex)
  get_hyperedge_vertices th index = read (lib.get_hyperedge_vertices index) th

  unfoldable pub count_vertices : TemporalHypergraph → Outcome HypergraphError ℕ
  count_vertices th = read (λ g. done (lib.count_vertices g)) th

  unfoldable pub count_hyperedges : TemporalHypergraph → Outcome HypergraphError ℕ
  count_hyperedges th = read (λ g. done (lib.count_hyperedges g)) th

  unfoldable pub events : TemporalHypergraph → List (TemporalEvent V HE)
  events th = th.log.events

  -- none is the panic of a range that ends before it starts
  unfoldable pub events_between :
      TemporalHypergraph → TimeRange → Option (List (TemporalEvent V HE))
  events_between th range = events_in_range th.log range

  unfoldable pub vertex_history : TemporalHypergraph → VertexIndex → List (TemporalEvent V HE)
  vertex_history th vertex = vertex_events th.log vertex

  unfoldable pub hyperedge_history : TemporalHypergraph → HyperedgeIndex → List (TemporalEvent V HE)
  hyperedge_history th hyperedge = hyperedge_events th.log hyperedge

  unfoldable pub event_stats : TemporalHypergraph → EventStats
  event_stats th = stats th.log

  unfoldable pub event_count : TemporalHypergraph → ℕ
  event_count th = len th.log

  -- `Clone`: the graph, the log, the snapshots, the tap and the mutation lock are shared; the clock
  -- and the snapshot counter are new ones that start at the current values. A change by one value is
  -- seen by the other through `see`.
  unfoldable pub clone : TemporalHypergraph → TemporalHypergraph
  clone th = record th { clock = starting_at (current th.clock) }

  unfoldable pub see : TemporalHypergraph → TemporalHypergraph → TemporalHypergraph
  see other th = record th {
    graph = other.graph;
    poisoned = other.poisoned;
    log = other.log;
    snapshots = other.snapshots;
    event_tap = other.event_tap;
  }
