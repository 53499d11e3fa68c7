-- ===== src/Persistence/Wire.antt =====
-- src/persistence/wire.rs: the wire forms of events and decisions, and the way back. A weight is
-- written by `into` and read by `try_into`, which are the caller's: `Projection`. An index is a
-- `usize` in memory and 64 bits on the wire; `usize_max` is the largest `usize` of the target.
pub mod RoundTrip
use Prim.Native.String.{String}
use text.Mathlib.Text.{◌==◌ as str_eq}
use koalisi.Common.{ℕ, Bool, List, [], ◌∷◌, leb, if◌then◌else◌}
use koalisi.Topology.Events.{TemporalEvent}
use koalisi.Topology.Errors.{Attempt, done, failed}
use koalisi.Remote.Buffer.{DecisionRecord, DecisionKind, join, leave, as_str}
use koalisi.Persistence.Errors.{
  WireConversionError, vertex_exceeds_usize, hyperedge_exceeds_usize, count_exceeds_usize,
  agent_id_exceeds_usize, vertex_weight, hyperedge_weight, unknown_decision_kind, map_err, collect,
  ◌>>=◌,
}

abbrev pub wire_topology_schema_version : ℕ
wire_topology_schema_version = 1

abbrev pub wire_decision_schema_version : ℕ
wire_decision_schema_version = 1

-- `Into` and `TryInto` between a weight and its wire form; an error is the text it displays.
pub record Projection (A W : Type 0) : Type 0 where
  pub into : A → W
  pub try_into : W → Attempt String A

-- The fields of `TemporalEvent`, with the weights in their wire form and plain numbers.
pub data WireTopologyEvent (VW HW : Type 0) : Type 0 where
  vertex_added : ℕ → ℕ → VW → WireTopologyEvent VW HW
  vertex_removed : ℕ → ℕ → VW → WireTopologyEvent VW HW
  vertex_weight_updated : ℕ → ℕ → VW → VW → WireTopologyEvent VW HW
  hyperedge_added : ℕ → ℕ → List ℕ → HW → WireTopologyEvent VW HW
  hyperedge_removed : ℕ → ℕ → List ℕ → HW → WireTopologyEvent VW HW
  hyperedge_weight_updated : ℕ → ℕ → HW → HW → WireTopologyEvent VW HW
  hyperedge_vertices_updated : ℕ → ℕ → List ℕ → List ℕ → WireTopologyEvent VW HW
  hyperedge_reversed : ℕ → ℕ → List ℕ → List ℕ → WireTopologyEvent VW HW
  hyperedges_joined : ℕ → ℕ → List ℕ → List ℕ → WireTopologyEvent VW HW
  vertices_contracted : ℕ → ℕ → List ℕ → ℕ → List ℕ → List ℕ → WireTopologyEvent VW HW
  hyperedges_cleared : ℕ → ℕ → WireTopologyEvent VW HW
  graph_cleared : ℕ → ℕ → ℕ → WireTopologyEvent VW HW
  snapshot_marker : ℕ → ℕ → WireTopologyEvent VW HW

module _ {V HE VW HW : Type 0} (vertex : Projection V VW) (hyperedge : Projection HE HW) where
  unfoldable pub from_event : TemporalEvent V HE → WireTopologyEvent VW HW
  from_event (TemporalEvent.vertex_added t i w) = vertex_added t i (vertex.into w)
  from_event (TemporalEvent.vertex_removed t i w) = vertex_removed t i (vertex.into w)
  from_event (TemporalEvent.vertex_weight_updated t i old fresh) =
      vertex_weight_updated t i (vertex.into old) (vertex.into fresh)
  from_event (TemporalEvent.hyperedge_added t i vs w) = hyperedge_added t i vs (hyperedge.into w)
  from_event (TemporalEvent.hyperedge_removed t i vs w) =
      hyperedge_removed t i vs (hyperedge.into w)
  from_event (TemporalEvent.hyperedge_weight_updated t i old fresh) =
      hyperedge_weight_updated t i (hyperedge.into old) (hyperedge.into fresh)
  from_event (TemporalEvent.hyperedge_vertices_updated t i old fresh) =
      hyperedge_vertices_updated t i old fresh
  from_event (TemporalEvent.hyperedge_reversed t i old fresh) = hyperedge_reversed t i old fresh
  from_event (TemporalEvent.hyperedges_joined t i sources fresh) =
      hyperedges_joined t i sources fresh
  from_event (TemporalEvent.vertices_contracted t i contracted target old fresh) =
      vertices_contracted t i contracted target old fresh
  from_event (TemporalEvent.hyperedges_cleared t n) = hyperedges_cleared t n
  from_event (TemporalEvent.graph_cleared t n m) = graph_cleared t n m
  from_event (TemporalEvent.snapshot_marker t s) = snapshot_marker t s

-- `usize::try_from`
abbrev pub narrow : ℕ → (ℕ → WireConversionError) → ℕ → Attempt WireConversionError ℕ
narrow usize_max exceeds value = if leb value usize_max then done value else failed (exceeds value)

module _ {V HE VW HW : Type 0} (usize_max : ℕ) (vertex : Projection V VW)
    (hyperedge : Projection HE HW) where
  abbrev pub vertex_from_u64 : ℕ → Attempt WireConversionError ℕ
  vertex_from_u64 = narrow usize_max vertex_exceeds_usize

  abbrev pub hyperedge_from_u64 : ℕ → Attempt WireConversionError ℕ
  hyperedge_from_u64 = narrow usize_max hyperedge_exceeds_usize

  abbrev pub usize_from_u64 : ℕ → Attempt WireConversionError ℕ
  usize_from_u64 = narrow usize_max count_exceeds_usize

  abbrev pub vertices_from_u64 : List ℕ → Attempt WireConversionError (List ℕ)
  vertices_from_u64 = collect vertex_from_u64

  abbrev pub hyperedges_from_u64 : List ℕ → Attempt WireConversionError (List ℕ)
  hyperedges_from_u64 = collect hyperedge_from_u64

  abbrev pub v_weight : VW → Attempt WireConversionError V
  v_weight w = map_err vertex_weight (vertex.try_into w)

  abbrev pub he_weight : HW → Attempt WireConversionError HE
  he_weight w = map_err hyperedge_weight (hyperedge.try_into w)

  unfoldable pub try_into_event :
      WireTopologyEvent VW HW → Attempt WireConversionError (TemporalEvent V HE)
  try_into_event (vertex_added t i w) = do
    i' ← vertex_from_u64 i
    w' ← v_weight w
    done (TemporalEvent.vertex_added t i' w')
  try_into_event (vertex_removed t i w) = do
    i' ← vertex_from_u64 i
    w' ← v_weight w
    done (TemporalEvent.vertex_removed t i' w')
  try_into_event (vertex_weight_updated t i old fresh) = do
    i' ← vertex_from_u64 i
    old' ← v_weight old
    fresh' ← v_weight fresh
    done (TemporalEvent.vertex_weight_updated t i' old' fresh')
  try_into_event (hyperedge_added t i vs w) = do
    i' ← hyperedge_from_u64 i
    vs' ← vertices_from_u64 vs
    w' ← he_weight w
    done (TemporalEvent.hyperedge_added t i' vs' w')
  try_into_event (hyperedge_removed t i vs w) = do
    i' ← hyperedge_from_u64 i
    vs' ← vertices_from_u64 vs
    w' ← he_weight w
    done (TemporalEvent.hyperedge_removed t i' vs' w')
  try_into_event (hyperedge_weight_updated t i old fresh) = do
    i' ← hyperedge_from_u64 i
    old' ← he_weight old
    fresh' ← he_weight fresh
    done (TemporalEvent.hyperedge_weight_updated t i' old' fresh')
  try_into_event (hyperedge_vertices_updated t i old fresh) = do
    i' ← hyperedge_from_u64 i
    old' ← vertices_from_u64 old
    fresh' ← vertices_from_u64 fresh
    done (TemporalEvent.hyperedge_vertices_updated t i' old' fresh')
  try_into_event (hyperedge_reversed t i old fresh) = do
    i' ← hyperedge_from_u64 i
    old' ← vertices_from_u64 old
    fresh' ← vertices_from_u64 fresh
    done (TemporalEvent.hyperedge_reversed t i' old' fresh')
  try_into_event (hyperedges_joined t i sources fresh) = do
    i' ← hyperedge_from_u64 i
    sources' ← hyperedges_from_u64 sources
    fresh' ← vertices_from_u64 fresh
    done (TemporalEvent.hyperedges_joined t i' sources' fresh')
  try_into_event (vertices_contracted t i contracted target old fresh) = do
    i' ← hyperedge_from_u64 i
    contracted' ← vertices_from_u64 contracted
    target' ← vertex_from_u64 target
    old' ← vertices_from_u64 old
    fresh' ← vertices_from_u64 fresh
    done (TemporalEvent.vertices_contracted t i' contracted' target' old' fresh')
  try_into_event (hyperedges_cleared t n) = do
    n' ← usize_from_u64 n
    done (TemporalEvent.hyperedges_cleared t n')
  try_into_event (graph_cleared t n m) = do
    n' ← usize_from_u64 n
    m' ← usize_from_u64 m
    done (TemporalEvent.graph_cleared t n' m')
  try_into_event (snapshot_marker t s) = done (TemporalEvent.snapshot_marker t s)

pub record WireDecision (Score : Type 0) : Type 0 where
  pub coalition : String
  pub agent_id : ℕ
  pub kind : String
  pub act : Bool
  pub score : Score

-- `match self.kind.as_str()`
unfoldable pub kind_from_str : String → Attempt WireConversionError DecisionKind
kind_from_str s =
    if str_eq s "join"
    then done join
    else if str_eq s "leave"
    then done leave
    else failed (unknown_decision_kind s)

module _ {Score : Type 0} where
  unfoldable pub from_record : DecisionRecord Score → WireDecision Score
  from_record r = record {
    coalition = r.coalition;
    agent_id = r.agent_id;
    kind = as_str r.kind;
    act = r.act;
    score = r.score;
  }

  unfoldable pub try_into_record :
      ℕ → WireDecision Score → Attempt WireConversionError (DecisionRecord Score)
  try_into_record usize_max w = do
    kind' ← kind_from_str w.kind
    agent_id' ← narrow usize_max agent_id_exceeds_usize w.agent_id
    done (record {
      coalition = w.coalition;
      agent_id = agent_id';
      kind = kind';
      act = w.act;
      score = w.score;
    })
