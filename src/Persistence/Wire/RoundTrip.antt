-- ===== src/Persistence/Wire/RoundTrip.antt =====
-- The wire forms lose nothing (src/persistence/wire.rs).
use koalisi.Common.{ℕ, ◌≤◌, ◌≡◌, refl, ap, List, [], ◌∷◌, arith, All}
use koalisi.Topology.Events.{TemporalEvent}
use koalisi.Topology.Errors.{done}
use koalisi.Remote.Buffer.{DecisionRecord, DecisionKind, join, leave, as_str}
use koalisi.Persistence.Errors.{
  WireConversionError, vertex_weight, hyperedge_weight, collect, map_err,
}
use koalisi.Persistence.Wire.{
  Projection, from_event, try_into_event, narrow, from_record, try_into_record, kind_from_str,
}

-- The index is a `usize`.
abbrev pub IsUsize : ℕ → ℕ → Type 0
IsUsize usize_max i = i ≤ usize_max

narrow-IsUsize :
    (usize_max : ℕ) (exceeds : ℕ → WireConversionError) (i : ℕ)
    → IsUsize usize_max i
    → narrow usize_max exceeds i ≡ done i
narrow-IsUsize usize_max exceeds i h = ground arith

collect-narrow :
    (usize_max : ℕ) (exceeds : ℕ → WireConversionError) (is : List ℕ)
    → All (IsUsize usize_max) is
    → collect (narrow usize_max exceeds) is ≡ done is
collect-narrow usize_max exceeds [] h = refl
collect-narrow usize_max exceeds (i ∷ is) h =
    rw (narrow-IsUsize usize_max exceeds i h.0, collect-narrow usize_max exceeds is h.1)

module _ {V HE : Type 0} (usize_max : ℕ) where
  -- Every index and count of the event is a `usize`.
  abbrev pub IsSized : TemporalEvent V HE → Type 0
  IsSized (TemporalEvent.vertex_added t i w) = IsUsize usize_max i
  IsSized (TemporalEvent.vertex_removed t i w) = IsUsize usize_max i
  IsSized (TemporalEvent.vertex_weight_updated t i old fresh) = IsUsize usize_max i
  IsSized (TemporalEvent.hyperedge_added t i vs w) =
      IsUsize usize_max i × All (IsUsize usize_max) vs
  IsSized (TemporalEvent.hyperedge_removed t i vs w) =
      IsUsize usize_max i × All (IsUsize usize_max) vs
  IsSized (TemporalEvent.hyperedge_weight_updated t i old fresh) = IsUsize usize_max i
  IsSized (TemporalEvent.hyperedge_vertices_updated t i old fresh) =
      IsUsize usize_max i × All (IsUsize usize_max) old × All (IsUsize usize_max) fresh
  IsSized (TemporalEvent.hyperedge_reversed t i old fresh) =
      IsUsize usize_max i × All (IsUsize usize_max) old × All (IsUsize usize_max) fresh
  IsSized (TemporalEvent.hyperedges_joined t i sources fresh) =
      IsUsize usize_max i × All (IsUsize usize_max) sources × All (IsUsize usize_max) fresh
  IsSized (TemporalEvent.vertices_contracted t i contracted target old fresh) =
      IsUsize usize_max i
      × All (IsUsize usize_max) contracted
      × IsUsize usize_max target
      × All (IsUsize usize_max) old
      × All (IsUsize usize_max) fresh
  IsSized (TemporalEvent.hyperedges_cleared t n) = IsUsize usize_max n
  IsSized (TemporalEvent.graph_cleared t n m) = IsUsize usize_max n × IsUsize usize_max m
  IsSized (TemporalEvent.snapshot_marker t s) = Unit

-- A weight that is written is read back.
pub record IsFaithful {A W : Type 0} (p : Projection A W) : Type 0 where
  pub back : (a : A) → p.try_into (p.into a) ≡ done a

module _ {V HE VW HW : Type 0} (usize_max : ℕ) (vertex : Projection V VW)
    (hyperedge : Projection HE HW) (fv : IsFaithful vertex) (fh : IsFaithful hyperedge) where
  v_weight_back : (w : V) → map_err vertex_weight (vertex.try_into (vertex.into w)) ≡ done w
  v_weight_back w = ap (map_err vertex_weight) (fv.back w)

  he_weight_back :
      (w : HE) → map_err hyperedge_weight (hyperedge.try_into (hyperedge.into w)) ≡ done w
  he_weight_back w = ap (map_err hyperedge_weight) (fh.back w)

  -- An event whose indices and counts are `usize`s comes back unchanged from its wire form, where
  -- the weights do.
  pub try_into_event-from_event :
      (e : TemporalEvent V HE)
      → IsSized usize_max e
      → try_into_event usize_max vertex hyperedge (from_event vertex hyperedge e) ≡ done e
  unfolding try_into_event from_event
  try_into_event-from_event (TemporalEvent.vertex_added t i w) h =
      rw (narrow-IsUsize usize_max _ i h, v_weight_back w)
  try_into_event-from_event (TemporalEvent.vertex_removed t i w) h =
      rw (narrow-IsUsize usize_max _ i h, v_weight_back w)
  try_into_event-from_event (TemporalEvent.vertex_weight_updated t i old fresh) h =
      rw (narrow-IsUsize usize_max _ i h, v_weight_back old, v_weight_back fresh)
  try_into_event-from_event (TemporalEvent.hyperedge_added t i vs w) h =
      rw (narrow-IsUsize usize_max _ i h.0, collect-narrow usize_max _ vs h.1, he_weight_back w)
  try_into_event-from_event (TemporalEvent.hyperedge_removed t i vs w) h =
      rw (narrow-IsUsize usize_max _ i h.0, collect-narrow usize_max _ vs h.1, he_weight_back w)
  try_into_event-from_event (TemporalEvent.hyperedge_weight_updated t i old fresh) h =
      rw (narrow-IsUsize usize_max _ i h, he_weight_back old, he_weight_back fresh)
  try_into_event-from_event (TemporalEvent.hyperedge_vertices_updated t i old fresh) h = rw (
    narrow-IsUsize usize_max _ i h.0,
    collect-narrow usize_max _ old h.1,
    collect-narrow usize_max _ fresh h.2,
  )
  try_into_event-from_event (TemporalEvent.hyperedge_reversed t i old fresh) h = rw (
    narrow-IsUsize usize_max _ i h.0,
    collect-narrow usize_max _ old h.1,
    collect-narrow usize_max _ fresh h.2,
  )
  try_into_event-from_event (TemporalEvent.hyperedges_joined t i sources fresh) h = rw (
    narrow-IsUsize usize_max _ i h.0,
    collect-narrow usize_max _ sources h.1,
    collect-narrow usize_max _ fresh h.2,
  )
  try_into_event-from_event (TemporalEvent.vertices_contracted t i contracted target old fresh) h =
      rw (
        narrow-IsUsize usize_max _ i h.0,
        collect-narrow usize_max _ contracted h.1,
        narrow-IsUsize usize_max _ target h.2,
        collect-narrow usize_max _ old h.3,
        collect-narrow usize_max _ fresh h.4,
      )
  try_into_event-from_event (TemporalEvent.hyperedges_cleared t n) h =
      rw (narrow-IsUsize usize_max _ n h)
  try_into_event-from_event (TemporalEvent.graph_cleared t n m) h =
      rw (narrow-IsUsize usize_max _ n h.0, narrow-IsUsize usize_max _ m h.1)
  try_into_event-from_event (TemporalEvent.snapshot_marker t s) h = refl

kind_from_str-as_str : (k : DecisionKind) → kind_from_str (as_str k) ≡ done k
unfolding kind_from_str as_str
kind_from_str-as_str join = refl
kind_from_str-as_str leave = refl

-- A decision whose agent is a `usize` comes back unchanged from its wire form.
pub try_into_record-from_record :
    {Score : Type 0} (usize_max : ℕ) (r : DecisionRecord Score)
    → IsUsize usize_max r.agent_id
    → try_into_record usize_max (from_record r) ≡ done r
unfolding try_into_record from_record
try_into_record-from_record usize_max r h =
    rw (kind_from_str-as_str r.kind, narrow-IsUsize usize_max _ r.agent_id h)
