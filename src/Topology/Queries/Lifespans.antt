-- ===== src/Topology/Queries/Lifespans.antt =====
-- Creation and removal times against existence (src/topology/queries.rs).
use koalisi.Common.{◌≤◌, ◌≡◌, refl, Bool, not, ◌&&◌, Option, none, some, List, [], ◌∷◌, arith, All}
use koalisi.Topology.Timestamp.{Timestamp}
use koalisi.Topology.Events.{
  TemporalEvent, vertex_added, vertex_removed, hyperedge_added, VertexIndex, HyperedgeIndex,
  timestamp,
}
use koalisi.Topology.EventLog.{EventLog, vertex_events, hyperedge_events}
use koalisi.Topology.Queries.{
  scan_until, scan, find_map, vertex_exists_step, vertex_added_time, vertex_removed_step,
  hyperedge_exists_step, hyperedge_added_time, hyperedge_removed_step, vertex_exists_at,
  vertex_created_at, vertex_removed_at, hyperedge_exists_at, hyperedge_created_at,
  hyperedge_removed_at,
}
use koalisi.Topology.Queries.World.{is_some}

-- the first of two times that is there
abbrev or_else : Option Timestamp → Option Timestamp → Option Timestamp
or_else none o = o
or_else (some t) o = some t

-- created, and not removed since
abbrev pub stands : Option Timestamp → Option Timestamp → Bool
stands created removed = is_some created && not (is_some removed)

module _ {V HE : Type 0} (t : Timestamp) where
  vertex_step-stands :
      (c r : Option Timestamp) (e : TemporalEvent V HE)
      → vertex_exists_step (stands c r) e
        ≡ stands (or_else c (vertex_added_time e)) (vertex_removed_step r e)
  unfolding vertex_exists_step vertex_added_time vertex_removed_step
  vertex_step-stands c r (vertex_added s i w) = ground arith
  vertex_step-stands c r (vertex_removed s i w) = ground arith
  vertex_step-stands c r _ = ground arith

  hyperedge_step-stands :
      (h : HyperedgeIndex) (c r : Option Timestamp) (e : TemporalEvent V HE)
      → hyperedge_exists_step h (stands c r) e
        ≡ stands (or_else c (hyperedge_added_time e)) (hyperedge_removed_step h r e)
  unfolding hyperedge_exists_step hyperedge_added_time hyperedge_removed_step
  hyperedge_step-stands h c r (hyperedge_added s i vs w) = ground arith
  hyperedge_step-stands h c r _ = ground arith

  module _ (step : Bool → TemporalEvent V HE → Bool) (added : TemporalEvent V HE → Option Timestamp)
      (removed : Option Timestamp → TemporalEvent V HE → Option Timestamp)
      (step-stands : (c r : Option Timestamp) (e : TemporalEvent V HE)
        → step (stands c r) e ≡ stands (or_else c (added e)) (removed r e)) where
    scan_until-stands :
        (c r : Option Timestamp) (es : List (TemporalEvent V HE))
        → All (λ e. timestamp e ≤ t) es
        → scan_until step t (stands c r) es
          ≡ stands (or_else c (find_map added es)) (scan removed r es)
    unfolding scan_until scan find_map
    scan_until-stands none r [] h = refl
    scan_until-stands (some s) r [] h = refl
    scan_until-stands c r (e ∷ es) h =
        ground
          (arith, step-stands c r e, scan_until-stands (or_else c (added e)) (removed r e) es h.1)

  -- At a moment by which all events of a vertex have happened, the vertex exists exactly when it
  -- has a creation time and no removal time.
  pub vertex_exists_at-stands :
      (log : EventLog V HE) (v : VertexIndex)
      → All (λ e. timestamp e ≤ t) (vertex_events log v)
      → vertex_exists_at log v t ≡ stands (vertex_created_at log v) (vertex_removed_at log v)
  unfolding vertex_exists_at vertex_created_at vertex_removed_at
  vertex_exists_at-stands log v h =
      scan_until-stands vertex_exists_step vertex_added_time vertex_removed_step vertex_step-stands
        none none (vertex_events log v) h

  -- At a moment by which all events of a hyperedge have happened, the hyperedge exists exactly when
  -- it has a creation time and no removal time.
  pub hyperedge_exists_at-stands :
      (log : EventLog V HE) (k : HyperedgeIndex)
      → All (λ e. timestamp e ≤ t) (hyperedge_events log k)
      → hyperedge_exists_at log k t
        ≡ stands (hyperedge_created_at log k) (hyperedge_removed_at log k)
  unfolding hyperedge_exists_at hyperedge_created_at hyperedge_removed_at
  hyperedge_exists_at-stands log k h =
      scan_until-stands (hyperedge_exists_step k) hyperedge_added_time (hyperedge_removed_step k)
        (hyperedge_step-stands k) none none (hyperedge_events log k) h
