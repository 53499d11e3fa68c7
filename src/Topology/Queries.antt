-- ===== src/Topology/Queries.antt =====
-- src/topology/queries.rs: time-travel queries over an event log. Each query is a loop over the
-- events of one vertex or hyperedge; those about a moment stop at the first event that is later.
-- `TemporalQueries`' methods take the read lock and run these loops under it.
pub mod World
pub mod Scans
pub mod Vertices
pub mod Hyperedges
pub mod TimeTravel
pub mod Clears
pub mod Lifespans
use koalisi.Common.{
  ℕ, ◌≡◌, Bool, true, false, not, Option, none, some, List, [], ◌∷◌, length, filter, contains, ltb,
  ◌==◌, if◌then◌else◌,
}
use koalisi.Topology.Timestamp.{Timestamp, TimeRange}
use koalisi.Topology.Events.{
  TemporalEvent, vertex_added, vertex_removed, vertex_weight_updated, hyperedge_added,
  hyperedge_removed, hyperedge_weight_updated, hyperedge_vertices_updated, hyperedge_reversed,
  hyperedges_joined, vertices_contracted, VertexIndex, HyperedgeIndex, timestamp,
}
use koalisi.Topology.EventLog.{
  EventLog, vertex_events, hyperedge_events, vertex_indices, hyperedge_indices,
}

-- from the creation, if there was one, to the last removal
abbrev lifespan : Option Timestamp → Option Timestamp → Option TimeRange
lifespan none removed = none
lifespan (some created) removed = some (record { start = some created; end = removed })

module _ {V HE : Type 0} where
  -- `for event in events { if event.timestamp() > timestamp { break; } state = step(state, event) }`
  unfoldable pub scan_until :
      {S : Type 0} (step : S → TemporalEvent V HE → S) (t : Timestamp)
      → S
      → List (TemporalEvent V HE)
      → S
  scan_until step t s [] = s
  scan_until step t s (e ∷ es) = if ltb t (timestamp e) then s else scan_until step t (step s e) es

  -- the same loop without the `break`
  unfoldable pub scan :
      {S : Type 0} (step : S → TemporalEvent V HE → S) → S → List (TemporalEvent V HE) → S
  scan step s [] = s
  scan step s (e ∷ es) = scan step (step s e) es

  -- `iter().find_map(f)`
  unfoldable pub find_map :
      {S : Type 0} → (TemporalEvent V HE → Option S) → List (TemporalEvent V HE) → Option S
  find_map f [] = none
  find_map f (e ∷ es) = elim (f e) [ none ↦ find_map f es | some s ↦ some s ]

  -- the bodies of the loops
  unfoldable pub vertex_exists_step : Bool → TemporalEvent V HE → Bool
  vertex_exists_step b (vertex_added t i w) = true
  vertex_exists_step b (vertex_removed t i w) = false
  vertex_exists_step b _ = b

  unfoldable pub hyperedge_exists_step : HyperedgeIndex → Bool → TemporalEvent V HE → Bool
  hyperedge_exists_step h b (hyperedge_added t i vs w) = true
  hyperedge_exists_step h b (hyperedge_removed t i vs w) = false
  hyperedge_exists_step h b (hyperedges_joined t i sources fresh) =
      if contains sources h then false else b
  hyperedge_exists_step h b _ = b

  unfoldable pub vertex_weight_step : Option V → TemporalEvent V HE → Option V
  vertex_weight_step o (vertex_added t i w) = some w
  vertex_weight_step o (vertex_removed t i w) = none
  vertex_weight_step o (vertex_weight_updated t i old fresh) = some fresh
  vertex_weight_step o _ = o

  unfoldable pub hyperedge_weight_step : HyperedgeIndex → Option HE → TemporalEvent V HE → Option HE
  hyperedge_weight_step h o (hyperedge_added t i vs w) = some w
  hyperedge_weight_step h o (hyperedge_removed t i vs w) = none
  hyperedge_weight_step h o (hyperedge_weight_updated t i old fresh) = some fresh
  hyperedge_weight_step h o (hyperedges_joined t i sources fresh) =
      if contains sources h then none else o
  hyperedge_weight_step h o _ = o

  unfoldable pub hyperedge_vertices_step :
      HyperedgeIndex → Option (List VertexIndex) → TemporalEvent V HE → Option (List VertexIndex)
  hyperedge_vertices_step h o (hyperedge_added t i vs w) = some vs
  hyperedge_vertices_step h o (hyperedge_removed t i vs w) = none
  hyperedge_vertices_step h o (hyperedge_vertices_updated t i old fresh) = some fresh
  hyperedge_vertices_step h o (hyperedge_reversed t i old fresh) = some fresh
  hyperedge_vertices_step h o (hyperedges_joined t i sources fresh) =
      if i == h then some fresh else (if contains sources h then none else o)
  hyperedge_vertices_step h o (vertices_contracted t i contracted target old fresh) = some fresh
  hyperedge_vertices_step h o _ = o

  unfoldable pub vertex_added_time : TemporalEvent V HE → Option Timestamp
  vertex_added_time (vertex_added t i w) = some t
  vertex_added_time _ = none

  unfoldable pub hyperedge_added_time : TemporalEvent V HE → Option Timestamp
  hyperedge_added_time (hyperedge_added t i vs w) = some t
  hyperedge_added_time _ = none

  unfoldable pub vertex_removed_step : Option Timestamp → TemporalEvent V HE → Option Timestamp
  vertex_removed_step o (vertex_added t i w) = none
  vertex_removed_step o (vertex_removed t i w) = some t
  vertex_removed_step o _ = o

  unfoldable pub hyperedge_removed_step :
      HyperedgeIndex → Option Timestamp → TemporalEvent V HE → Option Timestamp
  hyperedge_removed_step h o (hyperedge_added t i vs w) = none
  hyperedge_removed_step h o (hyperedge_removed t i vs w) = some t
  hyperedge_removed_step h o (hyperedges_joined t i sources fresh) =
      if contains sources h then some t else o
  hyperedge_removed_step h o _ = o

  unfoldable pub vertex_exists_at : EventLog V HE → VertexIndex → Timestamp → Bool
  vertex_exists_at log v t = scan_until vertex_exists_step t false (vertex_events log v)

  unfoldable pub hyperedge_exists_at : EventLog V HE → HyperedgeIndex → Timestamp → Bool
  hyperedge_exists_at log h t =
      scan_until (hyperedge_exists_step h) t false (hyperedge_events log h)

  unfoldable pub vertex_weight_at : EventLog V HE → VertexIndex → Timestamp → Option V
  vertex_weight_at log v t = scan_until vertex_weight_step t none (vertex_events log v)

  unfoldable pub hyperedge_weight_at : EventLog V HE → HyperedgeIndex → Timestamp → Option HE
  hyperedge_weight_at log h t = scan_until (hyperedge_weight_step h) t none (hyperedge_events log h)

  unfoldable pub hyperedge_vertices_at :
      EventLog V HE → HyperedgeIndex → Timestamp → Option (List VertexIndex)
  hyperedge_vertices_at log h t =
      scan_until (hyperedge_vertices_step h) t none (hyperedge_events log h)

  unfoldable pub count_vertices_at : EventLog V HE → Timestamp → ℕ
  count_vertices_at log t = length (filter (λ v. vertex_exists_at log v t) (vertex_indices log))

  unfoldable pub count_hyperedges_at : EventLog V HE → Timestamp → ℕ
  count_hyperedges_at log t =
      length (filter (λ h. hyperedge_exists_at log h t) (hyperedge_indices log))

  unfoldable pub vertex_created_at : EventLog V HE → VertexIndex → Option Timestamp
  vertex_created_at log v = find_map vertex_added_time (vertex_events log v)

  unfoldable pub vertex_removed_at : EventLog V HE → VertexIndex → Option Timestamp
  vertex_removed_at log v = scan vertex_removed_step none (vertex_events log v)

  unfoldable pub hyperedge_created_at : EventLog V HE → HyperedgeIndex → Option Timestamp
  hyperedge_created_at log h = find_map hyperedge_added_time (hyperedge_events log h)

  unfoldable pub hyperedge_removed_at : EventLog V HE → HyperedgeIndex → Option Timestamp
  hyperedge_removed_at log h = scan (hyperedge_removed_step h) none (hyperedge_events log h)

  unfoldable pub vertex_lifespan : EventLog V HE → VertexIndex → Option TimeRange
  vertex_lifespan log v = lifespan (vertex_created_at log v) (vertex_removed_at log v)

  unfoldable pub hyperedge_lifespan : EventLog V HE → HyperedgeIndex → Option TimeRange
  hyperedge_lifespan log h = lifespan (hyperedge_created_at log h) (hyperedge_removed_at log h)
