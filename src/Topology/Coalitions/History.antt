-- ===== src/Topology/Coalitions/History.antt =====
-- `agent_coalition_history` of src/topology/coalitions.rs: when an agent was a member of which
-- coalition, from one pass over the log.
use koalisi.Common.{
  Bool, true, false, Option, none, some, List, [], ◌∷◌, ◌++◌, map, contains, if◌then◌else◌,
}
use koalisi.Common.HashMap
use koalisi.Common.HashMap.{HashMap}
use koalisi.Topology.Timestamp.{Timestamp, TimeRange}
use koalisi.Topology.Events.{
  TemporalEvent, hyperedge_added, hyperedge_removed, hyperedge_vertices_updated, hyperedges_joined,
  vertices_contracted, VertexIndex, HyperedgeIndex,
}

-- The closed memberships so far, and the start of each open one.
pub record Membership : Type 0 where
  pub history : List (HyperedgeIndex × TimeRange)
  pub membership_start : HashMap Timestamp

abbrev pub nothing_yet : Membership
nothing_yet = record { history = []; membership_start = [] }

-- `membership_start.insert(index, timestamp)`
unfoldable pub start : HyperedgeIndex → Timestamp → Membership → Membership
start i t m = record m { membership_start = HashMap.insert i t m.membership_start }

abbrev pub ended : HyperedgeIndex → Option Timestamp → Timestamp → List (HyperedgeIndex × TimeRange)
ended i none t = []
ended i (some s) t = (i, record { start = some s; end = some t }) ∷ []

-- `if let Some(start) = membership_start.remove(index) { history.push(..) }`
unfoldable pub close : HyperedgeIndex → Timestamp → Membership → Membership
close i t m = record {
  history = m.history ++ ended i (HashMap.get i m.membership_start) t;
  membership_start = HashMap.remove i m.membership_start;
}

-- `for source in source_indices`
unfoldable pub close_each : List HyperedgeIndex → Timestamp → Membership → Membership
close_each [] t m = m
close_each (i ∷ is) t m = close_each is t (close i t m)

-- `match (was_member, is_member)`
unfoldable pub change : HyperedgeIndex → Timestamp → Bool → Bool → Membership → Membership
unfolding start close
change i t false true m = start i t m
change i t true false m = close i t m
change i t _ _ m = m

module _ {V HE : Type 0} (agent : VertexIndex) where
  -- the body of the loop
  unfoldable pub history_step : Membership → TemporalEvent V HE → Membership
  unfolding change
  history_step m (hyperedge_added t i vs w) = if contains vs agent then start i t m else m
  history_step m (hyperedge_removed t i vs w) = close i t m
  history_step m (hyperedge_vertices_updated t i old fresh) =
      change i t (contains old agent) (contains fresh agent) m
  history_step m (hyperedges_joined t i sources fresh) =
      let closed = close_each sources t m in
      if contains fresh agent then start i t closed else closed
  history_step m (vertices_contracted t i contracted target old fresh) =
      change i t (contains old agent) (contains fresh agent) m
  history_step m _ = m

  unfoldable pub history_loop : Membership → List (TemporalEvent V HE) → Membership
  history_loop m [] = m
  history_loop m (e ∷ es) = history_loop (history_step m e) es

  -- the open memberships are appended, in the order of the hash map
  unfoldable pub agent_coalition_history :
      List (TemporalEvent V HE) → List (HyperedgeIndex × TimeRange)
  agent_coalition_history es =
      let m = history_loop nothing_yet es in
      m.history ++ map (λ kv. (kv.0, record { start = some kv.1; end = none })) m.membership_start
