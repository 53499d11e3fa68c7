-- ===== src/Topology/Coalitions.antt =====
-- src/topology/coalitions.rs: coalitions as hyperedges over agents as vertices, and joins and leaves
-- that ask a policy first. The manager's state is its hypergraph's; an operation is a `Job` on it.
-- A policy's answer, or its panic, is a parameter, with the type of its score. A policy-gated
-- operation takes the graph's lock anew for each of its reads and for its mutation, and other callers
-- may change the graph between: `meanwhile k` is what they do after the k-th step of the operation.
pub mod History
pub mod Episodes
pub mod Intervals
pub mod Membership
pub mod Gated
pub mod Seeding
use koalisi.Common.{
  ℕ, suc, ◌+◌, ◌≡◌, length, Bool, true, false, not, Option, none, some, List, [], ◌∷◌, ◌++◌, filter,
  contains, ◌==◌, if◌then◌else◌,
}
use koalisi.Topology.Timestamp.{Timestamp, TimeRange}
use koalisi.Topology.Events.{VertexIndex, HyperedgeIndex, SnapshotId}
use koalisi.Topology.Queries.{
  hyperedge_vertices_at, hyperedge_created_at, hyperedge_removed_at, hyperedge_lifespan,
  count_vertices_at, count_hyperedges_at,
}
use koalisi.Topology.Errors.{Outcome, ok, err, panicked, empty_coalition}
use koalisi.Topology.Jobs.{Job, ◌>>=◌, ◌>>◌, pure}
use koalisi.Topology.Hypergraph.{Library}
use koalisi.Topology.Temporal
use koalisi.Topology.Temporal.{
  TemporalHypergraph, get_vertex_weight, get_hyperedge_vertices, get_hyperedge_weight,
  count_vertices, count_hyperedges,
}
use koalisi.Topology.Temporal.Mutations
use koalisi.Topology.Temporal.Mutations.{
  add_vertex, remove_vertex, add_hyperedge, remove_hyperedge, join_hyperedges,
  update_hyperedge_vertices_try, update_vertex_weight, update_hyperedge_weight,
}

-- `Decision`
pub record Decision (Score : Type 0) : Type 0 where
  pub act : Bool
  pub score : Score

-- `CoalitionDecisionPolicy`, asked with a context: the agent's own weight and those of the members.
-- None is a panic of the policy.
pub record Policy (V : Type 0) : Type 1 where
  pub Score : Type 0
  pub zero_score : Score
  pub should_join : V → List V → Option (Decision Score)
  pub should_leave : V → List V → Option (Decision Score)

-- `if !members.contains(&agent) { members.push(agent) }`
unfoldable pub joined : VertexIndex → List VertexIndex → List VertexIndex
joined agent members = if contains members agent then members else members ++ agent ∷ []

-- `members.into_iter().filter(|&v| v != agent)`
abbrev pub without : VertexIndex → List VertexIndex → List VertexIndex
without agent = filter (λ v. not (v == agent))

abbrev pub or_empty : {E : Type 0} → List VertexIndex → Outcome E (List VertexIndex)
or_empty [] = err empty_coalition
or_empty (v ∷ vs) = ok (v ∷ vs)

-- the element of `views` at the first position of `agent` in `members`
abbrev pub view_of : {V : Type 0} → VertexIndex → List VertexIndex → List V → Option V
view_of agent [] views = none
view_of agent (m ∷ ms) [] = none
view_of agent (m ∷ ms) (w ∷ ws) = if m == agent then some w else view_of agent ms ws

module _ {V HE : Type 0} (lib : Library V HE) where
  abbrev pub Action : Type 0 → Type 0
  Action = Job (TemporalHypergraph lib) lib.HypergraphError

  unfoldable pub add_agent : V → Action VertexIndex
  add_agent = add_vertex lib

  unfoldable pub remove_agent : VertexIndex → Action (Unit {0})
  remove_agent = remove_vertex lib

  unfoldable pub form_coalition : List VertexIndex → HE → Action HyperedgeIndex
  form_coalition = add_hyperedge lib

  unfoldable pub dissolve_coalition : HyperedgeIndex → Action (Unit {0})
  dissolve_coalition = remove_hyperedge lib

  unfoldable pub join_coalition : VertexIndex → HyperedgeIndex → Action (Unit {0})
  join_coalition agent coalition =
      update_hyperedge_vertices_try lib coalition (λ members. ok (joined agent members))

  unfoldable pub leave_coalition : VertexIndex → HyperedgeIndex → Action (Unit {0})
  leave_coalition agent coalition =
      update_hyperedge_vertices_try lib coalition (λ members. or_empty (without agent members))

  unfoldable pub merge_coalitions : List HyperedgeIndex → Action (Unit {0})
  merge_coalitions = join_hyperedges lib

  unfoldable pub update_agent : VertexIndex → V → Action (Unit {0})
  update_agent = update_vertex_weight lib

  unfoldable pub update_coalition : HyperedgeIndex → HE → Action (Unit {0})
  update_coalition = update_hyperedge_weight lib

  -- a snapshot cannot fail
  unfoldable pub create_snapshot : TemporalHypergraph lib → TemporalHypergraph lib × SnapshotId
  create_snapshot = Temporal.create_snapshot lib

  unfoldable pub get_coalition : HyperedgeIndex → Action HE
  get_coalition coalition th = (th, get_hyperedge_weight lib th coalition)

  unfoldable pub count_agents : Action ℕ
  count_agents th = (th, count_vertices lib th)

  unfoldable pub count_coalitions : Action ℕ
  count_coalitions th = (th, count_hyperedges lib th)

  unfoldable pub coalition_formed_at : TemporalHypergraph lib → HyperedgeIndex → Option Timestamp
  coalition_formed_at th coalition = hyperedge_created_at th.log coalition

  unfoldable pub coalition_dissolved_at : TemporalHypergraph lib → HyperedgeIndex → Option Timestamp
  coalition_dissolved_at th coalition = hyperedge_removed_at th.log coalition

  unfoldable pub coalition_lifespan : TemporalHypergraph lib → HyperedgeIndex → Option TimeRange
  coalition_lifespan th coalition = hyperedge_lifespan th.log coalition

  unfoldable pub count_agents_at : TemporalHypergraph lib → Timestamp → ℕ
  count_agents_at th t = count_vertices_at th.log t

  unfoldable pub count_coalitions_at : TemporalHypergraph lib → Timestamp → ℕ
  count_coalitions_at th t = count_hyperedges_at th.log t

  -- reads, as actions that change nothing
  unfoldable pub get_agent : VertexIndex → Action V
  get_agent agent th = (th, get_vertex_weight lib th agent)

  unfoldable pub coalition_members : HyperedgeIndex → Action (List VertexIndex)
  coalition_members coalition th = (th, get_hyperedge_vertices lib th coalition)

  -- what other callers do to the shared state, after each step of an operation
  abbrev pub Others : Type 0
  Others = ℕ → TemporalHypergraph lib → TemporalHypergraph lib

  abbrev pub wait : (TemporalHypergraph lib → TemporalHypergraph lib) → Action (Unit {0})
  wait meanwhile th = (meanwhile th, ok tt)

  -- one read for each member, from the step `k` on
  unfoldable pub agent_weights : Others → ℕ → List VertexIndex → Action (List V)
  agent_weights meanwhile k [] = pure []
  agent_weights meanwhile k (m ∷ ms) = do
    weight ← get_agent m
    wait (meanwhile k)
    weights ← agent_weights meanwhile (suc k) ms
    pure (weight ∷ weights)

  unfoldable pub coalition_members_at :
      TemporalHypergraph lib → HyperedgeIndex → Timestamp → Option (List VertexIndex)
  coalition_members_at th coalition t = hyperedge_vertices_at th.log coalition t

  -- `was_member_at`
  unfoldable pub was_member_at :
      TemporalHypergraph lib → VertexIndex → HyperedgeIndex → Timestamp → Bool
  was_member_at th agent coalition t = elim (coalition_members_at th coalition t) [
    | none ↦ false
    | some members ↦ contains members agent
  ]

  -- the policy's answer; its panic ends the operation
  abbrev pub consulted : {Score : Type 0} → Option (Decision Score) → Action (Decision Score)
  consulted none th = (th, panicked)
  consulted (some decision) th = (th, ok decision)

  -- `if decision.act { action.await?; } Ok(decision)`
  unfoldable pub when_act :
      {Score : Type 0} → Decision Score → Action (Unit {0}) → Action (Decision Score)
  when_act decision action = if decision.act then (action >> pure decision) else pure decision

  module _ (policy : Policy V) (meanwhile : Others) where
    unfoldable pub try_join_coalition :
        VertexIndex → HyperedgeIndex → Action (Decision policy.Score)
    try_join_coalition agent coalition = do
      agent_weight ← get_agent agent
      wait (meanwhile 0)
      members ← coalition_members coalition
      wait (meanwhile 1)
      views ← agent_weights meanwhile 2 (without agent members)
      wait (meanwhile (2 + length (without agent members)))
      decision ← consulted (policy.should_join agent_weight views)
      when_act decision (join_coalition agent coalition)

    -- An agent that is not a member has nothing to leave.
    unfoldable pub leave_if :
        VertexIndex → HyperedgeIndex → ℕ → List V → Option V → Action (Decision policy.Score)
    leave_if agent coalition k views none = pure (record { act = false; score = policy.zero_score })
    leave_if agent coalition k views (some agent_view) = do
      wait (meanwhile k)
      decision ← consulted (policy.should_leave agent_view views)
      when_act decision (leave_coalition agent coalition)

    unfoldable pub try_leave_coalition :
        VertexIndex → HyperedgeIndex → Action (Decision policy.Score)
    try_leave_coalition agent coalition = do
      members ← coalition_members coalition
      wait (meanwhile 0)
      views ← agent_weights meanwhile 1 members
      leave_if agent coalition (1 + length members) views (view_of agent members views)
