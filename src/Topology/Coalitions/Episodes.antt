-- ===== src/Topology/Coalitions/Episodes.antt =====
-- The open and the closed memberships of an agent's history (src/topology/coalitions.rs).
use koalisi.Common.{
  ◌≡◌, refl, ◌∙◌, Bool, true, false, Option, none, some, List, [], ◌∷◌, arith, contains, ◌==◌,
  if◌then◌else◌,
}
use koalisi.Common.HashMap
use koalisi.Common.HashMap.{HashMap, get-update, get-remove}
use koalisi.Topology.Timestamp.{Timestamp}
use koalisi.Topology.Events.{
  TemporalEvent, vertex_added, vertex_removed, vertex_weight_updated, hyperedge_added,
  hyperedge_removed, hyperedge_weight_updated, hyperedge_vertices_updated, hyperedge_reversed,
  hyperedges_joined, vertices_contracted, hyperedges_cleared, graph_cleared, snapshot_marker,
  VertexIndex, HyperedgeIndex,
}
use koalisi.Topology.Queries.World.{World, empty, apply, replay, is_some, vertices_of}
use koalisi.Topology.Coalitions.History.{
  Membership, nothing_yet, start, close, close_each, change, history_step, history_loop,
}

abbrev pub is_member : VertexIndex → Option (List VertexIndex) → Bool
is_member a none = false
is_member a (some vs) = contains vs a

module _ {V HE : Type 0} where
  abbrev pub members : World V HE → HyperedgeIndex → Option (List VertexIndex)
  members w h = vertices_of (w.hyperedge h)

  -- The event says truly what it changes: a hyperedge that is added was not there, the old vertices
  -- of an update are those that stand, a reversal keeps the members, a join names its target not
  -- among the sources and keeps the members of the target, and nothing is cleared.
  abbrev pub IsTruthful : World V HE → TemporalEvent V HE → Type 0
  IsTruthful w (hyperedge_added t i vs a) = members w i ≡ none
  IsTruthful w (hyperedge_vertices_updated t i old fresh) = members w i ≡ some old
  IsTruthful w (hyperedge_reversed t i old fresh) =
      (members w i ≡ some old) × ((a : VertexIndex) → contains fresh a ≡ contains old a)
  IsTruthful w (hyperedges_joined t i sources fresh) =
      (is_some (members w i) ≡ true)
      × (contains sources i ≡ false)
      × ((a : VertexIndex) → is_member a (members w i) ≡ true → contains fresh a ≡ true)
  IsTruthful w (vertices_contracted t i contracted target old fresh) = members w i ≡ some old
  IsTruthful w (hyperedges_cleared t n) = ⊥
  IsTruthful w (graph_cleared t n m) = ⊥
  IsTruthful w _ = Unit

  abbrev pub IsTrue : World V HE → List (TemporalEvent V HE) → Type 0
  IsTrue w [] = Unit
  IsTrue w (e ∷ es) = IsTruthful w e × IsTrue (apply w e) es

pub get-close_each :
    (is : List HyperedgeIndex) (t : Timestamp) (m : Membership) (h : HyperedgeIndex)
    → HashMap.get h (close_each is t m).membership_start
      ≡ (if contains is h then none else HashMap.get h m.membership_start)
unfolding close_each close
get-close_each [] t m h = refl
get-close_each (i ∷ is) t m h =
    ground (arith, get-close_each is t (close i t m) h, get-remove i h m.membership_start)

pub get-change :
    (i : HyperedgeIndex) (t : Timestamp) (was is : Bool) (m : Membership) (h : HyperedgeIndex)
    → HashMap.get h (change i t was is m).membership_start ≡ (
        if i == h
        then (if is
            then (if was then HashMap.get h m.membership_start else some t)
            else (if was then none else HashMap.get h m.membership_start))
        else HashMap.get h m.membership_start)
unfolding change
get-change i t false true m h = get-update i h (λ _. t) m.membership_start ∙ ground arith
get-change i t true false m h = get-remove i h m.membership_start ∙ ground arith
get-change i t false false m h = ground arith
get-change i t true true m h = ground arith

module _ {V HE : Type 0} (a : VertexIndex) where
  -- The open memberships are those of the coalitions that have the agent as a member.
  abbrev IsOpen : World V HE → Membership → Type 0
  IsOpen w m =
      (h : HyperedgeIndex) → is_some (HashMap.get h m.membership_start) ≡ is_member a (members w h)

  history_step-IsOpen :
      (w : World V HE) (m : Membership) (e : TemporalEvent V HE)
      → IsTruthful w e
      → IsOpen w m
      → IsOpen (apply w e) (history_step a m e)
  unfolding apply history_step start close
  history_step-IsOpen w m (vertex_added t i x) true_ o h = o h
  history_step-IsOpen w m (vertex_removed t i x) true_ o h = o h
  history_step-IsOpen w m (vertex_weight_updated t i old fresh) true_ o h = o h
  history_step-IsOpen w m (hyperedge_added t i vs x) true_ o h =
      ground (arith, o h, get-update i h (λ _. t) m.membership_start)
  history_step-IsOpen w m (hyperedge_removed t i vs x) true_ o h =
      ground (arith, o h, get-remove i h m.membership_start)
  history_step-IsOpen w m (hyperedge_weight_updated t i old fresh) true_ o h = ground (arith, o h)
  history_step-IsOpen w m (hyperedge_vertices_updated t i old fresh) true_ o h =
      ground (arith, o h, get-change i t (contains old a) (contains fresh a) m h)
  history_step-IsOpen w m (hyperedge_reversed t i old fresh) true_ o h =
      ground (arith, o h, true_.1 a)
  history_step-IsOpen w m (hyperedges_joined t i sources fresh) true_ o h = ground (
    arith,
    o h,
    true_.2 a,
    get-close_each sources t m h,
    get-update i h (λ _. t) (close_each sources t m).membership_start,
  )
  history_step-IsOpen w m (vertices_contracted t i contracted target old fresh) true_ o h =
      ground (arith, o h, get-change i t (contains old a) (contains fresh a) m h)
  history_step-IsOpen w m (hyperedges_cleared t n) true_ o h = absurd true_
  history_step-IsOpen w m (graph_cleared t n k) true_ o h = absurd true_
  history_step-IsOpen w m (snapshot_marker t s) true_ o h = o h

  history_loop-IsOpen :
      (w : World V HE) (m : Membership) (es : List (TemporalEvent V HE))
      → IsTrue w es
      → IsOpen w m
      → IsOpen (replay w es) (history_loop a m es)
  unfolding history_loop replay
  history_loop-IsOpen w m [] true_ o = o
  history_loop-IsOpen w m (e ∷ es) true_ o =
      history_loop-IsOpen (apply w e) (history_step a m e) es true_.1
        (history_step-IsOpen w m e true_.0 o)

  -- Take a log without clears whose events say truly what they change: a hyperedge that is added
  -- was not there, the old vertices of an update or a contraction are those that stand, a reversal
  -- keeps the members, and a join keeps those of its target, which is not among its sources. After
  -- it, the history has an open membership in a coalition exactly when the agent is a member of the
  -- coalition in the replay of the log.
  pub open_memberships :
      (es : List (TemporalEvent V HE)) (h : HyperedgeIndex)
      → IsTrue empty es
      → is_some (HashMap.get h (history_loop a nothing_yet es).membership_start)
        ≡ is_member a (members (replay empty es) h)
  open_memberships es h true_ = history_loop-IsOpen empty nothing_yet es true_ (λ k. refl) h
