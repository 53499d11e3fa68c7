-- ===== src/Topology/Coalitions/Intervals.antt =====
-- The intervals of an agent's history, and what a merge of coalitions does to them
-- (src/topology/coalitions.rs).
use koalisi.Common.{
  ◌≤◌, ◌≡◌, refl, ap, ◌∙◌, Bool, true, false, Option, none, some, List, [], ◌∷◌, ◌++◌, map, arith,
  All, All-append, All-of, filter, filter-append, append-nil, ==_refl, contains, ◌==◌,
  if◌then◌else◌,
}
use koalisi.Common.HashMap
use koalisi.Common.HashMap.{HashMap, get-update, get-remove}
use koalisi.Topology.Timestamp.{Timestamp, TimeRange}
use koalisi.Topology.Events.{
  TemporalEvent, hyperedge_added, hyperedge_removed, hyperedge_vertices_updated, hyperedges_joined,
  vertices_contracted, VertexIndex, HyperedgeIndex, timestamp,
}
use koalisi.Topology.EventLog.Chronology.{IsChronological}
use koalisi.Topology.Coalitions.History.{
  Membership, nothing_yet, ended, start, close, close_each, change, history_step, history_loop,
  agent_coalition_history,
}

-- A range does not end before it starts.
abbrev pub IsForward : TimeRange → Type 0
IsForward r = (s e : Timestamp) → r.start ≡ some s → r.end ≡ some e → s ≤ e

-- All closed memberships are forward ranges, and the open ones started by `t`.
record IsBy (t : Timestamp) (m : Membership) : Type 0 where
  closed : All (λ kv. IsForward kv.1) m.history
  opened : (h : HyperedgeIndex) (s : Timestamp) → HashMap.get h m.membership_start ≡ some s → s ≤ t

ended-IsForward :
    (i : HyperedgeIndex) (o : Option Timestamp) (t : Timestamp)
    → ((s : Timestamp) → o ≡ some s → s ≤ t)
    → All (λ kv. IsForward kv.1) (ended i o t)
ended-IsForward i none t h = tt
ended-IsForward i (some s) t h = (λ s' e p q. ground (arith, h s), tt)

start-IsBy : (i : HyperedgeIndex) (t : Timestamp) (m : Membership) → IsBy t m → IsBy t (start i t m)
unfolding start
start-IsBy i t m b = record {
  closed = b.closed;
  opened = λ h s p. ground (arith, get-update i h (λ _. t) m.membership_start, b.opened h s);
}

close-IsBy : (i : HyperedgeIndex) (t : Timestamp) (m : Membership) → IsBy t m → IsBy t (close i t m)
unfolding close
close-IsBy i t m b = record {
  closed = All-append _ m.history _ b.closed (ended-IsForward i _ t (b.opened i));
  opened = λ h s p. ground (arith, get-remove i h m.membership_start, b.opened h s);
}

close_each-IsBy :
    (is : List HyperedgeIndex) (t : Timestamp) (m : Membership)
    → IsBy t m
    → IsBy t (close_each is t m)
unfolding close_each
close_each-IsBy [] t m b = b
close_each-IsBy (i ∷ is) t m b = close_each-IsBy is t (close i t m) (close-IsBy i t m b)

change-IsBy :
    (i : HyperedgeIndex) (t : Timestamp) (was is : Bool) (m : Membership)
    → IsBy t m
    → IsBy t (change i t was is m)
unfolding change
change-IsBy i t false true m b = start-IsBy i t m b
change-IsBy i t true false m b = close-IsBy i t m b
change-IsBy i t false false m b = b
change-IsBy i t true true m b = b

start_if-IsBy :
    (c : Bool) (i : HyperedgeIndex) (t : Timestamp) (m : Membership)
    → IsBy t m
    → IsBy t (if c then start i t m else m)
start_if-IsBy true i t m b = start-IsBy i t m b
start_if-IsBy false i t m b = b

later-IsBy : (s t : Timestamp) (m : Membership) → s ≤ t → IsBy s m → IsBy t m
later-IsBy s t m le b = record {
  closed = b.closed;
  opened = λ h u p. omega (arith, b.opened h u p);
}

open-IsForward :
    (m : HashMap Timestamp)
    → All {A = HyperedgeIndex × TimeRange}
        (λ kv. IsForward kv.1)
        (map (λ kv. (kv.0, record { start = some kv.1; end = none })) m)
open-IsForward [] = tt
open-IsForward (kv ∷ m) = (λ s e p q. cc, open-IsForward m)

-- the closed memberships in one coalition
abbrev pub closed_in : HyperedgeIndex → Membership → List (HyperedgeIndex × TimeRange)
closed_in i m = filter (λ kv. kv.0 == i) m.history

filter-ended :
    (i j : HyperedgeIndex) (o : Option Timestamp) (t : Timestamp)
    → (j == i) ≡ false
    → filter (λ kv. kv.0 == i) (ended j o t) ≡ []
filter-ended i j none t h = refl
filter-ended i j (some s) t h = rw h

closed_in-close_each :
    (i : HyperedgeIndex) (is : List HyperedgeIndex) (t : Timestamp) (m : Membership)
    → contains is i ≡ false
    → closed_in i (close_each is t m) ≡ closed_in i m
unfolding close_each close
closed_in-close_each i [] t m h = refl
closed_in-close_each i (j ∷ is) t m h =
    closed_in-close_each i is t (close j t m) (ground arith)
    ∙ filter-append (λ kv. kv.0 == i) m.history _
    ∙ ap (λ r. closed_in i m ++ r)
        (filter-ended i j (HashMap.get j m.membership_start) t (ground arith))
    ∙ append-nil (closed_in i m)

module _ {V HE : Type 0} (a : VertexIndex) where
  history_step-IsBy :
      (m : Membership) (e : TemporalEvent V HE)
      → IsBy (timestamp e) m
      → IsBy (timestamp e) (history_step a m e)
  unfolding history_step timestamp
  history_step-IsBy m (hyperedge_added t i vs w) b = start_if-IsBy (contains vs a) i t m b
  history_step-IsBy m (hyperedge_removed t i vs w) b = close-IsBy i t m b
  history_step-IsBy m (hyperedge_vertices_updated t i old fresh) b =
      change-IsBy i t (contains old a) (contains fresh a) m b
  history_step-IsBy m (hyperedges_joined t i sources fresh) b =
      start_if-IsBy (contains fresh a) i t _ (close_each-IsBy sources t m b)
  history_step-IsBy m (vertices_contracted t i contracted target old fresh) b =
      change-IsBy i t (contains old a) (contains fresh a) m b
  history_step-IsBy m _ b = b

  history_loop-IsForward :
      (t : Timestamp) (m : Membership) (es : List (TemporalEvent V HE))
      → IsBy t m
      → All (λ e. t ≤ timestamp e) es
      → IsChronological es
      → All (λ kv. IsForward kv.1) (history_loop a m es).history
  unfolding history_loop
  history_loop-IsForward t m [] b late order = b.closed
  history_loop-IsForward t m (e ∷ es) b late order =
      history_loop-IsForward (timestamp e) (history_step a m e) es
        (history_step-IsBy m e (later-IsBy t (timestamp e) m late.0 b)) order.0 order.1

  -- In a log in time order, no membership of an agent's history ends before it starts.
  pub agent_coalition_history-IsForward :
      (es : List (TemporalEvent V HE))
      → IsChronological es
      → All (λ kv. IsForward kv.1) (agent_coalition_history a es)
  unfolding agent_coalition_history
  agent_coalition_history-IsForward es order =
      All-append _ (history_loop a nothing_yet es).history _
        (history_loop-IsForward 0 nothing_yet es (record { closed = tt; opened = λ h s p. cc })
          (All-of _ (λ e. omega arith) es) order)
        (open-IsForward (history_loop a nothing_yet es).membership_start)

  history_loop-append :
      (m : Membership) (es : List (TemporalEvent V HE)) (e : TemporalEvent V HE)
      → history_loop a m (es ++ e ∷ []) ≡ history_step a (history_loop a m es) e
  unfolding history_loop
  history_loop-append m [] e = refl
  history_loop-append m (x ∷ es) e = history_loop-append (history_step a m x) es e

  step_restarts :
      (m : Membership) (t : Timestamp) (i : HyperedgeIndex) (sources : List HyperedgeIndex)
      (e : TemporalEvent V HE) (fresh : List VertexIndex)
      → e ≡ hyperedges_joined t i sources fresh
      → contains sources i ≡ false
      → contains fresh a ≡ true
      → (HashMap.get i (history_step a m e).membership_start ≡ some t)
        × (closed_in i (history_step a m e) ≡ closed_in i m)
  unfolding history_step start
  step_restarts m t i sources e fresh same other stays =
      rw (same, stays)
        (
          get-update i i (λ _. t) (close_each sources t m).membership_start ∙ rw ==_refl,
          closed_in-close_each i sources t m other,
        )

  -- A merge whose target is not among its sources, into a coalition that the agent is a member
  -- of after it, makes the open membership start at the merge, whenever it began before, and
  -- adds no closed interval for the coalition.
  pub merge_restarts_membership :
      (es : List (TemporalEvent V HE)) (t : Timestamp) (i : HyperedgeIndex)
      (sources : List HyperedgeIndex) (fresh : List VertexIndex)
      → contains sources i ≡ false
      → contains fresh a ≡ true
      → (HashMap.get i
            (history_loop a nothing_yet
              (es ++ hyperedges_joined t i sources fresh ∷ [])).membership_start
          ≡ some t)
        × (closed_in i (history_loop a nothing_yet (es ++ hyperedges_joined t i sources fresh ∷ []))
            ≡ closed_in i (history_loop a nothing_yet es))
  merge_restarts_membership es t i sources fresh other stays = rw history_loop-append (
      step_restarts (history_loop a nothing_yet es) t i sources
        (hyperedges_joined t i sources fresh) fresh refl other stays)
