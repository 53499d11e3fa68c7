-- ===== src/Remote/Buffer.antt =====
-- `EventBuffer` of src/subsystems/remote.rs, with the decision records of
-- src/subsystems/coalition_actor.rs that it stamps, and the client's check of an answer. A score is a
-- float in the source; here its type is a parameter. The sequence counter wraps at 2^64, as it does
-- in a release build.
pub mod Stamps
pub mod Window
use Prim.Native.String.{String}
use koalisi.Common.{
  ℕ, ◌+◌, ◌-◌, ◌%◌, Bool, Option, none, some, List, [], ◌∷◌, ◌++◌, length, filter, ltb, leb, ◌==◌,
  if◌then◌else◌,
}
use koalisi.Topology.Timestamp.{u64_mod}

pub data DecisionKind : Type 0 where
  join leave : DecisionKind

-- `as_str`
unfoldable pub as_str : DecisionKind → String
as_str join = "join"
as_str leave = "leave"

pub record DecisionRecord (Score : Type 0) : Type 0 where
  pub coalition : String
  pub agent_id : ℕ
  pub kind : DecisionKind
  pub act : Bool
  pub score : Score

abbrev pub remote_wire_schema_version : ℕ
remote_wire_schema_version = 1

pub record RemoteCoalitionEventV1 (Score : Type 0) : Type 0 where
  pub schema_version : ℕ
  pub seq : ℕ
  pub coalition : String
  pub agent_id : ℕ
  pub kind : String
  pub act : Bool
  pub score : Score

pub data EventRequest : Type 0 where
  poll_since : ℕ → EventRequest
  head : EventRequest

-- the newest sequence number, and the events or their number
pub data EventResponse (Score : Type 0) : Type 0 where
  events : ℕ → List (RemoteCoalitionEventV1 Score) → EventResponse Score
  head : ℕ → ℕ → EventResponse Score

-- What the client makes of an answer to its poll.
pub data Polled (Score : Type 0) : Type 0 where
  ok : ℕ → List (RemoteCoalitionEventV1 Score) → Polled Score
  newer_schema : RemoteCoalitionEventV1 Score → Polled Score
  unexpected : EventResponse Score → Polled Score

pub record EventBuffer (Score : Type 0) : Type 0 where
  pub events : List (RemoteCoalitionEventV1 Score)
  pub cap : ℕ
  pub next_seq : ℕ

abbrev pub pop_front : {A : Type 0} → List A → List A
pop_front [] = []
pop_front (x ∷ xs) = xs

module _ {Score : Type 0} where
  unfoldable pub from_record : ℕ → DecisionRecord Score → RemoteCoalitionEventV1 Score
  from_record seq r = record {
    schema_version = remote_wire_schema_version;
    seq = seq;
    coalition = r.coalition;
    agent_id = r.agent_id;
    kind = as_str r.kind;
    act = r.act;
    score = r.score;
  }

  -- `new`: a capacity of zero is taken as one.
  unfoldable pub with_capacity : ℕ → EventBuffer Score
  with_capacity cap = record { events = []; cap = if leb cap 1 then 1 else cap; next_seq = 1 }

  unfoldable pub push_record : DecisionRecord Score → EventBuffer Score → EventBuffer Score × ℕ
  push_record r b =
      let seq = b.next_seq in
      let kept = if length b.events == b.cap then pop_front b.events else b.events in
      (record b { events = kept ++ from_record seq r ∷ []; next_seq = (seq + 1) % u64_mod }, seq)

  -- the gateway's loop over the decisions it receives
  unfoldable pub push_each : List (DecisionRecord Score) → EventBuffer Score → EventBuffer Score
  push_each [] b = b
  push_each (r ∷ rs) b = push_each rs (push_record r b).0

  -- `saturating_sub`
  unfoldable pub head_seq : EventBuffer Score → ℕ
  head_seq b = b.next_seq - 1

  unfoldable pub respond : EventRequest → EventBuffer Score → EventResponse Score
  respond (poll_since last_seq) b = events (head_seq b) (filter (λ e. ltb last_seq e.seq) b.events)
  respond head b = head (head_seq b) (length b.events)

  -- The first event of a newer schema, if there is one.
  unfoldable pub refuse_newer_schema :
      List (RemoteCoalitionEventV1 Score) → Option (RemoteCoalitionEventV1 Score)
  refuse_newer_schema [] = none
  refuse_newer_schema (e ∷ es) =
      if ltb remote_wire_schema_version e.schema_version then some e else refuse_newer_schema es

  -- `RemoteCoalitionClient::poll_since`, after the answer has come
  unfoldable pub accept : EventResponse Score → Polled Score
  accept (events h es) = elim (refuse_newer_schema es) [ none ↦ ok h es | some e ↦ newer_schema e ]
  accept (head h n) = unexpected (head h n)
