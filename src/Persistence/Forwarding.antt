-- ===== src/Persistence/Forwarding.antt =====
-- What reaches the store: the topology forwarder (src/persistence/tee.rs), the decision forwarder
-- (src/persistence/decision.rs) and the writer task (src/persistence/writer.rs). A channel hands
-- over its items in order, so each task is a function of the list of what it receives; the CBOR
-- encoder of a payload is a parameter: `PayloadFormat`.
pub mod Delivery
use Prim.Native.String.{String}
use koalisi.Common.{ℕ, zero, suc, Option, none, some, List, [], ◌∷◌}
use koalisi.Topology.Timestamp.{Timestamp}
use koalisi.Topology.Events.{TemporalEvent, timestamp}
use koalisi.Topology.Errors.{Attempt, done, failed}
use koalisi.Remote.Buffer.{DecisionRecord}
use koalisi.Persistence.Envelope.{StreamId, topology, Bytes, Payload, EventRef, Record}
use koalisi.Persistence.Errors.{PersistenceError, encode, map_err, ◌>>=◌}
use koalisi.Persistence.Chain.{Format}
use koalisi.Persistence.Wire.{
  Projection, WireTopologyEvent, from_event, WireDecision, from_record,
  wire_topology_schema_version, wire_decision_schema_version,
}
use koalisi.Persistence.Store.{Stream, Fault, append}

-- `into_writer` and `from_reader` of a payload
pub record PayloadFormat (W : Type 0) : Type 0 where
  pub into_writer : W → Attempt String Bytes
  pub from_reader : Bytes → Attempt String W

module _ {V HE VW HW : Type 0} (vertex : Projection V VW) (hyperedge : Projection HE HW)
    (payload : PayloadFormat (WireTopologyEvent VW HW)) where
  -- The record that `forward_one` sends; an event that cannot be encoded is dropped.
  unfoldable pub topology_record : TemporalEvent V HE → Attempt String Record
  topology_record e = do
    bytes ← payload.into_writer (from_event vertex hyperedge e)
    done (record {
      timestamp = timestamp e;
      schema_version = wire_topology_schema_version;
      parents = [];
      payload = Payload.plain bytes;
    })

  -- the loop of the topology forwarder
  unfoldable pub forward_each : List (TemporalEvent V HE) → List Record
  forward_each [] = []
  forward_each (e ∷ es) = elim (topology_record e) [
    | done r ↦ r ∷ forward_each es
    | failed _ ↦ forward_each es
  ]

-- The field `record` of the source is named `decided` here.
pub record DecisionTrace (Score : Type 0) : Type 0 where
  pub decided : DecisionRecord Score
  pub event_log_len : ℕ
  pub timestamp : ℕ

-- `checked_sub(1)`: no parent when the log was empty
unfoldable pub trace_parents : ℕ → List EventRef
trace_parents zero = []
trace_parents (suc seq) = record { stream = topology; seq = seq } ∷ []

unfoldable pub decision_store_record :
    {Score : Type 0}
    → PayloadFormat (WireDecision Score)
    → DecisionTrace Score
    → Attempt PersistenceError Record
decision_store_record payload trace = do
  bytes ← map_err encode (payload.into_writer (from_record trace.decided))
  done (record {
    timestamp = trace.timestamp;
    schema_version = wire_decision_schema_version;
    parents = trace_parents trace.event_log_len;
    payload = Payload.plain bytes;
  })

module _ (format : Format) (stream : StreamId) (segment_max_records : ℕ) where
  -- The loop of the writer over the records of one stream, each with what fails then: one append
  -- for each, and an error is logged only.
  unfoldable pub write_each : List (Fault × Record) → Stream → Stream
  write_each [] s = s
  write_each ((fault, r) ∷ rest) s =
      write_each rest (append format stream segment_max_records fault r s).0
