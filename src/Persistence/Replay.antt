-- ===== src/Persistence/Replay.antt =====
-- src/persistence/replay.rs: the topology stream read back into an event log.
pub mod Batches
pub mod Parity
use koalisi.Common.{ℕ, zero, suc, ◌+◌, Option, none, some, List, [], ◌∷◌, last?, ltb, if◌then◌else◌}
use koalisi.Topology.Events.{TemporalEvent}
use koalisi.Topology.EventLog.{EventLog, new, append}
use koalisi.Topology.Errors.{Attempt, done, failed}
use koalisi.Persistence.Envelope.{topology, SequenceNo, Bytes, Payload, StoredRecord}
use koalisi.Persistence.Errors.{
  PersistenceError, decode, cbor, conversion, topology_record_sealed, schema_version_unsupported,
  map_err, ◌>>=◌,
}
use koalisi.Persistence.Chain.{Format}
use koalisi.Persistence.Wire.{
  Projection, WireTopologyEvent, try_into_event, wire_topology_schema_version,
}
use koalisi.Persistence.Forwarding.{PayloadFormat}
use koalisi.Persistence.Store.{Stream, read_from}

abbrev pub replay_batch : ℕ
replay_batch = 1024

module _ {V HE VW HW : Type 0} (usize_max : ℕ) (vertex : Projection V VW)
    (hyperedge : Projection HE HW) (payload : PayloadFormat (WireTopologyEvent VW HW)) where
  -- the event of a payload
  unfoldable pub replay_payload :
      SequenceNo → Payload → Attempt PersistenceError (TemporalEvent V HE)
  replay_payload seq (Payload.sealed key nonce text) =
      failed (decode topology seq topology_record_sealed)
  replay_payload seq (Payload.plain bytes) = do
    wire ← map_err (λ m. decode topology seq (cbor m)) (payload.from_reader bytes)
    map_err (λ e. decode topology seq (conversion e))
        (try_into_event usize_max vertex hyperedge wire)

  unfoldable pub replay_one : StoredRecord → Attempt PersistenceError (TemporalEvent V HE)
  replay_one stored =
      if ltb wire_topology_schema_version stored.contents.schema_version
      then failed
          (schema_version_unsupported stored.contents.schema_version wire_topology_schema_version)
      else replay_payload stored.seq stored.contents.payload

  -- the loop over a batch
  unfoldable pub replay_each :
      List StoredRecord → EventLog V HE → Attempt PersistenceError (EventLog V HE)
  replay_each [] log = done log
  replay_each (x ∷ xs) log = do e ← replay_one x; replay_each xs (append e log)

  -- The loop over the batches, on fuel: every batch but the last one has a record, so that one turn
  -- more than there are records is enough.
  unfoldable pub replay_batches :
      Format → ℕ → SequenceNo → Stream → EventLog V HE → Attempt PersistenceError (EventLog V HE)
  replay_batches format zero cursor s log = done log
  replay_batches format (suc fuel) cursor s log = do
    batch ← read_from format topology cursor replay_batch s
    elim (last? batch) [
      | none ↦ done log
      | some last ↦ (do
        log' ← replay_each batch log
        replay_batches format fuel (last.seq + 1) s log')
    ]

  unfoldable pub replay_into_event_log :
      Format → SequenceNo → Stream → Attempt PersistenceError (EventLog V HE)
  replay_into_event_log format from s = replay_batches format (suc s.state.next_seq) from s new
