-- ===== src/Persistence/Replay/Parity.antt =====
-- A replayed log is the live one (src/persistence/replay.rs, src/persistence/tee.rs).
use koalisi.Common.{
  ℕ, zero, suc, ◌≡◌, refl, ap, sym, ◌∙◌, none, List, [], ◌∷◌, arith, All, All-drop, map, map-drop,
  drop,
}
use koalisi.Topology.Events.{TemporalEvent, timestamp}
use koalisi.Topology.EventLog.{EventLog, new, append, append_all}
use koalisi.Topology.Errors.{done, failed}
use koalisi.Persistence.Envelope.{topology, Bytes, Payload, Record, StoredRecord}
use koalisi.Persistence.Errors.{collect, >>=-eq-done}
use koalisi.Persistence.Chain.{Format, IsReadable}
use koalisi.Persistence.Wire.{
  Projection, WireTopologyEvent, from_event, wire_topology_schema_version,
}
use koalisi.Persistence.Wire.RoundTrip.{IsSized, IsFaithful, try_into_event-from_event}
use koalisi.Persistence.Forwarding.{PayloadFormat, topology_record, forward_each}
use koalisi.Persistence.Store.{Stream}
use koalisi.Persistence.Store.Contents.{stored_all, Holds, length-stored_all, contents-stored_all}
use koalisi.Persistence.Store.Reading.{reads-Holds}
use koalisi.Persistence.Replay.Batches.{stored_all-IsNumbered, replay_batches-all}
use koalisi.Persistence.Replay.{replay_one, replay_payload, replay_each, replay_into_event_log}

-- A payload that was written is read back.
pub record IsPayload {W : Type 0} (payload : PayloadFormat W) : Type 0 where
  pub payload_back :
      (w : W) (bytes : Bytes)
      → payload.into_writer w ≡ done bytes
      → payload.from_reader bytes ≡ done w

module _ {V HE VW HW : Type 0} (usize_max : ℕ) (vertex : Projection V VW)
    (hyperedge : Projection HE HW) (payload : PayloadFormat (WireTopologyEvent VW HW)) where
  -- the record of an event whose payload is known
  abbrev topology_contents : TemporalEvent V HE → Bytes → Record
  topology_contents e bytes = record {
    timestamp = timestamp e;
    schema_version = wire_topology_schema_version;
    parents = [];
    payload = Payload.plain bytes;
  }

  -- An event that is framed is replayed.
  replay_one-topology_record :
      IsFaithful vertex
      → IsFaithful hyperedge
      → IsPayload payload
      → (e : TemporalEvent V HE) (r : Record) (x : StoredRecord) → IsSized usize_max e
      → topology_record vertex hyperedge payload e ≡ done r
      → x.contents ≡ r
      → replay_one usize_max vertex hyperedge payload x ≡ done e
  unfolding replay_one replay_payload topology_record
  replay_one-topology_record fv fh readable e r x sized sent is =
      let written = >>=-eq-done (payload.into_writer (from_event vertex hyperedge e)) _ sent in
      let same : topology_contents e written.0 ≡ r = cc in
      ap (λ c. replay_one usize_max vertex hyperedge payload (record x { contents = c }))
        (is ∙ sym same)
      ∙ rw
          (
            readable.payload_back _ written.0 written.1,
            try_into_event-from_event usize_max vertex hyperedge fv fh e sized,
          )
          refl

  -- Replaying the records of events appends the events.
  replay_each-events :
      IsFaithful vertex
      → IsFaithful hyperedge
      → IsPayload payload
      → (xs : List StoredRecord) (es : List (TemporalEvent V HE)) (log : EventLog V HE)
      → All (IsSized usize_max) es
      → collect (topology_record vertex hyperedge payload) es ≡ done (map (λ x. x.contents) xs)
      → replay_each usize_max vertex hyperedge payload xs log ≡ done (append_all es log)
  unfolding replay_each append_all
  replay_each-events fv fh readable [] [] log sized sent = refl
  replay_each-events fv fh readable (x ∷ xs) [] log sized sent = absurd (ground arith)
  replay_each-events fv fh readable [] (e ∷ es) log sized sent =
      let first = >>=-eq-done (topology_record vertex hyperedge payload e) _ sent in
      let rest =
        >>=-eq-done (collect (topology_record vertex hyperedge payload) es)
          (λ ys. done (first.0 ∷ ys)) first.2 in
      let is : first.0 ∷ rest.0 ≡ [] = cc in absurd (ground arith)
  replay_each-events fv fh readable (x ∷ xs) (e ∷ es) log sized sent =
      let first = >>=-eq-done (topology_record vertex hyperedge payload e) _ sent in
      let rest =
        >>=-eq-done (collect (topology_record vertex hyperedge payload) es)
          (λ ys. done (first.0 ∷ ys)) first.2 in
      let is : first.0 ∷ rest.0 ≡ x.contents ∷ map (λ y. y.contents) xs = cc in
      let head : x.contents ≡ first.0 = cc in
      let tail : rest.0 ≡ map (λ y. y.contents) xs = cc in
      rw (replay_one-topology_record fv fh readable e first.0 x sized.0 first.1 head) (
        replay_each-events fv fh readable xs es (append e log) sized.1
          (rest.1 ∙ ap (λ t. done t) tail))

  collect-drop :
      (k : ℕ) (es : List (TemporalEvent V HE)) (rs : List Record)
      → collect (topology_record vertex hyperedge payload) es ≡ done rs
      → collect (topology_record vertex hyperedge payload) (drop k es) ≡ done (drop k rs)
  collect-drop zero es rs sent = sent
  collect-drop (suc k) [] rs sent =
      let nothing : [] ≡ rs = cc in ap (λ t. done (drop (suc k) t)) nothing
  collect-drop (suc k) (e ∷ es) rs sent =
      let first = >>=-eq-done (topology_record vertex hyperedge payload e) _ sent in
      let rest =
        >>=-eq-done (collect (topology_record vertex hyperedge payload) es)
          (λ ys. done (first.0 ∷ ys)) first.2 in
      let is : first.0 ∷ rest.0 ≡ rs = cc in
      collect-drop k es rest.0 rest.1 ∙ ap (λ t. done (drop (suc k) t)) is

  -- An event that the encoder takes.
  abbrev pub IsEncodable : TemporalEvent V HE → Type 0
  IsEncodable e = (r : Record) × (topology_record vertex hyperedge payload e ≡ done r)

  collect-forward_each :
      (es : List (TemporalEvent V HE))
      → All IsEncodable es
      → collect (topology_record vertex hyperedge payload) es
        ≡ done (forward_each vertex hyperedge payload es)
  unfolding forward_each
  collect-forward_each [] h = refl
  collect-forward_each (e ∷ es) h =
      let sent : forward_each vertex hyperedge payload (e ∷ es)
          ≡ h.0.0 ∷ forward_each vertex hyperedge payload es =
        ap
          (λ o. elim o as (λ _. List Record) [
            | done r ↦ r ∷ forward_each vertex hyperedge payload es
            | failed _ ↦ forward_each vertex hyperedge payload es
          ])
          h.0.1 in
      rw (h.0.1, collect-forward_each es h.1) (ap (λ t. done t) (sym sent))

  -- The topology stream holds the records that the forwarder makes of a list of events, each of
  -- which the encoder takes and whose indices are `usize`s; weights, payloads and frames are read
  -- back as they were written. Then a replay from any number on gives the log that those events
  -- from that place on make, appended to an empty log one after the other.
  pub replay_into_event_log-forward_each :
      (format : Format)
      → IsReadable format
      → IsFaithful vertex
      → IsFaithful hyperedge
      → IsPayload payload
      → (s : Stream) (es : List (TemporalEvent V HE)) (first : ℕ)
      → Holds format s (forward_each vertex hyperedge payload es)
      → All (IsSized usize_max) es
      → All IsEncodable es
      → replay_into_event_log usize_max vertex hyperedge payload format first s
        ≡ done (append_all (drop first es) new)
  unfolding replay_into_event_log
  replay_into_event_log-forward_each format frames fv fh readable s es first holds sized encodable =
      let rs = forward_each vertex hyperedge payload es in
      let reads = reads-Holds format frames topology s rs holds in
      let xs = stored_all format 0 none rs reads.0 in
      let size = length-stored_all format 0 none rs reads.0 reads.1 in
      replay_batches-all usize_max vertex hyperedge payload format s xs
        (stored_all-IsNumbered format 0 none rs reads.0) reads.3 (suc s.state.next_seq) first new
        (omega (arith, reads.2))
      ∙ replay_each-events fv fh readable (drop first xs) (drop first es) new
          (All-drop (IsSized usize_max) first es sized)
          (collect-drop first es rs (collect-forward_each es encodable)
            ∙ ap (λ t. done (drop first t))
                (sym (contents-stored_all format 0 none rs reads.0 reads.1))
            ∙ ap (λ t. done t) (sym (map-drop (λ x. x.contents) first xs)))
