-- ===== src/Tests/Wires.antt =====
-- The wire forms, the frames and the replay on small inputs.
use koalisi.Common.{ℕ, ◌≡◌, refl, true, none, List, [], ◌∷◌, drop, arith}
use koalisi.Topology.Errors.{done}
use koalisi.Topology.Events.{TemporalEvent, timestamp}
use koalisi.Topology.EventLog.{append_all, new}
use koalisi.Remote.Buffer.{DecisionRecord, leave}
use koalisi.Persistence.Envelope.{topology, Bytes}
use koalisi.Persistence.Chain.{encode_frame, decode_frame, hash_frame}
use koalisi.Persistence.Chain.Frames.{decode_frame-encode_frame}
use koalisi.Persistence.Framing.{framed_all}
use koalisi.Persistence.Wire.{from_event, try_into_event}
use koalisi.Persistence.Wire.RoundTrip.{try_into_event-from_event}
use koalisi.Persistence.Forwarding.{topology_record, forward_each}
use koalisi.Persistence.Replay.{replay_into_event_log}
use koalisi.Persistence.Replay.Parity.{replay_into_event_log-forward_each}
use koalisi.Persistence.Store.{Stream}
use koalisi.Persistence.Store.Contents.{stream_of, Holds, laid_out}
use koalisi.Tests.Formats.{
  toy, toy-IsReadable, letter, identity, identity-IsFaithful, additions, additions-IsPayload,
}

try_into_event-from_event_example :
    try_into_event 100 identity identity
      (from_event identity identity (TemporalEvent.hyperedge_added 3 7 (1 ∷ 2 ∷ []) 9))
    ≡ done (TemporalEvent.hyperedge_added 3 7 (1 ∷ 2 ∷ []) 9)
try_into_event-from_event_example =
    try_into_event-from_event 100 identity identity identity-IsFaithful identity-IsFaithful
      (TemporalEvent.hyperedge_added 3 7 (1 ∷ 2 ∷ []) 9)
      (omega arith, (omega arith, (omega arith, tt)))

abbrev left : DecisionRecord ℕ
left = record { coalition = "red"; agent_id = 4; kind = leave; act = true; score = 12 }

decode_frame-encode_frame_example :
    decode_frame toy (1 ∷ 0 ∷ 5 ∷ 1 ∷ 0 ∷ 5 ∷ []) topology 0
    ≡ done (record {
      seq = 0;
      prev_hash = none;
      hash = hash_frame toy (1 ∷ 0 ∷ 5 ∷ 1 ∷ 0 ∷ 5 ∷ []);
      contents = letter 5;
    })
unfolding encode_frame
decode_frame-encode_frame_example =
    decode_frame-encode_frame toy toy-IsReadable topology (letter 5) 0 none
      (1 ∷ 0 ∷ 5 ∷ 1 ∷ 0 ∷ 5 ∷ []) refl

abbrev two_vertices : List (TemporalEvent ℕ ℕ)
two_vertices = TemporalEvent.vertex_added 1 0 9 ∷ TemporalEvent.vertex_added 2 1 8 ∷ []

abbrev vertex_frames : List Bytes
vertex_frames = (1 ∷ 0 ∷ 1 ∷ 1 ∷ 0 ∷ 1 ∷ 0 ∷ 9 ∷ []) ∷ (1 ∷ 1 ∷ 2 ∷ 1 ∷ 14 ∷ 2 ∷ 1 ∷ 8 ∷ []) ∷ []

abbrev vertex_stream : Stream
vertex_stream = stream_of toy [] (framed_all vertex_frames) vertex_frames

vertex_stream-Holds :
    Holds toy vertex_stream (forward_each identity identity additions two_vertices)
unfolding encode_frame forward_each topology_record from_event timestamp
vertex_stream-Holds = laid_out [] vertex_frames tt refl (refl, omega arith, (refl, omega arith, tt))

replay_into_event_log-forward_each_example :
    replay_into_event_log 100 identity identity additions toy 1 vertex_stream
    ≡ done (append_all (drop 1 two_vertices) new)
unfolding topology_record from_event
replay_into_event_log-forward_each_example =
    replay_into_event_log-forward_each 100 identity identity additions toy toy-IsReadable
      identity-IsFaithful identity-IsFaithful additions-IsPayload vertex_stream two_vertices 1
      vertex_stream-Holds (omega arith, (omega arith, tt)) ((_, refl), ((_, refl), tt))
