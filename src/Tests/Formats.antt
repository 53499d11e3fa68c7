-- ===== src/Tests/Formats.antt =====
-- A frame format for the runs: it takes frames with no parents, an open payload and a link of one
-- byte, and writes their numbers one after the other. Its digest adds the bytes up.
use koalisi.Common.{ℕ, zero, suc, ◌+◌, ◌%◌, ◌≡◌, refl, Option, none, some, List, [], ◌∷◌, arith}
use koalisi.Topology.Errors.{Attempt, done, failed}
use Prim.Native.String.{String}
use koalisi.Persistence.Envelope.{Bytes, Payload, Record}
use koalisi.Persistence.Chain.{Format, IsReadable, FrameV1, FramePayloadV1, plain, sealed}
use koalisi.Persistence.Wire.{Projection, WireTopologyEvent}
use koalisi.Persistence.Wire.RoundTrip.{IsFaithful}
use koalisi.Persistence.Forwarding.{PayloadFormat}
use koalisi.Persistence.Replay.Parity.{IsPayload}

abbrev sum : Bytes → ℕ
sum [] = 0
sum (b ∷ bs) = b + sum bs

abbrev write_parts :
    ℕ → ℕ → ℕ → ℕ → List (ℕ × ℕ) → Option Bytes → FramePayloadV1 → Attempt String Bytes
write_parts v q t c [] none (plain bytes) = done (v ∷ q ∷ t ∷ c ∷ 0 ∷ bytes)
write_parts v q t c [] (some (d ∷ [])) (plain bytes) = done (v ∷ q ∷ t ∷ c ∷ suc d ∷ bytes)
write_parts v q t c _ _ _ = failed "not supported"

abbrev write_frame : FrameV1 → Attempt String Bytes
write_frame f =
    write_parts f.frame_version f.seq f.timestamp f.schema_version f.parents f.prev_hash f.payload

abbrev read_link : ℕ → Option Bytes
read_link zero = none
read_link (suc d) = some (d ∷ [])

abbrev read_frame : Bytes → Attempt String FrameV1
read_frame (v ∷ q ∷ t ∷ c ∷ link ∷ bytes) = done (record {
  frame_version = v;
  seq = q;
  timestamp = t;
  schema_version = c;
  parents = [];
  prev_hash = read_link link;
  payload = plain bytes;
})
read_frame _ = failed "not supported"

abbrev pub toy : Format
toy = record {
  into_writer = write_frame;
  from_reader = read_frame;
  digest = λ bs. sum bs % 256 ∷ [];
}

read_parts :
    (v q t c : ℕ) (ps : List (ℕ × ℕ)) (prev : Option Bytes) (payload : FramePayloadV1)
    (bytes : Bytes)
    → write_parts v q t c ps prev payload ≡ done bytes
    → read_frame bytes
      ≡ done (record {
        frame_version = v;
        seq = q;
        timestamp = t;
        schema_version = c;
        parents = ps;
        prev_hash = prev;
        payload = payload;
      })
read_parts v q t c [] none (plain text) bytes h = ground arith
read_parts v q t c [] (some (d ∷ [])) (plain text) bytes h = ground arith
read_parts v q t c [] (some []) (plain text) bytes h = absurd (ground arith)
read_parts v q t c [] (some (d ∷ e ∷ ds)) (plain text) bytes h = absurd (ground arith)
read_parts v q t c [] prev (sealed key nonce text) bytes h = absurd (ground arith)
read_parts v q t c (p ∷ ps) prev payload bytes h = absurd (ground arith)

pub toy-IsReadable : IsReadable toy
toy-IsReadable = record {
  read_back = λ f bytes h.
      read_parts f.frame_version f.seq f.timestamp f.schema_version f.parents f.prev_hash f.payload
        bytes h;
}

-- a record of one byte
abbrev pub letter : ℕ → Record
letter b = record {
  timestamp = b;
  schema_version = 1;
  parents = [];
  payload = Payload.plain (b ∷ []);
}

-- weights that are their own wire form
abbrev pub identity : Projection ℕ ℕ
identity = record { into = λ n. n; try_into = done }

pub identity-IsFaithful : IsFaithful identity
identity-IsFaithful = record { back = λ n. refl }

-- a payload format for the events that add a vertex
abbrev write_event : WireTopologyEvent ℕ ℕ → Attempt String Bytes
write_event (WireTopologyEvent.vertex_added t i w) = done (t ∷ i ∷ w ∷ [])
write_event _ = failed "not supported"

abbrev read_event : Bytes → Attempt String (WireTopologyEvent ℕ ℕ)
read_event (t ∷ i ∷ w ∷ []) = done (WireTopologyEvent.vertex_added t i w)
read_event _ = failed "not supported"

abbrev pub additions : PayloadFormat (WireTopologyEvent ℕ ℕ)
additions = record { into_writer = write_event; from_reader = read_event }

event_back :
    (w : WireTopologyEvent ℕ ℕ) (bytes : Bytes)
    → write_event w ≡ done bytes
    → read_event bytes ≡ done w
event_back (WireTopologyEvent.vertex_added t i w) bytes h = ground arith
event_back _ bytes h = absurd (ground arith)

pub additions-IsPayload : IsPayload additions
additions-IsPayload = record { payload_back = event_back }
