-- ===== src/Persistence/Chain.antt =====
-- src/persistence/chain.rs: a record as a frame, its hash, and the link to the frame before it. The
-- CBOR encoder (ciborium) and SHA-256 (sha2) are parameters: `Format`.
pub mod Frames
use Prim.Native.String.{String}
use koalisi.Common.{
  ℕ, ◌-◌, ◌≡◌, Bool, true, false, ◌&&◌, Option, none, some, List, [], ◌∷◌, map, ◌==◌, if◌then◌else◌,
}
use koalisi.Topology.Errors.{Attempt, done, failed}
use koalisi.Persistence.Envelope.{
  StreamId, to_u8, from_u8, SequenceNo, Bytes, KeyId, RecordHash, sha256, Payload, EventRef, Record,
  StoredRecord,
}
use koalisi.Persistence.Errors.{
  PersistenceError, encode, decode, cbor, frame_seq_mismatch, unknown_parent_stream, chain_broken,
  schema_version_unsupported, map_err, collect, ◌>>=◌,
}

abbrev pub frame_version : ℕ
frame_version = 1

pub data FramePayloadV1 : Type 0 where
  plain : Bytes → FramePayloadV1
  sealed : String → Bytes → Bytes → FramePayloadV1

pub record FrameV1 : Type 0 where
  pub frame_version : ℕ
  pub seq : ℕ
  pub timestamp : ℕ
  pub schema_version : ℕ
  pub parents : List (ℕ × ℕ)
  pub prev_hash : Option Bytes
  pub payload : FramePayloadV1

-- `into_writer`, `from_reader`, and the digest of bytes
pub record Format : Type 0 where
  pub into_writer : FrameV1 → Attempt String Bytes
  pub from_reader : Bytes → Attempt String FrameV1
  pub digest : Bytes → Bytes

-- What the store relies on: a frame that was written is read back.
pub record IsReadable (format : Format) : Type 0 where
  pub read_back :
      (f : FrameV1) (bytes : Bytes)
      → format.into_writer f ≡ done bytes
      → format.from_reader bytes ≡ done f

abbrev pub frame_payload : Payload → FramePayloadV1
frame_payload (Payload.plain bytes) = plain bytes
frame_payload (Payload.sealed key nonce text) = sealed key nonce text

abbrev pub record_payload : FramePayloadV1 → Payload
record_payload (plain bytes) = Payload.plain bytes
record_payload (sealed key nonce text) = Payload.sealed key nonce text

-- `Option::map`
abbrev pub map_some : {A B : Type 0} → (A → B) → Option A → Option B
map_some f none = none
map_some f (some a) = some (f a)

abbrev pub of_digest : Bytes → RecordHash
of_digest bytes = record { algorithm = sha256; digest = bytes }

abbrev pub frame_of : Record → SequenceNo → Option RecordHash → FrameV1
frame_of r seq prev = record {
  frame_version = frame_version;
  seq = seq;
  timestamp = r.timestamp;
  schema_version = r.schema_version;
  parents = map (λ p. (to_u8 p.stream, p.seq)) r.parents;
  prev_hash = map_some (λ h. h.digest) prev;
  payload = frame_payload r.payload;
}

-- a parent of the frame at `seq` of `stream`
unfoldable pub parent_from : StreamId → SequenceNo → ℕ × ℕ → Attempt PersistenceError EventRef
parent_from stream seq (raw, pseq) = elim (from_u8 raw) [
  | none ↦ failed (decode stream seq (unknown_parent_stream raw))
  | some pstream ↦ done (record { stream = pstream; seq = pseq })
]

-- the derived equality of bytes, and of optional hashes
abbrev pub bytes_eq : Bytes → Bytes → Bool
bytes_eq [] [] = true
bytes_eq (x ∷ xs) (y ∷ ys) = x == y && bytes_eq xs ys
bytes_eq _ _ = false

abbrev pub hash_eq : Option RecordHash → Option RecordHash → Bool
hash_eq none none = true
hash_eq (some a) (some b) = bytes_eq a.digest b.digest
hash_eq _ _ = false

unfoldable pub check_back_link :
    StreamId → StoredRecord → Option RecordHash → Attempt PersistenceError (Unit {0})
check_back_link stream stored predecessor_hash =
    if hash_eq stored.prev_hash predecessor_hash
    then done tt
    else failed (chain_broken stream (stored.seq - 1))

module _ (format : Format) where
  abbrev pub hash_frame : Bytes → RecordHash
  hash_frame bytes = of_digest (format.digest bytes)

  unfoldable pub encode_frame :
      Record → SequenceNo → Option RecordHash → Attempt PersistenceError Bytes
  encode_frame r seq prev = map_err encode (format.into_writer (frame_of r seq prev))

  -- what a frame that could be read says
  unfoldable pub stored_from :
      Bytes → StreamId → SequenceNo → FrameV1 → Attempt PersistenceError StoredRecord
  stored_from bytes stream seq frame =
      if frame.frame_version == frame_version
      then (if frame.seq == seq
          then (do
            parents ← collect (parent_from stream seq) frame.parents
            done (record {
              seq = seq;
              prev_hash = map_some of_digest frame.prev_hash;
              hash = hash_frame bytes;
              contents = record {
                timestamp = frame.timestamp;
                schema_version = frame.schema_version;
                parents = parents;
                payload = record_payload frame.payload;
              };
            }))
          else failed (decode stream seq (frame_seq_mismatch frame.seq seq)))
      else failed (schema_version_unsupported frame.frame_version frame_version)

  unfoldable pub decode_frame :
      Bytes → StreamId → SequenceNo → Attempt PersistenceError StoredRecord
  decode_frame bytes stream seq = do
    frame ← map_err (λ m. decode stream seq (cbor m)) (format.from_reader bytes)
    stored_from bytes stream seq frame
