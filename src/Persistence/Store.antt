-- ===== src/Persistence/Store.antt =====
-- src/persistence/store.rs: one stream of a `FileEventStore`, its directory and the state in memory.
-- The directory holds the segment files that the store itself makes, `{first_seq:020}.seg`, by
-- their `first_seq`, which is also the `path` here. What the operating system refuses is a
-- parameter of the operations that write: `Fault`. The lock makes each operation one step.
pub mod Scan
pub mod Layout
pub mod Contents
pub mod Growth
pub mod Reading
pub mod Verifying
pub mod Rotation
pub mod Writing
pub mod Appending
pub mod Reopening
pub mod Recovery
pub mod Links
pub mod Tampering
use Prim.Native.String.{String}
use koalisi.Common.{
  ℕ, zero, suc, ◌+◌, ◌-◌, Bool, true, false, ◌&&◌, Option, none, some, List, [], ◌∷◌, ◌++◌, ltb,
  leb, ◌==◌, if◌then◌else◌, length, get_elem?, last?, drop, take,
}
use koalisi.Common.SortedMap.{SortedMap, get, update}
use koalisi.Topology.Errors.{Attempt, done, failed}
use koalisi.Persistence.Envelope.{
  StreamId, SequenceNo, Bytes, RecordHash, Record, StoredRecord, StreamHead,
}
use koalisi.Persistence.Errors.{
  PersistenceError, io, encode, decode, stream_empty, stream_wedged, sequence_not_found,
  frame_length_exceeds_segment, collect, ◌>>=◌,
}
use koalisi.Persistence.Chain.{
  Format, map_some, hash_frame, encode_frame, decode_frame, check_back_link,
}
use koalisi.Persistence.Framing.{from_le_bytes, framed, u32_mod}

pub record SegmentIndex : Type 0 where
  pub first_seq : ℕ
  pub frame_offsets : List ℕ

-- The writer is the path of the file that is open for appending: its buffer is flushed at the end
-- of every append.
pub record StreamState : Type 0 where
  pub segments : List SegmentIndex
  pub next_seq : ℕ
  pub head : Option StreamHead
  pub writer : Option ℕ
  pub active_len : ℕ
  pub wedged : Bool

abbrev pub Files : Type 0
Files = SortedMap Bytes

pub record Stream : Type 0 where
  pub files : Files
  pub state : StreamState

-- What fails in one append: the sync of the closed segment, the opening of the next one, or the
-- write, of which the first bytes then have reached the file.
pub record Fault : Type 0 where
  pub sync : Option String
  pub opening : Option String
  pub writing : Option (ℕ × String)

-- `OpenOptions::create(true).append(true).open`
unfoldable pub open_file : ℕ → Files → Files
open_file path = update path (λ o. elim o [ none ↦ [] | some content ↦ content ])

unfoldable pub append_bytes : ℕ → Bytes → Files → Files
append_bytes path bytes =
    update path (λ o. elim o [ none ↦ bytes | some content ↦ content ++ bytes ])

unfoldable pub write_frame : Fault → Bytes → Stream → Files × Attempt PersistenceError (Unit {0})
write_frame fault frame s = elim s.state.writer [
  | none ↦ (s.files, failed (io "no active segment writer"))
  | some path ↦ elim fault.writing [
    | none ↦ (append_bytes path (framed frame) s.files, done tt)
    | some torn ↦ (append_bytes path (take torn.0 (framed frame)) s.files, failed (io torn.1))
  ]
]

unfoldable pub need_new : ℕ → List SegmentIndex → Bool
need_new segment_max_records segments = elim (last? segments) [
  | none ↦ true
  | some seg ↦ leb segment_max_records (length seg.frame_offsets)
]

unfoldable pub open_segment : Fault → Stream → Stream × Attempt PersistenceError (Unit {0})
open_segment fault s = elim fault.opening [
  | some e ↦ (s, failed (io e))
  | none ↦ (
    record {
      files = open_file s.state.next_seq s.files;
      state = record s.state {
        writer = some s.state.next_seq;
        segments =
            s.state.segments ++ record { first_seq = s.state.next_seq; frame_offsets = [] } ∷ [];
        active_len = 0;
      };
    },
    done tt,
  )
]

unfoldable pub rotate_if_needed : ℕ → Fault → Stream → Stream × Attempt PersistenceError (Unit {0})
rotate_if_needed segment_max_records fault s =
    if need_new segment_max_records s.state.segments
    then elim s.state.writer [
      | none ↦ open_segment fault s
      | some path ↦ elim fault.sync [ some e ↦ (s, failed (io e)) | none ↦ open_segment fault s ]
    ]
    else (s, done tt)

-- `segments.last_mut()` with `frame_offsets.push(offset)`
unfoldable pub push_offset_from : ℕ → SegmentIndex → List SegmentIndex → List SegmentIndex
push_offset_from offset seg [] =
    record seg { frame_offsets = seg.frame_offsets ++ offset ∷ [] } ∷ []
push_offset_from offset seg (next ∷ rest) = seg ∷ push_offset_from offset next rest

unfoldable pub push_offset : ℕ → List SegmentIndex → List SegmentIndex
push_offset offset [] = []
push_offset offset (seg ∷ rest) = push_offset_from offset seg rest

-- The newest segment that holds `seq`.
unfoldable pub segment_containing : List SegmentIndex → ℕ → Option SegmentIndex
segment_containing [] seq = none
segment_containing (seg ∷ segs) seq = elim (segment_containing segs seq) [
  | some newer ↦ some newer
  | none ↦
      if leb seg.first_seq seq && ltb seq (seg.first_seq + length seg.frame_offsets)
      then some seg
      else none
]

-- The bytes of the frame at an offset of a file: `rest` is the file from there on.
unfoldable pub read_exact : StreamId → ℕ → Bytes → Attempt PersistenceError Bytes
read_exact stream seq rest =
    if ltb (length rest) 4
    then failed (io "failed to fill whole buffer")
    else (if ltb (length rest - 4) (from_le_bytes rest)
        then failed (decode stream seq frame_length_exceeds_segment)
        else done (take (from_le_bytes rest) (drop 4 rest)))

-- `seg.frame_offsets[idx]`, which a segment that holds `seq` has
unfoldable pub read_at : Files → StreamId → ℕ → SegmentIndex → Attempt PersistenceError Bytes
read_at files stream seq seg = elim (get_elem? seg.frame_offsets (seq - seg.first_seq)) [
  | none ↦ failed (decode stream seq sequence_not_found)
  | some offset ↦ elim (get seg.first_seq files) [
    | none ↦ failed (io "no such file or directory")
    | some content ↦ read_exact stream seq (drop offset content)
  ]
]

unfoldable pub read_frame_bytes_at :
    Files → List SegmentIndex → StreamId → ℕ → Attempt PersistenceError Bytes
read_frame_bytes_at files segments stream seq = elim (segment_containing segments seq) [
  | none ↦ failed (decode stream seq sequence_not_found)
  | some seg ↦ read_at files stream seq seg
]

-- the sequence numbers of a range: its first, and how many
abbrev pub range_from : ℕ → ℕ → List ℕ
range_from first zero = []
range_from first (suc n) = first ∷ range_from (suc first) n

module _ (format : Format) (stream : StreamId) where
  -- What follows the write: one that failed wedges the stream, and else the index and the head move
  -- on.
  unfoldable pub written :
      Bytes
      → Stream
      → Files × Attempt PersistenceError (Unit {0})
      → Stream × Attempt PersistenceError StreamHead
  written frame s (files, failed e) =
      (record { files = files; state = record s.state { wedged = true } }, failed e)
  written frame s (files, done _) =
      let head : StreamHead = record { seq = s.state.next_seq; hash = hash_frame format frame } in
      (
        record {
          files = files;
          state = record s.state {
            segments = push_offset s.state.active_len s.state.segments;
            active_len = s.state.active_len + (4 + length frame);
            next_seq = s.state.next_seq + 1;
            head = some head;
          };
        },
        done head,
      )

  -- A frame that could not be encoded or is too long is refused.
  unfoldable pub append_frame :
      Fault → Stream → Attempt PersistenceError Bytes → Stream × Attempt PersistenceError StreamHead
  append_frame fault s (failed e) = (s, failed e)
  append_frame fault s (done frame) =
      if ltb (length frame) u32_mod
      then written frame s (write_frame fault frame s)
      else (s, failed (encode "frame exceeds u32 length prefix"))

  unfoldable pub after_rotation :
      Fault
      → Record
      → Stream × Attempt PersistenceError (Unit {0})
      → Stream × Attempt PersistenceError StreamHead
  after_rotation fault r (s, failed e) = (s, failed e)
  after_rotation fault r (s, done _) =
      append_frame fault s
        (encode_frame format r s.state.next_seq (map_some (λ h. h.hash) s.state.head))

  unfoldable pub append : ℕ → Fault → Record → Stream → Stream × Attempt PersistenceError StreamHead
  append segment_max_records fault r s =
      if s.state.wedged
      then (s, failed (stream_wedged stream))
      else after_rotation fault r (rotate_if_needed segment_max_records fault s)

  -- the record at a sequence number
  unfoldable pub read_record : Stream → ℕ → Attempt PersistenceError StoredRecord
  read_record s seq = do
    bytes ← read_frame_bytes_at s.files s.state.segments stream seq
    decode_frame format bytes stream seq

  unfoldable pub read_from : SequenceNo → ℕ → Stream → Attempt PersistenceError (List StoredRecord)
  read_from first zero s = done []
  read_from first (suc span) s =
      let head_seq : ℕ = s.state.next_seq - 1 in
      let end : ℕ = if ltb (first + span) head_seq then first + span else head_seq in
      if s.state.next_seq == 0
      then done []
      else (if ltb head_seq first
          then done []
          else collect (read_record s) (range_from first (suc end - first)))

  -- The loop of `verify`, over the sequence numbers that are left.
  unfoldable pub verify_each :
      Stream → List ℕ → Option RecordHash → Attempt PersistenceError (Unit {0})
  verify_each s [] predecessor_hash = done tt
  verify_each s (seq ∷ seqs) predecessor_hash = do
    stored ← read_record s seq
    _ ← check_back_link stream stored predecessor_hash
    verify_each s seqs (some stored.hash)

  -- the hash of the frame before a sequence number
  unfoldable pub predecessor :
      Files → List SegmentIndex → ℕ → Attempt PersistenceError (Option RecordHash)
  predecessor files segments zero = done none
  predecessor files segments (suc prev) = do
    bytes ← read_frame_bytes_at files segments stream prev
    done (some (hash_frame format bytes))

  unfoldable pub verify : SequenceNo → SequenceNo → Stream → Attempt PersistenceError (Unit {0})
  verify first to s =
      let head_seq : ℕ = s.state.next_seq - 1 in
      let last : ℕ = if ltb to head_seq then to else head_seq in
      if s.state.next_seq == 0
      then failed (stream_empty stream)
      else (if ltb last first then done tt else (do
        predecessor_hash ← predecessor s.files s.state.segments first
        verify_each s (range_from first (suc last - first)) predecessor_hash))
