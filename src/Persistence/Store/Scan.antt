-- ===== src/Persistence/Store/Scan.antt =====
-- `scan_stream` of src/persistence/store.rs: what `open` makes of the directory of a stream. A torn
-- frame at the end of the last segment is cut off the file; that cut does not fail here.
use koalisi.Common.{
  ℕ, zero, suc, ◌+◌, Option, none, some, List, [], ◌∷◌, ◌==◌, if◌then◌else◌, length, last?, take,
  false,
}
use koalisi.Topology.Errors.{Attempt, done, failed}
use koalisi.Persistence.Envelope.{StreamId, Bytes, StreamHead}
use koalisi.Persistence.Errors.{PersistenceError, decode, torn_frame, segment_discontinuity, ◌>>=◌}
use koalisi.Persistence.Chain.{Format, decode_frame, check_back_link}
use koalisi.Persistence.Framing.{scan_frames}
use koalisi.Persistence.Store.{SegmentIndex, Files, Stream, read_frame_bytes_at, predecessor}

-- a segment, how long it is, and the file as it then is
pub record Scanned : Type 0 where
  pub segment : SegmentIndex
  pub valid_len : ℕ
  pub content : Bytes

-- `rest` are the files after this one: it is the last when there is none.
unfoldable pub scan_segment : StreamId → ℕ → Bytes → Files → Attempt PersistenceError Scanned
scan_segment stream first_seq content rest =
    let found = scan_frames (length content) content 0 in
    let segment : SegmentIndex = record { first_seq = first_seq; frame_offsets = found.0 } in
    if found.2
    then elim rest [
      | [] ↦
          done (record { segment = segment; valid_len = found.1; content = take found.1 content })
      | _ ∷ _ ↦ failed (decode stream (first_seq + length found.0) torn_frame)
    ]
    else done (record { segment = segment; valid_len = found.1; content = content })

-- The files as they then are, the segments, the next sequence number and the length of the last.
pub record Segments : Type 0 where
  pub files : Files
  pub segments : List SegmentIndex
  pub next_seq : ℕ
  pub active_len : ℕ

-- The loop of `scan_stream` over the files in the order of their first sequence numbers.
unfoldable pub scan_segments : StreamId → Files → ℕ → ℕ → Attempt PersistenceError Segments
scan_segments stream [] next_seq active_len =
    done (record { files = []; segments = []; next_seq = next_seq; active_len = active_len })
scan_segments stream ((first_seq, content) ∷ rest) next_seq active_len =
    if first_seq == next_seq
    then (do
      scanned ← scan_segment stream first_seq content rest
      found ←
          scan_segments stream rest (first_seq + length scanned.segment.frame_offsets)
            scanned.valid_len
      done (record found {
        files = (first_seq, scanned.content) ∷ found.files;
        segments = scanned.segment ∷ found.segments;
      }))
    else failed (decode stream first_seq (segment_discontinuity first_seq next_seq))

module _ (format : Format) (stream : StreamId) where
  unfoldable pub compute_head :
      Files → List SegmentIndex → ℕ → Attempt PersistenceError (Option StreamHead)
  compute_head files segments zero = done none
  compute_head files segments (suc last_seq) = do
    bytes ← read_frame_bytes_at files segments stream last_seq
    stored ← decode_frame format bytes stream last_seq
    predecessor_hash ← predecessor format stream files segments last_seq
    _ ← check_back_link stream stored predecessor_hash
    done (some (record { seq = last_seq; hash = stored.hash }))

  unfoldable pub scan_stream : Files → Attempt PersistenceError Stream
  scan_stream files = do
    found ← scan_segments stream files 0 0
    head ← compute_head found.files found.segments found.next_seq
    done (record {
      files = found.files;
      state = record {
        segments = found.segments;
        next_seq = found.next_seq;
        head = head;
        writer = elim (last? found.segments) [ none ↦ none | some seg ↦ some seg.first_seq ];
        active_len = found.active_len;
        wedged = false;
      };
    })
