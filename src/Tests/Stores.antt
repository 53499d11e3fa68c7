-- ===== src/Tests/Stores.antt =====
-- The store on three records in two segments.
use koalisi.Common.{◌≡◌, refl, ◌⊎◌, none, some, List, [], ◌∷◌, ◌++◌, map, drop, take, arith}
use koalisi.Topology.Errors.{done, failed}
use koalisi.Persistence.Envelope.{topology, Bytes, Record}
use koalisi.Persistence.Errors.{PersistenceError}
use koalisi.Persistence.Chain.{hash_frame, encode_frame}
use koalisi.Persistence.Framing.{scan_frames, framed, framed_all, to_le_bytes, from_le_bytes}
use koalisi.Persistence.Store.{
  Stream, Fault, append, read_from, verify, predecessor, read_frame_bytes_at, segment_containing,
  read_at, read_exact,
}
use koalisi.Persistence.Store.Scan.{scan_stream, scan_segments, scan_segment, compute_head}
use koalisi.Persistence.Store.Contents.{
  new_stream, stream_of, IsChain, stored_all, Holds, fresh, laid_out,
}
use koalisi.Persistence.Store.Rotation.{no_fault}
use koalisi.Persistence.Store.Appending.{append-Holds}
use koalisi.Persistence.Store.Reading.{read_from-Holds}
use koalisi.Persistence.Store.Verifying.{verify-Holds}
use koalisi.Persistence.Store.Recovery.{scan_stream-Holds, scan_stream-append}
use koalisi.Persistence.Store.Links.{Collision}
use koalisi.Persistence.Store.Tampering.{all_frames, last_hash, verify-all_frames}
use koalisi.Persistence.Forwarding.{write_each}
use koalisi.Persistence.Forwarding.Delivery.{answered, HoldsOneMore, scan_stream-write_each}
use koalisi.Tests.Formats.{toy, toy-IsReadable, letter}

abbrev letters : List Record
letters = letter 5 ∷ letter 6 ∷ letter 7 ∷ []

abbrev frame5 : Bytes
frame5 = 1 ∷ 0 ∷ 5 ∷ 1 ∷ 0 ∷ 5 ∷ []

abbrev frame6 : Bytes
frame6 = 1 ∷ 1 ∷ 6 ∷ 1 ∷ 13 ∷ 6 ∷ []

abbrev frame7 : Bytes
frame7 = 1 ∷ 2 ∷ 7 ∷ 1 ∷ 29 ∷ 7 ∷ []

letters-IsChain : IsChain toy 0 none letters (frame5 ∷ frame6 ∷ frame7 ∷ [])
unfolding encode_frame
letters-IsChain = (refl, omega arith, (refl, omega arith, (refl, omega arith, tt)))

-- two frames in the closed segment
abbrev two_and_one : Stream
two_and_one = stream_of toy ((frame5 ∷ frame6 ∷ []) ∷ []) (framed_all (frame7 ∷ [])) (frame7 ∷ [])

two_and_one-Holds : Holds toy two_and_one letters
two_and_one-Holds =
    laid_out ((frame5 ∷ frame6 ∷ []) ∷ []) (frame7 ∷ []) (omega arith, tt) refl letters-IsChain

-- all frames in one segment
abbrev all_in_one : Stream
all_in_one =
    stream_of toy [] (framed_all (frame5 ∷ frame6 ∷ frame7 ∷ [])) (frame5 ∷ frame6 ∷ frame7 ∷ [])

all_in_one-Holds : Holds toy all_in_one letters
all_in_one-Holds = laid_out [] (frame5 ∷ frame6 ∷ frame7 ∷ []) tt refl letters-IsChain

-- Three appends with at most two records in a segment.
abbrev appended_letters : Stream
appended_letters =
    (append toy topology 2 no_fault (letter 7)
      (append toy topology 2 no_fault (letter 6)
        (append toy topology 2 no_fault (letter 5) new_stream).0).0).0

read_from-Holds_example :
    (fs : List Bytes) × IsChain toy 0 none letters fs
    × (read_from toy topology 1 5 two_and_one
        ≡ done (take 5 (drop 1 (stored_all toy 0 none letters fs))))
    × (map (λ x. x.contents) (stored_all toy 0 none letters fs) ≡ letters)
read_from-Holds_example =
    read_from-Holds toy toy-IsReadable topology two_and_one letters 1 5 two_and_one-Holds

verify-Holds_example : verify toy topology 1 9 two_and_one ≡ done tt
verify-Holds_example =
    verify-Holds toy toy-IsReadable topology two_and_one letters 1 9 two_and_one-Holds (omega arith)

append-Holds_example :
    ((append toy topology 2 no_fault (letter 5) new_stream).1
      ≡ done (record { seq = 0; hash = hash_frame toy frame5 }))
    × Holds toy (append toy topology 2 no_fault (letter 5) new_stream).0 (letter 5 ∷ [])
unfolding encode_frame
append-Holds_example =
    append-Holds toy topology 2 (letter 5) new_stream [] frame5 (omega arith) (fresh refl refl) refl
      (omega arith)

scan_stream-Holds_example : scan_stream toy topology two_and_one.files ≡ done two_and_one
scan_stream-Holds_example =
    scan_stream-Holds toy toy-IsReadable topology two_and_one letters two_and_one-Holds

-- six bytes reach the file
abbrev disk_full : Fault
disk_full = record { sync = none; opening = none; writing = some (6, "disk full") }

scan_stream-append_example :
    (t : Stream) × (scan_stream toy topology
        (append toy topology 2 disk_full (letter 8) two_and_one).0.files
      ≡ done t)
    × (Holds toy t (letters ++ letter 8 ∷ [])
        ⊎ (Holds toy t letters
            × ((e : PersistenceError) × ((append toy topology 2 disk_full (letter 8) two_and_one).1
                  ≡ failed e))))
scan_stream-append_example =
    scan_stream-append toy toy-IsReadable topology 2 disk_full (letter 8) two_and_one letters
      (omega arith) two_and_one-Holds

abbrev three_writes : List (Fault × Record)
three_writes = (no_fault, letter 8) ∷ (disk_full, letter 9) ∷ (no_fault, letter 10) ∷ []

scan_stream-write_each_example :
    (t : Stream) × (scan_stream toy topology
        (write_each toy topology 2 three_writes two_and_one).files
      ≡ done t)
    × HoldsOneMore toy topology 2 t (letters ++ answered toy topology 2 three_writes two_and_one)
scan_stream-write_each_example =
    scan_stream-write_each toy topology 2 toy-IsReadable (omega arith) three_writes two_and_one
      letters two_and_one-Holds

-- Two layouts of the same frames.
same_last : last_hash toy topology two_and_one ≡ last_hash toy topology all_in_one
unfolding predecessor read_frame_bytes_at segment_containing read_at read_exact framed_all framed
    to_le_bytes from_le_bytes
same_last = refl

verify-all_frames_example :
    (all_frames toy topology two_and_one ≡ all_frames toy topology all_in_one) ⊎ Collision toy
verify-all_frames_example =
    verify-all_frames toy topology two_and_one all_in_one refl
      (verify-Holds toy toy-IsReadable topology two_and_one letters 0 3 two_and_one-Holds
        (omega arith))
      (verify-Holds toy toy-IsReadable topology all_in_one letters 0 3 all_in_one-Holds
        (omega arith))
      same_last

-- The length of the first frame is damaged, and a whole frame follows it: on opening, both are cut
-- off the file.
damaged_length :
    scan_stream toy topology ((0, 255 ∷ drop 1 (framed_all (frame5 ∷ frame6 ∷ []))) ∷ [])
    ≡ done (stream_of toy [] [] [])
unfolding scan_stream scan_segments scan_segment scan_frames compute_head framed_all framed
    to_le_bytes from_le_bytes
damaged_length = refl
