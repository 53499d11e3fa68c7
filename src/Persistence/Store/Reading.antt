-- ===== src/Persistence/Store/Reading.antt =====
-- Reading a stream (src/persistence/store.rs): a stream that holds records gives them back.
use koalisi.Common.{
  ℕ, zero, suc, ◌+◌, ◌-◌, ◌≤◌, ◌<◌, ◌≡◌, ◌⊎◌, refl, ap, sym, ◌∙◌, none, some, List, [], map, arith,
  All, length, get_elem?, drop, take, take_all, drop_all, length-drop, drop-get_elem?, ltb, leb,
  Bool-cases, inl, inr,
}
use koalisi.Topology.Errors.{Attempt, done}
use koalisi.Persistence.Envelope.{StreamId, Bytes, Record, StoredRecord}
use koalisi.Persistence.Errors.{collect}
use koalisi.Persistence.Chain.{Format, IsReadable, decode_frame}
use koalisi.Persistence.Framing.{framed_all}
use koalisi.Persistence.Store.{Stream, read_record, range_from, read_from}
use koalisi.Persistence.Store.Layout.{flat, layout-IsStored, IsFilled, read_frame_bytes_at-index}
use koalisi.Persistence.Store.Contents.{
  IsChain, stored_all, stream_of, Holds, fresh, laid_out, length-stored_all, contents-stored_all,
  decode_frame-IsChain,
}

-- Reading each number of a range from a list that the reads agree with.
collect-range_from :
    {E A : Type 0} (g : ℕ → Attempt E A) (xs : List A)
    → ((i : ℕ) (x : A) → get_elem? xs i ≡ some x → g i ≡ done x)
    → (first k : ℕ) → first + k ≤ length xs
    → collect g (range_from first k) ≡ done (take k (drop first xs))
collect-range_from g xs agree first zero le = refl
collect-range_from g xs agree first (suc k) le =
    let here = drop-get_elem? first xs (omega arith) in
    rw
      (agree first here.0 here.1, collect-range_from g xs agree (suc first) k (omega arith), here.2)
      refl

-- Where the reads agree with a list of as many records as the state counts, a bounded read is a
-- piece of that list.
module _ (format : Format) (stream : StreamId) (s : Stream) (xs : List StoredRecord) where
  collect_piece :
      ((i : ℕ) (x : StoredRecord)
        → get_elem? xs i ≡ some x
        → read_record format stream s i ≡ done x)
      → (first span count : ℕ) → first < length xs
      → (count ≡ suc span) ⊎ ((count ≡ length xs - first) × (length xs - first ≤ suc span))
      → first + count ≤ length xs
      → collect (read_record format stream s) (range_from first count)
        ≡ done (take (suc span) (drop first xs))
  collect_piece agree first span count lt (inl same) le =
      collect-range_from (read_record format stream s) xs agree first count le
      ∙ ap (λ k. done (take k (drop first xs))) same
  collect_piece agree first span count lt (inr (same, short)) le =
      let left = length-drop first xs in
      collect-range_from (read_record format stream s) xs agree first count le
      ∙ ap done (
          take_all count (drop first xs) (omega arith)
          ∙ sym (take_all (suc span) (drop first xs) (omega arith)))

  read_from-agree :
      length xs ≡ s.state.next_seq
      → ((i : ℕ) (x : StoredRecord)
          → get_elem? xs i ≡ some x
          → read_record format stream s i ≡ done x)
      → (first limit : ℕ)
      → read_from format stream first limit s ≡ done (take limit (drop first xs))
  unfolding read_from
  read_from-agree size agree first zero = refl
  read_from-agree size agree first (suc span) = elim (Bool-cases (leb (length xs) first)) [
    | inl past ↦ rw (drop_all first xs (ground arith)) (ground arith)
    | inr within ↦ elim (Bool-cases (ltb (first + span) (s.state.next_seq - 1))) [
      | inl bounded ↦
          rw bounded (ground (arith, collect_piece agree first span (suc (first + span) - first)))
      | inr clamped ↦
          rw clamped
            (ground (arith, collect_piece agree first span (suc (s.state.next_seq - 1) - first)))
    ]
  ]

module _ (format : Format) (readable : IsReadable format) (stream : StreamId) where
  module _ (full : List (List Bytes)) (active : List Bytes) (rs : List Record)
      (filled : All IsFilled full) (chain : IsChain format 0 none rs (flat full active)) where
    abbrev pub stored : List StoredRecord
    stored = stored_all format 0 none rs (flat full active)

    pub read_record-stored :
        (i : ℕ) (x : StoredRecord)
        → get_elem? stored i ≡ some x
        → read_record format stream (stream_of format full (framed_all active) active) i ≡ done x
    unfolding read_record
    read_record-stored i x at =
        let frame =
          decode_frame-IsChain format readable stream 0 none rs (flat full active) chain i at in
        rw
          (read_frame_bytes_at-index _ stream full active i (layout-IsStored 0 full active filled)
            frame.1 frame.2)
          (ap (decode_frame format frame.0 stream) (omega arith) ∙ frame.3)

    read_from-stored :
        (first limit : ℕ)
        → read_from format stream first limit (stream_of format full (framed_all active) active)
          ≡ done (take limit (drop first stored))
    read_from-stored =
        read_from-agree format stream (stream_of format full (framed_all active) active) stored
          (length-stored_all format 0 none rs (flat full active) chain) read_record-stored

  nothing_held :
      (first limit : ℕ) (s : Stream)
      → s.state.next_seq ≡ 0
      → read_from format stream first limit s ≡ done (take limit (drop first []))
  nothing_held first limit s empty =
      read_from-agree format stream s [] (sym empty) (λ i x at. absurd (ground arith)) first limit

  -- One list of frames serves every read.
  pub reads-Holds :
      (s : Stream) (rs : List Record)
      → Holds format s rs
      → (fs : List Bytes) × IsChain format 0 none rs fs
        × (s.state.next_seq ≡ length fs)
        × ((first limit : ℕ)
            → read_from format stream first limit s
              ≡ done (take limit (drop first (stored_all format 0 none rs fs))))
  reads-Holds s rs (fresh new none_yet) = rw none_yet (
    [],
    tt,
    ap (λ t. t.state.next_seq) new,
    λ first limit. nothing_held first limit s (ap (λ t. t.state.next_seq) new),
  )
  reads-Holds s rs (laid_out full active filled is chain) = (
    flat full active,
    chain,
    ap (λ t. t.state.next_seq) is,
    λ first limit. rw is (read_from-stored full active rs filled chain first limit),
  )

  -- A stream that holds records gives back, from any number on and up to any limit, exactly the
  -- records there, in order, each with its number, the hash of its frame and the hash of the frame
  -- before it; past the end and at the limit zero it gives none. It never fails.
  pub read_from-Holds :
      (s : Stream) (rs : List Record) (first limit : ℕ)
      → Holds format s rs
      → (fs : List Bytes) × IsChain format 0 none rs fs
        × (read_from format stream first limit s
            ≡ done (take limit (drop first (stored_all format 0 none rs fs))))
        × (map (λ x. x.contents) (stored_all format 0 none rs fs) ≡ rs)
  read_from-Holds s rs first limit holds =
      let reads = reads-Holds s rs holds in
      (reads.0, reads.1, reads.3 first limit, contents-stored_all format 0 none rs reads.0 reads.1)
