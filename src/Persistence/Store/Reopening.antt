-- ===== src/Persistence/Store/Reopening.antt =====
-- The scan of a stream whose segments are laid out (`scan_stream` of src/persistence/store.rs), with
-- a torn frame at the end of the last file.
use koalisi.Common.{
  ℕ, zero, suc, ◌+◌, ◌≡◌, refl, ap, sym, ◌∙◌, inl, inr, true, false, Option, none, some, List, [],
  ◌∷◌, ◌++◌, append-nil, arith, All, append-All, length, length-append, get_elem?, drop-get_elem?,
  take-length_append, ltb, ==_refl, zero-cases,
}
use koalisi.Topology.Errors.{done}
use koalisi.Persistence.Envelope.{StreamId, Bytes, RecordHash, Record, StoredRecord, StreamHead}
use koalisi.Persistence.Chain.{Format, IsReadable, hash_frame, decode_frame}
use koalisi.Persistence.Framing.{
  framed_all, offsets, scan_frames, scan_frames-framed_all, IsShort, IsTorn,
}
use koalisi.Persistence.Store.{Files}
use koalisi.Persistence.Store.Scan.{Scanned, scan_segment, scan_segments, compute_head, scan_stream}
use koalisi.Persistence.Store.Layout.{
  flat, layout, segment, index, IsFilled, length-offsets, layout-IsStored,
  read_frame_bytes_at-index,
}
use koalisi.Persistence.Store.Contents.{
  IsChain, stored_all, stream_of, head_after, length-stored_all, decode_frame-IsChain,
}
use koalisi.Persistence.Store.Growth.{last?-index}
use koalisi.Persistence.Store.Verifying.{check_back_link-linked, predecessor-link}

scan_frames-segment :
    (c : List Bytes) (tail : Bytes)
    → All IsShort c
    → IsTorn tail
    → scan_frames (length (framed_all c ++ tail)) (framed_all c ++ tail) 0
      ≡ (offsets 0 c, length (framed_all c), ltb 0 (length tail))
scan_frames-segment c tail short torn =
    scan_frames-framed_all (length (framed_all c ++ tail)) 0 c tail (omega arith) short torn
    ∙ ap (λ n. (offsets 0 c, n, ltb 0 (length tail))) (omega arith)

abbrev scanned : ℕ → List Bytes → Scanned
scanned n c = record {
  segment = segment n c;
  valid_len = length (framed_all c);
  content = framed_all c;
}

-- The last segment: a torn frame is cut off.
scan_segment-last :
    (stream : StreamId) (n : ℕ) (c : List Bytes) (tail : Bytes)
    → All IsShort c
    → IsTorn tail
    → scan_segment stream n (framed_all c ++ tail) [] ≡ done (scanned n c)
unfolding scan_segment
scan_segment-last stream n c [] short torn =
    rw (scan_frames-segment c [] short torn)
      (ap (λ t. done (record (scanned n c) { content = t })) (append-nil (framed_all c)))
scan_segment-last stream n c (b ∷ tail) short torn =
    let cut : ltb 0 (length (b ∷ tail)) ≡ true = ground arith in
    rw
      (
        scan_frames-segment c (b ∷ tail) short torn,
        cut,
        take-length_append (framed_all c) (b ∷ tail),
      )
      refl

-- A segment before it is whole.
scan_segment-closed :
    (stream : StreamId) (n : ℕ) (c : List Bytes) (rest : Files)
    → All IsShort c
    → scan_segment stream n (framed_all c) rest ≡ done (scanned n c)
unfolding scan_segment
scan_segment-closed stream n c rest short =
    let found : scan_frames (length (framed_all c)) (framed_all c) 0
        ≡ (offsets 0 c, length (framed_all c), false) =
      ap (λ t. scan_frames (length t) t 0) (sym (append-nil (framed_all c)))
      ∙ scan_frames-segment c [] short (ground arith) in
    rw found refl

scan_segments-layout :
    (stream : StreamId) (n len : ℕ) (full : List (List Bytes)) (active : List Bytes) (tail : Bytes)
    → All IsShort (flat full active)
    → IsTorn tail
    → scan_segments stream (layout n full (framed_all active ++ tail)) n len
      ≡ done (record {
        files = layout n full (framed_all active);
        segments = index n full active;
        next_seq = n + length (flat full active);
        active_len = length (framed_all active);
      })
unfolding scan_segments
scan_segments-layout stream n len [] active tail short torn =
    rw (==_refl n, scan_segment-last stream n active tail short torn, length-offsets 0 active) refl
scan_segments-layout stream n len (c ∷ full) active tail short torn =
    let parts = append-All IsShort c (flat full active) short in
    let size = length-append c (flat full active) in
    let later =
      scan_segments-layout stream (n + length c) (length (framed_all c)) full active tail parts.1
        torn in
    rw
      (
        ==_refl n,
        scan_segment-closed stream n c (layout (n + length c) full (framed_all active ++ tail))
            parts.0,
        length-offsets 0 c,
        later,
      )
      (ap
        (λ k. done (record {
          files = layout n (c ∷ full) (framed_all active);
          segments = index n (c ∷ full) active;
          next_seq = k;
          active_len = length (framed_all active);
        }))
        (omega arith))

head_after-empty :
    (format : Format) (n : ℕ) (head : Option StreamHead) (fs : List Bytes)
    → length fs ≡ 0
    → head_after format n head fs ≡ head
head_after-empty format n head [] empty = refl
head_after-empty format n head (f ∷ fs) empty = absurd (omega arith)

head_after-last :
    (format : Format) (n : ℕ) (head : Option StreamHead) (prev : Option RecordHash)
    (rs : List Record) (fs : List Bytes) (m : ℕ) (x : StoredRecord)
    → length fs ≡ suc m
    → get_elem? (stored_all format n prev rs fs) m ≡ some x
    → head_after format n head fs ≡ some (record { seq = n + m; hash = x.hash })
head_after-last format n head prev [] fs m x size at = absurd (ground arith)
head_after-last format n head prev (r ∷ rs) [] m x size at = absurd (omega arith)
head_after-last format n head prev (r ∷ rs) (f ∷ []) zero x size at =
    let same : record { seq = n; prev_hash = prev; hash = hash_frame format f; contents = r } ≡ x =
      cc in
    ap (λ k. some (record { seq = k; hash = hash_frame format f })) (omega arith)
    ∙ ap (λ h. some (record { seq = n + 0; hash = h })) (ap (λ y. y.hash) same)
head_after-last format n head prev (r ∷ rs) (f ∷ g ∷ fs) zero x size at = absurd (omega arith)
head_after-last format n head prev (r ∷ rs) (f ∷ fs) (suc m) x size at =
    head_after-last format (suc n) (some (record { seq = n; hash = hash_frame format f }))
      (some (hash_frame format f)) rs fs m x (omega arith) at
    ∙ ap (λ k. some (record { seq = k; hash = x.hash })) (omega arith)

IsChain-IsShort :
    (format : Format) (n : ℕ) (prev : Option RecordHash) (rs : List Record) (fs : List Bytes)
    → IsChain format n prev rs fs
    → All IsShort fs
IsChain-IsShort format n prev [] [] h = tt
IsChain-IsShort format n prev [] (f ∷ fs) h = absurd h
IsChain-IsShort format n prev (r ∷ rs) [] h = absurd h
IsChain-IsShort format n prev (r ∷ rs) (f ∷ fs) h =
    (h.1, IsChain-IsShort format (suc n) (some (hash_frame format f)) rs fs h.2)

module _ (format : Format) (readable : IsReadable format) (stream : StreamId) where
  compute_head-whole :
      (full : List (List Bytes)) (active : List Bytes) (rs : List Record)
      → All IsFilled full
      → IsChain format 0 none rs (flat full active)
      → compute_head format stream
          (layout 0 full (framed_all active))
          (index 0 full active)
          (length (flat full active))
        ≡ done (head_after format 0 none (flat full active))
  unfolding compute_head
  compute_head-whole full active rs filled chain = elim (zero-cases (length (flat full active))) [
    | inl empty ↦ rw (empty, head_after-empty format 0 none (flat full active) empty) refl
    | inr last ↦
        (let kept = stored_all format 0 none rs (flat full active) in
          let here =
            drop-get_elem? last.0 kept (
              omega (arith, length-stored_all format 0 none rs (flat full active) chain, last.1)) in
          let frame =
            decode_frame-IsChain format readable stream 0 none rs (flat full active) chain last.0
              here.1 in
          let decoded : decode_frame format frame.0 stream last.0 ≡ done here.0 =
            ap (decode_frame format frame.0 stream) (omega arith) ∙ frame.3 in
          let head =
            head_after-last format 0 none none rs (flat full active) last.0 here.0 last.1 here.1 in
          rw
            (
              last.1,
              read_frame_bytes_at-index _ stream full active last.0
                  (layout-IsStored 0 full active filled) frame.1 frame.2,
              decoded,
              predecessor-link format readable stream full active rs filled chain last.0 here.0
                  here.1,
              check_back_link-linked stream here.0 here.0.prev_hash refl,
              head,
            )
            (ap (λ k. done (some (record { seq = k; hash = here.0.hash }))) (omega arith)))
  ]

  pub scan_stream-layout :
      (full : List (List Bytes)) (active : List Bytes) (tail : Bytes) (rs : List Record)
      → All IsFilled full
      → IsChain format 0 none rs (flat full active)
      → IsTorn tail
      → scan_stream format stream (layout 0 full (framed_all active ++ tail))
        ≡ done (stream_of format full (framed_all active) active)
  unfolding scan_stream
  scan_stream-layout full active tail rs filled chain torn =
      let short = IsChain-IsShort format 0 none rs (flat full active) chain in
      let size : 0 + length (flat full active) ≡ length (flat full active) = omega arith in
      rw
        (
          scan_segments-layout stream 0 0 full active tail short torn,
          size,
          compute_head-whole full active rs filled chain,
          last?-index 0 full active,
        )
        refl
