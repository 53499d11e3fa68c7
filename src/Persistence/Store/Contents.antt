-- ===== src/Persistence/Store/Contents.antt =====
-- What a stream of the store holds (src/persistence/store.rs): the abstract view of its files and
-- its state as the records that were appended.
use koalisi.Common.{
  ℕ, zero, suc, ◌+◌, ◌≡◌, refl, ap, sym, ◌∙◌, false, Option, none, some, List, [], ◌∷◌, map, arith,
  All, length, get_elem?,
}
use koalisi.Topology.Errors.{done}
use koalisi.Persistence.Envelope.{StreamId, Bytes, RecordHash, Record, StoredRecord, StreamHead}
use koalisi.Persistence.Chain.{Format, IsReadable, hash_frame, encode_frame, decode_frame}
use koalisi.Persistence.Chain.Frames.{decode_frame-encode_frame}
use koalisi.Persistence.Framing.{framed_all, IsShort}
use koalisi.Persistence.Store.{Stream}
use koalisi.Persistence.Store.Layout.{flat, layout, index, IsFilled}

-- where the active segment starts
abbrev pub active_start : ℕ → List (List Bytes) → ℕ
active_start n [] = n
active_start n (c ∷ full) = active_start (n + length c) full

-- a stream that has no segment
abbrev pub new_stream : Stream
new_stream = record {
  files = [];
  state = record {
    segments = [];
    next_seq = 0;
    head = none;
    writer = none;
    active_len = 0;
    wedged = false;
  };
}

module _ (format : Format) where
  -- Frames that carry records, numbered from `n` on, each linked to the one before it.
  abbrev pub IsChain : ℕ → Option RecordHash → List Record → List Bytes → Type 0
  IsChain n prev [] [] = Unit
  IsChain n prev (r ∷ rs) (f ∷ fs) =
      (encode_frame format r n prev ≡ done f)
      × IsShort f
      × IsChain (suc n) (some (hash_frame format f)) rs fs
  IsChain n prev _ _ = ⊥

  -- the records as they are read: with number, link and hash
  abbrev pub stored_all : ℕ → Option RecordHash → List Record → List Bytes → List StoredRecord
  stored_all n prev [] fs = []
  stored_all n prev (r ∷ rs) [] = []
  stored_all n prev (r ∷ rs) (f ∷ fs) =
      record { seq = n; prev_hash = prev; hash = hash_frame format f; contents = r }
      ∷ stored_all (suc n) (some (hash_frame format f)) rs fs

  -- the head after more frames, numbered from `n` on
  abbrev pub head_after : ℕ → Option StreamHead → List Bytes → Option StreamHead
  head_after n head [] = head
  head_after n head (f ∷ fs) =
      head_after (suc n) (some (record { seq = n; hash = hash_frame format f })) fs

  -- the segments that are closed, the bytes of the last file, and the frames of the last segment
  abbrev pub stream_of : List (List Bytes) → Bytes → List Bytes → Stream
  stream_of full last active = record {
    files = layout 0 full last;
    state = record {
      segments = index 0 full active;
      next_seq = length (flat full active);
      head = head_after 0 none (flat full active);
      writer = some (active_start 0 full);
      active_len = length (framed_all active);
      wedged = false;
    };
  }

  -- A stream holds records when it is new and there are none, or when its segments are laid out
  -- with their frames.
  pub data Holds (s : Stream) (rs : List Record) : Type 0 where
    fresh : s ≡ new_stream → rs ≡ [] → Holds s rs
    laid_out :
        (full : List (List Bytes)) (active : List Bytes)
        → All IsFilled full
        → s ≡ stream_of full (framed_all active) active
        → IsChain 0 none rs (flat full active)
        → Holds s rs

  pub IsChain-length :
      (n : ℕ) (prev : Option RecordHash) (rs : List Record) (fs : List Bytes)
      → IsChain n prev rs fs
      → length rs ≡ length fs
  IsChain-length n prev [] [] h = refl
  IsChain-length n prev [] (f ∷ fs) h = absurd h
  IsChain-length n prev (r ∷ rs) [] h = absurd h
  IsChain-length n prev (r ∷ rs) (f ∷ fs) h =
      omega (arith, IsChain-length (suc n) (some (hash_frame format f)) rs fs h.2)

  pub length-stored_all :
      (n : ℕ) (prev : Option RecordHash) (rs : List Record) (fs : List Bytes)
      → IsChain n prev rs fs
      → length (stored_all n prev rs fs) ≡ length fs
  length-stored_all n prev [] [] h = refl
  length-stored_all n prev [] (f ∷ fs) h = absurd h
  length-stored_all n prev (r ∷ rs) [] h = absurd h
  length-stored_all n prev (r ∷ rs) (f ∷ fs) h =
      omega (arith, length-stored_all (suc n) (some (hash_frame format f)) rs fs h.2)

  pub contents-stored_all :
      (n : ℕ) (prev : Option RecordHash) (rs : List Record) (fs : List Bytes)
      → IsChain n prev rs fs
      → map (λ x. x.contents) (stored_all n prev rs fs) ≡ rs
  contents-stored_all n prev [] fs h = refl
  contents-stored_all n prev (r ∷ rs) [] h = absurd h
  contents-stored_all n prev (r ∷ rs) (f ∷ fs) h =
      ap (λ t. r ∷ t) (contents-stored_all (suc n) (some (hash_frame format f)) rs fs h.2)

  -- A frame of a chain is short, and decodes to the record there.
  pub decode_frame-IsChain :
      IsReadable format
      → (stream : StreamId)
      → (n : ℕ) (prev : Option RecordHash) (rs : List Record) (fs : List Bytes)
      → IsChain n prev rs fs
      → (i : ℕ) {x : StoredRecord} → get_elem? (stored_all n prev rs fs) i ≡ some x
      → (f : Bytes) × (get_elem? fs i ≡ some f)
        × IsShort f
        × (decode_frame format f stream (n + i) ≡ done x)
        × (x.hash ≡ hash_frame format f)
  decode_frame-IsChain readable stream n prev [] [] h i at = absurd (ground arith)
  decode_frame-IsChain readable stream n prev [] (f ∷ fs) h i at = absurd h
  decode_frame-IsChain readable stream n prev (r ∷ rs) [] h i at = absurd h
  decode_frame-IsChain readable stream n prev (r ∷ rs) (f ∷ fs) h zero {x = x} at =
      let same : record { seq = n; prev_hash = prev; hash = hash_frame format f; contents = r }
          ≡ x =
        cc in
      (
        f,
        refl,
        h.1,
        ap (λ m. decode_frame format f stream m) (omega arith)
            ∙ decode_frame-encode_frame format readable stream r n prev f h.0
            ∙ ap done same,
        ap (λ y. y.hash) (sym same),
      )
  decode_frame-IsChain readable stream n prev (r ∷ rs) (f ∷ fs) h (suc i) at =
      let later =
        decode_frame-IsChain readable stream (suc n) (some (hash_frame format f)) rs fs h.2 i at in
      (
        later.0,
        later.1,
        later.2,
        ap (λ m. decode_frame format later.0 stream m) (omega arith) ∙ later.3,
        later.4,
      )
