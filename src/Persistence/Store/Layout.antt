-- ===== src/Persistence/Store/Layout.antt =====
-- How the frames of a stream stand in its segments (src/persistence/store.rs): the segments before
-- the active one, as lists of frames, and the active one. Every frame is found where the index
-- says it is.
use koalisi.Common.{
  ℕ, zero, suc, ◌+◌, ◌-◌, ◌≤◌, ◌<◌, ◌≡◌, refl, ap, sym, ◌∙◌, none, some, List, [], ◌∷◌, ◌++◌, arith,
  All, length, length-append, get_elem?, get_elem?-append_left, get_elem?-append_right,
  get_elem?-lt, drop, take, drop-drop, take-length_append, ltb, inl, inr, Bool-cases,
}
use koalisi.Common.SortedMap.{get}
use koalisi.Topology.Errors.{done}
use koalisi.Persistence.Envelope.{StreamId, Bytes}
use koalisi.Persistence.Framing.{
  from_le_bytes, to_le_bytes, framed, framed_all, offsets, IsShort, from_le_bytes-framed,
  length-framed, drop-framed,
}
use koalisi.Persistence.Store.{
  SegmentIndex, Files, segment_containing, read_exact, read_at, read_frame_bytes_at,
}

-- all frames, in order
abbrev pub flat : List (List Bytes) → List Bytes → List Bytes
flat [] active = active
flat (c ∷ full) active = c ++ flat full active

-- the files, the first of which starts with a sequence number
abbrev pub layout : ℕ → List (List Bytes) → Bytes → Files
layout n [] last = (n, last) ∷ []
layout n (c ∷ full) last = (n, framed_all c) ∷ layout (n + length c) full last

abbrev pub segment : ℕ → List Bytes → SegmentIndex
segment n c = record { first_seq = n; frame_offsets = offsets 0 c }

abbrev pub index : ℕ → List (List Bytes) → List Bytes → List SegmentIndex
index n [] active = segment n active ∷ []
index n (c ∷ full) active = segment n c ∷ index (n + length c) full active

-- A segment that is closed has frames.
abbrev pub IsFilled : List Bytes → Type 0
IsFilled c = 0 < length c

-- Every segment has its file.
abbrev pub IsStored : Files → ℕ → List (List Bytes) → List Bytes → Type 0
IsStored files n [] active = get n files ≡ some (framed_all active)
IsStored files n (c ∷ full) active =
    (get n files ≡ some (framed_all c)) × IsStored files (n + length c) full active

IsStored-cons :
    (files : Files) (j : ℕ) (v : Bytes) (n : ℕ) (full : List (List Bytes)) (active : List Bytes)
    → j < n
    → IsStored files n full active
    → IsStored ((j, v) ∷ files) n full active
IsStored-cons files j v n [] active lt h = ground arith
IsStored-cons files j v n (c ∷ full) active lt h =
    (ground arith, IsStored-cons files j v (n + length c) full active (omega arith) h.1)

pub layout-IsStored :
    (n : ℕ) (full : List (List Bytes)) (active : List Bytes)
    → All IsFilled full
    → IsStored (layout n full (framed_all active)) n full active
layout-IsStored n [] active h = ground arith
layout-IsStored n (c ∷ full) active h = (
  ground arith,
  IsStored-cons (layout (n + length c) full (framed_all active)) n (framed_all c) (n + length c)
      full active (omega (arith, h.0)) (layout-IsStored (n + length c) full active h.1),
)

pub length-offsets : (pos : ℕ) (fs : List Bytes) → length (offsets pos fs) ≡ length fs
length-offsets pos [] = refl
length-offsets pos (f ∷ fs) = omega (arith, length-offsets (pos + (4 + length f)) fs)

-- The offset of a frame is where it stands.
drop-framed_all :
    (pos : ℕ) (c : List Bytes) (k : ℕ) {f : Bytes}
    → get_elem? c k ≡ some f
    → (o : ℕ) × (rest : Bytes) × (get_elem? (offsets pos c) k ≡ some (pos + o))
      × (drop o (framed_all c) ≡ framed f ++ rest)
unfolding framed_all
drop-framed_all pos [] k h = absurd (ground arith)
drop-framed_all pos (x ∷ c) zero {f = f} h = (0, framed_all c, ground arith, cc)
drop-framed_all pos (x ∷ c) (suc k) h =
    let later = drop-framed_all (pos + (4 + length x)) c k h in
    (
      (4 + length x) + later.0,
      later.1,
      later.2 ∙ ap some (omega arith),
      sym (drop-drop later.0 (4 + length x) _ (framed x ++ framed_all c) refl)
          ∙ ap (drop later.0) (drop-framed x (framed_all c))
          ∙ later.3,
    )

read_exact_whole :
    (stream : StreamId) (seq : ℕ) (rest : Bytes)
    → 4 + from_le_bytes rest ≤ length rest
    → read_exact stream seq rest ≡ done (take (from_le_bytes rest) (drop 4 rest))
unfolding read_exact
read_exact_whole stream seq rest h = ground arith

drop_prefix : (f rest : Bytes) → drop 4 (framed f ++ rest) ≡ f ++ rest
unfolding framed to_le_bytes
drop_prefix f rest = refl

read_exact-framed :
    (stream : StreamId) (seq : ℕ) (f rest : Bytes)
    → IsShort f
    → read_exact stream seq (framed f ++ rest) ≡ done f
read_exact-framed stream seq f rest short =
    let size = from_le_bytes-framed f rest short in
    let whole = length-append (framed f) rest in
    let prefix = length-framed f in
    read_exact_whole stream seq (framed f ++ rest) (omega arith)
    ∙ rw (size, drop_prefix f rest, take-length_append f rest) refl

-- A frame of a segment is read from its file.
read_at-segment :
    (files : Files) (stream : StreamId) (n : ℕ) (c : List Bytes) (i : ℕ) {f : Bytes}
    → get n files ≡ some (framed_all c)
    → get_elem? c (i - n) ≡ some f
    → IsShort f
    → read_at files stream i (segment n c) ≡ done f
unfolding read_at
read_at-segment files stream n c i {f = f} stored at short =
    let place = drop-framed_all 0 c (i - n) at in
    let offset : get_elem? (offsets 0 c) (i - n) ≡ some place.0 = place.2 ∙ ap some (omega arith) in
    rw (read_at, offset, stored, place.3) (read_exact-framed stream i f place.1 short)

segment_containing-below :
    (n : ℕ) (full : List (List Bytes)) (active : List Bytes) (i : ℕ)
    → i < n
    → segment_containing (index n full active) i ≡ none
unfolding segment_containing
segment_containing-below n [] active i lt = ground arith
segment_containing-below n (c ∷ full) active i lt =
    rw (segment_containing-below (n + length c) full active i (omega arith)) (ground arith)

-- The segment that is found holds the frame.
segment_containing-index :
    (files : Files) (n : ℕ) (full : List (List Bytes)) (active : List Bytes) (i : ℕ) {f : Bytes}
    → IsStored files n full active
    → n ≤ i
    → get_elem? (flat full active) (i - n) ≡ some f
    → (m : ℕ) × (c : List Bytes) × (segment_containing (index n full active) i ≡ some (segment m c))
      × (get m files ≡ some (framed_all c))
      × (get_elem? c (i - m) ≡ some f)
unfolding segment_containing
segment_containing-index files n [] active i stored le at =
    let short = get_elem?-lt active (i - n) at in
    (n, active, ground (arith, length-offsets 0 active), stored, at)
segment_containing-index files n (c ∷ full) active i stored le at =
    elim (Bool-cases (ltb (i - n) (length c))) [
      | inl lt ↦ (
        n,
        c,
        rw (segment_containing-below (n + length c) full active i (ground arith))
            (ground (arith, length-offsets 0 c)),
        stored.0,
        sym (get_elem?-append_left c (flat full active) (i - n) (ground arith)) ∙ at,
      )
      | inr ge ↦
          (let found =
              segment_containing-index files (n + length c) full active i stored.1 (ground arith) (
                ap (get_elem? (flat full active)) (omega arith)
                ∙ sym (get_elem?-append_right c (flat full active) (i - n) (ground arith))
                ∙ at) in
            (found.0, found.1, rw found.2 refl, found.3, found.4))
    ]

-- Every frame is read back by its sequence number.
pub read_frame_bytes_at-index :
    (files : Files) (stream : StreamId) (full : List (List Bytes)) (active : List Bytes) (i : ℕ)
    {f : Bytes}
    → IsStored files 0 full active
    → get_elem? (flat full active) i ≡ some f
    → IsShort f
    → read_frame_bytes_at files (index 0 full active) stream i ≡ done f
unfolding read_frame_bytes_at
read_frame_bytes_at-index files stream full active i stored at short =
    let found =
      segment_containing-index files 0 full active i stored (omega arith)
        (ap (get_elem? (flat full active)) (omega arith) ∙ at) in
    rw (read_frame_bytes_at, found.2)
      (read_at-segment files stream found.0 found.1 i found.3 found.4 short)
