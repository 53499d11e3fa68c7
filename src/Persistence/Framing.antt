-- ===== src/Persistence/Framing.antt =====
-- How frames stand in a segment file (src/persistence/store.rs): each after its length, four bytes,
-- the lowest first.
use koalisi.Common.{
  ℕ, zero, suc, ◌+◌, ◌*◌, ◌/◌, ◌%◌, ◌^◌, ◌≤◌, ◌<◌, ◌≡◌, ap, sym, ◌∙◌, Bool, true, false, List, [],
  ◌∷◌, ◌++◌, append_assoc, arith, All, length, length-append, drop, drop-length_append, ltb,
  if◌then◌else◌,
}
use koalisi.Persistence.Envelope.{Bytes}

-- `u32::to_le_bytes`
unfoldable pub to_le_bytes : ℕ → Bytes
to_le_bytes n = n % 256 ∷ n / 256 % 256 ∷ n / 256 / 256 % 256 ∷ n / 256 / 256 / 256 % 256 ∷ []

-- `u32::from_le_bytes` of the first four bytes
unfoldable pub from_le_bytes : Bytes → ℕ
from_le_bytes (a ∷ b ∷ c ∷ d ∷ rest) = a + 256 * (b + 256 * (c + 256 * d))
from_le_bytes _ = 0

-- what one append adds to a segment file
unfoldable pub framed : Bytes → Bytes
framed frame = to_le_bytes (length frame) ++ frame

unfoldable pub framed_all : List Bytes → Bytes
framed_all [] = []
framed_all (f ∷ fs) = framed f ++ framed_all fs

-- The loop of `scan_segment`: the offsets of the whole frames, where they end, and whether bytes of
-- a torn frame follow. `rest` is the file from `pos` on.
unfoldable pub scan_frames : ℕ → Bytes → ℕ → List ℕ × ℕ × Bool
scan_frames zero rest pos = ([], pos, false)
scan_frames (suc fuel) [] pos = ([], pos, false)
scan_frames (suc fuel) (byte ∷ rest) pos =
    let size : ℕ = 4 + from_le_bytes (byte ∷ rest) in
    let next = scan_frames fuel (drop size (byte ∷ rest)) (pos + size) in
    if ltb (length (byte ∷ rest)) 4
    then ([], pos, true)
    else if ltb (length (byte ∷ rest)) size
    then ([], pos, true)
    else (pos ∷ next.0, next.1, next.2)

-- where the frames of a segment start, from a position on
abbrev pub offsets : ℕ → List Bytes → List ℕ
offsets pos [] = []
offsets pos (f ∷ fs) = pos ∷ offsets (pos + (4 + length f)) fs

abbrev pub u32_mod : ℕ
u32_mod = 2 ^ 32

abbrev pub IsShort : Bytes → Type 0
IsShort f = length f < u32_mod

pub from_le_bytes-framed :
    (f : Bytes) (rest : Bytes) → IsShort f → from_le_bytes (framed f ++ rest) ≡ length f
unfolding from_le_bytes framed to_le_bytes
from_le_bytes-framed f rest h = omega arith

pub length-framed : (f : Bytes) → length (framed f) ≡ 4 + length f
unfolding framed to_le_bytes
length-framed f = omega arith

-- Bytes that hold no whole frame: fewer than a length, or fewer than the length says.
abbrev pub IsTorn : Bytes → Type 0
IsTorn tail = length tail < 4 + from_le_bytes tail

pub drop-framed : (f rest : Bytes) → drop (4 + length f) (framed f ++ rest) ≡ rest
drop-framed f rest =
    ap (λ n. drop n (framed f ++ rest)) (sym (length-framed f)) ∙ drop-length_append (framed f) rest

-- Where a whole frame stands it is passed over, and a torn one ends the scan.
scan_frames_whole :
    (fuel pos : ℕ) (rest : Bytes)
    → 4 ≤ length rest
    → 4 + from_le_bytes rest ≤ length rest
    → scan_frames (suc fuel) rest pos ≡ (
      pos
          ∷ (scan_frames fuel
              (drop (4 + from_le_bytes rest) rest)
              (pos + (4 + from_le_bytes rest))).0,
      (scan_frames fuel (drop (4 + from_le_bytes rest) rest) (pos + (4 + from_le_bytes rest))).1,
      (scan_frames fuel (drop (4 + from_le_bytes rest) rest) (pos + (4 + from_le_bytes rest))).2,
    )
unfolding scan_frames
scan_frames_whole fuel pos [] h k = absurd (omega arith)
scan_frames_whole fuel pos (b ∷ t) h k = ground arith

scan_frames_torn :
    (fuel pos b : ℕ) (t : Bytes)
    → IsTorn (b ∷ t)
    → scan_frames (suc fuel) (b ∷ t) pos ≡ ([], pos, true)
unfolding scan_frames
scan_frames_torn fuel pos b t torn = ground arith

scan_frames-framed :
    (fuel pos : ℕ) (f rest : Bytes)
    → IsShort f
    → scan_frames (suc fuel) (framed f ++ rest) pos ≡ (
      pos ∷ (scan_frames fuel rest (pos + (4 + length f))).0,
      (scan_frames fuel rest (pos + (4 + length f))).1,
      (scan_frames fuel rest (pos + (4 + length f))).2,
    )
scan_frames-framed fuel pos f rest short =
    let size = from_le_bytes-framed f rest short in
    let whole = length-append (framed f) rest in
    let prefix = length-framed f in
    scan_frames_whole fuel pos (framed f ++ rest) (omega arith) (omega arith)
    ∙ rw (size, drop-framed f rest)

pub scan_frames-framed_all :
    (fuel pos : ℕ) (fs : List Bytes) (tail : Bytes)
    → length (framed_all fs ++ tail) ≤ fuel
    → All IsShort fs
    → IsTorn tail
    → scan_frames fuel (framed_all fs ++ tail) pos
      ≡ (offsets pos fs, pos + length (framed_all fs), ltb 0 (length tail))
unfolding scan_frames framed_all
scan_frames-framed_all zero pos [] [] enough short torn = ground arith
scan_frames-framed_all zero pos [] (b ∷ t) enough short torn = absurd (omega arith)
scan_frames-framed_all (suc fuel) pos [] [] enough short torn = ground arith
scan_frames-framed_all (suc fuel) pos [] (b ∷ t) enough short torn =
    ground (arith, scan_frames_torn fuel pos b t torn)
scan_frames-framed_all zero pos (f ∷ fs) tail enough short torn = absurd (
    omega (
      arith,
      length-append (framed f) (framed_all fs),
      length-append (framed f ++ framed_all fs) tail,
      length-framed f,
    ))
scan_frames-framed_all (suc fuel) pos (f ∷ fs) tail enough short torn =
    let assoc : (framed f ++ framed_all fs) ++ tail ≡ framed f ++ (framed_all fs ++ tail) =
      append_assoc (framed f) (framed_all fs) tail in
    let rest =
      scan_frames-framed_all fuel (pos + (4 + length f)) fs tail
        (omega (
          arith,
          ap length assoc,
          length-append (framed f) (framed_all fs ++ tail),
          length-framed f,
        ))
        short.1 torn in
    ap (λ d. scan_frames (suc fuel) d pos) assoc
    ∙ scan_frames-framed fuel pos f (framed_all fs ++ tail) short.0
    ∙ ap (λ (r : List ℕ × ℕ × Bool). (pos ∷ r.0, r.1, r.2)) rest
    ∙ ap (λ n. (pos ∷ offsets (pos + (4 + length f)) fs, n, ltb 0 (length tail)))
        (omega (arith, length-append (framed f) (framed_all fs), length-framed f))
