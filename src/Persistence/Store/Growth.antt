-- ===== src/Persistence/Store/Growth.antt =====
-- How the layout of a stream grows (src/persistence/store.rs): by a frame at the end of the active
-- segment, and by a new segment after it.
use koalisi.Common.{
  ℕ, suc, ◌+◌, ◌≤◌, ◌<◌, ◌≡◌, refl, ap, sym, ◌∙◌, Option, some, List, [], ◌∷◌, ◌++◌, append_assoc,
  append-nil, arith, All, length, length-append, last?, leb,
}
use koalisi.Common.SortedMap.{update}
use koalisi.Topology.Errors.{done}
use koalisi.Persistence.Envelope.{Bytes, Record, StreamHead}
use koalisi.Persistence.Chain.{Format, map_some, hash_frame, encode_frame}
use koalisi.Persistence.Framing.{framed, framed_all, offsets, length-framed, IsShort}
use koalisi.Persistence.Store.{
  SegmentIndex, Files, open_file, append_bytes, need_new, push_offset, push_offset_from,
}
use koalisi.Persistence.Store.Layout.{flat, layout, segment, index, IsFilled, length-offsets}
use koalisi.Persistence.Store.Contents.{active_start, IsChain, head_after}

pub framed_all-append :
    (fs gs : List Bytes) → framed_all (fs ++ gs) ≡ framed_all fs ++ framed_all gs
unfolding framed_all
framed_all-append [] gs = refl
framed_all-append (f ∷ fs) gs =
    ap (λ t. framed f ++ t) (framed_all-append fs gs)
    ∙ sym (append_assoc (framed f) (framed_all fs) (framed_all gs))

pub framed_all-one :
    (fs : List Bytes) (f : Bytes) → framed_all (fs ++ f ∷ []) ≡ framed_all fs ++ framed f
unfolding framed_all
framed_all-one fs f =
    framed_all-append fs (f ∷ []) ∙ ap (λ t. framed_all fs ++ t) (append-nil (framed f))

pub length-framed_all-one :
    (fs : List Bytes) (f : Bytes)
    → length (framed_all (fs ++ f ∷ [])) ≡ length (framed_all fs) + (4 + length f)
length-framed_all-one fs f =
    ap length (framed_all-one fs f)
    ∙ omega (arith, length-append (framed_all fs) (framed f), length-framed f)

offsets-one :
    (pos : ℕ) (fs : List Bytes) (f : Bytes)
    → offsets pos (fs ++ f ∷ []) ≡ offsets pos fs ++ (pos + length (framed_all fs)) ∷ []
unfolding framed_all
offsets-one pos [] f = ap (λ p. p ∷ []) (omega arith)
offsets-one pos (g ∷ fs) f =
    ap (λ t. pos ∷ t)
      (offsets-one (pos + (4 + length g)) fs f
        ∙ ap (λ p. offsets (pos + (4 + length g)) fs ++ p ∷ [])
            (omega (arith, length-append (framed g) (framed_all fs), length-framed g)))

pub flat-append :
    (full : List (List Bytes)) (active fs : List Bytes)
    → flat full (active ++ fs) ≡ flat full active ++ fs
flat-append [] active fs = refl
flat-append (c ∷ full) active fs =
    ap (λ t. c ++ t) (flat-append full active fs) ∙ sym (append_assoc c (flat full active) fs)

pub flat-closed :
    (full : List (List Bytes)) (active : List Bytes)
    → flat (full ++ active ∷ []) [] ≡ flat full active
flat-closed [] active = append-nil active
flat-closed (c ∷ full) active = ap (λ t. c ++ t) (flat-closed full active)

-- A frame more in the active segment.
push_offset_from-index :
    (k n : ℕ) (seg : SegmentIndex) (full : List (List Bytes)) (active : List Bytes)
    → push_offset_from k seg (index n full active) ≡ seg ∷ push_offset k (index n full active)
unfolding push_offset push_offset_from
push_offset_from-index k n seg [] active = refl
push_offset_from-index k n seg (c ∷ full) active = refl

pub push_offset-index :
    (n : ℕ) (full : List (List Bytes)) (active : List Bytes) (f : Bytes)
    → push_offset (length (framed_all active)) (index n full active)
      ≡ index n full (active ++ f ∷ [])
unfolding push_offset push_offset_from
push_offset-index n [] active f =
    ap (λ o. record { first_seq = n; frame_offsets = o } ∷ [])
      (sym (offsets-one 0 active f ∙ ap (λ p. offsets 0 active ++ p ∷ []) (omega arith)))
push_offset-index n (c ∷ full) active f =
    push_offset_from-index (length (framed_all active)) (n + length c) (segment n c) full active
    ∙ ap (λ t. segment n c ∷ t) (push_offset-index (n + length c) full active f)

active_start-le : (n : ℕ) (full : List (List Bytes)) → n ≤ active_start n full
active_start-le n [] = omega arith
active_start-le n (c ∷ full) = omega (arith, active_start-le (n + length c) full)

pub append_bytes-layout :
    (n : ℕ) (full : List (List Bytes)) (last bytes : Bytes)
    → All IsFilled full
    → append_bytes (active_start n full) bytes (layout n full last) ≡ layout n full (last ++ bytes)
unfolding append_bytes update
append_bytes-layout n [] last bytes filled = ground arith
append_bytes-layout n (c ∷ full) last bytes filled =
    let above = active_start-le (n + length c) full in
    let nonempty = filled.0 in ground (arith, append_bytes-layout (n + length c) full last bytes)

pub head_after-one :
    (format : Format) (n : ℕ) (head : Option StreamHead) (fs : List Bytes) (f : Bytes)
    → head_after format n head (fs ++ f ∷ [])
      ≡ some (record { seq = n + length fs; hash = hash_frame format f })
head_after-one format n head [] f =
    ap (λ m. some (record { seq = m; hash = hash_frame format f })) (omega arith)
head_after-one format n head (g ∷ fs) f =
    head_after-one format (suc n) (some (record { seq = n; hash = hash_frame format g })) fs f
    ∙ ap (λ m. some (record { seq = m; hash = hash_frame format f })) (omega arith)

-- A chain goes on with a frame that is linked to its last one.
pub IsChain-one :
    (format : Format) (n : ℕ) (head : Option StreamHead) (rs : List Record) (fs : List Bytes)
    (r : Record) (f : Bytes)
    → IsChain format n (map_some (λ h. h.hash) head) rs fs
    → encode_frame format r (n + length fs) (map_some (λ h. h.hash) (head_after format n head fs))
      ≡ done f
    → IsShort f
    → IsChain format n (map_some (λ h. h.hash) head) (rs ++ r ∷ []) (fs ++ f ∷ [])
IsChain-one format n head [] [] r f chain enc short =
    (ap (λ m. encode_frame format r m (map_some (λ h. h.hash) head)) (omega arith) ∙ enc, short, tt)
IsChain-one format n head [] (g ∷ fs) r f chain enc short = absurd chain
IsChain-one format n head (q ∷ rs) [] r f chain enc short = absurd chain
IsChain-one format n head (q ∷ rs) (g ∷ fs) r f chain enc short = (
  chain.0,
  chain.1,
  IsChain-one format (suc n) (some (record { seq = n; hash = hash_frame format g })) rs fs r f
      chain.2
      (ap
          (λ m. encode_frame format r m (
            map_some (λ h. h.hash)
              (head_after format (suc n) (some (record { seq = n; hash = hash_frame format g }))
                fs)))
          (omega arith)
        ∙ enc)
      short,
)

open_file_past :
    (k j : ℕ) (v : Bytes) (m : Files) → j < k → open_file k ((j, v) ∷ m) ≡ (j, v) ∷ open_file k m
unfolding open_file update
open_file_past k j v m lt = ground arith

-- A segment more, after an active one that has frames.
pub open_file-layout :
    (n : ℕ) (full : List (List Bytes)) (active : List Bytes)
    → All IsFilled full
    → IsFilled active
    → open_file (n + length (flat full active)) (layout n full (framed_all active))
      ≡ layout n (full ++ active ∷ []) []
unfolding open_file update
open_file-layout n [] active filled nonempty = ground arith
open_file-layout n (c ∷ full) active filled nonempty =
    let size = length-append c (flat full active) in
    let some_frames = filled.0 in
    open_file_past (n + length (c ++ flat full active)) n (framed_all c) _ (omega arith)
    ∙ ap (λ m. (n, framed_all c) ∷ m)
        (ap (λ k. open_file k (layout (n + length c) full (framed_all active))) (omega arith)
          ∙ open_file-layout (n + length c) full active filled.1 nonempty)

pub index-closed :
    (n : ℕ) (full : List (List Bytes)) (active : List Bytes)
    → index n (full ++ active ∷ []) []
      ≡ index n full active
        ++ record { first_seq = n + length (flat full active); frame_offsets = [] } ∷ []
index-closed n [] active = refl
index-closed n (c ∷ full) active =
    ap (λ t. segment n c ∷ t)
      (index-closed (n + length c) full active
        ∙ ap
            (λ m.
              index (n + length c) full active ++ record { first_seq = m; frame_offsets = [] } ∷ [])
            (omega (arith, length-append c (flat full active))))

pub active_start-closed :
    (n : ℕ) (full : List (List Bytes)) (active : List Bytes)
    → active_start n (full ++ active ∷ []) ≡ n + length (flat full active)
active_start-closed n [] active = refl
active_start-closed n (c ∷ full) active =
    active_start-closed (n + length c) full active
    ∙ omega (arith, length-append c (flat full active))

pub last?-index :
    (n : ℕ) (full : List (List Bytes)) (active : List Bytes)
    → last? (index n full active) ≡ some (segment (active_start n full) active)
last?-index n [] active = refl
last?-index n (c ∷ full) active = rw (last?-index (n + length c) full active) refl

pub need_new-index :
    (max n : ℕ) (full : List (List Bytes)) (active : List Bytes)
    → need_new max (index n full active) ≡ leb max (length active)
unfolding need_new
need_new-index max n full active =
    rw (need_new, last?-index n full active) (ap (leb max) (length-offsets 0 active))
