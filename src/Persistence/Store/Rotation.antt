-- ===== src/Persistence/Store/Rotation.antt =====
-- The rotation of a stream's segments before an append (src/persistence/store.rs): a fault refuses
-- it, or the active segment then has room.
use Prim.Native.String.{String}
use koalisi.Common.{
  ℕ, ◌+◌, ◌<◌, ◌≡◌, refl, ap, sym, ◌∙◌, ◌⊎◌, inl, inr, none, some, List, [], ◌∷◌, ◌++◌, arith, All,
  All-append, length, leb, Bool-cases, Option-cases,
}
use koalisi.Common.SortedMap.{update}
use koalisi.Topology.Errors.{Attempt, done, failed}
use koalisi.Persistence.Envelope.{Bytes}
use koalisi.Persistence.Errors.{PersistenceError, io}
use koalisi.Persistence.Chain.{Format}
use koalisi.Persistence.Framing.{framed_all}
use koalisi.Persistence.Store.{Stream, Fault, open_file, need_new, open_segment, rotate_if_needed}
use koalisi.Persistence.Store.Layout.{flat, layout, index, IsFilled}
use koalisi.Persistence.Store.Contents.{new_stream, stream_of}
use koalisi.Persistence.Store.Growth.{
  flat-closed, open_file-layout, index-closed, active_start-closed, need_new-index,
}

abbrev pub no_fault : Fault
no_fault = record { sync = none; opening = none; writing = none }

module _ (format : Format) where
  -- a stream whose segments are laid out, with nothing torn
  abbrev pub whole : List (List Bytes) → List Bytes → Stream
  whole full active = stream_of format full (framed_all active) active

  -- The rotation is refused by a fault, or there is room for a frame.
  pub data Rotated (fault : Fault) (s : Stream) (fs : List Bytes)
      (out : Stream × Attempt PersistenceError (Unit {0})) : Type 0 where
    refused :
        (e : String)
        → out ≡ (s, failed (io e))
        → fault.sync ≡ some e ⊎ fault.opening ≡ some e
        → Rotated fault s fs out
    roomy :
        (full : List (List Bytes)) (active : List Bytes)
        → All IsFilled full
        → out ≡ (whole full active, done tt)
        → flat full active ≡ fs
        → Rotated fault s fs out

  open_segment-whole :
      (fault : Fault) (full : List (List Bytes)) (active : List Bytes)
      → All IsFilled full
      → IsFilled active
      → fault.opening ≡ none
      → open_segment fault (whole full active) ≡ (whole (full ++ active ∷ []) [], done tt)
  unfolding open_segment framed_all
  open_segment-whole fault full active filled nonempty free =
      let size : 0 + length (flat full active) ≡ length (flat full active) = omega arith in
      let files =
        ap (λ k. open_file k (layout 0 full (framed_all active))) (sym size)
        ∙ open_file-layout 0 full active filled nonempty in
      let segments =
        index-closed 0 full active
        ∙ ap (λ k. index 0 full active ++ record { first_seq = k; frame_offsets = [] } ∷ []) size in
      let start = active_start-closed 0 full active ∙ size in
      rw (free, files, segments, start, flat-closed full active) refl

  open_segment-new :
      (fault : Fault)
      → fault.opening ≡ none
      → open_segment fault new_stream ≡ (whole [] [], done tt)
  unfolding open_segment open_file update framed_all
  open_segment-new fault free = rw free refl

  pub rotate_if_needed-fresh :
      (max : ℕ) (fault : Fault)
      → Rotated fault new_stream [] (rotate_if_needed max fault new_stream)
  unfolding rotate_if_needed need_new open_segment
  rotate_if_needed-fresh max fault = elim (Option-cases fault.opening) [
    | inl free ↦ roomy [] [] tt (open_segment-new fault free) refl
    | inr broken ↦ refused broken.0 (rw (open_segment, broken.1) refl) (inr broken.1)
  ]

  pub rotate_if_needed-whole :
      (max : ℕ) (fault : Fault) (full : List (List Bytes)) (active : List Bytes)
      → 0 < max
      → All IsFilled full
      → Rotated fault
          (whole full active)
          (flat full active)
          (rotate_if_needed max fault (whole full active))
  unfolding rotate_if_needed open_segment
  rotate_if_needed-whole max fault full active pos filled =
      elim (Bool-cases (leb max (length active))) [
        | inr room ↦
            roomy full active filled
              (rw (rotate_if_needed, need_new-index max 0 full active, room) refl) refl
        | inl no_room ↦ elim (Option-cases fault.sync) [
          | inr broken ↦
              refused broken.0
                (rw (rotate_if_needed, need_new-index max 0 full active, no_room, broken.1) refl)
                (inl broken.1)
          | inl synced ↦ elim (Option-cases fault.opening) [
            | inr broken ↦
                refused broken.0
                  (rw
                    (
                      rotate_if_needed,
                      need_new-index max 0 full active,
                      no_room,
                      synced,
                      open_segment,
                      broken.1,
                    )
                    refl)
                  (inr broken.1)
            | inl free ↦
                roomy (full ++ active ∷ []) []
                  (All-append IsFilled full (active ∷ []) filled (ground arith, tt))
                  (rw (rotate_if_needed, need_new-index max 0 full active, no_room, synced)
                    (open_segment-whole fault full active filled (ground arith) free))
                  (flat-closed full active)
          ]
        ]
      ]
