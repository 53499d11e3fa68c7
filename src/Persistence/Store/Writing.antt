-- ===== src/Persistence/Store/Writing.antt =====
-- Writing a frame at the end of a laid out stream (src/persistence/store.rs): whole, or torn.
use Prim.Native.String.{String}
use koalisi.Common.{
  ℕ, ◌+◌, ◌≡◌, refl, ap, sym, ◌∙◌, true, none, some, List, [], ◌∷◌, ◌++◌, arith, All, length,
  length-append, take, ltb,
}
use koalisi.Topology.Errors.{done, failed}
use koalisi.Persistence.Envelope.{StreamId, Bytes}
use koalisi.Persistence.Errors.{io}
use koalisi.Persistence.Chain.{Format, hash_frame}
use koalisi.Persistence.Framing.{framed, framed_all, IsShort, u32_mod}
use koalisi.Persistence.Store.{Fault, write_frame, written, append_frame}
use koalisi.Persistence.Store.Layout.{flat, layout, IsFilled}
use koalisi.Persistence.Store.Contents.{head_after}
use koalisi.Persistence.Store.Rotation.{whole}
use koalisi.Persistence.Store.Growth.{
  framed_all-one, length-framed_all-one, flat-append, push_offset-index, append_bytes-layout,
  head_after-one,
}

module _ (format : Format) where
  write_frame-whole :
      (fault : Fault) (full : List (List Bytes)) (active : List Bytes) (f : Bytes)
      → All IsFilled full
      → fault.writing ≡ none
      → write_frame fault f (whole format full active)
        ≡ (layout 0 full (framed_all (active ++ f ∷ [])), done tt)
  unfolding write_frame
  write_frame-whole fault full active f filled free = rw free (
      ap (λ m. (m, done tt))
        (append_bytes-layout 0 full (framed_all active) (framed f) filled
          ∙ ap (layout 0 full) (sym (framed_all-one active f))))

  write_frame-torn :
      (fault : Fault) (full : List (List Bytes)) (active : List Bytes) (f : Bytes)
      (torn : ℕ × String)
      → All IsFilled full
      → fault.writing ≡ some torn
      → write_frame fault f (whole format full active)
        ≡ (layout 0 full (framed_all active ++ take torn.0 (framed f)), failed (io torn.1))
  unfolding write_frame
  write_frame-torn fault full active f torn filled fails = rw fails (
      ap (λ m. (m, failed (io torn.1)))
        (append_bytes-layout 0 full (framed_all active) (take torn.0 (framed f)) filled))

  module _ (stream : StreamId) where
    pub append_frame-whole :
        (fault : Fault) (full : List (List Bytes)) (active : List Bytes) (f : Bytes)
        → All IsFilled full
        → IsShort f
        → fault.writing ≡ none
        → append_frame format stream fault (whole format full active) (done f) ≡ (
          whole format full (active ++ f ∷ []),
          done (record { seq = length (flat full active); hash = hash_frame format f }),
        )
    unfolding append_frame written
    append_frame-whole fault full active f filled short free =
        let size : length (flat full (active ++ f ∷ [])) ≡ length (flat full active) + 1 =
          ap length (flat-append full active (f ∷ []))
          ∙ omega (arith, length-append (flat full active) (f ∷ [])) in
        let head =
          ap (head_after format 0 none) (flat-append full active (f ∷ []))
          ∙ head_after-one format 0 none (flat full active) f
          ∙ ap (λ k. some (record { seq = k; hash = hash_frame format f })) (omega arith) in
        let small : ltb (length f) u32_mod ≡ true = ground arith in
        rw
          (
            small,
            write_frame-whole fault full active f filled free,
            push_offset-index 0 full active f,
            length-framed_all-one active f,
            size,
            head,
          )
          refl

    pub append_frame-torn :
        (fault : Fault) (full : List (List Bytes)) (active : List Bytes) (f : Bytes)
        (torn : ℕ × String)
        → All IsFilled full
        → IsShort f
        → fault.writing ≡ some torn
        → append_frame format stream fault (whole format full active) (done f) ≡ (
          record {
            files = layout 0 full (framed_all active ++ take torn.0 (framed f));
            state = record (whole format full active).state { wedged = true };
          },
          failed (io torn.1),
        )
    unfolding append_frame written
    append_frame-torn fault full active f torn filled short fails =
        let small : ltb (length f) u32_mod ≡ true = ground arith in
        rw (small, write_frame-torn fault full active f torn filled fails) refl
