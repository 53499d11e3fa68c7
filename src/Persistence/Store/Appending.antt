-- ===== src/Persistence/Store/Appending.antt =====
-- Appending to a stream (src/persistence/store.rs): what each fault leaves behind.
use Prim.Native.String.{String}
use koalisi.Common.{
  ℕ, ◌<◌, ◌≡◌, ◌≢◌, refl, ap, ◌∙◌, inl, inr, true, none, List, [], ◌∷◌, ◌++◌, arith, All, length,
  take, ltb, ltb→lt, Bool-cases, Option-cases,
}
use koalisi.Topology.Errors.{Attempt, done, failed, Attempt-cases}
use koalisi.Persistence.Envelope.{StreamId, Bytes, Record, StreamHead}
use koalisi.Persistence.Errors.{PersistenceError, io, encode}
use koalisi.Persistence.Chain.{Format, map_some, hash_frame, encode_frame}
use koalisi.Persistence.Framing.{framed, framed_all, IsShort, u32_mod}
use koalisi.Persistence.Store.{
  Stream, Fault, rotate_if_needed, append_frame, after_rotation, append,
}
use koalisi.Persistence.Store.Layout.{flat, layout, IsFilled}
use koalisi.Persistence.Store.Contents.{
  new_stream, IsChain, head_after, Holds, fresh, laid_out, IsChain-length,
}
use koalisi.Persistence.Store.Rotation.{
  no_fault, whole, Rotated, refused, roomy, rotate_if_needed-fresh, rotate_if_needed-whole,
}
use koalisi.Persistence.Store.Writing.{append_frame-whole, append_frame-torn}
use koalisi.Persistence.Store.Growth.{flat-append, IsChain-one}

module _ (format : Format) where
  -- the frame of a record after others
  abbrev frame_after : Record → List Bytes → Attempt PersistenceError Bytes
  frame_after r fs =
      encode_frame format r (length fs) (map_some (λ h. h.hash) (head_after format 0 none fs))

  flat-IsChain :
      (full : List (List Bytes)) (active : List Bytes) (rs : List Record) (r : Record) (f : Bytes)
      → IsChain format 0 none rs (flat full active)
      → frame_after r (flat full active) ≡ done f
      → IsShort f
      → IsChain format 0 none (rs ++ r ∷ []) (flat full (active ++ f ∷ []))
  flat-IsChain full active rs r f chain enc short = rw (flat-append full active (f ∷ [])) (
      IsChain-one format 0 none rs (flat full active) r f chain
        (ap
            (λ n.
              encode_frame format r n
                (map_some (λ h. h.hash) (head_after format 0 none (flat full active))))
            (omega arith)
          ∙ enc)
        short)

  module _ (stream : StreamId) where
    -- What an append comes to.
    pub data Outcome (fault : Fault) (r : Record) (fs : List Bytes) (rs : List Record)
        (out : Stream × Attempt PersistenceError StreamHead) : Type 0 where
      unwritten :
          (e : PersistenceError)
          → out.1 ≡ failed e
          → Holds format out.0 rs
          → ((f : Bytes) → fault ≡ no_fault → frame_after r fs ≡ done f → IsShort f → ⊥)
          → Outcome fault r fs rs out
      appended :
          (f : Bytes)
          → frame_after r fs ≡ done f
          → out.1 ≡ done (record { seq = length fs; hash = hash_frame format f })
          → Holds format out.0 (rs ++ r ∷ [])
          → Outcome fault r fs rs out
      cut_short :
          (full : List (List Bytes)) (active : List Bytes) (f : Bytes) (k : ℕ) (e : String)
          → fault ≢ no_fault
          → All IsFilled full
          → out.1 ≡ failed (io e)
          → out.0.state.wedged ≡ true
          → out.0.files ≡ layout 0 full (framed_all active ++ take k (framed f))
          → IsChain format 0 none rs (flat full active)
          → IsChain format 0 none (rs ++ r ∷ []) (flat full (active ++ f ∷ []))
          → IsShort f
          → Outcome fault r fs rs out

    append_frame-Outcome :
        (fault : Fault) (r : Record) (rs : List Record) (full : List (List Bytes))
        (active : List Bytes)
        → All IsFilled full
        → IsChain format 0 none rs (flat full active)
        → Outcome fault r (flat full active) rs (
            append_frame format stream fault
              (whole format full active)
              (frame_after r (flat full active)))
    unfolding append_frame
    append_frame-Outcome fault r rs full active filled chain =
        elim (Attempt-cases (frame_after r (flat full active))) [
          | inr bad ↦
              unwritten bad.0 (rw bad.1 refl) (rw bad.1 (laid_out full active filled refl chain))
                (λ f none_fails enc short. absurd (ground arith))
          | inl good ↦ elim (Bool-cases (ltb (length good.0) u32_mod)) [
            | inr long ↦
                unwritten (encode "frame exceeds u32 length prefix") (rw (good.1, long) refl)
                  (rw (good.1, long) (laid_out full active filled refl chain))
                  (λ f none_fails enc short. absurd (ground arith))
            | inl short ↦ elim (Option-cases fault.writing) [
              | inl free ↦
                  rw
                    (
                      good.1,
                      append_frame-whole format stream fault full active good.0 filled
                          (ltb→lt _ _ short) free,
                    )
                    (appended good.0 good.1 refl (
                      laid_out full (active ++ good.0 ∷ []) filled refl
                        (flat-IsChain full active rs r good.0 chain good.1 (ltb→lt _ _ short))))
              | inr fails ↦
                  rw
                    (
                      good.1,
                      append_frame-torn format stream fault full active good.0 fails.0 filled
                          (ltb→lt _ _ short) fails.1,
                    )
                    (cut_short full active good.0 fails.0.0 fails.0.1
                      (λ none_fails. absurd (ground (arith, ap (λ x. x.writing) none_fails))) filled
                      refl refl refl chain
                      (flat-IsChain full active rs r good.0 chain good.1 (ltb→lt _ _ short))
                      (ltb→lt _ _ short))
            ]
          ]
        ]

    after_rotation-Outcome :
        (fault : Fault) (r : Record) (s : Stream) (rs : List Record) (fs : List Bytes)
        (out : Stream × Attempt PersistenceError (Unit {0}))
        → Rotated format fault s fs out
        → Holds format s rs
        → IsChain format 0 none rs fs
        → Outcome fault r fs rs (after_rotation format stream fault r out)
    unfolding after_rotation
    after_rotation-Outcome fault r s rs fs out (refused e is why) holds chain = rw is (
        unwritten (io e) refl holds (λ f none_fails enc short. elim why [
          | inl broken ↦ absurd (ground (arith, ap (λ x. x.sync) none_fails))
          | inr broken ↦ absurd (ground (arith, ap (λ x. x.opening) none_fails))
        ]))
    after_rotation-Outcome fault r s rs fs out (roomy full active filled is same) holds chain =
        rw (is, ← same) (append_frame-Outcome fault r rs full active filled (rw same chain))

    pub append-Outcome :
        (max : ℕ) (fault : Fault) (r : Record) (s : Stream) (rs : List Record)
        → 0 < max
        → Holds format s rs
        → (fs : List Bytes) × IsChain format 0 none rs fs
          × (s.state.next_seq ≡ length fs)
          × (s.state.head ≡ head_after format 0 none fs)
          × Outcome fault r fs rs (append format stream max fault r s)
    unfolding append
    append-Outcome max fault r s rs pos (fresh new none_yet) =
        rw (new, none_yet)
          (
            [],
            tt,
            refl,
            refl,
            after_rotation-Outcome fault r new_stream [] [] (rotate_if_needed max fault new_stream)
                (rotate_if_needed-fresh format max fault) (fresh refl refl) tt,
          )
    append-Outcome max fault r s rs pos (laid_out full active filled is chain) = (
      flat full active,
      chain,
      ap (λ x. x.state.next_seq) is,
      ap (λ x. x.state.head) is,
      rw is (
          after_rotation-Outcome fault r (whole format full active) rs (flat full active)
            (rotate_if_needed max fault (whole format full active))
            (rotate_if_needed-whole format max fault full active pos filled)
            (laid_out full active filled refl chain) chain),
    )

    -- When nothing fails, segments hold at least one record, the record can be encoded and its
    -- frame is shorter than 2 ^ 32 bytes, an append to a stream that holds `rs` answers with the
    -- next number and the hash of the frame, and the stream then holds `rs` and the record after
    -- them.
    pub append-Holds :
        (max : ℕ) (r : Record) (s : Stream) (rs : List Record) (f : Bytes)
        → 0 < max
        → Holds format s rs
        → encode_frame format r s.state.next_seq (map_some (λ h. h.hash) s.state.head) ≡ done f
        → IsShort f
        → ((append format stream max no_fault r s).1
            ≡ done (record { seq = length rs; hash = hash_frame format f }))
          × Holds format (append format stream max no_fault r s).0 (rs ++ r ∷ [])
    append-Holds max r s rs f pos holds enc short =
        let out = append-Outcome max no_fault r s rs pos holds in
        let same : frame_after r out.0 ≡ done f = rw (← out.2, ← out.3) enc in
        let size = IsChain-length format 0 none rs out.0 out.1 in
        elim out.4 [
          | unwritten e is held why ↦ absurd (why f refl same short)
          | appended g enc' is held ↦
              (let same_frame : f ≡ g = ground arith in (rw (size, same_frame) is, held))
          | cut_short full active g k e fault _ _ _ _ _ _ _ ↦ absurd (fault refl)
        ]
