-- ===== src/Persistence/Store/Verifying.antt =====
-- Verifying a stream (src/persistence/store.rs): a stream that holds records verifies.
use koalisi.Common.{
  ℕ, zero, suc, ◌+◌, ◌-◌, ◌≤◌, ◌<◌, ◌≡◌, refl, ap, sym, ◌∙◌, Option, none, some, List, [], ◌∷◌,
  arith, All, length, get_elem?, get_elem?-lt, drop, drop-get_elem?, ltb, Bool-cases, inl, inr,
}
use mathlib.Core.Path.{subst}
use koalisi.Topology.Errors.{done}
use koalisi.Persistence.Envelope.{StreamId, Bytes, RecordHash, Record, StoredRecord}
use koalisi.Persistence.Errors.{◌>>=◌}
use koalisi.Persistence.Chain.{Format, IsReadable, hash_frame, check_back_link}
use koalisi.Persistence.Chain.Frames.{hash_eq_refl}
use koalisi.Persistence.Framing.{framed_all}
use koalisi.Persistence.Store.{Stream, read_record, range_from, verify_each, predecessor, verify}
use koalisi.Persistence.Store.Layout.{flat, layout-IsStored, IsFilled, read_frame_bytes_at-index}
use koalisi.Persistence.Store.Reading.{stored, read_record-stored}
use koalisi.Persistence.Store.Contents.{
  IsChain, stored_all, stream_of, Holds, fresh, laid_out, length-stored_all, IsChain-length,
  decode_frame-IsChain,
}

-- Each record is linked to the one before it.
abbrev IsLinked : Option RecordHash → List StoredRecord → Type 0
IsLinked prev [] = Unit
IsLinked prev (x ∷ xs) = (x.prev_hash ≡ prev) × IsLinked (some x.hash) xs

stored_all-IsLinked :
    (format : Format) (n : ℕ) (prev : Option RecordHash) (rs : List Record) (fs : List Bytes)
    → IsLinked prev (stored_all format n prev rs fs)
stored_all-IsLinked format n prev [] fs = tt
stored_all-IsLinked format n prev (r ∷ rs) [] = tt
stored_all-IsLinked format n prev (r ∷ rs) (f ∷ fs) =
    (refl, stored_all-IsLinked format (suc n) (some (hash_frame format f)) rs fs)

drop-IsLinked :
    (prev : Option RecordHash) (xs : List StoredRecord) (p : ℕ) (x : StoredRecord)
    → IsLinked prev xs
    → get_elem? xs p ≡ some x
    → IsLinked (some x.hash) (drop (suc p) xs)
drop-IsLinked prev [] p x h at = absurd (ground arith)
drop-IsLinked prev (y ∷ xs) zero x h at =
    let same : y ≡ x = cc in subst (λ z. IsLinked (some z.hash) xs) same h.1
drop-IsLinked prev (y ∷ xs) (suc p) x h at = drop-IsLinked (some y.hash) xs p x h.1 at

-- the link of the first one
IsLinked-first :
    (prev : Option RecordHash) (xs : List StoredRecord) (x : StoredRecord)
    (rest : List StoredRecord)
    → IsLinked prev xs
    → xs ≡ x ∷ rest
    → x.prev_hash ≡ prev
IsLinked-first prev xs x rest h is = (subst (IsLinked prev) is h).0

pub check_back_link-linked :
    (stream : StreamId) (x : StoredRecord) (prev : Option RecordHash)
    → x.prev_hash ≡ prev
    → check_back_link stream x prev ≡ done tt
unfolding check_back_link
check_back_link-linked stream x prev linked = rw (linked, hash_eq_refl prev) refl

verify_each-linked :
    (format : Format) (stream : StreamId) (s : Stream) (xs : List StoredRecord)
    → ((i : ℕ) (x : StoredRecord)
        → get_elem? xs i ≡ some x
        → read_record format stream s i ≡ done x)
    → (first k : ℕ) (prev : Option RecordHash) → first + k ≤ length xs
    → IsLinked prev (drop first xs)
    → verify_each format stream s (range_from first k) prev ≡ done tt
unfolding verify_each
verify_each-linked format stream s xs agree first zero prev le linked = refl
verify_each-linked format stream s xs agree first (suc k) prev le linked =
    let here = drop-get_elem? first xs (omega arith) in
    let linked_here = subst (IsLinked prev) here.2 linked in
    rw (agree first here.0 here.1, check_back_link-linked stream here.0 prev linked_here.0)
      (verify_each-linked format stream s xs agree (suc first) k (some here.0.hash) (omega arith)
        linked_here.1)

module _ (format : Format) (readable : IsReadable format) (stream : StreamId) where
  module _ (full : List (List Bytes)) (active : List Bytes) (rs : List Record)
      (filled : All IsFilled full) (chain : IsChain format 0 none rs (flat full active)) where
    abbrev kept : List StoredRecord
    kept = stored format readable stream full active rs filled chain

    linked : IsLinked none kept
    linked = stored_all-IsLinked format 0 none rs (flat full active)

    predecessor-stored :
        (p : ℕ) (x : StoredRecord)
        → get_elem? kept p ≡ some x
        → predecessor format stream
            (stream_of format full (framed_all active) active).files
            (stream_of format full (framed_all active) active).state.segments
            (suc p)
          ≡ done (some x.hash)
    unfolding predecessor
    predecessor-stored p x at =
        let frame =
          decode_frame-IsChain format readable stream 0 none rs (flat full active) chain p at in
        rw
          (
            read_frame_bytes_at-index _ stream full active p (layout-IsStored 0 full active filled)
                frame.1 frame.2,
            frame.4,
          )
          refl

    verify_from :
        (first k : ℕ)
        → first < length kept
        → first + k ≤ length kept
        → (predecessor format stream
              (stream_of format full (framed_all active) active).files
              (stream_of format full (framed_all active) active).state.segments
              first
            >>= (λ prev.
                verify_each format stream
                  (stream_of format full (framed_all active) active)
                  (range_from first k)
                  prev))
          ≡ done tt
    unfolding predecessor
    verify_from zero k lt le =
        verify_each-linked format stream _ kept
          (read_record-stored format readable stream full active rs filled chain) 0 k none le linked
    verify_from (suc p) k lt le =
        let before = drop-get_elem? p kept (omega arith) in
        rw (predecessor-stored p before.0 before.1) (
          verify_each-linked format stream _ kept
            (read_record-stored format readable stream full active rs filled chain) (suc p) k
            (some before.0.hash) le (drop-IsLinked none kept p before.0 linked before.1))

    verify-stored :
        (first to : ℕ)
        → 0 < length (flat full active)
        → verify format stream first to (stream_of format full (framed_all active) active) ≡ done tt
    unfolding verify
    verify-stored first to some_records =
        let size = length-stored_all format 0 none rs (flat full active) chain in
        elim (Bool-cases (ltb to (length (flat full active) - 1))) [
          | inl bounded ↦ rw bounded (ground (arith, verify_from first (suc to - first)))
          | inr clamped ↦
              rw clamped
                (ground (arith, verify_from first (suc (length (flat full active) - 1) - first)))
        ]

    -- The link of a record that is stored is what the store computes for it.
    pub predecessor-link :
        (i : ℕ) (x : StoredRecord)
        → get_elem? kept i ≡ some x
        → predecessor format stream
            (stream_of format full (framed_all active) active).files
            (stream_of format full (framed_all active) active).state.segments
            i
          ≡ done x.prev_hash
    unfolding predecessor
    predecessor-link zero x at =
        let here = drop-get_elem? 0 kept (get_elem?-lt kept 0 at) in
        let same : here.0 ≡ x = cc in
        sym (
          ap (λ h. done h)
            (ap (λ y. y.prev_hash) (sym same) ∙ IsLinked-first none kept here.0 _ linked here.2))
    predecessor-link (suc p) x at =
        let before = drop-get_elem? p kept (omega (arith, get_elem?-lt kept (suc p) at)) in
        let here = drop-get_elem? (suc p) kept (get_elem?-lt kept (suc p) at) in
        let same : here.0 ≡ x = cc in
        predecessor-stored p before.0 before.1
        ∙ sym (
            ap (λ h. done h)
              (ap (λ y. y.prev_hash) (sym same)
                ∙ IsLinked-first (some before.0.hash) _ here.0 _
                    (drop-IsLinked none kept p before.0 linked before.1) here.2))

  -- A stream that holds at least one record verifies over every range.
  pub verify-Holds :
      (s : Stream) (rs : List Record) (first to : ℕ)
      → Holds format s rs
      → 0 < length rs
      → verify format stream first to s ≡ done tt
  verify-Holds s rs first to (fresh new none_yet) some_records =
      absurd (omega (arith, ap length none_yet))
  verify-Holds s rs first to (laid_out full active filled is chain) some_records = rw is (
      verify-stored full active rs filled chain first to
        (omega (arith, IsChain-length format 0 none rs (flat full active) chain)))
