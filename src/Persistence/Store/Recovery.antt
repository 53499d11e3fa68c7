-- ===== src/Persistence/Store/Recovery.antt =====
-- Opening a store again (`scan_stream` of src/persistence/store.rs): what a stream comes back as,
-- also after a write that did not end.
use koalisi.Common.{
  ℕ, suc, ◌-◌, ◌<◌, ◌≡◌, refl, ap, sym, ◌∙◌, ◌⊎◌, inl, inr, List, [], ◌∷◌, ◌++◌, append-nil, arith,
  length, take, length-take, take_all, ltb, ltb→lt, Bool-cases,
}
use koalisi.Topology.Errors.{done, failed}
use koalisi.Persistence.Envelope.{StreamId, Bytes, Record}
use koalisi.Persistence.Errors.{PersistenceError, io}
use koalisi.Persistence.Chain.{Format, IsReadable}
use koalisi.Persistence.Framing.{
  to_le_bytes, from_le_bytes, framed, framed_all, IsShort, IsTorn, length-framed,
}
use koalisi.Persistence.Store.{Stream, Fault, append}
use koalisi.Persistence.Store.Scan.{scan_segments, compute_head, scan_stream}
use koalisi.Persistence.Store.Layout.{layout}
use koalisi.Persistence.Store.Contents.{stream_of, Holds, fresh, laid_out}
use koalisi.Persistence.Store.Growth.{framed_all-one}
use koalisi.Persistence.Store.Reopening.{scan_stream-layout}
use koalisi.Persistence.Store.Appending.{append-Outcome, unwritten, appended, cut_short}

module _ (format : Format) (readable : IsReadable format) (stream : StreamId) where
  -- what a write that did not end has left of a frame
  from_le_bytes-take :
      (j : ℕ) (f : Bytes)
      → IsShort f
      → from_le_bytes (take (suc (suc (suc (suc j)))) (framed f)) ≡ length f
  unfolding from_le_bytes framed to_le_bytes
  from_le_bytes-take j f short = omega arith

  take-framed-IsTorn :
      (k : ℕ) (f : Bytes) → IsShort f → k < length (framed f) → IsTorn (take k (framed f))
  take-framed-IsTorn k f short lt =
      let size = length-take k (framed f) (omega arith) in
      let whole = length-framed f in
      elim (Bool-cases (ltb k 4)) [
        | inl few ↦ omega (arith, ltb→lt k 4 few)
        | inr enough ↦
            (let j : suc (suc (suc (suc (k - 4)))) ≡ k = ground arith in
              let prefix =
                ap (λ i. from_le_bytes (take i (framed f))) (sym j)
                ∙ from_le_bytes-take (k - 4) f short in
              omega arith)
      ]

  -- A stream that holds records comes back from its files as it was, state and all.
  pub scan_stream-Holds :
      (s : Stream) (rs : List Record)
      → Holds format s rs
      → scan_stream format stream s.files ≡ done s
  unfolding scan_stream scan_segments compute_head
  scan_stream-Holds s rs (fresh new none_yet) = rw new refl
  scan_stream-Holds s rs (laid_out full active filled is chain) = rw is (
      ap (λ t. scan_stream format stream (layout 0 full t)) (sym (append-nil (framed_all active)))
      ∙ scan_stream-layout format readable stream full active [] rs filled chain (ground arith))

  -- A store whose segments hold at least one record is opened again after an append, whatever has
  -- failed in it and however many bytes of the frame have reached the file: the stream then holds
  -- what it held before, or that and the new record. After an append that has answered, it holds
  -- both.
  pub scan_stream-append :
      (max : ℕ) (fault : Fault) (r : Record) (s : Stream) (rs : List Record)
      → 0 < max
      → Holds format s rs
      → (t : Stream) × (scan_stream format stream (append format stream max fault r s).0.files
          ≡ done t)
        × (Holds format t (rs ++ r ∷ [])
            ⊎ (Holds format t rs
                × ((e : PersistenceError) × ((append format stream max fault r s).1 ≡ failed e))))
  scan_stream-append max fault r s rs pos holds =
      let out = append-Outcome format stream max fault r s rs pos holds in
      elim out.4 [
        | unwritten e is held why ↦ (
          (append format stream max fault r s).0,
          scan_stream-Holds _ rs held,
          inr (held, (e, is)),
        )
        | appended f enc is held ↦
            ((append format stream max fault r s).0, scan_stream-Holds _ _ held, inl held)
        | cut_short full active f k e faulty filled is wedged files chain longer short ↦
            elim (Bool-cases (ltb k (length (framed f)))) [
              | inl lt ↦ (
                stream_of format full (framed_all active) active,
                ap (scan_stream format stream) files
                    ∙ scan_stream-layout format readable stream full active (take k (framed f)) rs
                        filled chain (take-framed-IsTorn k f short (ltb→lt _ _ lt)),
                inr (laid_out full active filled refl chain, (io e, is)),
              )
              | inr ge ↦ (
                stream_of format full (framed_all (active ++ f ∷ [])) (active ++ f ∷ []),
                ap (scan_stream format stream) (
                      files
                      ∙ ap (λ t. layout 0 full (framed_all active ++ t))
                          (take_all k (framed f) (ground arith))
                      ∙ ap (layout 0 full) (sym (framed_all-one active f) ∙ sym (append-nil _)))
                    ∙ scan_stream-layout format readable stream full (active ++ f ∷ []) []
                        (rs ++ r ∷ []) filled longer (ground arith),
                inl (laid_out full (active ++ f ∷ []) filled refl longer),
              )
            ]
      ]
