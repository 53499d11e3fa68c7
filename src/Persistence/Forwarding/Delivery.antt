-- ===== src/Persistence/Forwarding/Delivery.antt =====
-- What the writer delivers (src/persistence/writer.rs), whatever fails.
use koalisi.Common.{
  ℕ, ◌<◌, ◌≡◌, refl, ◌⊎◌, inl, inr, true, List, [], ◌∷◌, ◌++◌, append-nil, append_assoc,
}
use koalisi.Topology.Errors.{Attempt, done, failed}
use koalisi.Persistence.Envelope.{StreamId, Record, StreamHead}
use koalisi.Persistence.Errors.{PersistenceError, stream_wedged}
use koalisi.Persistence.Chain.{Format, IsReadable}
use koalisi.Persistence.Store.{Stream, Fault, append}
use koalisi.Persistence.Store.Contents.{Holds}
use koalisi.Persistence.Store.Scan.{scan_stream}
use koalisi.Persistence.Store.Appending.{append-Outcome, unwritten, appended, cut_short}
use koalisi.Persistence.Store.Recovery.{scan_stream-Holds, scan_stream-append}
use koalisi.Persistence.Forwarding.{write_each}

module _ (format : Format) (stream : StreamId) (segment_max_records : ℕ) where
  -- the record, when its append has answered
  abbrev pub kept_if : Record → Attempt PersistenceError StreamHead → List Record
  kept_if r (done head) = r ∷ []
  kept_if r (failed e) = []

  -- the records whose append has answered
  abbrev pub answered : List (Fault × Record) → Stream → List Record
  answered [] s = []
  answered ((fault, r) ∷ rest) s =
      kept_if r (append format stream segment_max_records fault r s).1
      ++ answered rest (append format stream segment_max_records fault r s).0

  append-wedged :
      (fault : Fault) (r : Record) (s : Stream)
      → s.state.wedged ≡ true
      → append format stream segment_max_records fault r s ≡ (s, failed (stream_wedged stream))
  unfolding append
  append-wedged fault r s wedged = rw wedged refl

  write_each-wedged :
      (items : List (Fault × Record)) (s : Stream)
      → s.state.wedged ≡ true
      → (write_each format stream segment_max_records items s ≡ s) × (answered items s ≡ [])
  unfolding write_each
  write_each-wedged [] s wedged = (refl, refl)
  write_each-wedged ((fault, r) ∷ items) s wedged =
      rw (append-wedged fault r s wedged) (write_each-wedged items s wedged)

  -- The stream holds `rs`, or `rs` and one record more.
  abbrev pub HoldsOneMore : Stream → List Record → Type 0
  HoldsOneMore t rs = Holds format t rs ⊎ ((r : Record) × Holds format t (rs ++ r ∷ []))

  module _ (readable : IsReadable format) (pos : 0 < segment_max_records) where
    -- The writer appends each record once, whatever fails on the way, to segments that hold at
    -- least one record. When the stream is then opened again, it holds what it held before and
    -- after that, in order, the records whose append has answered, and at most one record more.
    pub scan_stream-write_each :
        (items : List (Fault × Record)) (s : Stream) (rs : List Record)
        → Holds format s rs
        → (t : Stream) × (scan_stream format stream
              (write_each format stream segment_max_records items s).files
            ≡ done t)
          × HoldsOneMore t (rs ++ answered items s)
    unfolding write_each
    scan_stream-write_each [] s rs holds =
        (s, scan_stream-Holds format readable stream s rs holds, rw (append-nil rs) (inl holds))
    scan_stream-write_each ((fault, r) ∷ items) s rs holds =
        let out = append-Outcome format stream segment_max_records fault r s rs pos holds in
        let s' = (append format stream segment_max_records fault r s).0 in
        elim out.4 [
          | unwritten e is held why ↦ rw is (scan_stream-write_each items s' rs held)
          | appended f enc is held ↦
              rw (is, ← append_assoc rs (r ∷ []) (answered items s'))
                (scan_stream-write_each items s' (rs ++ r ∷ []) held)
          | cut_short full active f k e faulty filled is wedged files chain longer short ↦
              (let quiet = write_each-wedged items s' wedged in
                let opened =
                  scan_stream-append format readable stream segment_max_records fault r s rs pos
                    holds in
                rw (is, quiet.0, quiet.1, append-nil rs)
                  (
                    opened.0,
                    opened.1,
                    elim opened.2 [ inl held ↦ inr (r, held) | inr held ↦ inl held.0 ],
                  ))
        ]
