-- ===== src/Persistence/Chain/Frames.antt =====
-- A record that is framed comes back (src/persistence/chain.rs).
use koalisi.Common.{
  ◌≡◌, refl, ap, true, Option, none, some, List, [], ◌∷◌, map, arith, ==_refl, All-of,
}
use koalisi.Topology.Errors.{Attempt, done, failed}
use koalisi.Persistence.Envelope.{
  StreamId, to_u8, SequenceNo, Bytes, RecordHash, sha256, HashAlgorithm, Payload, EventRef, Record,
  from_u8-to_u8,
}
use koalisi.Persistence.Errors.{
  PersistenceError, collect, map_err, encode, decode, unknown_parent_stream, collect-done,
}
use koalisi.Persistence.Chain.{
  Format, IsReadable, frame_payload, record_payload, map_some, of_digest, frame_of, parent_from,
  bytes_eq, hash_eq, hash_frame, encode_frame, stored_from, decode_frame,
}

pub bytes_eq_refl : (bs : Bytes) → bytes_eq bs bs ≡ true
bytes_eq_refl [] = refl
bytes_eq_refl (b ∷ bs) = rw (==_refl, bytes_eq_refl bs)

pub bytes_eq_sound : (xs ys : Bytes) → bytes_eq xs ys ≡ true → xs ≡ ys
bytes_eq_sound [] [] h = refl
bytes_eq_sound [] (y ∷ ys) h = absurd (ground arith)
bytes_eq_sound (x ∷ xs) [] h = absurd (ground arith)
bytes_eq_sound (x ∷ xs) (y ∷ ys) h = ground (arith, bytes_eq_sound xs ys)

pub hash_eq_refl : (h : Option RecordHash) → hash_eq h h ≡ true
hash_eq_refl none = refl
hash_eq_refl (some h) = bytes_eq_refl h.digest

record_payload-frame_payload : (p : Payload) → record_payload (frame_payload p) ≡ p
record_payload-frame_payload (Payload.plain bytes) = refl
record_payload-frame_payload (Payload.sealed key nonce text) = refl

parent_back :
    (stream : StreamId) (seq : SequenceNo) (p : EventRef)
    → parent_from stream seq (to_u8 p.stream, p.seq) ≡ done p
unfolding parent_from
parent_back stream seq p =
    ap
      (λ o. elim o as (λ _. Attempt PersistenceError EventRef) [
        | none ↦ failed (decode stream seq (unknown_parent_stream (to_u8 p.stream)))
        | some pstream ↦ done (record { stream = pstream; seq = p.seq })
      ])
      (from_u8-to_u8 p.stream)

parents_back :
    (stream : StreamId) (seq : SequenceNo) (ps : List EventRef)
    → collect (parent_from stream seq) (map (λ p. (to_u8 p.stream, p.seq)) ps) ≡ done ps
parents_back stream seq ps =
    collect-done (parent_from stream seq) (λ p. (to_u8 p.stream, p.seq)) (λ p. Unit)
      (λ p _. parent_back stream seq p) ps (All-of _ (λ p. tt) ps)

only_sha256 : (a : HashAlgorithm) → sha256 ≡ a
only_sha256 sha256 = refl

of_digest-digest : (h : Option RecordHash) → map_some of_digest (map_some (λ h. h.digest) h) ≡ h
of_digest-digest none = refl
of_digest-digest (some h) =
    λ i. some (record { algorithm = only_sha256 h.algorithm i; digest = h.digest })

map_err-done :
    {E F A : Type 0} (f : E → F) (m : Attempt E A) (a : A) → map_err f m ≡ done a → m ≡ done a
map_err-done f (done b) a h = ground arith
map_err-done f (failed e) a h = absurd (ground arith)

module _ (format : Format) (readable : IsReadable format) where
  stored_from-frame_of :
      (stream : StreamId) (r : Record) (seq : SequenceNo) (prev : Option RecordHash) (bytes : Bytes)
      → stored_from format bytes stream seq (frame_of r seq prev)
        ≡ done
            (record { seq = seq; prev_hash = prev; hash = hash_frame format bytes; contents = r })
  unfolding stored_from
  stored_from-frame_of stream r seq prev bytes =
      rw (==_refl seq, parents_back, of_digest-digest, record_payload-frame_payload)

  -- A record that could be framed is read back from its frame, at its place: with its sequence
  -- number, the hash that it was linked to, the hash of the frame's bytes, and unchanged contents.
  pub decode_frame-encode_frame :
      (stream : StreamId) (r : Record) (seq : SequenceNo) (prev : Option RecordHash) (bytes : Bytes)
      → encode_frame format r seq prev ≡ done bytes
      → decode_frame format bytes stream seq
        ≡ done
            (record { seq = seq; prev_hash = prev; hash = hash_frame format bytes; contents = r })
  unfolding encode_frame decode_frame
  decode_frame-encode_frame stream r seq prev bytes h =
      rw (readable.read_back (frame_of r seq prev) bytes (map_err-done encode _ bytes h))
        (stored_from-frame_of stream r seq prev bytes)
