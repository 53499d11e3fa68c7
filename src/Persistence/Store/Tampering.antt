-- ===== src/Persistence/Store/Tampering.antt =====
-- What `verify` shows of files that anyone may have written (src/persistence/store.rs,
-- src/persistence/chain.rs): the hash of the last frame stands for all frames.
use koalisi.Common.{
  ℕ, zero, suc, ◌+◌, ◌-◌, ◌≡◌, ◌⊎◌, inl, inr, refl, ap, sym, ◌∙◌, false, Option, none, some, List,
  [], ◌∷◌, arith, last?, ltb, ◌==◌, zero-cases,
}
use koalisi.Topology.Errors.{Attempt, done}
use koalisi.Persistence.Envelope.{StreamId, Bytes, RecordHash}
use koalisi.Persistence.Errors.{PersistenceError, collect, >>=-eq-done}
use koalisi.Persistence.Chain.{Format, map_some, hash_frame, of_digest}
use koalisi.Persistence.Store.{
  Stream, read_frame_bytes_at, range_from, verify_each, predecessor, verify,
}
use koalisi.Persistence.Store.Links.{
  Collision, same_frames, verify_each-IsVerified, last?-after, length-collect, length-range_from,
}

module _ (format : Format) (stream : StreamId) where
  -- the bytes of all frames
  abbrev pub all_frames : Stream → Attempt PersistenceError (List Bytes)
  all_frames s =
      collect (read_frame_bytes_at s.files s.state.segments stream) (range_from 0 s.state.next_seq)

  -- the hash of the last frame
  abbrev pub last_hash : Stream → Attempt PersistenceError (Option RecordHash)
  last_hash s = predecessor format stream s.files s.state.segments s.state.next_seq

  verify-each :
      (s : Stream) (m : ℕ)
      → s.state.next_seq ≡ suc m
      → verify format stream 0 s.state.next_seq s
        ≡ verify_each format stream s (range_from 0 (suc (suc m - 1) - 0)) none
  unfolding verify predecessor
  verify-each s m is =
      let no : ltb (suc m) (suc m - 1) ≡ false = ground arith in
      let least : ltb (suc m - 1) 0 ≡ false = ground arith in
      let some_records : (suc m == 0) ≡ false = ground arith in
      rw (is, some_records, no, least) refl

  verify-whole :
      (s : Stream)
      → verify format stream 0 s.state.next_seq s ≡ done tt
      → verify_each format stream s (range_from 0 s.state.next_seq) none ≡ done tt
  unfolding verify predecessor
  verify-whole s h = elim (zero-cases s.state.next_seq) [
    | inl empty ↦ absurd (ground arith)
    | inr more ↦
        (let count : suc (suc more.0 - 1) - 0 ≡ suc more.0 = omega arith in
          ap (λ k. verify_each format stream s (range_from 0 k) none) (more.1 ∙ sym count)
          ∙ sym (verify-each s more.0 more.1)
          ∙ h)
  ]

  predecessor-suc :
      (s : Stream) (n k m : ℕ) (bs : List Bytes)
      → m ≡ n + k
      → collect (read_frame_bytes_at s.files s.state.segments stream) (range_from n (suc k))
        ≡ done bs
      → predecessor format stream s.files s.state.segments (suc m)
        ≡ done (map_some (hash_frame format) (last? bs))
  unfolding predecessor
  predecessor-suc s n zero m bs at h =
      let first = >>=-eq-done (read_frame_bytes_at s.files s.state.segments stream n) _ h in
      let is : first.0 ∷ [] ≡ bs = cc in
      let here : m ≡ n = omega arith in
      rw (here, first.1) (ap (λ t. done (map_some (hash_frame format) (last? t))) is)
  predecessor-suc s n (suc k) m bs at h =
      let first = >>=-eq-done (read_frame_bytes_at s.files s.state.segments stream n) _ h in
      let rest =
        >>=-eq-done
          (collect (read_frame_bytes_at s.files s.state.segments stream)
            (range_from (suc n) (suc k)))
          (λ ys. done (first.0 ∷ ys)) first.2 in
      let is : first.0 ∷ rest.0 ≡ bs = cc in
      let size =
        length-collect (read_frame_bytes_at s.files s.state.segments stream)
          (range_from (suc n) (suc k)) rest.0 rest.1 in
      predecessor-suc s (suc n) k m rest.0 (omega arith) rest.1
      ∙ ap (λ o. done (map_some (hash_frame format) o))
          (sym (last?-after first.0 rest.0 (omega arith)) ∙ ap last? is)

  last_hash-frames :
      (s : Stream) (n : ℕ) (bs : List Bytes)
      → collect (read_frame_bytes_at s.files s.state.segments stream) (range_from 0 n) ≡ done bs
      → predecessor format stream s.files s.state.segments n
        ≡ done (map_some (hash_frame format) (last? bs))
  unfolding predecessor
  last_hash-frames s zero [] h = refl
  last_hash-frames s zero (b ∷ bs) h = absurd (ground arith)
  last_hash-frames s (suc k) bs h = predecessor-suc s 0 k k bs (omega arith) h

  digest-same :
      (o p : Option Bytes) (answer : Attempt PersistenceError (Option RecordHash))
      → answer ≡ done (map_some (hash_frame format) o)
      → answer ≡ done (map_some (hash_frame format) p)
      → map_some format.digest o ≡ map_some format.digest p
  digest-same none none answer g h = refl
  digest-same none (some c) answer g h = absurd (ground arith)
  digest-same (some b) none answer g h = absurd (ground arith)
  digest-same (some b) (some c) answer g h =
      let hashes : of_digest (format.digest b) ≡ of_digest (format.digest c) = cc in
      ap (λ x. some x.digest) hashes

  -- Take two stores with equally many records in a stream, both of which verify from the first
  -- record to the last, and whose last frames have one hash. Then all frames are the same, byte for
  -- byte, or two different byte strings have one digest. The files need not come from the store.
  pub verify-all_frames :
      (s t : Stream)
      → s.state.next_seq ≡ t.state.next_seq
      → verify format stream 0 s.state.next_seq s ≡ done tt
      → verify format stream 0 t.state.next_seq t ≡ done tt
      → last_hash s ≡ last_hash t
      → (all_frames s ≡ all_frames t) ⊎ Collision format
  verify-all_frames s t size vs vt last =
      let fs = verify_each-IsVerified format stream s 0 s.state.next_seq none (verify-whole s vs) in
      let ft = verify_each-IsVerified format stream t 0 t.state.next_seq none (verify-whole t vt) in
      elim (same_frames format stream 0 none none fs.0 ft.0
        (length-collect (read_frame_bytes_at s.files s.state.segments stream) _ fs.0 fs.1
          ∙ length-range_from 0 s.state.next_seq
          ∙ size
          ∙ sym (
              length-collect (read_frame_bytes_at t.files t.state.segments stream) _ ft.0 ft.1
              ∙ length-range_from 0 t.state.next_seq))
        (digest-same (last? fs.0) (last? ft.0) (last_hash s)
          (last_hash-frames s s.state.next_seq fs.0 fs.1)
          (last ∙ last_hash-frames t t.state.next_seq ft.0 ft.1))
        fs.2 ft.2) [
          | inl same ↦ inl (fs.1 ∙ ap (λ x. done x) same ∙ sym ft.1)
          | inr found ↦ inr found
        ]
