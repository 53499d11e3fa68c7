-- ===== src/Persistence/Store/Links.antt =====
-- Frames that verify, as a chain (src/persistence/store.rs, src/persistence/chain.rs): two chains with
-- one last digest have the same frames, or show a collision of the digest.
use koalisi.Common.{
  ℕ, zero, suc, ◌<◌, ◌≡◌, ◌≢◌, ◌⊎◌, inl, inr, refl, ap, sym, ◌∙◌, true, Option, none, some, List,
  [], ◌∷◌, arith, length, last?, last?-cons, Bool-cases,
}
use koalisi.Topology.Errors.{Attempt, done}
use koalisi.Persistence.Envelope.{StreamId, Bytes, RecordHash, StoredRecord}
use koalisi.Persistence.Errors.{collect, >>=-eq-done}
use koalisi.Persistence.Chain.{
  Format, FrameV1, map_some, bytes_eq, hash_eq, hash_frame, check_back_link, stored_from,
  decode_frame,
}
use koalisi.Persistence.Chain.Frames.{bytes_eq_refl, bytes_eq_sound}
use koalisi.Persistence.Store.{Stream, read_frame_bytes_at, read_record, range_from, verify_each}

-- Two different byte strings with one digest.
abbrev pub Collision : Format → Type 0
Collision format = (a : Bytes) × (b : Bytes) × (a ≢ b) × (format.digest a ≡ format.digest b)

-- Equal digests: the bytes are equal, or a collision.
same_or_Collision :
    (format : Format) (a b : Bytes) → format.digest a ≡ format.digest b → (a ≡ b) ⊎ Collision format
same_or_Collision format a b same = elim (Bool-cases (bytes_eq a b)) [
  | inl equal ↦ inl (bytes_eq_sound a b equal)
  | inr differ ↦ inr (
    a,
    b,
    (λ eq. absurd (ground (arith, bytes_eq_refl b, ap (λ c. bytes_eq c b) eq, differ))),
    same,
  )
]

pub last?-after : {A : Type 0} (a : A) (xs : List A) → 0 < length xs → last? (a ∷ xs) ≡ last? xs
last?-after a [] h = absurd (omega arith)
last?-after a (x ∷ xs) h = last?-cons a x xs

pub length-collect :
    {E A B : Type 0} (g : A → Attempt E B) (xs : List A) (bs : List B)
    → collect g xs ≡ done bs
    → length bs ≡ length xs
length-collect g [] [] h = refl
length-collect g [] (b ∷ bs) h = absurd (ground arith)
length-collect g (x ∷ xs) bs h =
    let first = >>=-eq-done (g x) _ h in
    let rest = >>=-eq-done (collect g xs) (λ ys. done (first.0 ∷ ys)) first.2 in
    let is : first.0 ∷ rest.0 ≡ bs = cc in
    omega (arith, length-collect g xs rest.0 rest.1, ap length is)

pub length-range_from : (n k : ℕ) → length (range_from n k) ≡ k
length-range_from n zero = refl
length-range_from n (suc k) = omega (arith, length-range_from (suc n) k)

hash_eq-some :
    (prev : Option RecordHash) (a : RecordHash)
    → hash_eq prev (some a) ≡ true
    → map_some (λ h. h.digest) prev ≡ some a.digest
hash_eq-some none a h = absurd (ground arith)
hash_eq-some (some p) a h = ap some (bytes_eq_sound p.digest a.digest h)

module _ (format : Format) (stream : StreamId) where
  -- Frames that decode, numbered from `n` on, each linked to the one before it.
  pub IsVerified : ℕ → Option RecordHash → List Bytes → Type 0
  IsVerified n prev [] = Unit
  IsVerified n prev (b ∷ bs) =
      (x : StoredRecord) × (decode_frame format b stream n ≡ done x)
      × (hash_eq x.prev_hash prev ≡ true)
      × IsVerified (suc n) (some (hash_frame format b)) bs

  stored_from-hash :
      (bytes : Bytes) (seq : ℕ) (frame : FrameV1) {x : StoredRecord}
      → stored_from format bytes stream seq frame ≡ done x
      → x.hash ≡ hash_frame format bytes
  unfolding stored_from
  stored_from-hash bytes seq frame h = ground arith

  decode_frame-hash :
      (bytes : Bytes) (seq : ℕ) {x : StoredRecord}
      → decode_frame format bytes stream seq ≡ done x
      → x.hash ≡ hash_frame format bytes
  unfolding decode_frame
  decode_frame-hash bytes seq h =
      let found = >>=-eq-done _ (stored_from format bytes stream seq) h in
      stored_from-hash bytes seq found.0 found.2

  check_back_link-done :
      (x : StoredRecord) (prev : Option RecordHash)
      → check_back_link stream x prev ≡ done tt
      → hash_eq x.prev_hash prev ≡ true
  unfolding check_back_link
  check_back_link-done x prev h = ground arith

  pub verify_each-IsVerified :
      (s : Stream) (n k : ℕ) (prev : Option RecordHash)
      → verify_each format stream s (range_from n k) prev ≡ done tt
      → (bs : List Bytes) × (collect
            (read_frame_bytes_at s.files s.state.segments stream)
            (range_from n k)
          ≡ done bs)
        × IsVerified n prev bs
  unfolding verify_each read_record IsVerified
  verify_each-IsVerified s n zero prev h = ([], refl, tt)
  verify_each-IsVerified s n (suc k) prev h =
      let found = >>=-eq-done (read_record format stream s n) _ h in
      let checked = >>=-eq-done (check_back_link stream found.0 prev) _ found.2 in
      let frame =
        >>=-eq-done (read_frame_bytes_at s.files s.state.segments stream n)
          (λ bytes. decode_frame format bytes stream n) found.1 in
      let later = verify_each-IsVerified s (suc n) k (some found.0.hash) checked.2 in
      (
        frame.0 ∷ later.0,
        rw (frame.1, later.1) refl,
        (
          found.0,
          frame.2,
          check_back_link-done found.0 prev checked.1,
          rw (← decode_frame-hash frame.0 n frame.2) later.2,
        ),
      )

  links_agree :
      (n : ℕ) (p q : RecordHash) (b c : Bytes) (bs cs : List Bytes)
      → b ≡ c
      → IsVerified n (some p) (b ∷ bs)
      → IsVerified n (some q) (c ∷ cs)
      → p.digest ≡ q.digest
  unfolding IsVerified
  links_agree n p q b c bs cs same hb hc =
      let decoded : done hb.0 ≡ done hc.0 =
        sym hb.1 ∙ ap (λ t. decode_frame format t stream n) same ∙ hc.1 in
      let records : hb.0 ≡ hc.0 = cc in
      let digests : some p.digest ≡ some q.digest =
        sym (hash_eq-some hb.0.prev_hash p hb.2)
        ∙ ap (λ x. map_some (λ h. h.digest) x.prev_hash) records
        ∙ hash_eq-some hc.0.prev_hash q hc.2 in
      cc

  -- Equal last hashes: the frames are equal, or a collision.
  pub same_frames :
      (n : ℕ) (prev prev' : Option RecordHash) (bs cs : List Bytes)
      → length bs ≡ length cs
      → map_some format.digest (last? bs) ≡ map_some format.digest (last? cs)
      → IsVerified n prev bs
      → IsVerified n prev' cs
      → (bs ≡ cs) ⊎ Collision format
  unfolding IsVerified
  same_frames n prev prev' [] [] size last hb hc = inl refl
  same_frames n prev prev' [] (c ∷ cs) size last hb hc = absurd (omega arith)
  same_frames n prev prev' (b ∷ bs) [] size last hb hc = absurd (omega arith)
  same_frames n prev prev' (b ∷ []) (c ∷ []) size last hb hc =
      let digests : format.digest b ≡ format.digest c = cc in
      elim (same_or_Collision format b c digests) [
        | inl same ↦ inl (ap (λ t. t ∷ []) same)
        | inr found ↦ inr found
      ]
  same_frames n prev prev' (b ∷ []) (c ∷ c2 ∷ cs) size last hb hc = absurd (omega arith)
  same_frames n prev prev' (b ∷ b2 ∷ bs) (c ∷ []) size last hb hc = absurd (omega arith)
  same_frames n prev prev' (b ∷ b2 ∷ bs) (c ∷ c2 ∷ cs) size last hb hc =
      elim (same_frames (suc n) (some (hash_frame format b)) (some (hash_frame format c)) (b2 ∷ bs)
        (c2 ∷ cs) (omega arith)
        (ap (map_some format.digest) (sym (last?-cons b b2 bs))
          ∙ last
          ∙ ap (map_some format.digest) (last?-cons c c2 cs))
        hb.3 hc.3) [
          | inr found ↦ inr found
          | inl same ↦
              (let heads : b2 ≡ c2 = cc in
                elim (same_or_Collision format b c (
                  links_agree (suc n) (hash_frame format b) (hash_frame format c) b2 c2 bs cs heads
                    hb.3 hc.3)) [
                      | inl first ↦ inl (ap (λ t. t ∷ b2 ∷ bs) first ∙ ap (λ t. c ∷ t) same)
                      | inr found ↦ inr found
                    ])
        ]
