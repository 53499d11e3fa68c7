-- ===== src/Persistence/Replay/Batches.antt =====
-- Replaying a stream in batches is replaying all of its records (src/persistence/replay.rs).
use koalisi.Common.{
  ℕ, zero, suc, ◌+◌, ◌-◌, ◌<◌, ◌≡◌, refl, ap, sym, ◌∙◌, Option, none, some, List, [], ◌∷◌, ◌++◌,
  arith, length, drop, take, drop-drop, length-drop, last?, last?-cons, last?-some,
  take-append-drop, take-none, length-take_le, Option-cases, inl, inr,
}
use mathlib.Core.Path.{subst}
use koalisi.Topology.EventLog.{EventLog, append}
use koalisi.Topology.Errors.{Attempt, done, Attempt-cases}
use koalisi.Persistence.Envelope.{topology, Bytes, Record, RecordHash, StoredRecord}
use koalisi.Persistence.Errors.{PersistenceError, ◌>>=◌}
use koalisi.Persistence.Chain.{Format, hash_frame}
use koalisi.Persistence.Wire.{Projection, WireTopologyEvent}
use koalisi.Persistence.Forwarding.{PayloadFormat}
use koalisi.Persistence.Store.{Stream, read_from}
use koalisi.Persistence.Store.Contents.{stored_all}
use koalisi.Persistence.Replay.{replay_one, replay_each, replay_batches, replay_batch}

-- Records numbered from `n` on.
abbrev pub IsNumbered : ℕ → List StoredRecord → Type 0
IsNumbered n [] = Unit
IsNumbered n (x ∷ xs) = (x.seq ≡ n) × IsNumbered (suc n) xs

pub stored_all-IsNumbered :
    (format : Format) (n : ℕ) (prev : Option RecordHash) (rs : List Record) (fs : List Bytes)
    → IsNumbered n (stored_all format n prev rs fs)
stored_all-IsNumbered format n prev [] fs = tt
stored_all-IsNumbered format n prev (r ∷ rs) [] = tt
stored_all-IsNumbered format n prev (r ∷ rs) (f ∷ fs) =
    (refl, stored_all-IsNumbered format (suc n) (some (hash_frame format f)) rs fs)

drop-IsNumbered :
    (n k : ℕ) (xs : List StoredRecord) → IsNumbered n xs → IsNumbered (n + k) (drop k xs)
drop-IsNumbered n zero xs h = subst (λ m. IsNumbered m xs) (omega arith) h
drop-IsNumbered n (suc k) [] h = tt
drop-IsNumbered n (suc k) (x ∷ xs) h =
    subst (λ m. IsNumbered m (drop k xs)) (omega arith) (drop-IsNumbered (suc n) k xs h.1)

take-IsNumbered : (n k : ℕ) (xs : List StoredRecord) → IsNumbered n xs → IsNumbered n (take k xs)
take-IsNumbered n zero xs h = tt
take-IsNumbered n (suc k) [] h = tt
take-IsNumbered n (suc k) (x ∷ xs) h = (h.0, take-IsNumbered (suc n) k xs h.1)

-- The last of them has the last number.
last?-IsNumbered :
    (n : ℕ) (xs : List StoredRecord) (x : StoredRecord)
    → IsNumbered n xs
    → last? xs ≡ some x
    → x.seq + 1 ≡ n + length xs
last?-IsNumbered n [] x h is = absurd (ground arith)
last?-IsNumbered n (y ∷ []) x h is =
    let same : y ≡ x = cc in omega (arith, h.0, ap (λ z. z.seq) same)
last?-IsNumbered n (y ∷ z ∷ xs) x h is =
    omega (arith, last?-IsNumbered (suc n) (z ∷ xs) x h.1 (sym (last?-cons y z xs) ∙ is))

module _ {V HE VW HW : Type 0} (usize_max : ℕ) (vertex : Projection V VW)
    (hyperedge : Projection HE HW) (payload : PayloadFormat (WireTopologyEvent VW HW)) where
  replay_each-append :
      (xs ys : List StoredRecord) (log : EventLog V HE)
      → replay_each usize_max vertex hyperedge payload (xs ++ ys) log ≡ (
          replay_each usize_max vertex hyperedge payload xs log >>= λ l.
          replay_each usize_max vertex hyperedge payload ys l)
  unfolding replay_each
  replay_each-append [] ys log = refl
  replay_each-append (x ∷ xs) ys log =
      elim (Attempt-cases (replay_one usize_max vertex hyperedge payload x)) [
        | inr bad ↦ rw bad.1 refl
        | inl good ↦ rw good.1 (replay_each-append xs ys (append good.0 log))
      ]

  -- One turn of the loop, past the end and before it.
  turn_over :
      (format : Format) (s : Stream) (batch : List StoredRecord) (fuel cursor : ℕ)
      (log : EventLog V HE)
      → read_from format topology cursor replay_batch s ≡ done batch
      → last? batch ≡ none
      → replay_batches usize_max vertex hyperedge payload format (suc fuel) cursor s log ≡ done log
  unfolding replay_batches
  turn_over format s batch fuel cursor log reads over = rw reads (
      ap
        (λ o. elim o as (λ _. Attempt PersistenceError (EventLog V HE)) [
          | none ↦ done log
          | some last ↦ replay_each usize_max vertex hyperedge payload batch log >>= λ l.
              replay_batches usize_max vertex hyperedge payload format fuel (last.seq + 1) s l
        ])
        over)

  turn :
      (format : Format) (s : Stream) (batch : List StoredRecord) (fuel cursor : ℕ)
      (log : EventLog V HE) (x : StoredRecord)
      → read_from format topology cursor replay_batch s ≡ done batch
      → last? batch ≡ some x
      → replay_batches usize_max vertex hyperedge payload format (suc fuel) cursor s log ≡ (
          replay_each usize_max vertex hyperedge payload batch log >>= λ l.
          replay_batches usize_max vertex hyperedge payload format fuel (x.seq + 1) s l)
  unfolding replay_batches
  turn format s batch fuel cursor log x reads more = rw reads (
      ap
        (λ o. elim o as (λ _. Attempt PersistenceError (EventLog V HE)) [
          | none ↦ done log
          | some last ↦ replay_each usize_max vertex hyperedge payload batch log >>= λ l.
              replay_batches usize_max vertex hyperedge payload format fuel (last.seq + 1) s l
        ])
        more)

  -- Replaying in batches is replaying all.
  pub replay_batches-all :
      (format : Format) (s : Stream) (xs : List StoredRecord)
      → IsNumbered 0 xs
      → ((first limit : ℕ)
          → read_from format topology first limit s ≡ done (take limit (drop first xs)))
      → (fuel cursor : ℕ) (log : EventLog V HE) → length xs - cursor < fuel
      → replay_batches usize_max vertex hyperedge payload format fuel cursor s log
        ≡ replay_each usize_max vertex hyperedge payload (drop cursor xs) log
  unfolding replay_each
  replay_batches-all format s xs numbered reads zero cursor log enough = absurd (omega arith)
  replay_batches-all format s xs numbered reads (suc fuel) cursor log enough =
      elim (Option-cases (last? (take replay_batch (drop cursor xs)))) [
        | inl over ↦
            turn_over format s _ fuel cursor log (reads cursor replay_batch) over
            ∙ ap (λ zs. replay_each usize_max vertex hyperedge payload zs log)
                (sym (take-none 1023 (drop cursor xs) over))
        | inr more ↦
            (let ys = drop cursor xs in
              let size = length-drop cursor xs in
              let some_taken = last?-some (take replay_batch ys) more.1 in
              let few = length-take_le replay_batch ys in
              let next =
                last?-IsNumbered (0 + cursor) (take replay_batch ys) more.0
                  (take-IsNumbered (0 + cursor) replay_batch ys
                    (drop-IsNumbered 0 cursor xs numbered))
                  more.1 in
              let left : drop (more.0.seq + 1) xs ≡ drop (length (take replay_batch ys)) ys = sym (
                drop-drop (length (take replay_batch ys)) cursor (more.0.seq + 1) xs
                  (omega arith)) in
              turn format s (take replay_batch ys) fuel cursor log more.0
                (reads cursor replay_batch) more.1
              ∙ (ap
                    (λ k.
                      replay_each usize_max vertex hyperedge payload (take replay_batch ys) log
                      >>= k)
                    (λ i log'.
                      (replay_batches-all format s xs numbered reads fuel (more.0.seq + 1) log'
                            (omega arith)
                          ∙ ap (λ zs. replay_each usize_max vertex hyperedge payload zs log') left)
                        i)
                  ∙ sym (
                      replay_each-append (take replay_batch ys)
                        (drop (length (take replay_batch ys)) ys) log)
                  ∙ ap (λ zs. replay_each usize_max vertex hyperedge payload zs log)
                      (take-append-drop replay_batch ys)))
      ]
