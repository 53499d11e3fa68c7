-- ===== src/Core/Drain/Bounds.antt =====
-- What a drain yields before and after the cancel (src/core/drain.rs).
use koalisi.Common.{
  ℕ, zero, suc, ◌≡◌, refl, ap, ◌∙◌, sym, subst, Bool, true, false, Option, none, some, List, [],
  ◌∷◌, ◌++◌, append_assoc, append-nil, map, length, Bool-cases, inl, inr,
}
use koalisi.Core.Drain.{
  CancelDrain, Next, yielded, ended, waiting, recv, try_recv, drain, next, next_by, next_each, new,
}

module _ {ℓ} {A : Type ℓ} where
  -- what the calls find: what is sent before each, the token cancelled
  abbrev pub all_cancelled : List (List A) → List (List A × Bool)
  all_cancelled = map (λ sent. (sent, true))

  -- as many results as there are calls: the items of a list, and then nothing more
  abbrev pub drained : ℕ → List A → List (Next A)
  drained zero items = []
  drained (suc calls) [] = ended ∷ drained calls []
  drained (suc calls) (x ∷ items) = yielded x ∷ drained calls items

  -- With a count of the first items of the queue.
  next_each-drain :
      (kept more : List A) (closed : Bool) (later : List (List A))
      → (next_each
          (all_cancelled later)
          (record { queue = kept ++ more; closed = closed; remaining = some (length kept) })).1
        ≡ drained (length later) kept
  unfolding next_each
  next_each-drain kept more closed [] = refl
  next_each-drain [] more closed (sent ∷ later) =
      ap (λ rest. ended ∷ rest) (next_each-drain [] (more ++ sent) closed later)
  next_each-drain (x ∷ kept) more closed (sent ∷ later) =
      rw (append_assoc kept more sent)
        (ap (λ rest. yielded x ∷ rest) (next_each-drain kept (more ++ sent) closed later))

  -- The call that observes the cancel counts what is buffered.
  observe :
      (queue : List A) (closed : Bool) (later : List (List A))
      → (next_each
          (([], true) ∷ all_cancelled later)
          (record { queue = queue; closed = closed; remaining = none })).1
        ≡ (next_each
            (([], true) ∷ all_cancelled later)
            (record { queue = queue; closed = closed; remaining = some (length queue) })).1
  unfolding next_each
  observe queue closed later = rw append-nil refl

  -- Once the cancel is observed, the calls yield the items that were buffered then, in order and as
  -- far as there are calls, and then `None`, whatever is sent afterwards.
  pub next_each-cancelled :
      (queue : List A) (closed : Bool) (later : List (List A))
      → (next_each (([], true) ∷ all_cancelled later) (new queue closed)).1
        ≡ drained (suc (length later)) queue
  unfolding new
  next_each-cancelled queue closed later =
      observe queue closed later
      ∙ subst
          (λ q.
            (next_each (all_cancelled ([] ∷ later))
              (record { queue = q; closed = closed; remaining = some (length queue) })).1
            ≡ drained (suc (length later)) queue)
          (append-nil queue) (next_each-drain queue [] closed ([] ∷ later))

  -- the items among results
  abbrev pub items : List (Next A) → List A
  items [] = []
  items (yielded a ∷ rest) = a ∷ items rest
  items (_ ∷ rest) = items rest

  -- all that is sent in a run
  abbrev pub all_sent : List (List A × Bool) → List A
  all_sent [] = []
  all_sent ((sent, cancelled) ∷ later) = sent ++ all_sent later

  try_recv-items :
      (d : CancelDrain A) (queue : List A)
      → d.queue ≡ queue
      → items ((try_recv d queue).1 ∷ []) ++ (try_recv d queue).0.queue ≡ queue
  unfolding try_recv
  try_recv-items d [] e = e
  try_recv-items d (x ∷ rest) e = refl

  recv-items :
      (d : CancelDrain A) (queue : List A)
      → d.queue ≡ queue
      → items ((recv d queue).1 ∷ []) ++ (recv d queue).0.queue ≡ queue
  unfolding recv
  recv-items d [] e = elim (Bool-cases d.closed) [
    | inl closed ↦ rw (closed, recv) e
    | inr open' ↦ rw (open', recv) e
  ]
  recv-items d (x ∷ rest) e = refl

  drain-items :
      (d : CancelDrain A) (n : ℕ) → items ((drain d n).1 ∷ []) ++ (drain d n).0.queue ≡ d.queue
  unfolding drain
  drain-items d zero = refl
  drain-items d (suc n) = try_recv-items (record d { remaining = some n }) d.queue refl

  next_by-items :
      (cancelled : Bool) (remaining : Option ℕ) (d : CancelDrain A)
      → items ((next_by cancelled remaining d).1 ∷ []) ++ (next_by cancelled remaining d).0.queue
        ≡ d.queue
  unfolding next_by
  next_by-items cancelled (some n) d = drain-items d n
  next_by-items true none d =
      drain-items (record d { remaining = some (length d.queue) }) (length d.queue)
  next_by-items false none d = recv-items d d.queue refl

  items-cons : (r : Next A) (rest : List (Next A)) → items (r ∷ rest) ≡ items (r ∷ []) ++ items rest
  items-cons (yielded a) rest = refl
  items-cons ended rest = refl
  items-cons waiting rest = refl

  regroup :
      (one more left between queue sent later : List A)
      → one ++ between ≡ queue ++ sent
      → more ++ left ≡ between ++ later
      → (one ++ more) ++ left ≡ queue ++ (sent ++ later)
  regroup one more left between queue sent later first rest =
      append_assoc one more left
      ∙ ap (λ l. one ++ l) rest
      ∙ sym (append_assoc one between later)
      ∙ ap (λ l. l ++ later) first
      ∙ append_assoc queue sent later

  -- In any run, what was yielded and what is still buffered are what was buffered and what was sent,
  -- in order: nothing is lost, repeated or reordered.
  pub next_each-items :
      (run : List (List A × Bool)) (d : CancelDrain A)
      → items (next_each run d).1 ++ (next_each run d).0.queue ≡ d.queue ++ all_sent run
  unfolding next_each
  next_each-items [] d = sym (append-nil d.queue)
  next_each-items ((sent, cancelled) ∷ later) d =
      let d1 = record d { queue = d.queue ++ sent } in
      let (d2, result) = next cancelled d1 in
      rw (items-cons result (next_each later d2).1) (
        regroup (items (result ∷ [])) (items (next_each later d2).1) (next_each later d2).0.queue
          d2.queue d.queue sent (all_sent later) (next_by-items cancelled d1.remaining d1)
          (next_each-items later d2))
