-- ===== src/Remote/Buffer/Window.antt =====
-- What the gateway's buffer holds and what a consumer's poll returns (src/subsystems/remote.rs).
use koalisi.Common.{
  drop, length-drop, drop-append, drop-nil, drop-drop, drop-length_append, ℕ, suc, ◌+◌, ◌-◌, ◌<◌,
  ◌≤◌, ◌≡◌, ◌≢◌, refl, ap, sym, ◌∙◌, none, some, List, [], ◌∷◌, ◌++◌, append-nil, append_assoc,
  arith, length, filter, length-append, Bool-cases, inl, inr, ==_iff, ltb, ◌==◌, if◌then◌else◌,
}
use koalisi.Topology.Timestamp.{u64_mod}
use koalisi.Remote.Buffer.{
  DecisionRecord, RemoteCoalitionEventV1, EventBuffer, poll_since, events, ok, newer_schema,
  from_record, with_capacity, push_record, push_each, head_seq, respond, accept,
  refuse_newer_schema, pop_front,
}
use koalisi.Remote.Buffer.Stamps.{
  max, stamped, length-stamped, stamped-append, drop-stamped, filter-stamped, pop_front-drop,
  refuse_newer_schema-stamped,
}

module _ {Score : Type 0} where
  -- The buffer holds the last `cap` of the records, stamped from 1 on.
  record IsWindow (rs : List (DecisionRecord Score)) (b : EventBuffer Score) : Type 0 where
    room : 1 ≤ b.cap
    next : b.next_seq ≡ length rs + 1
    held : b.events ≡ drop (length rs - b.cap) (stamped 1 rs)

  push_record-held :
      (rs : List (DecisionRecord Score)) (b : EventBuffer Score)
      → IsWindow rs b
      → (if length b.events == b.cap then pop_front b.events else b.events)
        ≡ drop (length rs + 1 - b.cap) (stamped 1 rs)
  push_record-held rs b h =
      let long : length b.events ≡ length rs - (length rs - b.cap) =
        ap length h.held
        ∙ length-drop _ (stamped 1 rs)
        ∙ ap (λ n. n - (length rs - b.cap)) (length-stamped 1 rs) in
      elim (Bool-cases (length b.events == b.cap)) [
        | inl full ↦
            let same : length b.events ≡ b.cap = (==_iff _ _).0 full in
            let next_drop : suc (length rs - b.cap) ≡ length rs + 1 - b.cap =
              omega (arith, h.room) in
            rw (full, h.held)
              (pop_front-drop (length rs - b.cap) (stamped 1 rs)
                ∙ ap (λ n. drop n (stamped 1 rs)) next_drop)
        | inr free ↦
            let other : length b.events ≢ b.cap = λ e. ground arith in
            rw (free, h.held) (ap (λ n. drop n (stamped 1 rs)) (omega (arith, h.room)))
      ]

  push_record-IsWindow :
      (rs : List (DecisionRecord Score)) (b : EventBuffer Score) (r : DecisionRecord Score)
      → length rs + 2 < u64_mod
      → IsWindow rs b
      → IsWindow (rs ++ r ∷ []) (push_record r b).0
  unfolding push_record
  push_record-IsWindow rs b r small h = record {
    room = h.room;
    next = rw (h.next, length-append) (omega arith);
    held =
        rw (push_record-held rs b h, h.next, stamped-append, length-append)
          (sym (drop-append _ (stamped 1 rs) _ (omega (arith, length-stamped 1 rs, h.room)))
            ∙ ap (λ n. drop (length rs + 1 - b.cap) (stamped 1 rs ++ from_record n r ∷ []))
                (omega arith));
  }

  push_each-IsWindow :
      (rs more : List (DecisionRecord Score)) (b : EventBuffer Score)
      → length rs + length more + 1 < u64_mod
      → IsWindow rs b
      → IsWindow (rs ++ more) (push_each more b)
  unfolding push_each
  push_each-IsWindow rs [] b small h = rw (append-nil rs) h
  push_each-IsWindow rs (r ∷ more) b small h =
      let assoc : (rs ++ r ∷ []) ++ more ≡ rs ++ r ∷ more = append_assoc rs (r ∷ []) more in
      rw (← assoc) (
        push_each-IsWindow (rs ++ r ∷ []) more (push_record r b).0
          (omega (arith, length-append rs (r ∷ []))) (push_record-IsWindow rs b r (omega arith) h))

  with_capacity-IsWindow : (cap : ℕ) → IsWindow [] (with_capacity cap)
  unfolding with_capacity
  with_capacity-IsWindow cap = record { room = ground arith; next = refl; held = sym (drop-nil _) }

  cap-push_each :
      (rs : List (DecisionRecord Score)) (b : EventBuffer Score) → (push_each rs b).cap ≡ b.cap
  unfolding push_each push_record
  cap-push_each [] b = refl
  cap-push_each (r ∷ rs) b = cap-push_each rs (push_record r b).0

  push_each-cap :
      (rs : List (DecisionRecord Score)) (cap : ℕ)
      → (push_each rs (with_capacity cap)).cap ≡ max 1 cap
  unfolding with_capacity
  push_each-cap rs cap = cap-push_each rs (with_capacity cap) ∙ ground arith

  -- After any records that the sequence numbers have room for, pushed to a new buffer, the buffer
  -- holds exactly the last of them, as many as the capacity (at least one) allows, with the numbers
  -- from 1 on in the order of the records, and the newest number is the number of records.
  pub push_each-window :
      (cap : ℕ) (rs : List (DecisionRecord Score))
      → length rs + 1 < u64_mod
      → ((push_each rs (with_capacity cap)).events ≡ drop (length rs - max 1 cap) (stamped 1 rs))
        × (head_seq (push_each rs (with_capacity cap)) ≡ length rs)
  unfolding head_seq
  push_each-window cap rs small =
      let w =
        push_each-IsWindow [] rs (with_capacity cap) (omega arith) (with_capacity-IsWindow cap) in
      (
        w.held ∙ ap (λ c. drop (length rs - c) (stamped 1 rs)) (push_each-cap rs cap),
        omega (arith, w.next),
      )

  poll_events :
      (last_seq k : ℕ) (rs : List (DecisionRecord Score))
      → filter (λ e. ltb last_seq e.seq) (drop k (stamped 1 rs))
        ≡ drop (max last_seq k) (stamped 1 rs)
  poll_events last_seq k rs =
      let late = last_seq + 1 - (1 + k) in
      let after : filter (λ e. ltb last_seq e.seq) (stamped (1 + k) (drop k rs))
          ≡ drop late (stamped (1 + k) (drop k rs)) =
        filter-stamped last_seq (1 + k) late (drop k rs) refl in
      ap (filter (λ e. ltb last_seq e.seq)) (drop-stamped k 1 rs)
      ∙ after
      ∙ ap (drop late) (sym (drop-stamped k 1 rs))
      ∙ drop-drop late k (max last_seq k) (stamped 1 rs) (ground arith)

  accept-unrefused :
      (n : ℕ) (es : List (RemoteCoalitionEventV1 Score))
      → refuse_newer_schema es ≡ none
      → accept (events n es) ≡ ok n es
  unfolding accept
  accept-unrefused n es h = ap (λ o. elim o [ none ↦ ok n es | some e ↦ newer_schema e ]) h

  refuse_newer_schema-drop :
      (m : ℕ) (rs : List (DecisionRecord Score))
      → refuse_newer_schema (drop m (stamped 1 rs)) ≡ none
  refuse_newer_schema-drop m rs =
      ap refuse_newer_schema (drop-stamped m 1 rs) ∙ refuse_newer_schema-stamped (1 + m) (drop m rs)

  -- A client's poll after any such records gets the newest number and exactly the records after its
  -- cursor that the buffer still holds, oldest first, each with its number; the check of the schema
  -- refuses none of them.
  pub accept-respond :
      (cap last_seq : ℕ) (rs : List (DecisionRecord Score))
      → length rs + 1 < u64_mod
      → accept (respond (poll_since last_seq) (push_each rs (with_capacity cap)))
        ≡ ok (length rs) (drop (max last_seq (length rs - max 1 cap)) (stamped 1 rs))
  unfolding respond
  accept-respond cap last_seq rs small =
      let (held, newest) = push_each-window cap rs small in
      ap
        (λ n.
          accept
            (events n (filter (λ e. ltb last_seq e.seq) (push_each rs (with_capacity cap)).events)))
        newest
      ∙ ap (λ es. accept (events (length rs) (filter (λ e. ltb last_seq e.seq) es))) held
      ∙ ap (λ es. accept (events (length rs) es)) (poll_events last_seq _ rs)
      ∙ accept-unrefused (length rs) _ (refuse_newer_schema-drop _ rs)

  push_each-append :
      (rs more : List (DecisionRecord Score)) (b : EventBuffer Score)
      → push_each (rs ++ more) b ≡ push_each more (push_each rs b)
  unfolding push_each
  push_each-append [] more b = refl
  push_each-append (r ∷ rs) more b = push_each-append rs more (push_record r b).0

  -- A consumer that polls with the newest number of its last poll as the cursor, before more records
  -- have come than the capacity, gets exactly the records since then: nothing is lost and nothing
  -- comes twice.
  pub accept-respond_again :
      (cap : ℕ) (rs more : List (DecisionRecord Score))
      → length rs + length more + 1 < u64_mod
      → length more ≤ max 1 cap
      → accept (
          respond
            (poll_since (head_seq (push_each rs (with_capacity cap))))
            (push_each more (push_each rs (with_capacity cap))))
        ≡ ok (length rs + length more) (stamped (1 + length rs) more)
  accept-respond_again cap rs more small few =
      let total : length (rs ++ more) ≡ length rs + length more = length-append rs more in
      let newest = (push_each-window cap rs (omega arith)).1 in
      let late : max (length rs) (length (rs ++ more) - max 1 cap) ≡ length rs =
        ground (arith, total) in
      let reached : accept
            (respond (poll_since (length rs)) (push_each (rs ++ more) (with_capacity cap)))
          ≡ ok (length (rs ++ more))
              (drop (max (length rs) (length (rs ++ more) - max 1 cap)) (stamped 1 (rs ++ more))) =
        accept-respond cap (length rs) (rs ++ more) (omega arith) in
      ap (λ n. accept (respond (poll_since n) (push_each more (push_each rs (with_capacity cap)))))
        newest
      ∙ ap (λ b. accept (respond (poll_since (length rs)) b))
          (sym (push_each-append rs more (with_capacity cap)))
      ∙ reached
      ∙ ap
          (λ n.
            ok n
              (drop (max (length rs) (length (rs ++ more) - max 1 cap)) (stamped 1 (rs ++ more))))
          total
      ∙ ap (λ n. ok (length rs + length more) (drop n (stamped 1 (rs ++ more)))) late
      ∙ ap (ok (length rs + length more)) (
          drop-stamped (length rs) 1 (rs ++ more)
          ∙ ap (stamped (1 + length rs)) (drop-length_append rs more))
