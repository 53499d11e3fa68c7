-- ===== src/Core/Drain.antt =====
-- src/core/drain.rs: a receiver that is read until its token is cancelled. The channel is tokio's: a
-- queue of what was sent and not received, in order. A call of `next` that would wait on an empty
-- open channel is made again when something has changed.
pub mod Bounds
use koalisi.Common.{
  ℕ, zero, suc, Bool, true, false, Option, none, some, List, [], ◌∷◌, ◌++◌, length, if◌then◌else◌,
}

-- what a call of `next` ends in: an item, `None`, or nothing yet
pub data Next {ℓ} (A : Type ℓ) : Type ℓ where
  yielded : A → Next A
  ended waiting : Next A

pub record CancelDrain {ℓ} (A : Type ℓ) : Type ℓ where
  -- the channel: what is buffered, and whether all senders are gone
  pub queue : List A
  pub closed : Bool
  pub remaining : Option ℕ

module _ {ℓ} {A : Type ℓ} where
  unfoldable pub new : List A → Bool → CancelDrain A
  new queue closed = record { queue = queue; closed = closed; remaining = none }

  -- `recv`
  unfoldable pub recv : CancelDrain A → List A → CancelDrain A × Next A
  recv d [] = (d, if d.closed then ended else waiting)
  recv d (x ∷ rest) = (record d { queue = rest }, yielded x)

  -- `try_recv().ok()`
  unfoldable pub try_recv : CancelDrain A → List A → CancelDrain A × Next A
  try_recv d [] = (d, ended)
  try_recv d (x ∷ rest) = (record d { queue = rest }, yielded x)

  -- what follows once the number of the items that remain is known
  unfoldable pub drain : CancelDrain A → ℕ → CancelDrain A × Next A
  unfolding try_recv
  drain d zero = (d, ended)
  drain d (suc n) = try_recv (record d { remaining = some n }) d.queue

  -- the cases of `next`: whether the token is cancelled, and the count, if there is one
  unfoldable pub next_by : Bool → Option ℕ → CancelDrain A → CancelDrain A × Next A
  unfolding recv drain
  next_by cancelled (some n) d = drain d n
  next_by true none d =
      let buffered = length d.queue in drain (record d { remaining = some buffered }) buffered
  next_by false none d = recv d d.queue

  unfoldable pub next : Bool → CancelDrain A → CancelDrain A × Next A
  unfolding next_by
  next cancelled d = next_by cancelled d.remaining d

  -- Calls of `next`, each after what others have sent since the last, and whether the token is
  -- cancelled by then: the results in order.
  unfoldable pub next_each : List (List A × Bool) → CancelDrain A → CancelDrain A × List (Next A)
  unfolding next
  next_each [] d = (d, [])
  next_each ((sent, cancelled) ∷ later) d =
      let (d', result) = next cancelled (record d { queue = d.queue ++ sent }) in
      let (last, results) = next_each later d' in (last, result ∷ results)
