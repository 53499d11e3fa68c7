-- ===== src/Subsystems/Fanout/Delivery.antt =====
-- What each sink of a fan-out gets.
use koalisi.Common.{◌≡◌, refl, ◌∙◌, List, [], ◌∷◌, map}
use koalisi.Subsystems.Fanout.{Arrival, received, cancelled, disconnected, offer_each, fan_out}

module _ {A : Type 0} where
  -- the items before the task stops
  abbrev pub taken : List (Arrival A) → List A
  taken [] = []
  taken (received a ∷ later) = a ∷ taken later
  taken (cancelled ∷ later) = []
  taken (disconnected ∷ later) = []

module _ {A S : Type 0} (offer : A → S → S) where
  -- one sink, offered items one after the other
  abbrev offered : List A → S → S
  offered [] s = s
  offered (a ∷ rest) s = offered rest (offer a s)

  offered-offer_each :
      (a : A) (rest : List A) (sinks : List S)
      → map (offered rest) (offer_each offer a sinks) ≡ map (offered (a ∷ rest)) sinks
  unfolding offer_each
  offered-offer_each a rest [] = refl
  offered-offer_each a rest (s ∷ sinks) =
      λ i. offered rest (offer a s) ∷ offered-offer_each a rest sinks i

  map-id : (sinks : List S) → sinks ≡ map (offered []) sinks
  map-id [] = refl
  map-id (s ∷ sinks) = λ i. s ∷ map-id sinks i

  -- Every sink is offered the items that the task has taken before it stops, in order, and nothing
  -- else: no sink's outcome changes what another sink is offered.
  fan_out-offered :
      (arrivals : List (Arrival A)) (sinks : List S)
      → fan_out offer arrivals sinks ≡ map (offered (taken arrivals)) sinks
  unfolding fan_out
  fan_out-offered [] sinks = map-id sinks
  fan_out-offered (received a ∷ later) sinks =
      fan_out-offered later (offer_each offer a sinks) ∙ offered-offer_each a (taken later) sinks
  fan_out-offered (cancelled ∷ later) sinks = map-id sinks
  fan_out-offered (disconnected ∷ later) sinks = map-id sinks
