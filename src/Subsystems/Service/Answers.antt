-- ===== src/Subsystems/Service/Answers.antt =====
-- Which commands the coalition service answers (src/subsystems/coalition_actor.rs).
use koalisi.Common.{ℕ, ◌≡◌, ◌≢◌, ◌⊎◌, Bool, true, false, List, [], ◌∷◌, ◌++◌, map, All}
use koalisi.Topology.Errors.{panicked}
use koalisi.Topology.Hypergraph.{Library}
use koalisi.Topology.Coalitions.{Policy}
use koalisi.Subsystems.Service.Errors.{ServiceError}
use koalisi.Subsystems.Service.{
  Answer, refused, Surroundings, Service, Wake, token_cancelled, received, all_dropped,
}

module _ {V HE : Type 0} (lib : Library V HE) (policy : Policy V)
    (around : Surroundings policy.Score) where
  open lib use {HypergraphError}
  open policy use {Score}

  abbrev Reply : Type 0
  Reply = Answer HypergraphError Score

  -- The answer to a command whose work panicked.
  abbrev pub panic_answer : Reply
  panic_answer = refused ServiceError.panicked

  -- what serving one command can come to
  abbrev IsServed : Service lib policy around → Service lib policy around × Reply × Bool → Type 0
  IsServed svc (svc', answer, goes_on) =
      ((goes_on ≡ true) × (svc'.flag ≡ svc.flag) × (answer ≢ panic_answer))
      ⊎ ((goes_on ≡ false) × (svc'.flag ≡ true) × (answer ≡ panic_answer))

  -- the reply channels of the commands that the task takes or refuses, in order
  abbrev pub asked : List (Wake lib policy around) → List ℕ
  asked [] = []
  asked (token_cancelled queued ∷ later) = map (λ c. c.0) queued
  asked (all_dropped ∷ later) = []
  asked (received reply command others meanwhile ∷ later) = reply ∷ asked later

  -- The run of a service, whose panic flag was not set. Without a panic every command is answered,
  -- once and in order. With one, its command is the last that is answered, and the flag is set.
  abbrev pub IsAnswered :
      List (Wake lib policy around) → Service lib policy around × List (ℕ × Reply) → Type 0
  IsAnswered wakes (svc', answers) =
      ((svc'.flag ≡ false)
        × (map (λ a. a.0) answers ≡ asked wakes)
        × All (λ a. a.1 ≢ panic_answer) answers)
      ⊎ ((svc'.flag ≡ true)
          × ((served : List (ℕ × Reply)) × (reply : ℕ) × (dropped : List ℕ) × (answers
                ≡ served ++ (reply, panic_answer) ∷ [])
              × All (λ a. a.1 ≢ panic_answer) served
              × (asked wakes ≡ map (λ a. a.0) served ++ reply ∷ dropped)))
