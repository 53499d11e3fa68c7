-- ===== src/Decision/Magnitude/Masks.antt =====
-- Which masks a candidate adds (src/decision/magnitude_policy.rs).
use koalisi.Common.{
  ℕ, ◌≡◌, ◌⊎◌, inl, inr, refl, ap, not, ◌&&◌, List, [], ◌∷◌, ◌++◌, contains, Bool-cases,
}
use koalisi.Algorithms.Agents.{AgentCapabilities}
use koalisi.Decision.Magnitude.{is_relevant, relevant_from, relevant_masks}

relevant_from-append :
    (required : ℕ) (seen : List ℕ) (agents : List AgentCapabilities) (a : AgentCapabilities)
    → (relevant_from required seen (agents ++ a ∷ []) ≡ relevant_from required seen agents)
      ⊎ (relevant_from required seen (agents ++ a ∷ [])
          ≡ relevant_from required seen agents ++ a.capabilities ∷ [])
unfolding relevant_from
relevant_from-append required seen [] a =
    elim (Bool-cases (is_relevant a.capabilities required && not (contains seen a.agent_id))) [
      | inl kept ↦ inr (rw kept refl)
      | inr skipped ↦ inl (rw skipped refl)
    ]
relevant_from-append required seen (b ∷ rest) a =
    elim (Bool-cases (is_relevant b.capabilities required && not (contains seen b.agent_id))) [
      | inl kept ↦
          rw (kept, relevant_from)
            (elim (relevant_from-append required (b.agent_id ∷ seen) rest a) [
              | inl same ↦ inl (ap (λ l. b.capabilities ∷ l) same)
              | inr more ↦ inr (ap (λ l. b.capabilities ∷ l) more)
            ])
      | inr skipped ↦ rw (skipped, relevant_from) (relevant_from-append required seen rest a)
    ]

-- A candidate is left out, or its mask comes last.
pub relevant_masks-append :
    (agents : List AgentCapabilities) (a : AgentCapabilities) (required : ℕ)
    → (relevant_masks (agents ++ a ∷ []) required ≡ relevant_masks agents required)
      ⊎ (relevant_masks (agents ++ a ∷ []) required
          ≡ relevant_masks agents required ++ a.capabilities ∷ [])
unfolding relevant_masks
relevant_masks-append agents a required = relevant_from-append required [] agents a
