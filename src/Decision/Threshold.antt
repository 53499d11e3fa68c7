-- ===== src/Decision/Threshold.antt =====
-- `ThresholdPolicy` of src/decision/mod.rs: a join or a leave by what an agent adds to the value of a
-- coalition. The value calculator is a function.
use koalisi.Common.{
  some, ◌≡◌, refl, ap, Bool, false, not, Bool-cases, inl, inr, List, [], ◌∷◌, ◌++◌, map, filter,
  contains, ◌==◌, ==_refl, if◌then◌else◌, arith,
}
use koalisi.Common.Floats.{Floats}
use koalisi.Algorithms.Agents.{AgentCapabilities}
use koalisi.Topology.Coalitions.{Decision, Policy}

-- `filter(|a| a.agent_id() != agent.agent_id())`
abbrev pub all_but : AgentCapabilities → List AgentCapabilities → List AgentCapabilities
all_but agent = filter (λ a. not (a.agent_id == agent.agent_id))

module _ (floats : Floats) where
  open floats use {F64, of_nat, sub, lt, le, is_finite}

  pub record ThresholdPolicy : Type 0 where
    pub calculator : List AgentCapabilities → F64
    pub join_threshold : F64
    pub leave_threshold : F64

  -- a decision on what an agent adds; nothing is done on a value that is not finite
  unfoldable pub judged : F64 → (F64 → Bool) → Decision F64
  judged marginal act =
      if is_finite marginal
      then record { act = act marginal; score = marginal }
      else record { act = false; score = of_nat 0 }

  unfoldable pub threshold_join :
      ThresholdPolicy → AgentCapabilities → List AgentCapabilities → Decision F64
  unfolding judged
  threshold_join p agent coalition =
      judged (sub (p.calculator (coalition ++ agent ∷ [])) (p.calculator coalition))
        (λ marginal. le p.join_threshold marginal)

  unfoldable pub threshold_leave :
      ThresholdPolicy → AgentCapabilities → List AgentCapabilities → Decision F64
  unfolding judged
  threshold_leave p agent coalition =
      judged (sub (p.calculator coalition) (p.calculator (all_but agent coalition)))
        (λ marginal. lt marginal p.leave_threshold)

  -- the policy as the coalition manager takes it; it has no panic of its own
  abbrev pub policy_of : ThresholdPolicy → Policy AgentCapabilities
  policy_of p = record {
    Score = F64;
    zero_score = of_nat 0;
    should_join = λ agent coalition. some (threshold_join p agent coalition);
    should_leave = λ agent coalition. some (threshold_leave p agent coalition);
  }

  all_but-append :
      (agent : AgentCapabilities) (coalition : List AgentCapabilities)
      → contains (map (λ a. a.agent_id) coalition) agent.agent_id ≡ false
      → all_but agent (coalition ++ agent ∷ []) ≡ coalition
  all_but-append agent [] new = rw (==_refl agent.agent_id) refl
  all_but-append agent (a ∷ coalition) new =
      let differs : (a.agent_id == agent.agent_id) ≡ false = ground (arith, new) in
      rw differs (ap (λ l. a ∷ l) (all_but-append agent coalition (ground (arith, new))))

  -- An agent that has joined a coalition is judged, when it asks to leave, by the same score as when
  -- it asked to join, as long as the members are the same.
  pub threshold_leave-threshold_join :
      (p : ThresholdPolicy) (agent : AgentCapabilities) (coalition : List AgentCapabilities)
      → contains (map (λ a. a.agent_id) coalition) agent.agent_id ≡ false
      → (threshold_leave p agent (coalition ++ agent ∷ [])).score
        ≡ (threshold_join p agent coalition).score
  unfolding threshold_leave threshold_join judged
  threshold_leave-threshold_join p agent coalition new =
      let marginal = sub (p.calculator (coalition ++ agent ∷ [])) (p.calculator coalition) in
      rw (all_but-append agent coalition new) (elim (Bool-cases (is_finite marginal)) [
        | inl finite ↦ rw finite refl
        | inr infinite ↦ rw infinite refl
      ])
