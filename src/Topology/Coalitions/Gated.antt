-- ===== src/Topology/Coalitions/Gated.antt =====
-- Joins and leaves that a policy gates (src/topology/coalitions.rs).
use koalisi.Common.{
  ℕ, suc, ◌+◌, ◌≡◌, refl, ap, sym, length, Option, some, ◌∙◌, Bool, true, false, none, List, [],
  ◌∷◌, arith, contains, if◌then◌else◌, inl, inr,
}
use koalisi.Topology.Events.{VertexIndex, HyperedgeIndex}
use koalisi.Topology.Errors.{Outcome, ok, err, panicked, Outcome-cases}
use koalisi.Topology.Jobs.{proceed, pure}
use koalisi.Topology.Hypergraph.{Library}
use koalisi.Topology.Temporal.{TemporalHypergraph, get_vertex_weight, get_hyperedge_vertices}
use koalisi.Topology.Coalitions.{
  Decision, Policy, Others, consulted, without, view_of, get_agent, coalition_members,
  agent_weights, when_act, join_coalition, leave_if, try_join_coalition, try_leave_coalition,
}

proceed_state :
    {S E A B : Type 0} (f : A → B) (x : S × Outcome E A) → (proceed (λ a. pure (f a)) x).0 ≡ x.0
proceed_state f (s, ok a) = refl
proceed_state f (s, err e) = refl
proceed_state f (s, panicked) = refl

apply_if :
    {A B : Type 0} (b : Bool) (f g : A → B) (a : A)
    → (if b then f else g) a ≡ (if b then f a else g a)
apply_if true f g a = refl
apply_if false f g a = refl

module _ {V HE : Type 0} (lib : Library V HE) where
  -- Where nobody interferes, reading the members' weights changes nothing.
  pub agent_weights-unchanged :
      (k : ℕ) (ms : List VertexIndex) (th : TemporalHypergraph lib)
      → (agent_weights lib (λ _ t. t) k ms th).0 ≡ th
  unfolding agent_weights get_agent
  agent_weights-unchanged k [] th = refl
  agent_weights-unchanged k (m ∷ ms) th = elim (Outcome-cases (get_vertex_weight lib th m)) [
    | inl (w, e) ↦ rw e (
        proceed_state (λ weights. w ∷ weights) (agent_weights lib (λ _ t. t) (suc k) ms th)
        ∙ agent_weights-unchanged (suc k) ms th)
    | inr (inl (x, e)) ↦ rw e
    | inr (inr e) ↦ rw e
  ]

module _ {V HE : Type 0} (lib : Library V HE) (policy : Policy V) (meanwhile : Others lib)
    (th : TemporalHypergraph lib) where
  -- After the decision, in the state that it finds: the mutation, if it acts.
  abbrev pub IsActed :
      Decision policy.Score
      → (TemporalHypergraph lib → TemporalHypergraph lib × Outcome lib.HypergraphError (Unit {0}))
      → TemporalHypergraph lib
      → TemporalHypergraph lib
      → Type 0
  IsActed decision action found th' =
      (decision.act ≡ true → action found ≡ (th', ok tt)) × (decision.act ≡ false → th' ≡ found)

  when_act-IsActed :
      (decision given : Decision policy.Score)
      (action : TemporalHypergraph lib
        → TemporalHypergraph lib × Outcome lib.HypergraphError (Unit {0}))
      (found th' : TemporalHypergraph lib)
      → when_act lib decision action found ≡ (th', ok given)
      → (given ≡ decision) × IsActed given action found th'
  unfolding when_act
  when_act-IsActed decision given action found th' h =
      let (same, acted, kept) =
        go decision.act (action found) (sym (apply_if decision.act _ _ _) ∙ h) in
      (
        same,
        (λ p. acted (ap (λ d. d.act) (sym same) ∙ p), λ p. kept (ap (λ d. d.act) (sym same) ∙ p)),
      )
    where
      go :
          (b : Bool) (out : TemporalHypergraph lib × Outcome lib.HypergraphError (Unit {0}))
          → (if b then proceed (λ _. pure decision) out else (found, ok decision)) ≡ (th', ok given)
          → (given ≡ decision) × (b ≡ true → out ≡ (th', ok tt)) × (b ≡ false → th' ≡ found)
      go true (s, ok tt) h = (cc, λ p. cc, λ p. cc)
      go true (s, err x) h = absurd (ground arith)
      go true (s, panicked) h = absurd (ground arith)
      go false out h = (cc, λ p. cc, λ p. cc)

  -- what follows the policy's answer
  consulted-IsActed :
      (answer : Option (Decision policy.Score)) (given : Decision policy.Score)
      (action : TemporalHypergraph lib
        → TemporalHypergraph lib × Outcome lib.HypergraphError (Unit {0}))
      (found th' : TemporalHypergraph lib)
      → proceed (λ decision. when_act lib decision action) (consulted lib answer found)
        ≡ (th', ok given)
      → (answer ≡ some given) × IsActed given action found th'
  consulted-IsActed none given action found th' h = absurd (ground arith)
  consulted-IsActed (some decision) given action found th' h =
      let (same, acted) = when_act-IsActed decision given action found th' h in
      (ap (λ d. some d) (sym same), acted)

  pub try_join_coalition-IsActed :
      (agent : VertexIndex) (coalition : HyperedgeIndex) (given : Decision policy.Score)
      (th' : TemporalHypergraph lib)
      → try_join_coalition lib policy meanwhile agent coalition th ≡ (th', ok given)
      → (weight : V) × (members : List VertexIndex) × (views : List V)
        × (weighed : TemporalHypergraph lib) × (get_vertex_weight lib th agent ≡ ok weight)
        × (get_hyperedge_vertices lib (meanwhile 0 th) coalition ≡ ok members)
        × (agent_weights lib meanwhile 2 (without agent members) (meanwhile 1 (meanwhile 0 th))
            ≡ (weighed, ok views))
        × (policy.should_join weight views ≡ some given)
        × IsActed given
            (join_coalition lib agent coalition)
            (meanwhile (2 + length (without agent members)) weighed)
            th'
  unfolding try_join_coalition get_agent coalition_members
  try_join_coalition-IsActed agent coalition given th' h =
      elim (Outcome-cases (get_vertex_weight lib th agent)) [
        | inl (weight, e) ↦
            elim (Outcome-cases (get_hyperedge_vertices lib (meanwhile 0 th) coalition)) [
              | inl (members, f) ↦
                  let others_left = meanwhile 1 (meanwhile 0 th) in
                  let weighed = agent_weights lib meanwhile 2 (without agent members) others_left in
                  elim (Outcome-cases weighed.1) [
                    | inl (views, g) ↦
                        let read : weighed ≡ (weighed.0, ok views) = ap (λ o. (weighed.0, o)) g in
                        let acted =
                          consulted-IsActed (policy.should_join weight views) given
                            (join_coalition lib agent coalition)
                            (meanwhile (2 + length (without agent members)) weighed.0) th'
                            (rw (e, f, read) at h) in
                        (weight, members, views, weighed.0, e, f, read, acted.0, acted.1)
                    | inr (inl (x, g)) ↦
                        let read : weighed ≡ (weighed.0, err x) = ap (λ o. (weighed.0, o)) g in
                        absurd (ground (arith, read))
                    | inr (inr g) ↦
                        let read : weighed ≡ (weighed.0, panicked) = ap (λ o. (weighed.0, o)) g in
                        absurd (ground (arith, read))
                  ]
              | inr (inl (x, f)) ↦ absurd (ground arith)
              | inr (inr f) ↦ absurd (ground arith)
            ]
        | inr (inl (x, e)) ↦ absurd (ground arith)
        | inr (inr e) ↦ absurd (ground arith)
      ]

  view_of-stranger :
      (agent : VertexIndex) (members : List VertexIndex) (views : List V)
      → contains members agent ≡ false
      → view_of agent members views ≡ none
  view_of-stranger agent [] views h = refl
  view_of-stranger agent (m ∷ ms) [] h = refl
  view_of-stranger agent (m ∷ ms) (w ∷ ws) h = ground (arith, view_of-stranger agent ms ws)

  -- When the members and their weights can be read, an agent that is not among the members
  -- does not leave: the policy is not asked, nothing is done, and the decision does not act.
  pub try_leave_coalition-stranger :
      (agent : VertexIndex) (coalition : HyperedgeIndex) (members : List VertexIndex)
      (views : List V) (weighed : TemporalHypergraph lib)
      → get_hyperedge_vertices lib th coalition ≡ ok members
      → agent_weights lib meanwhile 1 members (meanwhile 0 th) ≡ (weighed, ok views)
      → contains members agent ≡ false
      → try_leave_coalition lib policy meanwhile agent coalition th
        ≡ (weighed, ok (record { act = false; score = policy.zero_score }))
  unfolding try_leave_coalition coalition_members leave_if
  try_leave_coalition-stranger agent coalition members views weighed found read stranger =
      rw (found, read, view_of-stranger agent members views stranger)
