-- ===== src/Onboarding/Policy.antt =====
-- When an agent may be sent an activation link: `evaluateAgentActivation` (src/lib/agent-activation-policy.ts).
use crm_mcd.Prelude.{
  ◌≡◌, ◌↔◌, refl, Bool, true, false, not, ◌||◌, List, [], ◌∷◌, ◌++◌, if◌then◌else◌, arith,
}

pub data ActivationState : Type 0 where
  applicant_in_review documents_in_progress documents_complete w9_verified : ActivationState
  profile_complete training_complete active_partner : ActivationState

pub data ActivationGate : Type 0 where
  w9_verification profile_completion training_completion : ActivationGate

pub record ActivationInput : Type 0 where
  pub agent_approved : Bool
  pub documents_complete : Bool
  pub agreement_countersigned : Bool
  pub w9_verified : Bool
  pub profile_complete : Bool
  pub training_complete : Bool
  pub provisioned : Bool

pub record ActivationResult : Type 0 where
  pub state : ActivationState
  pub may_issue_activation : Bool
  pub missing_internal_gates : List ActivationGate

abbrev pub result : ActivationState → Bool → List ActivationGate → ActivationResult
result state may missing = record {
  state = state;
  may_issue_activation = may;
  missing_internal_gates = missing;
}

abbrev missing_if : Bool → ActivationGate → List ActivationGate
missing_if met gate = if met then [] else gate ∷ []

unfoldable pub missing_gates : ActivationInput → List ActivationGate
missing_gates input =
    missing_if input.w9_verified ActivationGate.w9_verification
    ++ (missing_if input.profile_complete ActivationGate.profile_completion
        ++ missing_if input.training_complete ActivationGate.training_completion)

unfoldable pub evaluate_agent_activation : ActivationInput → ActivationResult
unfolding missing_gates
evaluate_agent_activation input =
    let missing = missing_gates input in
    if input.provisioned
    then result ActivationState.active_partner false missing
    else if not input.agent_approved
    then result ActivationState.applicant_in_review false missing
    else if not input.documents_complete || not input.agreement_countersigned
    then result ActivationState.documents_in_progress false missing
    else if not input.w9_verified
    then result ActivationState.documents_complete false missing
    else if not input.profile_complete
    then result ActivationState.w9_verified false missing
    else if not input.training_complete
    then result ActivationState.profile_complete false missing
    else result ActivationState.training_complete true missing

-- The documented gates, all of them.
pub record Qualifies (input : ActivationInput) : Type 0 where
  pub new_here : input.provisioned ≡ false
  pub approved : input.agent_approved ≡ true
  pub documents : input.documents_complete ≡ true
  pub countersigned : input.agreement_countersigned ≡ true
  pub w9 : input.w9_verified ≡ true
  pub profile : input.profile_complete ≡ true
  pub training : input.training_complete ≡ true

qualifies :
    (input : ActivationInput)
    → (evaluate_agent_activation input).may_issue_activation ≡ true
    → Qualifies input
unfolding evaluate_agent_activation
qualifies input h = record {
  new_here = ground arith;
  approved = ground arith;
  documents = ground arith;
  countersigned = ground arith;
  w9 = ground arith;
  profile = ground arith;
  training = ground arith;
}

issues :
    (input : ActivationInput)
    → Qualifies input
    → (evaluate_agent_activation input).may_issue_activation ≡ true
unfolding evaluate_agent_activation
issues input q =
    rw (q.new_here, q.approved, q.documents, q.countersigned, q.w9, q.profile, q.training) refl

-- The policy allows an activation link exactly when the agent is approved, has its four documents and the
-- countersigned agreement, has passed the three internal gates, and was not provisioned yet.
pub activation_iff :
    (input : ActivationInput)
    → ((evaluate_agent_activation input).may_issue_activation ≡ true) ↔ Qualifies input
activation_iff input = (qualifies input, issues input)
