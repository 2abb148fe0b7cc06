-- ===== src/Onboarding/Provisioned.antt =====
-- The review, the gates and the document webhook in any order (src/app/admin/page-v3.tsx,
-- src/app/admin/agents/[id]/onboarding/page.tsx, src/app/api/ghl/documents/route.ts).
use crm_mcd.Prelude.{
  ℕ, ◌≡◌, refl, Bool, true, Option, none, some, List, [], ◌∷◌, String, arith, find, find-own_key,
  first_where, str_eq, Bool-cases, Option-cases, Result-cases, inl, inr, if◌then◌else◌, ok,
}
use crm_mcd.Lead.{Role, User}
use crm_mcd.Session.{is_admin_role, is_agent_role}
use crm_mcd.Webhook.{record_inbound_event}
use crm_mcd.Onboarding.{Onboarding, Login, Partner, partner_key}
use crm_mcd.Onboarding.Policy.{ActivationGate, activation_iff, evaluate_agent_activation}
use crm_mcd.Onboarding.Documents.{
  DocumentEnv, DocumentPayload, Stage, give_up, is_approved, policy_input, admit, weigh, settle,
  process_document, receive_document, as_inbound, record_document, payload_agent, invited_login,
}
use crm_mcd.Onboarding.Review.{
  ReviewEnv, ReviewAction, is_review_role, applicant_checked, review_applicant, record_gate,
}
use crm_mcd.Onboarding.Vetting.{
  AllVetted, same-AllVetted, act-AllVetted, gate-AllVetted, issue-AllVetted,
}

admit-AllVetted :
    (env : DocumentEnv) (p : DocumentPayload) (a : Partner) (user : Option Login) (s : Onboarding)
    → find partner_key a.id s.partners ≡ some a
    → is_approved a.status ≡ true
    → AllVetted s
    → AllVetted (admit env p a user s).1
unfolding admit give_up
admit-AllVetted env p a none s found approved h = elim (Bool-cases (env.fails Stage.inviting)) [
  | inl e ↦ rw e (same-AllVetted s _ refl h)
  | inr e ↦
      let t = record s { users = invited_login env a ∷ s.users } in
      rw e (issue-AllVetted a t found (same-AllVetted s t refl h) env p env.fresh_user approved)
]
admit-AllVetted env p a (some user) s found approved h =
    elim (Bool-cases (is_agent_role user.role)) [
      | inl agent ↦ rw agent (issue-AllVetted a s found h env p user.id approved)
      | inr privileged ↦ rw privileged (same-AllVetted s _ refl h)
    ]

weigh-AllVetted :
    (env : DocumentEnv) (p : DocumentPayload) (a : Partner) (s : Onboarding)
    → find partner_key a.id s.partners ≡ some a
    → AllVetted s
    → AllVetted (weigh env p a s).1
unfolding weigh policy_input
weigh-AllVetted env p a s found h =
    elim (Bool-cases
      (evaluate_agent_activation (policy_input a s.documents)).may_issue_activation) [
        | inl may ↦
            let q = (activation_iff (policy_input a s.documents)).0 may in
            rw may (
              admit-AllVetted env p a (first_where (λ u. str_eq u.email a.personal_email) s.users) s
                found q.approved h)
        | inr waits ↦ rw waits (same-AllVetted s _ refl h)
      ]

settle-AllVetted :
    (env : DocumentEnv) (p : DocumentPayload) (i : ℕ) (s : Onboarding)
    → AllVetted s
    → AllVetted (settle env p i s).1
unfolding settle give_up
settle-AllVetted env p i s h = elim (Option-cases (find partner_key i s.partners)) [
  | inl gone ↦ rw (gone, settle) (same-AllVetted s _ refl h)
  | inr (a, here) ↦
      rw (here, settle) (weigh-AllVetted env p a s (find-own_key partner_key i s.partners a here) h)
]

process-AllVetted :
    (env : DocumentEnv) (p : DocumentPayload) (s : Onboarding)
    → AllVetted s
    → AllVetted (process_document env p s).1
unfolding process_document record_document give_up
process-AllVetted env p s h = elim (Bool-cases (str_eq p.status "COMPLETED")) [
  | inl done ↦ elim (Option-cases (payload_agent p s)) [
    | inl nobody ↦ rw (done, nobody, process_document) (same-AllVetted s _ refl h)
    | inr (agent, here) ↦ elim (Bool-cases (env.fails Stage.recording)) [
      | inl lost ↦ rw (done, here, process_document, lost) (same-AllVetted s _ refl h)
      | inr written ↦
          rw (done, here, process_document, written)
            (settle-AllVetted env p agent.id (record_document env p agent.id s)
              (same-AllVetted s _ refl h))
    ]
  ]
  | inr other ↦ rw (other, process_document) (same-AllVetted s _ refl h)
]

receive-AllVetted :
    (env : DocumentEnv) (p : DocumentPayload) (s : Onboarding)
    → AllVetted s
    → AllVetted (receive_document env p s).1
unfolding receive_document
receive-AllVetted env p s h =
    let recorded = record_inbound_event (as_inbound p) s.events in
    let t = record s { events = recorded.1 } in
    elim (Bool-cases recorded.0.first_time) [
      | inl first ↦ rw first (process-AllVetted env p t (same-AllVetted s t refl h))
      | inr again ↦ rw again (same-AllVetted s t refl h)
    ]

applicant_checked-find :
    (role : Role → Bool) (env : ReviewEnv) (i : ℕ) (s : Onboarding) {found : User × Partner}
    → applicant_checked role env i s ≡ ok found
    → find partner_key i s.partners ≡ some found.1
unfolding applicant_checked
applicant_checked-find role env i s h = ground arith

review-AllVetted :
    (env : ReviewEnv) (i : ℕ) (action : ReviewAction) (words : Option String) (s : Onboarding)
    → AllVetted s
    → AllVetted (review_applicant env i action words s).1
unfolding review_applicant
review-AllVetted env i action words s h =
    elim (Result-cases (applicant_checked is_review_role env i s)) [
      | inl (found, e) ↦
          let here =
            find-own_key partner_key i s.partners found.1
              (applicant_checked-find is_review_role env i s e) in
          rw (e, review_applicant) (act-AllVetted found.1 s here h env found.0 action words)
      | inr (thrown, e) ↦ rw (e, review_applicant) h
    ]

record_gate-AllVetted :
    (env : ReviewEnv) (i : ℕ) (gate : ActivationGate) (recording : Bool) (s : Onboarding)
    → AllVetted s
    → AllVetted (record_gate env i gate recording s).1
unfolding record_gate
record_gate-AllVetted env i gate recording s h =
    elim (Result-cases (applicant_checked is_admin_role env i s)) [
      | inl (found, e) ↦
          let here =
            find-own_key partner_key i s.partners found.1
              (applicant_checked-find is_admin_role env i s e) in
          rw (e, record_gate)
            (same-AllVetted _ _ refl
              (gate-AllVetted found.1 s here h gate (if recording then some env.now else none)))
      | inr (thrown, e) ↦ rw (e, record_gate) h
    ]

-- The requests that write agents.
pub data Step : Type 0 where
  review : ReviewEnv → ℕ → ReviewAction → Option String → Step
  gate : ReviewEnv → ℕ → ActivationGate → Bool → Step
  document : DocumentEnv → DocumentPayload → Step

unfoldable pub onboard : Step → Onboarding → Onboarding
unfolding review_applicant record_gate receive_document
onboard (Step.review env i action words) s = (review_applicant env i action words s).1
onboard (Step.gate env i g recording) s = (record_gate env i g recording s).1
onboard (Step.document env p) s = (receive_document env p s).1

unfoldable pub onboard_all : List Step → Onboarding → Onboarding
unfolding onboard
onboard_all [] s = s
onboard_all (x ∷ rest) s = onboard_all rest (onboard x s)

onboard-AllVetted : (x : Step) (s : Onboarding) → AllVetted s → AllVetted (onboard x s)
unfolding onboard
onboard-AllVetted (Step.review env i action words) s h = review-AllVetted env i action words s h
onboard-AllVetted (Step.gate env i g recording) s h = record_gate-AllVetted env i g recording s h
onboard-AllVetted (Step.document env p) s h = receive-AllVetted env p s h

-- Through any reviews, gates and document webhooks, refused or not, ids of agents stay unique, every agent that is
-- approved had its confirmation call, every one that has a user is approved, and none reads ACTIVE, if that was so at
-- the start.
pub onboard_all-AllVetted :
    (steps : List Step) (s : Onboarding) → AllVetted s → AllVetted (onboard_all steps s)
unfolding onboard_all
onboard_all-AllVetted [] s h = h
onboard_all-AllVetted (x ∷ rest) s h =
    onboard_all-AllVetted rest (onboard x s) (onboard-AllVetted x s h)
