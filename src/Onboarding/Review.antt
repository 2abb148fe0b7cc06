-- ===== src/Onboarding/Review.antt =====
-- The review of applicants: `reviewApplicant` of src/app/admin/page-v3.tsx, and `recordGate` of
-- src/app/admin/agents/[id]/onboarding/page.tsx. What the marketing platform and the mail
-- server answer comes with the request; the log of integration errors is not kept.
use crm_mcd.Prelude.{
  ℕ, Bool, true, false, ◌&&◌, ◌||◌, not, Option, none, some, ◌∷◌, String, Date, Result, ok, err,
  ◌>>=◌, or_throw, find, update, is_some, is_none, trimmed, if◌then◌else◌,
}
use crm_mcd.Lead.{Role, User, UserStatus, Error}
use crm_mcd.Session.{require_role, is_admin_role}
use crm_mcd.Onboarding.{Onboarding, Login, Partner, DocType, AgentStatus, user_key, partner_key}
use crm_mcd.Onboarding.Policy.{ActivationGate}
use crm_mcd.Onboarding.Activation.{create_activation}
use crm_mcd.Onboarding.Documents.{is_approved, is_signed, document_of, four_gates_complete}

pub data ReviewAction : Type 0 where
  confirm_call approve needs_correction reject resend_activation : ReviewAction

pub record ReviewEnv : Type 0 where
  pub session : Option User
  pub now : Date
  pub tag_accepted : Bool
  pub smtp_configured : Bool
  pub delivered : Bool
  pub fresh_token : ℕ
  pub token_hash : String

pub data ReviewError : Type 0 where
  session : Error → ReviewError
  applicant_not_found call_not_confirmed already_approved note_required : ReviewError

-- The notices of the redirects; `done` is a plain return.
pub data ReviewNotice : Type 0 where
  done onboarding_unavailable onboarding_trigger_failed onboarding_started : ReviewNotice
  activation_unavailable smtp_not_configured activation_failed activation_sent : ReviewNotice

abbrev pub Reviewed : Type 0
Reviewed = Result ReviewError ReviewNotice × Onboarding

-- `REVIEW_ROLES`.
abbrev pub is_review_role : Role → Bool
is_review_role Role.owner = true
is_review_role Role.super_admin = true
is_review_role Role.sales_manager = true
is_review_role _ = false

abbrev pub noted : String → ℕ → Onboarding → Onboarding
noted action id s = record s { audits = record { action_type = action; entity_id = id } ∷ s.audits }

abbrev pub write_partner : ℕ → (Partner → Partner) → Onboarding → Onboarding
write_partner id touch s = record s { partners = update partner_key id touch s.partners }

abbrev pub confirm_call_touch : Date → Partner → Partner
confirm_call_touch now a = record a { confirmed_call_at = some now }

abbrev pub approve_touch : Date → ℕ → Partner → Partner
approve_touch now reviewer a = record a {
  status = AgentStatus.approved;
  approved_by_id = some reviewer;
  approved_at = some now;
  review_note = none;
}

abbrev pub turn_down_touch : AgentStatus → String → Partner → Partner
turn_down_touch status note a = record a { status = status; review_note = some note }

unfoldable pub confirm : ReviewEnv → Partner → Onboarding → Reviewed
confirm env agent s = if is_some agent.confirmed_call_at then (ok ReviewNotice.done, s) else (
  ok ReviewNotice.done,
  noted "APPLICANT_CONFIRMED_CALL" agent.id (write_partner agent.id (confirm_call_touch env.now) s),
)

unfoldable pub approve_applicant : ReviewEnv → User → Partner → Onboarding → Reviewed
approve_applicant env reviewer agent s =
    if is_approved agent.status
    then (ok ReviewNotice.done, s)
    else if is_none agent.confirmed_call_at
    then (err ReviewError.call_not_confirmed, s)
    else if is_none agent.ghl_contact_id
    then (
      ok ReviewNotice.onboarding_unavailable,
      noted "APPLICANT_APPROVAL_GHL_HANDOFF_FAILED" agent.id s,
    )
    else if not env.tag_accepted
    then (
      ok ReviewNotice.onboarding_trigger_failed,
      noted "APPLICANT_APPROVAL_GHL_HANDOFF_FAILED" agent.id s,
    )
    else (
      ok ReviewNotice.onboarding_started,
      noted "APPLICANT_APPROVED" agent.id
          (write_partner agent.id (approve_touch env.now reviewer.id) s),
    )

abbrev is_invited : UserStatus → Bool
is_invited UserStatus.invited = true
is_invited _ = false

-- `agent.user`, if it is there and invited.
unfoldable pub invited_user : Partner → Onboarding → Option Login
invited_user agent s = elim agent.user_id [
  | none ↦ none
  | some id ↦ elim (find user_key id s.users) [
    | none ↦ none
    | some user ↦ if is_invited user.status then some user else none
  ]
]

unfoldable pub onboarding_complete : Partner → Onboarding → Bool
unfolding four_gates_complete document_of
onboarding_complete agent s =
    four_gates_complete agent.id s.documents
    && is_signed (document_of agent.id DocType.sales_agreement s.documents)

unfoldable pub resend : ReviewEnv → Partner → Option Login → Onboarding → Reviewed
unfolding onboarding_complete create_activation
resend env agent none s = (ok ReviewNotice.activation_unavailable, s)
resend env agent (some user) s =
    if not (is_approved agent.status) || not (onboarding_complete agent s)
    then (ok ReviewNotice.activation_unavailable, s)
    else if not env.smtp_configured
    then (ok ReviewNotice.smtp_not_configured, s)
    else if not env.delivered
    then (
      ok ReviewNotice.activation_failed,
      noted "ACTIVATION_LINK_RESEND_FAILED" user.id
          (create_activation env.now env.fresh_token env.token_hash user.id s),
    )
    else (
      ok ReviewNotice.activation_sent,
      noted "ACTIVATION_LINK_RESENT" user.id
          (create_activation env.now env.fresh_token env.token_hash user.id s),
    )

-- At least three characters.
abbrev is_note : String → Bool
is_note (String.◌∷◌ a (String.◌∷◌ b (String.◌∷◌ c s))) = true
is_note _ = false

abbrev pub note_given : Option String → Option String
note_given none = none
note_given (some note) = if is_note note then some note else none

unfoldable pub turn_down : AgentStatus → String → Partner → Option String → Onboarding → Reviewed
turn_down status action agent note s =
    if is_approved agent.status
    then (err ReviewError.already_approved, s)
    else elim (note_given note) [
      | none ↦ (err ReviewError.note_required, s)
      | some text ↦ (
        ok ReviewNotice.done,
        noted action agent.id (write_partner agent.id (turn_down_touch status text) s),
      )
    ]

unfoldable pub act :
    ReviewEnv → User → Partner → ReviewAction → Option String → Onboarding → Reviewed
unfolding confirm approve_applicant resend invited_user turn_down trimmed
act env reviewer agent ReviewAction.confirm_call words s = confirm env agent s
act env reviewer agent ReviewAction.approve words s = approve_applicant env reviewer agent s
act env reviewer agent ReviewAction.resend_activation words s =
    resend env agent (invited_user agent s) s
act env reviewer agent ReviewAction.reject words s =
    turn_down AgentStatus.rejected "APPLICANT_REJECTED" agent (trimmed words) s
act env reviewer agent ReviewAction.needs_correction words s =
    turn_down AgentStatus.needs_correction "APPLICANT_CORRECTION_REQUESTED" agent (trimmed words) s

abbrev as_review : {A : Type 0} → Result Error A → Result ReviewError A
as_review (ok a) = ok a
as_review (err e) = err (ReviewError.session e)

unfoldable pub applicant_checked :
    (Role → Bool) → ReviewEnv → ℕ → Onboarding → Result ReviewError (User × Partner)
unfolding require_role
applicant_checked role env agent_id s = do
  reviewer ← as_review (require_role role env.session)
  agent ← or_throw (find partner_key agent_id s.partners) ReviewError.applicant_not_found
  ok (reviewer, agent)

unfoldable pub review_applicant :
    ReviewEnv → ℕ → ReviewAction → Option String → Onboarding → Reviewed
unfolding applicant_checked act
review_applicant env agent_id action note s =
    elim (applicant_checked is_review_role env agent_id s) [
      | ok found ↦ act env found.0 found.1 action note s
      | err e ↦ (err e, s)
    ]

-- The column of a gate.
abbrev pub gate_touch : ActivationGate → Option Date → Partner → Partner
gate_touch ActivationGate.w9_verification at a = record a { w9_verified_at = at }
gate_touch ActivationGate.profile_completion at a = record a { profile_completed_at = at }
gate_touch ActivationGate.training_completion at a = record a { training_completed_at = at }

unfoldable pub record_gate : ReviewEnv → ℕ → ActivationGate → Bool → Onboarding → Reviewed
unfolding applicant_checked
record_gate env agent_id gate recording s = elim (applicant_checked is_admin_role env agent_id s) [
  | ok found ↦ (
    ok ReviewNotice.done,
    noted (if recording then "AGENT_ACTIVATION_GATE_RECORDED" else "AGENT_ACTIVATION_GATE_CLEARED")
        found.1.id
        (write_partner found.1.id (gate_touch gate (if recording then some env.now else none)) s),
  )
  | err e ↦ (err e, s)
]
