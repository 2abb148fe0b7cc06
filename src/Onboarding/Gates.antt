-- ===== src/Onboarding/Gates.antt =====
-- What the webhook of completed documents gives away (src/app/api/ghl/documents/route.ts with
-- src/lib/agent-activation-policy.ts).
use crm_mcd.Prelude.{
  ℕ, ◌≡◌, refl, sym, ap, ◌∙◌, Bool, true, false, Option, none, some, List, ◌∷◌, Date, arith, find,
  first_where, str_eq, str_refl, find-own_key, find-update_ne, find-update_self, count_where, ◌≢◌,
  ◌⊎◌, Bool-cases, Option-cases, inl, inr,
}
use crm_mcd.Lead.{Role, UserStatus}
use crm_mcd.Session.{is_agent_role}
use crm_mcd.Webhook.{record_inbound_event}
use crm_mcd.Onboarding.{Onboarding, Login, Partner, partner_key}
use crm_mcd.Onboarding.Policy.{Qualifies, activation_iff, evaluate_agent_activation}
use crm_mcd.Onboarding.Activation.{live_for}
use crm_mcd.Onboarding.Documents.{
  DocumentEnv, DocumentPayload, DocumentAnswer, Stage, policy_input, admit, weigh, settle,
  process_document, receive_document, as_inbound, record_document, payload_agent, provision_touch,
  issue, give_up, invited_login,
}
use crm_mcd.Onboarding.Issued.{Issued, is_provisioned, issue-cases}

-- An invited user that has never been in.
pub record IsInvited (u : Login) : Type 0 where
  pub role : u.role ≡ Role.agent
  pub status : u.status ≡ UserStatus.invited
  pub password : u.password_hash ≡ none

-- What is left alone up to the decision.
pub record Same (s t : Onboarding) : Type 0 where
  pub users : t.users ≡ s.users
  pub tokens : t.tokens ≡ s.tokens
  pub partners : t.partners ≡ s.partners

-- What an outcome leaves alone, unless an agent is provisioned.
pub record Withholds (s t : Onboarding) : Type 0 where
  pub users : (t.users ≡ s.users) ⊎ ((u : Login) × (t.users ≡ u ∷ s.users) × IsInvited u)
  pub tokens : t.tokens ≡ s.tokens
  pub partners : t.partners ≡ s.partners

-- The user that the webhook looks for.
abbrev pub has_address : Partner → Login → Bool
has_address a u = str_eq u.email a.personal_email

-- An agent that is provisioned: it was there, it passed every gate on the documents as they are then, and it is now
-- tied to the agent user that has its e-mail; an answer that says so leaves that user one link.
pub record IsEarned (now : Date) (s : Onboarding) (r : DocumentAnswer × Onboarding) : Type 0 where
  pub agent : Partner
  pub known : find partner_key agent.id s.partners ≡ some agent
  pub qualified : Qualifies (policy_input agent r.1.documents)
  pub user : Login
  pub met : first_where (has_address agent) r.1.users ≡ some user
  pub is_agent : is_agent_role user.role ≡ true
  pub tied :
      (a : Partner) × (find partner_key agent.id r.1.partners ≡ some a)
      × (a.user_id ≡ some user.id)
      × (a.provisioned_at ≡ some now)
  pub link : is_provisioned r.0 ≡ true → count_where (live_for user.id) r.1.tokens ≡ 1
  pub answer : (r.0 ≡ DocumentAnswer.provisioned) ⊎ (r.0 ≡ DocumentAnswer.failed)
  pub others :
      (i : ℕ) → i ≢ agent.id → find partner_key i r.1.partners ≡ find partner_key i s.partners

unfoldable pub Fair : Date → Onboarding → DocumentAnswer × Onboarding → Type 0
Fair now s r = ((is_provisioned r.0 ≡ false) × Withholds s r.1) ⊎ IsEarned now s r

-- An answer that does not provision.
withheld :
    (now : Date) (answer : DocumentAnswer) (s t u : Onboarding)
    → is_provisioned answer ≡ false
    → Same s t
    → u.users ≡ t.users
    → u.tokens ≡ t.tokens
    → u.partners ≡ t.partners
    → Fair now s (answer, u)
unfolding Fair
withheld now answer s t u not_so w users tokens partners = inl (
  not_so,
  record {
    users = inl (users ∙ w.users);
    tokens = tokens ∙ w.tokens;
    partners = partners ∙ w.partners;
  },
)

Issued-IsEarned :
    (env : DocumentEnv) (current : Partner) (user : Login) (s t : Onboarding)
    (r : DocumentAnswer × Onboarding)
    → Qualifies (policy_input current t.documents)
    → find partner_key current.id t.partners ≡ some current
    → t.partners ≡ s.partners
    → first_where (has_address current) t.users ≡ some user
    → is_agent_role user.role ≡ true
    → Issued env current user.id t r
    → IsEarned env.now s r
Issued-IsEarned env current user s t r q h same met role issued = record {
  agent = current;
  known = ap (λ ps. find partner_key current.id ps) (sym same) ∙ h;
  qualified = rw issued.documents q;
  user = user;
  met = rw issued.users met;
  is_agent = role;
  tied = (
    provision_touch env.now user.id current,
    rw issued.partners (
        find-update_self partner_key current.id (provision_touch env.now user.id) t.partners
          {x = current} (λ a. refl) h),
    refl,
    refl,
  );
  link = issued.link;
  answer = issued.answer;
  others = λ i ne.
      ap (λ ps. find partner_key i ps) issued.partners
      ∙ find-update_ne partner_key i current.id (provision_touch env.now user.id) t.partners
          (λ a. refl) ne
      ∙ ap (λ ps. find partner_key i ps) same;
}

-- The steps from a user on, which was there or has just been created.
issue-Fair :
    (env : DocumentEnv) (p : DocumentPayload) (current : Partner) (user : Login) (s t : Onboarding)
    → Qualifies (policy_input current t.documents)
    → find partner_key current.id t.partners ≡ some current
    → Withholds s t
    → first_where (has_address current) t.users ≡ some user
    → is_agent_role user.role ≡ true
    → Fair env.now s (issue env p current user.id t)
unfolding Fair
issue-Fair env p current user s t q h w met role = elim (issue-cases env p current user.id t) [
  | inl stop ↦ inl (
    ap is_provisioned stop.answer,
    record {
      users = rw stop.users w.users;
      tokens = stop.tokens ∙ w.tokens;
      partners = stop.partners ∙ w.partners;
    },
  )
  | inr done ↦ inr (Issued-IsEarned env current user s t _ q h w.partners met role done)
]

new_user-met :
    (env : DocumentEnv) (current : Partner) (users : List Login)
    → first_where (has_address current) (invited_login env current ∷ users)
      ≡ some (invited_login env current)
unfolding first_where
new_user-met env current users = ground (arith, str_refl current.personal_email)

admit-Fair :
    (env : DocumentEnv) (p : DocumentPayload) (current : Partner) (user : Option Login)
    (s t : Onboarding)
    → Qualifies (policy_input current t.documents)
    → find partner_key current.id t.partners ≡ some current
    → Same s t
    → first_where (has_address current) t.users ≡ user
    → Fair env.now s (admit env p current user t)
unfolding admit give_up
admit-Fair env p current none s t q h w met = elim (Bool-cases (env.fails Stage.inviting)) [
  | inl e ↦ rw e (withheld env.now DocumentAnswer.failed s t _ refl w refl refl refl)
  | inr e ↦
      let u = invited_login env current in
      let t' = record t { users = u ∷ t.users } in
      let waits : Withholds s t' = record {
        users =
            inr (
              u,
              ap (λ us. u ∷ us) w.users,
              record { role = refl; status = refl; password = refl },
            );
        tokens = w.tokens;
        partners = w.partners;
      } in
      rw e (issue-Fair env p current u s t' q h waits (new_user-met env current t.users) refl)
]
admit-Fair env p current (some user) s t q h w met = elim (Bool-cases (is_agent_role user.role)) [
  | inl agent ↦
      let waits : Withholds s t = record {
        users = inl w.users;
        tokens = w.tokens;
        partners = w.partners;
      } in
      rw agent (issue-Fair env p current user s t q h waits met agent)
  | inr privileged ↦
      rw privileged (withheld env.now DocumentAnswer.conflict s t _ refl w refl refl refl)
]

weigh-Fair :
    (env : DocumentEnv) (p : DocumentPayload) (current : Partner) (s t : Onboarding)
    → find partner_key current.id t.partners ≡ some current
    → Same s t
    → Fair env.now s (weigh env p current t)
unfolding weigh
weigh-Fair env p current s t h w =
    let policy = evaluate_agent_activation (policy_input current t.documents) in
    elim (Bool-cases policy.may_issue_activation) [
      | inl may ↦
          let q = (activation_iff (policy_input current t.documents)).0 may in
          rw may
            (admit-Fair env p current (first_where (has_address current) t.users) s t q h w refl)
      | inr must_wait ↦
          rw must_wait
            (withheld env.now (DocumentAnswer.waiting policy.state) s t _ refl w refl refl refl)
    ]

settle-Fair :
    (env : DocumentEnv) (p : DocumentPayload) (i : ℕ) (s t : Onboarding)
    → Same s t
    → Fair env.now s (settle env p i t)
unfolding settle give_up
settle-Fair env p i s t w = elim (Option-cases (find partner_key i t.partners)) [
  | inl gone ↦
      rw (gone, settle) (withheld env.now DocumentAnswer.failed s t _ refl w refl refl refl)
  | inr (current, here) ↦
      rw (here, settle)
        (weigh-Fair env p current s t (find-own_key partner_key i t.partners current here) w)
]

record_document-Same :
    (env : DocumentEnv) (p : DocumentPayload) (i : ℕ) (s t : Onboarding)
    → Same s t
    → Same s (record_document env p i t)
unfolding record_document
record_document-Same env p i s t w = record {
  users = w.users;
  tokens = w.tokens;
  partners = w.partners;
}

process_document-Fair :
    (env : DocumentEnv) (p : DocumentPayload) (s t : Onboarding)
    → Same s t
    → Fair env.now s (process_document env p t)
unfolding process_document give_up
process_document-Fair env p s t w = elim (Bool-cases (str_eq p.status "COMPLETED")) [
  | inl done ↦ elim (Option-cases (payload_agent p t)) [
    | inl nobody ↦
        rw (done, nobody, process_document)
          (withheld env.now DocumentAnswer.unmatched s t _ refl w refl refl refl)
    | inr (agent, here) ↦ elim (Bool-cases (env.fails Stage.recording)) [
      | inl lost ↦
          rw (done, here, process_document, lost)
            (withheld env.now DocumentAnswer.failed s t _ refl w refl refl refl)
      | inr written ↦
          rw (done, here, process_document, written)
            (settle-Fair env p agent.id s (record_document env p agent.id t)
              (record_document-Same env p agent.id s t w))
    ]
  ]
  | inr other ↦
      rw (other, process_document)
        (withheld env.now DocumentAnswer.ignored s t _ refl w refl refl refl)
]

-- A document webhook ends in one of two ways, also when one of the steps that write throws. Either it does not answer
-- that an agent was provisioned, and has changed no token and no agent, and no user but that an invited one without a
-- password may be new. Or one agent passed every gate on the documents as they are then (approved, four documents
-- complete, agreement countersigned, W-9, profile and training recorded, not provisioned before); it now reads as
-- provisioned now, with the agent user that has its e-mail; no other agent has changed; and the answer is that it was
-- provisioned, and then that user has exactly one live link, or that a step failed.
pub receive_document-Fair :
    (env : DocumentEnv) (p : DocumentPayload) (s : Onboarding)
    → Fair env.now s (receive_document env p s)
unfolding receive_document
receive_document-Fair env p s =
    let recorded = record_inbound_event (as_inbound p) s.events in
    let t = record s { events = recorded.1 } in
    let same : Same s t = record { users = refl; tokens = refl; partners = refl } in
    elim (Bool-cases recorded.0.first_time) [
      | inl first ↦ rw first (process_document-Fair env p s t same)
      | inr again ↦
          rw again (withheld env.now DocumentAnswer.duplicate s t t refl same refl refl refl)
    ]
