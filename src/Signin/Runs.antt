-- ===== src/Signin/Runs.antt =====
-- Locks through the requests that write passwords, counts and locks of users or create users here: sign-ins
-- (src/auth.ts), activations (src/app/api/activate/route.ts) and document webhooks
-- (src/app/api/ghl/documents/route.ts). The edits of role and status in src/app/admin/users/page.tsx are left out.
use crm_mcd.Prelude.{
  ℕ, ◌≡◌, refl, Bool, true, false, not, ◌||◌, leb, Option, none, some, List, [], ◌∷◌, String, Date,
  All, All-update, arith, is_some, is_none, filled, ok, first_where, find, Option-cases, Bool-cases,
  Result-cases, inl, inr, if◌then◌else◌, str_eq,
}
use crm_mcd.Session.{is_agent_role}
use crm_mcd.Webhook.{Ending, record_inbound_event}
use crm_mcd.Onboarding.{Onboarding, Login, Partner, partner_key, user_key}
use crm_mcd.Onboarding.Policy.{evaluate_agent_activation}
use crm_mcd.Onboarding.Activation.{
  ActivationRequest, complete_activation, activation_checked, activation_write, activation_user,
  activate, activate_touch,
}
use crm_mcd.Onboarding.Documents.{
  DocumentEnv, DocumentPayload, receive_document, process_document, settle, weigh, admit, issue,
  Stage, give_up, record_document, payload_agent, policy_input, as_inbound, finished, invited_login,
  DocumentAnswer,
}
use crm_mcd.Onboarding.Issued.{issue-cases}
use crm_mcd.Signin.{
  Credentials, authorize, sign_in, second_factor, enter_write, enter_touch, fail_write, fail_touch,
  has_email, is_active_user, is_locked, password_fits, code_fits, max_failed_logins,
}
use crm_mcd.Signin.Lockout.{fail_write-users}

-- A user has a lock exactly when five wrong passwords are on record.
abbrev pub LockAgrees : Login → Type 0
LockAgrees u = is_some u.locked_until ≡ leb max_failed_logins u.failed_logins

abbrev pub LocksAgree : Onboarding → Type 0
LocksAgree s = All LockAgrees s.users

fail_write-LocksAgree :
    (now : Date) (u : Login) (s : Onboarding) → LocksAgree s → LocksAgree (fail_write now u s)
fail_write-LocksAgree now u s h = rw (fail_write-users now u s) (
    All-update user_key LockAgrees u.id (fail_touch now u.failed_logins) s.users
      (λ v old. ground arith) h)

enter_write-LocksAgree :
    (now : Date) (u : Login) (s : Onboarding) → LocksAgree s → LocksAgree (enter_write now u s)
unfolding enter_write
enter_write-LocksAgree now u s h =
    All-update user_key LockAgrees u.id (enter_touch now) s.users (λ v old. ground arith) h

either-LocksAgree :
    {B : Type 0} (test : Bool) (p q : B × Onboarding)
    → LocksAgree p.1
    → LocksAgree q.1
    → LocksAgree (if test then p else q).1
either-LocksAgree true p q h k = h
either-LocksAgree false p q h k = k

module _ (verify_password check_totp : String → String → Bool) where
  second_factor-LocksAgree :
      (now : Date) (code : Option String) (u : Login) (s : Onboarding)
      → LocksAgree s
      → LocksAgree (second_factor verify_password check_totp now code u s).1
  unfolding second_factor
  second_factor-LocksAgree now none u s h = h
  second_factor-LocksAgree now (some code) u s h =
      elim (Bool-cases (code_fits verify_password check_totp u.totp_secret code)) [
        | inl fits ↦ rw fits (enter_write-LocksAgree now u s h)
        | inr wrong ↦ rw wrong h
      ]

  sign_in-LocksAgree :
      (now : Date) (x : Credentials) (u : Login) (s : Onboarding)
      → LocksAgree s
      → LocksAgree (sign_in verify_password check_totp now x u s).1
  unfolding sign_in
  sign_in-LocksAgree now x u s h =
      elim (Bool-cases (not (is_active_user u.status) || is_none u.password_hash)) [
        | inl out ↦ rw out h
        | inr here ↦ elim (Bool-cases (is_locked now u.locked_until)) [
          | inl locked ↦ rw (here, locked) h
          | inr free ↦
              elim (Bool-cases
                (password_fits verify_password check_totp u.password_hash x.password)) [
                  | inl right ↦
                      rw (here, free, right)
                        (either-LocksAgree u.mfa_enabled
                          (second_factor verify_password check_totp now (filled x.totp) u s)
                          (ok u, enter_write now u s)
                          (second_factor-LocksAgree now (filled x.totp) u s h)
                          (enter_write-LocksAgree now u s h))
                  | inr wrong ↦ rw (here, free, wrong) (fail_write-LocksAgree now u s h)
                ]
        ]
      ]

  authorize-LocksAgree :
      (now : Date) (x : Credentials) (s : Onboarding)
      → LocksAgree s
      → LocksAgree (authorize verify_password check_totp now x s).1
  unfolding authorize
  authorize-LocksAgree now x s h = elim (Option-cases (first_where (has_email x.email) s.users)) [
    | inl nobody ↦ rw (nobody, authorize) h
    | inr (u, found) ↦ rw (found, authorize) (sign_in-LocksAgree now x u s h)
  ]

  activation-LocksAgree :
      (hash_token hash_password : String → String) (now : Date) (x : ActivationRequest)
      (s : Onboarding)
      → LocksAgree s
      → LocksAgree (complete_activation hash_token hash_password check_totp now x s).1
  unfolding complete_activation activation_write activate
  activation-LocksAgree hash_token hash_password now x s h =
      elim (Result-cases (activation_checked hash_token hash_password check_totp now x s)) [
        | inl (t, e) ↦
            elim (Result-cases (activation_user hash_token hash_password check_totp now x t s)) [
              | inl (u, e') ↦
                  rw (e, complete_activation, e', activation_write)
                    (All-update user_key LockAgrees u.id
                      (activate_touch (hash_password x.password) x.totp_secret) s.users
                      (λ v old. refl) h)
              | inr (thrown, e') ↦ rw (e, complete_activation, e', activation_write) h
            ]
        | inr (thrown, e) ↦ rw (e, complete_activation) h
      ]

issue-LocksAgree :
    (env : DocumentEnv) (p : DocumentPayload) (a : Partner) (i : ℕ) (s : Onboarding)
    → LocksAgree s
    → LocksAgree (issue env p a i s).1
issue-LocksAgree env p a i s h = elim (issue-cases env p a i s) [
  | inl stop ↦ rw stop.users h
  | inr done ↦ rw done.users h
]

admit-LocksAgree :
    (env : DocumentEnv) (p : DocumentPayload) (a : Partner) (user : Option Login) (s : Onboarding)
    → LocksAgree s
    → LocksAgree (admit env p a user s).1
unfolding admit give_up
admit-LocksAgree env p a none s h =
    either-LocksAgree (env.fails Stage.inviting) (give_up env p s)
      (issue env p a env.fresh_user (record s { users = invited_login env a ∷ s.users })) h
      (issue-LocksAgree env p a env.fresh_user (record s { users = invited_login env a ∷ s.users })
        (refl, h))
admit-LocksAgree env p a (some user) s h =
    either-LocksAgree (is_agent_role user.role) (issue env p a user.id s)
      (DocumentAnswer.conflict, finished env p Ending.as_error s)
      (issue-LocksAgree env p a user.id s h) h

weigh-LocksAgree :
    (env : DocumentEnv) (p : DocumentPayload) (a : Partner) (s : Onboarding)
    → LocksAgree s
    → LocksAgree (weigh env p a s).1
unfolding weigh
weigh-LocksAgree env p a s h =
    elim (Bool-cases
      (evaluate_agent_activation (policy_input a s.documents)).may_issue_activation) [
        | inl may ↦ rw may (
            admit-LocksAgree env p a (first_where (λ u. str_eq u.email a.personal_email) s.users) s
              h)
        | inr waits ↦ rw waits h
      ]

settle-LocksAgree :
    (env : DocumentEnv) (p : DocumentPayload) (i : ℕ) (s : Onboarding)
    → LocksAgree s
    → LocksAgree (settle env p i s).1
unfolding settle give_up
settle-LocksAgree env p i s h = elim (Option-cases (find partner_key i s.partners)) [
  | inl gone ↦ rw (gone, settle) h
  | inr (a, here) ↦ rw (here, settle) (weigh-LocksAgree env p a s h)
]

process-LocksAgree :
    (env : DocumentEnv) (p : DocumentPayload) (s : Onboarding)
    → LocksAgree s
    → LocksAgree (process_document env p s).1
unfolding process_document record_document give_up
process-LocksAgree env p s h = elim (Bool-cases (str_eq p.status "COMPLETED")) [
  | inl done ↦ elim (Option-cases (payload_agent p s)) [
    | inl nobody ↦ rw (done, nobody, process_document) h
    | inr (agent, here) ↦
        rw (done, here, process_document)
          (either-LocksAgree (env.fails Stage.recording) (give_up env p s)
            (settle env p agent.id (record_document env p agent.id s)) h
            (settle-LocksAgree env p agent.id (record_document env p agent.id s) h))
  ]
  | inr other ↦ rw (other, process_document) h
]

receive-LocksAgree :
    (env : DocumentEnv) (p : DocumentPayload) (s : Onboarding)
    → LocksAgree s
    → LocksAgree (receive_document env p s).1
unfolding receive_document
receive-LocksAgree env p s h =
    let recorded = record_inbound_event (as_inbound p) s.events in
    either-LocksAgree recorded.0.first_time
      (process_document env p (record s { events = recorded.1 }))
      (DocumentAnswer.duplicate, record s { events = recorded.1 })
      (process-LocksAgree env p (record s { events = recorded.1 }) h) h

-- The requests that write users, but for the edits of role and status by an administrator.
pub data Access : Type 0 where
  attempt : Date → Credentials → Access
  activation : Date → ActivationRequest → Access
  documents : DocumentEnv → DocumentPayload → Access

module _ (verify_password check_totp : String → String → Bool)
    (hash_token hash_password : String → String) where
  unfoldable pub access : Access → Onboarding → Onboarding
  unfolding authorize complete_activation receive_document
  access (Access.attempt now x) s = (authorize verify_password check_totp now x s).1
  access (Access.activation now x) s =
      (complete_activation hash_token hash_password check_totp now x s).1
  access (Access.documents env p) s = (receive_document env p s).1

  unfoldable pub access_all : List Access → Onboarding → Onboarding
  unfolding access
  access_all [] s = s
  access_all (a ∷ rest) s = access_all rest (access a s)

  access-LocksAgree : (a : Access) (s : Onboarding) → LocksAgree s → LocksAgree (access a s)
  unfolding access
  access-LocksAgree (Access.attempt now x) s h =
      authorize-LocksAgree verify_password check_totp now x s h
  access-LocksAgree (Access.activation now x) s h =
      activation-LocksAgree verify_password check_totp hash_token hash_password now x s h
  access-LocksAgree (Access.documents env p) s h = receive-LocksAgree env p s h

  -- Through any sign-ins, activations and document webhooks, refused or not, a user has a lock on record exactly when
  -- it has at least five wrong passwords on record, if that was so at the start.
  pub access_all-LocksAgree :
      (requests : List Access) (s : Onboarding) → LocksAgree s → LocksAgree (access_all requests s)
  unfolding access_all
  access_all-LocksAgree [] s h = h
  access_all-LocksAgree (a ∷ rest) s h =
      access_all-LocksAgree rest (access a s) (access-LocksAgree a s h)
