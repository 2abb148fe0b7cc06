-- ===== src/Onboarding/Vetting.antt =====
-- What an agent has been through when it is provisioned: the review (src/app/admin/page-v3.tsx), the gates
-- (src/app/admin/agents/[id]/onboarding/page.tsx) and the document webhook (src/app/api/ghl/documents/route.ts).
use crm_mcd.Prelude.{
  ℕ, ◌≡◌, refl, Bool, true, false, Option, some, String, Date, All, All-update_one, All-find, arith,
  is_some, is_none, find, UniqueKeys, update-UniqueKeys, Bool-cases, Option-cases, inl, inr,
  trimmed,
}
use crm_mcd.Lead.{User}
use crm_mcd.Onboarding.{Onboarding, Login, Partner, AgentStatus, partner_key}
use crm_mcd.Onboarding.Policy.{ActivationGate}
use crm_mcd.Onboarding.Activation.{create_activation}
use crm_mcd.Onboarding.Documents.{DocumentEnv, DocumentPayload, is_approved, provision_touch, issue}
use crm_mcd.Onboarding.Issued.{issue-cases}
use crm_mcd.Onboarding.Review.{
  ReviewEnv, ReviewAction, confirm, confirm_call_touch, approve_applicant, approve_touch, turn_down,
  turn_down_touch, note_given, resend, invited_user, act, gate_touch, write_partner,
}

abbrev pub is_active_agent : AgentStatus → Bool
is_active_agent AgentStatus.active = true
is_active_agent _ = false

-- An approved agent was called, a provisioned one is approved, and none reads ACTIVE.
pub record Vetted (a : Partner) : Type 0 where
  pub called : is_approved a.status ≡ true → is_some a.confirmed_call_at ≡ true
  pub approved : is_some a.user_id ≡ true → is_approved a.status ≡ true
  pub not_active : is_active_agent a.status ≡ false

pub record AllVetted (s : Onboarding) : Type 0 where
  pub unique : UniqueKeys partner_key s.partners
  pub each : All Vetted s.partners

-- A write to the row of an agent.
write-AllVetted :
    (a : Partner) (touch : Partner → Partner) (s : Onboarding)
    → find partner_key a.id s.partners ≡ some a
    → ((b : Partner) → (touch b).id ≡ b.id)
    → Vetted (touch a)
    → AllVetted s
    → AllVetted (write_partner a.id touch s)
write-AllVetted a touch s found same new h = record {
  unique = update-UniqueKeys partner_key a.id touch s.partners same h.unique;
  each = All-update_one partner_key Vetted a.id touch s.partners {x = a} h.unique found new h.each;
}

-- What writes no agent.
pub same-AllVetted : (s t : Onboarding) → t.partners ≡ s.partners → AllVetted s → AllVetted t
same-AllVetted s t same h = record { unique = rw same h.unique; each = rw same h.each }

gate_touch-Vetted :
    (gate : ActivationGate) (at : Option Date) (a : Partner)
    → Vetted a
    → Vetted (gate_touch gate at a)
gate_touch-Vetted ActivationGate.w9_verification at a v = record {
  called = v.called;
  approved = v.approved;
  not_active = v.not_active;
}
gate_touch-Vetted ActivationGate.profile_completion at a v = record {
  called = v.called;
  approved = v.approved;
  not_active = v.not_active;
}
gate_touch-Vetted ActivationGate.training_completion at a v = record {
  called = v.called;
  approved = v.approved;
  not_active = v.not_active;
}

module _ (a : Partner) (s : Onboarding) (found : find partner_key a.id s.partners ≡ some a)
    (h : AllVetted s) where
  vetted : Vetted a
  vetted = All-find partner_key Vetted a.id s.partners h.each found

  confirm-AllVetted : (env : ReviewEnv) → AllVetted (confirm env a s).1
  unfolding confirm
  confirm-AllVetted env = elim (Bool-cases (is_some a.confirmed_call_at)) [
    | inl done ↦ rw done h
    | inr first ↦
        let t =
          write-AllVetted a (confirm_call_touch env.now) s found (λ b. refl)
            (record {
              called = λ e. refl;
              approved = vetted.approved;
              not_active = vetted.not_active;
            })
            h in
        rw first (record { unique = t.unique; each = t.each })
  ]

  abbrev approved_state : ReviewEnv → User → Onboarding
  approved_state env reviewer = write_partner a.id (approve_touch env.now reviewer.id) s

  approved_state-AllVetted :
      (env : ReviewEnv) (reviewer : User)
      → is_none a.confirmed_call_at ≡ false
      → AllVetted (approved_state env reviewer)
  approved_state-AllVetted env reviewer called =
      write-AllVetted a (approve_touch env.now reviewer.id) s found (λ b. refl)
        (record { called = λ e. ground (arith, called); approved = λ e. refl; not_active = refl }) h

  approve-AllVetted :
      (env : ReviewEnv) (reviewer : User) → AllVetted (approve_applicant env reviewer a s).1
  unfolding approve_applicant
  approve-AllVetted env reviewer = elim (Bool-cases (is_approved a.status)) [
    | inl done ↦ rw done h
    | inr open_still ↦ elim (Bool-cases (is_none a.confirmed_call_at)) [
      | inl uncalled ↦ rw (open_still, uncalled) h
      | inr called ↦ elim (Bool-cases (is_none a.ghl_contact_id)) [
        | inl unlinked ↦ rw (open_still, called, unlinked) (same-AllVetted s _ refl h)
        | inr linked ↦ elim (Bool-cases env.tag_accepted) [
          | inl tagged ↦
              rw (open_still, called, linked, tagged)
                (same-AllVetted (approved_state env reviewer) _ refl
                  (approved_state-AllVetted env reviewer called))
          | inr refused ↦ rw (open_still, called, linked, refused) (same-AllVetted s _ refl h)
        ]
      ]
    ]
  ]

  turn_down-AllVetted :
      (status : AgentStatus) (action : String) (note : Option String)
      → is_approved status ≡ false
      → is_active_agent status ≡ false
      → AllVetted (turn_down status action a note s).1
  unfolding turn_down
  turn_down-AllVetted status action text plain idle = elim (Bool-cases (is_approved a.status)) [
    | inl done ↦ rw done h
    | inr open_still ↦ elim (Option-cases (note_given text)) [
      | inl no_note ↦ rw (open_still, no_note, turn_down) h
      | inr (words, given) ↦
          let t =
            write-AllVetted a (turn_down_touch status words) s found (λ b. refl)
              (record {
                called = λ e. ground (arith, e, plain);
                approved = λ e. ground (arith, vetted.approved e, open_still);
                not_active = idle;
              })
              h in
          rw (open_still, given, turn_down) (record { unique = t.unique; each = t.each })
    ]
  ]

  resend-partners :
      (env : ReviewEnv) (user : Option Login) → (resend env a user s).1.partners ≡ s.partners
  unfolding resend create_activation
  resend-partners env user = ground arith

  pub act-AllVetted :
      (env : ReviewEnv) (reviewer : User) (action : ReviewAction) (words : Option String)
      → AllVetted (act env reviewer a action words s).1
  unfolding act
  act-AllVetted env reviewer ReviewAction.confirm_call words = confirm-AllVetted env
  act-AllVetted env reviewer ReviewAction.approve words = approve-AllVetted env reviewer
  act-AllVetted env reviewer ReviewAction.reject words =
      turn_down-AllVetted AgentStatus.rejected "APPLICANT_REJECTED" (trimmed words) refl refl
  act-AllVetted env reviewer ReviewAction.needs_correction words =
      turn_down-AllVetted AgentStatus.needs_correction "APPLICANT_CORRECTION_REQUESTED"
        (trimmed words) refl refl
  act-AllVetted env reviewer ReviewAction.resend_activation words =
      same-AllVetted s _ (resend-partners env (invited_user a s)) h

  pub gate-AllVetted :
      (gate : ActivationGate) (at : Option Date)
      → AllVetted (write_partner a.id (gate_touch gate at) s)
  gate-AllVetted gate at =
      write-AllVetted a (gate_touch gate at) s found (λ b. ground arith)
        (gate_touch-Vetted gate at a vetted) h

  pub issue-AllVetted :
      (env : DocumentEnv) (p : DocumentPayload) (i : ℕ)
      → is_approved a.status ≡ true
      → AllVetted (issue env p a i s).1
  issue-AllVetted env p i approved =
      let t =
        write-AllVetted a (provision_touch env.now i) s found (λ b. refl)
          (record {
            called = vetted.called;
            approved = λ e. approved;
            not_active = vetted.not_active;
          })
          h in
      elim (issue-cases env p a i s) [
        | inl stop ↦ same-AllVetted s _ stop.partners h
        | inr done ↦
            same-AllVetted (write_partner a.id (provision_touch env.now i) s) _ done.partners t
      ]
