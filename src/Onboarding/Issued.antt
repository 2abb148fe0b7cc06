-- ===== src/Onboarding/Issued.antt =====
-- What the steps of the document webhook from the agent's user on have written when it ends, by the step that threw,
-- if one did (src/app/api/ghl/documents/route.ts).
use crm_mcd.Prelude.{
  ℕ, ◌≡◌, ◌⊎◌, refl, Bool, true, false, count_where, update, Bool-cases, inl, inr,
}
use crm_mcd.Onboarding.{Onboarding, Partner, partner_key}
use crm_mcd.Onboarding.Activation.{create_activation, live_for}
use crm_mcd.Onboarding.Documents.{
  DocumentEnv, DocumentPayload, DocumentAnswer, Stage, provision, provision_touch, close, give_up,
  issue,
}
use crm_mcd.Onboarding.Tokens.{one_live_token}

abbrev pub is_provisioned : DocumentAnswer → Bool
is_provisioned DocumentAnswer.provisioned = true
is_provisioned _ = false

-- No table that says who is in was written.
pub record Stopped (s : Onboarding) (r : DocumentAnswer × Onboarding) : Type 0 where
  pub answer : r.0 ≡ DocumentAnswer.failed
  pub users : r.1.users ≡ s.users
  pub tokens : r.1.tokens ≡ s.tokens
  pub partners : r.1.partners ≡ s.partners

-- The agent was given its user; with the answer that says so, the user has one link.
pub record Issued (env : DocumentEnv) (a : Partner) (i : ℕ) (s : Onboarding)
    (r : DocumentAnswer × Onboarding) : Type 0 where
  pub answer : (r.0 ≡ DocumentAnswer.provisioned) ⊎ (r.0 ≡ DocumentAnswer.failed)
  pub users : r.1.users ≡ s.users
  pub documents : r.1.documents ≡ s.documents
  pub partners : r.1.partners ≡ update partner_key a.id (provision_touch env.now i) s.partners
  pub link : is_provisioned r.0 ≡ true → count_where (live_for i) r.1.tokens ≡ 1

module _ (env : DocumentEnv) (p : DocumentPayload) (a : Partner) (i : ℕ) (s : Onboarding) where
  -- An end in the `catch` after the agent's transaction.
  cut_short :
      (t : Onboarding)
      → t.users ≡ s.users
      → t.documents ≡ s.documents
      → t.partners ≡ update partner_key a.id (provision_touch env.now i) s.partners
      → Issued env a i s (give_up env p t)
  unfolding give_up
  cut_short t users documents partners = record {
    answer = inr refl;
    users = users;
    documents = documents;
    partners = partners;
    link = λ h. cc;
  }

  pub issue-cases : Stopped s (issue env p a i s) ⊎ Issued env a i s (issue env p a i s)
  unfolding issue provision create_activation close give_up
  issue-cases = elim (Bool-cases (env.fails Stage.provisioning)) [
    | inl e ↦ rw e (inl (record { answer = refl; users = refl; tokens = refl; partners = refl }))
    | inr e ↦ elim (Bool-cases (env.fails Stage.linking)) [
      | inl e' ↦ rw (e, e') (inr (cut_short _ refl refl refl))
      | inr e' ↦ elim (Bool-cases (env.fails Stage.closing)) [
        | inl e'' ↦ rw (e, e', e'') (inr (cut_short _ refl refl refl))
        | inr e'' ↦ elim (Bool-cases (env.fails Stage.reporting)) [
          | inl e3 ↦ rw (e, e', e'', e3) (inr (cut_short _ refl refl refl))
          | inr e3 ↦
              rw (e, e', e'', e3)
                (inr (record {
                  answer = inl refl;
                  users = refl;
                  documents = refl;
                  partners = refl;
                  link = λ h.
                      one_live_token env.now env.fresh_token env.token_hash i (provision env a i s);
                }))
        ]
      ]
    ]
  ]
