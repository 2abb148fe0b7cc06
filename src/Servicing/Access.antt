-- ===== src/Servicing/Access.antt =====
-- Whose requests write what: the gate and the ownership checks of src/lib/client-servicing-actions.ts,
-- src/lib/client-servicing-resolution.ts, src/lib/client-launch-actions.ts, src/lib/lead-client-account.ts and
-- src/lib/service-cadence-jobs.ts.
use crm_mcd.Prelude.{
  ℕ, ◌≡◌, ◌≢◌, refl, sym, ap, ◌∙◌, false, Option, none, some, String, Date, arith, Result, ok, err,
  ◌>>=◌, find, find-update_ne,
}
use crm_mcd.Lead.{Env, Error, User}
use crm_mcd.Session.{require_feature, require_role}
use crm_mcd.Servicing.{Desk, DeskError, SourceLead, Account, account_key}
use crm_mcd.Servicing.Actors.{
  ServicingActor, servicing_actor, servicing_admin, actor_for, account_access, is_of,
}
use crm_mcd.Servicing.Accounts.{
  create_client_account, create_account_checked, create_account_write,
  create_client_account_from_won_lead, won_lead_checked, won_lead_write,
}
use crm_mcd.Servicing.Launch.{
  confirm_client_launch, confirm_checked, confirm_write, complete_client_launch, complete_checked,
  complete_write,
}
use crm_mcd.Servicing.Cases.{
  CaseInput, open_client_service_case, open_checked, open_write, open_touch,
  record_service_response, response_checked, response_write, progress_case, responded,
  resolve_client_service_case, resolve_checked, resolve_write, resolve_touch,
}
use crm_mcd.Servicing.Standing.{
  record_payment_resolved, standing_checked, payment_write, transfer_client_service_to_house,
  house_write, record_agent_continues_service, retain_checked, retain_write,
}
use crm_mcd.Servicing.Sweep.{open_check_in}
use crm_mcd.Servicing.Keys.{sweep-keeps, open_touch-key}
use crm_mcd.Servicing.Runs.{Demand, serve, transact-keeps}

-- An agent is refused where administrators are asked for.
agent_is_no_admin :
    (env : Env) (s : Desk) {actor : ServicingActor}
    → servicing_actor env s ≡ ok actor
    → actor.is_admin ≡ false
    → servicing_admin env ≡ err (DeskError.session Error.forbidden)
unfolding servicing_actor servicing_admin actor_for require_role
agent_is_no_admin env s signed plain = ground arith

module _ (env : Env) (s : Desk) (actor : ServicingActor) (signed : servicing_actor env s ≡ ok actor)
    (plain : actor.is_admin ≡ false) (j : ℕ) (account : Account)
    (found : find account_key j s.accounts ≡ some account)
    (foreign : is_of account.account_owner_agent_id actor.agent ≡ false) where
  abbrev Untouched : Desk → Type 0
  Untouched t = find account_key j t.accounts ≡ some account

  shut_out : servicing_admin env ≡ err (DeskError.session Error.forbidden)
  shut_out = agent_is_no_admin env s signed plain

  -- The account that a check lets an agent at is another one.
  access_is_other : (i : ℕ) {a : Account} → account_access i actor s ≡ ok a → j ≢ i
  unfolding account_access
  access_is_other i h same =
      let at : find account_key i s.accounts ≡ some account =
        ap (λ k. find account_key k s.accounts) (sym same) ∙ found in
      ground arith

  open_is_other :
      (input : CaseInput) {a : ServicingActor × Option ℕ}
      → open_checked env input s ≡ ok a
      → j ≢ input.client_account_id
  unfolding open_checked
  open_is_other input h = ground (arith, signed, access_is_other input.client_account_id)

  response_is_other :
      (i : ℕ) (k : Option ℕ) {a : ServicingActor × Option ℕ}
      → response_checked env i k s ≡ ok a
      → j ≢ i
  unfolding response_checked
  response_is_other i k h = ground (arith, signed, access_is_other i)

  resolve_is_other :
      (i k : ℕ) {a : ServicingActor × Option ℕ} → resolve_checked env i k s ≡ ok a → j ≢ i
  unfolding resolve_checked
  resolve_is_other i k h = ground (arith, signed, access_is_other i)

  -- What only administrators may do is refused.
  create_refused :
      {A : Type 0} (rest : User → Result DeskError A) {a : A}
      → (servicing_admin env >>= rest) ≡ ok a
      → ⊥
  create_refused rest h = cc (rw shut_out at h)

  open-Untouched : (input : CaseInput) → Untouched (open_client_service_case env input s).1
  unfolding open_client_service_case open_write
  open-Untouched input =
      transact-keeps Untouched (open_checked env input s) (open_write env input) s found (λ a e.
        find-update_ne account_key j input.client_account_id (open_touch env.now input.trigger)
          s.accounts (open_touch-key env.now input.trigger) (open_is_other input e)
        ∙ found)

  progress_case-Untouched :
      (now : Date) (k : Option ℕ) (i : ℕ) (t : Desk)
      → Untouched t
      → Untouched (progress_case now k i t)
  unfolding progress_case
  progress_case-Untouched now none i t h = h
  progress_case-Untouched now (some k) i t h = h

  respond-Untouched :
      (i : ℕ) (k : Option ℕ) (note : String) → Untouched (record_service_response env i k note s).1
  unfolding record_service_response response_write
  respond-Untouched i k note =
      transact-keeps Untouched (response_checked env i k s) (response_write env i k note) s found
        (λ a e. progress_case-Untouched env.now k i _ (
          find-update_ne account_key j i (responded env.now) s.accounts (λ x. refl)
            (response_is_other i k e)
          ∙ found))

  resolve-Untouched :
      (i k : ℕ) (resolution : String)
      → Untouched (resolve_client_service_case env i k resolution s).1
  unfolding resolve_client_service_case resolve_write resolve_touch
  resolve-Untouched i k resolution =
      transact-keeps Untouched (resolve_checked env i k s) (resolve_write env i k resolution) s
        found
        (λ a e.
          find-update_ne account_key j i _ s.accounts (λ x. refl) (resolve_is_other i k e) ∙ found)

  won_lead_refused :
      (i : ℕ) {a : User × SourceLead × Option Account} → won_lead_checked env i s ≡ ok a → ⊥
  unfolding won_lead_checked require_feature
  won_lead_refused i h = ground (arith, shut_out)

  -- A request of an agent leaves every account that is not its own as it is.
  pub agent_leaves_others : (d : Demand) → Untouched (serve env d s)
  unfolding serve create_client_account create_account_checked create_client_account_from_won_lead
      confirm_client_launch confirm_checked complete_client_launch complete_checked
      record_payment_resolved standing_checked transfer_client_service_to_house
      record_agent_continues_service retain_checked open_check_in
  agent_leaves_others (Demand.create input) =
      transact-keeps Untouched (create_account_checked env input s) (create_account_write env input)
        s found (λ a e. absurd (create_refused _ e))
  agent_leaves_others (Demand.create_from_lead i code) =
      transact-keeps Untouched (won_lead_checked env i s) (won_lead_write env code) s found
        (λ a e. absurd (won_lead_refused i e))
  agent_leaves_others (Demand.confirm_launch i p note) =
      transact-keeps Untouched (confirm_checked env i s) (confirm_write env i p note) s found
        (λ a e. absurd (create_refused _ e))
  agent_leaves_others (Demand.complete_launch i note) =
      transact-keeps Untouched (complete_checked env i s) (complete_write env note) s found
        (λ a e. absurd (create_refused _ e))
  agent_leaves_others (Demand.open_case input) = open-Untouched input
  agent_leaves_others (Demand.respond i k note) = respond-Untouched i k note
  agent_leaves_others (Demand.resolve i k resolution) = resolve-Untouched i k resolution
  agent_leaves_others (Demand.payment_resolved i note) =
      transact-keeps Untouched (standing_checked env i s) (payment_write env i note) s found
        (λ a e. absurd (create_refused _ e))
  agent_leaves_others (Demand.to_house i reason note) =
      transact-keeps Untouched (standing_checked env i s) (house_write env i reason note) s found
        (λ a e. absurd (create_refused _ e))
  agent_leaves_others (Demand.continue_service i note) =
      transact-keeps Untouched (retain_checked env i s) (retain_write env i note) s found
        (λ a e. absurd (create_refused _ e))
  agent_leaves_others (Demand.check_in before ids options) =
      sweep-keeps Untouched (λ k now c u free h. h) before ids env options s found
