-- ===== src/Servicing/Closed.antt =====
-- A service case that was closed stays as it is: no operation of src/lib/client-servicing-actions.ts,
-- src/lib/client-servicing-resolution.ts and src/lib/service-cadence-jobs.ts opens it again or writes to it.
use crm_mcd.Prelude.{
  ℕ, ◌≡◌, refl, sym, ap, ◌∙◌, true, false, Option, none, some, List, ◌∷◌, String, Date, ◌==◌,
  ==_iff, arith, ok, find, find-key, find-update_where_ne, Bool-cases, inl, inr,
}
use crm_mcd.Lead.{Env, User}
use crm_mcd.Servicing.{Desk, SourceLead, Account, ServiceCase, case_key, is_open, open_on}
use crm_mcd.Servicing.Actors.{ServicingActor, case_for_actor}
use crm_mcd.Servicing.Accounts.{
  create_client_account, create_account_checked, create_account_write,
  create_client_account_from_won_lead, won_lead_checked, won_lead_write, insert_account,
}
use crm_mcd.Servicing.Launch.{
  confirm_client_launch, confirm_checked, confirm_write, complete_client_launch, complete_checked,
  complete_write, launch_account,
}
use crm_mcd.Servicing.Cases.{
  open_client_service_case, open_checked, open_write, new_case, record_service_response,
  response_checked, response_write, progress_case, resolve_client_service_case, resolve_checked,
  resolve_write, is_fresh_case, in_progress_at, is_case, resolved_with,
}
use crm_mcd.Servicing.Standing.{
  record_payment_resolved, standing_checked, payment_write, transfer_client_service_to_house,
  house_write, unassign, record_agent_continues_service, retain_checked, retain_write,
}
use crm_mcd.Servicing.Sweep.{open_check_in, cadence_case_for}
use crm_mcd.Servicing.Keys.{sweep-keeps, open_checked-free}
use crm_mcd.Servicing.Runs.{Demand, serve, serve_all, transact-keeps, serve_all-keeps}

resolve_checked-open :
    (env : Env) (i k : ℕ) (s : Desk) {a : ServicingActor × Option ℕ} {c : ServiceCase}
    → resolve_checked env i k s ≡ ok a
    → find case_key k s.cases ≡ some c
    → is_open c.status ≡ true
unfolding resolve_checked case_for_actor
resolve_checked-open env i k s h found = ground arith

module _ (i : ℕ) (c : ServiceCase) (shut : is_open c.status ≡ false) where
  abbrev Stays : Desk → Type 0
  Stays s = find case_key i s.cases ≡ some c

  -- A new row of another id.
  insert-Stays :
      (new : ServiceCase) (cases : List ServiceCase)
      → find case_key new.id cases ≡ none
      → find case_key i cases ≡ some c
      → find case_key i (new ∷ cases) ≡ some c
  unfolding find
  insert-Stays new cases free h = elim (Bool-cases (new.id == i)) [
    | inl e ↦
        let same : find case_key new.id cases ≡ find case_key i cases =
          ap (λ k. find case_key k cases) ((==_iff new.id i).0 e) in
        let clash : none ≡ some c = sym free ∙ same ∙ h in cc
    | inr e ↦ rw e h
  ]

  -- Requests that write no case.
  from_lead-Stays :
      (env : Env) (code : String) (user : User) (lead : SourceLead) (found : Option Account)
      (s : Desk)
      → Stays s
      → Stays (won_lead_write env code (user, lead, found) s).1
  unfolding won_lead_write insert_account
  from_lead-Stays env code user lead (some account) s h = h
  from_lead-Stays env code user lead none s h = h

  complete-Stays :
      (env : Env) (note : String) (user : User) (account : Account) (s : Desk)
      → Stays s
      → Stays (complete_write env note (user, account) s).1
  unfolding complete_write launch_account
  complete-Stays env note user account s h = elim (Bool-cases account.launch_checklist_complete) [
    | inl done ↦ rw done h
    | inr left ↦ rw left h
  ]

  progress_case-Stays :
      (now : Date) (k : Option ℕ) (j : ℕ) (s : Desk) → Stays s → Stays (progress_case now k j s)
  unfolding progress_case
  progress_case-Stays now none j s h = h
  progress_case-Stays now (some k) j s h =
      find-update_where_ne case_key i (is_fresh_case k j) (in_progress_at now) s.cases (λ x. refl) h
        (ground (arith, shut))

  respond-Stays :
      (env : Env) (j : ℕ) (k : Option ℕ) (note : String) (s : Desk)
      → Stays s
      → Stays (record_service_response env j k note s).1
  unfolding record_service_response response_write
  respond-Stays env j k note s h =
      transact-keeps Stays (response_checked env j k s) (response_write env j k note) s h
        (λ a e. progress_case-Stays env.now k j _ h)

  -- The case that is resolved was open, so it is another.
  resolved_is_other :
      (env : Env) (j k : ℕ) (s : Desk) {a : ServicingActor × Option ℕ}
      → resolve_checked env j k s ≡ ok a
      → Stays s
      → is_case k j c ≡ false
  resolved_is_other env j k s e h = elim (Bool-cases (c.id == k)) [
    | inl same ↦
        let at : find case_key k s.cases ≡ some c =
          ap (λ n. find case_key n s.cases)
            (sym ((==_iff c.id k).0 same) ∙ find-key case_key i s.cases {x = c} h)
          ∙ h in
        let was_open = resolve_checked-open env j k s e at in ground arith
    | inr other ↦ ground arith
  ]

  resolve-Stays :
      (env : Env) (j k : ℕ) (resolution : String) (s : Desk)
      → Stays s
      → Stays (resolve_client_service_case env j k resolution s).1
  unfolding resolve_client_service_case resolve_write
  resolve-Stays env j k resolution s h =
      transact-keeps Stays (resolve_checked env j k s) (resolve_write env j k resolution) s h
        (λ a e.
          find-update_where_ne case_key i (is_case k j) (resolved_with env.now resolution) s.cases
            (λ x. refl) h (resolved_is_other env j k s e h))

  serve-Stays : (env : Env) (d : Demand) (s : Desk) → Stays s → Stays (serve env d s)
  unfolding serve create_client_account create_account_write insert_account
      create_client_account_from_won_lead confirm_client_launch confirm_write complete_client_launch
      open_client_service_case open_write new_case record_payment_resolved payment_write
      transfer_client_service_to_house house_write record_agent_continues_service retain_write
      open_check_in cadence_case_for
  serve-Stays env (Demand.create input) s h =
      transact-keeps Stays (create_account_checked env input s) (create_account_write env input) s h
        (λ a e. h)
  serve-Stays env (Demand.create_from_lead j code) s h =
      transact-keeps Stays (won_lead_checked env j s) (won_lead_write env code) s h
        (λ a e. from_lead-Stays env code a.0 a.1 a.2 s h)
  serve-Stays env (Demand.confirm_launch j p note) s h =
      transact-keeps Stays (confirm_checked env j s) (confirm_write env j p note) s h (λ a e. h)
  serve-Stays env (Demand.complete_launch j note) s h =
      transact-keeps Stays (complete_checked env j s) (complete_write env note) s h
        (λ a e. complete-Stays env note a.0 a.1 s h)
  serve-Stays env (Demand.open_case input) s h =
      transact-keeps Stays (open_checked env input s) (open_write env input) s h
        (λ a e. insert-Stays (new_case env input a.1) s.cases (open_checked-free env input s e) h)
  serve-Stays env (Demand.respond j k note) s h = respond-Stays env j k note s h
  serve-Stays env (Demand.resolve j k resolution) s h = resolve-Stays env j k resolution s h
  serve-Stays env (Demand.payment_resolved j note) s h =
      transact-keeps Stays (standing_checked env j s) (payment_write env j note) s h (λ a e. h)
  serve-Stays env (Demand.to_house j reason note) s h =
      transact-keeps Stays (standing_checked env j s) (house_write env j reason note) s h (λ a e.
        find-update_where_ne case_key i (open_on j) (unassign env.now) s.cases (λ x. refl) h
          (ground (arith, shut)))
  serve-Stays env (Demand.continue_service j note) s h =
      transact-keeps Stays (retain_checked env j s) (retain_write env j note) s h (λ a e. h)
  serve-Stays env (Demand.check_in before ids options) s h =
      sweep-keeps Stays
        (λ k now candidate u free stays.
          insert-Stays (cadence_case_for k now candidate) u.cases free stays)
        before ids env options s h

-- A service case that reads as closed reads the same, to the last column, after any requests on the servicing
-- desk, refused or not.
pub closed_case_stays :
    (i : ℕ) (c : ServiceCase) (demands : List (Env × Demand)) (s : Desk)
    → is_open c.status ≡ false
    → find case_key i s.cases ≡ some c
    → find case_key i (serve_all demands s).cases ≡ some c
closed_case_stays i c demands s shut h =
    serve_all-keeps (Stays i c shut) (serve-Stays i c shut) demands s h
