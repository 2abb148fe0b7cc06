-- ===== src/Servicing/Keys.antt =====
-- Accounts and cases keep their own ids through every request on the desk.
use crm_mcd.Prelude.{
  ℕ, suc, ◌≡◌, refl, Bool, Option, none, some, List, [], ◌∷◌, String, Date, arith, ok, Bool-cases,
  Option-cases, inl, inr, get_or, UniqueKeys, find, update-UniqueKeys, update_where-UniqueKeys,
}
use crm_mcd.Lead.{Env, User}
use crm_mcd.Servicing.{Desk, SourceLead, Account, account_key, case_key, open_on}
use crm_mcd.Servicing.Actors.{ServicingActor}
use crm_mcd.Servicing.Accounts.{
  AccountInput, create_client_account, create_account_checked, create_account_write,
  create_client_account_from_won_lead, won_lead_checked, won_lead_write, insert_account,
  new_account, account_from_lead,
}
use crm_mcd.Servicing.Launch.{
  PaymentState, confirm_client_launch, confirm_checked, confirm_write, confirm_touch,
  complete_client_launch, complete_checked, complete_write, complete_touch, launch_account,
}
use crm_mcd.Servicing.Cases.{
  CaseInput, CaseTrigger, open_client_service_case, open_checked, open_write, open_touch, new_case,
  record_service_response, response_checked, response_write, progress_case, responded,
  resolve_client_service_case, resolve_checked, resolve_write, resolve_touch, is_fresh_case,
  in_progress_at, is_case, resolved_with,
}
use crm_mcd.Servicing.Standing.{
  HouseReason, record_payment_resolved, standing_checked, payment_write, payment_touch,
  transfer_client_service_to_house, house_write, house_touch, unassign,
  record_agent_continues_service, retain_checked, retain_write,
}
use crm_mcd.Servicing.Cadence.{CadenceCandidate}
use crm_mcd.Servicing.Sweep.{
  CadenceOptions, run_service_cadence_sweep, sweep_checked, open_check_ins, open_check_in,
  sweep_opened, cadence_case_for, CadenceReport,
}
use crm_mcd.Servicing.Runs.{Demand, serve, transact-keeps}

unfoldable pub HasKeys : Desk → Type 0
HasKeys s = UniqueKeys account_key s.accounts × UniqueKeys case_key s.cases

-- The id of a new row is free where the checks passed.
pub create_checked-free :
    (env : Env) (input : AccountInput) (s : Desk) {a : User × Option SourceLead}
    → create_account_checked env input s ≡ ok a
    → find account_key env.fresh s.accounts ≡ none
unfolding create_account_checked
create_checked-free env input s h = ground arith

pub won_lead-free :
    (env : Env) (i : ℕ) (s : Desk) {user : User} {lead : SourceLead}
    → won_lead_checked env i s ≡ ok (user, lead, none)
    → find account_key env.fresh s.accounts ≡ none
unfolding won_lead_checked
won_lead-free env i s h = ground arith

pub open_checked-free :
    (env : Env) (input : CaseInput) (s : Desk) {a : ServicingActor × Option ℕ}
    → open_checked env input s ≡ ok a
    → find case_key env.fresh s.cases ≡ none
unfolding open_checked
open_checked-free env input s h = ground arith

pub open_touch-key : (now : Date) (t : CaseTrigger) (a : Account) → (open_touch now t a).id ≡ a.id
unfolding open_touch
open_touch-key now t a = ground arith

confirm_touch-key :
    (now : Date) (p : PaymentState) (a : Account) → (confirm_touch now p a).id ≡ a.id
unfolding confirm_touch
confirm_touch-key now p a = ground arith

create-HasKeys :
    (env : Env) (input : AccountInput) (s : Desk)
    → HasKeys s
    → HasKeys (create_client_account env input s).1
unfolding create_client_account HasKeys create_account_write insert_account new_account UniqueKeys
create-HasKeys env input s h =
    transact-keeps HasKeys (create_account_checked env input s) (create_account_write env input) s h
      (λ a e. ((create_checked-free env input s e, h.0), h.1))

from_lead_write-HasKeys :
    (env : Env) (i : ℕ) (code : String) (s : Desk) (user : User) (lead : SourceLead)
    (found : Option Account)
    → HasKeys s
    → won_lead_checked env i s ≡ ok (user, lead, found)
    → HasKeys (won_lead_write env code (user, lead, found) s).1
unfolding HasKeys won_lead_write insert_account account_from_lead UniqueKeys
from_lead_write-HasKeys env i code s user lead (some account) h e = h
from_lead_write-HasKeys env i code s user lead none h e = ((won_lead-free env i s e, h.0), h.1)

from_lead-HasKeys :
    (env : Env) (i : ℕ) (code : String) (s : Desk)
    → HasKeys s
    → HasKeys (create_client_account_from_won_lead env i code s).1
unfolding create_client_account_from_won_lead
from_lead-HasKeys env i code s h =
    transact-keeps HasKeys (won_lead_checked env i s) (won_lead_write env code) s h
      (λ a e. from_lead_write-HasKeys env i code s a.0 a.1 a.2 h e)

confirm-HasKeys :
    (env : Env) (i : ℕ) (p : PaymentState) (note : String) (s : Desk)
    → HasKeys s
    → HasKeys (confirm_client_launch env i p note s).1
unfolding confirm_client_launch HasKeys confirm_write
confirm-HasKeys env i p note s h =
    transact-keeps HasKeys (confirm_checked env i s) (confirm_write env i p note) s h (λ a e. (
      update-UniqueKeys account_key i (confirm_touch env.now p) s.accounts
          (confirm_touch-key env.now p) h.0,
      h.1,
    ))

complete_write-HasKeys :
    (env : Env) (note : String) (user : User) (account : Account) (s : Desk)
    → HasKeys s
    → HasKeys (complete_write env note (user, account) s).1
unfolding HasKeys complete_write launch_account complete_touch
complete_write-HasKeys env note user account s h =
    elim (Bool-cases account.launch_checklist_complete) [
      | inl done ↦ rw done h
      | inr left ↦ rw left (
        update-UniqueKeys account_key account.id
            (complete_touch env.now account.current_on_payments) s.accounts (λ a. refl) h.0,
        h.1,
      )
    ]

complete-HasKeys :
    (env : Env) (i : ℕ) (note : String) (s : Desk)
    → HasKeys s
    → HasKeys (complete_client_launch env i note s).1
unfolding complete_client_launch
complete-HasKeys env i note s h =
    transact-keeps HasKeys (complete_checked env i s) (complete_write env note) s h
      (λ a e. complete_write-HasKeys env note a.0 a.1 s h)

open-HasKeys :
    (env : Env) (input : CaseInput) (s : Desk)
    → HasKeys s
    → HasKeys (open_client_service_case env input s).1
unfolding open_client_service_case HasKeys open_write new_case UniqueKeys
open-HasKeys env input s h =
    transact-keeps HasKeys (open_checked env input s) (open_write env input) s h (λ a e. (
      update-UniqueKeys account_key input.client_account_id (open_touch env.now input.trigger)
          s.accounts (open_touch-key env.now input.trigger) h.0,
      (open_checked-free env input s e, h.1),
    ))

progress_case-HasKeys :
    (now : Date) (c : Option ℕ) (i : ℕ) (s : Desk) → HasKeys s → HasKeys (progress_case now c i s)
unfolding HasKeys progress_case
progress_case-HasKeys now none i s h = h
progress_case-HasKeys now (some c) i s h = (
  h.0,
  update_where-UniqueKeys case_key (is_fresh_case c i) (in_progress_at now) s.cases (λ x. refl) h.1,
)

respond-HasKeys :
    (env : Env) (i : ℕ) (c : Option ℕ) (note : String) (s : Desk)
    → HasKeys s
    → HasKeys (record_service_response env i c note s).1
unfolding record_service_response HasKeys response_write
respond-HasKeys env i c note s h =
    transact-keeps HasKeys (response_checked env i c s) (response_write env i c note) s h (λ a e.
      progress_case-HasKeys env.now c i _
        (update-UniqueKeys account_key i (responded env.now) s.accounts (λ x. refl) h.0, h.1))

resolve-HasKeys :
    (env : Env) (i c : ℕ) (resolution : String) (s : Desk)
    → HasKeys s
    → HasKeys (resolve_client_service_case env i c resolution s).1
unfolding resolve_client_service_case HasKeys resolve_write resolve_touch
resolve-HasKeys env i c resolution s h =
    transact-keeps HasKeys (resolve_checked env i c s) (resolve_write env i c resolution) s h
      (λ a e. (
        update-UniqueKeys account_key i _ s.accounts (λ x. refl) h.0,
        update_where-UniqueKeys case_key (is_case c i) (resolved_with env.now resolution) s.cases
            (λ x. refl) h.1,
      ))

payment-HasKeys :
    (env : Env) (i : ℕ) (note : String) (s : Desk)
    → HasKeys s
    → HasKeys (record_payment_resolved env i note s).1
unfolding record_payment_resolved HasKeys payment_write payment_touch
payment-HasKeys env i note s h =
    transact-keeps HasKeys (standing_checked env i s) (payment_write env i note) s h (λ a e.
      (update-UniqueKeys account_key i (payment_touch env.now) s.accounts (λ x. refl) h.0, h.1))

house-HasKeys :
    (env : Env) (i : ℕ) (reason : HouseReason) (note : String) (s : Desk)
    → HasKeys s
    → HasKeys (transfer_client_service_to_house env i reason note s).1
unfolding transfer_client_service_to_house HasKeys house_write house_touch
house-HasKeys env i reason note s h =
    transact-keeps HasKeys (standing_checked env i s) (house_write env i reason note) s h (λ a e. (
      update-UniqueKeys account_key i (house_touch env.now note) s.accounts (λ x. refl) h.0,
      update_where-UniqueKeys case_key (open_on i) (unassign env.now) s.cases (λ x. refl) h.1,
    ))

retain-HasKeys :
    (env : Env) (i : ℕ) (note : String) (s : Desk)
    → HasKeys s
    → HasKeys (record_agent_continues_service env i note s).1
unfolding record_agent_continues_service HasKeys retain_write
retain-HasKeys env i note s h =
    transact-keeps HasKeys (retain_checked env i s) (retain_write env i note) s h (λ a e. h)

-- Each insert of the sweep keeps what an insert at a free id keeps.
pub open_check_ins-keeps {ℓ} :
    (P : Desk → Type ℓ) (ids : ℕ → ℕ) (n : ℕ) (now : Date) (cs : List CadenceCandidate) (s : Desk)
    {t : Desk}
    → ((i : ℕ) (c : CadenceCandidate) (u : Desk)
        → find case_key i u.cases ≡ none
        → P u
        → P (open_check_in i now c u))
    → P s
    → open_check_ins ids n now cs s ≡ ok t
    → P t
unfolding open_check_ins
open_check_ins-keeps P ids n now [] s {t} keep h e = let same : s ≡ t = cc in rw (← same) h
open_check_ins-keeps P ids n now (c ∷ cs) s {t} keep h e =
    elim (Option-cases (find case_key (ids n) s.cases)) [
      | inl free ↦
          open_check_ins-keeps P ids (suc n) now cs (open_check_in (ids n) now c s) {t = t} keep
            (keep (ids n) c s free h) (rw free at e)
      | inr (x, taken) ↦ cc (rw taken at e)
    ]

pub sweep_checked-opens :
    (before : String → String → Bool) (ids : ℕ → ℕ) (env : Env) (options : CadenceOptions)
    (s : Desk) {done : CadenceReport × Desk}
    → sweep_checked before ids env options s ≡ ok done
    → open_check_ins ids 0
        (get_or options.now env.now)
        (sweep_opened before ids (get_or options.now env.now) options s)
        s
      ≡ ok done.1
unfolding sweep_checked
sweep_checked-opens before ids env options s h = ground arith

-- What the sweep keeps is what each of its inserts keeps.
pub sweep-keeps {ℓ} :
    (P : Desk → Type ℓ)
    → ((i : ℕ) (now : Date) (c : CadenceCandidate) (u : Desk)
        → find case_key i u.cases ≡ none
        → P u
        → P (open_check_in i now c u))
    → (before : String → String → Bool) (ids : ℕ → ℕ) (env : Env) (options : CadenceOptions)
      (s : Desk)
    → P s
    → P (run_service_cadence_sweep before ids env options s).1
unfolding run_service_cadence_sweep
sweep-keeps P keep before ids env options s h =
    transact-keeps P (sweep_checked before ids env options s) (λ done old. done) s h
      (λ a e.
        open_check_ins-keeps P ids 0 (get_or options.now env.now)
          (sweep_opened before ids (get_or options.now env.now) options s) s
          (λ i c u. keep i (get_or options.now env.now) c u) h
          (sweep_checked-opens before ids env options s e))

open_check_in-HasKeys :
    (i : ℕ) (now : Date) (c : CadenceCandidate) (s : Desk)
    → find case_key i s.cases ≡ none
    → HasKeys s
    → HasKeys (open_check_in i now c s)
unfolding open_check_in cadence_case_for HasKeys UniqueKeys
open_check_in-HasKeys i now c s free h = (h.0, (free, h.1))

pub serve-HasKeys : (env : Env) (d : Demand) (s : Desk) → HasKeys s → HasKeys (serve env d s)
unfolding serve
serve-HasKeys env (Demand.create input) s h = create-HasKeys env input s h
serve-HasKeys env (Demand.create_from_lead i code) s h = from_lead-HasKeys env i code s h
serve-HasKeys env (Demand.confirm_launch i p note) s h = confirm-HasKeys env i p note s h
serve-HasKeys env (Demand.complete_launch i note) s h = complete-HasKeys env i note s h
serve-HasKeys env (Demand.open_case input) s h = open-HasKeys env input s h
serve-HasKeys env (Demand.respond i c note) s h = respond-HasKeys env i c note s h
serve-HasKeys env (Demand.resolve i c resolution) s h = resolve-HasKeys env i c resolution s h
serve-HasKeys env (Demand.payment_resolved i note) s h = payment-HasKeys env i note s h
serve-HasKeys env (Demand.to_house i reason note) s h = house-HasKeys env i reason note s h
serve-HasKeys env (Demand.continue_service i note) s h = retain-HasKeys env i note s h
serve-HasKeys env (Demand.check_in before ids options) s h =
    sweep-keeps HasKeys open_check_in-HasKeys before ids env options s h
