-- ===== src/Servicing/Payments.antt =====
-- What status and health say about payments, through all operations on client accounts
-- (src/lib/client-servicing-actions.ts, src/lib/client-servicing-resolution.ts,
-- src/lib/client-launch-actions.ts, src/lib/lead-client-account.ts, src/lib/service-cadence-jobs.ts).
use crm_mcd.Prelude.{
  ℕ, ◌≡◌, refl, Bool, true, not, Option, none, some, List, String, Date, All, arith, ok, find,
  All-update, All-update_one, find-own_key, Bool-cases, inl, inr,
}
use crm_mcd.Lead.{Env, User}
use crm_mcd.Servicing.{Desk, SourceLead, Account, ClientStatus, HealthStatus, account_key, case_key}
use crm_mcd.Servicing.Accounts.{
  AccountInput, create_client_account, create_account_checked, create_account_write,
  create_client_account_from_won_lead, won_lead_checked, won_lead_write, insert_account,
  new_account, account_from_lead,
}
use crm_mcd.Servicing.Launch.{
  PaymentState, confirm_client_launch, confirm_checked, confirm_write, confirm_touch,
  complete_client_launch, complete_checked, complete_write, complete_touch, launch_account,
}
use crm_mcd.Servicing.Cases.{
  CaseInput, CaseTrigger, open_client_service_case, open_checked, open_write, open_touch,
  record_service_response, response_checked, response_write, progress_case, responded,
  resolve_client_service_case, resolve_checked, resolve_write, resolve_touch,
}
use crm_mcd.Servicing.Standing.{
  HouseReason, record_payment_resolved, standing_checked, payment_write, payment_touch,
  transfer_client_service_to_house, house_write, house_touch, record_agent_continues_service,
  retain_checked, retain_write,
}
use crm_mcd.Servicing.Cadence.{CadenceCandidate}
use crm_mcd.Servicing.Sweep.{open_check_in}
use crm_mcd.Servicing.Keys.{HasKeys, serve-HasKeys, sweep-keeps}
use crm_mcd.Servicing.Runs.{Demand, serve, serve_all, transact-keeps, serve_all-keeps}

-- ACTIVE and HEALTHY are said of payments that are current, PAYMENT_FAILED of those that are not.
abbrev pub status_agrees : ClientStatus → Bool → Bool
status_agrees ClientStatus.active current = current
status_agrees ClientStatus.payment_failed current = not current
status_agrees _ current = true

abbrev pub health_agrees : HealthStatus → Bool → Bool
health_agrees HealthStatus.healthy current = current
health_agrees HealthStatus.payment_failed current = not current
health_agrees _ current = true

unfoldable pub Agrees : Account → Type 0
Agrees a =
    (status_agrees a.status a.current_on_payments ≡ true)
    × (health_agrees a.health_status a.current_on_payments ≡ true)

unfoldable pub PaymentsAgree : Desk → Type 0
PaymentsAgree s = All Agrees s.accounts

open_touch-Agrees :
    (now : Date) (t : CaseTrigger) (a : Account) → Agrees a → Agrees (open_touch now t a)
unfolding Agrees open_touch
open_touch-Agrees now CaseTrigger.payment_problem a h = (refl, refl)
open_touch-Agrees now CaseTrigger.escalation a h = (refl, refl)
open_touch-Agrees now CaseTrigger.client_request a h = (h.0, refl)
open_touch-Agrees now CaseTrigger.support_issue a h = (h.0, refl)
open_touch-Agrees now CaseTrigger.renewal_event a h = (h.0, refl)
open_touch-Agrees now CaseTrigger.manual_review a h = (h.0, refl)

resolve_touch-Agrees :
    (now : Date) (remaining : Bool) (a : Account) → Agrees (resolve_touch now remaining a)
unfolding Agrees resolve_touch
resolve_touch-Agrees now remaining a = (ground arith, ground arith)

confirm_touch-Agrees :
    (now : Date) (p : PaymentState) (a : Account) → Agrees (confirm_touch now p a)
unfolding Agrees confirm_touch
confirm_touch-Agrees now PaymentState.current a = (refl, refl)
confirm_touch-Agrees now PaymentState.payment_issue a = (refl, refl)

payment_touch-Agrees : (now : Date) (a : Account) → Agrees (payment_touch now a)
unfolding Agrees payment_touch
payment_touch-Agrees now a = (refl, refl)

house_touch-Agrees :
    (now : Date) (note : String) (a : Account) → Agrees a → Agrees (house_touch now note a)
unfolding Agrees house_touch
house_touch-Agrees now note a h = (refl, h.1)

create-PaymentsAgree :
    (env : Env) (input : AccountInput) (s : Desk)
    → PaymentsAgree s
    → PaymentsAgree (create_client_account env input s).1
unfolding create_client_account PaymentsAgree Agrees create_account_write insert_account new_account
create-PaymentsAgree env input s h =
    transact-keeps PaymentsAgree (create_account_checked env input s)
      (create_account_write env input) s h (λ a e. ((refl, refl), h))

from_lead_write-PaymentsAgree :
    (env : Env) (code : String) (user : User) (lead : SourceLead) (found : Option Account)
    (s : Desk)
    → PaymentsAgree s
    → PaymentsAgree (won_lead_write env code (user, lead, found) s).1
unfolding PaymentsAgree Agrees won_lead_write insert_account account_from_lead
from_lead_write-PaymentsAgree env code user lead (some account) s h = h
from_lead_write-PaymentsAgree env code user lead none s h = ((refl, refl), h)

from_lead-PaymentsAgree :
    (env : Env) (i : ℕ) (code : String) (s : Desk)
    → PaymentsAgree s
    → PaymentsAgree (create_client_account_from_won_lead env i code s).1
unfolding create_client_account_from_won_lead
from_lead-PaymentsAgree env i code s h =
    transact-keeps PaymentsAgree (won_lead_checked env i s) (won_lead_write env code) s h
      (λ a e. from_lead_write-PaymentsAgree env code a.0 a.1 a.2 s h)

confirm-PaymentsAgree :
    (env : Env) (i : ℕ) (p : PaymentState) (note : String) (s : Desk)
    → PaymentsAgree s
    → PaymentsAgree (confirm_client_launch env i p note s).1
unfolding confirm_client_launch PaymentsAgree confirm_write
confirm-PaymentsAgree env i p note s h =
    transact-keeps PaymentsAgree (confirm_checked env i s) (confirm_write env i p note) s h (λ a e.
      All-update account_key Agrees i (confirm_touch env.now p) s.accounts
        (λ x old. confirm_touch-Agrees env.now p x) h)

complete_checked-find :
    (env : Env) (i : ℕ) (s : Desk) {user : User} {account : Account}
    → complete_checked env i s ≡ ok (user, account)
    → find account_key i s.accounts ≡ some account
unfolding complete_checked
complete_checked-find env i s h = ground arith

complete_touch-Agrees :
    (now : Date) (a : Account) → Agrees (complete_touch now a.current_on_payments a)
unfolding Agrees complete_touch
complete_touch-Agrees now a = (ground arith, ground arith)

complete_write-PaymentsAgree :
    (env : Env) (note : String) (user : User) (account : Account) (s : Desk)
    → HasKeys s
    → find account_key account.id s.accounts ≡ some account
    → PaymentsAgree s
    → PaymentsAgree (complete_write env note (user, account) s).1
unfolding HasKeys PaymentsAgree complete_write launch_account
complete_write-PaymentsAgree env note user account s keys found h =
    elim (Bool-cases account.launch_checklist_complete) [
      | inl done ↦ rw done h
      | inr left ↦ rw left (
          All-update_one account_key Agrees account.id
            (complete_touch env.now account.current_on_payments) s.accounts {x = account} keys.0
            found (complete_touch-Agrees env.now account) h)
    ]

complete-PaymentsAgree :
    (env : Env) (i : ℕ) (note : String) (s : Desk)
    → HasKeys s
    → PaymentsAgree s
    → PaymentsAgree (complete_client_launch env i note s).1
unfolding complete_client_launch
complete-PaymentsAgree env i note s keys h =
    transact-keeps PaymentsAgree (complete_checked env i s) (complete_write env note) s h (λ a e.
      complete_write-PaymentsAgree env note a.0 a.1 s keys
        (find-own_key account_key i s.accounts a.1 (complete_checked-find env i s e)) h)

open-PaymentsAgree :
    (env : Env) (input : CaseInput) (s : Desk)
    → PaymentsAgree s
    → PaymentsAgree (open_client_service_case env input s).1
unfolding open_client_service_case PaymentsAgree open_write
open-PaymentsAgree env input s h =
    transact-keeps PaymentsAgree (open_checked env input s) (open_write env input) s h (λ a e.
      All-update account_key Agrees input.client_account_id (open_touch env.now input.trigger)
        s.accounts (open_touch-Agrees env.now input.trigger) h)

progress_case-PaymentsAgree :
    (now : Date) (c : Option ℕ) (i : ℕ) (s : Desk)
    → PaymentsAgree s
    → PaymentsAgree (progress_case now c i s)
unfolding PaymentsAgree progress_case
progress_case-PaymentsAgree now none i s h = h
progress_case-PaymentsAgree now (some c) i s h = h

responded-Agrees : (now : Date) (a : Account) → Agrees a → Agrees (responded now a)
unfolding Agrees
responded-Agrees now a h = h

respond-PaymentsAgree :
    (env : Env) (i : ℕ) (c : Option ℕ) (note : String) (s : Desk)
    → PaymentsAgree s
    → PaymentsAgree (record_service_response env i c note s).1
unfolding record_service_response PaymentsAgree response_write
respond-PaymentsAgree env i c note s h =
    transact-keeps PaymentsAgree (response_checked env i c s) (response_write env i c note) s h
      (λ a e. progress_case-PaymentsAgree env.now c i _ (
        All-update account_key Agrees i (responded env.now) s.accounts (responded-Agrees env.now)
          h))

resolve-PaymentsAgree :
    (env : Env) (i c : ℕ) (resolution : String) (s : Desk)
    → PaymentsAgree s
    → PaymentsAgree (resolve_client_service_case env i c resolution s).1
unfolding resolve_client_service_case PaymentsAgree resolve_write
resolve-PaymentsAgree env i c resolution s h =
    transact-keeps PaymentsAgree (resolve_checked env i c s) (resolve_write env i c resolution) s h
      (λ a e.
        All-update account_key Agrees i _ s.accounts (λ x old. resolve_touch-Agrees env.now _ x) h)

payment-PaymentsAgree :
    (env : Env) (i : ℕ) (note : String) (s : Desk)
    → PaymentsAgree s
    → PaymentsAgree (record_payment_resolved env i note s).1
unfolding record_payment_resolved PaymentsAgree payment_write
payment-PaymentsAgree env i note s h =
    transact-keeps PaymentsAgree (standing_checked env i s) (payment_write env i note) s h (λ a e.
      All-update account_key Agrees i (payment_touch env.now) s.accounts
        (λ x old. payment_touch-Agrees env.now x) h)

house-PaymentsAgree :
    (env : Env) (i : ℕ) (reason : HouseReason) (note : String) (s : Desk)
    → PaymentsAgree s
    → PaymentsAgree (transfer_client_service_to_house env i reason note s).1
unfolding transfer_client_service_to_house PaymentsAgree house_write
house-PaymentsAgree env i reason note s h =
    transact-keeps PaymentsAgree (standing_checked env i s) (house_write env i reason note) s h
      (λ a e.
        All-update account_key Agrees i (house_touch env.now note) s.accounts
          (house_touch-Agrees env.now note) h)

retain-PaymentsAgree :
    (env : Env) (i : ℕ) (note : String) (s : Desk)
    → PaymentsAgree s
    → PaymentsAgree (record_agent_continues_service env i note s).1
unfolding record_agent_continues_service PaymentsAgree retain_write
retain-PaymentsAgree env i note s h =
    transact-keeps PaymentsAgree (retain_checked env i s) (retain_write env i note) s h (λ a e. h)

open_check_in-PaymentsAgree :
    (i : ℕ) (now : Date) (c : CadenceCandidate) (s : Desk)
    → find case_key i s.cases ≡ none
    → PaymentsAgree s
    → PaymentsAgree (open_check_in i now c s)
unfolding open_check_in PaymentsAgree
open_check_in-PaymentsAgree i now c s free h = h

serve-PaymentsAgree :
    (env : Env) (d : Demand) (s : Desk)
    → HasKeys s
    → PaymentsAgree s
    → PaymentsAgree (serve env d s)
unfolding serve
serve-PaymentsAgree env (Demand.create input) s keys h = create-PaymentsAgree env input s h
serve-PaymentsAgree env (Demand.create_from_lead i code) s keys h =
    from_lead-PaymentsAgree env i code s h
serve-PaymentsAgree env (Demand.confirm_launch i p note) s keys h =
    confirm-PaymentsAgree env i p note s h
serve-PaymentsAgree env (Demand.complete_launch i note) s keys h =
    complete-PaymentsAgree env i note s keys h
serve-PaymentsAgree env (Demand.open_case input) s keys h = open-PaymentsAgree env input s h
serve-PaymentsAgree env (Demand.respond i c note) s keys h = respond-PaymentsAgree env i c note s h
serve-PaymentsAgree env (Demand.resolve i c resolution) s keys h =
    resolve-PaymentsAgree env i c resolution s h
serve-PaymentsAgree env (Demand.payment_resolved i note) s keys h =
    payment-PaymentsAgree env i note s h
serve-PaymentsAgree env (Demand.to_house i reason note) s keys h =
    house-PaymentsAgree env i reason note s h
serve-PaymentsAgree env (Demand.continue_service i note) s keys h =
    retain-PaymentsAgree env i note s h
serve-PaymentsAgree env (Demand.check_in before ids options) s keys h =
    sweep-keeps PaymentsAgree open_check_in-PaymentsAgree before ids env options s h

-- Through any requests on the servicing desk, refused or not, the accounts keep ids of their own, and each
-- account that says ACTIVE or HEALTHY is current on its payments and each that says PAYMENT_FAILED is not, if
-- that was so at the start.
pub serve_all-PaymentsAgree :
    (demands : List (Env × Demand)) (s : Desk)
    → HasKeys s
    → PaymentsAgree s
    → HasKeys (serve_all demands s) × PaymentsAgree (serve_all demands s)
serve_all-PaymentsAgree demands s keys h =
    serve_all-keeps (λ t. HasKeys t × PaymentsAgree t)
      (λ env d t both. (serve-HasKeys env d t both.0, serve-PaymentsAgree env d t both.0 both.1))
      demands s (keys, h)
