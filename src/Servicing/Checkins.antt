-- ===== src/Servicing/Checkins.antt =====
-- Scheduled check-ins through all operations on the desk (src/lib/service-cadence-jobs.ts,
-- src/lib/client-servicing-actions.ts, src/lib/client-servicing-resolution.ts).
use crm_mcd.Prelude.{
  ℕ, suc, ◌≡◌, ◌+◌, ◌≤◌, ◌<◌, Bool, true, false, ltb, ◌==◌, Option, none, some, List, [], ◌∷◌,
  String, Date, arith, filter, ok, get_or, count_where, count_where-update_where_le,
  count_where-filter, count_where-insertion_sort, insertion_sort, update_where,
  UniqueKeys-count_where, Bool-cases, inl, inr,
}
use crm_mcd.Lead.{Env, User}
use crm_mcd.Servicing.{Desk, SourceLead, Account, ServiceCase, account_key, open_on}
use crm_mcd.Servicing.Accounts.{
  create_client_account, create_account_checked, create_account_write,
  create_client_account_from_won_lead, won_lead_checked, won_lead_write, insert_account,
}
use crm_mcd.Servicing.Launch.{
  confirm_client_launch, confirm_checked, confirm_write, complete_client_launch, complete_checked,
  complete_write, launch_account,
}
use crm_mcd.Servicing.Cases.{
  CaseInput, CaseTrigger, as_trigger, open_client_service_case, open_checked, open_write, new_case,
  record_service_response, response_checked, response_write, progress_case,
  resolve_client_service_case, resolve_checked, resolve_write, is_fresh_case, in_progress_at,
  is_case, resolved_with,
}
use crm_mcd.Servicing.Standing.{
  record_payment_resolved, standing_checked, payment_write, transfer_client_service_to_house,
  house_write, unassign, record_agent_continues_service, retain_checked, retain_write,
}
use crm_mcd.Servicing.Actors.{ServicingActor}
use crm_mcd.Servicing.Cadence.{CadenceCandidate, is_active_account, is_cadence, open_cadence_case}
use crm_mcd.Servicing.Scan.{is_for, count_where-scan, scan-busy}
use crm_mcd.Servicing.Sweep.{
  CadenceOptions, CadenceReport, cadence_limit, rounded_up, active_accounts, cadence_tally,
  sweep_opened, open_check_in, open_check_ins, cadence_case_for, sweep_checked,
  run_service_cadence_sweep,
}
use crm_mcd.Servicing.Keys.{HasKeys, serve-HasKeys, sweep_checked-opens}
use crm_mcd.Servicing.Runs.{Demand, serve, serve_all, transact-keeps, serve_all-keeps}

unfoldable pub OneCheckIn : Desk → Type 0
OneCheckIn s = (i : ℕ) → count_where (open_cadence_case i) s.cases ≤ 1

-- The transaction adds one open check-in for each candidate.
open_check_ins-count :
    (ids : ℕ → ℕ) (n : ℕ) (now : Date) (cs : List CadenceCandidate) (s : Desk) (i : ℕ) {t : Desk}
    → open_check_ins ids n now cs s ≡ ok t
    → count_where (open_cadence_case i) t.cases
      ≡ count_where (open_cadence_case i) s.cases + count_where (is_for i) cs
unfolding open_check_ins open_check_in cadence_case_for count_where
open_check_ins-count ids n now [] s i h = ground arith
open_check_ins-count ids n now (c ∷ cs) s i {t} h =
    ground
      (arith, open_check_ins-count ids (suc n) now cs (open_check_in (ids n) now c s) i {t = t})

-- An account is picked at most once, and not at all if it has an open check-in.
sweep_opened-once :
    (before : String → String → Bool) (ids : ℕ → ℕ) (now : Date) (options : CadenceOptions)
    (s : Desk) (i : ℕ)
    → HasKeys s
    → (count_where (is_for i) (sweep_opened before ids now options s) ≤ 1)
      × (0 < count_where (open_cadence_case i) s.cases
          → count_where (is_for i) (sweep_opened before ids now options s) ≡ 0)
unfolding sweep_opened cadence_tally active_accounts HasKeys count_where
sweep_opened-once before ids now options s i h =
    let sorted =
      insertion_sort (λ a b. before a.client_name b.client_name)
        (filter is_active_account s.accounts) in
    let listed =
      count_where-insertion_sort (λ a b. before a.client_name b.client_name) (λ a. a.id == i)
        (filter is_active_account s.accounts) in
    let active = count_where-filter (λ a. a.id == i) is_active_account s.accounts in
    let once = UniqueKeys-count_where account_key i s.accounts h.0 in
    let picked = count_where-scan now s (rounded_up (cadence_limit options.limit)) sorted i in
    let busy = scan-busy now s (rounded_up (cadence_limit options.limit)) sorted i in
    (ground (arith, listed, active, once, picked), λ some_open. ground (arith, busy some_open))

sweep_checked-OneCheckIn :
    (before : String → String → Bool) (ids : ℕ → ℕ) (env : Env) (options : CadenceOptions)
    (s : Desk) {done : CadenceReport × Desk}
    → HasKeys s
    → OneCheckIn s
    → sweep_checked before ids env options s ≡ ok done
    → OneCheckIn done.1
unfolding OneCheckIn
sweep_checked-OneCheckIn before ids env options s {done} keys h e i =
    let now = get_or options.now env.now in
    let (once, busy) = sweep_opened-once before ids now options s i keys in
    let total =
      open_check_ins-count ids 0 now (sweep_opened before ids now options s) s i {t = done.1}
        (sweep_checked-opens before ids env options s e) in
    elim (Bool-cases (ltb 0 (count_where (open_cadence_case i) s.cases))) [
      | inl some_open ↦
          let none_picked = busy (ground arith) in omega (arith, h i, total, none_picked)
      | inr idle ↦ ground (arith, once, total)
    ]

update_where-OneCheckIn :
    (p : ServiceCase → Bool) (f : ServiceCase → ServiceCase) (cases : List ServiceCase)
    → ((i : ℕ) (c : ServiceCase)
        → p c ≡ true
        → open_cadence_case i (f c) ≡ true
        → open_cadence_case i c ≡ true)
    → ((i : ℕ) → count_where (open_cadence_case i) cases ≤ 1)
    → (i : ℕ) → count_where (open_cadence_case i) (update_where p f cases) ≤ 1
update_where-OneCheckIn p f cases keep h i =
    omega (arith, h i, count_where-update_where_le (open_cadence_case i) p f cases (keep i))

progress_case-OneCheckIn :
    (now : Date) (k : Option ℕ) (j : ℕ) (s : Desk)
    → OneCheckIn s
    → OneCheckIn (progress_case now k j s)
unfolding OneCheckIn progress_case
progress_case-OneCheckIn now none j s h = h
progress_case-OneCheckIn now (some k) j s h =
    update_where-OneCheckIn (is_fresh_case k j) (in_progress_at now) s.cases
      (λ i c p q. ground arith) h

from_lead-OneCheckIn :
    (env : Env) (code : String) (user : User) (lead : SourceLead) (found : Option Account)
    (s : Desk)
    → OneCheckIn s
    → OneCheckIn (won_lead_write env code (user, lead, found) s).1
unfolding OneCheckIn won_lead_write insert_account
from_lead-OneCheckIn env code user lead (some account) s h = h
from_lead-OneCheckIn env code user lead none s h = h

complete-OneCheckIn :
    (env : Env) (note : String) (user : User) (account : Account) (s : Desk)
    → OneCheckIn s
    → OneCheckIn (complete_write env note (user, account) s).1
unfolding OneCheckIn complete_write launch_account
complete-OneCheckIn env note user account s h =
    elim (Bool-cases account.launch_checklist_complete) [
      | inl done ↦ rw done h
      | inr left ↦ rw left h
    ]

-- No form opens a check-in.
as_trigger_other : (t : CaseTrigger) → is_cadence (as_trigger t) ≡ false
as_trigger_other t = ground arith

open_write-OneCheckIn :
    (env : Env) (input : CaseInput) (a : ServicingActor × Option ℕ) (s : Desk)
    → OneCheckIn s
    → OneCheckIn (open_write env input a s).1
unfolding OneCheckIn open_write new_case count_where
open_write-OneCheckIn env input a s h = λ i. ground (arith, h i, as_trigger_other input.trigger)

serve-OneCheckIn :
    (env : Env) (d : Demand) (s : Desk) → HasKeys s → OneCheckIn s → OneCheckIn (serve env d s)
unfolding serve OneCheckIn create_client_account create_account_write insert_account
    create_client_account_from_won_lead confirm_client_launch confirm_write complete_client_launch
    open_client_service_case record_service_response response_write resolve_client_service_case
    resolve_write record_payment_resolved payment_write transfer_client_service_to_house house_write
    record_agent_continues_service retain_write run_service_cadence_sweep
serve-OneCheckIn env (Demand.create input) s keys h =
    transact-keeps OneCheckIn (create_account_checked env input s) (create_account_write env input)
      s h (λ a e. h)
serve-OneCheckIn env (Demand.create_from_lead j code) s keys h =
    transact-keeps OneCheckIn (won_lead_checked env j s) (won_lead_write env code) s h
      (λ a e. from_lead-OneCheckIn env code a.0 a.1 a.2 s h)
serve-OneCheckIn env (Demand.confirm_launch j p note) s keys h =
    transact-keeps OneCheckIn (confirm_checked env j s) (confirm_write env j p note) s h (λ a e. h)
serve-OneCheckIn env (Demand.complete_launch j note) s keys h =
    transact-keeps OneCheckIn (complete_checked env j s) (complete_write env note) s h
      (λ a e. complete-OneCheckIn env note a.0 a.1 s h)
serve-OneCheckIn env (Demand.open_case input) s keys h =
    transact-keeps OneCheckIn (open_checked env input s) (open_write env input) s h
      (λ a e. open_write-OneCheckIn env input a s h)
serve-OneCheckIn env (Demand.respond j k note) s keys h =
    transact-keeps OneCheckIn (response_checked env j k s) (response_write env j k note) s h
      (λ a e. progress_case-OneCheckIn env.now k j _ h)
serve-OneCheckIn env (Demand.resolve j k resolution) s keys h =
    transact-keeps OneCheckIn (resolve_checked env j k s) (resolve_write env j k resolution) s h
      (λ a e.
        update_where-OneCheckIn (is_case k j) (resolved_with env.now resolution) s.cases
          (λ i c p q. ground arith) h)
serve-OneCheckIn env (Demand.payment_resolved j note) s keys h =
    transact-keeps OneCheckIn (standing_checked env j s) (payment_write env j note) s h (λ a e. h)
serve-OneCheckIn env (Demand.to_house j reason note) s keys h =
    transact-keeps OneCheckIn (standing_checked env j s) (house_write env j reason note) s h
      (λ a e. update_where-OneCheckIn (open_on j) (unassign env.now) s.cases (λ i c p q. q) h)
serve-OneCheckIn env (Demand.continue_service j note) s keys h =
    transact-keeps OneCheckIn (retain_checked env j s) (retain_write env j note) s h (λ a e. h)
serve-OneCheckIn env (Demand.check_in before ids options) s keys h =
    transact-keeps OneCheckIn (sweep_checked before ids env options s) (λ done old. done) s h
      (λ a e. sweep_checked-OneCheckIn before ids env options s keys h e)

-- Through any requests on the servicing desk, sweeps of any options among them, no account has two open
-- check-ins, if none had at the start and the ids of the rows were unique.
pub serve_all-OneCheckIn :
    (demands : List (Env × Demand)) (s : Desk)
    → HasKeys s
    → OneCheckIn s
    → OneCheckIn (serve_all demands s)
serve_all-OneCheckIn demands s keys h =
    (serve_all-keeps (λ t. HasKeys t × OneCheckIn t)
      (λ env d t both. (serve-HasKeys env d t both.0, serve-OneCheckIn env d t both.0 both.1))
      demands s (keys, h)).1
