-- ===== src/Servicing/Sweep.antt =====
-- `runServiceCadenceSweep` (src/lib/service-cadence-jobs.ts).
use crm_mcd.Prelude.{
  ℕ, suc, leb, ◌==◌, Bool, Option, none, some, List, [], ◌∷◌, String, Date, Result, ok, ◌>>=◌, ◌>>◌,
  require, find, filter, length, insertion_sort, get_or, is_none, if◌then◌else◌,
}
use crm_mcd.Lead.{Actor, Env}
use crm_mcd.Session.{require_feature}
use crm_mcd.Servicing.{
  Desk, DeskError, Account, ServiceCase, Trigger, Priority, CaseStatus, Outcome, case_key, transact,
}
use crm_mcd.Servicing.Actors.{at_gate}
use crm_mcd.Servicing.Cadence.{CadenceCandidate, Tally, scan, is_active_account}

-- A number above zero that the sweep's route lets through, `?limit=1.5` among them: whole units, and a fraction of
-- one in units of 2 ^ -52, which is as fine as a double above 1 can be.
pub record Quantity : Type 0 where
  pub whole : ℕ
  pub fraction : ℕ

-- How many rows a loop takes that stops once their number is the quantity or more.
abbrev pub rounded_up : Quantity → ℕ
rounded_up q = if q.fraction == 0 then q.whole else suc q.whole

pub record CadenceOptions : Type 0 where
  pub now : Option Date
  pub limit : Option Quantity
  pub dry_run : Bool

-- `Math.max(1, Math.min(limit ?? DEFAULT_LIMIT, 500))`.
unfoldable pub cadence_limit : Option Quantity → Quantity
cadence_limit limit =
    let q = get_or limit (record { whole = 100; fraction = 0 }) in
    if leb 500 q.whole
    then record { whole = 500; fraction = 0 }
    else (if q.whole == 0 then record { whole = 1; fraction = 0 } else q)

pub record CadenceReport : Type 0 where
  pub scanned : ℕ
  pub skipped_open_case : ℕ
  pub skipped_unknown_package : ℕ
  pub not_due : ℕ
  pub limit : Quantity
  pub dry_run : Bool
  pub opened : ℕ
  pub would_open : ℕ

unfoldable pub cadence_case_for : ℕ → Date → CadenceCandidate → ServiceCase
cadence_case_for id now c = record {
  id = id;
  client_account_id = c.client_account_id;
  assigned_agent_id = c.assigned_agent_id;
  trigger = Trigger.service_cadence;
  priority = Priority.normal;
  status = CaseStatus.opened;
  summary = c.summary;
  opened_at = now;
  due_at = some c.due_at;
  resolved_at = none;
  resolution_note = none;
  updated_at = now;
}

unfoldable pub open_check_in : ℕ → Date → CadenceCandidate → Desk → Desk
unfolding cadence_case_for
open_check_in id now c s = record s {
  cases = cadence_case_for id now c ∷ s.cases;
  audits =
      record {
        actor = Actor.system;
        action_type = "SERVICE_CADENCE_CASE_OPENED";
        entity_id = c.client_account_id;
        reason = some c.summary;
      }
      ∷ s.audits;
}

-- The loop of the transaction; a taken id undoes all of it.
unfoldable pub open_check_ins :
    (ℕ → ℕ) → ℕ → Date → List CadenceCandidate → Desk → Result DeskError Desk
unfolding open_check_in
open_check_ins ids n now [] s = ok s
open_check_ins ids n now (c ∷ rest) s = do
  require (is_none (find case_key (ids n) s.cases)) DeskError.id_taken
  open_check_ins ids (suc n) now rest (open_check_in (ids n) now c s)

module _ (before : String → String → Bool) (ids : ℕ → ℕ) where
  unfoldable pub active_accounts : Desk → List Account
  active_accounts s =
      insertion_sort (λ a b. before a.client_name b.client_name)
        (filter is_active_account s.accounts)

  unfoldable pub cadence_tally : Date → CadenceOptions → Desk → Tally
  unfolding active_accounts cadence_limit scan
  cadence_tally now options s =
      scan now s (rounded_up (cadence_limit options.limit)) (active_accounts s)

  -- What the sweep opens: nothing in a dry run.
  unfoldable pub sweep_opened : Date → CadenceOptions → Desk → List CadenceCandidate
  unfolding cadence_tally
  sweep_opened now options s =
      if options.dry_run then [] else (cadence_tally now options s).candidates

  unfoldable pub cadence_report : Date → CadenceOptions → Desk → CadenceReport
  unfolding cadence_tally active_accounts cadence_limit
  cadence_report now options s =
      let tally = cadence_tally now options s in
      record {
        scanned = length (active_accounts s);
        skipped_open_case = tally.skipped_open_case;
        skipped_unknown_package = tally.skipped_unknown_package;
        not_due = tally.not_due;
        limit = cadence_limit options.limit;
        dry_run = options.dry_run;
        opened = if options.dry_run then 0 else length tally.candidates;
        would_open = if options.dry_run then length tally.candidates else 0;
      }

  -- The report, and the tables that the transaction leaves.
  unfoldable pub sweep_checked :
      Env → CadenceOptions → Desk → Result DeskError (CadenceReport × Desk)
  unfolding require_feature sweep_opened cadence_report open_check_ins
  sweep_checked env options s = do
    at_gate (require_feature env.features.servicing)
    s' ←
        open_check_ins ids 0 (get_or options.now env.now)
          (sweep_opened (get_or options.now env.now) options s) s
    ok (cadence_report (get_or options.now env.now) options s, s')

  unfoldable pub run_service_cadence_sweep : Env → CadenceOptions → Desk → Outcome CadenceReport
  unfolding transact sweep_checked
  run_service_cadence_sweep env options s =
      transact (sweep_checked env options s) (λ done before. done) s
