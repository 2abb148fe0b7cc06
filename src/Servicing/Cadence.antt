-- ===== src/Servicing/Cadence.antt =====
-- Scheduled check-ins: `requiredCadence` (src/lib/service-rules.ts), `nextCadenceDue`, `assessCadence` and
-- `latestOf` (src/lib/service-cadence-schedule.ts) and `runServiceCadenceSweep`
-- (src/lib/service-cadence-jobs.ts). The database's order of texts is the parameter `before`, the ids that
-- `randomUUID` gives are the parameter `ids`. Of the sweep's answer the rows are left out.
use crm_mcd.Prelude.{
  ℕ, suc, ◌+◌, ◌-◌, ◌*◌, ◌/◌, Bool, true, false, not, ◌&&◌, Option, none, some, List, [], ◌∷◌, map,
  String, Date, day_ms, ltb, leb, ◌==◌, str_eq, concat, filter, count_where, get_or, if◌then◌else◌,
}
use crm_mcd.Servicing.{
  Desk, Account, ServiceCase, ServiceActivity, ClientStatus, Trigger, ServiceActivityType, is_open,
}

pub data ServicePackage : Type 0 where
  starter growth pro enterprise : ServicePackage

pub data ServiceCadence : Type 0 where
  weekly biweekly monthly : ServiceCadence

-- `requiredCadence`; days that are not negative are never refused.
unfoldable pub required_cadence : ServicePackage → ℕ → Option ServiceCadence → ServiceCadence × ℕ
required_cadence ServicePackage.pro days preference = (ServiceCadence.weekly, 60)
required_cadence ServicePackage.enterprise days preference = (ServiceCadence.weekly, 60)
required_cadence ServicePackage.starter days preference =
    (if leb days 90 then ServiceCadence.biweekly else ServiceCadence.monthly, 0)
required_cadence ServicePackage.growth days preference =
    (if leb days 90 then ServiceCadence.weekly else get_or preference ServiceCadence.biweekly, 0)

abbrev pub period_days : ServiceCadence → ℕ
period_days ServiceCadence.weekly = 7
period_days ServiceCadence.biweekly = 14
period_days ServiceCadence.monthly = 30

unfoldable pub next_cadence_due : Date → ServiceCadence → Date
next_cadence_due last_touch cadence = last_touch + period_days cadence * day_ms

-- `{ due, isDue }`.
unfoldable pub assess_cadence : Date → Date → ServiceCadence → Date × Bool
unfolding next_cadence_due
assess_cadence now last_touch cadence =
    let due = next_cadence_due last_touch cadence in (due, leb due now)

abbrev later_of : Date → Option Date → Date
later_of t none = t
later_of t (some u) = if ltb t u then u else t

unfoldable pub latest_of : Date → List (Option Date) → Date
latest_of t [] = t
latest_of t (u ∷ rest) = latest_of (later_of t u) rest

-- `SELECT MAX(...)`.
unfoldable pub greatest : List Date → Option Date
greatest [] = none
greatest (t ∷ ts) = some (latest_of t (map some ts))

-- `SERVICE_PACKAGES.has(packageCode)`, and the package of that name.
unfoldable pub service_package : String → Option ServicePackage
service_package code =
    if str_eq code "STARTER"
    then some ServicePackage.starter
    else if str_eq code "GROWTH"
    then some ServicePackage.growth
    else if str_eq code "PRO"
    then some ServicePackage.pro
    else if str_eq code "ENTERPRISE"
    then some ServicePackage.enterprise
    else none

abbrev pub is_health_type : ServiceActivityType → Bool
is_health_type ServiceActivityType.health_confirmation = true
is_health_type _ = false

abbrev pub is_confirmation : ℕ → ServiceActivity → Bool
is_confirmation account_id a = a.client_account_id == account_id && is_health_type a.type

abbrev pub is_cadence : Trigger → Bool
is_cadence Trigger.service_cadence = true
is_cadence _ = false

abbrev pub cadence_case : ℕ → ServiceCase → Bool
cadence_case account_id c = c.client_account_id == account_id && is_cadence c.trigger

abbrev pub open_cadence_case : ℕ → ServiceCase → Bool
open_cadence_case account_id c = cadence_case account_id c && is_open c.status

unfoldable pub last_touch_of : Desk → Account → Date
unfolding latest_of greatest
last_touch_of s a = latest_of (get_or a.launch_completed_at a.created_at) (
    greatest (map (λ v. v.occurred_at) (filter (is_confirmation a.id) s.activities))
    ∷ greatest (map (λ c. c.opened_at) (filter (cadence_case a.id) s.cases))
    ∷ [])

pub record CadenceCandidate : Type 0 where
  pub client_account_id : ℕ
  pub package_code : String
  pub cadence : ServiceCadence
  pub assigned_agent_id : Option ℕ
  pub due_at : Date
  pub summary : String

-- What the loop finds about an account.
pub data Judgement : Type 0 where
  unknown_package not_due has_open_case : Judgement
  due : CadenceCandidate → Judgement

abbrev cadence_text : ServiceCadence → String
cadence_text ServiceCadence.weekly = "WEEKLY"
cadence_text ServiceCadence.biweekly = "BIWEEKLY"
cadence_text ServiceCadence.monthly = "MONTHLY"

unfoldable pub check_in_summary : ServiceCadence → String → String
check_in_summary cadence code =
    concat "Scheduled service check-in — "
      (concat (cadence_text cadence) (concat " cadence (" (concat code ").")))

-- The cadence that an account of a package has by now.
unfoldable pub cadence_at : Date → ServicePackage → Account → ServiceCadence
unfolding required_cadence
cadence_at now plan a =
    let anchor = get_or a.launch_completed_at a.created_at in
    (required_cadence plan ((now - anchor) / day_ms) none).0

unfoldable pub judge_package : Date → Desk → Account → ServicePackage → Judgement
unfolding cadence_at last_touch_of assess_cadence check_in_summary
judge_package now s a plan =
    let cadence = cadence_at now plan a in
    let (due_at, is_due) = assess_cadence now (last_touch_of s a) cadence in
    if not is_due
    then Judgement.not_due
    else if ltb 0 (count_where (open_cadence_case a.id) s.cases)
    then Judgement.has_open_case
    else Judgement.due (record {
      client_account_id = a.id;
      package_code = a.package_code;
      cadence = cadence;
      assigned_agent_id = a.account_owner_agent_id;
      due_at = due_at;
      summary = check_in_summary cadence a.package_code;
    })

unfoldable pub judge_account : Date → Desk → Account → Judgement
unfolding service_package judge_package
judge_account now s a = elim (service_package a.package_code) [
  | none ↦ Judgement.unknown_package
  | some plan ↦ judge_package now s a plan
]

pub record Tally : Type 0 where
  pub skipped_open_case : ℕ
  pub skipped_unknown_package : ℕ
  pub not_due : ℕ
  pub candidates : List CadenceCandidate

abbrev pub no_tally : Tally
no_tally = record {
  skipped_open_case = 0;
  skipped_unknown_package = 0;
  not_due = 0;
  candidates = [];
}

-- The loop over the accounts, which breaks with the candidate that fills `room`.
unfoldable pub scan : Date → Desk → ℕ → List Account → Tally
unfolding judge_account
scan now s room [] = no_tally
scan now s room (a ∷ rest) = elim (judge_account now s a) [
  | Judgement.unknown_package ↦
      let tally = scan now s room rest in
      record tally { skipped_unknown_package = suc tally.skipped_unknown_package }
  | Judgement.not_due ↦
      let tally = scan now s room rest in record tally { not_due = suc tally.not_due }
  | Judgement.has_open_case ↦
      let tally = scan now s room rest in
      record tally { skipped_open_case = suc tally.skipped_open_case }
  | Judgement.due c ↦ elim (leb room 1) [
    | true ↦ record no_tally { candidates = c ∷ [] }
    | false ↦
        let tally = scan now s (room - 1) rest in record tally { candidates = c ∷ tally.candidates }
  ]
]

abbrev pub is_active : ClientStatus → Bool
is_active ClientStatus.active = true
is_active _ = false

abbrev pub is_active_account : Account → Bool
is_active_account a = is_active a.status
