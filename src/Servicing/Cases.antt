-- ===== src/Servicing/Cases.antt =====
-- Service cases: `openClientServiceCase` (src/lib/client-servicing-actions.ts), `recordServiceResponse` and
-- `resolveClientServiceCase` (src/lib/client-servicing-resolution.ts).
use crm_mcd.Prelude.{
  ℕ, Bool, true, false, ◌&&◌, not, Option, none, some, ◌∷◌, String, Date, ◌==◌, Result, ok, ◌>>=◌,
  ◌>>◌, require, find, update, update_where, any, is_none, or_else, if◌then◌else◌,
}
use crm_mcd.Lead.{Env}
use crm_mcd.Servicing.{
  Desk, DeskError, Account, ServiceCase, ClientStatus, HealthStatus, Trigger, Priority, CaseStatus,
  ServiceActivityType, Outcome, account_key, case_key, open_on, transact, audit_by,
}
use crm_mcd.Servicing.Actors.{
  ServicingActor, servicing_actor, account_access, case_for_actor, acting_agent,
}

-- `triggerSchema`: the triggers that a form may name.
pub data CaseTrigger : Type 0 where
  client_request support_issue payment_problem renewal_event escalation manual_review : CaseTrigger

pub record CaseInput : Type 0 where
  pub client_account_id : ℕ
  pub trigger : CaseTrigger
  pub priority : Option Priority
  pub summary : String
  pub due_at : Option Date
  pub assigned_agent_id : Option ℕ

abbrev pub as_trigger : CaseTrigger → Trigger
as_trigger CaseTrigger.client_request = Trigger.client_request
as_trigger CaseTrigger.support_issue = Trigger.support_issue
as_trigger CaseTrigger.payment_problem = Trigger.payment_problem
as_trigger CaseTrigger.renewal_event = Trigger.renewal_event
as_trigger CaseTrigger.escalation = Trigger.escalation
as_trigger CaseTrigger.manual_review = Trigger.manual_review

abbrev pub opening_activity : CaseTrigger → ServiceActivityType
opening_activity CaseTrigger.payment_problem = ServiceActivityType.payment_issue
opening_activity CaseTrigger.renewal_event = ServiceActivityType.renewal_event
opening_activity CaseTrigger.escalation = ServiceActivityType.escalation
opening_activity CaseTrigger.manual_review = ServiceActivityType.health_confirmation
opening_activity _ = ServiceActivityType.client_request

-- `prioritySchema.default("NORMAL")`.
abbrev priority_of : Option Priority → Priority
priority_of none = Priority.normal
priority_of (some p) = p

-- What the opening of a case does to its account.
unfoldable pub open_touch : Date → CaseTrigger → Account → Account
open_touch now CaseTrigger.payment_problem a = record a {
  status = ClientStatus.payment_failed;
  health_status = HealthStatus.payment_failed;
  current_on_payments = false;
  last_payment_issue_at = some now;
  needs_attention_at = some now;
  updated_at = now;
}
open_touch now CaseTrigger.escalation a = record a {
  status = ClientStatus.at_risk;
  health_status = HealthStatus.at_risk;
  last_escalation_at = some now;
  needs_attention_at = some now;
  updated_at = now;
}
open_touch now CaseTrigger.client_request a = record a {
  health_status = HealthStatus.needs_attention;
  last_client_request_at = some now;
  needs_attention_at = some now;
  updated_at = now;
}
open_touch now _ a = record a {
  health_status = HealthStatus.needs_attention;
  needs_attention_at = some now;
  updated_at = now;
}

unfoldable pub open_checked : Env → CaseInput → Desk → Result DeskError (ServicingActor × Option ℕ)
unfolding servicing_actor account_access
open_checked env input s = do
  actor ← servicing_actor env s
  account ← account_access input.client_account_id actor s
  require (is_none (find case_key env.fresh s.cases)) DeskError.id_taken
  ok (actor, acting_agent actor (or_else input.assigned_agent_id account.account_owner_agent_id))

unfoldable pub new_case : Env → CaseInput → Option ℕ → ServiceCase
new_case env input assigned = record {
  id = env.fresh;
  client_account_id = input.client_account_id;
  assigned_agent_id = assigned;
  trigger = as_trigger input.trigger;
  priority = priority_of input.priority;
  status = CaseStatus.opened;
  summary = input.summary;
  opened_at = env.now;
  due_at = input.due_at;
  resolved_at = none;
  resolution_note = none;
  updated_at = env.now;
}

unfoldable pub open_write : Env → CaseInput → ServicingActor × Option ℕ → Desk → ℕ × Desk
unfolding new_case open_touch
open_write env input (actor, assigned) s = (
  env.fresh,
  record s {
    cases = new_case env input assigned ∷ s.cases;
    activities =
        record {
          client_account_id = input.client_account_id;
          service_case_id = some env.fresh;
          agent_id = assigned;
          type = opening_activity input.trigger;
          notes = input.summary;
          occurred_at = env.now;
        }
        ∷ s.activities;
    accounts =
        update account_key input.client_account_id (open_touch env.now input.trigger) s.accounts;
    audits = audit_by actor.user "CLIENT_SERVICE_CASE_OPENED" env.fresh none ∷ s.audits;
  },
)

unfoldable pub open_client_service_case : Env → CaseInput → Desk → Outcome ℕ
unfolding transact open_checked open_write
open_client_service_case env input s = transact (open_checked env input s) (open_write env input) s

-- `if (serviceCaseId) await serviceCaseForActor(...)`.
unfoldable pub named_case : Option ℕ → ℕ → ServicingActor → Desk → Result DeskError (Unit {0})
unfolding case_for_actor
named_case none account_id actor s = ok tt
named_case (some case_id) account_id actor s = do
  service_case ← case_for_actor case_id account_id actor s
  ok tt

unfoldable pub response_checked :
    Env → ℕ → Option ℕ → Desk → Result DeskError (ServicingActor × Option ℕ)
unfolding servicing_actor account_access named_case
response_checked env account_id case_id s = do
  actor ← servicing_actor env s
  account ← account_access account_id actor s
  named_case case_id account_id actor s
  ok (actor, acting_agent actor account.account_owner_agent_id)

abbrev pub responded : Date → Account → Account
responded now a = record a { last_support_response_at = some now; updated_at = now }

abbrev pub is_just_opened : CaseStatus → Bool
is_just_opened CaseStatus.opened = true
is_just_opened _ = false

abbrev pub is_fresh_case : ℕ → ℕ → ServiceCase → Bool
is_fresh_case case_id account_id c =
    c.id == case_id && (c.client_account_id == account_id && is_just_opened c.status)

abbrev pub in_progress_at : Date → ServiceCase → ServiceCase
in_progress_at now c = record c { status = CaseStatus.in_progress; updated_at = now }

unfoldable pub progress_case : Date → Option ℕ → ℕ → Desk → Desk
progress_case now none account_id s = s
progress_case now (some case_id) account_id s = record s {
  cases = update_where (is_fresh_case case_id account_id) (in_progress_at now) s.cases;
}

unfoldable pub response_write :
    Env → ℕ → Option ℕ → String → ServicingActor × Option ℕ → Desk → Unit {0} × Desk
unfolding progress_case
response_write env account_id case_id note (actor, agent_id) s = (
  tt,
  progress_case env.now case_id account_id (record s {
    activities =
        record {
          client_account_id = account_id;
          service_case_id = case_id;
          agent_id = agent_id;
          type = ServiceActivityType.support_response;
          notes = note;
          occurred_at = env.now;
        }
        ∷ s.activities;
    accounts = update account_key account_id (responded env.now) s.accounts;
    audits =
        audit_by actor.user "CLIENT_SERVICE_RESPONSE_RECORDED" account_id (some note) ∷ s.audits;
  }),
)

unfoldable pub record_service_response : Env → ℕ → Option ℕ → String → Desk → Outcome (Unit {0})
unfolding transact response_checked response_write
record_service_response env account_id case_id note s =
    transact (response_checked env account_id case_id s)
      (response_write env account_id case_id note) s

unfoldable pub resolve_checked : Env → ℕ → ℕ → Desk → Result DeskError (ServicingActor × Option ℕ)
unfolding servicing_actor account_access case_for_actor
resolve_checked env account_id case_id s = do
  actor ← servicing_actor env s
  account ← account_access account_id actor s
  service_case ← case_for_actor case_id account_id actor s
  ok (actor, acting_agent actor account.account_owner_agent_id)

abbrev pub is_case : ℕ → ℕ → ServiceCase → Bool
is_case case_id account_id c = c.id == case_id && c.client_account_id == account_id

abbrev pub resolved_with : Date → String → ServiceCase → ServiceCase
resolved_with now resolution c = record c {
  status = CaseStatus.resolved;
  resolved_at = some now;
  resolution_note = some resolution;
  updated_at = now;
}

-- The account afterwards, where `remaining` says whether it has another open case.
unfoldable pub resolve_touch : Date → Bool → Account → Account
resolve_touch now remaining a = record a {
  status = if a.current_on_payments then ClientStatus.active else ClientStatus.payment_failed;
  health_status =
      if not a.current_on_payments
      then HealthStatus.payment_failed
      else if remaining
      then HealthStatus.needs_attention
      else HealthStatus.healthy;
  last_resolved_at = some now;
  needs_attention_at =
      if a.current_on_payments && not remaining then none else a.needs_attention_at;
  updated_at = now;
}

unfoldable pub resolve_write :
    Env → ℕ → ℕ → String → ServicingActor × Option ℕ → Desk → Unit {0} × Desk
unfolding resolve_touch
resolve_write env account_id case_id resolution (actor, agent_id) s =
    let cases' =
      update_where (is_case case_id account_id) (resolved_with env.now resolution) s.cases in
    (
      tt,
      record s {
        cases = cases';
        activities =
            record {
              client_account_id = account_id;
              service_case_id = some case_id;
              agent_id = agent_id;
              type = ServiceActivityType.resolution;
              notes = resolution;
              occurred_at = env.now;
            }
            ∷ s.activities;
        accounts =
            update account_key account_id (resolve_touch env.now (any (open_on account_id) cases'))
              s.accounts;
        audits =
            audit_by actor.user "CLIENT_SERVICE_CASE_RESOLVED" case_id (some resolution) ∷ s.audits;
      },
    )

unfoldable pub resolve_client_service_case : Env → ℕ → ℕ → String → Desk → Outcome (Unit {0})
unfolding transact resolve_checked resolve_write
resolve_client_service_case env account_id case_id resolution s =
    transact (resolve_checked env account_id case_id s)
      (resolve_write env account_id case_id resolution) s
