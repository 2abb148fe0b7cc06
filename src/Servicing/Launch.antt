-- ===== src/Servicing/Launch.antt =====
-- The launch of an account: `confirmClientLaunch` (src/lib/client-servicing-actions.ts) from the queue of
-- pending launches, and `completeClientLaunch` (src/lib/client-launch-actions.ts).
use crm_mcd.Prelude.{
  ℕ, Bool, true, false, none, some, ◌∷◌, String, Date, Result, ok, ◌>>=◌, ◌>>◌, require, refuse_if,
  or_throw, find, update, if◌then◌else◌,
}
use crm_mcd.Lead.{User, Env}
use crm_mcd.Servicing.{
  Desk, DeskError, Account, ClientStatus, HealthStatus, ServiceActivityType, Outcome, account_key,
  transact, audit_by,
}
use crm_mcd.Servicing.Actors.{servicing_admin}

pub data PaymentState : Type 0 where
  current payment_issue : PaymentState

abbrev pub is_pending_launch : ClientStatus → Bool
is_pending_launch ClientStatus.pending_launch = true
is_pending_launch _ = false

abbrev pub is_house_or_offboarded : ClientStatus → Bool
is_house_or_offboarded ClientStatus.house = true
is_house_or_offboarded ClientStatus.offboarded = true
is_house_or_offboarded _ = false

-- The two updates of `confirmClientLaunch`.
unfoldable pub confirm_touch : Date → PaymentState → Account → Account
confirm_touch now PaymentState.current a = record a {
  launch_checklist_complete = true;
  status = ClientStatus.active;
  health_status = HealthStatus.healthy;
  current_on_payments = true;
  last_successful_payment_at = some now;
  needs_attention_at = none;
  updated_at = now;
}
confirm_touch now PaymentState.payment_issue a = record a {
  launch_checklist_complete = true;
  status = ClientStatus.payment_failed;
  health_status = HealthStatus.payment_failed;
  current_on_payments = false;
  last_payment_issue_at = some now;
  needs_attention_at = some now;
  updated_at = now;
}

unfoldable pub confirm_checked : Env → ℕ → Desk → Result DeskError User
unfolding servicing_admin
confirm_checked env account_id s = do
  user ← servicing_admin env
  account ← or_throw (find account_key account_id s.accounts) DeskError.account_not_found
  require (is_pending_launch account.status) DeskError.not_pending_launch
  ok user

unfoldable pub confirm_write : Env → ℕ → PaymentState → String → User → Desk → Unit {0} × Desk
unfolding confirm_touch
confirm_write env account_id payment note user s = (
  tt,
  record s {
    accounts = update account_key account_id (confirm_touch env.now payment) s.accounts;
    audits = audit_by user "CLIENT_LAUNCH_CONFIRMED" account_id (some note) ∷ s.audits;
  },
)

unfoldable pub confirm_client_launch : Env → ℕ → PaymentState → String → Desk → Outcome (Unit {0})
unfolding transact confirm_checked confirm_write
confirm_client_launch env account_id payment note s =
    transact (confirm_checked env account_id s) (confirm_write env account_id payment note) s

unfoldable pub complete_checked : Env → ℕ → Desk → Result DeskError (User × Account)
unfolding servicing_admin
complete_checked env account_id s = do
  user ← servicing_admin env
  account ← or_throw (find account_key account_id s.accounts) DeskError.account_not_found
  refuse_if (is_house_or_offboarded account.status) DeskError.not_launchable
  ok (user, account)

-- The update, with the payments as the request read them.
unfoldable pub complete_touch : Date → Bool → Account → Account
complete_touch now paying a = record a {
  launch_checklist_complete = true;
  launch_completed_at = some now;
  status = if paying then ClientStatus.active else ClientStatus.payment_failed;
  health_status = if paying then HealthStatus.healthy else HealthStatus.payment_failed;
  updated_at = now;
}

unfoldable pub launch_account : Env → String → User → Account → Desk → Desk
unfolding complete_touch
launch_account env note user account s = record s {
  accounts =
      update account_key account.id (complete_touch env.now account.current_on_payments) s.accounts;
  activities =
      record {
        client_account_id = account.id;
        service_case_id = none;
        agent_id = none;
        type = ServiceActivityType.launch_completed;
        notes = note;
        occurred_at = env.now;
      }
      ∷ s.activities;
  audits = audit_by user "CLIENT_LAUNCH_COMPLETED" account.id (some note) ∷ s.audits;
}

-- The answer is `alreadyCompleted`.
unfoldable pub complete_write : Env → String → User × Account → Desk → Bool × Desk
unfolding launch_account
complete_write env note (user, account) s =
    if account.launch_checklist_complete
    then (true, s)
    else (false, launch_account env note user account s)

unfoldable pub complete_client_launch : Env → ℕ → String → Desk → Outcome Bool
unfolding transact complete_checked complete_write
complete_client_launch env account_id note s =
    transact (complete_checked env account_id s) (complete_write env note) s
