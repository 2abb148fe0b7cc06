-- ===== src/Servicing/Standing.antt =====
-- What administrators settle about an account: `recordPaymentResolved`, `transferClientServiceToHouse` and
-- `recordAgentContinuesService` (src/lib/client-servicing-resolution.ts).
use crm_mcd.Prelude.{
  ℕ, true, none, some, ◌∷◌, String, Date, Result, ok, ◌>>=◌, or_throw, find, update, update_where,
}
use crm_mcd.Lead.{User, Env}
use crm_mcd.Servicing.{
  Desk, DeskError, Account, ServiceCase, ClientStatus, HealthStatus, ServiceActivityType,
  TransferReason, Outcome, account_key, open_on, transact, audit_by,
}
use crm_mcd.Servicing.Actors.{servicing_admin}

unfoldable pub standing_checked : Env → ℕ → Desk → Result DeskError (User × Account)
unfolding servicing_admin
standing_checked env account_id s = do
  user ← servicing_admin env
  account ← or_throw (find account_key account_id s.accounts) DeskError.account_not_found
  ok (user, account)

unfoldable pub payment_touch : Date → Account → Account
payment_touch now a = record a {
  status = ClientStatus.active;
  health_status = HealthStatus.healthy;
  current_on_payments = true;
  last_successful_payment_at = some now;
  needs_attention_at = none;
  updated_at = now;
}

unfoldable pub payment_write : Env → ℕ → String → User × Account → Desk → Unit {0} × Desk
unfolding payment_touch
payment_write env account_id note (user, account) s = (
  tt,
  record s {
    accounts = update account_key account_id (payment_touch env.now) s.accounts;
    activities =
        record {
          client_account_id = account_id;
          service_case_id = none;
          agent_id = none;
          type = ServiceActivityType.payment_resolved;
          notes = note;
          occurred_at = env.now;
        }
        ∷ s.activities;
    audits = audit_by user "CLIENT_PAYMENT_RESOLVED" account_id (some note) ∷ s.audits;
  },
)

unfoldable pub record_payment_resolved : Env → ℕ → String → Desk → Outcome (Unit {0})
unfolding transact standing_checked payment_write
record_payment_resolved env account_id note s =
    transact (standing_checked env account_id s) (payment_write env account_id note) s

-- The reasons that `houseSchema` allows.
pub data HouseReason : Type 0 where
  agent_declines_service terminated manager_reassignment house_review : HouseReason

abbrev pub as_transfer_reason : HouseReason → TransferReason
as_transfer_reason HouseReason.agent_declines_service = TransferReason.agent_declines_service
as_transfer_reason HouseReason.terminated = TransferReason.terminated
as_transfer_reason HouseReason.manager_reassignment = TransferReason.manager_reassignment
as_transfer_reason HouseReason.house_review = TransferReason.house_review

unfoldable pub house_touch : Date → String → Account → Account
house_touch now note a = record a {
  account_owner_agent_id = none;
  status = ClientStatus.house;
  house_transferred_at = some now;
  house_transfer_reason = some note;
  updated_at = now;
}

abbrev pub unassign : Date → ServiceCase → ServiceCase
unassign now c = record c { assigned_agent_id = none; updated_at = now }

unfoldable pub house_write :
    Env → ℕ → HouseReason → String → User × Account → Desk → Unit {0} × Desk
unfolding house_touch
house_write env account_id reason note (user, account) s = (
  tt,
  record s {
    accounts = update account_key account_id (house_touch env.now note) s.accounts;
    cases = update_where (open_on account_id) (unassign env.now) s.cases;
    assignments =
        record {
          client_account_id = account_id;
          from_agent_id = account.account_owner_agent_id;
          to_agent_id = none;
          reason = as_transfer_reason reason;
          note = note;
          created_by_id = user.id;
        }
        ∷ s.assignments;
    activities =
        record {
          client_account_id = account_id;
          service_case_id = none;
          agent_id = none;
          type = ServiceActivityType.house_transfer;
          notes = note;
          occurred_at = env.now;
        }
        ∷ s.activities;
    audits = audit_by user "CLIENT_SERVICE_TRANSFERRED_TO_HOUSE" account_id (some note) ∷ s.audits;
  },
)

unfoldable pub transfer_client_service_to_house :
    Env → ℕ → HouseReason → String → Desk → Outcome (Unit {0})
unfolding transact standing_checked house_write
transfer_client_service_to_house env account_id reason note s =
    transact (standing_checked env account_id s) (house_write env account_id reason note) s

-- `if (!account?.accountOwnerAgentId) throw`: without an account or without an owner the error is one.
unfoldable pub retain_checked : Env → ℕ → Desk → Result DeskError (User × ℕ)
unfolding servicing_admin
retain_checked env account_id s = do
  user ← servicing_admin env
  account ← or_throw (find account_key account_id s.accounts) DeskError.servicing_agent_required
  owner ← or_throw account.account_owner_agent_id DeskError.servicing_agent_required
  ok (user, owner)

unfoldable pub retain_write : Env → ℕ → String → User × ℕ → Desk → Unit {0} × Desk
retain_write env account_id note (user, owner) s = (
  tt,
  record s {
    assignments =
        record {
          client_account_id = account_id;
          from_agent_id = some owner;
          to_agent_id = some owner;
          reason = TransferReason.agent_continues_service;
          note = note;
          created_by_id = user.id;
        }
        ∷ s.assignments;
    activities =
        record {
          client_account_id = account_id;
          service_case_id = none;
          agent_id = some owner;
          type = ServiceActivityType.ownership_retained;
          notes = note;
          occurred_at = env.now;
        }
        ∷ s.activities;
    audits = audit_by user "CLIENT_SERVICE_OWNERSHIP_RETAINED" account_id (some note) ∷ s.audits;
  },
)

unfoldable pub record_agent_continues_service : Env → ℕ → String → Desk → Outcome (Unit {0})
unfolding transact retain_checked retain_write
record_agent_continues_service env account_id note s =
    transact (retain_checked env account_id s) (retain_write env account_id note) s
