-- ===== src/Servicing/Accounts.antt =====
-- How a client account comes to be: `createClientAccount` (src/lib/client-servicing-actions.ts), by an
-- administrator's form, and `createClientAccountFromWonLead` (src/lib/lead-client-account.ts). The transaction
-- of either reads the accounts of the Lead before it inserts.
use crm_mcd.Prelude.{
  ℕ, Bool, true, false, ◌||◌, Option, none, some, ◌∷◌, String, Date, Result, ok, ◌>>=◌, ◌>>◌,
  require, refuse_if, or_throw, find, first_where, holds, is_none, is_some, or_else, trimmed, any,
  is_text,
}
use crm_mcd.Lead.{Lifecycle, User, Env}
use crm_mcd.Session.{require_feature}
use crm_mcd.Servicing.{
  Desk, DeskError, SourceLead, Account, ClientStatus, HealthStatus, ServiceActivityType, Outcome,
  lead_key, account_key, transact, audit_by,
}
use crm_mcd.Servicing.Actors.{at_gate, servicing_admin}

pub record AccountInput : Type 0 where
  pub client_name : String
  pub package_code : String
  pub lead_id : Option ℕ
  pub ghl_location_id : Option String
  pub ghl_contact_id : Option String
  pub account_owner_agent_id : Option ℕ
  pub originating_agent_id : Option ℕ

abbrev pub is_won : Lifecycle → Bool
is_won Lifecycle.closed_won = true
is_won _ = false

abbrev pub of_lead : ℕ → Account → Bool
of_lead i a = holds a.lead_id i

-- The columns that an `INSERT` leaves out have the defaults of the table.
abbrev pub fresh_account : ℕ → Date → Account
fresh_account i now = record {
  id = i;
  lead_id = none;
  client_name = "";
  ghl_location_id = none;
  ghl_contact_id = none;
  package_code = "";
  account_owner_agent_id = none;
  originating_agent_id = none;
  status = ClientStatus.pending_launch;
  health_status = HealthStatus.healthy;
  current_on_payments = true;
  last_successful_payment_at = none;
  last_payment_issue_at = none;
  last_client_request_at = none;
  last_support_response_at = none;
  last_escalation_at = none;
  last_resolved_at = none;
  needs_attention_at = none;
  launch_checklist_complete = false;
  launch_completed_at = none;
  house_transferred_at = none;
  house_transfer_reason = none;
  created_at = now;
  updated_at = now;
}

unfoldable pub insert_account : User → String → String → Option ℕ → Account → Desk → Desk
insert_account user action notes agent_id account s = record s {
  accounts = account ∷ s.accounts;
  activities =
      record {
        client_account_id = account.id;
        service_case_id = none;
        agent_id = agent_id;
        type = ServiceActivityType.account_created;
        notes = notes;
        occurred_at = account.created_at;
      }
      ∷ s.activities;
  audits = audit_by user action account.id none ∷ s.audits;
}

-- The Lead that the form names, if it names one.
unfoldable pub source_lead : Option ℕ → Desk → Result DeskError (Option SourceLead)
source_lead none s = ok none
source_lead (some lead_id) s = do
  lead ← or_throw (find lead_key lead_id s.leads) DeskError.lead_not_found
  refuse_if (lead.dnc || lead.suppressed) DeskError.lead_suppressed
  require (is_won lead.lifecycle) DeskError.lead_not_won
  require (is_none (first_where (of_lead lead_id) s.accounts)) DeskError.lead_has_account
  ok (some lead)

abbrev contact_of : Option SourceLead → Option String
contact_of none = none
contact_of (some lead) = lead.ghl_contact_id

abbrev owner_of : Option SourceLead → Option ℕ
owner_of none = none
owner_of (some lead) = lead.owner_agent_id

unfoldable pub new_account : Env → AccountInput → Option SourceLead → Account
new_account env input lead = record (fresh_account env.fresh env.now) {
  lead_id = input.lead_id;
  client_name = input.client_name;
  ghl_location_id = trimmed input.ghl_location_id;
  ghl_contact_id = or_else (contact_of lead) (trimmed input.ghl_contact_id);
  package_code = input.package_code;
  account_owner_agent_id = input.account_owner_agent_id;
  originating_agent_id = or_else (owner_of lead) input.originating_agent_id;
}

-- The unique index on `ghlLocationId`.
abbrev pub at_location : Option String → Account → Bool
at_location none a = false
at_location (some location) a = is_text a.ghl_location_id location

unfoldable pub create_account_checked :
    Env → AccountInput → Desk → Result DeskError (User × Option SourceLead)
unfolding servicing_admin source_lead
create_account_checked env input s = do
  user ← servicing_admin env
  lead ← source_lead input.lead_id s
  require (is_none (find account_key env.fresh s.accounts)) DeskError.id_taken
  refuse_if (any (at_location (trimmed input.ghl_location_id)) s.accounts) DeskError.location_taken
  ok (user, lead)

unfoldable pub create_account_write :
    Env → AccountInput → User × Option SourceLead → Desk → ℕ × Desk
unfolding insert_account new_account
create_account_write env input (user, lead) s = (
  env.fresh,
  insert_account user "CLIENT_ACCOUNT_CREATED" "Client account created in the Mini CRM." none
      (new_account env input lead) s,
)

unfoldable pub create_client_account : Env → AccountInput → Desk → Outcome ℕ
unfolding transact create_account_checked create_account_write
create_client_account env input s =
    transact (create_account_checked env input s) (create_account_write env input) s

-- What the transaction finds: an account of the Lead, or none.
unfoldable pub won_lead_checked :
    Env → ℕ → Desk → Result DeskError (User × SourceLead × Option Account)
unfolding servicing_admin require_feature
won_lead_checked env lead_id s = do
  at_gate (require_feature env.features.leads)
  user ← servicing_admin env
  lead ← or_throw (find lead_key lead_id s.leads) DeskError.lead_not_found
  require (is_won lead.lifecycle) DeskError.lead_not_won
  refuse_if (lead.dnc || lead.suppressed) DeskError.lead_suppressed
  require
      (is_some (first_where (of_lead lead.id) s.accounts)
        || is_none (find account_key env.fresh s.accounts))
      DeskError.id_taken
  ok (user, lead, first_where (of_lead lead.id) s.accounts)

unfoldable pub account_from_lead : Env → String → SourceLead → Account
account_from_lead env package_code lead = record (fresh_account env.fresh env.now) {
  lead_id = some lead.id;
  client_name = lead.company;
  ghl_contact_id = lead.ghl_contact_id;
  package_code = package_code;
  account_owner_agent_id = lead.owner_agent_id;
  originating_agent_id = lead.owner_agent_id;
}

-- The id of the account, and `alreadyCreated`.
unfoldable pub won_lead_write :
    Env → String → User × SourceLead × Option Account → Desk → (ℕ × Bool) × Desk
unfolding insert_account account_from_lead
won_lead_write env package_code (user, lead, some account) s = ((account.id, true), s)
won_lead_write env package_code (user, lead, none) s = (
  (env.fresh, false),
  insert_account user "CLIENT_ACCOUNT_CREATED_FROM_WON_LEAD" "Created from a closed-won Lead."
      lead.owner_agent_id (account_from_lead env package_code lead) s,
)

unfoldable pub create_client_account_from_won_lead : Env → ℕ → String → Desk → Outcome (ℕ × Bool)
unfolding transact won_lead_checked won_lead_write
create_client_account_from_won_lead env lead_id package_code s =
    transact (won_lead_checked env lead_id s) (won_lead_write env package_code) s
