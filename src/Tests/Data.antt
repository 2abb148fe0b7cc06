-- ===== src/Tests/Data.antt =====
-- A certified agent, an administrator, and Leads in the states that the handlers tell apart.
use crm_mcd.Prelude.{ℕ, true, false, Option, none, some, [], ◌∷◌, Date}
use crm_mcd.Lead.{Role, UserStatus, Lifecycle, Pool, User, Agent, Lead, CallbackStatus, Crm, Env}

abbrev pub closer : User
closer = record {
  id = 7;
  role = Role.agent;
  status = UserStatus.active;
  email = "closer@example.com";
}

abbrev pub manager : User
manager = record {
  id = 1;
  role = Role.finance_manager;
  status = UserStatus.active;
  email = "fm@example.com";
}

abbrev pub seat : Agent
seat = record {
  id = 70;
  user_id = 7;
  personal_email = "closer@example.com";
  can_claim_leads = true;
}

abbrev pub rival_seat : Agent
rival_seat = record {
  id = 71;
  user_id = 8;
  personal_email = "rival@example.com";
  can_claim_leads = true;
}

abbrev pub lead_in : ℕ → Lifecycle → Pool → Option Date → Lead
lead_in i lifecycle pool two_way = record {
  id = i;
  email = some "owner@shop.example";
  business_phone = "(555) 010-0100";
  normalized_phone = some "5550100100";
  source = none;
  source_reference = none;
  campaign_name = none;
  campaign_external_id = none;
  source_detail = none;
  dedupe_key = none;
  lifecycle = lifecycle;
  pool = pool;
  owner_agent_id = none;
  claimed_at = none;
  two_way_contact_at = two_way;
  last_action_at = none;
  next_action_at = none;
  open_pool_release_at = none;
  is_referral = false;
  suppressed = false;
  dnc = false;
  ghl_contact_id = none;
  ghl_opportunity_id = none;
  ghl_appointment_id = none;
  created_at = 1;
  updated_at = 1;
}

abbrev pub warm_lead : Lead
warm_lead = lead_in 3 Lifecycle.contacted Pool.hot (some 5)

abbrev pub cold_lead : Lead
cold_lead = lead_in 4 Lifecycle.available Pool.cold none

abbrev pub office : Crm
office = record {
  leads = warm_lead ∷ cold_lead ∷ [];
  callbacks =
      record {
        id = 1;
        lead_id = 4;
        agent_id = some 70;
        due_at = 90;
        status = CallbackStatus.scheduled;
        completed_at = none;
      }
      ∷ [];
  suppressions = [];
  notes = [];
  activities = [];
  claim_events = [];
  audits = [];
  agents = seat ∷ rival_seat ∷ [];
}

abbrev pub by_closer : Env
by_closer = record {
  features = record { leads = true; commissions = true; servicing = true; finance = true };
  session = some closer;
  now = 100;
  fresh = 900;
}
