-- ===== src/Tests/Servicing.antt =====
-- The theorems on client servicing at a concrete desk.
use crm_mcd.Prelude.{
  ℕ, ◌≡◌, refl, arith, true, false, Bool, none, some, List, [], ◌∷◌, String, ok, err, UniqueKeys,
  find, count_where, ◌+◌, insertion_sort,
}
use crm_mcd.Lead.{Lifecycle, Env}
use crm_mcd.Servicing.{
  Desk, DeskError, Account, ServiceCase, ClientStatus, Trigger, Priority, CaseStatus, account_key,
  case_key,
}
use crm_mcd.Servicing.Actors.{ServicingActor, servicing_actor}
use crm_mcd.Servicing.Accounts.{fresh_account}
use crm_mcd.Servicing.Launch.{PaymentState}
use crm_mcd.Servicing.Cases.{
  CaseInput, CaseTrigger, open_client_service_case, record_service_response,
  resolve_client_service_case,
}
use crm_mcd.Servicing.Standing.{HouseReason, transfer_client_service_to_house}
use crm_mcd.Servicing.Sweep.{CadenceOptions, CadenceReport, run_service_cadence_sweep}
use crm_mcd.Servicing.Keys.{HasKeys}
use crm_mcd.Servicing.Runs.{Demand, serve, serve_all}
use crm_mcd.Servicing.Payments.{Agrees, PaymentsAgree, serve_all-PaymentsAgree}
use crm_mcd.Servicing.Closed.{closed_case_stays}
use crm_mcd.Servicing.OneAccount.{OnePerLead, serve_all-OnePerLead}
use crm_mcd.Servicing.Checkins.{OneCheckIn, serve_all-OneCheckIn}
use crm_mcd.Servicing.Bounds.{IsBounded, sweep-IsBounded}
use crm_mcd.Servicing.House.{IsHoused, transfer-IsHoused, house_shuts_agents_out}
use crm_mcd.Servicing.Access.{agent_leaves_others}
use crm_mcd.Servicing.Gate.{gate_off_writes_nothing}
use crm_mcd.Tests.Data.{manager, closer, seat, by_closer}

abbrev shop : Account
shop = record (fresh_account 40 1) {
  lead_id = some 3;
  client_name = "Corner Shop";
  package_code = "PRO";
  account_owner_agent_id = some 70;
  status = ClientStatus.active;
}

abbrev bakery : Account
bakery = record (fresh_account 41 1) {
  client_name = "Bakery";
  package_code = "STARTER";
  account_owner_agent_id = some 71;
}

abbrev settled : ServiceCase
settled = record {
  id = 60;
  client_account_id = 40;
  assigned_agent_id = some 70;
  trigger = Trigger.support_issue;
  priority = Priority.normal;
  status = CaseStatus.resolved;
  summary = "Site was down.";
  opened_at = 10;
  due_at = none;
  resolved_at = some 20;
  resolution_note = some "Restarted.";
  updated_at = 20;
}

abbrev waiting : ServiceCase
waiting = record settled {
  id = 61;
  status = CaseStatus.opened;
  resolved_at = none;
  resolution_note = none;
}

abbrev desk : Desk
desk = record {
  leads =
      record {
        id = 5;
        company = "Florist";
        lifecycle = Lifecycle.closed_won;
        dnc = false;
        suppressed = false;
        owner_agent_id = some 70;
        ghl_contact_id = none;
      }
      ∷ [];
  agents = seat ∷ [];
  accounts = shop ∷ bakery ∷ [];
  cases = settled ∷ waiting ∷ [];
  activities = [];
  assignments = [];
  audits = [];
}

abbrev by_manager : Env
by_manager = record by_closer { session = some manager; now = 3000000000 }

abbrev off_hours : Env
off_hours = record by_manager {
  features = record { leads = true; commissions = true; servicing = false; finance = true };
}

abbrev complaint : CaseInput
complaint = record {
  client_account_id = 40;
  trigger = CaseTrigger.payment_problem;
  priority = none;
  summary = "Card declined.";
  due_at = none;
  assigned_agent_id = none;
}

abbrev all_sweep : CadenceOptions
all_sweep = record { now = none; limit = none; dry_run = false }

abbrev by_name : String → String → Bool
by_name a b = false

abbrev ids_from_700 : ℕ → ℕ
ids_from_700 n = 700 + n

abbrev day : List (Env × Demand)
day =
    (by_manager, Demand.create_from_lead 5 "GROWTH")
    ∷ (by_manager, Demand.check_in by_name ids_from_700 all_sweep)
    ∷ (record by_manager { fresh = 901 }, Demand.open_case complaint)
    ∷ (by_closer, Demand.respond 40 (some 61) "Called back.")
    ∷ (by_closer, Demand.resolve 40 61 "Paid.")
    ∷ (by_manager, Demand.confirm_launch 41 PaymentState.payment_issue "Card missing.")
    ∷ (by_manager, Demand.payment_resolved 40 "Paid by card.")
    ∷ []

desk-HasKeys : HasKeys desk
unfolding HasKeys UniqueKeys find
desk-HasKeys = ((refl, (refl, tt)), (refl, (refl, tt)))

desk-PaymentsAgree : PaymentsAgree desk
unfolding PaymentsAgree Agrees
desk-PaymentsAgree = ((refl, refl), ((refl, refl), tt))

serve_all-PaymentsAgree_example : HasKeys (serve_all day desk) × PaymentsAgree (serve_all day desk)
serve_all-PaymentsAgree_example = serve_all-PaymentsAgree day desk desk-HasKeys desk-PaymentsAgree

settled_found : find case_key 60 desk.cases ≡ some settled
unfolding find
settled_found = refl

closed_case_stays_example : find case_key 60 (serve_all day desk).cases ≡ some settled
closed_case_stays_example = closed_case_stays 60 settled day desk refl settled_found

desk-OnePerLead : OnePerLead desk
unfolding OnePerLead count_where
desk-OnePerLead i = ground arith

serve_all-OnePerLead_example : OnePerLead (serve_all day desk)
serve_all-OnePerLead_example = serve_all-OnePerLead day desk desk-OnePerLead

desk-OneCheckIn : OneCheckIn desk
unfolding OneCheckIn count_where
desk-OneCheckIn i = ground arith

serve_all-OneCheckIn_example : OneCheckIn (serve_all day desk)
serve_all-OneCheckIn_example = serve_all-OneCheckIn day desk desk-HasKeys desk-OneCheckIn

-- `?limit=1.5`.
abbrev one_and_a_half : CadenceOptions
one_and_a_half = record {
  now = none;
  limit = some (record { whole = 1; fraction = 2251799813685248 });
  dry_run = false;
}

abbrev swept : CadenceReport
swept = record {
  scanned = 1;
  skipped_open_case = 0;
  skipped_unknown_package = 0;
  not_due = 0;
  limit = record { whole = 1; fraction = 2251799813685248 };
  dry_run = false;
  opened = 1;
  would_open = 0;
}

desk-swept :
    (run_service_cadence_sweep by_name ids_from_700 by_manager one_and_a_half desk).0 ≡ ok swept
unfolding run_service_cadence_sweep insertion_sort count_where find
desk-swept = refl

sweep-IsBounded_example :
    IsBounded one_and_a_half desk swept
      (run_service_cadence_sweep by_name ids_from_700 by_manager one_and_a_half desk).1
sweep-IsBounded_example =
    sweep-IsBounded by_name ids_from_700 by_manager one_and_a_half desk desk-swept

desk_transferred :
    (transfer_client_service_to_house by_manager 40 HouseReason.terminated "Left." desk).0 ≡ ok tt
unfolding transfer_client_service_to_house find
desk_transferred = refl

abbrev housed : Desk
housed = (transfer_client_service_to_house by_manager 40 HouseReason.terminated "Left." desk).1

transfer-IsHoused_example : IsHoused 40 housed
transfer-IsHoused_example =
    transfer-IsHoused by_manager 40 HouseReason.terminated "Left." desk desk_transferred

abbrev closer_acts : ServicingActor
closer_acts = record { user = closer; is_admin = false; agent = some seat }

housed-IsHoused : IsHoused 40 housed
housed-IsHoused =
    transfer-IsHoused by_manager 40 HouseReason.terminated "Left." desk desk_transferred

closer_signs_in : servicing_actor by_closer housed ≡ ok closer_acts
unfolding servicing_actor transfer_client_service_to_house find
closer_signs_in = refl

house_shuts_agents_out_example :
    (open_client_service_case by_closer complaint housed
      ≡ (err DeskError.account_not_yours, housed))
    × (record_service_response by_closer 40 none "Called." housed
        ≡ (err DeskError.account_not_yours, housed))
    × (resolve_client_service_case by_closer 40 61 "Called." housed
        ≡ (err DeskError.account_not_yours, housed))
house_shuts_agents_out_example =
    house_shuts_agents_out by_closer 40 housed closer_acts complaint 61 none "Called."
      housed-IsHoused closer_signs_in refl refl

closer_at_desk : servicing_actor by_closer desk ≡ ok closer_acts
unfolding servicing_actor find
closer_at_desk = refl

bakery_found : find account_key 41 desk.accounts ≡ some bakery
unfolding find
bakery_found = refl

agent_leaves_others_example :
    find account_key 41 (serve by_closer (Demand.open_case complaint) desk).accounts ≡ some bakery
agent_leaves_others_example =
    agent_leaves_others by_closer desk closer_acts closer_at_desk refl 41 bakery bakery_found refl
      (Demand.open_case complaint)

gate_off_writes_nothing_example : serve off_hours (Demand.payment_resolved 40 "Paid.") desk ≡ desk
gate_off_writes_nothing_example =
    gate_off_writes_nothing off_hours refl (Demand.payment_resolved 40 "Paid.") desk
