-- ===== src/Tests/Leads.antt =====
-- The theorems on Leads at concrete requests.
use crm_mcd.Prelude.{
  is_some, ◌||◌, false, ◌≡◌, refl, ◌<◌, true, false, none, some, List, [], ◌∷◌, any, ok, err,
  UniqueKeys, find, count_where,
}
use crm_mcd.Lead.{Disposition, Lifecycle, Lead, Crm, Env, Error}
use crm_mcd.Lead.Table.{lead_key, find_lead, scheduled_on}
use crm_mcd.Lead.Handler.{with_agent, transact}
use crm_mcd.Session.{active_agent}
use crm_mcd.Workspace.Dnc.{dnc_checked, suppress_lead_for_dnc}
use crm_mcd.Claims.{
  claim_target, claim_checked, claim_write, claim_available_lead, is_claim_eligible, is_active_with,
  claim_capacity,
}
use crm_mcd.Claims.Exclusive.{IsHeld, claim_is_exclusive, claim_succeeds}
use crm_mcd.Workspace.Rules.{InteractionInput}
use crm_mcd.Workspace.ColdDisposition.{cold_checked, log_cold_lead_disposition}
use crm_mcd.Workspace.Eligible.{cold_disposition_opens_claim}
use crm_mcd.OpenPool.{is_demo_booked, is_referral_pool, release_checked, release_lead_to_open_pool}
use crm_mcd.OpenPool.Guard.{IsPooled, release_is_guarded}
use crm_mcd.Blackout.Runs.{IsStopped, Platform, Request, serve_all, dnc_is_final}
use crm_mcd.Tests.Data.{manager, closer, seat, rival_seat, warm_lead, office, by_closer}

office-UniqueKeys : UniqueKeys lead_key office.leads
unfolding UniqueKeys find
office-UniqueKeys = (refl, (refl, tt))

warm_lead-claim_checked : claim_checked by_closer none closer 3 office ≡ ok (seat, warm_lead)
unfolding claim_checked find count_where
warm_lead-claim_checked = refl

claim_succeeds_example :
    (seat.can_claim_leads ≡ true)
    × (count_where (is_active_with seat.id) office.leads < claim_capacity none)
    × (is_claim_eligible warm_lead ≡ true)
    × ((claim_available_lead by_closer none closer 3 office).0 ≡ ok tt)
    × (l : Lead) × (find_lead 3 (claim_available_lead by_closer none closer 3 office).1.leads
        ≡ some l)
    × IsHeld by_closer.now seat l
claim_succeeds_example =
    claim_succeeds by_closer none closer 3 office seat warm_lead office-UniqueKeys
      warm_lead-claim_checked

abbrev claimed_office : Crm
claimed_office = (claim_write by_closer closer (seat, warm_lead) office).1

warm_lead-claim_write :
    claim_write by_closer closer (seat, warm_lead) office ≡ (ok tt, claimed_office)
unfolding claim_write count_where
warm_lead-claim_write = refl

claim_is_exclusive_example :
    (claim_write by_closer closer (rival_seat, warm_lead) claimed_office).0 ≡ err Error.claim_lost
claim_is_exclusive_example =
    claim_is_exclusive by_closer by_closer closer closer seat rival_seat warm_lead warm_lead office
      claimed_office office-UniqueKeys refl warm_lead-claim_write

abbrev platform : Platform
platform = record {
  to_utc = λ t. none;
  to_lower = λ t. t;
  same_email = λ a b. false;
  id_text = λ n. "lead";
  claim_setting = none;
}

abbrev quiet_office : Crm
quiet_office = (suppress_lead_for_dnc by_closer 4 none office).1

cold_lead-suppress : suppress_lead_for_dnc by_closer 4 none office ≡ (ok tt, quiet_office)
unfolding suppress_lead_for_dnc with_agent active_agent find transact dnc_checked
cold_lead-suppress = refl

abbrev later_requests : List (Env × Request)
later_requests =
    (by_closer, Request.claim closer 4)
    ∷ (by_closer, Request.release 4 "stale")
    ∷ (by_closer, Request.call_initiated 4)
    ∷ []

dnc_is_final_example :
    (l : Lead) × (find_lead 4 office.leads ≡ some l)
    × (m : Lead) × (find_lead 4 (serve_all platform later_requests quiet_office).leads ≡ some m)
    × IsStopped l m
    × (any (scheduled_on 4) (serve_all platform later_requests quiet_office).callbacks ≡ false)
dnc_is_final_example =
    dnc_is_final platform by_closer 4 none later_requests office quiet_office office-UniqueKeys
      cold_lead-suppress

abbrev qualified : InteractionInput
qualified = record {
  lead_id = 4;
  disposition = Disposition.qualified;
  note = none;
  callback_at_pacific = none;
}

abbrev warmed_office : Crm
warmed_office = (log_cold_lead_disposition by_closer (λ t. none) qualified office).1

cold_lead-disposition :
    log_cold_lead_disposition by_closer (λ t. none) qualified office ≡ (ok tt, warmed_office)
unfolding log_cold_lead_disposition with_agent active_agent find transact cold_checked
cold_lead-disposition = refl

cold_disposition_opens_claim_example : (l : Lead) × (claim_target 4 warmed_office ≡ ok l)
cold_disposition_opens_claim_example =
    cold_disposition_opens_claim by_closer (λ t. none) qualified office warmed_office refl
      cold_lead-disposition

abbrev by_manager : Env
by_manager = record {
  features = by_closer.features;
  session = some manager;
  now = 200;
  fresh = 901;
}

-- The claimed Lead has been spoken to since.
abbrev worked_office : Crm
worked_office = record office {
  leads = record warm_lead { owner_agent_id = some 70; lifecycle = Lifecycle.contacted } ∷ [];
}

abbrev released_office : Crm
released_office = (release_lead_to_open_pool by_manager 3 "stale" worked_office).1

worked_lead-release :
    release_lead_to_open_pool by_manager 3 "stale" worked_office ≡ (ok tt, released_office)
unfolding release_lead_to_open_pool find transact release_checked
worked_lead-release = refl

release_is_guarded_example :
    (l : Lead) × (find_lead 3 worked_office.leads ≡ some l)
    × ((l.dnc || l.suppressed) ≡ false)
    × ((l.is_referral || is_referral_pool l.pool) ≡ false)
    × (is_demo_booked l.lifecycle ≡ false)
    × (is_some l.owner_agent_id ≡ true)
    × (is_some l.two_way_contact_at ≡ true)
    × (l' : Lead) × (find_lead 3 released_office.leads ≡ some l')
    × IsPooled by_manager.now l'
release_is_guarded_example =
    release_is_guarded by_manager 3 "stale" worked_office released_office worked_lead-release
