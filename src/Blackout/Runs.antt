-- ===== src/Blackout/Runs.antt =====
-- The requests to the operations of src/lib on Leads, one after the other, and what a run of them leaves
-- of a blocked Lead. Requests are served whole here. The routes under src/app that write Leads themselves,
-- without these operations, are not among them: api/portal/actions and api/portal/release, which but for a
-- call do not look at the DNC flag, and the pages admin/leads and admin/leads/controlled-test-data.
use crm_mcd.Prelude.{
  ℕ, ◌≡◌, refl, Bool, true, false, Option, none, some, List, [], ◌∷◌, arith, any, String, Date, ok,
  UniqueKeys, update-UniqueKeys, find-update_self, find-own_key, find-key, any-update_where_self,
  subst,
}
use crm_mcd.Lead.{Lifecycle, Lead, Crm, Env, User, Agent}
use crm_mcd.Lead.Table.{lead_key, find_lead, scheduled_on, cancel}
use crm_mcd.Lead.Handler.{transact-eq-ok, with_agent-eq-ok}
use crm_mcd.Session.{active_agent_writes}
use crm_mcd.Workspace.Rules.{InteractionInput}
use crm_mcd.Workspace.ColdCall.{log_cold_lead_call_initiated}
use crm_mcd.Workspace.ColdDisposition.{log_cold_lead_disposition}
use crm_mcd.Workspace.Interaction.{log_lead_interaction}
use crm_mcd.Workspace.Dnc.{dnc_checked, dnc_touch, dnc_write, suppress_lead_for_dnc}
use crm_mcd.Claims.{claim_available_lead}
use crm_mcd.OpenPool.{release_lead_to_open_pool}
use crm_mcd.Aging.Sweep.{SweepOptions, run_lead_aging_sweep}
use crm_mcd.Ghl.Appointment.{AppointmentInput, attribute_appointment_to_lead}
use crm_mcd.Ghl.Opportunity.{OpportunityInput, attribute_opportunity_to_lead}
use crm_mcd.Ghl.Reply.{ReplyInput, attribute_inbound_reply_to_lead}
use crm_mcd.Ghl.OptOut.{OptOutInput, relay_ghl_opt_out}
use crm_mcd.Blackout.Rules.{IsBlackout}
use crm_mcd.Blackout.Portal.{
  log_cold_lead_disposition-IsBlackout, log_lead_interaction-IsBlackout,
  log_cold_lead_call_initiated-IsBlackout, suppress_lead_for_dnc-IsBlackout,
}
use crm_mcd.Blackout.Pools.{
  release_lead_to_open_pool-IsBlackout, claim_available_lead-IsBlackout,
  run_lead_aging_sweep-IsBlackout,
}
use crm_mcd.Blackout.Relays.{
  attribute_appointment_to_lead-IsBlackout, attribute_opportunity_to_lead-IsBlackout,
  attribute_inbound_reply_to_lead-IsBlackout, relay_ghl_opt_out-IsBlackout,
}

-- The platform's functions that the handlers call.
pub record Platform : Type 0 where
  pub to_utc : String → Option Date
  pub to_lower : String → String
  pub same_email : String → String → Bool
  pub id_text : ℕ → String
  pub claim_setting : Option ℕ

-- The operations of src/lib that write Leads: lead-workspace, claims, open-pool-release, lead-aging-jobs and
-- the relays.
pub data Request : Type 0 where
  call_initiated : ℕ → Request
  cold_disposition interaction : InteractionInput → Request
  dnc : ℕ → Option String → Request
  claim : User → ℕ → Request
  release : ℕ → String → Request
  aging_sweep : SweepOptions → Request
  appointment : AppointmentInput → Request
  opportunity : OpportunityInput → Request
  reply : ReplyInput → Request
  opt_out : OptOutInput → Request

unfoldable pub serve : Platform → Env → Request → Crm → Crm
serve p env (Request.call_initiated i) s = (log_cold_lead_call_initiated env i s).1
serve p env (Request.cold_disposition x) s = (log_cold_lead_disposition env p.to_utc x s).1
serve p env (Request.interaction x) s = (log_lead_interaction env p.to_utc x s).1
serve p env (Request.dnc i reason) s = (suppress_lead_for_dnc env i reason s).1
serve p env (Request.claim user i) s = (claim_available_lead env p.claim_setting user i s).1
serve p env (Request.release i reason) s = (release_lead_to_open_pool env i reason s).1
serve p env (Request.aging_sweep options) s = (run_lead_aging_sweep env options s).1
serve p env (Request.appointment x) s = (attribute_appointment_to_lead env x s).1
serve p env (Request.opportunity x) s = (attribute_opportunity_to_lead env x s).1
serve p env (Request.reply x) s =
    (attribute_inbound_reply_to_lead p.to_lower p.same_email env x s).1
serve p env (Request.opt_out x) s = (relay_ghl_opt_out p.to_lower p.id_text env x s).1

unfoldable pub serve_all : Platform → List (Env × Request) → Crm → Crm
serve_all p [] s = s
serve_all p ((env, r) ∷ rs) s = serve_all p rs (serve p env r s)

serve-IsBlackout :
    (p : Platform) (env : Env) (r : Request) (i : ℕ) (l : Lead) (s : Crm)
    → IsBlackout i l s
    → IsBlackout i l (serve p env r s)
unfolding serve
serve-IsBlackout p env (Request.call_initiated j) i l s b =
    log_cold_lead_call_initiated-IsBlackout env i l j s b
serve-IsBlackout p env (Request.cold_disposition x) i l s b =
    log_cold_lead_disposition-IsBlackout env p.to_utc x i l s b
serve-IsBlackout p env (Request.interaction x) i l s b =
    log_lead_interaction-IsBlackout env p.to_utc x i l s b
serve-IsBlackout p env (Request.dnc j reason) i l s b =
    suppress_lead_for_dnc-IsBlackout env i l j reason s b
serve-IsBlackout p env (Request.claim user j) i l s b =
    claim_available_lead-IsBlackout env i l p.claim_setting user j s b
serve-IsBlackout p env (Request.release j reason) i l s b =
    release_lead_to_open_pool-IsBlackout env i l j reason s b
serve-IsBlackout p env (Request.aging_sweep options) i l s b =
    run_lead_aging_sweep-IsBlackout env options i l s b
serve-IsBlackout p env (Request.appointment x) i l s b =
    attribute_appointment_to_lead-IsBlackout env i l x s b
serve-IsBlackout p env (Request.opportunity x) i l s b =
    attribute_opportunity_to_lead-IsBlackout env i l x s b
serve-IsBlackout p env (Request.reply x) i l s b =
    attribute_inbound_reply_to_lead-IsBlackout env i l p.to_lower p.same_email x s b
serve-IsBlackout p env (Request.opt_out x) i l s b =
    relay_ghl_opt_out-IsBlackout env i l p.to_lower p.id_text x s b

-- A Lead that is blocked (both flags set, no callback scheduled on it, ids unique) keeps every one of
-- its columns, and gets no scheduled callback, through any sequence of these requests.
pub serve_all-IsBlackout :
    (p : Platform) (rs : List (Env × Request)) (i : ℕ) (l : Lead) (s : Crm)
    → IsBlackout i l s
    → IsBlackout i l (serve_all p rs s)
unfolding serve_all
serve_all-IsBlackout p [] i l s b = b
serve_all-IsBlackout p ((env, r) ∷ rs) i l s b =
    serve_all-IsBlackout p rs i l (serve p env r s) (serve-IsBlackout p env r i l s b)

-- What the transaction of a DNC request leaves: the Lead with the DNC data, blocked.
dnc_write-blocks :
    (env : Env) (reason : Option String) (user : User) (agent : Agent) (m : Lead) (s : Crm)
    → UniqueKeys lead_key s.leads
    → find_lead m.id s.leads ≡ some m
    → IsBlackout m.id (dnc_touch env.now m) (dnc_write env reason user agent m s)
unfolding dnc_write
dnc_write-blocks env reason user agent m s u row = record {
  blocked = refl;
  stopped = refl;
  found = find-update_self lead_key m.id (dnc_touch env.now) s.leads (λ x. refl) row;
  unique = update-UniqueKeys lead_key m.id (dnc_touch env.now) s.leads (λ x. refl) u;
  unscheduled = any-update_where_self (scheduled_on m.id) cancel s.callbacks (λ c e. ground arith);
}

dnc_checked-row :
    (j : ℕ) (agent : Agent) (s : Crm) {m : Lead}
    → dnc_checked j agent s ≡ ok m
    → find_lead j s.leads ≡ some m
unfolding dnc_checked
dnc_checked-row j agent s h = ground arith

-- The database after a DNC request that was served.
suppress_lead_for_dnc-blocks :
    (env : Env) (i : ℕ) (reason : Option String) (s s' : Crm)
    → UniqueKeys lead_key s.leads
    → suppress_lead_for_dnc env i reason s ≡ (ok tt, s')
    → (l : Lead) × (find_lead i s.leads ≡ some l) × IsBlackout i (dnc_touch env.now l) s'
unfolding suppress_lead_for_dnc
suppress_lead_for_dnc-blocks env i reason s s' u h =
    let (user, agent, t, seat, body) = with_agent-eq-ok _ _ s s' h in
    let writes = active_agent_writes env (some i) s seat in
    let (m, checked, wrote) = transact-eq-ok _ (dnc_write env reason user agent) t s' body in
    let row = dnc_checked-row i agent t checked in
    let this : m.id ≡ i = find-key lead_key i t.leads row in
    let blocks =
      dnc_write-blocks env reason user agent m t (rw writes.0 u)
        (find-own_key lead_key i t.leads m row) in
    (
      m,
      rw (← writes.0) row,
      subst (λ k. IsBlackout k (dnc_touch env.now m) s') this
          (subst (λ x. IsBlackout m.id (dnc_touch env.now m) x) wrote blocks),
    )

-- What a DNC request makes of a Lead.
pub record IsStopped (l m : Lead) : Type 0 where
  pub same_lead : m.id ≡ l.id
  pub blocked : (m.dnc ≡ true) × (m.suppressed ≡ true)
  pub state : m.lifecycle ≡ Lifecycle.suppressed
  pub idle : m.next_action_at ≡ none
  pub held_back : m.open_pool_release_at ≡ none
  pub owner : m.owner_agent_id ≡ l.owner_agent_id

-- Once a DNC request on a Lead has been served, the Lead is marked DNC and suppressed, in lifecycle
-- SUPPRESSED, with no next action and no date of release, keeps its owner, and has no scheduled callback,
-- after any further requests, by anyone, to the operations of src/lib that write Leads: calls,
-- dispositions, interactions, DNC, claims, releases to the Open Pool, aging sweeps and the relays of the
-- marketing platform. Lead ids must be unique at the start.
pub dnc_is_final :
    (p : Platform) (env : Env) (i : ℕ) (reason : Option String) (rs : List (Env × Request))
    (s s' : Crm)
    → UniqueKeys lead_key s.leads
    → suppress_lead_for_dnc env i reason s ≡ (ok tt, s')
    → (l : Lead) × (find_lead i s.leads ≡ some l)
      × (m : Lead) × (find_lead i (serve_all p rs s').leads ≡ some m)
      × IsStopped l m
      × (any (scheduled_on i) (serve_all p rs s').callbacks ≡ false)
dnc_is_final p env i reason rs s s' u h =
    let (l, row, blocks) = suppress_lead_for_dnc-blocks env i reason s s' u h in
    let b = serve_all-IsBlackout p rs i (dnc_touch env.now l) s' blocks in
    (
      l,
      row,
      dnc_touch env.now l,
      b.found,
      record {
        same_lead = refl;
        blocked = (refl, refl);
        state = refl;
        idle = refl;
        held_back = refl;
        owner = refl;
      },
      b.unscheduled,
    )
