-- ===== src/Workspace/Eligible.antt =====
-- From the Cold workspace to a claim: `logColdLeadDisposition` (src/lib/lead-workspace.ts), then the checks
-- of `claimAvailableLead` (src/lib/claims.ts).
use crm_mcd.Prelude.{
  ℕ, ◌≡◌, refl, Bool, true, false, ◌&&◌, Option, some, String, Date, ok, err, arith,
  find-update_self, find-own_key, find-key, subst, ap, Bool-cases, inl, inr, >>=-eq-ok, or_throw,
  or_throw-eq-ok, refuse_if, ◌>>◌, is_none,
}
use crm_mcd.Lead.{Lead, Crm, Env, User, Agent, Error, Disposition}
use crm_mcd.Lead.Table.{lead_key, find_lead}
use crm_mcd.Lead.Handler.{transact-eq-ok, with_agent-eq-ok}
use crm_mcd.Workspace.Rules.{
  InteractionInput, is_claim_eligible_disposition, is_do_not_contact, is_callback_requested,
  cold_pool_for, cold_lifecycle_for, lifecycle_for, pacific_date_time,
}
use crm_mcd.Workspace.ColdCall.{find_cold_lead, is_cold_lead}
use crm_mcd.Workspace.ColdDisposition.{
  cold_checked, cold_touch, cold_write, log_cold_lead_disposition,
}
use crm_mcd.Claims.{is_claim_eligible, claim_target}

cold_lead-find :
    (i : ℕ) (s : Crm) {m : Lead}
    → find_cold_lead i s ≡ ok m
    → (find_lead i s.leads ≡ some m) × (is_cold_lead m ≡ true)
unfolding find_cold_lead
cold_lead-find i s {m} h =
    let (l, rest, row) =
      >>=-eq-ok (or_throw (find_lead i s.leads) Error.cold_lead_unavailable) _ h in
    let found = or_throw-eq-ok (find_lead i s.leads) Error.cold_lead_unavailable row in
    elim (Bool-cases (is_cold_lead l)) [
      | inl e ↦
          let same : l ≡ m = cc (rw e at rest) in
          subst (λ q. (find_lead i s.leads ≡ some q) × (is_cold_lead q ≡ true)) same (found, e)
      | inr e ↦ absurd (cc (rw e at rest))
    ]

cold_plan :
    (late : Bool) (l m : Lead) (due at : Option Date)
    → ◌>>◌ {B = Lead × Option Date} (refuse_if late Error.callback_time_required) (ok (l, due))
      ≡ ok (m, at)
    → l ≡ m
cold_plan true l m due at h = cc
cold_plan false l m due at h = ap (λ r. elim r [ ok (x, y) ↦ x | err e ↦ l ]) h

cold_checked-find :
    (env : Env) (to_utc : String → Option Date) (input : InteractionInput) (s : Crm) {m : Lead}
    {at : Option Date}
    → cold_checked env to_utc input s ≡ ok (m, at)
    → find_cold_lead input.lead_id s ≡ ok m
unfolding cold_checked
cold_checked-find env to_utc input s {m} {at} h =
    let (l, rest, found) = >>=-eq-ok (find_cold_lead input.lead_id s) _ h in
    let (due, planned, time) =
      >>=-eq-ok (pacific_date_time to_utc env.now input.callback_at_pacific) _ rest in
    let late = is_callback_requested input.disposition && is_none due in
    let same : l ≡ m = cold_plan late l m due at planned in
    subst (λ q. find_cold_lead input.lead_id s ≡ ok q) same found

cold_touch-eligible :
    (now : Date) (d : Disposition) (at : Option Date) (m : Lead)
    → is_claim_eligible_disposition d ≡ true
    → is_cold_lead m ≡ true
    → is_claim_eligible (cold_touch now d at m m) ≡ true
unfolding is_cold_lead is_claim_eligible cold_pool_for cold_lifecycle_for lifecycle_for
cold_touch-eligible now d at m e h = ground arith

claim_target-ok :
    (i : ℕ) (s : Crm) (l : Lead)
    → find_lead i s.leads ≡ some l
    → is_claim_eligible l ≡ true
    → claim_target i s ≡ ok l
unfolding claim_target
claim_target-ok i s l row e = ground arith

cold_write-find :
    (env : Env) (input : InteractionInput) (user : User) (agent : Agent) (m : Lead)
    (at : Option Date) (s : Crm)
    → find_lead input.lead_id s.leads ≡ some m
    → find_lead input.lead_id (cold_write env input user agent (m, at) s).leads
      ≡ some (cold_touch env.now input.disposition at m m)
unfolding cold_write
cold_write-find env input user agent m at s row =
    let this = find-key lead_key input.lead_id s.leads row in
    let read =
      find-update_self lead_key m.id (cold_touch env.now input.disposition at m) s.leads (λ y. refl)
        (find-own_key lead_key input.lead_id s.leads m row) in
    subst
      (λ k.
        find_lead k (cold_write env input user agent (m, at) s).leads
        ≡ some (cold_touch env.now input.disposition at m m))
      this read

-- Once a cold call was logged with a disposition that makes a Lead claimable (callback requested,
-- qualified, demo booked or follow-up), the checks of a claim find that Lead eligible.
pub cold_disposition_opens_claim :
    (env : Env) (to_utc : String → Option Date) (input : InteractionInput) (s s' : Crm)
    → is_claim_eligible_disposition input.disposition ≡ true
    → log_cold_lead_disposition env to_utc input s ≡ (ok tt, s')
    → (l : Lead) × (claim_target input.lead_id s' ≡ ok l)
unfolding log_cold_lead_disposition
cold_disposition_opens_claim env to_utc input s s' e h =
    elim (Bool-cases (is_do_not_contact input.disposition)) [
      | inl t ↦ absurd (ground arith)
      | inr t ↦
          let (user, agent, u, seat, body) = with_agent-eq-ok _ _ s s' (rw t at h) in
          let (plan, checked, wrote) = transact-eq-ok _ _ u s' body in
          let (row, cold) =
            cold_lead-find input.lead_id u
              (cold_checked-find env to_utc input u {m = plan.0} {at = plan.1} checked) in
          let read = cold_write-find env input user agent plan.0 plan.1 u row in
          let touched = cold_touch env.now input.disposition plan.1 plan.0 plan.0 in
          (
            touched,
            claim_target-ok input.lead_id s' touched
                (subst (λ q. find_lead input.lead_id q.leads ≡ some touched) wrote read)
                (cold_touch-eligible env.now input.disposition plan.1 plan.0 e cold),
          )
    ]
