-- ===== src/Claims/Exclusive.antt =====
-- A Lead is claimed once, however the checks of two claims interleave with their writes
-- (src/lib/claims.ts).
use crm_mcd.Prelude.{
  ℕ, ◌≡◌, refl, true, false, Option, some, arith, ◌==◌, ok, err, count_where, count_where-after,
  update_where, UniqueKeys, Bool-cases, inl, inr, ==_refl, find-own_key, find-update_where_self,
  Date, find-key, ◌+◌, ◌*◌, ◌<◌, ◌∙◌, ap, sym, count_where-one,
}
use crm_mcd.Lead.{Lifecycle, Lead, Crm, Env, User, Agent, Error}
use crm_mcd.Lead.Table.{lead_key, find_lead}
use crm_mcd.Claims.{
  still_claimable, lifecycle_code, pool_code, claim_agent, claim_target, claim_touch, claim_checked,
  claim_write, claim_available_lead, claim_capacity, is_active_with, is_claim_eligible,
}

still_claimable-id : (lead m : Lead) → still_claimable lead m ≡ true → m.id ≡ lead.id
unfolding still_claimable
still_claimable-id lead m h = ground arith

still_claimable-claimed :
    (now : Date) (agent : Agent) (lead m : Lead)
    → still_claimable lead (claim_touch now agent m) ≡ false
unfolding still_claimable
still_claimable-claimed now agent lead m = ground arith

-- How a write ends, by the number of rows that still stand as they were read.
claim_write-eq-ok :
    (env : Env) (actor : User) (agent : Agent) (lead : Lead) (s s' : Crm)
    → claim_write env actor (agent, lead) s ≡ (ok tt, s')
    → (count_where (still_claimable lead) s.leads ≡ 1)
      × (s'.leads ≡ update_where (still_claimable lead) (claim_touch env.now agent) s.leads)
unfolding claim_write
claim_write-eq-ok env actor agent lead s s' h = ground arith

claim_write_lost :
    (env : Env) (actor : User) (agent : Agent) (lead : Lead) (s : Crm)
    → count_where (still_claimable lead) s.leads ≡ 0
    → (claim_write env actor (agent, lead) s).0 ≡ err Error.claim_lost
unfolding claim_write
claim_write_lost env actor agent lead s h = ground arith

claim_write_won :
    (env : Env) (actor : User) (agent : Agent) (lead : Lead) (s : Crm)
    → count_where (still_claimable lead) s.leads ≡ 1
    → (claim_write env actor (agent, lead) s).0 ≡ ok tt
unfolding claim_write
claim_write_won env actor agent lead s h = ground arith

-- Of two claims that both passed their checks on one Lead, in any earlier states of the database, the
-- second to write is refused: after a claim was written no claim on that Lead, by any agent and from
-- any reading of it, goes through. Lead ids must be unique.
pub claim_is_exclusive :
    (env env' : Env) (actor actor' : User) (agent agent' : Agent) (lead lead' : Lead) (s s' : Crm)
    → UniqueKeys lead_key s.leads
    → lead'.id ≡ lead.id
    → claim_write env actor (agent, lead) s ≡ (ok tt, s')
    → (claim_write env' actor' (agent', lead') s').0 ≡ err Error.claim_lost
claim_is_exclusive env env' actor actor' agent agent' lead lead' s s' u same h =
    let (one, rows) = claim_write-eq-ok env actor agent lead s s' h in
    claim_write_lost env' actor' agent' lead' s' (
      rw rows (
        count_where-after lead_key lead.id (still_claimable lead) (still_claimable lead')
          (claim_touch env.now agent) s.leads (still_claimable-id lead)
          (λ m e. still_claimable-id lead' m e ∙ same) (λ m. refl)
          (still_claimable-claimed env.now agent lead') u one))

claim_agent-eq-ok :
    (env : Env) (setting : Option ℕ) (actor : User) (i : ℕ) (s : Crm) {agent : Agent}
    → claim_agent env setting actor i s ≡ ok agent
    → (agent.can_claim_leads ≡ true)
      × (count_where (is_active_with agent.id) s.leads < claim_capacity setting)
unfolding claim_agent
claim_agent-eq-ok env setting actor i s h = ground arith

claim_target-eq-ok :
    (i : ℕ) (s : Crm) {lead : Lead}
    → claim_target i s ≡ ok lead
    → (find_lead i s.leads ≡ some lead) × (is_claim_eligible lead ≡ true)
unfolding claim_target
claim_target-eq-ok i s h = ground arith

claim_checked-eq-ok :
    (env : Env) (setting : Option ℕ) (actor : User) (i : ℕ) (s : Crm) {agent : Agent} {lead : Lead}
    → claim_checked env setting actor i s ≡ ok (agent, lead)
    → (claim_agent env setting actor i s ≡ ok agent) × (claim_target i s ≡ ok lead)
unfolding claim_checked
claim_checked-eq-ok env setting actor i s h = ground arith

still_claimable_self : (m : Lead) → is_claim_eligible m ≡ true → still_claimable m m ≡ true
unfolding still_claimable is_claim_eligible
still_claimable_self m h =
    ground (arith, ==_refl (lifecycle_code m.lifecycle), ==_refl (pool_code m.pool))

claim_available_lead_runs :
    (env : Env) (setting : Option ℕ) (actor : User) (i : ℕ) (s : Crm) {found : Agent × Lead}
    → claim_checked env setting actor i s ≡ ok found
    → claim_available_lead env setting actor i s ≡ claim_write env actor found s
unfolding claim_available_lead
claim_available_lead_runs env setting actor i s h = rw (h, claim_available_lead) refl

claim_write-find :
    (env : Env) (actor : User) (agent : Agent) (lead : Lead) (s : Crm)
    → find_lead lead.id s.leads ≡ some lead
    → still_claimable lead lead ≡ true
    → find_lead lead.id (claim_write env actor (agent, lead) s).1.leads
      ≡ some (claim_touch env.now agent lead)
unfolding claim_write
claim_write-find env actor agent lead s row open_row =
    let read =
      find-update_where_self lead_key lead.id (still_claimable lead) (claim_touch env.now agent)
        s.leads (λ y. refl) row open_row in
    elim (Bool-cases (count_where (still_claimable lead) s.leads == 1)) [
      | inl e ↦ rw e read
      | inr e ↦ rw e read
    ]

-- A Lead that is an agent's own for 45 days from now.
pub record IsHeld (now : Date) (agent : Agent) (l : Lead) : Type 0 where
  pub owner : l.owner_agent_id ≡ some agent.id
  pub state : l.lifecycle ≡ Lifecycle.claimed
  pub since : l.claimed_at ≡ some now
  pub until : l.open_pool_release_at ≡ some (now + 45 * 24 * 60 * 60 * 1000)
  pub acted : l.last_action_at ≡ some now

-- A claim whose checks pass is written if no other request came between: the agent is certified and
-- below its capacity, the Lead is unowned with two-way contact on record, unblocked, in an eligible
-- lifecycle and pool, and it then reads as claimed now and owned by the agent, up to a release 45 days
-- later. Lead ids must be unique.
pub claim_succeeds :
    (env : Env) (setting : Option ℕ) (actor : User) (i : ℕ) (s : Crm) (agent : Agent) (lead : Lead)
    → UniqueKeys lead_key s.leads
    → claim_checked env setting actor i s ≡ ok (agent, lead)
    → (agent.can_claim_leads ≡ true)
      × (count_where (is_active_with agent.id) s.leads < claim_capacity setting)
      × (is_claim_eligible lead ≡ true)
      × ((claim_available_lead env setting actor i s).0 ≡ ok tt)
      × (l : Lead) × (find_lead i (claim_available_lead env setting actor i s).1.leads ≡ some l)
      × IsHeld env.now agent l
claim_succeeds env setting actor i s agent lead u h =
    let (seat, target) = claim_checked-eq-ok env setting actor i s h in
    let (certified, room) = claim_agent-eq-ok env setting actor i s seat in
    let (row, eligible) = claim_target-eq-ok i s target in
    let this : lead.id ≡ i = find-key lead_key i s.leads row in
    let open_row = still_claimable_self lead eligible in
    let one =
      count_where-one lead_key i (still_claimable lead) s.leads
        (λ m e. still_claimable-id lead m e ∙ this) u row open_row in
    let read =
      claim_write-find env actor agent lead s (find-own_key lead_key i s.leads lead row) open_row in
    let there =
      ap (λ k. find_lead k (claim_write env actor (agent, lead) s).1.leads) (sym this) ∙ read in
    rw (claim_available_lead_runs env setting actor i s h) (
      certified,
      room,
      eligible,
      claim_write_won env actor agent lead s one,
      claim_touch env.now agent lead,
      there,
      record { owner = refl; state = refl; since = refl; until = refl; acted = refl },
    )
