-- ===== src/Blackout/Pools.antt =====
-- Claims, Open Pool returns and the aging sweep leave a blocked Lead alone.
use crm_mcd.Prelude.{
  ℕ, ◌≡◌, refl, ◌≢◌, Bool, true, false, Option, some, List, [], ◌∷◌, arith, String, Date, Result,
  ok, err, update_where, ◌==◌, Bool-cases, inl, inr, All, All-take, All-insertion_sort,
  find-update_where_ne, get_or, update_where-UniqueKeys, count_where, filter-other,
}
use crm_mcd.Lead.{Lead, Crm, Error, Env, User, Agent}
use crm_mcd.Lead.Table.{lead_key, find_lead}
use crm_mcd.Lead.Handler.{transact-keeps}
use crm_mcd.Claims.{claim_checked, claim_write, claim_touch, still_claimable, claim_available_lead}
use crm_mcd.OpenPool.{release_checked, release_touch, release_write, release_lead_to_open_pool}
use crm_mcd.Aging.Sweep.{
  SweepOptions, read_limit, is_expired_claim, is_stalled, expired_claims, stalled_leads,
  return_touch, return_lead, promote_touch, promote_lead, each, sweep_write, run_lead_aging_sweep,
}
use crm_mcd.Blackout.Rules.{IsBlackout, ne_of_free, IsBlackout-write}

module _ (env : Env) (i : ℕ) (l : Lead) where
  release_checked-free :
      (j : ℕ) (s : Crm) {actor : User} {m : Lead}
      → release_checked env j s ≡ ok (actor, m)
      → (m.dnc ≡ false) × (find_lead j s.leads ≡ some m)
  unfolding release_checked
  release_checked-free j s h = ground arith

  release_write-IsBlackout :
      (reason : String) (s : Crm) (actor : User) (m : Lead)
      → IsBlackout i l s
      → i ≢ m.id
      → IsBlackout i l (release_write env reason (actor, m) s)
  unfolding release_write
  release_write-IsBlackout reason s actor m b ne =
      IsBlackout-write i m.id l (release_touch env.now) s _ b (λ x. refl) ne refl b.unscheduled

  pub release_lead_to_open_pool-IsBlackout :
      (lead_id : ℕ) (reason : String) (s : Crm)
      → IsBlackout i l s
      → IsBlackout i l (release_lead_to_open_pool env lead_id reason s).1
  unfolding release_lead_to_open_pool
  release_lead_to_open_pool-IsBlackout lead_id reason s b =
      transact-keeps (IsBlackout i l) _ _ s b λ found checked.
        release_write-IsBlackout reason s found.0 found.1 b
          (ne_of_free i lead_id l found.1 s b (release_checked-free lead_id s checked))

  -- The conditional update passes over a blocked row.
  still_claimable-free : (lead m : Lead) → m.dnc ≡ true → still_claimable lead m ≡ false
  unfolding still_claimable
  still_claimable-free lead m d = ground arith

  claim_rows-IsBlackout :
      (agent : Agent) (lead : Lead) (s t : Crm)
      → IsBlackout i l s
      → t.leads ≡ update_where (still_claimable lead) (claim_touch env.now agent) s.leads
      → t.callbacks ≡ s.callbacks
      → IsBlackout i l t
  claim_rows-IsBlackout agent lead s t b e e' = record {
    blocked = b.blocked;
    stopped = b.stopped;
    found = rw e (
        find-update_where_ne lead_key i (still_claimable lead) (claim_touch env.now agent) s.leads
          (λ x. refl) b.found (still_claimable-free lead l b.blocked));
    unique = rw e (
        update_where-UniqueKeys lead_key (still_claimable lead) (claim_touch env.now agent) s.leads
          (λ x. refl) b.unique);
    unscheduled = rw e' b.unscheduled;
  }

  claim_write-IsBlackout :
      (actor : User) (agent : Agent) (lead : Lead) (s : Crm)
      → IsBlackout i l s
      → IsBlackout i l (claim_write env actor (agent, lead) s).1
  unfolding claim_write
  claim_write-IsBlackout actor agent lead s b =
      elim (Bool-cases (count_where (still_claimable lead) s.leads == 1)) [
        | inl e ↦ rw e (claim_rows-IsBlackout agent lead s _ b refl refl)
        | inr e ↦ rw e (claim_rows-IsBlackout agent lead s _ b refl refl)
      ]

  pub claim_available_lead-IsBlackout :
      (setting : Option ℕ) (actor : User) (lead_id : ℕ) (s : Crm)
      → IsBlackout i l s
      → IsBlackout i l (claim_available_lead env setting actor lead_id s).1
  unfolding claim_available_lead
  claim_available_lead-IsBlackout setting actor lead_id s b =
      elim (claim_checked env setting actor lead_id s)
        as (λ r.
          IsBlackout i l
            (elim r as (λ _. Result Error (Unit {0}) × Crm) [
              | ok found ↦ claim_write env actor found s
              | err e ↦ (err e, s)
            ]).1) [ ok found ↦ claim_write-IsBlackout actor found.0 found.1 s b | err e ↦ b ]

-- The aging sweep writes to the rows that its two queries found, and they find no blocked row.
module _ (now : Date) (i : ℕ) (l : Lead) where
  each-IsBlackout :
      (step : Lead → Crm → Crm) (ls : List Lead) (s : Crm)
      → ((m : Lead) (t : Crm) → IsBlackout i l t → i ≢ m.id → IsBlackout i l (step m t))
      → All (λ m. i ≢ m.id) ls
      → IsBlackout i l s
      → IsBlackout i l (each step ls s)
  unfolding each
  each-IsBlackout step [] s keep h b = b
  each-IsBlackout step (m ∷ ls) s keep h b =
      each-IsBlackout step ls (step m s) keep h.1 (keep m s b h.0)

  return_lead-IsBlackout :
      (m : Lead) (t : Crm) → IsBlackout i l t → i ≢ m.id → IsBlackout i l (return_lead now m t)
  unfolding return_lead
  return_lead-IsBlackout m t b ne =
      IsBlackout-write i m.id l (return_touch now) t _ b (λ x. refl) ne refl b.unscheduled

  promote_lead-IsBlackout :
      (m : Lead) (t : Crm) → IsBlackout i l t → i ≢ m.id → IsBlackout i l (promote_lead now m t)
  unfolding promote_lead
  promote_lead-IsBlackout m t b ne =
      IsBlackout-write i m.id l (promote_touch now) t _ b (λ x. refl) ne refl b.unscheduled

  expired_claims-other :
      (limit : ℕ) (s : Crm) → IsBlackout i l s → All (λ m. i ≢ m.id) (expired_claims now limit s)
  unfolding expired_claims
  expired_claims-other limit s b = All-take _ limit _ (
      All-insertion_sort _ _ _ (
        filter-other lead_key i (is_expired_claim now) s.leads b.unique b.found (passes b.blocked)))
    where
      passes : l.dnc ≡ true → is_expired_claim now l ≡ false
      passes d = ground arith

  stalled_leads-other :
      (cutoff : Date) (capacity : ℕ) (s : Crm)
      → IsBlackout i l s
      → All (λ m. i ≢ m.id) (stalled_leads cutoff capacity s)
  unfolding stalled_leads
  stalled_leads-other cutoff capacity s b = All-take _ capacity _ (
      All-insertion_sort _ _ _
        (filter-other lead_key i (is_stalled cutoff) s.leads b.unique b.found (passes b.blocked)))
    where
      passes : l.dnc ≡ true → is_stalled cutoff l ≡ false
      passes d = ground arith

  sweep_write-IsBlackout :
      (dry : Bool) (expired stalled : List Lead) (s : Crm)
      → All (λ m. i ≢ m.id) expired
      → All (λ m. i ≢ m.id) stalled
      → IsBlackout i l s
      → IsBlackout i l (sweep_write dry now expired stalled s)
  unfolding sweep_write
  sweep_write-IsBlackout true expired stalled s h k b = b
  sweep_write-IsBlackout false expired stalled s h k b =
      each-IsBlackout (promote_lead now) stalled _ promote_lead-IsBlackout k
        (each-IsBlackout (return_lead now) expired s return_lead-IsBlackout h b)

pub run_lead_aging_sweep-IsBlackout :
    (env : Env) (options : SweepOptions) (i : ℕ) (l : Lead) (s : Crm)
    → IsBlackout i l s
    → IsBlackout i l (run_lead_aging_sweep env options s).1
unfolding run_lead_aging_sweep
run_lead_aging_sweep-IsBlackout env options i l s b =
    let now = get_or options.now env.now in
    let expired = expired_claims now (read_limit options.limit) s in
    elim (Bool-cases env.features.leads) [
      | inl e ↦ rw e (
          sweep_write-IsBlackout now i l options.dry_run expired _ s
            (expired_claims-other now i l (read_limit options.limit) s b)
            (stalled_leads-other now i l _ _ s b) b)
      | inr e ↦ rw e b
    ]
