-- ===== src/OpenPool/Guard.antt =====
-- What may enter the Open Pool, and what becomes of it there (src/lib/open-pool-release.ts).
use crm_mcd.Prelude.{
  ℕ, ◌≡◌, refl, true, false, ◌||◌, some, String, Date, none, ok, arith, find-update_self,
  find-own_key, find-key, subst, is_some,
}
use crm_mcd.Lead.{Lifecycle, Pool, Lead, Crm, Env, User}
use crm_mcd.Lead.Table.{lead_key, find_lead}
use crm_mcd.Lead.Handler.{transact-eq-ok}
use crm_mcd.OpenPool.{
  is_demo_booked, is_referral_pool, release_checked, release_touch, release_write,
  release_lead_to_open_pool,
}

release_checked-find :
    (env : Env) (i : ℕ) (s : Crm) {actor : User} {l : Lead}
    → release_checked env i s ≡ ok (actor, l)
    → find_lead i s.leads ≡ some l
unfolding release_checked
release_checked-find env i s h = ground arith

release_checked_unblocked :
    (env : Env) (i : ℕ) (s : Crm) {actor : User} {l : Lead}
    → release_checked env i s ≡ ok (actor, l)
    → (l.dnc || l.suppressed) ≡ false
unfolding release_checked
release_checked_unblocked env i s h = ground arith

release_checked_direct :
    (env : Env) (i : ℕ) (s : Crm) {actor : User} {l : Lead}
    → release_checked env i s ≡ ok (actor, l)
    → (l.is_referral || is_referral_pool l.pool) ≡ false
unfolding release_checked
release_checked_direct env i s h = ground arith

release_checked_early :
    (env : Env) (i : ℕ) (s : Crm) {actor : User} {l : Lead}
    → release_checked env i s ≡ ok (actor, l)
    → is_demo_booked l.lifecycle ≡ false
unfolding release_checked
release_checked_early env i s h = ground arith

release_checked_owned :
    (env : Env) (i : ℕ) (s : Crm) {actor : User} {l : Lead}
    → release_checked env i s ≡ ok (actor, l)
    → (is_some l.owner_agent_id ≡ true) × (is_some l.two_way_contact_at ≡ true)
unfolding release_checked
release_checked_owned env i s h = ground arith

release_write-find :
    (env : Env) (reason : String) (actor : User) (l : Lead) (i : ℕ) (s : Crm)
    → find_lead i s.leads ≡ some l
    → find_lead i (release_write env reason (actor, l) s).leads ≡ some (release_touch env.now l)
unfolding release_write
release_write-find env reason actor l i s row =
    let this = find-key lead_key i s.leads row in
    let read =
      find-update_self lead_key l.id (release_touch env.now) s.leads (λ y. refl)
        (find-own_key lead_key i s.leads l row) in
    subst
      (λ k.
        find_lead k (release_write env reason (actor, l) s).leads ≡ some (release_touch env.now l))
      this read

-- A Lead that waits in the Open Pool.
pub record IsPooled (now : Date) (l : Lead) : Type 0 where
  pub unowned : l.owner_agent_id ≡ none
  pub state : l.lifecycle ≡ Lifecycle.available
  pub pooled : l.pool ≡ Pool.open_pool
  pub released : l.open_pool_release_at ≡ some now
  pub idle : l.next_action_at ≡ none
  pub unblocked : (l.dnc ≡ false) × (l.suppressed ≡ false)

release_touch-IsPooled :
    (now : Date) (l : Lead) → (l.dnc || l.suppressed) ≡ false → IsPooled now (release_touch now l)
release_touch-IsPooled now l h = record {
  unowned = refl;
  state = refl;
  pooled = refl;
  released = refl;
  idle = refl;
  unblocked = (ground (arith, h), ground (arith, h));
}

-- A Lead that was returned to the Open Pool was unblocked, no referral, not booked for a demo, owned and
-- with two-way contact on record; it then reads as unowned and AVAILABLE in the Open Pool, released now,
-- with no next action, and it is still unblocked.
pub release_is_guarded :
    (env : Env) (i : ℕ) (reason : String) (s s' : Crm)
    → release_lead_to_open_pool env i reason s ≡ (ok tt, s')
    → (l : Lead) × (find_lead i s.leads ≡ some l)
      × ((l.dnc || l.suppressed) ≡ false)
      × ((l.is_referral || is_referral_pool l.pool) ≡ false)
      × (is_demo_booked l.lifecycle ≡ false)
      × (is_some l.owner_agent_id ≡ true)
      × (is_some l.two_way_contact_at ≡ true)
      × (l' : Lead) × (find_lead i s'.leads ≡ some l')
      × IsPooled env.now l'
unfolding release_lead_to_open_pool
release_is_guarded env i reason s s' h =
    let (plan, checked, wrote) = transact-eq-ok _ _ s s' h in
    let row = release_checked-find env i s {actor = plan.0} {l = plan.1} checked in
    let (owned, spoken) = release_checked_owned env i s {actor = plan.0} {l = plan.1} checked in
    let read =
      subst (λ q. find_lead i q.leads ≡ some (release_touch env.now plan.1)) wrote
        (release_write-find env reason plan.0 plan.1 i s row) in
    (
      plan.1,
      row,
      release_checked_unblocked env i s {actor = plan.0} {l = plan.1} checked,
      release_checked_direct env i s {actor = plan.0} {l = plan.1} checked,
      release_checked_early env i s {actor = plan.0} {l = plan.1} checked,
      owned,
      spoken,
      release_touch env.now plan.1,
      read,
      release_touch-IsPooled env.now plan.1
          (release_checked_unblocked env i s {actor = plan.0} {l = plan.1} checked),
    )
