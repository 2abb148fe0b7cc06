-- ===== src/Commission/Cycle.antt =====
-- From an eligibility review to the clearance of an entry: src/lib/commission-review-actions.ts, then
-- src/lib/commission-ledger-actions.ts.
use crm_mcd.Prelude.{
  ℕ, ◌≡◌, ◌≢◌, refl, Bool, true, not, ◌&&◌, none, some, List, [], ◌∷◌, arith, ◌==◌, count_where,
  update_where, count_where-update_where_self, find, find-key, find-update_where_self, latest, ok,
  ==_refl,
}
use crm_mcd.Commission.{
  Books, Request, Entry, Decision, EligibilityState, LedgerState, commission_admin,
}
use crm_mcd.Commission.Policy.{Verdict, evaluate_commission_ledger_readiness}
use crm_mcd.Commission.Ledger.{
  posting, active_on, in_force, says_eligible, decision_key, effective, entry_key, with_id,
  set_cleared, clears_eligible, linked, clear_checked, clear_write,
  mark_commission_ledger_payment_cleared,
}
use crm_mcd.Commission.Review.{
  review_checked, review_write, supersede, new_decision, record_commission_eligibility_review,
}

-- An eligibility review leaves exactly one decision in force for the agent on the account.
pub review_leaves_one :
    (req : Request) (account_id agent_id : ℕ) (verdict : Verdict) (b : Books)
    → review_checked req account_id agent_id b ≡ ok verdict
    → count_where
        (in_force account_id agent_id)
        (record_commission_eligibility_review req account_id agent_id b).1.decisions
      ≡ 1
unfolding record_commission_eligibility_review review_write posting count_where
review_leaves_one req account_id agent_id verdict b h =
    let none_left =
      count_where-update_where_self (in_force account_id agent_id) (supersede req.now) b.decisions
        (λ d e. ground arith) in
    rw h (ground (arith, none_left, ==_refl account_id, ==_refl agent_id))

latest-absent :
    (p : Decision → Bool) (ds : List Decision)
    → count_where p ds ≡ 0
    → latest decision_key effective p ds ≡ none
unfolding latest count_where
latest-absent p [] h = refl
latest-absent p (d ∷ ds) h = ground (arith, latest-absent p ds)

latest-review :
    (req : Request) (account_id agent_id : ℕ) (verdict : Verdict) (b : Books)
    → latest decision_key effective
        (in_force account_id agent_id)
        (review_write req account_id agent_id verdict b).decisions
      ≡ some (new_decision req account_id agent_id verdict)
unfolding review_write latest
latest-review req account_id agent_id verdict b =
    let none_left =
      latest-absent (in_force account_id agent_id)
        (update_where (in_force account_id agent_id) (supersede req.now) b.decisions)
        (count_where-update_where_self (in_force account_id agent_id) (supersede req.now)
          b.decisions (λ d e. ground arith)) in
    rw none_left (ground (arith, ==_refl account_id, ==_refl agent_id))

-- The state that the policy gives a cleared entry, by the verdict and by the holds on the entry.
abbrev pub cleared_state : EligibilityState → ℕ → LedgerState
unfolding evaluate_commission_ledger_readiness
cleared_state status active = evaluate_commission_ledger_readiness record {
  payment_cleared = true;
  eligibility_status = status;
  has_active_hold = not (active == 0);
}

cleared-status :
    (now : ℕ) (verdict : Verdict) (d : Decision) (active : ℕ) (entry : Entry)
    → d.status ≡ verdict.0
    → verdict.0 ≢ EligibilityState.pending
    → (set_cleared now (says_eligible (some d) && active == 0) entry).status
      ≡ cleared_state verdict.0 active
unfolding cleared_state
cleared-status now verdict d active entry same judged = ground arith

clear_checked-reviewed :
    (req req' : Request) (account_id agent_id i : ℕ) (verdict : Verdict) (b : Books) (entry : Entry)
    → commission_admin req' ≡ ok req'.actor
    → find entry_key i b.entries ≡ some entry
    → entry.client_account_id ≡ some account_id
    → entry.earning_agent_id ≡ some agent_id
    → clear_checked req' i (review_write req account_id agent_id verdict b)
      ≡ ok (
        entry,
        says_eligible (some (new_decision req account_id agent_id verdict))
            && count_where (active_on entry.id) b.holds == 0,
      )
unfolding clear_checked clears_eligible linked review_write
clear_checked-reviewed req req' account_id agent_id i verdict b entry admin row account agent =
    rw admin
      (rw row (rw account (rw agent (rw (latest-review req account_id agent_id verdict b) refl))))

-- After an eligibility review of an entry's agent on its account, a clearance of the entry gives it the
-- state that the ledger policy computes from the verdict and the active holds, unless the verdict is
-- PENDING. The clearing user must be an administrator with the feature on.
pub clearance_follows_review :
    (req req' : Request) (account_id agent_id i : ℕ) (verdict : Verdict) (b : Books) (entry : Entry)
    → review_checked req account_id agent_id b ≡ ok verdict
    → commission_admin req' ≡ ok req'.actor
    → find entry_key i b.entries ≡ some entry
    → entry.client_account_id ≡ some account_id
    → entry.earning_agent_id ≡ some agent_id
    → verdict.0 ≢ EligibilityState.pending
    → (e : Entry) × (find entry_key i
          (mark_commission_ledger_payment_cleared req' i
            (record_commission_eligibility_review req account_id agent_id b).1).1.entries
        ≡ some e)
      × (e.status ≡ cleared_state verdict.0 (count_where (active_on entry.id) b.holds))
unfolding record_commission_eligibility_review mark_commission_ledger_payment_cleared posting
    clear_write review_write
clearance_follows_review req req' account_id agent_id i verdict b entry reviewed admin row account
      agent judged =
    let held = count_where (active_on entry.id) b.holds in
    let decision = new_decision req account_id agent_id verdict in
    let eligible = says_eligible (some decision) && held == 0 in
    let own : (entry.id == i) ≡ true = rw (find-key entry_key i b.entries row) (==_refl i) in
    let written =
      find-update_where_self entry_key i (with_id entry.id) (set_cleared req'.now eligible)
        b.entries (λ e. refl) row (==_refl entry.id) in
    rw reviewed (
      rw
        (clear_checked-reviewed req req' account_id agent_id i verdict b entry admin row account
          agent)
        (
          set_cleared req'.now eligible entry,
          written,
          cleared-status req'.now verdict decision held entry refl judged,
        ))
