-- ===== src/Commission/Policy.antt =====
-- Who is eligible for a commission, and when a ledger entry is (src/lib/commission-policy.ts,
-- src/lib/commission-ledger-policy.ts).
use crm_mcd.Prelude.{
  ℕ, ◌≡◌, ◌↔◌, ◌⊎◌, inl, inr, Bool, true, false, not, ◌&&◌, Option, none, some, arith, ◌==◌,
  if◌then◌else◌,
}
use crm_mcd.Commission.{
  ProfileState, ServiceState, EligibilityState, EligibilityReason, LedgerState,
}

pub record EligibilityInput : Type 0 where
  pub profile : ProfileState
  pub service_state : ServiceState
  pub account_owner_agent_id : Option ℕ
  pub candidate_agent_id : ℕ
  pub current_on_payments : Bool

abbrev pub Verdict : Type 0
Verdict = EligibilityState × EligibilityReason

-- The owner of the account, in active service.
unfoldable pub evaluate_owner : Option ℕ → ℕ → Verdict
evaluate_owner none candidate =
    (EligibilityState.ineligible, EligibilityReason.missing_service_owner)
evaluate_owner (some owner) candidate =
    if owner == candidate
    then (EligibilityState.eligible, EligibilityReason.active_service)
    else (EligibilityState.ineligible, EligibilityReason.agent_declines_service)

unfoldable pub evaluate_service : ServiceState → Option ℕ → ℕ → Verdict
unfolding evaluate_owner
evaluate_service ServiceState.house owner candidate =
    (EligibilityState.ineligible, EligibilityReason.house_transfer)
evaluate_service ServiceState.unassigned owner candidate =
    (EligibilityState.ineligible, EligibilityReason.missing_service_owner)
evaluate_service ServiceState.active owner candidate = evaluate_owner owner candidate

unfoldable pub evaluate_paid : EligibilityInput → Verdict → Verdict
evaluate_paid input verdict =
    if input.current_on_payments
    then verdict
    else (EligibilityState.on_hold, EligibilityReason.payment_uncleared)

-- `evaluateCommissionEligibility`, its tests in their order.
unfoldable pub evaluate_commission_eligibility : EligibilityInput → Verdict
unfolding evaluate_service evaluate_paid
evaluate_commission_eligibility input = elim input.profile [
  | ProfileState.missing ↦ (EligibilityState.pending, EligibilityReason.manual_review)
  | ProfileState.terminated ↦ (EligibilityState.ineligible, EligibilityReason.terminated)
  | ProfileState.on_hold ↦ (EligibilityState.on_hold, EligibilityReason.manual_hold)
  | ProfileState.retired ↦
      evaluate_paid input (EligibilityState.eligible, EligibilityReason.retired)
  | ProfileState.active ↦
      evaluate_paid input
        (evaluate_service input.service_state input.account_owner_agent_id input.candidate_agent_id)
]

-- Who earns: with payments current, a retired partner, or an active one who owns the serviced account.
pub data Earns : EligibilityInput → Type 0 where
  retired :
      {i : EligibilityInput}
      → i.profile ≡ ProfileState.retired
      → i.current_on_payments ≡ true
      → Earns i
  servicing :
      {i : EligibilityInput}
      → i.profile ≡ ProfileState.active
      → i.current_on_payments ≡ true
      → i.service_state ≡ ServiceState.active
      → i.account_owner_agent_id ≡ some i.candidate_agent_id
      → Earns i

-- `evaluateCommissionLedgerReadiness`.
pub record ReadinessInput : Type 0 where
  pub payment_cleared : Bool
  pub eligibility_status : EligibilityState
  pub has_active_hold : Bool

unfoldable pub readiness_of : EligibilityState → LedgerState
readiness_of EligibilityState.eligible = LedgerState.eligible
readiness_of EligibilityState.pending = LedgerState.pending_verification
readiness_of _ = LedgerState.on_hold

unfoldable pub evaluate_commission_ledger_readiness : ReadinessInput → LedgerState
unfolding readiness_of
evaluate_commission_ledger_readiness i =
    if not i.payment_cleared
    then LedgerState.pending_verification
    else (if i.has_active_hold then LedgerState.on_hold else readiness_of i.eligibility_status)

abbrev pub is_eligible_entry : LedgerState → Bool
is_eligible_entry LedgerState.eligible = true
is_eligible_entry _ = false

unfoldable pub may_advance_to_finance_review : ReadinessInput → Bool → Bool
unfolding evaluate_commission_ledger_readiness
may_advance_to_finance_review i finance_enabled =
    finance_enabled && is_eligible_entry (evaluate_commission_ledger_readiness i)

Earns-if :
    (i : EligibilityInput)
    → Earns i
    → (evaluate_commission_eligibility i).0 ≡ EligibilityState.eligible
unfolding evaluate_commission_eligibility
Earns-if i (retired p c) = ground arith
Earns-if i (servicing p c s o) = ground arith

eligible_parts :
    (i : EligibilityInput)
    → (evaluate_commission_eligibility i).0 ≡ EligibilityState.eligible
    → (i.current_on_payments ≡ true)
      × ((i.profile ≡ ProfileState.retired)
          ⊎ ((i.profile ≡ ProfileState.active)
              × (i.service_state ≡ ServiceState.active)
              × (i.account_owner_agent_id ≡ some i.candidate_agent_id)))
unfolding evaluate_commission_eligibility
eligible_parts i h = ground arith

Earns-only :
    (i : EligibilityInput)
    → (evaluate_commission_eligibility i).0 ≡ EligibilityState.eligible
    → Earns i
Earns-only i h =
    let (paid, who) = eligible_parts i h in
    elim who [ inl p ↦ Earns.retired p paid | inr (p, s, o) ↦ Earns.servicing p paid s o ]

-- A candidate is judged eligible for an account exactly when payments are current and either the
-- partner is retired, or the partner is active, the account is in active service and it is the
-- partner's own.
pub eligibility_iff :
    (i : EligibilityInput)
    → ((evaluate_commission_eligibility i).0 ≡ EligibilityState.eligible) ↔ Earns i
eligibility_iff i = (Earns-only i, Earns-if i)
