-- ===== src/Finance/Payout.antt =====
-- When a commission may go on to a payout (src/lib/finance-readiness.ts, src/lib/stripe-connect-readiness.ts,
-- src/lib/payout-policy.ts).
use crm_mcd.Prelude.{ℕ, ◌≡◌, ◌↔◌, Bool, true, false, not, Option, if◌then◌else◌, arith, is_some}

pub data FinanceReason : Type 0 where
  finance_disabled commission_not_eligible payment_not_cleared active_hold : FinanceReason
  finance_approval_required destination_not_verified ready_for_manual_review : FinanceReason

pub record FinanceInput : Type 0 where
  pub finance_enabled : Bool
  pub commission_eligible : Bool
  pub payment_cleared : Bool
  pub has_active_hold : Bool
  pub finance_approved : Bool
  pub destination_verified : Bool

unfoldable pub evaluate_finance_readiness : FinanceInput → Bool × FinanceReason
evaluate_finance_readiness i =
    if not i.finance_enabled
    then (false, FinanceReason.finance_disabled)
    else (if not i.commission_eligible
        then (false, FinanceReason.commission_not_eligible)
        else (if not i.payment_cleared
            then (false, FinanceReason.payment_not_cleared)
            else (if i.has_active_hold
                then (false, FinanceReason.active_hold)
                else (if not i.finance_approved
                    then (false, FinanceReason.finance_approval_required)
                    else (if not i.destination_verified
                        then (false, FinanceReason.destination_not_verified)
                        else (true, FinanceReason.ready_for_manual_review))))))

pub data PayoutRoute : Type 0 where
  manual_external stripe_connect : PayoutRoute

pub data StripeReason : Type 0 where
  manual_external_route stripe_configuration_required connected_account_required : StripeReason
  connect_onboarding_incomplete stripe_payouts_disabled finance_review_required : StripeReason
  manual_approval_required transfer_execution_disabled ready_for_manual_review : StripeReason

pub record StripeInput : Type 0 where
  pub payout_route : PayoutRoute
  pub stripe_configured : Bool
  pub connected_account_id : Option ℕ
  pub onboarding_complete : Bool
  pub payouts_enabled : Bool
  pub finance_ready : Bool
  pub manual_approval_recorded : Bool
  pub transfer_execution_enabled : Bool

pub record StripeResult : Type 0 where
  pub ready_for_admin_review : Bool
  pub reason : StripeReason
  pub provider_execution_permitted : Bool

abbrev is_manual : PayoutRoute → Bool
is_manual PayoutRoute.manual_external = true
is_manual PayoutRoute.stripe_connect = false

unfoldable pub result : StripeReason → Bool → StripeResult
result why ready = record {
  ready_for_admin_review = ready;
  reason = why;
  provider_execution_permitted = false;
}

-- The tests from the finance review on.
unfoldable pub evaluate_approvals : StripeInput → StripeResult
unfolding result
evaluate_approvals i =
    if not i.finance_ready
    then result StripeReason.finance_review_required false
    else (if not i.manual_approval_recorded
        then result StripeReason.manual_approval_required false
        else (if not i.transfer_execution_enabled
            then result StripeReason.transfer_execution_disabled false
            else result StripeReason.ready_for_manual_review true))

unfoldable pub evaluate_stripe_connect_readiness : StripeInput → StripeResult
unfolding result evaluate_approvals
evaluate_stripe_connect_readiness i =
    if is_manual i.payout_route
    then result StripeReason.manual_external_route false
    else (if not i.stripe_configured
        then result StripeReason.stripe_configuration_required false
        else (if not (is_some i.connected_account_id)
            then result StripeReason.connected_account_required false
            else (if not i.onboarding_complete
                then result StripeReason.connect_onboarding_incomplete false
                else (if not i.payouts_enabled
                    then result StripeReason.stripe_payouts_disabled false
                    else evaluate_approvals i))))

-- Finance readiness is given exactly when the feature is on, the commission eligible and its payment
-- cleared, no hold active, finance has approved and the destination is verified.
pub finance_ready_iff :
    (i : FinanceInput)
    → ((evaluate_finance_readiness i).0 ≡ true) ↔ (
        (i.finance_enabled ≡ true)
        × (i.commission_eligible ≡ true)
        × (i.payment_cleared ≡ true)
        × (i.has_active_hold ≡ false)
        × (i.finance_approved ≡ true)
        × (i.destination_verified ≡ true))
unfolding evaluate_finance_readiness
finance_ready_iff i = ((λ h. ground arith), (λ h. ground arith))

-- A payout by Stripe is ready for review only with the account connected, onboarded and able to be paid,
-- finance ready, a manual approval on record and transfers enabled; no outcome permits a call of the
-- provider.
pub stripe_is_guarded :
    (i : StripeInput)
    → ((evaluate_stripe_connect_readiness i).provider_execution_permitted ≡ false)
      × ((evaluate_stripe_connect_readiness i).ready_for_admin_review ≡ true
          → (is_some i.connected_account_id ≡ true)
            × (i.onboarding_complete ≡ true)
            × (i.payouts_enabled ≡ true)
            × (i.finance_ready ≡ true)
            × (i.manual_approval_recorded ≡ true)
            × (i.transfer_execution_enabled ≡ true))
unfolding evaluate_stripe_connect_readiness evaluate_approvals result
stripe_is_guarded i = (ground arith, (λ h. ground arith))
