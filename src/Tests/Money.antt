-- ===== src/Tests/Money.antt =====
-- The theorems on retries and on money at concrete amounts.
use crm_mcd.Prelude.{
  ℕ, ◌≡◌, ◌↔◌, refl, ◌+◌, ◌-◌, ◌≤◌, ◌<◌, ◌==◌, Bool, true, false, none, some, Result, ok, err,
  length, All, is_some, if◌then◌else◌, arith,
}
use crm_mcd.Retry.{
  RetryOptions, retry_options, retry_transient_database_operation, retry_is_bounded, retry_recovers,
  FailsTransiently,
}
use crm_mcd.Finance.{
  CalculationInput, Calculation, calculate_fifty_fifty_commission, PackageCode, RevenueInput,
  RevenueSplit, setup_revenue_split, package_schedule,
}
use crm_mcd.Finance.Split.{fifty_fifty, setup_agrees}
use crm_mcd.Finance.Payout.{
  FinanceInput, PayoutRoute, StripeInput, evaluate_finance_readiness,
  evaluate_stripe_connect_readiness, finance_ready_iff, stripe_is_guarded,
}

-- An operation whose first attempt fails.
abbrev flaky : ℕ → Result Bool ℕ
flaky n = if n == 1 then err true else ok n

abbrev transient : Bool → Bool
transient e = e

abbrev defaults : RetryOptions
defaults = record { max_attempts = none; initial_delay_ms = none; max_delay_ms = none }

defaults-options : retry_options {A = ℕ} transient flaky defaults ≡ ok (3, 250, 1000)
unfolding retry_options
defaults-options = refl

retry_is_bounded_example :
    (length (retry_transient_database_operation transient flaky defaults).attempts ≤ 3)
    × (3 ≤ 5)
    × (length (retry_transient_database_operation transient flaky defaults).attempts
        ≡ length (retry_transient_database_operation transient flaky defaults).delays + 1)
    × All (λ d. d ≤ 1000) (retry_transient_database_operation transient flaky defaults).delays
retry_is_bounded_example = retry_is_bounded transient flaky defaults defaults-options

flaky-fails : (n : ℕ) → 1 ≤ n → n < 2 → FailsTransiently transient flaky 250 1000 n
unfolding FailsTransiently
flaky-fails n low high = let one : n ≡ 1 = omega arith in rw one (true, refl, refl)

retry_recovers_example :
    (retry_transient_database_operation transient flaky defaults).result ≡ ok (2, 2)
retry_recovers_example =
    retry_recovers transient flaky defaults 2 2 defaults-options (omega arith) (omega arith)
      flaky-fails refl

abbrev sale : CalculationInput
sale = record {
  collected_cents = 199500;
  wholesale_cents = 125000;
  processing_fee_cents = 6001;
  tax_cents = 0;
  min_profit_cents = 0;
}

abbrev sale_split : Calculation
sale_split = record {
  collected_excluding_tax_cents = 199500;
  net_commissionable_profit_cents = 68499;
  agent_share_cents = 34249;
  company_share_cents = 34250;
  meets_minimum_profit = true;
}

sale-split : calculate_fifty_fifty_commission sale ≡ ok sale_split
unfolding calculate_fifty_fifty_commission
sale-split = refl

fifty_fifty_example :
    (sale_split.agent_share_cents + sale_split.company_share_cents
      ≡ sale.collected_cents - sale.tax_cents - sale.wholesale_cents - sale.processing_fee_cents)
    × (sale_split.agent_share_cents ≤ sale_split.company_share_cents)
    × (sale.collected_cents - sale.tax_cents - sale.wholesale_cents - sale.processing_fee_cents
          < sale.min_profit_cents
        → sale_split.agent_share_cents ≡ 0)
    × (sale.min_profit_cents
          ≤ sale.collected_cents - sale.tax_cents - sale.wholesale_cents - sale.processing_fee_cents
        → sale_split.company_share_cents ≤ sale_split.agent_share_cents + 1)
fifty_fifty_example = fifty_fifty sale sale-split

abbrev setup : RevenueInput
setup = record {
  package_code = PackageCode.standard_starter;
  collected_cents = 250000;
  fee_cents = 7000;
  tax_cents = 0;
}

abbrev setup_split : RevenueSplit
setup_split = record {
  eligible_cents = 250000;
  wholesale_cents = 100000;
  net_cents = 143000;
  partner_cents = 71500;
  company_cents = 71500;
}

abbrev setup_calculation : Calculation
setup_calculation = record {
  collected_excluding_tax_cents = 250000;
  net_commissionable_profit_cents = 143000;
  agent_share_cents = 71500;
  company_share_cents = 71500;
  meets_minimum_profit = true;
}

setup-split : setup_revenue_split setup ≡ ok (setup_split, true)
unfolding setup_revenue_split package_schedule
setup-split = refl

setup-calculation :
    calculate_fifty_fifty_commission record {
      collected_cents = 250000;
      wholesale_cents = (package_schedule PackageCode.standard_starter).wholesale_cents;
      processing_fee_cents = 7000;
      tax_cents = 0;
      min_profit_cents = (package_schedule PackageCode.standard_starter).setup_profit_target_cents;
    }
    ≡ ok setup_calculation
unfolding calculate_fifty_fifty_commission package_schedule
setup-calculation = refl

setup_agrees_example :
    (setup_split.partner_cents ≡ setup_calculation.agent_share_cents)
    × (setup_split.company_cents ≡ setup_calculation.company_share_cents)
    × (true ≡ setup_calculation.meets_minimum_profit)
setup_agrees_example = setup_agrees setup setup-split setup-calculation

abbrev cleared : FinanceInput
cleared = record {
  finance_enabled = true;
  commission_eligible = true;
  payment_cleared = true;
  has_active_hold = false;
  finance_approved = true;
  destination_verified = true;
}

finance_ready_iff_example : ((evaluate_finance_readiness cleared).0 ≡ true) ↔ (
    (cleared.finance_enabled ≡ true)
    × (cleared.commission_eligible ≡ true)
    × (cleared.payment_cleared ≡ true)
    × (cleared.has_active_hold ≡ false)
    × (cleared.finance_approved ≡ true)
    × (cleared.destination_verified ≡ true))
finance_ready_iff_example = finance_ready_iff cleared

abbrev connected : StripeInput
connected = record {
  payout_route = PayoutRoute.stripe_connect;
  stripe_configured = true;
  connected_account_id = some 5;
  onboarding_complete = true;
  payouts_enabled = true;
  finance_ready = true;
  manual_approval_recorded = true;
  transfer_execution_enabled = true;
}

stripe_is_guarded_example :
    ((evaluate_stripe_connect_readiness connected).provider_execution_permitted ≡ false)
    × ((evaluate_stripe_connect_readiness connected).ready_for_admin_review ≡ true
        → (is_some connected.connected_account_id ≡ true)
          × (connected.onboarding_complete ≡ true)
          × (connected.payouts_enabled ≡ true)
          × (connected.finance_ready ≡ true)
          × (connected.manual_approval_recorded ≡ true)
          × (connected.transfer_execution_enabled ≡ true))
stripe_is_guarded_example = stripe_is_guarded connected
