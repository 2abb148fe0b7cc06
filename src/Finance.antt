-- ===== src/Finance.antt =====
-- Money: the packages, the fifty-fifty split and the collections (src/lib/package-schedule.ts,
-- src/lib/commission-formula.ts, src/lib/commission-math.ts, src/lib/revenue-policy.ts,
-- src/lib/reconciliation.ts). Cents are natural numbers, so what the source tests with `wholeCents` is
-- the bound of a safe integer, and `Math.max(0, a - b)` is the subtraction that stops at 0.
pub mod Payout
pub mod Split
use crm_mcd.Prelude.{
  ℕ, ◌+◌, ◌-◌, ◌*◌, ◌/◌, ◌^◌, Bool, true, false, ◌&&◌, leb, ltb, ◌==◌, Result, ok, err, ◌>>=◌, ◌>>◌,
  require, if◌then◌else◌,
}

pub data MoneyError : Type 0 where
  not_whole_cents : MoneyError

-- `Number.MAX_SAFE_INTEGER`.
abbrev pub max_safe : ℕ
max_safe = 9007199254740991

-- `wholeCents`, `validCents` and `cents`.
unfoldable pub whole_cents : ℕ → Result MoneyError ℕ
whole_cents n = if leb n max_safe then ok n else err MoneyError.not_whole_cents

pub record CalculationInput : Type 0 where
  pub collected_cents : ℕ
  pub wholesale_cents : ℕ
  pub processing_fee_cents : ℕ
  pub tax_cents : ℕ
  pub min_profit_cents : ℕ

pub record Calculation : Type 0 where
  pub collected_excluding_tax_cents : ℕ
  pub net_commissionable_profit_cents : ℕ
  pub agent_share_cents : ℕ
  pub company_share_cents : ℕ
  pub meets_minimum_profit : Bool

unfoldable pub share : ℕ → ℕ → Calculation
share collected_excluding_tax net = record {
  collected_excluding_tax_cents = collected_excluding_tax;
  net_commissionable_profit_cents = net;
  agent_share_cents = net / 2;
  company_share_cents = net - net / 2;
  meets_minimum_profit = true;
}

unfoldable pub no_share : ℕ → ℕ → Calculation
no_share collected_excluding_tax net = record {
  collected_excluding_tax_cents = collected_excluding_tax;
  net_commissionable_profit_cents = net;
  agent_share_cents = 0;
  company_share_cents = net;
  meets_minimum_profit = false;
}

unfoldable pub split_profit : ℕ → ℕ → ℕ → Calculation
unfolding share no_share
split_profit collected_excluding_tax net minimum =
    if leb minimum net
    then share collected_excluding_tax net
    else no_share collected_excluding_tax net

-- `calculateFiftyFiftyCommission`; a minimum that is left out is 0.
unfoldable pub calculate_fifty_fifty_commission : CalculationInput → Result MoneyError Calculation
unfolding whole_cents split_profit
calculate_fifty_fifty_commission i = do
  collected ← whole_cents i.collected_cents
  tax ← whole_cents i.tax_cents
  wholesale ← whole_cents i.wholesale_cents
  processing ← whole_cents i.processing_fee_cents
  minimum ← whole_cents i.min_profit_cents
  ok (split_profit (collected - tax) (collected - tax - wholesale - processing) minimum)

pub data PackageCode : Type 0 where
  standard_starter standard_growth standard_pro : PackageCode
  enterprise_starter enterprise_growth enterprise_pro : PackageCode

pub record PackageSchedule : Type 0 where
  pub retail_cents : ℕ
  pub wholesale_cents : ℕ
  pub setup_profit_target_cents : ℕ

unfoldable pub package_schedule : PackageCode → PackageSchedule
package_schedule PackageCode.standard_starter = record {
  retail_cents = 159500;
  wholesale_cents = 100000;
  setup_profit_target_cents = 100000;
}
package_schedule PackageCode.standard_growth = record {
  retail_cents = 199500;
  wholesale_cents = 125000;
  setup_profit_target_cents = 150000;
}
package_schedule PackageCode.standard_pro = record {
  retail_cents = 399500;
  wholesale_cents = 150000;
  setup_profit_target_cents = 300000;
}
package_schedule PackageCode.enterprise_starter = record {
  retail_cents = 529500;
  wholesale_cents = 250000;
  setup_profit_target_cents = 500000;
}
package_schedule PackageCode.enterprise_growth = record {
  retail_cents = 759500;
  wholesale_cents = 350000;
  setup_profit_target_cents = 500000;
}
package_schedule PackageCode.enterprise_pro = record {
  retail_cents = 999500;
  wholesale_cents = 500000;
  setup_profit_target_cents = 500000;
}

pub record RevenueInput : Type 0 where
  pub package_code : PackageCode
  pub collected_cents : ℕ
  pub fee_cents : ℕ
  pub tax_cents : ℕ

pub record RevenueSplit : Type 0 where
  pub eligible_cents : ℕ
  pub wholesale_cents : ℕ
  pub net_cents : ℕ
  pub partner_cents : ℕ
  pub company_cents : ℕ

unfoldable pub split_revenue : ℕ → ℕ → ℕ → RevenueSplit
split_revenue eligible wholesale net = record {
  eligible_cents = eligible;
  wholesale_cents = wholesale;
  net_cents = net;
  partner_cents = net / 2;
  company_cents = net - net / 2;
}

unfoldable pub monthly_revenue_split : RevenueInput → Result MoneyError RevenueSplit
unfolding whole_cents split_revenue
monthly_revenue_split i = do
  collected ← whole_cents i.collected_cents
  tax ← whole_cents i.tax_cents
  fee ← whole_cents i.fee_cents
  ok (
      split_revenue (collected - tax) (package_schedule i.package_code).wholesale_cents
        (collected - tax - (package_schedule i.package_code).wholesale_cents - fee))

-- The split of a setup fee, and whether it meets the target.
unfoldable pub meet_target : ℕ → RevenueSplit → RevenueSplit × Bool
meet_target target r =
    if leb target r.net_cents
    then (r, true)
    else (record r { partner_cents = 0; company_cents = r.net_cents }, false)

unfoldable pub setup_revenue_split : RevenueInput → Result MoneyError (RevenueSplit × Bool)
unfolding monthly_revenue_split meet_target
setup_revenue_split i = do
  result ← monthly_revenue_split i
  ok (meet_target (package_schedule i.package_code).setup_profit_target_cents result)
