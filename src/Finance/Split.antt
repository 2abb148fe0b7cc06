-- ===== src/Finance/Split.antt =====
-- What the splits add up to (src/lib/commission-formula.ts, src/lib/commission-math.ts,
-- src/lib/revenue-policy.ts).
use crm_mcd.Prelude.{ℕ, ◌≡◌, ◌+◌, ◌-◌, ◌≤◌, ◌<◌, Bool, ok, arith}
use crm_mcd.Finance.{
  CalculationInput, Calculation, calculate_fifty_fifty_commission, split_profit, share, no_share,
  whole_cents, RevenueInput, RevenueSplit, setup_revenue_split, monthly_revenue_split,
  split_revenue, meet_target, package_schedule,
}

split_profit_sound :
    (excluding net minimum : ℕ)
    → ((split_profit excluding net minimum).agent_share_cents
          + (split_profit excluding net minimum).company_share_cents
        ≡ net)
      × ((split_profit excluding net minimum).agent_share_cents
          ≤ (split_profit excluding net minimum).company_share_cents)
      × (net < minimum → (split_profit excluding net minimum).agent_share_cents ≡ 0)
      × (minimum ≤ net
          → (split_profit excluding net minimum).company_share_cents
            ≤ (split_profit excluding net minimum).agent_share_cents + 1)
unfolding split_profit share no_share
split_profit_sound excluding net minimum = ground arith

calculate-eq-ok :
    (i : CalculationInput) {c : Calculation}
    → calculate_fifty_fifty_commission i ≡ ok c
    → c
      ≡ split_profit
          (i.collected_cents - i.tax_cents)
          (i.collected_cents - i.tax_cents - i.wholesale_cents - i.processing_fee_cents)
          i.min_profit_cents
unfolding calculate_fifty_fifty_commission whole_cents
calculate-eq-ok i h = ground arith

-- A commission that is calculated splits the net profit without loss: the two shares add up to what was
-- collected less tax, wholesale and fees, the agent never has more than the company, has nothing below
-- the minimum, and otherwise at most one cent less than the company.
pub fifty_fifty :
    (i : CalculationInput) {c : Calculation}
    → calculate_fifty_fifty_commission i ≡ ok c
    → (c.agent_share_cents + c.company_share_cents
        ≡ i.collected_cents - i.tax_cents - i.wholesale_cents - i.processing_fee_cents)
      × (c.agent_share_cents ≤ c.company_share_cents)
      × (i.collected_cents - i.tax_cents - i.wholesale_cents - i.processing_fee_cents
            < i.min_profit_cents
          → c.agent_share_cents ≡ 0)
      × (i.min_profit_cents
            ≤ i.collected_cents - i.tax_cents - i.wholesale_cents - i.processing_fee_cents
          → c.company_share_cents ≤ c.agent_share_cents + 1)
fifty_fifty i h = rw (calculate-eq-ok i h) (
    split_profit_sound (i.collected_cents - i.tax_cents)
      (i.collected_cents - i.tax_cents - i.wholesale_cents - i.processing_fee_cents)
      i.min_profit_cents)

-- The commission formula with a package's wholesale price and setup target and the setup split of the
-- revenue policy give the partner and the company the same cents, wherever both accept the amounts.
pub setup_agrees :
    (i : RevenueInput) {r : RevenueSplit} {met : Bool} {c : Calculation}
    → setup_revenue_split i ≡ ok (r, met)
    → calculate_fifty_fifty_commission record {
      collected_cents = i.collected_cents;
      wholesale_cents = (package_schedule i.package_code).wholesale_cents;
      processing_fee_cents = i.fee_cents;
      tax_cents = i.tax_cents;
      min_profit_cents = (package_schedule i.package_code).setup_profit_target_cents;
    }
      ≡ ok c
    → (r.partner_cents ≡ c.agent_share_cents)
      × (r.company_cents ≡ c.company_share_cents)
      × (met ≡ c.meets_minimum_profit)
unfolding setup_revenue_split monthly_revenue_split split_revenue meet_target whole_cents
    calculate_fifty_fifty_commission split_profit share no_share
setup_agrees i h k = ground arith
