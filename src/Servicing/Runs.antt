-- ===== src/Servicing/Runs.antt =====
-- Requests on the desk, served one after another: the exported functions of
-- src/lib/client-servicing-actions.ts, src/lib/client-servicing-resolution.ts, src/lib/client-launch-actions.ts,
-- src/lib/lead-client-account.ts and src/lib/service-cadence-jobs.ts.
use crm_mcd.Prelude.{ℕ, ◌≡◌, refl, Bool, Option, List, [], ◌∷◌, String, Result, ok, err}
use crm_mcd.Lead.{Env}
use crm_mcd.Servicing.{Desk, DeskError, transact}
use crm_mcd.Servicing.Accounts.{
  AccountInput, create_client_account, create_client_account_from_won_lead,
}
use crm_mcd.Servicing.Launch.{PaymentState, confirm_client_launch, complete_client_launch}
use crm_mcd.Servicing.Cases.{
  CaseInput, open_client_service_case, record_service_response, resolve_client_service_case,
}
use crm_mcd.Servicing.Standing.{
  HouseReason, record_payment_resolved, transfer_client_service_to_house,
  record_agent_continues_service,
}
use crm_mcd.Servicing.Sweep.{CadenceOptions, run_service_cadence_sweep}

pub data Demand : Type 0 where
  create : AccountInput → Demand
  create_from_lead : ℕ → String → Demand
  confirm_launch : ℕ → PaymentState → String → Demand
  complete_launch : ℕ → String → Demand
  open_case : CaseInput → Demand
  respond : ℕ → Option ℕ → String → Demand
  resolve : ℕ → ℕ → String → Demand
  payment_resolved : ℕ → String → Demand
  to_house : ℕ → HouseReason → String → Demand
  continue_service : ℕ → String → Demand
  check_in : (String → String → Bool) → (ℕ → ℕ) → CadenceOptions → Demand

unfoldable pub serve : Env → Demand → Desk → Desk
unfolding create_client_account create_client_account_from_won_lead confirm_client_launch
    complete_client_launch open_client_service_case record_service_response
    resolve_client_service_case record_payment_resolved transfer_client_service_to_house
    record_agent_continues_service run_service_cadence_sweep
serve env (Demand.create input) s = (create_client_account env input s).1
serve env (Demand.create_from_lead i code) s = (create_client_account_from_won_lead env i code s).1
serve env (Demand.confirm_launch i payment note) s = (confirm_client_launch env i payment note s).1
serve env (Demand.complete_launch i note) s = (complete_client_launch env i note s).1
serve env (Demand.open_case input) s = (open_client_service_case env input s).1
serve env (Demand.respond i c note) s = (record_service_response env i c note s).1
serve env (Demand.resolve i c resolution) s = (resolve_client_service_case env i c resolution s).1
serve env (Demand.payment_resolved i note) s = (record_payment_resolved env i note s).1
serve env (Demand.to_house i reason note) s =
    (transfer_client_service_to_house env i reason note s).1
serve env (Demand.continue_service i note) s = (record_agent_continues_service env i note s).1
serve env (Demand.check_in before ids options) s =
    (run_service_cadence_sweep before ids env options s).1

unfoldable pub serve_all : List (Env × Demand) → Desk → Desk
unfolding serve
serve_all [] s = s
serve_all ((env, d) ∷ rest) s = serve_all rest (serve env d s)

-- A property survives a request if the transaction keeps it where the checks passed.
pub transact-keeps {ℓ} :
    {A B : Type 0} (P : Desk → Type ℓ) (checked : Result DeskError A) (write : A → Desk → B × Desk)
    (s : Desk)
    → P s
    → ((a : A) → checked ≡ ok a → P (write a s).1)
    → P (transact checked write s).1
unfolding transact
transact-keeps P (ok a) write s h k = k a refl
transact-keeps P (err e) write s h k = h

-- A property that no request breaks holds after any requests.
pub serve_all-keeps {ℓ} :
    (P : Desk → Type ℓ)
    → ((env : Env) (d : Demand) (s : Desk) → P s → P (serve env d s))
    → (demands : List (Env × Demand)) (s : Desk) → P s
    → P (serve_all demands s)
unfolding serve_all
serve_all-keeps P keep [] s h = h
serve_all-keeps P keep ((env, d) ∷ rest) s h =
    serve_all-keeps P keep rest (serve env d s) (keep env d s h)
