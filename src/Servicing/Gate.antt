-- ===== src/Servicing/Gate.antt =====
-- The feature gate of the servicing desk, `requireFeature("servicing")`, which every exported function of
-- src/lib/client-servicing-actions.ts, src/lib/client-servicing-resolution.ts, src/lib/client-launch-actions.ts,
-- src/lib/lead-client-account.ts and src/lib/service-cadence-jobs.ts calls.
use crm_mcd.Prelude.{ℕ, ◌≡◌, refl, Bool, false, Option, String, arith, Result, ok, err, ◌>>=◌}
use crm_mcd.Lead.{Env, Error, User}
use crm_mcd.Session.{require_feature}
use crm_mcd.Servicing.{Desk, DeskError, SourceLead, Account}
use crm_mcd.Servicing.Actors.{ServicingActor, servicing_actor, servicing_admin}
use crm_mcd.Servicing.Accounts.{
  create_client_account, create_account_checked, create_account_write,
  create_client_account_from_won_lead, won_lead_checked, won_lead_write,
}
use crm_mcd.Servicing.Launch.{
  confirm_client_launch, confirm_checked, confirm_write, complete_client_launch, complete_checked,
  complete_write,
}
use crm_mcd.Servicing.Cases.{
  open_client_service_case, open_checked, open_write, record_service_response, response_checked,
  response_write, resolve_client_service_case, resolve_checked, resolve_write,
}
use crm_mcd.Servicing.Standing.{
  record_payment_resolved, standing_checked, payment_write, house_write,
  transfer_client_service_to_house, record_agent_continues_service, retain_checked, retain_write,
}
use crm_mcd.Servicing.Sweep.{
  CadenceOptions, CadenceReport, run_service_cadence_sweep, sweep_checked,
}
use crm_mcd.Servicing.Runs.{Demand, serve, transact-keeps}

module _ (env : Env) (off : env.features.servicing ≡ false) where
  admin_off : servicing_admin env ≡ err (DeskError.session Error.feature_disabled)
  unfolding servicing_admin require_feature
  admin_off = ground (arith, off)

  actor_off : (s : Desk) → servicing_actor env s ≡ err (DeskError.session Error.feature_disabled)
  unfolding servicing_actor require_feature
  actor_off s = ground (arith, off)

  gate_off : require_feature env.features.servicing ≡ err Error.feature_disabled
  unfolding require_feature
  gate_off = ground (arith, off)

  -- What begins with the checks of either kind of user is refused.
  admin_refused :
      {A : Type 0} (rest : User → Result DeskError A) {a : A}
      → (servicing_admin env >>= rest) ≡ ok a
      → ⊥
  admin_refused rest h = cc (rw admin_off at h)

  actor_refused :
      {A : Type 0} (s : Desk) (rest : ServicingActor → Result DeskError A) {a : A}
      → (servicing_actor env s >>= rest) ≡ ok a
      → ⊥
  actor_refused s rest h = cc (rw (actor_off s) at h)

  won_lead_refused :
      (i : ℕ) (s : Desk) {a : User × SourceLead × Option Account}
      → won_lead_checked env i s ≡ ok a
      → ⊥
  unfolding won_lead_checked
  won_lead_refused i s h = ground (arith, admin_off)

  sweep_refused :
      (before : String → String → Bool) (ids : ℕ → ℕ) (options : CadenceOptions) (s : Desk)
      {a : CadenceReport × Desk}
      → sweep_checked before ids env options s ≡ ok a
      → ⊥
  unfolding sweep_checked
  sweep_refused before ids options s h = ground (arith, gate_off)

  -- With the servicing feature off, no request on the desk changes anything, whoever asks.
  pub gate_off_writes_nothing : (d : Demand) (s : Desk) → serve env d s ≡ s
  unfolding serve create_client_account create_account_checked create_client_account_from_won_lead
      confirm_client_launch confirm_checked complete_client_launch complete_checked
      open_client_service_case open_checked record_service_response response_checked
      resolve_client_service_case resolve_checked record_payment_resolved standing_checked
      transfer_client_service_to_house record_agent_continues_service retain_checked
      run_service_cadence_sweep
  gate_off_writes_nothing (Demand.create input) s =
      transact-keeps (λ t. t ≡ s) (create_account_checked env input s)
        (create_account_write env input) s refl (λ a e. absurd (admin_refused _ e))
  gate_off_writes_nothing (Demand.create_from_lead i code) s =
      transact-keeps (λ t. t ≡ s) (won_lead_checked env i s) (won_lead_write env code) s refl
        (λ a e. absurd (won_lead_refused i s e))
  gate_off_writes_nothing (Demand.confirm_launch i p note) s =
      transact-keeps (λ t. t ≡ s) (confirm_checked env i s) (confirm_write env i p note) s refl
        (λ a e. absurd (admin_refused _ e))
  gate_off_writes_nothing (Demand.complete_launch i note) s =
      transact-keeps (λ t. t ≡ s) (complete_checked env i s) (complete_write env note) s refl
        (λ a e. absurd (admin_refused _ e))
  gate_off_writes_nothing (Demand.open_case input) s =
      transact-keeps (λ t. t ≡ s) (open_checked env input s) (open_write env input) s refl
        (λ a e. absurd (actor_refused s _ e))
  gate_off_writes_nothing (Demand.respond i k note) s =
      transact-keeps (λ t. t ≡ s) (response_checked env i k s) (response_write env i k note) s refl
        (λ a e. absurd (actor_refused s _ e))
  gate_off_writes_nothing (Demand.resolve i k resolution) s =
      transact-keeps (λ t. t ≡ s) (resolve_checked env i k s) (resolve_write env i k resolution) s
        refl (λ a e. absurd (actor_refused s _ e))
  gate_off_writes_nothing (Demand.payment_resolved i note) s =
      transact-keeps (λ t. t ≡ s) (standing_checked env i s) (payment_write env i note) s refl
        (λ a e. absurd (admin_refused _ e))
  gate_off_writes_nothing (Demand.to_house i reason note) s =
      transact-keeps (λ t. t ≡ s) (standing_checked env i s) (house_write env i reason note) s refl
        (λ a e. absurd (admin_refused _ e))
  gate_off_writes_nothing (Demand.continue_service i note) s =
      transact-keeps (λ t. t ≡ s) (retain_checked env i s) (retain_write env i note) s refl
        (λ a e. absurd (admin_refused _ e))
  gate_off_writes_nothing (Demand.check_in before ids options) s =
      transact-keeps (λ t. t ≡ s) (sweep_checked before ids env options s) (λ done old. done) s refl
        (λ a e. absurd (sweep_refused before ids options s e))
