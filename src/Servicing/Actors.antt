-- ===== src/Servicing/Actors.antt =====
-- Who may act on an account or a case: `servicingActor` and `accountAccess`
-- (src/lib/client-servicing-actions.ts), `actorContext`, `accountForActor` and `serviceCaseForActor`
-- (src/lib/client-servicing-resolution.ts).
use crm_mcd.Prelude.{
  ℕ, Bool, true, false, ◌&&◌, ◌||◌, not, Option, none, some, ◌==◌, Result, ok, err, ◌>>=◌, ◌>>◌,
  require, refuse_if, or_throw, find, if◌then◌else◌,
}
use crm_mcd.Lead.{User, Agent, Env, Error}
use crm_mcd.Lead.Table.{find_agent}
use crm_mcd.Session.{require_feature, require_role, is_admin_role, is_agent_role}
use crm_mcd.Servicing.{Desk, DeskError, Account, ServiceCase, account_key, case_key, is_open}

-- What a gate throws, as an error of the desk.
abbrev pub at_gate : {A : Type 0} → Result Error A → Result DeskError A
at_gate (ok a) = ok a
at_gate (err e) = err (DeskError.session e)

pub record ServicingActor : Type 0 where
  pub user : User
  pub is_admin : Bool
  pub agent : Option Agent

unfoldable pub actor_for : User → Desk → Result DeskError ServicingActor
actor_for user s =
    if is_admin_role user.role
    then ok (record { user = user; is_admin = true; agent = none })
    else (do
      agent ← or_throw (find_agent user.id s.agents) DeskError.agent_record_required
      ok (record { user = user; is_admin = false; agent = some agent }))

unfoldable pub servicing_actor : Env → Desk → Result DeskError ServicingActor
unfolding require_feature require_role actor_for
servicing_actor env s = do
  at_gate (require_feature env.features.servicing)
  user ← at_gate (require_role (λ r. is_agent_role r || is_admin_role r) env.session)
  actor_for user s

-- `requireFeature("servicing")` and `requireRole(ADMIN_ROLES)`.
unfoldable pub servicing_admin : Env → Result DeskError User
unfolding require_feature require_role
servicing_admin env = do
  at_gate (require_feature env.features.servicing)
  at_gate (require_role is_admin_role env.session)

-- `owner === actor.agent?.id`, where a missing owner is null and a missing agent undefined.
abbrev pub is_of : Option ℕ → Option Agent → Bool
is_of none agent = false
is_of (some i) none = false
is_of (some i) (some agent) = i == agent.id

unfoldable pub account_access : ℕ → ServicingActor → Desk → Result DeskError Account
account_access account_id actor s = do
  account ← or_throw (find account_key account_id s.accounts) DeskError.account_not_found
  refuse_if (not actor.is_admin && not (is_of account.account_owner_agent_id actor.agent))
      DeskError.account_not_yours
  ok account

unfoldable pub case_for_actor : ℕ → ℕ → ServicingActor → Desk → Result DeskError ServiceCase
case_for_actor case_id account_id actor s = do
  service_case ← or_throw (find case_key case_id s.cases) DeskError.case_not_of_account
  require (service_case.client_account_id == account_id) DeskError.case_not_of_account
  refuse_if (not actor.is_admin && not (is_of service_case.assigned_agent_id actor.agent))
      DeskError.case_not_yours
  require (is_open service_case.status) DeskError.case_closed
  ok service_case

-- `actor.isAdmin ? choice : actor.agent!.id`.
abbrev pub own_id : Option Agent → Option ℕ
own_id none = none
own_id (some agent) = some agent.id

abbrev pub acting_agent : ServicingActor → Option ℕ → Option ℕ
acting_agent actor choice = if actor.is_admin then choice else own_id actor.agent
