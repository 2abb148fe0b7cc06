-- ===== src/Session.antt =====
-- Who acts: the session and its roles (src/lib/authz.ts), the feature gates (src/lib/features.ts),
-- the markers of controlled test Leads (src/lib/controlled-test-leads.ts), and the agent behind a
-- Lead action (`activeAgent` of src/lib/lead-workspace.ts).
use crm_mcd.Prelude.{
  ℕ, Bool, true, false, ◌||◌, Option, none, some, ◌∷◌, Result, ok, err, ◌>>=◌, ◌>>◌, require,
  or_throw, if◌then◌else◌, is_text, begins_with, mentions, ◌≡◌, arith,
}
use crm_mcd.Lead.{Role, UserStatus, User, Agent, Lead, Crm, Env, Error}
use crm_mcd.Lead.Table.{find_lead, find_agent}

-- `ADMIN_ROLES.includes(role)`.
abbrev pub is_admin_role : Role → Bool
is_admin_role Role.owner = true
is_admin_role Role.super_admin = true
is_admin_role Role.sales_manager = true
is_admin_role Role.compliance_manager = true
is_admin_role Role.finance_manager = true
is_admin_role _ = false

abbrev pub is_agent_role : Role → Bool
is_agent_role Role.agent = true
is_agent_role _ = false

abbrev is_active : UserStatus → Bool
is_active UserStatus.active = true
is_active _ = false

unfoldable pub require_feature : Bool → Result Error (Unit {0})
require_feature enabled = require enabled Error.feature_disabled

-- The session names a user that the table still has; both redirects end the request.
unfoldable pub require_user : Option User → Result Error User
require_user none = err Error.login_required
require_user (some user) = if is_active user.status then ok user else err Error.forbidden

unfoldable pub require_role : (Role → Bool) → Option User → Result Error User
unfolding require_user
require_role allowed session = do
  user ← require_user session
  require (allowed user.role) Error.forbidden
  ok user

-- `isControlledTestLead`, on a Lead and on a lookup that may have found none.
unfoldable pub is_controlled_test_lead : Lead → Bool
is_controlled_test_lead l =
    is_text l.source "MCD_CONTROLLED_TEST_DATA"
    || begins_with l.source_reference "mcd-controlled-test:"
    || is_text l.campaign_name "MCD Controlled Test Data"
    || is_text l.campaign_external_id "MCD_CONTROLLED_TEST_NO_GHL_EXPORT"
    || mentions l.source_detail
        "Controlled test Lead; GHL export blocked by default until a controlled harness explicitly allows it."

unfoldable pub is_controlled_test : Option Lead → Bool
is_controlled_test none = false
is_controlled_test (some l) = is_controlled_test_lead l

-- `if (!agent?.canClaimLeads) throw`.
unfoldable pub certified : Option Agent → Result Error Agent
certified none = err Error.lead_access_pending
certified (some a) = if a.can_claim_leads then ok a else err Error.lead_access_pending

-- The agent row that is created for an admin who has none.
unfoldable pub operator_for : Env → User → Agent
operator_for env user = record {
  id = env.fresh;
  user_id = user.id;
  personal_email = user.email;
  can_claim_leads = true;
}

unfoldable pub provisioned : Env → User → Crm → Option Agent → User × Agent × Crm
unfolding operator_for
provisioned env user s none =
    (user, operator_for env user, record s { agents = operator_for env user ∷ s.agents })
provisioned env user s (some agent) = (user, agent, s)

-- The checks on an admin's target: it is named, it is there, and it is marked as test data.
unfoldable pub admin_target : Option ℕ → Crm → Result Error Lead
unfolding is_controlled_test_lead
admin_target lead_id s = do
  id ← or_throw lead_id Error.admins_need_lead_id
  lead ← or_throw (find_lead id s.leads) Error.test_lead_not_found
  require (is_controlled_test_lead lead) Error.not_controlled_test
  ok lead

unfoldable pub seat_for : Env → Option ℕ → User → Crm → Result Error (User × Agent × Crm)
unfolding certified admin_target provisioned
seat_for env lead_id user s =
    if is_agent_role user.role
    then (do agent ← certified (find_agent user.id s.agents); ok (user, agent, s))
    else (do
      target ← admin_target lead_id s
      ok (provisioned env user s (find_agent user.id s.agents)))

-- `activeAgent`: certified agents on any Lead, admins on controlled test Leads only.
unfoldable pub active_agent : Env → Option ℕ → Crm → Result Error (User × Agent × Crm)
unfolding require_feature require_role seat_for
active_agent env lead_id s = do
  require_feature env.features.leads
  user ← require_role (λ r. is_agent_role r || is_admin_role r) env.session
  seat_for env lead_id user s

-- `activeAgent` writes nothing but an agent row.
pub active_agent_writes :
    (env : Env) (lead_id : Option ℕ) (s : Crm) {user : User} {agent : Agent} {s' : Crm}
    → active_agent env lead_id s ≡ ok (user, agent, s')
    → (s'.leads ≡ s.leads) × (s'.callbacks ≡ s.callbacks)
unfolding active_agent
active_agent_writes env lead_id s h = ground arith

-- An admin that gets through acts on a Lead that is marked as controlled test data.
pub active_agent_admin :
    (env : Env) (i : ℕ) (s : Crm) {user : User} {agent : Agent} {s' : Crm} {l : Lead}
    → active_agent env (some i) s ≡ ok (user, agent, s')
    → find_lead i s.leads ≡ some l
    → is_admin_role user.role ≡ true
    → is_controlled_test_lead l ≡ true
unfolding active_agent
active_agent_admin env i s h found admin = ground arith
