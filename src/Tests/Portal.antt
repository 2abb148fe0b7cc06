-- ===== src/Tests/Portal.antt =====
-- The theorem on the portal's own routes at a concrete agent, and a run of a callback on a blocked Lead.
use crm_mcd.Prelude.{◌≡◌, refl, true, some, [], ◌∷◌, find, update, ap, sym, get_or, arith, ◌∙◌, ◌≢◌}
use crm_mcd.Lead.{Lead, Crm, Lifecycle, Agent}
use crm_mcd.Lead.Table.{find_lead, find_agent}
use crm_mcd.PortalRoutes.{PortalAction, id_of}
use crm_mcd.PortalRoutes.Owned.{PortalRequest, portal, agent_leaves_leads}
use crm_mcd.Tests.Data.{closer, seat, warm_lead, cold_lead, office, by_closer}

-- The closer owns Lead 3, a rival Lead 4, and Lead 3 is blocked.
abbrev rivals_lead : Lead
rivals_lead = record cold_lead { owner_agent_id = some 71 }

abbrev blocked_lead : Lead
blocked_lead = record warm_lead {
  owner_agent_id = some 70;
  lifecycle = Lifecycle.suppressed;
  dnc = true;
  suppressed = true;
}

abbrev two_desks : Crm
two_desks = record office { leads = blocked_lead ∷ rivals_lead ∷ [] }

abbrev ask_callback : PortalRequest
ask_callback = PortalRequest.act 3 (PortalAction.callback (some 500)) (some "Call again.")

abbrev called_again : Lead
called_again = record blocked_lead {
  next_action_at = some 500;
  last_action_at = some 100;
  updated_at = 100;
}

blocked_lead-called :
    find_lead 3 (portal by_closer ask_callback two_desks).leads ≡ some called_again
unfolding portal find update
blocked_lead-called = refl

rivals_lead_found : find_lead 4 two_desks.leads ≡ some rivals_lead
unfolding find
rivals_lead_found = refl

rivals_lead_foreign :
    (a : Agent)
    → find_agent closer.id two_desks.agents ≡ some a
    → rivals_lead.owner_agent_id ≢ some a.id
unfolding find
rivals_lead_foreign a seated same =
    let me : some seat ≡ some a = seated in
    let mine : some 70 ≡ some a.id = ap id_of me in
    let both : 70 ≡ 71 = ap (λ o. get_or o 0) (mine ∙ sym same) in omega (arith, both)

agent_leaves_leads_example :
    find_lead 4 (portal by_closer ask_callback two_desks).leads ≡ some rivals_lead
agent_leaves_leads_example =
    agent_leaves_leads by_closer closer ask_callback 4 rivals_lead two_desks refl refl
      rivals_lead_found rivals_lead_foreign
