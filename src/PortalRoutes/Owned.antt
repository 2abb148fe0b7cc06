-- ===== src/PortalRoutes/Owned.antt =====
-- Whose Leads the portal's routes write (src/app/api/portal/actions/route.ts, src/app/api/portal/release/route.ts).
use crm_mcd.Prelude.{
  Option-cases, ℕ, ◌>>=◌, >>=-eq-ok, none, subst, ◌⊎◌, ◌≡◌, ◌≢◌, ◌||◌, refl, sym, ◌∙◌, ap, true,
  false, Option, some, String, ok, err, arith, find-own_key, find-update_ne, ne_of_rows, Result,
  inl, inr,
}
use crm_mcd.Lead.{Lead, Crm, Env, User, Agent}
use crm_mcd.Lead.Table.{lead_key, find_lead, update_lead, find_agent}
use crm_mcd.Session.{is_admin_role, require_role, require_user}
use crm_mcd.PortalRoutes.{
  PortalAction, PortalError, commit, acted, called_back, disposed, let_go, owns, portal_access,
  act_on, portal_action, let_go_of, portal_release,
}

pub data PortalRequest : Type 0 where
  act : ℕ → PortalAction → Option String → PortalRequest
  release : ℕ → Option String → PortalRequest

unfoldable pub portal : Env → PortalRequest → Crm → Crm
unfolding portal_action portal_release
portal env (PortalRequest.act i action text) s = (portal_action env i action text s).1
portal env (PortalRequest.release i reason) s = (portal_release env i reason s).1

-- A change that keeps the id of a Lead and its blocks.
pub record IsGentle (l m : Lead) : Type 0 where
  pub same_id : m.id ≡ l.id
  pub dnc : m.dnc ≡ l.dnc
  pub suppressed : m.suppressed ≡ l.suppressed

act_on-rows :
    (env : Env) (action : PortalAction) (text : Option String) (actor : User) (agent : Option Agent)
    (lead : Lead) (s : Crm) {t : Crm}
    → act_on env action text (actor, agent, lead) s ≡ ok t
    → (touch : Lead → Lead) × ((l : Lead) → IsGentle l (touch l))
      × (t.leads ≡ update_lead lead.id touch s.leads)
unfolding act_on
act_on-rows env PortalAction.call text actor agent lead s h =
    (acted env.now, λ l. record { same_id = refl; dnc = refl; suppressed = refl }, ground arith)
act_on-rows env PortalAction.note text actor agent lead s h =
    (acted env.now, λ l. record { same_id = refl; dnc = refl; suppressed = refl }, ground arith)
act_on-rows env (PortalAction.callback none) text actor agent lead s h = absurd (ground arith)
act_on-rows env (PortalAction.callback (some due)) text actor agent lead s h = (
  called_back env.now due,
  λ l. record { same_id = refl; dnc = refl; suppressed = refl },
  ground arith,
)
act_on-rows env (PortalAction.disposition none) text actor agent lead s h = absurd (ground arith)
act_on-rows env (PortalAction.disposition (some d)) text actor agent lead s h = (
  disposed env.now d lead,
  λ l. record { same_id = refl; dnc = refl; suppressed = refl },
  ground arith,
)

let_go_of-rows :
    (env : Env) (reason : Option String) (actor : User) (agent : Option Agent) (lead : Lead)
    (s : Crm) {t : Crm}
    → let_go_of env reason (actor, agent, lead) s ≡ ok t
    → (t.leads ≡ update_lead lead.id (let_go env.now) s.leads) × (t.callbacks ≡ s.callbacks)
unfolding let_go_of
let_go_of-rows env reason actor agent lead s h = (ground arith, ground arith)

pub access-facts :
    (env : Env) (i : ℕ) (s : Crm) {actor : User} {agent : Option Agent} {lead : Lead}
    → portal_access env i s ≡ ok (actor, agent, lead)
    → (find_lead i s.leads ≡ some lead)
      × (env.session ≡ some actor)
      × (agent ≡ find_agent actor.id s.agents)
      × ((is_admin_role actor.role || owns agent lead) ≡ true)
unfolding portal_access require_role require_user
access-facts env i s h = (ground arith, ground arith, ground arith, ground arith)

-- What a request of the portal has written, if anything: one Lead that its user may write, gently.
pub record Wrote (env : Env) (s t : Crm) : Type 0 where
  pub actor : User
  pub lead : Lead
  pub touch : Lead → Lead
  pub in_session : env.session ≡ some actor
  pub read : find_lead lead.id s.leads ≡ some lead
  pub allowed : (is_admin_role actor.role || owns (find_agent actor.id s.agents) lead) ≡ true
  pub gentle : (l : Lead) → IsGentle l (touch l)
  pub rows : t.leads ≡ update_lead lead.id touch s.leads

wrote :
    (env : Env) (i : ℕ) (s t : Crm) (actor : User) (agent : Option Agent) (lead : Lead)
    (touch : Lead → Lead)
    → portal_access env i s ≡ ok (actor, agent, lead)
    → ((l : Lead) → IsGentle l (touch l))
    → t.leads ≡ update_lead lead.id touch s.leads
    → Wrote env s t
wrote env i s t actor agent lead touch access gentle rows =
    let (found, session, seat, allowed) = access-facts env i s access in
    record {
      actor = actor;
      lead = lead;
      touch = touch;
      in_session = session;
      read = find-own_key lead_key i s.leads lead found;
      allowed = rw (← seat) allowed;
      gentle = gentle;
      rows = rows;
    }

pub commit-cases :
    (m : Result PortalError Crm) (s : Crm)
    → ((t : Crm) × (m ≡ ok t) × ((commit m s).1 ≡ t)) ⊎ ((commit m s).1 ≡ s)
commit-cases (ok t) s = inl (t, refl, refl)
commit-cases (err e) s = inr refl

action-Wrote :
    (env : Env) (i : ℕ) (action : PortalAction) (text : Option String) (s : Crm)
    → (portal env (PortalRequest.act i action text) s ≡ s)
      ⊎ Wrote env s (portal env (PortalRequest.act i action text) s)
unfolding portal portal_action
action-Wrote env i action text s =
    let go : User × Option Agent × Lead → Result PortalError Crm =
      λ found. act_on env action text found s in
    elim (commit-cases (portal_access env i s >>= go) s) [
      | inl (t, e, to) ↦
          let (found, body, access) = >>=-eq-ok (portal_access env i s) go {end = t} e in
          let (touch, gentle, rows) =
            act_on-rows env action text found.0 found.1 found.2 s {t = t} body in
          inr (
            wrote env i s _ found.0 found.1 found.2 touch access gentle
              (ap (λ (x : Crm). x.leads) to ∙ rows))
      | inr same ↦ inl same
    ]

release-Wrote :
    (env : Env) (i : ℕ) (reason : Option String) (s : Crm)
    → (portal env (PortalRequest.release i reason) s ≡ s)
      ⊎ Wrote env s (portal env (PortalRequest.release i reason) s)
unfolding portal portal_release
release-Wrote env i reason s =
    let go : User × Option Agent × Lead → Result PortalError Crm =
      λ found. let_go_of env reason found s in
    elim (commit-cases (portal_access env i s >>= go) s) [
      | inl (t, e, to) ↦
          let (found, body, access) = >>=-eq-ok (portal_access env i s) go {end = t} e in
          let rows = let_go_of-rows env reason found.0 found.1 found.2 s {t = t} body in
          inr (
            wrote env i s _ found.0 found.1 found.2 (let_go env.now) access
              (λ l. record { same_id = refl; dnc = refl; suppressed = refl })
              (ap (λ (x : Crm). x.leads) to ∙ rows.0))
      | inr same ↦ inl same
    ]

pub portal-Wrote :
    (env : Env) (r : PortalRequest) (s : Crm) → (portal env r s ≡ s) ⊎ Wrote env s (portal env r s)
portal-Wrote env (PortalRequest.act i action text) s = action-Wrote env i action text s
portal-Wrote env (PortalRequest.release i reason) s = release-Wrote env i reason s

owner_of :
    (agent : Option Agent) (m : Lead)
    → owns agent m ≡ true
    → (a : Agent) × (agent ≡ some a) × (m.owner_agent_id ≡ some a.id)
owner_of none m h = cc
owner_of (some a) m h = elim (Option-cases m.owner_agent_id) [
  | inl nobody ↦ cc (rw nobody at h)
  | inr (k, e) ↦ (a, refl, e ∙ ap (λ (n : ℕ). some n) (ground (arith, rw e at h)))
]

own_lead :
    (user : User) (lead : Lead) (s : Crm)
    → is_admin_role user.role ≡ false
    → (is_admin_role user.role || owns (find_agent user.id s.agents) lead) ≡ true
    → owns (find_agent user.id s.agents) lead ≡ true
own_lead user lead s no_admin allowed = rw no_admin at allowed

-- Any request to the portal's own routes, an action of whichever kind or a release, of a user who is no administrator
-- leaves each Lead that the user's agent does not own as it is.
pub agent_leaves_leads :
    (env : Env) (user : User) (r : PortalRequest) (j : ℕ) (l : Lead) (s : Crm)
    → env.session ≡ some user
    → is_admin_role user.role ≡ false
    → find_lead j s.leads ≡ some l
    → ((a : Agent) → find_agent user.id s.agents ≡ some a → l.owner_agent_id ≢ some a.id)
    → find_lead j (portal env r s).leads ≡ some l
agent_leaves_leads env user r j l s session no_admin found foreign = elim (portal-Wrote env r s) [
  | inl same ↦ rw same found
  | inr w ↦
      let me : w.actor ≡ user = cc (sym w.in_session ∙ session) in
      let allowed = w.allowed in
      let mine : owns (find_agent user.id s.agents) w.lead ≡ true =
        own_lead user w.lead s no_admin (
          subst (λ u. (is_admin_role u.role || owns (find_agent u.id s.agents) w.lead) ≡ true) me
            allowed) in
      let (a, seat, owner) = owner_of (find_agent user.id s.agents) w.lead mine in
      let ne =
        ne_of_rows lead_key j w.lead.id l w.lead s.leads
          (λ same. foreign a seat (ap (λ (x : Lead). x.owner_agent_id) same ∙ owner)) found
          w.read in
      rw w.rows
        (find-update_ne lead_key j w.lead.id w.touch s.leads (λ x. (w.gentle x).same_id) ne ∙ found)
]
