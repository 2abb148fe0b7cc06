-- ===== src/PortalRoutes/Blocked.antt =====
-- The portal's own routes and the blocks on a Lead (src/app/api/portal/actions/route.ts,
-- src/app/api/portal/release/route.ts).
use crm_mcd.Prelude.{
  ℕ, ◌≡◌, ◌<◌, refl, ◌∙◌, ◌⊎◌, true, Option, some, List, [], ◌∷◌, String, Date, ok, arith, find,
  update, any, subst, ◌==◌, ==_refl, Bool-cases, inl, inr, find-key, find-update_self, find-own_key,
}
use crm_mcd.Lead.{Lead, Crm, Env, User, Agent}
use crm_mcd.Lead.Table.{lead_key, find_lead, scheduled_on}
use crm_mcd.PortalRoutes.{
  PortalAction, portal_access, portal_note, later_date, called_back, callback_write, act_on,
  portal_action,
}
use crm_mcd.PortalRoutes.Owned.{PortalRequest, portal, portal-Wrote, access-facts}

unfoldable pub portal_all : List (Env × PortalRequest) → Crm → Crm
unfolding portal
portal_all [] s = s
portal_all ((env, r) ∷ rest) s = portal_all rest (portal env r s)

-- A row after a write to the table: as it was, or as the write makes it.
find-update_either :
    (i j : ℕ) (f : Lead → Lead) (ls : List Lead) {l : Lead}
    → find lead_key i ls ≡ some l
    → ((m : Lead) → (f m).id ≡ m.id)
    → (find lead_key i (update lead_key j f ls) ≡ some l)
      ⊎ (find lead_key i (update lead_key j f ls) ≡ some (f l))
unfolding find update
find-update_either i j f [] found same = cc
find-update_either i j f (x ∷ rest) {l} found same = elim (Bool-cases (x.id == i)) [
  | inl hit ↦ elim (Bool-cases (x.id == j)) [
    | inl w ↦ inr (ground (arith, same x))
    | inr w ↦ inl (ground arith)
  ]
  | inr miss ↦ elim (find-update_either i j f rest {l = l} (rw miss at found) same) [
    | inl e ↦ inl (ground (arith, same x, e))
    | inr e ↦ inr (ground (arith, same x, e))
  ]
]

-- A Lead with the blocks of another.
pub record BlockedAs (l m : Lead) : Type 0 where
  pub dnc : m.dnc ≡ l.dnc
  pub suppressed : m.suppressed ≡ l.suppressed

portal-BlockedAs :
    (env : Env) (r : PortalRequest) (i : ℕ) (l : Lead) (s : Crm)
    → find_lead i s.leads ≡ some l
    → (m : Lead) × (find_lead i (portal env r s).leads ≡ some m) × BlockedAs l m
portal-BlockedAs env r i l s found = elim (portal-Wrote env r s) [
  | inl same ↦ rw same (l, found, record { dnc = refl; suppressed = refl })
  | inr w ↦
      elim (find-update_either i w.lead.id w.touch s.leads found (λ m. (w.gentle m).same_id)) [
        | inl e ↦ rw w.rows (l, e, record { dnc = refl; suppressed = refl })
        | inr e ↦
            let g = w.gentle l in
            rw w.rows (w.touch l, e, record { dnc = g.dnc; suppressed = g.suppressed })
      ]
]

-- Through any requests to the portal's own routes, by anyone, no Lead gets or loses the marks DNC and suppressed.
pub portal_all-BlockedAs :
    (rs : List (Env × PortalRequest)) (i : ℕ) (l : Lead) (s : Crm)
    → find_lead i s.leads ≡ some l
    → (m : Lead) × (find_lead i (portal_all rs s).leads ≡ some m) × BlockedAs l m
unfolding portal_all
portal_all-BlockedAs [] i l s found = (l, found, record { dnc = refl; suppressed = refl })
portal_all-BlockedAs ((env, r) ∷ rest) i l s found =
    let (m, there, first) = portal-BlockedAs env r i l s found in
    let (k, here, then_on) = portal_all-BlockedAs rest i m (portal env r s) there in
    (
      k,
      here,
      record { dnc = then_on.dnc ∙ first.dnc; suppressed = then_on.suppressed ∙ first.suppressed },
    )

callback_commits :
    (env : Env) (i : ℕ) (due : Date) (text : Option String) (body : String) (s : Crm)
    {found : User × Option Agent × Lead}
    → portal_access env i s ≡ ok found
    → portal_note text ≡ ok body
    → later_date env.now (some due) ≡ ok due
    → portal_action env i (PortalAction.callback (some due)) text s
      ≡ (ok tt, callback_write env found due body s)
unfolding portal_action act_on callback_write
callback_commits env i due text body s access note later = rw (access, note, later) refl

-- A callback that the portal's own route is asked for on a blocked Lead is scheduled all the same: by whoever may
-- write the Lead, with a note and a time to come, the request goes through, the Lead is still blocked, its next action
-- is at that time, and a callback is scheduled on it.
pub callback_on_blocked :
    (env : Env) (i : ℕ) (due : Date) (text : Option String) (body : String) (s : Crm) (actor : User)
    (agent : Option Agent) (l : Lead)
    → portal_access env i s ≡ ok (actor, agent, l)
    → l.dnc ≡ true
    → portal_note text ≡ ok body
    → env.now < due
    → ((portal_action env i (PortalAction.callback (some due)) text s).0 ≡ ok tt)
      × (m : Lead) × (find_lead i
            (portal_action env i (PortalAction.callback (some due)) text s).1.leads
          ≡ some m)
      × (m.dnc ≡ true)
      × (m.next_action_at ≡ some due)
      × (any
            (scheduled_on i)
            (portal_action env i (PortalAction.callback (some due)) text s).1.callbacks
          ≡ true)
unfolding callback_write
callback_on_blocked env i due text body s actor agent l access blocked note later =
    let (found, session, seat, allowed) = access-facts env i s access in
    let this : l.id ≡ i = find-key lead_key i s.leads found in
    let row =
      find-update_self lead_key l.id (called_back env.now due) s.leads (λ x. refl)
        (find-own_key lead_key i s.leads l found) in
    rw (callback_commits env i due text body s access note (ground (arith, later))) (
      refl,
      called_back env.now due l,
      subst
          (λ k.
            find_lead k (callback_write env (actor, agent, l) due body s).leads
            ≡ some (called_back env.now due l))
          this row,
      blocked,
      refl,
      ground (arith, this, ==_refl i),
    )
