-- ===== src/Ghl/Lookup.antt =====
-- How the relays find a Lead and its next callback (src/lib/lead-appointment-attribution.ts and its
-- siblings).
use crm_mcd.Prelude.{
  ℕ, Bool, true, false, Option, none, some, List, ◌∷◌, String, Date, is_text, filled, first_where,
  filter, insertion_sort, ltb, update,
}
use crm_mcd.Lead.{
  Lifecycle, Lead, Callback, CallbackStatus, Crm, Env, Audit, Actor, Activity, ActivityType,
  Disposition,
}
use crm_mcd.Lead.Table.{newest, scheduled_with}

-- `given ? lookup(given) : otherwise`.
unfoldable pub choose : {A : Type 0} → Option A → (A → Option Lead) → Option Lead → Option Lead
choose none lookup otherwise = otherwise
choose (some a) lookup otherwise = lookup a

-- `findFirst({ where: { ghlContactId }, orderBy: { updatedAt: "desc" } })`, if there is a text.
unfoldable pub newest_with_contact : Option String → Crm → Option Lead
unfolding filled choose
newest_with_contact contact s =
    choose (filled contact) (λ text. newest (λ l. is_text l.ghl_contact_id text) s.leads) none

abbrev pub callback_key : Callback → ℕ
callback_key c = c.id

-- `findFirst({ where: { leadId, agentId, status: "SCHEDULED" }, orderBy: { dueAt: "asc" } })`.
unfoldable pub next_callback : ℕ → ℕ → Crm → Option Callback
next_callback lead_id agent_id s =
    first_where (λ c. true)
      (insertion_sort (λ c d. ltb c.due_at d.due_at)
        (filter (scheduled_with lead_id agent_id) s.callbacks))

-- The callbacks of the Lead's owner; an unowned Lead has none.
unfoldable pub owner_callback : Lead → Crm → Option Callback
unfolding next_callback
owner_callback lead s = elim lead.owner_agent_id [
  | none ↦ none
  | some agent_id ↦ next_callback lead.id agent_id s
]

-- `existingCallback.dueAt > now`.
abbrev pub due_later : Date → Option Callback → Bool
due_later now none = false
due_later now (some c) = ltb now c.due_at

-- `leadCallback.create` for the owner, due now, and `leadCallback.update` of the due time.
abbrev pub create_for_owner : Bool → Env → Lead → List Callback → List Callback
create_for_owner false env lead cs = cs
create_for_owner true env lead cs =
    record {
      id = env.fresh;
      lead_id = lead.id;
      agent_id = lead.owner_agent_id;
      due_at = env.now;
      status = CallbackStatus.scheduled;
      completed_at = none;
    }
    ∷ cs

abbrev pub set_due : Date → Callback → Callback
set_due now c = record c { due_at = now }

abbrev pub expedite : Bool → Date → Option Callback → List Callback → List Callback
expedite b now none cs = cs
expedite false now (some c) cs = cs
expedite true now (some c) cs = update callback_key c.id (set_due now) cs

abbrev pub is_closed_won : Lifecycle → Bool
is_closed_won Lifecycle.closed_won = true
is_closed_won _ = false

-- The audit row of a relay, which names no user.
abbrev pub relay_audit : String → Lead → Option String → Audit
relay_audit action lead reason = record {
  actor = Actor.anonymous;
  action_type = action;
  entity_id = lead.id;
  reason = reason;
}

abbrev pub owner_activity : Lead → ActivityType → Option Disposition → Activity
owner_activity lead type d = record {
  lead_id = lead.id;
  agent_id = lead.owner_agent_id;
  type = type;
  disposition = d;
}

-- A suppressed Lead is not changed: one audit row is all that is written.
abbrev pub ignore_event : String → String → Lead → Crm → Crm
ignore_event action reason lead s = record s {
  audits = relay_audit action lead (some reason) ∷ s.audits;
}
