-- ===== src/Ghl/Opportunity.antt =====
-- `attributeOpportunityToLead` (src/lib/lead-opportunity-attribution.ts).
use crm_mcd.Prelude.{
  ℕ, Bool, true, false, not, ◌&&◌, ◌||◌, Option, none, some, List, ◌∷◌, String, Date, or_else,
  filled, is_text, count_where, update_where, if◌then◌else◌,
}
use crm_mcd.Lead.{Lifecycle, ActivityType, Lead, Callback, Crm, Env}
use crm_mcd.Lead.Table.{find_lead, update_lead, newest, scheduled_on, cancel}
use crm_mcd.Ghl.Lookup.{
  choose, newest_with_contact, is_closed_won, relay_audit, owner_activity, ignore_event,
}

pub data OpportunityEvent : Type 0 where
  opportunity_won opportunity_lost : OpportunityEvent

pub record OpportunityInput : Type 0 where
  pub event_type : OpportunityEvent
  pub ghl_event_id : String
  pub ghl_opportunity_id : String
  pub ghl_contact_id : Option String
  pub mini_crm_lead_id : Option ℕ

pub record OpportunityResult : Type 0 where
  pub matched : Bool
  pub gated : Bool
  pub ignored : Bool
  pub preserved_closed_won : Bool
  pub callbacks_cancelled : ℕ
  pub lifecycle : Option Lifecycle

abbrev pub is_won : OpportunityEvent → Bool
is_won OpportunityEvent.opportunity_won = true
is_won OpportunityEvent.opportunity_lost = false

-- An id of this CRM decides alone, then an opportunity id, then the contact.
unfoldable pub opportunity_lead : OpportunityInput → Crm → Option Lead
unfolding choose newest_with_contact filled
opportunity_lead input s =
    choose input.mini_crm_lead_id (λ i. find_lead i s.leads)
      (choose (filled (some input.ghl_opportunity_id))
        (λ text. newest (λ l. is_text l.ghl_opportunity_id text) s.leads)
        (newest_with_contact input.ghl_contact_id s))

abbrev pub preserves_won : OpportunityEvent → Lead → Bool
preserves_won e lead = not (is_won e) && is_closed_won lead.lifecycle

abbrev pub opportunity_lifecycle : OpportunityEvent → Lead → Lifecycle
opportunity_lifecycle e lead =
    if is_won e
    then Lifecycle.closed_won
    else if preserves_won e lead
    then lead.lifecycle
    else Lifecycle.closed_lost

-- `won || !preserveWon`.
abbrev pub closes : OpportunityEvent → Lead → Bool
closes e lead = is_won e || not (preserves_won e lead)

abbrev pub opportunity_touch : Date → OpportunityInput → Lead → Lead → Lead
opportunity_touch now input lead l = record l {
  lifecycle = opportunity_lifecycle input.event_type lead;
  ghl_contact_id = or_else input.ghl_contact_id lead.ghl_contact_id;
  ghl_opportunity_id = some input.ghl_opportunity_id;
  last_action_at = some now;
  next_action_at = if closes input.event_type lead then none else lead.next_action_at;
  updated_at = now;
}

abbrev pub close_callbacks : Bool → ℕ → List Callback → List Callback
close_callbacks true i cs = update_where (scheduled_on i) cancel cs
close_callbacks false i cs = cs

abbrev pub opportunity_reason : OpportunityEvent → Lead → Option String
opportunity_reason e lead =
    if preserves_won e lead
    then some
        "Ignored lifecycle rollback from a later GHL lost event because the Lead was already Closed Won."
    else none

unfoldable pub opportunity_write : Env → OpportunityInput → Lead → Crm → Crm
opportunity_write env input lead s =
    let e = input.event_type in
    let action : String =
      if preserves_won e lead
      then "GHL_OPPORTUNITY_LOST_PRESERVED"
      else "GHL_OPPORTUNITY_ATTRIBUTED" in
    record s {
      leads = update_lead lead.id (opportunity_touch env.now input lead) s.leads;
      callbacks = close_callbacks (closes e lead) lead.id s.callbacks;
      activities = owner_activity lead ActivityType.disposition_set none ∷ s.activities;
      audits = relay_audit action lead (opportunity_reason e lead) ∷ s.audits;
    }

abbrev pub no_opportunity : Bool → Bool → Bool → OpportunityResult
no_opportunity matched gated ignored = record {
  matched = matched;
  gated = gated;
  ignored = ignored;
  preserved_closed_won = false;
  callbacks_cancelled = 0;
  lifecycle = none;
}

unfoldable pub opportunity_to : Env → OpportunityInput → Lead → Crm → OpportunityResult × Crm
unfolding opportunity_write
opportunity_to env input lead s =
    let e = input.event_type in
    if lead.dnc || lead.suppressed
    then (
      no_opportunity true false true,
      ignore_event "GHL_OPPORTUNITY_IGNORED"
          "Suppressed Lead was not changed by a GHL opportunity event." lead s,
    )
    else (
      record {
        matched = true;
        gated = false;
        ignored = false;
        preserved_closed_won = preserves_won e lead;
        callbacks_cancelled =
            if closes e lead then count_where (scheduled_on lead.id) s.callbacks else 0;
        lifecycle = some (opportunity_lifecycle e lead);
      },
      opportunity_write env input lead s,
    )

unfoldable pub attribute_opportunity_to_lead :
    Env → OpportunityInput → Crm → OpportunityResult × Crm
unfolding opportunity_lead opportunity_to
attribute_opportunity_to_lead env input s =
    if not env.features.leads
    then (no_opportunity false true false, s)
    else elim (opportunity_lead input s) [
      | none ↦ (no_opportunity false false false, s)
      | some lead ↦ opportunity_to env input lead s
    ]
