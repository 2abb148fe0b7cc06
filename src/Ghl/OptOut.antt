-- ===== src/Ghl/OptOut.antt =====
-- `relayGhlOptOut` (src/lib/lead-opt-out-relay.ts), with the normal forms of its own.
use crm_mcd.Prelude.{
  ℕ, Bool, true, false, not, ◌&&◌, Option, none, some, ◌∷◌, String, Date, get_or, or_else, is_text,
  filled, trim, trimmed, unless_empty, update_where, if◌then◌else◌,
}
use crm_mcd.Lead.{
  Lifecycle, SuppressionType, ActivityType, CallbackStatus, Lead, Callback, Crm, Env,
}
use crm_mcd.Lead.Table.{update_lead, newest, scheduled_on}
use crm_mcd.Normalization.{digits}
use crm_mcd.Ghl.Lookup.{choose, newest_with_contact, relay_audit}

pub record OptOutInput : Type 0 where
  pub ghl_event_id : String
  pub ghl_contact_id : Option String
  pub phone : Option String
  pub email : Option String
  pub reason : Option String

pub data OptOutResult : Type 0 where
  gated unmatched : OptOutResult
  matched : Bool → OptOutResult

abbrev pub with_plus : Option String → Option String
with_plus none = none
with_plus (some s) = some (String.◌∷◌ "+" s)

-- `normalizePhone` of this file: a plus sign before the digits.
unfoldable pub optout_phone : Option String → Option String
unfolding digits unless_empty
optout_phone none = none
optout_phone (some value) = with_plus (unless_empty (digits value))

abbrev pub optout_touch : Date → Lead → Lead
optout_touch now l = record l {
  lifecycle = Lifecycle.suppressed;
  dnc = true;
  suppressed = true;
  owner_agent_id = none;
  next_action_at = none;
  last_action_at = some now;
  updated_at = now;
}

abbrev pub cancel_at : Date → Callback → Callback
cancel_at now c = record c { status = CallbackStatus.cancelled; completed_at = some now }

-- The lookup by phone, if there is a number.
unfoldable pub optout_by_phone : Option String → Crm → Option Lead
unfolding optout_phone choose
optout_by_phone phone s =
    choose (optout_phone phone) (λ number. newest (λ l. is_text l.normalized_phone number) s.leads)
      none

-- `lead.normalizedPhone || lead.email || lead.ghlContactId || lead.id`; `id_text` prints an id.
abbrev pub optout_identifier : (ℕ → String) → Lead → String
optout_identifier id_text lead =
    get_or
      (or_else (filled lead.normalized_phone)
        (or_else (filled lead.email) (filled lead.ghl_contact_id)))
      (id_text lead.id)

unfoldable pub optout_write : (ℕ → String) → Env → OptOutInput → Lead → Crm → Crm
optout_write id_text env input lead s =
    let reason = get_or (trimmed input.reason) "Inbound GHL opt-out." in
    record s {
      leads = update_lead lead.id (optout_touch env.now) s.leads;
      callbacks = update_where (scheduled_on lead.id) (cancel_at env.now) s.callbacks;
      suppressions =
          record {
            lead_id = some lead.id;
            identifier = optout_identifier id_text lead;
            type = SuppressionType.opt_out;
            reason = some reason;
            active = true;
          }
          ∷ s.suppressions;
      activities =
          record {
            lead_id = lead.id;
            agent_id = none;
            type = ActivityType.dnc_requested;
            disposition = none;
          }
          ∷ s.activities;
      audits = relay_audit "LEAD_SUPPRESSED_FROM_GHL_OPT_OUT" lead (some reason) ∷ s.audits;
    }

module _ (to_lower : String → String) (id_text : ℕ → String) where
  -- `normalizeEmail` of this file.
  unfoldable pub optout_email : Option String → Option String
  unfolding unless_empty trim
  optout_email none = none
  optout_email (some value) = unless_empty (to_lower (trim value))

  unfoldable pub optout_by_email : Option String → Crm → Option Lead
  unfolding optout_email choose
  optout_by_email email s =
      choose (optout_email email) (λ text. newest (λ l. is_text l.email text) s.leads) none

  -- One route decides: a contact id, else a phone number, else an email address.
  unfoldable pub optout_lead : OptOutInput → Crm → Option Lead
  unfolding choose newest_with_contact filled optout_phone optout_by_phone optout_by_email
  optout_lead input s =
      choose (filled input.ghl_contact_id) (λ text. newest_with_contact input.ghl_contact_id s)
        (choose (optout_phone input.phone) (λ number. optout_by_phone input.phone s)
          (optout_by_email input.email s))

  unfoldable pub optout_to : Env → OptOutInput → Lead → Crm → OptOutResult × Crm
  unfolding optout_write
  optout_to env input lead s =
      if lead.dnc && lead.suppressed
      then (OptOutResult.matched true, s)
      else (OptOutResult.matched false, optout_write id_text env input lead s)

  unfoldable pub relay_ghl_opt_out : Env → OptOutInput → Crm → OptOutResult × Crm
  unfolding optout_lead optout_to
  relay_ghl_opt_out env input s =
      if not env.features.leads then (OptOutResult.gated, s) else elim (optout_lead input s) [
        | none ↦ (OptOutResult.unmatched, s)
        | some lead ↦ optout_to env input lead s
      ]
