-- ===== src/Ghl/Reply.antt =====
-- `attributeInboundReplyToLead` (src/lib/lead-inbound-reply-attribution.ts).
use crm_mcd.Prelude.{
  ℕ, Bool, true, false, not, ◌&&◌, ◌||◌, Option, none, some, ◌∷◌, String, Date, is_some, is_none,
  get_or, or_else, is_text, if◌then◌else◌,
}
use Prim.Native.String.{◌++◌}
use crm_mcd.Lead.{Lifecycle, ActivityType, Lead, Callback, Crm, Env, Note}
use crm_mcd.Lead.Table.{find_lead, update_lead, newest}
use crm_mcd.Normalization.{normalize_email, normalize_phone}
use crm_mcd.Ghl.Lookup.{
  choose, newest_with_contact, owner_callback, due_later, create_for_owner, expedite, relay_audit,
  owner_activity, ignore_event,
}

pub data Channel : Type 0 where
  email sms : Channel

pub record ReplyInput : Type 0 where
  pub ghl_event_id : String
  pub channel : Channel
  pub message : String
  pub ghl_contact_id : Option String
  pub mini_crm_lead_id : Option ℕ
  pub from_email : Option String
  pub from_phone : Option String

pub record ReplyResult : Type 0 where
  pub matched : Bool
  pub gated : Bool
  pub ignored : Bool
  pub callback_created : Bool
  pub callback_expedited : Bool

-- The lifecycles that a reply preserves.
abbrev pub is_closed : Lifecycle → Bool
is_closed Lifecycle.closed_won = true
is_closed Lifecycle.closed_lost = true
is_closed Lifecycle.disqualified = true
is_closed _ = false

abbrev pub reply_lifecycle : Lifecycle → Lifecycle
reply_lifecycle Lifecycle.closed_won = Lifecycle.closed_won
reply_lifecycle Lifecycle.closed_lost = Lifecycle.closed_lost
reply_lifecycle Lifecycle.disqualified = Lifecycle.disqualified
reply_lifecycle Lifecycle.demo_booked = Lifecycle.demo_booked
reply_lifecycle _ = Lifecycle.contacted

abbrev pub channel_name : Channel → String
channel_name Channel.email = "EMAIL"
channel_name Channel.sms = "SMS"

abbrev pub reply_touch : Date → ReplyInput → Lead → Lead → Lead
reply_touch now input lead l = record l {
  lifecycle = reply_lifecycle lead.lifecycle;
  ghl_contact_id = or_else input.ghl_contact_id lead.ghl_contact_id;
  two_way_contact_at = some (get_or lead.two_way_contact_at now);
  last_action_at = some now;
  next_action_at = if is_closed lead.lifecycle then lead.next_action_at else some now;
  updated_at = now;
}

abbrev pub reply_note : ReplyInput → Lead → Note
reply_note input lead = record {
  lead_id = lead.id;
  agent_id = lead.owner_agent_id;
  body = "Inbound " ++ channel_name input.channel ++ " reply: " ++ input.message;
}

unfoldable pub reply_write : Env → ReplyInput → Lead → Option Callback → Crm → Crm
reply_write env input lead existing s = record s {
  leads = update_lead lead.id (reply_touch env.now input lead) s.leads;
  notes = reply_note input lead ∷ s.notes;
  activities = owner_activity lead ActivityType.note_added none ∷ s.activities;
  callbacks =
      expedite (due_later env.now existing) env.now existing
        (create_for_owner (is_some lead.owner_agent_id && is_none existing) env lead s.callbacks);
  audits = relay_audit "GHL_INBOUND_REPLY_ATTRIBUTED" lead none ∷ s.audits;
}

abbrev pub no_reply : Bool → Bool → Bool → ReplyResult
no_reply matched gated ignored = record {
  matched = matched;
  gated = gated;
  ignored = ignored;
  callback_created = false;
  callback_expedited = false;
}

unfoldable pub reply_to : Env → ReplyInput → Lead → Crm → ReplyResult × Crm
unfolding reply_write owner_callback
reply_to env input lead s =
    let existing = owner_callback lead s in
    if lead.dnc || lead.suppressed
    then (
      no_reply true false true,
      ignore_event "GHL_INBOUND_REPLY_IGNORED"
          "Suppressed Lead was not changed by an inbound reply event." lead s,
    )
    else (
      record {
        matched = true;
        gated = false;
        ignored = false;
        callback_created = is_some lead.owner_agent_id && is_none existing;
        callback_expedited = due_later env.now existing;
      },
      reply_write env input lead existing s,
    )

-- The lookups of `matchLead`, in the order in which they are tried.
unfoldable pub by_phone : ReplyInput → Crm → Option Lead
unfolding choose normalize_phone
by_phone input s =
    choose (normalize_phone input.from_phone)
      (λ phone. newest (λ l. is_text l.normalized_phone phone) s.leads) none

unfoldable pub by_mini_crm_id : ReplyInput → Crm → Option Lead
unfolding choose
by_mini_crm_id input s = choose input.mini_crm_lead_id (λ i. find_lead i s.leads) none

-- `to_lower` is `toLowerCase`, and `same_email` the database's case-insensitive `equals`.
module _ (to_lower : String → String) (same_email : String → String → Bool) where
  unfoldable pub email_is : Option String → String → Bool
  email_is none text = false
  email_is (some own) text = same_email own text

  unfoldable pub by_email : ReplyInput → Crm → Option Lead
  unfolding choose normalize_email email_is
  by_email input s =
      choose (normalize_email to_lower input.from_email)
        (λ address. newest (λ l. email_is l.email address) s.leads) none

  unfoldable pub match_lead : ReplyInput → Crm → Option Lead
  unfolding by_phone by_email by_mini_crm_id newest_with_contact
  match_lead input s = or_else (by_mini_crm_id input s) (
      or_else (newest_with_contact input.ghl_contact_id s)
        (or_else (by_email input s) (by_phone input s)))

  unfoldable pub attribute_inbound_reply_to_lead : Env → ReplyInput → Crm → ReplyResult × Crm
  unfolding match_lead reply_to
  attribute_inbound_reply_to_lead env input s =
      if not env.features.leads then (no_reply false true false, s) else elim (match_lead input s) [
        | none ↦ (no_reply false false false, s)
        | some lead ↦ reply_to env input lead s
      ]
