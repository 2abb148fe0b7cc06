-- ===== src/Blackout/Relays.antt =====
-- The GoHighLevel relays leave a blocked Lead alone, whichever lookup finds it.
use crm_mcd.Prelude.{
  ℕ, ◌≡◌, refl, ◌≢◌, Bool, true, false, Option, none, some, List, arith, any, String, Date, ◌&&◌,
  ◌||◌, Bool-cases, Option-cases, inl, inr, UniqueKeys, find-own_key, latest-find, filled,
  any-update-false, or_else, is_some, is_none, not,
}
use crm_mcd.Lead.{Lead, Callback, Crm, Env}
use crm_mcd.Lead.Table.{lead_key, last_updated, find_lead, newest, scheduled_on, cancel}
use crm_mcd.Normalization.{normalize_email, normalize_phone}
use crm_mcd.Ghl.Lookup.{
  choose, newest_with_contact, owner_callback, due_later, create_for_owner, expedite, set_due,
  callback_key,
}
use crm_mcd.Ghl.Appointment.{
  AppointmentInput, appointment_lead, appointment_touch, appointment_write, recovery_callback,
  attribute_to, attribute_appointment_to_lead,
}
use crm_mcd.Ghl.Opportunity.{
  OpportunityInput, opportunity_lead, opportunity_touch, close_callbacks, opportunity_write,
  opportunity_to, attribute_opportunity_to_lead,
}
use crm_mcd.Ghl.Reply.{
  ReplyInput, by_phone, by_email, by_mini_crm_id, match_lead, reply_touch, reply_write, reply_to,
  attribute_inbound_reply_to_lead,
}
use crm_mcd.Ghl.OptOut.{
  OptOutInput, optout_phone, optout_by_phone, optout_email, optout_by_email, optout_lead,
  optout_touch, cancel_at, optout_write, optout_to, relay_ghl_opt_out,
}
use crm_mcd.Blackout.Rules.{
  IsBlackout, other_row, IsBlackout-same, IsBlackout-write, unscheduled-update_where,
}

-- A lookup gives rows of the table.
abbrev IsRow : Crm → Option Lead → Type 0
IsRow s found = (m : Lead) → found ≡ some m → find_lead m.id s.leads ≡ some m

newest-IsRow :
    (s : Crm) (p : Lead → Bool) → UniqueKeys lead_key s.leads → IsRow s (newest p s.leads)
newest-IsRow s p u m e = (latest-find lead_key last_updated p s.leads u e).1

find_lead-IsRow : (s : Crm) (j : ℕ) → IsRow s (find_lead j s.leads)
find_lead-IsRow s j m e = find-own_key lead_key j s.leads m e

or_else-IsRow : (s : Crm) (a b : Option Lead) → IsRow s a → IsRow s b → IsRow s (or_else a b)
or_else-IsRow s none b h k = k
or_else-IsRow s (some x) b h k = h

none-IsRow : (s : Crm) → IsRow s none
none-IsRow s m e = cc

choose-IsRow :
    {A : Type 0} (s : Crm) (given : Option A) (lookup : A → Option Lead) (otherwise : Option Lead)
    → ((a : A) → IsRow s (lookup a))
    → IsRow s otherwise
    → IsRow s (choose given lookup otherwise)
unfolding choose
choose-IsRow s none lookup otherwise h k = k
choose-IsRow s (some a) lookup otherwise h k = h a

newest_with_contact-IsRow :
    (s : Crm) (contact : Option String)
    → UniqueKeys lead_key s.leads
    → IsRow s (newest_with_contact contact s)
unfolding newest_with_contact
newest_with_contact-IsRow s contact u =
    choose-IsRow s (filled contact) _ none (λ text. newest-IsRow s _ u) (none-IsRow s)

appointment_lead-IsRow :
    (s : Crm) (input : AppointmentInput)
    → UniqueKeys lead_key s.leads
    → IsRow s (appointment_lead input s)
unfolding appointment_lead
appointment_lead-IsRow s input u =
    choose-IsRow s input.mini_crm_lead_id _ _ (λ i. find_lead-IsRow s i)
      (newest_with_contact-IsRow s input.ghl_contact_id u)

opportunity_lead-IsRow :
    (s : Crm) (input : OpportunityInput)
    → UniqueKeys lead_key s.leads
    → IsRow s (opportunity_lead input s)
unfolding opportunity_lead
opportunity_lead-IsRow s input u =
    choose-IsRow s input.mini_crm_lead_id _ _ (λ i. find_lead-IsRow s i)
      (choose-IsRow s (filled (some input.ghl_opportunity_id)) _ _ (λ text. newest-IsRow s _ u)
        (newest_with_contact-IsRow s input.ghl_contact_id u))

match_lead-IsRow :
    (to_lower : String → String) (same_email : String → String → Bool) (s : Crm)
    (input : ReplyInput)
    → UniqueKeys lead_key s.leads
    → IsRow s (match_lead to_lower same_email input s)
unfolding match_lead by_mini_crm_id by_email by_phone
match_lead-IsRow to_lower same_email s input u =
    or_else-IsRow s _ _
      (choose-IsRow s input.mini_crm_lead_id _ none (λ i. find_lead-IsRow s i) (none-IsRow s))
      (or_else-IsRow s _ _ (newest_with_contact-IsRow s input.ghl_contact_id u) (
        or_else-IsRow s _ _
          (choose-IsRow s (normalize_email to_lower input.from_email) _ none
            (λ address. newest-IsRow s _ u) (none-IsRow s))
          (choose-IsRow s (normalize_phone input.from_phone) _ none (λ phone. newest-IsRow s _ u)
            (none-IsRow s))))

optout_lead-IsRow :
    (to_lower : String → String) (id_text : ℕ → String) (s : Crm) (input : OptOutInput)
    → UniqueKeys lead_key s.leads
    → IsRow s (optout_lead to_lower id_text input s)
unfolding optout_lead optout_by_phone optout_by_email
optout_lead-IsRow to_lower id_text s input u =
    choose-IsRow s (filled input.ghl_contact_id) _ _
      (λ text. newest_with_contact-IsRow s input.ghl_contact_id u)
      (choose-IsRow s (optout_phone input.phone) _ _
        (λ number.
          choose-IsRow s (optout_phone input.phone) _ none (λ n. newest-IsRow s _ u) (none-IsRow s))
        (choose-IsRow s (optout_email to_lower id_text input.email) _ none (λ t. newest-IsRow s _ u)
          (none-IsRow s)))

-- What a relay adds for an owner is on the Lead that it serves, and a new due time schedules nothing.
create_for_owner-other :
    (i : ℕ) (made : Bool) (env : Env) (m : Lead) (cs : List Callback)
    → i ≢ m.id
    → any (scheduled_on i) cs ≡ false
    → any (scheduled_on i) (create_for_owner made env m cs) ≡ false
create_for_owner-other i made env m cs ne h = ground arith

expedite-other :
    (i : ℕ) (sooner : Bool) (now : Date) (existing : Option Callback) (cs : List Callback)
    → any (scheduled_on i) cs ≡ false
    → any (scheduled_on i) (expedite sooner now existing cs) ≡ false
expedite-other i sooner now none cs h = h
expedite-other i false now (some c) cs h = h
expedite-other i true now (some c) cs h =
    any-update-false callback_key (scheduled_on i) c.id (set_due now) cs (λ x q. q) h

close_callbacks-other :
    (i j : ℕ) (b : Bool) (cs : List Callback)
    → any (scheduled_on i) cs ≡ false
    → any (scheduled_on i) (close_callbacks b j cs) ≡ false
close_callbacks-other i j true cs h =
    unscheduled-update_where i (scheduled_on j) cancel cs (λ c. refl) (λ c q. refl) h
close_callbacks-other i j false cs h = h

free_of_not_blocked : (m : Lead) → (m.dnc || m.suppressed) ≡ false → m.dnc ≡ false
free_of_not_blocked m h = ground arith

module _ (env : Env) (i : ℕ) (l : Lead) where
  attribute_to-IsBlackout :
      (input : AppointmentInput) (m : Lead) (s : Crm)
      → IsBlackout i l s
      → find_lead m.id s.leads ≡ some m
      → IsBlackout i l (attribute_to env input m s).1
  unfolding attribute_to appointment_write
  attribute_to-IsBlackout input m s b row = elim (Bool-cases (m.dnc || m.suppressed)) [
    | inl e ↦ rw e (IsBlackout-same i l s _ b refl refl)
    | inr e ↦ rw e (
        let ne = other_row i l m s b (inl (free_of_not_blocked m e)) row in
        IsBlackout-write i m.id l (appointment_touch env.now input m) s _ b (λ x. refl) ne refl
          (expedite-other i _ env.now (recovery_callback input.event_type m s) _
            (create_for_owner-other i _ env m s.callbacks ne b.unscheduled)))
  ]

  opportunity_to-IsBlackout :
      (input : OpportunityInput) (m : Lead) (s : Crm)
      → IsBlackout i l s
      → find_lead m.id s.leads ≡ some m
      → IsBlackout i l (opportunity_to env input m s).1
  unfolding opportunity_to opportunity_write
  opportunity_to-IsBlackout input m s b row = elim (Bool-cases (m.dnc || m.suppressed)) [
    | inl e ↦ rw e (IsBlackout-same i l s _ b refl refl)
    | inr e ↦ rw e (
        let ne = other_row i l m s b (inl (free_of_not_blocked m e)) row in
        IsBlackout-write i m.id l (opportunity_touch env.now input m) s _ b (λ x. refl) ne refl
          (close_callbacks-other i m.id _ s.callbacks b.unscheduled))
  ]

  reply_to-IsBlackout :
      (input : ReplyInput) (m : Lead) (s : Crm)
      → IsBlackout i l s
      → find_lead m.id s.leads ≡ some m
      → IsBlackout i l (reply_to env input m s).1
  unfolding reply_to reply_write
  reply_to-IsBlackout input m s b row = elim (Bool-cases (m.dnc || m.suppressed)) [
    | inl e ↦ rw e (IsBlackout-same i l s _ b refl refl)
    | inr e ↦ rw e (
        let ne = other_row i l m s b (inl (free_of_not_blocked m e)) row in
        IsBlackout-write i m.id l (reply_touch env.now input m) s _ b (λ x. refl) ne refl
          (expedite-other i (due_later env.now (owner_callback m s)) env.now (owner_callback m s) _
            (create_for_owner-other i (is_some m.owner_agent_id && is_none (owner_callback m s)) env
              m s.callbacks ne b.unscheduled)))
  ]

  optout_to-IsBlackout :
      (to_lower : String → String) (id_text : ℕ → String) (input : OptOutInput) (m : Lead) (s : Crm)
      → IsBlackout i l s
      → find_lead m.id s.leads ≡ some m
      → IsBlackout i l (optout_to to_lower id_text env input m s).1
  unfolding optout_to optout_write
  optout_to-IsBlackout to_lower id_text input m s b row =
      elim (Bool-cases (m.dnc && m.suppressed)) [
        | inl e ↦ rw e b
        | inr e ↦ rw e (
            let ne = other_row i l m s b (ground arith) row in
            IsBlackout-write i m.id l (optout_touch env.now) s _ b (λ x. refl) ne refl
              (unscheduled-update_where i (scheduled_on m.id) (cancel_at env.now) s.callbacks
                (λ c. refl) (λ c q. refl) b.unscheduled))
      ]

  pub attribute_appointment_to_lead-IsBlackout :
      (input : AppointmentInput) (s : Crm)
      → IsBlackout i l s
      → IsBlackout i l (attribute_appointment_to_lead env input s).1
  unfolding attribute_appointment_to_lead
  attribute_appointment_to_lead-IsBlackout input s b = elim (Bool-cases (not env.features.leads)) [
    | inl e ↦ rw e b
    | inr e ↦ rw e (elim (Option-cases (appointment_lead input s)) [
      | inl f ↦ rw f b
      | inr (m, f) ↦
          rw f (attribute_to-IsBlackout input m s b (appointment_lead-IsRow s input b.unique m f))
    ])
  ]

  pub attribute_opportunity_to_lead-IsBlackout :
      (input : OpportunityInput) (s : Crm)
      → IsBlackout i l s
      → IsBlackout i l (attribute_opportunity_to_lead env input s).1
  unfolding attribute_opportunity_to_lead
  attribute_opportunity_to_lead-IsBlackout input s b = elim (Bool-cases (not env.features.leads)) [
    | inl e ↦ rw e b
    | inr e ↦ rw e (elim (Option-cases (opportunity_lead input s)) [
      | inl f ↦ rw f b
      | inr (m, f) ↦
          rw f (opportunity_to-IsBlackout input m s b (opportunity_lead-IsRow s input b.unique m f))
    ])
  ]

  pub attribute_inbound_reply_to_lead-IsBlackout :
      (to_lower : String → String) (same_email : String → String → Bool) (input : ReplyInput)
      (s : Crm)
      → IsBlackout i l s
      → IsBlackout i l (attribute_inbound_reply_to_lead to_lower same_email env input s).1
  unfolding attribute_inbound_reply_to_lead
  attribute_inbound_reply_to_lead-IsBlackout to_lower same_email input s b =
      elim (Bool-cases (not env.features.leads)) [
        | inl e ↦ rw e b
        | inr e ↦ rw e (elim (Option-cases (match_lead to_lower same_email input s)) [
          | inl f ↦ rw f b
          | inr (m, f) ↦ rw f (
              reply_to-IsBlackout input m s b
                (match_lead-IsRow to_lower same_email s input b.unique m f))
        ])
      ]

  pub relay_ghl_opt_out-IsBlackout :
      (to_lower : String → String) (id_text : ℕ → String) (input : OptOutInput) (s : Crm)
      → IsBlackout i l s
      → IsBlackout i l (relay_ghl_opt_out to_lower id_text env input s).1
  unfolding relay_ghl_opt_out
  relay_ghl_opt_out-IsBlackout to_lower id_text input s b =
      elim (Bool-cases (not env.features.leads)) [
        | inl e ↦ rw e b
        | inr e ↦ rw e (elim (Option-cases (optout_lead to_lower id_text input s)) [
          | inl f ↦ rw f b
          | inr (m, f) ↦ rw f (
              optout_to-IsBlackout to_lower id_text input m s b
                (optout_lead-IsRow to_lower id_text s input b.unique m f))
        ])
      ]
