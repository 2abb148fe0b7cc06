-- ===== src/Workspace/Rules.antt =====
-- What a disposition does to a Lead, and the follow-up time that comes with it
-- (src/lib/lead-workspace.ts).
use crm_mcd.Prelude.{
  ℕ, ◌≡◌, Bool, true, false, Option, none, some, String, Date, leb, arith, Result, ok, err,
  if◌then◌else◌, filled,
}
use crm_mcd.Lead.{Disposition, Lifecycle, Pool, Error}

-- `twoWayDispositions.includes(disposition)`.
abbrev pub is_two_way_contact : Disposition → Bool
is_two_way_contact Disposition.callback_requested = true
is_two_way_contact Disposition.qualified = true
is_two_way_contact Disposition.not_interested = true
is_two_way_contact Disposition.demo_booked = true
is_two_way_contact Disposition.follow_up = true
is_two_way_contact _ = false

-- `claimEligibleDispositions.includes(disposition)`.
abbrev pub is_claim_eligible_disposition : Disposition → Bool
is_claim_eligible_disposition Disposition.callback_requested = true
is_claim_eligible_disposition Disposition.qualified = true
is_claim_eligible_disposition Disposition.demo_booked = true
is_claim_eligible_disposition Disposition.follow_up = true
is_claim_eligible_disposition _ = false

-- `invalidContactDispositions.includes(disposition)`.
abbrev pub is_invalid_contact : Disposition → Bool
is_invalid_contact Disposition.wrong_number = true
is_invalid_contact Disposition.out_of_business = true
is_invalid_contact _ = false

abbrev pub is_unanswered : Disposition → Bool
is_unanswered Disposition.no_answer = true
is_unanswered Disposition.voicemail = true
is_unanswered _ = false

abbrev pub is_do_not_contact : Disposition → Bool
is_do_not_contact Disposition.do_not_contact = true
is_do_not_contact _ = false

abbrev pub is_callback_requested : Disposition → Bool
is_callback_requested Disposition.callback_requested = true
is_callback_requested _ = false

-- The six tests in the order of the source; the first that holds decides.
unfoldable pub lifecycle_for : Disposition → Lifecycle
lifecycle_for Disposition.demo_booked = Lifecycle.demo_booked
lifecycle_for Disposition.not_interested = Lifecycle.closed_lost
lifecycle_for d =
    if is_invalid_contact d
    then Lifecycle.disqualified
    else if is_unanswered d
    then Lifecycle.claimed
    else if is_callback_requested d
    then Lifecycle.nurturing
    else Lifecycle.contacted

unfoldable pub cold_pool_for : Disposition → Pool
cold_pool_for d =
    if is_callback_requested d
    then Pool.nurture
    else if is_claim_eligible_disposition d
    then Pool.hot
    else Pool.cold

unfoldable pub cold_lifecycle_for : Disposition → Lifecycle
unfolding lifecycle_for
cold_lifecycle_for d = if is_unanswered d then Lifecycle.available else lifecycle_for d

-- `pacificDateTime`. `to_utc` stands for the pattern and the platform's time zones: it reads a text
-- as a Pacific time and gives the moment, or none where the text does not match.
unfoldable pub pacific_date_time :
    (String → Option Date) → Date → Option String → Result Error (Option Date)
unfolding filled
pacific_date_time to_utc now value = elim (filled value) [
  | none ↦ ok none
  | some text ↦ elim (to_utc text) [
    | none ↦ err Error.invalid_pacific_time
    | some at ↦ if leb at now then err Error.past_pacific_time else ok (some at)
  ]
]

-- The disposition as it stands in a reason.
abbrev pub disposition_name : Disposition → String
disposition_name Disposition.no_answer = "NO_ANSWER"
disposition_name Disposition.voicemail = "VOICEMAIL"
disposition_name Disposition.callback_requested = "CALLBACK_REQUESTED"
disposition_name Disposition.qualified = "QUALIFIED"
disposition_name Disposition.not_interested = "NOT_INTERESTED"
disposition_name Disposition.do_not_contact = "DO_NOT_CONTACT"
disposition_name Disposition.wrong_number = "WRONG_NUMBER"
disposition_name Disposition.out_of_business = "OUT_OF_BUSINESS"
disposition_name Disposition.demo_booked = "DEMO_BOOKED"
disposition_name Disposition.follow_up = "FOLLOW_UP"

-- The lifecycles that schedule no follow-up.
abbrev pub is_terminal : Lifecycle → Bool
is_terminal Lifecycle.demo_booked = true
is_terminal Lifecycle.closed_lost = true
is_terminal Lifecycle.disqualified = true
is_terminal _ = false

-- The request after its schema has parsed it.
pub record InteractionInput : Type 0 where
  pub lead_id : ℕ
  pub disposition : Disposition
  pub note : Option String
  pub callback_at_pacific : Option String

-- A follow-up time that is given lies in the future.
pub pacific_date_time_future :
    (to_utc : String → Option Date) (now : Date) (value : Option String) {at : Date}
    → pacific_date_time to_utc now value ≡ ok (some at)
    → leb at now ≡ false
unfolding pacific_date_time
pacific_date_time_future to_utc now value h = ground arith
