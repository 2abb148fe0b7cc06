-- ===== src/Commission/Review.antt =====
-- Eligibility reviews and partner profiles (src/lib/commission-review-actions.ts).
use crm_mcd.Prelude.{
  ℕ, Option, none, some, ◌∷◌, Result, ok, ◌>>=◌, or_throw, is_some, if◌then◌else◌, update_where,
  find, Date, update, any, require, ◌>>◌, ◌==◌, get_or, String,
}
use crm_mcd.Commission.{
  Books, BooksError, Request, Profile, Decision, ClientAccount, AccountStatus, ProfileState,
  ServiceState, commission_admin, audit,
}
use crm_mcd.Lead.{User}
use crm_mcd.Commission.Policy.{EligibilityInput, Verdict, evaluate_commission_eligibility}
use crm_mcd.Commission.Ledger.{Posting, posting, account_key, in_force}

abbrev pub profile_key : Profile → ℕ
profile_key p = p.agent_id

-- `serviceState` and `profileState`.
unfoldable pub service_state : ClientAccount → ServiceState
service_state a = elim a.status [
  | AccountStatus.house ↦ ServiceState.house
  | _ ↦ if is_some a.account_owner_agent_id then ServiceState.active else ServiceState.unassigned
]

unfoldable pub profile_state : Option Profile → ProfileState
profile_state none = ProfileState.missing
profile_state (some p) = p.status

unfoldable pub review_input : ClientAccount → Option Profile → ℕ → EligibilityInput
unfolding service_state profile_state
review_input account profile agent_id = record {
  profile = profile_state profile;
  service_state = service_state account;
  account_owner_agent_id = account.account_owner_agent_id;
  candidate_agent_id = agent_id;
  current_on_payments = account.current_on_payments;
}

unfoldable pub review_checked : Request → ℕ → ℕ → Books → Result BooksError Verdict
unfolding commission_admin review_input evaluate_commission_eligibility
review_checked req account_id agent_id b = do
  actor ← commission_admin req
  account ← or_throw (find account_key account_id b.accounts) BooksError.account_not_found
  ok (
      evaluate_commission_eligibility
        (review_input account (find profile_key agent_id b.profiles) agent_id))

abbrev pub supersede : Date → Decision → Decision
supersede now d = record d { superseded_at = some now }

abbrev pub new_decision : Request → ℕ → ℕ → Verdict → Decision
new_decision req account_id agent_id verdict = record {
  id = req.fresh;
  client_account_id = account_id;
  agent_id = agent_id;
  status = verdict.0;
  reason = verdict.1;
  effective_at = req.now;
  superseded_at = none;
}

unfoldable pub review_write : Request → ℕ → ℕ → Verdict → Books → Books
review_write req account_id agent_id verdict b = record b {
  decisions =
      new_decision req account_id agent_id verdict
      ∷ update_where (in_force account_id agent_id) (supersede req.now) b.decisions;
  audits = audit req "COMMISSION_ELIGIBILITY_REVIEWED" req.fresh ∷ b.audits;
}

unfoldable pub record_commission_eligibility_review : Request → ℕ → ℕ → Books → Posting
unfolding posting review_checked review_write
record_commission_eligibility_review req account_id agent_id b =
    posting (review_checked req account_id agent_id b) (review_write req account_id agent_id) b

-- `setCommissionProfileStatus`: the states that the form allows.
pub data ProfileChoice : Type 0 where
  active retired terminated on_hold : ProfileChoice

abbrev pub as_profile_state : ProfileChoice → ProfileState
as_profile_state ProfileChoice.active = ProfileState.active
as_profile_state ProfileChoice.retired = ProfileState.retired
as_profile_state ProfileChoice.terminated = ProfileState.terminated
as_profile_state ProfileChoice.on_hold = ProfileState.on_hold

abbrev retired_from : ProfileChoice → Date → Option Date → Option Date
retired_from ProfileChoice.retired now before = some now
retired_from _ now before = before

abbrev terminated_from : ProfileChoice → Date → Option Date → Option Date
terminated_from ProfileChoice.terminated now before = some now
terminated_from _ now before = before

abbrev hold_text : ProfileChoice → Option String → Option String
hold_text ProfileChoice.on_hold words = some (get_or words "Profile review hold.")
hold_text _ words = none

-- The row after the `INSERT ... ON CONFLICT DO UPDATE`, over the row that was there.
unfoldable pub profile_touch : Date → ProfileChoice → Option String → Profile → Profile
profile_touch now choice words p = record p {
  status = as_profile_state choice;
  effective_at = now;
  retired_at = retired_from choice now p.retired_at;
  terminated_at = terminated_from choice now p.terminated_at;
  hold_reason = hold_text choice words;
  review_note = words;
}

abbrev blank_profile : ℕ → Date → Profile
blank_profile agent_id now = record {
  agent_id = agent_id;
  status = ProfileState.active;
  effective_at = now;
  retired_at = none;
  terminated_at = none;
  hold_reason = none;
  review_note = none;
}

unfoldable pub profile_checked : Request → ℕ → Books → Result BooksError User
unfolding commission_admin
profile_checked req agent_id b = do
  actor ← commission_admin req
  require (any (λ i. i == agent_id) b.agent_ids) BooksError.agent_not_found
  ok actor

unfoldable pub profile_write : Request → ℕ → ProfileChoice → Option String → User → Books → Books
unfolding profile_touch
profile_write req agent_id choice words actor b = record b {
  profiles =
      if is_some (find profile_key agent_id b.profiles)
      then update profile_key agent_id (profile_touch req.now choice words) b.profiles
      else profile_touch req.now choice words (blank_profile agent_id req.now) ∷ b.profiles;
  audits = audit req "COMMISSION_PROFILE_UPDATED" agent_id ∷ b.audits;
}

unfoldable pub set_commission_profile_status :
    Request → ℕ → ProfileChoice → Option String → Books → Posting
unfolding posting profile_checked profile_write
set_commission_profile_status req agent_id choice words b =
    posting (profile_checked req agent_id b) (profile_write req agent_id choice words) b
