-- ===== src/Tests/Books.antt =====
-- The theorems on commissions at concrete books.
use crm_mcd.Prelude.{ℕ, ◌≡◌, ◌≢◌, ◌↔◌, refl, true, none, some, List, [], ◌∷◌, ok, count_where, find}
use crm_mcd.Commission.{
  Books, Request, Entry, Decision, ClientAccount, AccountStatus, ProfileState, ServiceState,
  EligibilityState, EligibilityReason, EntryType, LedgerState, HoldReason, commission_admin,
}
use crm_mcd.Commission.Policy.{
  EligibilityInput, Earns, Verdict, eligibility_iff, evaluate_commission_eligibility,
}
use crm_mcd.Commission.Ledger.{
  active_on, in_force, entry_key, mark_commission_ledger_payment_cleared,
}
use crm_mcd.Commission.Review.{ProfileChoice, review_checked, record_commission_eligibility_review}
use crm_mcd.Commission.Sound.{
  IsSound, IsBacked, BooksRequest, serve_books_all, serve_books_all-IsSound,
}
use crm_mcd.Commission.Cycle.{cleared_state, review_leaves_one, clearance_follows_review}
use crm_mcd.Tests.Data.{manager}

abbrev account : ClientAccount
account = record {
  id = 40;
  package_code = "STANDARD_GROWTH";
  account_owner_agent_id = some 70;
  originating_agent_id = some 70;
  current_on_payments = true;
  status = AccountStatus.active;
}

abbrev entry : Entry
entry = record {
  id = 50;
  client_account_id = some 40;
  payment_ref = "inv-1";
  payment_occurred_at = 10;
  entry_type = EntryType.recurring;
  status = LedgerState.pending_verification;
  package_code = "STANDARD_GROWTH";
  earning_agent_id = some 70;
  originating_agent_id = some 70;
  gross_collected_cents = 199500;
  refund_offset_cents = 0;
  commissionable_cents = none;
  proposed_agent_share_cents = none;
  cleared_at = none;
  eligible_at = none;
  hold_reason = none;
  updated_at = 10;
}

abbrev old_decision : Decision
old_decision = record {
  id = 30;
  client_account_id = 40;
  agent_id = 70;
  status = EligibilityState.on_hold;
  reason = EligibilityReason.payment_uncleared;
  effective_at = 5;
  superseded_at = none;
}

abbrev books : Books
books = record {
  accounts = account ∷ [];
  entries = entry ∷ [];
  holds = [];
  decisions = old_decision ∷ [];
  profiles =
      record {
        agent_id = 70;
        status = ProfileState.active;
        effective_at = 1;
        retired_at = none;
        terminated_at = none;
        hold_reason = none;
        review_note = none;
      }
      ∷ [];
  agent_ids = 70 ∷ [];
  audits = [];
}

abbrev by_manager : ℕ → Request
by_manager id = record { now = 100; fresh = id; commissions_enabled = true; actor = manager }

books-IsSound : IsSound books
unfolding IsSound IsBacked
books-IsSound = ((λ says. cc), tt)

abbrev month : List (Request × BooksRequest)
month =
    (by_manager 60, BooksRequest.review 40 70)
    ∷ (by_manager 61, BooksRequest.clear 50)
    ∷ (by_manager 62, BooksRequest.hold 50 HoldReason.chargeback)
    ∷ (by_manager 63, BooksRequest.clear 50)
    ∷ (by_manager 64, BooksRequest.release 62)
    ∷ (by_manager 66, BooksRequest.profile 70 ProfileChoice.retired none)
    ∷ []

serve_books_all-IsSound_example : IsSound (serve_books_all month books)
serve_books_all-IsSound_example = serve_books_all-IsSound month books books-IsSound

abbrev verdict : Verdict
verdict = (EligibilityState.eligible, EligibilityReason.active_service)

books-review_checked : review_checked (by_manager 60) 40 70 books ≡ ok verdict
unfolding review_checked find
books-review_checked = refl

review_leaves_one_example :
    count_where
      (in_force 40 70)
      (record_commission_eligibility_review (by_manager 60) 40 70 books).1.decisions
    ≡ 1
review_leaves_one_example =
    review_leaves_one (by_manager 60) 40 70 verdict books books-review_checked

manager-admin : commission_admin (by_manager 61) ≡ ok manager
unfolding commission_admin
manager-admin = refl

entry-found : find entry_key 50 books.entries ≡ some entry
unfolding find
entry-found = refl

judged : EligibilityState.eligible ≢ EligibilityState.pending
judged same = cc

clearance_follows_review_example :
    (e : Entry) × (find entry_key 50
        (mark_commission_ledger_payment_cleared
          (by_manager 61)
          50
          (record_commission_eligibility_review (by_manager 60) 40 70 books).1).1.entries
      ≡ some e)
    × (e.status ≡ cleared_state EligibilityState.eligible (count_where (active_on 50) books.holds))
clearance_follows_review_example =
    clearance_follows_review (by_manager 60) (by_manager 61) 40 70 50 verdict books entry
      books-review_checked manager-admin entry-found refl refl judged

abbrev candidate : EligibilityInput
candidate = record {
  profile = ProfileState.active;
  service_state = ServiceState.active;
  account_owner_agent_id = some 70;
  candidate_agent_id = 70;
  current_on_payments = true;
}

eligibility_iff_example :
    ((evaluate_commission_eligibility candidate).0 ≡ EligibilityState.eligible) ↔ Earns candidate
eligibility_iff_example = eligibility_iff candidate
