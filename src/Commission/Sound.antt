-- ===== src/Commission/Sound.antt =====
-- What an ELIGIBLE entry of the commission ledger can be relied on for: the invariant of
-- src/lib/commission-ledger-actions.ts, src/lib/commission-hold-release.ts and
-- src/lib/commission-review-actions.ts.
use crm_mcd.Prelude.{
  ℕ, ◌≡◌, refl, Bool, true, false, List, ◌∷◌, All, any, is_some, arith, count_where, Result, ok,
  err, ◌∙◌, ap, All-update_where_to, any-update_where-false, [], Option, String,
}
use crm_mcd.Commission.{Books, BooksError, Request, Entry, Hold, HoldReason}
use crm_mcd.Commission.Policy.{is_eligible_entry}
use crm_mcd.Commission.Ledger.{
  posting, Intake, active_on, intake_commission_ledger_entry, apply_commission_ledger_hold,
  mark_commission_ledger_payment_cleared, release_commission_hold, intake_write, hold_write,
  hold_checked, with_id, put_on_hold, clear_checked, clear_write, clears_eligible, linked,
  set_cleared, release_write, release_checked, intake_checked, released_entry, reopen,
  active_with_id, set_released,
}
use crm_mcd.Commission.Review.{
  record_commission_eligibility_review, review_checked, review_write, ProfileChoice,
  set_commission_profile_status, profile_checked, profile_write,
}

-- An entry that says ELIGIBLE is cleared, has the date, and is held by nothing.
unfoldable pub IsBacked : List Hold → Entry → Type 0
IsBacked hs e =
    is_eligible_entry e.status ≡ true
    → (is_some e.cleared_at ≡ true)
      × (is_some e.eligible_at ≡ true)
      × (any (active_on e.id) hs ≡ false)

unfoldable pub IsSound : Books → Type 0
IsSound b = All (IsBacked b.holds) b.entries

posting-keeps {ℓ} :
    {A : Type ℓ} (checked : Result BooksError A) (write : A → Books → Books) (b : Books)
    → IsSound b
    → ((a : A) → checked ≡ ok a → IsSound (write a b))
    → IsSound (posting checked write b).1
unfolding posting
posting-keeps (ok a) write b h k = k a refl
posting-keeps (err e) write b h k = h

intake-IsSound :
    (req : Request) (input : Intake) (b : Books)
    → IsSound b
    → IsSound (intake_commission_ledger_entry req input b).1
unfolding intake_commission_ledger_entry IsSound IsBacked
intake-IsSound req input b h =
    posting-keeps (intake_checked req input b) (intake_write req input) b h
      (λ account e. ((λ says. ground arith), h))

any-count_zero {ℓ} :
    {A : Type ℓ} (p : A → Bool) (xs : List A) → count_where p xs ≡ 0 → any p xs ≡ false
unfolding count_where
any-count_zero p [] h = refl
any-count_zero p (x ∷ xs) h = ground (arith, any-count_zero p xs)

hold_write-IsSound :
    (req : Request) (why : HoldReason) (entry : Entry) (b : Books)
    → IsSound b
    → IsSound (hold_write req why entry b)
unfolding IsSound IsBacked hold_write
hold_write-IsSound req why entry b h =
    All-update_where_to (IsBacked b.holds) (IsBacked (hold_write req why entry b).holds)
      (with_id entry.id) (put_on_hold req.now why) b.entries (λ x p t says. ground arith)
      (λ x p t says. let (cleared, dated, free) = p says in (cleared, dated, ground arith)) h

clear_checked-free :
    (req : Request) (entry_id : ℕ) (b : Books) {entry : Entry}
    → clear_checked req entry_id b ≡ ok (entry, true)
    → count_where (active_on entry.id) b.holds ≡ 0
unfolding clear_checked clears_eligible linked
clear_checked-free req entry_id b h = ground arith

clear_write-IsSound :
    (req : Request) (entry : Entry) (eligible : Bool) (b : Books)
    → (eligible ≡ true → count_where (active_on entry.id) b.holds ≡ 0)
    → IsSound b
    → IsSound (clear_write req (entry, eligible) b)
unfolding IsSound IsBacked clear_write
clear_write-IsSound req entry false b free h =
    All-update_where_to (IsBacked b.holds) (IsBacked b.holds) (with_id entry.id)
      (set_cleared req.now false) b.entries (λ x p t says. ground arith) (λ x p t. p) h
clear_write-IsSound req entry true b free h =
    let none_active = any-count_zero (active_on entry.id) b.holds (free refl) in
    All-update_where_to (IsBacked b.holds) (IsBacked b.holds) (with_id entry.id)
      (set_cleared req.now true) b.entries
      (λ x p t says. let same : x.id ≡ entry.id = ground arith in (refl, refl, rw same none_active))
      (λ x p t. p) h

release_write-IsSound :
    (req : Request) (hold : Hold) (b : Books) → IsSound b → IsSound (release_write req hold b)
unfolding IsSound IsBacked release_write
release_write-IsSound req hold b h =
    All-update_where_to (IsBacked b.holds) (IsBacked (release_write req hold b).holds)
      (released_entry hold.ledger_entry_id) (reopen req.now) b.entries (λ x p t says. ground arith)
      (λ x p t says.
        let (cleared, dated, free) = p says in
        (
          cleared,
          dated,
          any-update_where-false (active_on x.id) (active_with_id hold.id) (set_released req.now)
              b.holds (λ y out. ground arith) free,
        ))
      h

apply_hold-IsSound :
    (req : Request) (entry_id : ℕ) (why : HoldReason) (b : Books)
    → IsSound b
    → IsSound (apply_commission_ledger_hold req entry_id why b).1
unfolding apply_commission_ledger_hold
apply_hold-IsSound req entry_id why b h =
    posting-keeps (hold_checked req entry_id b) (hold_write req why) b h
      (λ entry e. hold_write-IsSound req why entry b h)

clear-IsSound :
    (req : Request) (entry_id : ℕ) (b : Books)
    → IsSound b
    → IsSound (mark_commission_ledger_payment_cleared req entry_id b).1
unfolding mark_commission_ledger_payment_cleared
clear-IsSound req entry_id b h =
    posting-keeps (clear_checked req entry_id b) (clear_write req) b h (λ found e.
      clear_write-IsSound req found.0 found.1 b
        (λ t. clear_checked-free req entry_id b (e ∙ ap (λ q. ok (found.0, q)) t)) h)

release-IsSound :
    (req : Request) (hold_id : ℕ) (b : Books)
    → IsSound b
    → IsSound (release_commission_hold req hold_id b).1
unfolding release_commission_hold
release-IsSound req hold_id b h =
    posting-keeps (release_checked req hold_id b) (release_write req) b h
      (λ hold e. release_write-IsSound req hold b h)

review-IsSound :
    (req : Request) (account_id agent_id : ℕ) (b : Books)
    → IsSound b
    → IsSound (record_commission_eligibility_review req account_id agent_id b).1
unfolding record_commission_eligibility_review IsSound
review-IsSound req account_id agent_id b h =
    posting-keeps (review_checked req account_id agent_id b) (review_write req account_id agent_id)
      b h (λ verdict e. h)

profile-IsSound :
    (req : Request) (agent_id : ℕ) (choice : ProfileChoice) (words : Option String) (b : Books)
    → IsSound b
    → IsSound (set_commission_profile_status req agent_id choice words b).1
unfolding set_commission_profile_status profile_write IsSound
profile-IsSound req agent_id choice words b h =
    posting-keeps (profile_checked req agent_id b) (profile_write req agent_id choice words) b h
      (λ actor e. h)

-- Requests on the books, served one after another.
pub data BooksRequest : Type 0 where
  intake : Intake → BooksRequest
  hold : ℕ → HoldReason → BooksRequest
  clear : ℕ → BooksRequest
  release : ℕ → BooksRequest
  review : ℕ → ℕ → BooksRequest
  profile : ℕ → ProfileChoice → Option String → BooksRequest

unfoldable pub serve_books : Request → BooksRequest → Books → Books
unfolding intake_commission_ledger_entry apply_commission_ledger_hold
    mark_commission_ledger_payment_cleared release_commission_hold
    record_commission_eligibility_review set_commission_profile_status
serve_books req (BooksRequest.intake input) b = (intake_commission_ledger_entry req input b).1
serve_books req (BooksRequest.hold entry_id why) b =
    (apply_commission_ledger_hold req entry_id why b).1
serve_books req (BooksRequest.clear entry_id) b =
    (mark_commission_ledger_payment_cleared req entry_id b).1
serve_books req (BooksRequest.release hold_id) b = (release_commission_hold req hold_id b).1
serve_books req (BooksRequest.review account_id agent_id) b =
    (record_commission_eligibility_review req account_id agent_id b).1
serve_books req (BooksRequest.profile agent_id choice words) b =
    (set_commission_profile_status req agent_id choice words b).1

unfoldable pub serve_books_all : List (Request × BooksRequest) → Books → Books
unfolding serve_books
serve_books_all [] b = b
serve_books_all ((req, r) ∷ rest) b = serve_books_all rest (serve_books req r b)

serve_books-IsSound :
    (req : Request) (r : BooksRequest) (b : Books) → IsSound b → IsSound (serve_books req r b)
unfolding serve_books
serve_books-IsSound req (BooksRequest.intake input) b h = intake-IsSound req input b h
serve_books-IsSound req (BooksRequest.hold i why) b h = apply_hold-IsSound req i why b h
serve_books-IsSound req (BooksRequest.clear i) b h = clear-IsSound req i b h
serve_books-IsSound req (BooksRequest.release i) b h = release-IsSound req i b h
serve_books-IsSound req (BooksRequest.review a g) b h = review-IsSound req a g b h
serve_books-IsSound req (BooksRequest.profile g choice words) b h =
    profile-IsSound req g choice words b h

-- Through any sequence of intakes, holds, clearances, releases, reviews and changes of profiles, refused or not, every entry
-- that says ELIGIBLE has a clearance date and an eligibility date, and no active hold is on it, if that
-- was so at the start.
pub serve_books_all-IsSound :
    (requests : List (Request × BooksRequest)) (b : Books)
    → IsSound b
    → IsSound (serve_books_all requests b)
unfolding serve_books_all
serve_books_all-IsSound [] b h = h
serve_books_all-IsSound ((req, r) ∷ rest) b h =
    serve_books_all-IsSound rest (serve_books req r b) (serve_books-IsSound req r b h)
