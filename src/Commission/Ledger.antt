-- ===== src/Commission/Ledger.antt =====
-- The commission ledger's operations (src/lib/commission-ledger-actions.ts,
-- src/lib/commission-hold-release.ts). What a request reads comes before its transaction.
use crm_mcd.Prelude.{
  ℕ, ◌-◌, Bool, true, false, ◌&&◌, Option, none, some, ◌∷◌, String, Date, leb, ltb, ◌==◌, Result,
  ok, err, ◌>>=◌, ◌>>◌, require, refuse_if, or_throw, holds, is_none, or_else, if◌then◌else◌,
  count_where, update_where, find, first_where, latest,
}
use crm_mcd.Commission.{
  Books, BooksError, Request, Entry, Hold, Decision, ClientAccount, EntryType, HoldReason, HoldNote,
  LedgerState, EligibilityState, commission_admin, audit,
}

abbrev pub Posting : Type 0
Posting = Result BooksError (Unit {0}) × Books

-- The checks end in the rows that the transaction is about, or throw before it.
unfoldable pub posting {ℓ} :
    {A : Type ℓ} → Result BooksError A → (A → Books → Books) → Books → Posting
posting (ok a) write b = (ok tt, write a b)
posting (err e) write b = (err e, b)

abbrev pub account_key : ClientAccount → ℕ
account_key a = a.id

abbrev pub entry_key : Entry → ℕ
entry_key e = e.id

abbrev pub decision_key : Decision → ℕ
decision_key d = d.id

abbrev pub effective : Decision → ℕ
effective d = d.effective_at

pub record Intake : Type 0 where
  pub client_account_id : ℕ
  pub payment_ref : String
  pub payment_occurred_at : Date
  pub entry_type : EntryType
  pub gross_collected_cents : ℕ
  pub refund_offset_cents : ℕ
  pub commissionable_cents : Option ℕ
  pub proposed_agent_share_cents : Option ℕ
  pub earning_agent_id : Option ℕ

abbrev pub max_cents : ℕ
max_cents = 100000000

abbrev within : Option ℕ → ℕ → Bool
within none bound = true
within (some n) bound = leb n bound

-- The bounds of `cents`, and the two tests on the amounts.
unfoldable pub valid_intake : Intake → Result BooksError (Unit {0})
valid_intake input = do
  require
      (leb input.gross_collected_cents max_cents
        && (leb input.refund_offset_cents max_cents
            && (within input.commissionable_cents max_cents
                && within input.proposed_agent_share_cents max_cents)))
      BooksError.invalid_cents
  refuse_if (ltb input.gross_collected_cents input.refund_offset_cents)
      BooksError.refund_above_collected
  require
      (within input.commissionable_cents (input.gross_collected_cents - input.refund_offset_cents))
      BooksError.commissionable_above_net

unfoldable pub intake_checked : Request → Intake → Books → Result BooksError ClientAccount
unfolding commission_admin valid_intake
intake_checked req input b = do
  actor ← commission_admin req
  valid_intake input
  or_throw (find account_key input.client_account_id b.accounts) BooksError.account_not_found

unfoldable pub new_entry : Request → Intake → ClientAccount → Entry
new_entry req input account = record {
  id = req.fresh;
  client_account_id = some input.client_account_id;
  payment_ref = input.payment_ref;
  payment_occurred_at = input.payment_occurred_at;
  entry_type = input.entry_type;
  status = LedgerState.pending_verification;
  package_code = account.package_code;
  earning_agent_id = or_else input.earning_agent_id account.account_owner_agent_id;
  originating_agent_id = account.originating_agent_id;
  gross_collected_cents = input.gross_collected_cents;
  refund_offset_cents = input.refund_offset_cents;
  commissionable_cents = input.commissionable_cents;
  proposed_agent_share_cents = input.proposed_agent_share_cents;
  cleared_at = none;
  eligible_at = none;
  hold_reason = none;
  updated_at = req.now;
}

unfoldable pub intake_write : Request → Intake → ClientAccount → Books → Books
unfolding new_entry
intake_write req input account b = record b {
  entries = new_entry req input account ∷ b.entries;
  audits = audit req "COMMISSION_LEDGER_INTAKE_RECORDED" req.fresh ∷ b.audits;
}

unfoldable pub intake_commission_ledger_entry : Request → Intake → Books → Posting
unfolding posting intake_checked intake_write
intake_commission_ledger_entry req input b =
    posting (intake_checked req input b) (intake_write req input) b

abbrev pub with_id : ℕ → Entry → Bool
with_id i e = e.id == i

unfoldable pub hold_checked : Request → ℕ → Books → Result BooksError Entry
unfolding commission_admin
hold_checked req entry_id b = do
  actor ← commission_admin req
  or_throw (find entry_key entry_id b.entries) BooksError.entry_not_found

abbrev pub put_on_hold : Date → HoldReason → Entry → Entry
put_on_hold now why e = record e {
  status = LedgerState.on_hold;
  hold_reason = some (HoldNote.reason why);
  updated_at = now;
}

unfoldable pub hold_write : Request → HoldReason → Entry → Books → Books
hold_write req why entry b = record b {
  holds =
      record {
        id = req.fresh;
        ledger_entry_id = some entry.id;
        client_account_id = entry.client_account_id;
        agent_id = entry.earning_agent_id;
        reason = why;
        active = true;
        released_at = none;
      }
      ∷ b.holds;
  entries = update_where (with_id entry.id) (put_on_hold req.now why) b.entries;
  audits = audit req "COMMISSION_LEDGER_HOLD_APPLIED" entry.id ∷ b.audits;
}

unfoldable pub apply_commission_ledger_hold : Request → ℕ → HoldReason → Books → Posting
unfolding posting hold_checked hold_write
apply_commission_ledger_hold req entry_id why b =
    posting (hold_checked req entry_id b) (hold_write req why) b

-- An active hold on an entry, and a decision in force for an agent on an account.
abbrev pub active_on : ℕ → Hold → Bool
active_on entry_id h = holds h.ledger_entry_id entry_id && h.active

abbrev pub in_force : ℕ → ℕ → Decision → Bool
in_force account_id agent_id d =
    d.client_account_id == account_id && (d.agent_id == agent_id && is_none d.superseded_at)

abbrev pub says_eligible : Option Decision → Bool
says_eligible none = false
says_eligible (some d) = elim d.status [ EligibilityState.eligible ↦ true | _ ↦ false ]

-- `eligible`: the decision in force says so, and no hold is active.
unfoldable pub clears_eligible : Books → ℕ → ℕ → ℕ → Bool
clears_eligible b entry_id account_id agent_id =
    says_eligible (latest decision_key effective (in_force account_id agent_id) b.decisions)
    && count_where (active_on entry_id) b.holds == 0

unfoldable pub linked : Entry → Result BooksError (ℕ × ℕ)
linked e = do
  account_id ← or_throw e.client_account_id BooksError.entry_not_linked
  agent_id ← or_throw e.earning_agent_id BooksError.entry_not_linked
  ok (account_id, agent_id)

-- The entry, and whether it clears as eligible.
unfoldable pub clear_checked : Request → ℕ → Books → Result BooksError (Entry × Bool)
unfolding commission_admin linked clears_eligible
clear_checked req entry_id b = do
  actor ← commission_admin req
  entry ← or_throw (find entry_key entry_id b.entries) BooksError.entry_not_found
  link ← linked entry
  ok (entry, clears_eligible b entry.id link.0 link.1)

abbrev pub set_cleared : Date → Bool → Entry → Entry
set_cleared now eligible e = record e {
  cleared_at = some now;
  status = if eligible then LedgerState.eligible else LedgerState.on_hold;
  eligible_at = if eligible then some now else none;
  hold_reason = if eligible then none else some HoldNote.review_required;
  updated_at = now;
}

unfoldable pub clear_write : Request → Entry × Bool → Books → Books
clear_write req (entry, eligible) b = record b {
  entries = update_where (with_id entry.id) (set_cleared req.now eligible) b.entries;
  audits = audit req "COMMISSION_PAYMENT_CLEARANCE_RECORDED" entry.id ∷ b.audits;
}

unfoldable pub mark_commission_ledger_payment_cleared : Request → ℕ → Books → Posting
unfolding posting clear_checked clear_write
mark_commission_ledger_payment_cleared req entry_id b =
    posting (clear_checked req entry_id b) (clear_write req) b

-- `releaseCommissionHold`.
abbrev pub active_with_id : ℕ → Hold → Bool
active_with_id i h = h.id == i && h.active

unfoldable pub release_checked : Request → ℕ → Books → Result BooksError Hold
unfolding commission_admin
release_checked req hold_id b = do
  actor ← commission_admin req
  or_throw (first_where (active_with_id hold_id) b.holds) BooksError.hold_not_found

abbrev pub set_released : Date → Hold → Hold
set_released now h = record h { active = false; released_at = some now }

abbrev pub reopen : Date → Entry → Entry
reopen now e = record e {
  status = LedgerState.pending_verification;
  hold_reason = none;
  eligible_at = none;
  updated_at = now;
}

abbrev pub released_entry : Option ℕ → Entry → Bool
released_entry target e = holds target e.id

unfoldable pub release_write : Request → Hold → Books → Books
release_write req hold b = record b {
  holds = update_where (active_with_id hold.id) (set_released req.now) b.holds;
  entries = update_where (released_entry hold.ledger_entry_id) (reopen req.now) b.entries;
  audits = audit req "COMMISSION_LEDGER_HOLD_RELEASED" hold.id ∷ b.audits;
}

unfoldable pub release_commission_hold : Request → ℕ → Books → Posting
unfolding posting release_checked release_write
release_commission_hold req hold_id b =
    posting (release_checked req hold_id b) (release_write req) b
