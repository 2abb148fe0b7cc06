-- ===== src/Import/Submit.antt =====
-- A batch is submitted (`submitLeadImportBatch` of src/lib/lead-import-batch.ts). `parse` is as in the
-- preview; `fails` says which rows' transactions the database makes throw. Issues, activities and audits
-- are left out.
use crm_mcd.Prelude.{
  ℕ, ◌+◌, Bool, true, false, ◌&&◌, Option, none, some, List, [], ◌∷◌, String, Date, ◌==◌, Result,
  ok, err, ◌>>=◌, require, filter, any, if◌then◌else◌, first_where, update, update_where,
}
use crm_mcd.Import.{BatchStatus, RowStatus}
use crm_mcd.Import.Workflow.{may_transition_lead_import_batch, is_approved, is_import_error}
use crm_mcd.Import.Batch.{
  Row, Batch, Staging, ImportError, load_batch_with_rows, set_batch, row_key, of_batch,
}
use crm_mcd.Import.Preview.{Candidate, with_dedupe_key}

pub record Approval : Type 0 where
  pub operator_name : String
  pub approval_recorded_at : Date
  pub approval_reference : String
  pub now : Date

abbrev pub is_valid_status : RowStatus → Bool
is_valid_status RowStatus.valid = true
is_valid_status _ = false

abbrev pub awaits : ℕ → Row → Bool
awaits batch_id r = r.batch_id == batch_id && is_valid_status r.status

abbrev pub approve : Row → Row
approve r = record r { status = RowStatus.approved }

abbrev pub mark_submitted : Approval → Batch → Batch
mark_submitted a b = record b {
  identity = record b.identity { operator_name = a.operator_name };
  status = BatchStatus.submitted;
  approval_recorded_at = some a.approval_recorded_at;
  approval_reference = some a.approval_reference;
  submitted_at = some a.now;
}

-- The first transaction: both updates of the batch come to the last status, and VALID rows are approved.
unfoldable pub approve_batch : Approval → ℕ → Staging → Staging
approve_batch a batch_id s =
    set_batch batch_id (mark_submitted a)
      (record s { rows = update_where (awaits batch_id) approve s.rows })

abbrev pub set_row : ℕ → (Row → Row) → Staging → Staging
set_row i f s = record s { rows = update row_key i f s.rows }

abbrev pub mark_import_error : Row → Row
mark_import_error r = record r { status = RowStatus.import_error }

abbrev pub mark_duplicate : ℕ → ℕ → Row → Row
mark_duplicate key lead_id r = record r {
  status = RowStatus.possible_existing_duplicate;
  dedupe_key = some key;
  existing_lead_id = some lead_id;
}

abbrev pub mark_imported : ℕ → ℕ → Row → Row
mark_imported key lead_id r = record r {
  status = RowStatus.imported;
  created_lead_id = some lead_id;
  existing_lead_id = none;
  dedupe_key = some key;
}

-- The transaction of a row whose payload parses.
unfoldable pub import_candidate : Row → Candidate → Staging → Staging
import_candidate r c s = elim (first_where (with_dedupe_key c.dedupe_key) s.leads) [
  | some clash ↦ set_row r.id (mark_duplicate c.dedupe_key clash.id) s
  | none ↦ record s {
    leads =
        record {
          id = s.next_id;
          dedupe_key = c.dedupe_key;
          source_row = some r.id;
          is_referral = c.is_referral;
        }
        ∷ s.leads;
    next_id = s.next_id + 1;
    rows = update row_key r.id (mark_imported c.dedupe_key s.next_id) s.rows;
  }
]

abbrev needs_review : RowStatus → Bool
needs_review RowStatus.review_required = true
needs_review RowStatus.possible_existing_duplicate = true
needs_review RowStatus.pending_admin_review = true
needs_review _ = false

abbrev pub review_row : Row → Bool
review_row r = needs_review r.status

abbrev pub error_row : Row → Bool
error_row r = is_import_error r.status

abbrev pub approved_row : Row → Bool
approved_row r = is_approved r.status

unfoldable pub final_status : List Row → BatchStatus
final_status rows =
    if any error_row rows
    then BatchStatus.reconciliation_required
    else (if any review_row rows then BatchStatus.partially_accepted else BatchStatus.completed)

abbrev is_completed : BatchStatus → Bool
is_completed BatchStatus.completed = true
is_completed _ = false

abbrev pub mark_finished : Approval → BatchStatus → ℕ → Batch → Batch
mark_finished a status inserted b = record b {
  status = status;
  inserted_count = inserted;
  completed_at = if is_completed status then some a.now else none;
}

-- The last update of the batch.
unfoldable pub finish_batch : Approval → ℕ → ℕ → Staging → Staging
unfolding final_status
finish_batch a batch_id inserted s =
    set_batch batch_id (mark_finished a (final_status (filter (of_batch batch_id) s.rows)) inserted)
      s

unfoldable pub submit_checked : ℕ → Staging → Result ImportError (Unit {0})
unfolding load_batch_with_rows
submit_checked batch_id s = do
  loaded ← load_batch_with_rows batch_id s
  require (may_transition_lead_import_batch loaded.0.status BatchStatus.approved_for_submission)
      ImportError.batch_state

module _ (parse : ℕ → Option Candidate) (fails : ℕ → Bool) where
  unfoldable pub import_parsed : Row → Option Candidate → Staging → Staging
  unfolding import_candidate
  import_parsed r none s = set_row r.id mark_import_error s
  import_parsed r (some c) s = import_candidate r c s

  unfoldable pub import_row : Row → Staging → Staging
  unfolding import_parsed
  import_row r s =
      if fails r.id then set_row r.id mark_import_error s else import_parsed r (parse r.payload) s

  -- Whether the turn of the loop counts as inserted.
  unfoldable pub inserts : Row → Staging → Bool
  inserts r s = if fails r.id then false else elim (parse r.payload) [
    | none ↦ false
    | some c ↦ elim (first_where (with_dedupe_key c.dedupe_key) s.leads) [
      | some clash ↦ false
      | none ↦ true
    ]
  ]

  -- The loop over the importable rows: how many were inserted, and the database.
  unfoldable pub import_rows : List Row → Staging → ℕ × Staging
  unfolding import_row inserts
  import_rows [] s = (0, s)
  import_rows (r ∷ rest) s =
      let (inserted, s') = import_rows rest (import_row r s) in
      ((if inserts r s then inserted + 1 else inserted), s')

  unfoldable pub submit_write : Approval → ℕ → Staging → Staging
  unfolding approve_batch import_rows finish_batch
  submit_write a batch_id s =
      let approved = approve_batch a batch_id s in
      let (inserted, s') =
        import_rows (filter approved_row (filter (of_batch batch_id) approved.rows)) approved in
      finish_batch a batch_id inserted s'

  unfoldable pub submit_lead_import_batch :
      Approval → ℕ → Staging → Result ImportError (Unit {0}) × Staging
  unfolding submit_checked submit_write
  submit_lead_import_batch a batch_id s = elim (submit_checked batch_id s) [
    | ok u ↦ (ok tt, submit_write a batch_id s)
    | err e ↦ (err e, s)
  ]
