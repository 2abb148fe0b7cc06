-- ===== src/Import/Workflow.antt =====
-- The state rules of an import (src/lib/lead-import-workflow.ts).
use crm_mcd.Prelude.{
  ℕ, Bool, true, false, ◌&&◌, List, [], ◌∷◌, length, filter, any, all, if◌then◌else◌,
}
use crm_mcd.Import.{BatchStatus, RowStatus}

-- `batchTransitions` and `rowTransitions`, by the pairs that they list.
unfoldable pub may_transition_lead_import_batch : BatchStatus → BatchStatus → Bool
may_transition_lead_import_batch BatchStatus.draft BatchStatus.rows_received = true
may_transition_lead_import_batch BatchStatus.draft BatchStatus.failed = true
may_transition_lead_import_batch BatchStatus.rows_received BatchStatus.previewed = true
may_transition_lead_import_batch BatchStatus.rows_received BatchStatus.failed = true
may_transition_lead_import_batch BatchStatus.previewed BatchStatus.review_required = true
may_transition_lead_import_batch BatchStatus.previewed BatchStatus.approved_for_submission = true
may_transition_lead_import_batch BatchStatus.previewed BatchStatus.failed = true
may_transition_lead_import_batch BatchStatus.review_required BatchStatus.approved_for_submission =
    true
may_transition_lead_import_batch BatchStatus.review_required BatchStatus.failed = true
may_transition_lead_import_batch BatchStatus.approved_for_submission BatchStatus.submitted = true
may_transition_lead_import_batch BatchStatus.approved_for_submission BatchStatus.failed = true
may_transition_lead_import_batch BatchStatus.submitted BatchStatus.partially_accepted = true
may_transition_lead_import_batch BatchStatus.submitted BatchStatus.completed = true
may_transition_lead_import_batch BatchStatus.submitted BatchStatus.reconciliation_required = true
may_transition_lead_import_batch BatchStatus.submitted BatchStatus.failed = true
may_transition_lead_import_batch BatchStatus.partially_accepted BatchStatus.completed = true
may_transition_lead_import_batch BatchStatus.partially_accepted
      BatchStatus.reconciliation_required =
    true
may_transition_lead_import_batch BatchStatus.partially_accepted BatchStatus.failed = true
may_transition_lead_import_batch BatchStatus.reconciliation_required BatchStatus.completed = true
may_transition_lead_import_batch BatchStatus.reconciliation_required BatchStatus.failed = true
may_transition_lead_import_batch _ _ = false

unfoldable pub may_transition_lead_import_record : RowStatus → RowStatus → Bool
may_transition_lead_import_record RowStatus.received RowStatus.valid = true
may_transition_lead_import_record RowStatus.received RowStatus.duplicate_in_batch = true
may_transition_lead_import_record RowStatus.received RowStatus.possible_existing_duplicate = true
may_transition_lead_import_record RowStatus.received RowStatus.suppressed = true
may_transition_lead_import_record RowStatus.received RowStatus.review_required = true
may_transition_lead_import_record RowStatus.received RowStatus.rejected = true
may_transition_lead_import_record RowStatus.received RowStatus.import_error = true
may_transition_lead_import_record RowStatus.valid RowStatus.pending_admin_review = true
may_transition_lead_import_record RowStatus.valid RowStatus.approved = true
may_transition_lead_import_record RowStatus.valid RowStatus.rejected = true
may_transition_lead_import_record RowStatus.valid RowStatus.import_error = true
may_transition_lead_import_record RowStatus.possible_existing_duplicate
      RowStatus.pending_admin_review =
    true
may_transition_lead_import_record RowStatus.possible_existing_duplicate RowStatus.rejected = true
may_transition_lead_import_record RowStatus.review_required RowStatus.pending_admin_review = true
may_transition_lead_import_record RowStatus.review_required RowStatus.rejected = true
may_transition_lead_import_record RowStatus.pending_admin_review RowStatus.approved = true
may_transition_lead_import_record RowStatus.pending_admin_review RowStatus.rejected = true
may_transition_lead_import_record RowStatus.approved RowStatus.imported = true
may_transition_lead_import_record RowStatus.approved RowStatus.import_error = true
may_transition_lead_import_record RowStatus.import_error RowStatus.pending_admin_review = true
may_transition_lead_import_record RowStatus.import_error RowStatus.rejected = true
may_transition_lead_import_record _ _ = false

abbrev pub requires_admin_review : RowStatus → Bool
requires_admin_review RowStatus.possible_existing_duplicate = true
requires_admin_review RowStatus.review_required = true
requires_admin_review RowStatus.pending_admin_review = true
requires_admin_review RowStatus.import_error = true
requires_admin_review _ = false

abbrev pub is_submitted : BatchStatus → Bool
is_submitted BatchStatus.submitted = true
is_submitted _ = false

abbrev pub is_approved : RowStatus → Bool
is_approved RowStatus.approved = true
is_approved _ = false

unfoldable pub may_create_lead_from_import : BatchStatus → RowStatus → Bool
may_create_lead_from_import batch row = is_submitted batch && is_approved row

abbrev pub is_import_error : RowStatus → Bool
is_import_error RowStatus.import_error = true
is_import_error _ = false

abbrev pub is_imported : RowStatus → Bool
is_imported RowStatus.imported = true
is_imported _ = false

-- `["DUPLICATE_IN_BATCH", "SUPPRESSED", "REJECTED"].includes(status)`, and the statuses of a valid row.
abbrev pub is_refused : RowStatus → Bool
is_refused RowStatus.duplicate_in_batch = true
is_refused RowStatus.suppressed = true
is_refused RowStatus.rejected = true
is_refused _ = false

abbrev pub is_valid : RowStatus → Bool
is_valid RowStatus.valid = true
is_valid RowStatus.pending_admin_review = true
is_valid RowStatus.approved = true
is_valid RowStatus.imported = true
is_valid _ = false

pub record BatchCounts : Type 0 where
  pub total_rows : ℕ
  pub valid_rows : ℕ
  pub rejected_rows : ℕ
  pub imported_rows : ℕ
  pub review_required_rows : ℕ
  pub reconciliation_required_rows : ℕ

unfoldable pub summarize_lead_import_rows : List RowStatus → BatchCounts
summarize_lead_import_rows statuses = record {
  total_rows = length statuses;
  valid_rows = length (filter is_valid statuses);
  rejected_rows = length (filter is_refused statuses);
  imported_rows = length (filter is_imported statuses);
  review_required_rows = length (filter requires_admin_review statuses);
  reconciliation_required_rows = length (filter is_import_error statuses);
}

unfoldable pub recommend_lead_import_batch_status : List RowStatus → BatchStatus
recommend_lead_import_batch_status [] = BatchStatus.rows_received
recommend_lead_import_batch_status (s ∷ rest) =
    if any is_import_error (s ∷ rest)
    then BatchStatus.reconciliation_required
    else (if any requires_admin_review (s ∷ rest)
        then BatchStatus.review_required
        else (if all is_refused (s ∷ rest) then BatchStatus.completed else BatchStatus.previewed))
