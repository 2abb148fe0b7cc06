-- ===== src/Import.antt =====
-- The batch import of Leads: the statuses of src/lib/lead-import-contract.ts, and the rows and batches of
-- prisma/schema.prisma that src/lib/lead-import-batch.ts stages, previews and submits.
pub mod Workflow
pub mod Batch
pub mod Upload
pub mod Preview
pub mod Submit
pub mod Rules
pub mod Once
use crm_mcd.Prelude.{ℕ, Bool, Option, List, String, Date}

pub data BatchStatus : Type 0 where
  draft rows_received previewed review_required approved_for_submission submitted : BatchStatus
  partially_accepted completed failed reconciliation_required : BatchStatus

pub data RowStatus : Type 0 where
  received valid duplicate_in_batch possible_existing_duplicate suppressed review_required :
      RowStatus
  rejected pending_admin_review approved imported import_error : RowStatus
