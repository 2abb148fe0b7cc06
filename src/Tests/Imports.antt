-- ===== src/Tests/Imports.antt =====
-- The theorems on the batch import at a concrete batch of three rows, two of them of one business.
use crm_mcd.Prelude.{
  ℕ, ◌≡◌, ◌≢◌, refl, ◌+◌, ◌<◌, ◌≤◌, All, Bool, true, false, Option, none, some, List, [], ◌∷◌,
  length, filter, ok, err, UniqueKeys, find,
}
use crm_mcd.Import.{BatchStatus, RowStatus}
use crm_mcd.Import.Workflow.{
  recommend_lead_import_batch_status, summarize_lead_import_rows, may_transition_lead_import_batch,
}
use crm_mcd.Import.Rules.{
  follows, table_moves_on, summary_accounts_for_all, complete_means_refused, is_received,
  is_pending,
}
use crm_mcd.Import.Batch.{Row, Batch, Staging, ImportError}
use crm_mcd.Import.Preview.{Candidate}
use crm_mcd.Import.Submit.{Approval, submit_checked, submit_lead_import_batch}
use crm_mcd.Import.Once.{dedupe_key, submit_once, submit-UniqueKeys}

abbrev row : ℕ → ℕ → RowStatus → Row
row i payload status = record {
  id = i;
  batch_id = 1;
  row_number = i;
  row_hash = i;
  idempotency_key = i;
  payload = payload;
  status = status;
  dedupe_key = none;
  existing_lead_id = none;
  created_lead_id = none;
}

abbrev batch : Batch
batch = record {
  id = 1;
  identity = record {
    local_run_id = 9;
    operator_name = "ops";
    source_adapter = "csv";
    source_adapter_version = "1";
    manifest_hash = 5;
    client_version = "1";
  };
  key_id = 2;
  status = BatchStatus.previewed;
  row_count = 3;
  inserted_count = 0;
  duplicate_count = 0;
  rejected_count = 0;
  suppressed_count = 0;
  approval_recorded_at = none;
  approval_reference = none;
  submitted_at = none;
  completed_at = none;
}

abbrev staging : Staging
staging = record {
  batches = batch ∷ [];
  rows =
      row 10 1 RowStatus.valid
      ∷ row 11 2 RowStatus.valid
      ∷ row 12 1 RowStatus.duplicate_in_batch
      ∷ [];
  leads = record { id = 20; dedupe_key = 2; source_row = none; is_referral = false } ∷ [];
  suppressed = [];
  next_id = 100;
}

abbrev parse : ℕ → Option Candidate
parse payload = some record { dedupe_key = payload; identifiers = []; is_referral = false }

abbrev never : ℕ → Bool
never i = false

abbrev approval : Approval
approval = record {
  operator_name = "lead";
  approval_recorded_at = 40;
  approval_reference = "ok-1";
  now = 50;
}

staging-submit_checked : submit_checked 1 staging ≡ ok tt
unfolding submit_checked find may_transition_lead_import_batch
staging-submit_checked = refl

submit_once_example :
    submit_lead_import_batch parse never approval 1
      (submit_lead_import_batch parse never approval 1 staging).1
    ≡ (err ImportError.batch_state, (submit_lead_import_batch parse never approval 1 staging).1)
submit_once_example =
    submit_once parse parse never never approval approval 1 staging staging-submit_checked

staging-UniqueKeys : UniqueKeys dedupe_key staging.leads
unfolding UniqueKeys find
staging-UniqueKeys = (refl, tt)

submit-UniqueKeys_example :
    UniqueKeys dedupe_key (submit_lead_import_batch parse never approval 1 staging).1.leads
submit-UniqueKeys_example = submit-UniqueKeys parse never approval 1 staging staging-UniqueKeys

may_approve :
    may_transition_lead_import_batch BatchStatus.review_required BatchStatus.approved_for_submission
    ≡ true
unfolding may_transition_lead_import_batch
may_approve = refl

abbrev usual_course : List BatchStatus
usual_course =
    BatchStatus.rows_received ∷ BatchStatus.previewed ∷ BatchStatus.review_required
    ∷ BatchStatus.approved_for_submission ∷ BatchStatus.submitted ∷ BatchStatus.partially_accepted
    ∷ BatchStatus.reconciliation_required ∷ BatchStatus.completed ∷ []

usual_course-follows : follows BatchStatus.draft usual_course ≡ true
unfolding follows may_transition_lead_import_batch
usual_course-follows = refl

table_moves_on_example : (length usual_course ≤ 8) × All (λ q. q ≢ BatchStatus.draft) usual_course
table_moves_on_example = table_moves_on BatchStatus.draft usual_course usual_course-follows

abbrev mixed : List RowStatus
mixed =
    RowStatus.received ∷ RowStatus.pending_admin_review ∷ RowStatus.suppressed
    ∷ RowStatus.import_error ∷ []

summary_accounts_for_all_example :
    (summarize_lead_import_rows mixed).valid_rows
      + (summarize_lead_import_rows mixed).rejected_rows
      + (summarize_lead_import_rows mixed).review_required_rows
      + length (filter is_received mixed)
    ≡ (summarize_lead_import_rows mixed).total_rows + length (filter is_pending mixed)
summary_accounts_for_all_example = summary_accounts_for_all mixed

abbrev refused : List RowStatus
refused = RowStatus.suppressed ∷ RowStatus.rejected ∷ []

refused-completed : recommend_lead_import_batch_status refused ≡ BatchStatus.completed
unfolding recommend_lead_import_batch_status
refused-completed = refl

complete_means_refused_example :
    ((summarize_lead_import_rows refused).rejected_rows ≡ length refused) × (0 < length refused)
complete_means_refused_example = complete_means_refused refused refused-completed
