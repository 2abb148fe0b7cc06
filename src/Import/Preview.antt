-- ===== src/Import/Preview.antt =====
-- A batch is previewed (`previewLeadImportBatch` of src/lib/lead-import-batch.ts). `parse` is the row
-- schema (zod) followed by `buildLeadDedupeKey`, `normalizeEmail` and `normalizePhone`: it gives the
-- digest and the identifiers of a payload, or nothing where the schema refuses it.
use crm_mcd.Prelude.{
  ℕ, Bool, true, false, Option, none, some, List, [], ◌∷◌, ◌==◌, Result, ok, err, ◌>>=◌, ◌>>◌,
  require, filter, length, any, if◌then◌else◌, first_where, update, insertion_sort, ltb,
}
use crm_mcd.Import.{BatchStatus, RowStatus}
use crm_mcd.Import.Workflow.{recommend_lead_import_batch_status}
use crm_mcd.Import.Batch.{
  Row, Batch, Staging, ImportedLead, ImportError, load_batch_with_rows, set_batch, row_key,
}

pub record Candidate : Type 0 where
  pub dedupe_key : ℕ
  pub identifiers : List ℕ
  pub is_referral : Bool

abbrev pub member : ℕ → List ℕ → Bool
member k xs = any (λ x. x == k) xs

abbrev pub with_dedupe_key : ℕ → ImportedLead → Bool
with_dedupe_key k l = l.dedupe_key == k

-- What a preview writes into a row.
pub record Finding : Type 0 where
  pub status : RowStatus
  pub dedupe_key : Option ℕ
  pub existing_lead_id : Option ℕ

abbrev pub record_finding : Finding → Row → Row
record_finding f r = record r {
  status = f.status;
  dedupe_key = f.dedupe_key;
  existing_lead_id = f.existing_lead_id;
  created_lead_id = none;
}

unfoldable pub judge_new : Candidate → Staging → Finding
judge_new c s = elim (first_where (with_dedupe_key c.dedupe_key) s.leads) [
  | some lead ↦ record {
    status = RowStatus.possible_existing_duplicate;
    dedupe_key = some c.dedupe_key;
    existing_lead_id = some lead.id;
  }
  | none ↦ record {
    status =
        if any (λ i. member i s.suppressed) c.identifiers
        then RowStatus.suppressed
        else RowStatus.valid;
    dedupe_key = some c.dedupe_key;
    existing_lead_id = none;
  }
]

-- The judgement of a row, with the keys that the earlier rows of the batch have taken.
unfoldable pub judge : Option Candidate → List ℕ → Staging → Finding
unfolding judge_new
judge none seen s = record {
  status = RowStatus.rejected;
  dedupe_key = none;
  existing_lead_id = none;
}
judge (some c) seen s =
    if member c.dedupe_key seen
    then record {
      status = RowStatus.duplicate_in_batch;
      dedupe_key = some c.dedupe_key;
      existing_lead_id = none;
    }
    else judge_new c s

unfoldable pub seen_with : Option Candidate → List ℕ → List ℕ
seen_with none seen = seen
seen_with (some c) seen = if member c.dedupe_key seen then seen else c.dedupe_key ∷ seen

abbrev pub previews : BatchStatus → Bool
previews BatchStatus.rows_received = true
previews BatchStatus.previewed = true
previews BatchStatus.review_required = true
previews _ = false

abbrev is_duplicate : RowStatus → Bool
is_duplicate RowStatus.duplicate_in_batch = true
is_duplicate RowStatus.possible_existing_duplicate = true
is_duplicate _ = false

abbrev is_suppressed : RowStatus → Bool
is_suppressed RowStatus.suppressed = true
is_suppressed _ = false

abbrev is_rejected : RowStatus → Bool
is_rejected RowStatus.rejected = true
is_rejected _ = false

abbrev pub conclude : List RowStatus → Batch → Batch
conclude statuses b = record b {
  status = recommend_lead_import_batch_status statuses;
  duplicate_count = length (filter is_duplicate statuses);
  rejected_count = length (filter is_rejected statuses);
  suppressed_count = length (filter is_suppressed statuses);
}

abbrev pub row_before : Row → Row → Bool
row_before r o = ltb r.row_number o.row_number

module _ (parse : ℕ → Option Candidate) where
  -- The loop: the statuses that it collects, and the database.
  unfoldable pub preview_rows : List Row → List ℕ → Staging → List RowStatus × Staging
  unfolding judge seen_with
  preview_rows [] seen s = ([], s)
  preview_rows (r ∷ rest) seen s =
      let found = judge (parse r.payload) seen s in
      let (statuses, s') =
        preview_rows rest (seen_with (parse r.payload) seen)
          (record s { rows = update row_key r.id (record_finding found) s.rows }) in
      (found.status ∷ statuses, s')

  unfoldable pub preview_checked : ℕ → Staging → Result ImportError (List Row)
  unfolding load_batch_with_rows
  preview_checked batch_id s = do
    loaded ← load_batch_with_rows batch_id s
    require (previews loaded.0.status) ImportError.batch_state
    ok (insertion_sort row_before loaded.1)

  unfoldable pub preview_write : ℕ → List Row → Staging → Staging
  unfolding preview_rows
  preview_write batch_id rows s =
      let (statuses, s') = preview_rows rows [] s in set_batch batch_id (conclude statuses) s'

  unfoldable pub preview_lead_import_batch : ℕ → Staging → Result ImportError (Unit {0}) × Staging
  unfolding preview_checked preview_write
  preview_lead_import_batch batch_id s = elim (preview_checked batch_id s) [
    | ok rows ↦ (ok tt, preview_write batch_id rows s)
    | err e ↦ (err e, s)
  ]
