-- ===== src/Import/Upload.antt =====
-- Rows are staged (`uploadLeadImportRows` of src/lib/lead-import-batch.ts, with the replay test of
-- src/lib/lead-import-replay.ts and the payload's schema of src/lib/lead-import-contract.ts).
use crm_mcd.Prelude.{
  ℕ, ◌+◌, Bool, true, false, not, ◌&&◌, ◌||◌, Option, none, some, List, [], ◌∷◌, leb, ◌==◌, Result,
  ok, err, ◌>>=◌, ◌>>◌, require, length, any, if◌then◌else◌, first_where, count_where, or_else,
}
use crm_mcd.Import.{BatchStatus, RowStatus}
use crm_mcd.Import.Workflow.{may_transition_lead_import_batch}
use crm_mcd.Import.Batch.{
  Row, Batch, Staging, ImportError, load_batch_with_rows, set_batch, of_batch,
}

pub record Envelope : Type 0 where
  pub row_number : ℕ
  pub row_hash : ℕ
  pub idempotency_key : ℕ
  pub payload : ℕ

abbrev pub numbered : ℕ → Row → Bool
numbered n r = r.row_number == n

abbrev pub keyed : ℕ → Row → Bool
keyed k r = r.idempotency_key == k

-- `uploadLeadImportRowMetadataSchema`: 1 to 250 rows, no number and no key twice.
unfoldable pub distinct_rows : List Envelope → Bool
distinct_rows [] = true
distinct_rows (e ∷ rest) =
    not (any (λ o. o.row_number == e.row_number || o.idempotency_key == e.idempotency_key) rest)
    && distinct_rows rest

unfoldable pub valid_upload : List Envelope → Bool
unfolding distinct_rows
valid_upload es = leb 1 (length es) && (leb (length es) 250 && distinct_rows es)

-- `assertImmutableLeadImportReplay`.
unfoldable pub assert_immutable_lead_import_replay : Row → Envelope → Result ImportError (Unit {0})
assert_immutable_lead_import_replay r e = do
  require (r.row_number == e.row_number) ImportError.row_moved
  require (r.idempotency_key == e.idempotency_key) ImportError.key_moved
  require (r.row_hash == e.row_hash) ImportError.hash_changed
  require (r.payload == e.payload) ImportError.content_changed

abbrev key_agrees : Option Row → Envelope → Bool
key_agrees none e = true
key_agrees (some r) e = r.idempotency_key == e.idempotency_key

abbrev number_agrees : Option Row → Envelope → Bool
number_agrees none e = true
number_agrees (some r) e = r.row_number == e.row_number

unfoldable pub replay_of : Option Row → Envelope → Result ImportError (Unit {0})
unfolding assert_immutable_lead_import_replay
replay_of none e = ok tt
replay_of (some prior) e = assert_immutable_lead_import_replay prior e

-- One turn of the first loop, and the loop.
unfoldable pub check_replay : List Row → Envelope → Result ImportError (Unit {0})
unfolding replay_of
check_replay rows e = do
  require (key_agrees (first_where (numbered e.row_number) rows) e) ImportError.batch_state
  require (number_agrees (first_where (keyed e.idempotency_key) rows) e) ImportError.batch_state
  replay_of
      (or_else (first_where (numbered e.row_number) rows)
        (first_where (keyed e.idempotency_key) rows))
      e

unfoldable pub check_replays : List Row → List Envelope → Result ImportError (Unit {0})
unfolding check_replay
check_replays rows [] = ok tt
check_replays rows (e ∷ rest) = do check_replay rows e; check_replays rows rest

unfoldable pub staged_row : ℕ → ℕ → Envelope → Row
staged_row batch_id id e = record {
  id = id;
  batch_id = batch_id;
  row_number = e.row_number;
  row_hash = e.row_hash;
  idempotency_key = e.idempotency_key;
  payload = e.payload;
  status = RowStatus.received;
  dedupe_key = none;
  existing_lead_id = none;
  created_lead_id = none;
}

-- The second loop: rows that were there when the batch was loaded are passed over.
unfoldable pub stage_rows : ℕ → List Row → List Envelope → Staging → Staging
unfolding staged_row
stage_rows batch_id existing [] s = s
stage_rows batch_id existing (e ∷ rest) s = stage_rows batch_id existing rest (
    if any (keyed e.idempotency_key) existing
    then s
    else record s { rows = staged_row batch_id s.next_id e ∷ s.rows; next_id = s.next_id + 1 })

abbrev takes_rows : BatchStatus → Bool
takes_rows BatchStatus.draft = true
takes_rows BatchStatus.rows_received = true
takes_rows _ = false

abbrev pub receive : ℕ → Batch → Batch
unfolding may_transition_lead_import_batch
receive n b = record b {
  status =
      if may_transition_lead_import_batch b.status BatchStatus.rows_received
      then BatchStatus.rows_received
      else b.status;
  row_count = n;
}

unfoldable pub upload_checked : ℕ → List Envelope → Staging → Result ImportError (List Row)
unfolding load_batch_with_rows check_replays valid_upload
upload_checked batch_id es s = do
  loaded ← load_batch_with_rows batch_id s
  require (takes_rows loaded.0.status) ImportError.batch_state
  require (valid_upload es) ImportError.invalid_payload
  check_replays loaded.1 es
  ok loaded.1

unfoldable pub upload_write : ℕ → List Envelope → List Row → Staging → Staging
unfolding stage_rows
upload_write batch_id es existing s =
    let staged = stage_rows batch_id existing es s in
    set_batch batch_id (receive (count_where (of_batch batch_id) staged.rows)) staged

unfoldable pub upload_lead_import_rows :
    ℕ → List Envelope → Staging → Result ImportError (Unit {0}) × Staging
unfolding upload_checked upload_write
upload_lead_import_rows batch_id es s = elim (upload_checked batch_id es s) [
  | ok existing ↦ (ok tt, upload_write batch_id es existing s)
  | err e ↦ (err e, s)
]
