-- ===== src/Import/Batch.antt =====
-- Batches and rows as they are stored, and how a batch is created and loaded
-- (src/lib/lead-import-batch.ts, src/lib/lead-import-concurrency.ts,
-- src/lib/lead-import-concurrency-contract.ts). Two staged rows of a batch never share a row number or
-- an idempotency key: the database refuses the second.
use crm_mcd.Prelude.{
  ℕ, ◌+◌, Bool, true, false, ◌&&◌, Option, none, some, List, ◌∷◌, String, str_eq, Date, ◌==◌,
  Result, ok, ◌>>=◌, or_throw, filter, find, first_where, update,
}
use crm_mcd.Import.{BatchStatus, RowStatus}

-- `rowHash` in lower case, the payload as JSON and the keys are only compared: they are numbers, as ids
-- are. A payload that is equal as canonical JSON has the same number.
pub record Row : Type 0 where
  pub id : ℕ
  pub batch_id : ℕ
  pub row_number : ℕ
  pub row_hash : ℕ
  pub idempotency_key : ℕ
  pub payload : ℕ
  pub status : RowStatus
  pub dedupe_key : Option ℕ
  pub existing_lead_id : Option ℕ
  pub created_lead_id : Option ℕ

pub record BatchIdentity : Type 0 where
  pub local_run_id : ℕ
  pub operator_name : String
  pub source_adapter : String
  pub source_adapter_version : String
  pub manifest_hash : ℕ
  pub client_version : String

pub record Batch : Type 0 where
  pub id : ℕ
  pub identity : BatchIdentity
  pub key_id : ℕ
  pub status : BatchStatus
  pub row_count : ℕ
  pub inserted_count : ℕ
  pub duplicate_count : ℕ
  pub rejected_count : ℕ
  pub suppressed_count : ℕ
  pub approval_recorded_at : Option Date
  pub approval_reference : Option String
  pub submitted_at : Option Date
  pub completed_at : Option Date

-- A Lead that an import made: the key that it is deduplicated by, and the identifiers it is reached at.
pub record ImportedLead : Type 0 where
  pub id : ℕ
  pub dedupe_key : ℕ
  pub source_row : Option ℕ
  pub is_referral : Bool

pub record Staging : Type 0 where
  pub batches : List Batch
  pub rows : List Row
  pub leads : List ImportedLead
  pub suppressed : List ℕ
  pub next_id : ℕ

pub data ImportError : Type 0 where
  batch_not_found batch_state key_moved row_moved hash_changed content_changed : ImportError
  invalid_payload replay_conflict : ImportError

abbrev pub batch_key : Batch → ℕ
batch_key b = b.id

abbrev pub row_key : Row → ℕ
row_key r = r.id

abbrev pub of_batch : ℕ → Row → Bool
of_batch i r = r.batch_id == i

-- `loadBatchWithRows`.
unfoldable pub load_batch_with_rows : ℕ → Staging → Result ImportError (Batch × List Row)
load_batch_with_rows i s = do
  batch ← or_throw (find batch_key i s.batches) ImportError.batch_not_found
  ok (batch, filter (of_batch i) s.rows)

abbrev pub set_batch : ℕ → (Batch → Batch) → Staging → Staging
set_batch i f s = record s { batches = update batch_key i f s.batches }

abbrev pub of_run : ℕ → Batch → Bool
of_run run b = b.identity.local_run_id == run

-- `createLeadImportBatch`: the batch of that run, and whether it was created.
unfoldable pub create_lead_import_batch : BatchIdentity → ℕ → Staging → (Batch × Bool) × Staging
create_lead_import_batch input key s = elim (first_where (of_run input.local_run_id) s.batches) [
  | some existing ↦ ((existing, false), s)
  | none ↦
      let created : Batch = record {
        id = s.next_id;
        identity = input;
        key_id = key;
        status = BatchStatus.draft;
        row_count = 0;
        inserted_count = 0;
        duplicate_count = 0;
        rejected_count = 0;
        suppressed_count = 0;
        approval_recorded_at = none;
        approval_reference = none;
        submitted_at = none;
        completed_at = none;
      } in
      ((created, true), record s { batches = created ∷ s.batches; next_id = s.next_id + 1 })
]

-- `assertImmutableLeadImportBatchReplay`.
unfoldable pub same_identity : Batch → BatchIdentity → ℕ → Bool
same_identity b input key =
    b.identity.local_run_id == input.local_run_id
    && (str_eq b.identity.operator_name input.operator_name
        && (str_eq b.identity.source_adapter input.source_adapter
            && (str_eq b.identity.source_adapter_version input.source_adapter_version
                && (b.identity.manifest_hash == input.manifest_hash
                    && (str_eq b.identity.client_version input.client_version
                        && b.key_id == key)))))
