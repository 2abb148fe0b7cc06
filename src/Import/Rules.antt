-- ===== src/Import/Rules.antt =====
-- What the import's state rules guarantee (src/lib/lead-import-workflow.ts).
use crm_mcd.Prelude.{
  ℕ, ◌≡◌, ◌≢◌, refl, ap, ◌+◌, ◌<◌, ◌≤◌, ◌&&◌, Bool, true, false, List, [], ◌∷◌, length, filter, all,
  All, All-map, arith,
}
use crm_mcd.Import.{BatchStatus, RowStatus}
use crm_mcd.Import.Workflow.{
  may_transition_lead_import_batch, is_refused, summarize_lead_import_rows,
  recommend_lead_import_batch_status,
}

-- How far a batch and a row have come.
abbrev pub batch_rank : BatchStatus → ℕ
batch_rank BatchStatus.draft = 0
batch_rank BatchStatus.rows_received = 1
batch_rank BatchStatus.previewed = 2
batch_rank BatchStatus.review_required = 3
batch_rank BatchStatus.approved_for_submission = 4
batch_rank BatchStatus.submitted = 5
batch_rank BatchStatus.partially_accepted = 6
batch_rank BatchStatus.reconciliation_required = 7
batch_rank BatchStatus.completed = 8
batch_rank BatchStatus.failed = 8

abbrev pub row_rank : RowStatus → ℕ
row_rank RowStatus.received = 0
row_rank RowStatus.valid = 1
row_rank RowStatus.possible_existing_duplicate = 1
row_rank RowStatus.review_required = 1
row_rank RowStatus.pending_admin_review = 4
row_rank RowStatus.approved = 5
row_rank RowStatus.import_error = 3
row_rank RowStatus.duplicate_in_batch = 8
row_rank RowStatus.suppressed = 8
row_rank RowStatus.rejected = 8
row_rank RowStatus.imported = 8

-- Statuses that each follow the one before by the transition table.
unfoldable pub follows : BatchStatus → List BatchStatus → Bool
unfolding may_transition_lead_import_batch
follows from [] = true
follows from (to ∷ rest) = may_transition_lead_import_batch from to && follows to rest

may_transition-rank :
    (from to : BatchStatus)
    → may_transition_lead_import_batch from to ≡ true
    → batch_rank from < batch_rank to
unfolding may_transition_lead_import_batch
may_transition-rank from to h = ground arith

batch_rank_le : (q : BatchStatus) → batch_rank q ≤ 8
batch_rank_le q = ground arith

follows-rank :
    (from : BatchStatus) (steps : List BatchStatus)
    → follows from steps ≡ true
    → (batch_rank from + length steps ≤ 8) × All (λ q. batch_rank from < batch_rank q) steps
unfolding follows
follows-rank from [] h = (omega (arith, batch_rank_le from), tt)
follows-rank from (to ∷ rest) h =
    let allowed : may_transition_lead_import_batch from to ≡ true = ground arith in
    let further = may_transition-rank from to allowed in
    let (short, later) = follows-rank to rest (ground arith) in
    (
      omega (arith, further, short),
      (further, All-map _ _ rest (λ q after. omega (arith, further, after)) later),
    )

-- The transition table has no way back: statuses that each follow the one before by the table are eight at
-- most after the first, and the first is not among them.
pub table_moves_on :
    (from : BatchStatus) (steps : List BatchStatus)
    → follows from steps ≡ true
    → (length steps ≤ 8) × All (λ q. q ≢ from) steps
table_moves_on from steps h =
    let (short, later) = follows-rank from steps h in
    (
      omega (arith, short),
      All-map _ _ steps
          (λ q further same.
            let level : batch_rank q ≡ batch_rank from = ap batch_rank same in
            omega (arith, further, level))
          later,
    )

abbrev pub is_pending : RowStatus → Bool
is_pending RowStatus.pending_admin_review = true
is_pending _ = false

abbrev pub is_received : RowStatus → Bool
is_received RowStatus.received = true
is_received _ = false

-- The counts of a batch account for every row: valid, refused, for review or still to be previewed, and
-- only a row in an administrator's review is counted twice, as valid and for review.
pub summary_accounts_for_all :
    (rows : List RowStatus)
    → (summarize_lead_import_rows rows).valid_rows
        + (summarize_lead_import_rows rows).rejected_rows
        + (summarize_lead_import_rows rows).review_required_rows
        + length (filter is_received rows)
      ≡ (summarize_lead_import_rows rows).total_rows + length (filter is_pending rows)
unfolding summarize_lead_import_rows
summary_accounts_for_all [] = refl
summary_accounts_for_all (s ∷ rest) = ground (arith, summary_accounts_for_all rest)

all-length-filter {ℓ} :
    {A : Type ℓ} (p : A → Bool) (xs : List A) → all p xs ≡ true → length (filter p xs) ≡ length xs
all-length-filter p [] h = refl
all-length-filter p (x ∷ xs) h = ground (arith, all-length-filter p xs)

complete-all_refused :
    (s : RowStatus) (rest : List RowStatus)
    → recommend_lead_import_batch_status (s ∷ rest) ≡ BatchStatus.completed
    → all is_refused (s ∷ rest) ≡ true
unfolding recommend_lead_import_batch_status
complete-all_refused s rest h = ground arith

-- A batch is recommended as complete only if it has rows and all of them are refused.
pub complete_means_refused :
    (rows : List RowStatus)
    → recommend_lead_import_batch_status rows ≡ BatchStatus.completed
    → ((summarize_lead_import_rows rows).rejected_rows ≡ length rows) × (0 < length rows)
unfolding summarize_lead_import_rows recommend_lead_import_batch_status
complete_means_refused [] h = cc
complete_means_refused (s ∷ rest) h =
    (all-length-filter is_refused (s ∷ rest) (complete-all_refused s rest h), omega arith)
