-- ===== src/Import/Once.antt =====
-- An import makes a Lead at most once (`submitLeadImportBatch` of src/lib/lead-import-batch.ts).
use crm_mcd.Prelude.{
  ℕ, ◌≡◌, refl, Bool, false, Option, none, some, List, [], ◌∷◌, arith, ok, err, UniqueKeys, find,
  filter, first_where, Bool-cases, inl, inr, Option-cases, find-update_self, Result-cases, ap,
  subst, sym, ◌∙◌,
}
use crm_mcd.Import.{BatchStatus}
use crm_mcd.Import.Workflow.{may_transition_lead_import_batch}
use crm_mcd.Import.Batch.{
  Row, Batch, Staging, ImportedLead, ImportError, load_batch_with_rows, batch_key, of_batch,
}
use crm_mcd.Import.Preview.{Candidate, with_dedupe_key}
use crm_mcd.Import.Submit.{
  Approval, approve_batch, import_candidate, import_parsed, import_row, import_rows, finish_batch,
  final_status, submit_checked, submit_write, submit_lead_import_batch, approved_row,
  mark_submitted, mark_finished,
}

abbrev pub dedupe_key : ImportedLead → ℕ
dedupe_key l = l.dedupe_key

find-first_where :
    (k : ℕ) (ls : List ImportedLead)
    → first_where (with_dedupe_key k) ls ≡ none
    → find dedupe_key k ls ≡ none
unfolding first_where find
find-first_where k [] h = refl
find-first_where k (l ∷ ls) h = ground (arith, find-first_where k ls)

import_candidate-UniqueKeys :
    (r : Row) (c : Candidate) (s : Staging)
    → UniqueKeys dedupe_key s.leads
    → UniqueKeys dedupe_key (import_candidate r c s).leads
unfolding import_candidate UniqueKeys
import_candidate-UniqueKeys r c s u =
    elim (Option-cases (first_where (with_dedupe_key c.dedupe_key) s.leads)) [
      | inl e ↦ rw (e, import_candidate, UniqueKeys) (find-first_where c.dedupe_key s.leads e, u)
      | inr (clash, e) ↦ rw (e, import_candidate, UniqueKeys) u
    ]

module _ (parse : ℕ → Option Candidate) (fails : ℕ → Bool) where
  import_parsed-UniqueKeys :
      (r : Row) (found : Option Candidate) (s : Staging)
      → UniqueKeys dedupe_key s.leads
      → UniqueKeys dedupe_key (import_parsed parse fails r found s).leads
  unfolding import_parsed
  import_parsed-UniqueKeys r none s u = u
  import_parsed-UniqueKeys r (some c) s u = import_candidate-UniqueKeys r c s u

  import_row-UniqueKeys :
      (r : Row) (s : Staging)
      → UniqueKeys dedupe_key s.leads
      → UniqueKeys dedupe_key (import_row parse fails r s).leads
  unfolding import_row
  import_row-UniqueKeys r s u = elim (Bool-cases (fails r.id)) [
    | inl e ↦ rw e u
    | inr e ↦ rw e (import_parsed-UniqueKeys r (parse r.payload) s u)
  ]

  import_rows-UniqueKeys :
      (rows : List Row) (s : Staging)
      → UniqueKeys dedupe_key s.leads
      → UniqueKeys dedupe_key (import_rows parse fails rows s).1.leads
  unfolding import_rows
  import_rows-UniqueKeys [] s u = u
  import_rows-UniqueKeys (r ∷ rest) s u =
      import_rows-UniqueKeys rest (import_row parse fails r s) (import_row-UniqueKeys r s u)

  submit_write-UniqueKeys :
      (a : Approval) (batch_id : ℕ) (s : Staging)
      → UniqueKeys dedupe_key s.leads
      → UniqueKeys dedupe_key (submit_write parse fails a batch_id s).leads
  unfolding submit_write finish_batch
  submit_write-UniqueKeys a batch_id s u =
      import_rows-UniqueKeys
        (filter approved_row (filter (of_batch batch_id) (approve_batch a batch_id s).rows))
        (approve_batch a batch_id s) u

  -- A submission never leaves two Leads with one dedupe key, whatever the rows hold and whichever row
  -- transactions fail, if there were none before.
  pub submit-UniqueKeys :
      (a : Approval) (batch_id : ℕ) (s : Staging)
      → UniqueKeys dedupe_key s.leads
      → UniqueKeys dedupe_key (submit_lead_import_batch parse fails a batch_id s).1.leads
  unfolding submit_lead_import_batch
  submit-UniqueKeys a batch_id s u = elim (Result-cases (submit_checked batch_id s)) [
    | inl (v, e) ↦ rw (e, submit_lead_import_batch) (submit_write-UniqueKeys a batch_id s u)
    | inr (v, e) ↦ rw (e, submit_lead_import_batch) u
  ]

  import_row-batches : (r : Row) (s : Staging) → (import_row parse fails r s).batches ≡ s.batches
  unfolding import_row import_parsed import_candidate
  import_row-batches r s = ground arith

  import_rows-batches :
      (rows : List Row) (s : Staging) → (import_rows parse fails rows s).1.batches ≡ s.batches
  unfolding import_rows
  import_rows-batches [] s = refl
  import_rows-batches (r ∷ rest) s =
      import_rows-batches rest (import_row parse fails r s) ∙ import_row-batches r s

  submit_write-find :
      (a : Approval) (batch_id : ℕ) (s : Staging) {b : Batch}
      → find batch_key batch_id s.batches ≡ some b
      → (b' : Batch) × (rows : List Row) × (find batch_key batch_id
            (submit_write parse fails a batch_id s).batches
          ≡ some b')
        × (b'.status ≡ final_status rows)
  unfolding submit_write finish_batch approve_batch
  submit_write-find a batch_id s {b} h =
      let approved = approve_batch a batch_id s in
      let importable = filter approved_row (filter (of_batch batch_id) approved.rows) in
      let (inserted, after) = import_rows parse fails importable approved in
      let rows = filter (of_batch batch_id) after.rows in
      let submitted =
        find-update_self batch_key batch_id (mark_submitted a) s.batches (λ y. refl) h in
      let there =
        ap (find batch_key batch_id) (import_rows-batches importable approved) ∙ submitted in
      let finished =
        find-update_self batch_key batch_id (mark_finished a (final_status rows) inserted)
          after.batches (λ y. refl) there in
      (mark_finished a (final_status rows) inserted (mark_submitted a b), rows, finished, refl)

final_status-final :
    (rows : List Row)
    → may_transition_lead_import_batch (final_status rows) BatchStatus.approved_for_submission
      ≡ false
unfolding final_status may_transition_lead_import_batch
final_status-final rows = ground arith

submit_checked-find :
    (batch_id : ℕ) (s : Staging)
    → submit_checked batch_id s ≡ ok tt
    → (b : Batch) × (find batch_key batch_id s.batches ≡ some b)
unfolding submit_checked load_batch_with_rows
submit_checked-find batch_id s h = elim (Option-cases (find batch_key batch_id s.batches)) [
  | inl e ↦ absurd (ground arith)
  | inr (b, e) ↦ (b, e)
]

submit_checked-refused :
    (batch_id : ℕ) (s : Staging) (b : Batch)
    → find batch_key batch_id s.batches ≡ some b
    → may_transition_lead_import_batch b.status BatchStatus.approved_for_submission ≡ false
    → submit_checked batch_id s ≡ err ImportError.batch_state
unfolding submit_checked load_batch_with_rows
submit_checked-refused batch_id s b h closed = ground arith

submit_refused :
    (parse : ℕ → Option Candidate) (fails : ℕ → Bool) (a : Approval) (batch_id : ℕ) (s : Staging)
    {e : ImportError}
    → submit_checked batch_id s ≡ err e
    → submit_lead_import_batch parse fails a batch_id s ≡ (err e, s)
unfolding submit_lead_import_batch
submit_refused parse fails a batch_id s h = rw (h, submit_lead_import_batch) refl

submit_runs :
    (parse : ℕ → Option Candidate) (fails : ℕ → Bool) (a : Approval) (batch_id : ℕ) (s : Staging)
    → submit_checked batch_id s ≡ ok tt
    → submit_lead_import_batch parse fails a batch_id s
      ≡ (ok tt, submit_write parse fails a batch_id s)
unfolding submit_lead_import_batch
submit_runs parse fails a batch_id s h = rw (h, submit_lead_import_batch) refl

-- A batch is submitted once: after a submission that went through, any further submission of the batch,
-- with whatever approval and whichever row transactions fail, is refused as out of state and leaves the
-- database as it is.
pub submit_once :
    (parse parse' : ℕ → Option Candidate) (fails fails' : ℕ → Bool) (a a' : Approval) (batch_id : ℕ)
    (s : Staging)
    → submit_checked batch_id s ≡ ok tt
    → submit_lead_import_batch parse' fails' a' batch_id
        (submit_lead_import_batch parse fails a batch_id s).1
      ≡ (err ImportError.batch_state, (submit_lead_import_batch parse fails a batch_id s).1)
submit_once parse parse' fails fails' a a' batch_id s h =
    let (b, row) = submit_checked-find batch_id s h in
    let (b', rows, found, closed) = submit_write-find parse fails a batch_id s row in
    let after = submit_write parse fails a batch_id s in
    let refused =
      submit_refused parse' fails' a' batch_id after
        (submit_checked-refused batch_id after b' found (rw closed (final_status-final rows))) in
    subst
      (λ t.
        submit_lead_import_batch parse' fails' a' batch_id t.1 ≡ (err ImportError.batch_state, t.1))
      (sym (submit_runs parse fails a batch_id s h)) refused
