-- ===== src/Servicing/Scan.antt =====
-- Which accounts the loop of `runServiceCadenceSweep` (src/lib/service-cadence-jobs.ts) picks.
use crm_mcd.Prelude.{
  ℕ, ◌≡◌, ◌-◌, ◌≤◌, ◌<◌, Bool, ◌==◌, List, [], ◌∷◌, Date, arith, length, count_where,
}
use crm_mcd.Servicing.{Desk, Account}
use crm_mcd.Servicing.Cadence.{
  CadenceCandidate, Judgement, judge_account, judge_package, scan, open_cadence_case,
  assess_cadence,
}

abbrev pub is_for : ℕ → CadenceCandidate → Bool
is_for i c = c.client_account_id == i

-- An account that is picked is due, and has no open check-in.
pub judge_account-due :
    (now : Date) (s : Desk) (a : Account) {c : CadenceCandidate}
    → judge_account now s a ≡ Judgement.due c
    → (c.client_account_id ≡ a.id)
      × (count_where (open_cadence_case a.id) s.cases ≡ 0)
      × (c.due_at ≤ now)
unfolding judge_account judge_package assess_cadence
judge_account-due now s a h = ground arith

-- The limit bounds the candidates.
pub length-scan :
    (now : Date) (s : Desk) (room : ℕ) (accounts : List Account)
    → 0 < room
    → length (scan now s room accounts).candidates ≤ room
unfolding scan
length-scan now s room [] h = ground arith
length-scan now s room (a ∷ rest) h =
    let rest_length = length-scan now s (room - 1) rest in
    ground (arith, length-scan now s room rest h, rest_length)

-- An account is picked no more often than it stands in the list.
pub count_where-scan :
    (now : Date) (s : Desk) (room : ℕ) (accounts : List Account) (i : ℕ)
    → count_where (is_for i) (scan now s room accounts).candidates
      ≤ count_where (λ a. a.id == i) accounts
unfolding scan count_where
count_where-scan now s room [] i = ground arith
count_where-scan now s room (a ∷ rest) i = ground (
  arith,
  count_where-scan now s room rest i,
  count_where-scan now s (room - 1) rest i,
  judge_account-due now s a,
)

-- An account with an open check-in is not picked.
pub scan-busy :
    (now : Date) (s : Desk) (room : ℕ) (accounts : List Account) (i : ℕ)
    → 0 < count_where (open_cadence_case i) s.cases
    → count_where (is_for i) (scan now s room accounts).candidates ≡ 0
unfolding scan count_where
scan-busy now s room [] i h = ground arith
scan-busy now s room (a ∷ rest) i h = ground (
  arith,
  scan-busy now s room rest i h,
  scan-busy now s (room - 1) rest i h,
  judge_account-due now s a,
)
