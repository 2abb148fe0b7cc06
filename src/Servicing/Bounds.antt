-- ===== src/Servicing/Bounds.antt =====
-- How much a sweep of `runServiceCadenceSweep` (src/lib/service-cadence-jobs.ts) writes.
use crm_mcd.Prelude.{
  ℕ, suc, ◌≡◌, ◌+◌, ◌≤◌, ◌<◌, refl, subst, Bool, true, Option, some, List, [], ◌∷◌, String, Date,
  arith, length, ok, get_or, Result-cases, inl, inr,
}
use crm_mcd.Lead.{Env}
use crm_mcd.Servicing.{Desk, transact}
use crm_mcd.Servicing.Cadence.{CadenceCandidate}
use crm_mcd.Servicing.Scan.{length-scan}
use crm_mcd.Servicing.Sweep.{
  Quantity, rounded_up, CadenceOptions, CadenceReport, cadence_limit, cadence_report,
  active_accounts, cadence_tally, sweep_opened, open_check_in, open_check_ins, sweep_checked,
  run_service_cadence_sweep,
}
use crm_mcd.Servicing.Keys.{sweep_checked-opens}

open_check_ins-length :
    (ids : ℕ → ℕ) (n : ℕ) (now : Date) (cs : List CadenceCandidate) (s : Desk) {t : Desk}
    → open_check_ins ids n now cs s ≡ ok t
    → (length t.cases ≡ length s.cases + length cs)
      × (length t.audits ≡ length s.audits + length cs)
      × (t.accounts ≡ s.accounts)
unfolding open_check_ins open_check_in
open_check_ins-length ids n now [] s h = (ground arith, ground arith, ground arith)
open_check_ins-length ids n now (c ∷ cs) s {t} h =
    let rest = open_check_ins-length ids (suc n) now cs (open_check_in (ids n) now c s) {t = t} in
    (ground (arith, rest), ground (arith, rest), ground (arith, rest))

cadence_limit-range :
    (limit : Option Quantity)
    → (0 < rounded_up (cadence_limit limit)) × (rounded_up (cadence_limit limit) ≤ 500)
unfolding cadence_limit
cadence_limit-range limit = ground arith

cadence_limit-asked :
    (limit : Option Quantity) (q : Quantity)
    → limit ≡ some q
    → 0 < q.whole
    → rounded_up (cadence_limit limit) ≤ rounded_up q
unfolding cadence_limit
cadence_limit-asked limit q given some_whole = ground arith

sweep_opened-length :
    (before : String → String → Bool) (ids : ℕ → ℕ) (now : Date) (options : CadenceOptions)
    (s : Desk)
    → (length (sweep_opened before ids now options s)
        ≡ (cadence_report before ids now options s).opened)
      × (length (sweep_opened before ids now options s) ≤ rounded_up (cadence_limit options.limit))
unfolding sweep_opened cadence_report cadence_tally
sweep_opened-length before ids now options s =
    let short =
      length-scan now s (rounded_up (cadence_limit options.limit)) (active_accounts before ids s)
        (cadence_limit-range options.limit).0 in
    (ground (arith, short), ground (arith, short))

sweep_checked-report :
    (before : String → String → Bool) (ids : ℕ → ℕ) (env : Env) (options : CadenceOptions)
    (s : Desk) {done : CadenceReport × Desk}
    → sweep_checked before ids env options s ≡ ok done
    → done.0 ≡ cadence_report before ids (get_or options.now env.now) options s
unfolding sweep_checked
sweep_checked-report before ids env options s h = ground arith

cadence_report-limit :
    (before : String → String → Bool) (ids : ℕ → ℕ) (now : Date) (options : CadenceOptions)
    (s : Desk)
    → (cadence_report before ids now options s).limit ≡ cadence_limit options.limit
unfolding cadence_report
cadence_report-limit before ids now options s = refl

-- What a sweep that ends with a report has written.
pub record IsBounded (options : CadenceOptions) (s : Desk) (report : CadenceReport) (t : Desk)
    : Type 0 where
  pub few : report.opened ≤ rounded_up report.limit
  pub at_most_500 : rounded_up report.limit ≤ 500
  pub asked : (q : Quantity) → options.limit ≡ some q → 0 < q.whole → report.opened ≤ rounded_up q
  pub cases : length t.cases ≡ length s.cases + report.opened
  pub audits : length t.audits ≡ length s.audits + report.opened
  pub accounts : t.accounts ≡ s.accounts
  pub dry : options.dry_run ≡ true → t ≡ s

sweep_opened-dry :
    (before : String → String → Bool) (ids : ℕ → ℕ) (now : Date) (options : CadenceOptions)
    (s : Desk)
    → options.dry_run ≡ true
    → sweep_opened before ids now options s ≡ []
unfolding sweep_opened
sweep_opened-dry before ids now options s h = ground arith

open_check_ins-none :
    (ids : ℕ → ℕ) (now : Date) (cs : List CadenceCandidate) (s : Desk) {t : Desk}
    → open_check_ins ids 0 now cs s ≡ ok t
    → cs ≡ []
    → t ≡ s
unfolding open_check_ins
open_check_ins-none ids now [] s h e = ground arith
open_check_ins-none ids now (c ∷ cs) s h e = cc

sweep_checked-IsBounded :
    (before : String → String → Bool) (ids : ℕ → ℕ) (env : Env) (options : CadenceOptions)
    (s : Desk) (done : CadenceReport × Desk)
    → sweep_checked before ids env options s ≡ ok done
    → IsBounded options s done.0 done.1
sweep_checked-IsBounded before ids env options s done h =
    let now = get_or options.now env.now in
    let opens = sweep_checked-opens before ids env options s h in
    let reported = sweep_checked-report before ids env options s h in
    let counted = sweep_opened-length before ids now options s in
    let limit = cadence_report-limit before ids now options s in
    let written =
      open_check_ins-length ids 0 now (sweep_opened before ids now options s) s {t = done.1}
        opens in
    record {
      few = rw (reported, limit) (omega (arith, counted));
      at_most_500 = rw (reported, limit) (omega (arith, cadence_limit-range options.limit));
      asked = λ q given some_whole.
          let within = cadence_limit-asked options.limit q given some_whole in
          rw reported (omega (arith, counted, within));
      cases = rw reported (omega (arith, counted, written));
      audits = rw reported (omega (arith, counted, written));
      accounts = written.2;
      dry = λ e.
          open_check_ins-none ids now (sweep_opened before ids now options s) s {t = done.1} opens
            (sweep_opened-dry before ids now options s e);
    }

-- A sweep that ends with a report has opened no more cases than its limit, rounded up to a whole number, which is 500
-- at most and, where a limit of at least one was asked for, no more than that one rounded up; it has written one audit
-- row each and no account, and in a dry run nothing.
pub sweep-IsBounded :
    (before : String → String → Bool) (ids : ℕ → ℕ) (env : Env) (options : CadenceOptions)
    (s : Desk) {report : CadenceReport}
    → (run_service_cadence_sweep before ids env options s).0 ≡ ok report
    → IsBounded options s report (run_service_cadence_sweep before ids env options s).1
unfolding run_service_cadence_sweep transact
sweep-IsBounded before ids env options s {report} h =
    elim (Result-cases (sweep_checked before ids env options s)) [
      | inl (done, e) ↦
          let hit = rw e at h in
          let same : done.0 ≡ report = cc in
          rw e (
            subst (λ r. IsBounded options s r done.1) same
              (sweep_checked-IsBounded before ids env options s done e))
      | inr (thrown, e) ↦ cc (rw e at h)
    ]
