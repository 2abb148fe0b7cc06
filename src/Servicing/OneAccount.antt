-- ===== src/Servicing/OneAccount.antt =====
-- One client account for a Lead: the checks of `createClientAccount` (src/lib/client-servicing-actions.ts) and
-- `createClientAccountFromWonLead` (src/lib/lead-client-account.ts), with the operations that come after.
use crm_mcd.Prelude.{
  ℕ, ◌≡◌, ◌≤◌, refl, Bool, Option, none, some, List, [], ◌∷◌, String, Date, arith, ok, holds, ap,
  sym, ◌∙◌, count_where, first_where, update, count_where-update_same, Bool-cases, inl, inr,
}
use crm_mcd.Lead.{Env, User}
use crm_mcd.Servicing.{Desk, SourceLead, Account, account_key}
use crm_mcd.Servicing.Accounts.{
  AccountInput, of_lead, create_client_account, create_account_checked, create_account_write,
  source_lead, new_account, create_client_account_from_won_lead, won_lead_checked, won_lead_write,
  insert_account, account_from_lead,
}
use crm_mcd.Servicing.Launch.{
  PaymentState, confirm_client_launch, confirm_checked, confirm_write, confirm_touch,
  complete_client_launch, complete_checked, complete_write, complete_touch, launch_account,
}
use crm_mcd.Servicing.Cases.{
  CaseTrigger, open_client_service_case, open_checked, open_write, open_touch,
  record_service_response, response_checked, response_write, progress_case, responded,
  resolve_client_service_case, resolve_checked, resolve_write, resolve_touch,
}
use crm_mcd.Servicing.Standing.{
  record_payment_resolved, standing_checked, payment_write, payment_touch,
  transfer_client_service_to_house, house_write, house_touch, record_agent_continues_service,
  retain_checked, retain_write,
}
use crm_mcd.Servicing.Sweep.{open_check_in}
use crm_mcd.Servicing.Keys.{sweep-keeps}
use crm_mcd.Servicing.Runs.{Demand, serve, serve_all, transact-keeps, serve_all-keeps}

unfoldable pub OnePerLead : Desk → Type 0
OnePerLead s = (i : ℕ) → count_where (of_lead i) s.accounts ≤ 1

pub count_where-first_none {ℓ} :
    {A : Type ℓ} (p : A → Bool) (xs : List A) → first_where p xs ≡ none → count_where p xs ≡ 0
unfolding count_where first_where
count_where-first_none p [] h = refl
count_where-first_none p (x ∷ xs) h = ground (arith, count_where-first_none p xs)

-- An account that names a Lead which no account had.
insert-OnePerLead :
    (a : Account) (accounts : List Account)
    → ((i : ℕ) → a.lead_id ≡ some i → count_where (of_lead i) accounts ≡ 0)
    → ((i : ℕ) → count_where (of_lead i) accounts ≤ 1)
    → (i : ℕ) → count_where (of_lead i) (a ∷ accounts) ≤ 1
unfolding count_where
insert-OnePerLead a accounts free h i = ground (arith, free i, h i)

source_lead-free :
    (env : Env) (input : AccountInput) (s : Desk) (i : ℕ) {a : User × Option SourceLead}
    → create_account_checked env input s ≡ ok a
    → input.lead_id ≡ some i
    → first_where (of_lead i) s.accounts ≡ none
unfolding create_account_checked source_lead
source_lead-free env input s i h e = ground arith

won_lead-first_none :
    (env : Env) (i : ℕ) (s : Desk) {user : User} {lead : SourceLead}
    → won_lead_checked env i s ≡ ok (user, lead, none)
    → first_where (of_lead lead.id) s.accounts ≡ none
unfolding won_lead_checked
won_lead-first_none env i s h = ground arith

create-OnePerLead :
    (env : Env) (input : AccountInput) (s : Desk)
    → OnePerLead s
    → OnePerLead (create_client_account env input s).1
unfolding create_client_account OnePerLead create_account_write insert_account new_account
create-OnePerLead env input s h =
    transact-keeps OnePerLead (create_account_checked env input s) (create_account_write env input)
      s h
      (λ a e.
        insert-OnePerLead (new_account env input a.1) s.accounts
          (λ i named.
            count_where-first_none (of_lead i) s.accounts (source_lead-free env input s i e named))
          h)

from_lead_write-OnePerLead :
    (env : Env) (i : ℕ) (code : String) (user : User) (lead : SourceLead) (found : Option Account)
    (s : Desk)
    → OnePerLead s
    → won_lead_checked env i s ≡ ok (user, lead, found)
    → OnePerLead (won_lead_write env code (user, lead, found) s).1
unfolding OnePerLead won_lead_write insert_account account_from_lead
from_lead_write-OnePerLead env i code user lead (some account) s h e = h
from_lead_write-OnePerLead env i code user lead none s h e =
    insert-OnePerLead (account_from_lead env code lead) s.accounts
      (λ j named.
        let same : lead.id ≡ j = cc in
        count_where-first_none (of_lead j) s.accounts
          (ap (λ n. first_where (of_lead n) s.accounts) (sym same) ∙ won_lead-first_none env i s e))
      h

-- A write that leaves the Lead of an account.
update-OnePerLead :
    (j : ℕ) (f : Account → Account) (accounts : List Account)
    → ((a : Account) → (f a).lead_id ≡ a.lead_id)
    → ((i : ℕ) → count_where (of_lead i) accounts ≤ 1)
    → (i : ℕ) → count_where (of_lead i) (update account_key j f accounts) ≤ 1
update-OnePerLead j f accounts same h i = omega (
  arith,
  h i,
  count_where-update_same account_key (of_lead i) j f accounts (λ a. ap (λ l. holds l i) (same a)),
)

open_touch-lead :
    (now : Date) (t : CaseTrigger) (a : Account) → (open_touch now t a).lead_id ≡ a.lead_id
unfolding open_touch
open_touch-lead now t a = ground arith

confirm_touch-lead :
    (now : Date) (p : PaymentState) (a : Account) → (confirm_touch now p a).lead_id ≡ a.lead_id
unfolding confirm_touch
confirm_touch-lead now p a = ground arith

complete_write-OnePerLead :
    (env : Env) (note : String) (user : User) (account : Account) (s : Desk)
    → OnePerLead s
    → OnePerLead (complete_write env note (user, account) s).1
unfolding OnePerLead complete_write launch_account complete_touch
complete_write-OnePerLead env note user account s h =
    elim (Bool-cases account.launch_checklist_complete) [
      | inl done ↦ rw done h
      | inr left ↦ rw left (
          update-OnePerLead account.id (complete_touch env.now account.current_on_payments)
            s.accounts (λ a. refl) h)
    ]

progress_case-OnePerLead :
    (now : Date) (c : Option ℕ) (i : ℕ) (s : Desk)
    → OnePerLead s
    → OnePerLead (progress_case now c i s)
unfolding OnePerLead progress_case
progress_case-OnePerLead now none i s h = h
progress_case-OnePerLead now (some c) i s h = h

serve-OnePerLead : (env : Env) (d : Demand) (s : Desk) → OnePerLead s → OnePerLead (serve env d s)
unfolding serve OnePerLead confirm_client_launch confirm_write create_client_account_from_won_lead
    complete_client_launch open_client_service_case open_write record_service_response
    response_write resolve_client_service_case resolve_write resolve_touch record_payment_resolved
    payment_write payment_touch transfer_client_service_to_house house_write house_touch
    record_agent_continues_service retain_write open_check_in
serve-OnePerLead env (Demand.create input) s h = create-OnePerLead env input s h
serve-OnePerLead env (Demand.create_from_lead j code) s h =
    transact-keeps OnePerLead (won_lead_checked env j s) (won_lead_write env code) s h
      (λ a e. from_lead_write-OnePerLead env j code a.0 a.1 a.2 s h e)
serve-OnePerLead env (Demand.confirm_launch j p note) s h =
    transact-keeps OnePerLead (confirm_checked env j s) (confirm_write env j p note) s h (λ a e.
      update-OnePerLead j (confirm_touch env.now p) s.accounts (confirm_touch-lead env.now p) h)
serve-OnePerLead env (Demand.complete_launch j note) s h =
    transact-keeps OnePerLead (complete_checked env j s) (complete_write env note) s h
      (λ a e. complete_write-OnePerLead env note a.0 a.1 s h)
serve-OnePerLead env (Demand.open_case input) s h =
    transact-keeps OnePerLead (open_checked env input s) (open_write env input) s h (λ a e.
      update-OnePerLead input.client_account_id (open_touch env.now input.trigger) s.accounts
        (open_touch-lead env.now input.trigger) h)
serve-OnePerLead env (Demand.respond j k note) s h =
    transact-keeps OnePerLead (response_checked env j k s) (response_write env j k note) s h (λ a e.
      progress_case-OnePerLead env.now k j _
        (update-OnePerLead j (responded env.now) s.accounts (λ x. refl) h))
serve-OnePerLead env (Demand.resolve j k resolution) s h =
    transact-keeps OnePerLead (resolve_checked env j k s) (resolve_write env j k resolution) s h
      (λ a e. update-OnePerLead j _ s.accounts (λ x. refl) h)
serve-OnePerLead env (Demand.payment_resolved j note) s h =
    transact-keeps OnePerLead (standing_checked env j s) (payment_write env j note) s h
      (λ a e. update-OnePerLead j (payment_touch env.now) s.accounts (λ x. refl) h)
serve-OnePerLead env (Demand.to_house j reason note) s h =
    transact-keeps OnePerLead (standing_checked env j s) (house_write env j reason note) s h
      (λ a e. update-OnePerLead j (house_touch env.now note) s.accounts (λ x. refl) h)
serve-OnePerLead env (Demand.continue_service j note) s h =
    transact-keeps OnePerLead (retain_checked env j s) (retain_write env j note) s h (λ a e. h)
serve-OnePerLead env (Demand.check_in before ids options) s h =
    sweep-keeps OnePerLead (λ k now candidate u free one. one) before ids env options s h

-- By its own checks, served one request after another, the desk never holds two client accounts of one Lead, by
-- whichever of the two ways accounts are created, if it held none such at the start.
pub serve_all-OnePerLead :
    (demands : List (Env × Demand)) (s : Desk) → OnePerLead s → OnePerLead (serve_all demands s)
serve_all-OnePerLead demands s h = serve_all-keeps OnePerLead serve-OnePerLead demands s h
