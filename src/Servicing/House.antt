-- ===== src/Servicing/House.antt =====
-- The transfer of an account to house service, `transferClientServiceToHouse`
-- (src/lib/client-servicing-resolution.ts), and what an agent may do afterwards.
use crm_mcd.Prelude.{
  ℕ, ◌≡◌, refl, true, false, Option, none, some, List, [], ◌∷◌, String, arith, ok, err, All, find,
  find-update_self, All-update_where_to, inl, inr, Result-cases,
}
use crm_mcd.Lead.{Env, User}
use crm_mcd.Servicing.{
  Desk, DeskError, Account, ServiceCase, ClientStatus, account_key, open_on, transact,
}
use crm_mcd.Servicing.Actors.{ServicingActor, servicing_actor, account_access, actor_for}
use crm_mcd.Servicing.Cases.{
  CaseInput, open_client_service_case, open_checked, record_service_response, response_checked,
  resolve_client_service_case, resolve_checked,
}
use crm_mcd.Servicing.Standing.{
  HouseReason, transfer_client_service_to_house, standing_checked, house_write, house_touch,
  unassign,
}

-- No open case of the account is assigned to anybody.
unfoldable pub Unassigned : ℕ → ServiceCase → Type 0
Unassigned i c = open_on i c ≡ true → c.assigned_agent_id ≡ none

All-true : (cases : List ServiceCase) → All (λ c. Unit {0}) cases
All-true [] = tt
All-true (c ∷ cases) = (tt, All-true cases)

house_write-Unassigned :
    (env : Env) (i : ℕ) (reason : HouseReason) (note : String) (a : User × Account) (s : Desk)
    → All (Unassigned i) (house_write env i reason note a s).1.cases
unfolding house_write Unassigned
house_write-Unassigned env i reason note a s =
    All-update_where_to (λ c. Unit {0}) (Unassigned i) (open_on i) (unassign env.now) s.cases
      (λ c p t says. refl) (λ c p out says. ground arith) (All-true s.cases)

house_write-account :
    (env : Env) (i : ℕ) (reason : HouseReason) (note : String) (u : User) (account : Account)
    (s : Desk)
    → find account_key i s.accounts ≡ some account
    → find account_key i (house_write env i reason note (u, account) s).1.accounts
      ≡ some (house_touch env.now note account)
unfolding house_write house_touch
house_write-account env i reason note u account s h =
    find-update_self account_key i (house_touch env.now note) s.accounts {x = account} (λ x. refl) h

standing_checked-find :
    (env : Env) (i : ℕ) (s : Desk) {user : User} {account : Account}
    → standing_checked env i s ≡ ok (user, account)
    → find account_key i s.accounts ≡ some account
unfolding standing_checked
standing_checked-find env i s h = ground arith

-- An account without an owner is nobody's but the administrators'.
ownerless_refuses :
    (env : Env) (i : ℕ) (s : Desk) {account : Account} {actor : ServicingActor}
    → find account_key i s.accounts ≡ some account
    → account.account_owner_agent_id ≡ none
    → servicing_actor env s ≡ ok actor
    → actor.is_admin ≡ false
    → account_access i actor s ≡ err DeskError.account_not_yours
unfolding servicing_actor account_access actor_for
ownerless_refuses env i s found none_left h plain = ground arith

-- What a transfer that went through leaves.
pub record IsHoused (i : ℕ) (s : Desk) : Type 0 where
  pub account : Account
  pub found : find account_key i s.accounts ≡ some account
  pub ownerless : account.account_owner_agent_id ≡ none
  pub in_house : account.status ≡ ClientStatus.house
  pub unassigned : All (Unassigned i) s.cases

house_write-IsHoused :
    (env : Env) (i : ℕ) (reason : HouseReason) (note : String) (u : User) (account : Account)
    (s : Desk)
    → find account_key i s.accounts ≡ some account
    → IsHoused i (house_write env i reason note (u, account) s).1
unfolding house_touch
house_write-IsHoused env i reason note u account s h = record {
  account = house_touch env.now note account;
  found = house_write-account env i reason note u account s h;
  ownerless = refl;
  in_house = refl;
  unassigned = house_write-Unassigned env i reason note (u, account) s;
}

-- A transfer to house service that goes through leaves the account with the house: without an owner, in status
-- HOUSE, and none of its open cases assigned.
pub transfer-IsHoused :
    (env : Env) (i : ℕ) (reason : HouseReason) (note : String) (s : Desk)
    → (transfer_client_service_to_house env i reason note s).0 ≡ ok tt
    → IsHoused i (transfer_client_service_to_house env i reason note s).1
unfolding transfer_client_service_to_house transact
transfer-IsHoused env i reason note s h = elim (Result-cases (standing_checked env i s)) [
  | inl (a, e) ↦
      rw e (house_write-IsHoused env i reason note a.0 a.1 s (standing_checked-find env i s e))
  | inr (thrown, e) ↦ cc (rw e at h)
]

-- An agent who asks to open a case on an account that is with the house, to record a response or to resolve a
-- case, is refused as not its owner, and nothing is written.
pub house_shuts_agents_out :
    (env : Env) (i : ℕ) (s : Desk) (actor : ServicingActor) (input : CaseInput) (k : ℕ)
    (c : Option ℕ) (note : String)
    → IsHoused i s
    → servicing_actor env s ≡ ok actor
    → actor.is_admin ≡ false
    → input.client_account_id ≡ i
    → (open_client_service_case env input s ≡ (err DeskError.account_not_yours, s))
      × (record_service_response env i c note s ≡ (err DeskError.account_not_yours, s))
      × (resolve_client_service_case env i k note s ≡ (err DeskError.account_not_yours, s))
unfolding open_client_service_case record_service_response resolve_client_service_case open_checked
    response_checked resolve_checked transact
house_shuts_agents_out env i s actor input k c note h signed plain at =
    let refused = ownerless_refuses env i s h.found h.ownerless signed plain in
    (rw (at, signed, refused) refl, rw (signed, refused) refl, rw (signed, refused) refl)
