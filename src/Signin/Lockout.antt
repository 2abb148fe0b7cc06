-- ===== src/Signin/Lockout.antt =====
-- Wrong passwords and the lock (src/auth.ts).
use crm_mcd.Prelude.{
  ℕ, suc, ◌≡◌, ◌+◌, ◌<◌, refl, Bool, true, false, leb, Option, none, some, List, [], ◌∷◌, String,
  Date, All, arith, length, is_none, err, first_where, first_where-update, update, ap, ◌∙◌,
  if◌then◌else◌, Bool-cases, inl, inr,
}
use crm_mcd.Onboarding.{Onboarding, Login, user_key}
use crm_mcd.Signin.{
  Credentials, SigninError, authorize, sign_in, fail_write, fail_touch, has_email, is_active_user,
  password_fits, lockout, max_failed_logins,
}

-- The user that an e-mail finds: active, with `failed` wrong passwords on record and a lock or none.
pub record IsAt (email : String) (hash : Option String) (failed : ℕ) (lock : Option Date)
    (s : Onboarding) : Type 0 where
  pub user : Login
  pub found : first_where (has_email email) s.users ≡ some user
  pub active : is_active_user user.status ≡ true
  pub hashed : user.password_hash ≡ hash
  pub count : user.failed_logins ≡ failed
  pub locked : user.locked_until ≡ lock

pub fail_write-users :
    (now : Date) (u : Login) (s : Onboarding)
    → (fail_write now u s).users ≡ update user_key u.id (fail_touch now u.failed_logins) s.users
unfolding fail_write
fail_write-users now u s = elim (Bool-cases (leb max_failed_logins (suc u.failed_logins))) [
  | inl many ↦ rw many refl
  | inr few ↦ rw few refl
]

fail_write-found :
    (now : Date) (email : String) (u : Login) (s : Onboarding)
    → first_where (has_email email) s.users ≡ some u
    → first_where (has_email email) (fail_write now u s).users
      ≡ some (fail_touch now u.failed_logins u)
fail_write-found now email u s h =
    ap (λ us. first_where (has_email email) us) (fail_write-users now u s)
    ∙ first_where-update user_key (has_email email) (fail_touch now u.failed_logins) s.users {x = u}
        (λ y. refl) h

abbrev next_lock : Date → ℕ → Option Date
next_lock now n = if leb max_failed_logins n then some (now + lockout) else none

fail_write-IsAt :
    (now : Date) (email : String) (hash : Option String) (n : ℕ) (s : Onboarding)
    (at : IsAt email hash n none s)
    → IsAt email hash (suc n) (next_lock now (suc n)) (fail_write now at.user s)
fail_write-IsAt now email hash n s at = record {
  user = fail_touch now at.user.failed_logins at.user;
  found = fail_write-found now email at.user s at.found;
  active = at.active;
  hashed = at.hashed;
  count = rw at.count refl;
  locked = rw at.count refl;
}

module _ (verify_password check_totp : String → String → Bool) (email : String)
    (hash : Option String) (has_password : is_none hash ≡ false) where
  -- A try for the user with a password that is not the user's.
  unfoldable pub IsWrong : Date × Credentials → Type 0
  IsWrong (now, x) =
      (x.email ≡ email) × (password_fits verify_password check_totp hash x.password ≡ false)

  wrong_is_rejected :
      (now : Date) (x : Credentials) (n : ℕ) (s : Onboarding) (at : IsAt email hash n none s)
      → IsWrong (now, x)
      → authorize verify_password check_totp now x s
        ≡ (err SigninError.rejected, fail_write now at.user s)
  unfolding authorize sign_in IsWrong
  wrong_is_rejected now x n s at w =
      ground (arith, w, at.found, at.active, at.hashed, at.locked, has_password)

  unfoldable pub try_all : List (Date × Credentials) → Onboarding → Onboarding
  unfolding authorize
  try_all [] s = s
  try_all ((now, x) ∷ rest) s = try_all rest (authorize verify_password check_totp now x s).1

  -- A wrong try on a user without a lock.
  wrong-IsAt :
      (now : Date) (x : Credentials) (n : ℕ) (s : Onboarding)
      → IsAt email hash n none s
      → IsWrong (now, x)
      → IsAt email hash
          (suc n)
          (next_lock now (suc n))
          (authorize verify_password check_totp now x s).1
  wrong-IsAt now x n s at w =
      rw (wrong_is_rejected now x n s at w) (fail_write-IsAt now email hash n s at)

  -- Below the limit each wrong try counts, and none locks.
  try_all-IsAt :
      (xs : List (Date × Credentials)) (n : ℕ) (s : Onboarding)
      → IsAt email hash n none s
      → All IsWrong xs
      → n + length xs < max_failed_logins
      → IsAt email hash (n + length xs) none (try_all xs s)
  unfolding try_all
  try_all-IsAt [] n s at w few = let same : n + 0 ≡ n = omega arith in rw same at
  try_all-IsAt ((now, x) ∷ xs) n s at w few =
      let next = wrong-IsAt now x n s at w.0 in
      let shut : leb max_failed_logins (suc n) ≡ false = ground arith in
      let rest =
        try_all-IsAt xs (suc n) (authorize verify_password check_totp now x s).1 (rw shut at next)
          w.1 (omega arith) in
      let sum : n + suc (length xs) ≡ suc n + length xs = omega arith in rw sum rest

  locked_is_refused :
      (now until : Date) (x : Credentials) (n : ℕ) (s : Onboarding)
      → IsAt email hash n (some until) s
      → x.email ≡ email
      → now < until
      → authorize verify_password check_totp now x s ≡ (err SigninError.account_locked, s)
  unfolding authorize sign_in
  locked_is_refused now until x n s at same early =
      ground (arith, same, early, at.found, at.active, at.hashed, at.locked, has_password)

  -- Five wrong passwords lock: after as many wrong tries as bring an active user's count to five, at whatever
  -- times, any further try within 15 minutes of the last is refused as locked and writes nothing, also one with the
  -- right password and code. The user is not locked at first.
  pub five_failures_lock :
      (xs : List (Date × Credentials)) (last : Date) (x : Credentials) (later : Date)
      (y : Credentials) (n : ℕ) (s : Onboarding)
      → IsAt email hash n none s
      → All IsWrong xs
      → IsWrong (last, x)
      → n + length xs + 1 ≡ max_failed_logins
      → y.email ≡ email
      → later < last + lockout
      → authorize verify_password check_totp later y
          (authorize verify_password check_totp last x (try_all xs s)).1
        ≡ (
          err SigninError.account_locked,
          (authorize verify_password check_totp last x (try_all xs s)).1,
        )
  five_failures_lock xs last x later y n s at w w' five same early =
      let before = try_all-IsAt xs n s at w (omega (arith, five)) in
      let after = wrong-IsAt last x (n + length xs) (try_all xs s) before w' in
      let full : leb max_failed_logins (suc (n + length xs)) ≡ true = ground (arith, five) in
      locked_is_refused later (last + lockout) y (suc (n + length xs))
        (authorize verify_password check_totp last x (try_all xs s)).1 (rw full at after) same early
