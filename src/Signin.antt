-- ===== src/Signin.antt =====
-- Signing in with e-mail, password and one-time code: `authorize` of src/auth.ts, on the users of the onboarding
-- model. `verifyPassword` and the check of a code are parameters; the parse of the credentials is left out.
pub mod Lockout
pub mod Guard
pub mod Runs
use crm_mcd.Prelude.{
  ℕ, suc, ◌+◌, ◌*◌, leb, ltb, Bool, true, false, not, ◌||◌, Option, none, some, List, [], ◌∷◌,
  String, Date, str_eq, filled, is_none, Result, ok, err, update, first_where, if◌then◌else◌,
}
use crm_mcd.Lead.{UserStatus}
use crm_mcd.Onboarding.{Onboarding, Login, Trace, user_key}

abbrev pub max_failed_logins : ℕ
max_failed_logins = 5

-- 15 minutes.
abbrev pub lockout : ℕ
lockout = 15 * 60 * 1000

pub record Credentials : Type 0 where
  pub email : String
  pub password : String
  pub totp : Option String

-- `return null` is `rejected`.
pub data SigninError : Type 0 where
  rejected account_locked mfa_required mfa_invalid : SigninError

abbrev pub Answer : Type 0
Answer = Result SigninError Login × Onboarding

abbrev pub has_email : String → Login → Bool
has_email email u = str_eq u.email email

abbrev pub is_active_user : UserStatus → Bool
is_active_user UserStatus.active = true
is_active_user _ = false

abbrev pub is_locked : Date → Option Date → Bool
is_locked now none = false
is_locked now (some t) = ltb now t

-- What a wrong password writes, from the count that was read.
abbrev pub fail_touch : Date → ℕ → Login → Login
fail_touch now failed u = record u {
  failed_logins = suc failed;
  locked_until = if leb max_failed_logins (suc failed) then some (now + lockout) else none;
}

abbrev pub enter_touch : Date → Login → Login
enter_touch now u = record u { failed_logins = 0; locked_until = none; last_login_at = some now }

abbrev traced : String → ℕ → Onboarding → Onboarding
traced action id s = record s {
  audits = record { action_type = action; entity_id = id } ∷ s.audits;
}

unfoldable pub fail_write : Date → Login → Onboarding → Onboarding
fail_write now u s =
    let failed =
      traced "LOGIN_FAILED" u.id
        (record s { users = update user_key u.id (fail_touch now u.failed_logins) s.users }) in
    if leb max_failed_logins (suc u.failed_logins)
    then traced "ACCOUNT_LOCKED" u.id failed
    else failed

unfoldable pub enter_write : Date → Login → Onboarding → Onboarding
enter_write now u s =
    traced "LOGIN_SUCCESS" u.id
      (record s { users = update user_key u.id (enter_touch now) s.users })

module _ (verify_password check_totp : String → String → Bool) where
  -- `user.passwordHash` is there and is that of the password.
  abbrev pub password_fits : Option String → String → Bool
  password_fits none password = false
  password_fits (some hash) password = verify_password hash password

  abbrev pub code_fits : Option String → String → Bool
  code_fits none code = false
  code_fits (some secret) code = check_totp code secret

  -- The second factor, where the user has one.
  unfoldable pub second_factor : Date → Option String → Login → Onboarding → Answer
  unfolding enter_write
  second_factor now none u s = (err SigninError.mfa_required, traced "LOGIN_FAILED" u.id s)
  second_factor now (some code) u s =
      if code_fits u.totp_secret code
      then (ok u, enter_write now u s)
      else (err SigninError.mfa_invalid, traced "LOGIN_FAILED" u.id s)

  unfoldable pub sign_in : Date → Credentials → Login → Onboarding → Answer
  unfolding second_factor enter_write fail_write filled
  sign_in now x u s =
      if not (is_active_user u.status) || is_none u.password_hash
      then (err SigninError.rejected, s)
      else if is_locked now u.locked_until
      then (err SigninError.account_locked, s)
      else if not (password_fits u.password_hash x.password)
      then (err SigninError.rejected, fail_write now u s)
      else if u.mfa_enabled
      then second_factor now (filled x.totp) u s
      else (ok u, enter_write now u s)

  unfoldable pub authorize : Date → Credentials → Onboarding → Answer
  unfolding sign_in
  authorize now x s = elim (first_where (has_email x.email) s.users) [
    | none ↦ (err SigninError.rejected, s)
    | some u ↦ sign_in now x u s
  ]
