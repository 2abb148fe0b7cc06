-- ===== src/Signin/Guard.antt =====
-- Who gets in (src/auth.ts).
use crm_mcd.Prelude.{
  ◌≡◌, refl, Bool, true, false, Option, none, some, String, Date, arith, ok, filled, first_where,
  first_where-update,
}
use crm_mcd.Onboarding.{Onboarding, Login, user_key}
use crm_mcd.Signin.{
  Credentials, authorize, sign_in, second_factor, enter_write, enter_touch, has_email,
  is_active_user, is_locked, password_fits, code_fits,
}

module _ (verify_password check_totp : String → String → Bool) where
  -- A code was given, and it is one of the user's secret.
  abbrev code_given : Option String → Option String → Bool
  code_given secret none = false
  code_given secret (some code) = code_fits verify_password check_totp secret code

  -- A user that has just come in: no wrong password and no lock on record.
  pub record HasEntered (now : Date) (u v : Login) : Type 0 where
    pub same_user : v.id ≡ u.id
    pub counted : v.failed_logins ≡ 0
    pub unlocked : v.locked_until ≡ none
    pub seen : v.last_login_at ≡ some now
    pub kept : (v.status ≡ u.status) × (v.password_hash ≡ u.password_hash)

  -- What a sign-in that went through has passed, and what it left.
  pub record IsGuarded (now : Date) (x : Credentials) (s : Onboarding) (u : Login) (t : Onboarding)
      : Type 0 where
    pub found : first_where (has_email x.email) s.users ≡ some u
    pub active : is_active_user u.status ≡ true
    pub unlocked : is_locked now u.locked_until ≡ false
    pub password : password_fits verify_password check_totp u.password_hash x.password ≡ true
    pub factor : u.mfa_enabled ≡ true → code_given u.totp_secret (filled x.totp) ≡ true
    pub cleared :
        (v : Login) × (first_where (has_email x.email) t.users ≡ some v) × HasEntered now u v

  authorize-found :
      (now : Date) (x : Credentials) (s : Onboarding) {u : Login} {t : Onboarding}
      → authorize verify_password check_totp now x s ≡ (ok u, t)
      → first_where (has_email x.email) s.users ≡ some u
  unfolding authorize sign_in second_factor
  authorize-found now x s h = ground arith

  -- A known user that gets in.
  known :
      (now : Date) (x : Credentials) (u : Login) (s : Onboarding) {t : Onboarding}
      → authorize verify_password check_totp now x s ≡ (ok u, t)
      → sign_in verify_password check_totp now x u s ≡ (ok u, t)
  unfolding authorize
  known now x u s h = let found = authorize-found now x s h in rw (found, authorize) at h

  module _ (now : Date) (x : Credentials) (u : Login) (s t : Onboarding)
      (h : sign_in verify_password check_totp now x u s ≡ (ok u, t)) where
    sign_in-write : t ≡ enter_write now u s
    unfolding sign_in second_factor
    sign_in-write = ground (arith, h)

    sign_in-active : is_active_user u.status ≡ true
    unfolding sign_in second_factor
    sign_in-active = ground (arith, h)

    sign_in-unlocked : is_locked now u.locked_until ≡ false
    unfolding sign_in second_factor
    sign_in-unlocked = ground (arith, h)

    sign_in-password : password_fits verify_password check_totp u.password_hash x.password ≡ true
    unfolding sign_in second_factor
    sign_in-password = ground (arith, h)

    sign_in-factor : u.mfa_enabled ≡ true → code_given u.totp_secret (filled x.totp) ≡ true
    unfolding sign_in second_factor
    sign_in-factor mfa = ground (arith, h, mfa)

  enter_write-found :
      (now : Date) (email : String) (u : Login) (s : Onboarding)
      → first_where (has_email email) s.users ≡ some u
      → first_where (has_email email) (enter_write now u s).users ≡ some (enter_touch now u)
  unfolding enter_write
  enter_write-found now email u s h =
      first_where-update user_key (has_email email) (enter_touch now) s.users {x = u} (λ y. refl) h

  -- Whoever signs in was found by the e-mail, active and not locked, gave the right password and, with a second factor
  -- enabled, a code of its secret; the user then reads as seen now, with no wrong password and no lock on record.
  pub sign_in-IsGuarded :
      (now : Date) (x : Credentials) (s : Onboarding) (u : Login) (t : Onboarding)
      → authorize verify_password check_totp now x s ≡ (ok u, t)
      → IsGuarded now x s u t
  sign_in-IsGuarded now x s u t h =
      let found = authorize-found now x s h in
      let inside = known now x u s h in
      record {
        found = found;
        active = sign_in-active now x u s t inside;
        unlocked = sign_in-unlocked now x u s t inside;
        password = sign_in-password now x u s t inside;
        factor = sign_in-factor now x u s t inside;
        cleared = (
          enter_touch now u,
          rw (sign_in-write now x u s t inside) (enter_write-found now x.email u s found),
          record {
            same_user = refl;
            counted = refl;
            unlocked = refl;
            seen = refl;
            kept = (refl, refl);
          },
        );
      }
