-- ===== src/Onboarding/Tokens.antt =====
-- What an activation link is good for (src/lib/activation.ts, src/app/api/activate/route.ts).
use crm_mcd.Prelude.{
  ℕ, ◌≡◌, ◌≤◌, ◌<◌, ◌+◌, refl, Bool, true, false, none, some, String, Date, ==_refl, str_eq, arith,
  ok, err, Result-cases, inl, inr, find, find-update_self, update_where, count_where,
  count_where-taken, count_where-update_where_le, count_where-update_where_self, first_where,
  str_refl,
}
use crm_mcd.Lead.{UserStatus}
use crm_mcd.Onboarding.{Onboarding, Login, Token, user_key}
use crm_mcd.Onboarding.Activation.{
  create_activation, live_for, set_used, has_hash, consumable, is_disabled, ActivationRequest,
  ActivationError, activation_user, activation_write, activate, activation_checked, load_activation,
  complete_activation, activate_touch, activation_ttl,
}

-- A new link is the only one of its user that can be used: the earlier ones are spent.
pub one_live_token :
    (now : Date) (fresh : ℕ) (hash : String) (user_id : ℕ) (s : Onboarding)
    → count_where (live_for user_id) (create_activation now fresh hash user_id s).tokens ≡ 1
unfolding create_activation count_where
one_live_token now fresh hash user_id s = ground (
  arith,
  ==_refl user_id,
  count_where-update_where_self (live_for user_id) (set_used now) s.tokens (λ t h. ground arith),
)

module _ (hash_token hash_password : String → String) (check_totp : String → String → Bool) where
  activation_user-count :
      (now : Date) (x : ActivationRequest) (t : Token) (s : Onboarding) {user : Login}
      → activation_user hash_token hash_password check_totp now x t s ≡ ok user
      → count_where (consumable t.id (hash_token x.token) now) s.tokens ≡ 1
  unfolding activation_user
  activation_user-count now x t s h = ground arith

  -- A token that was consumed, by whichever reading of it, is consumed once.
  consumed_once :
      (now later : Date) (x y : ActivationRequest) (t u : Token) (s : Onboarding) (user : Login)
      → x.token ≡ y.token
      → count_where (has_hash (hash_token x.token)) s.tokens ≤ 1
      → activation_user hash_token hash_password check_totp now x t s ≡ ok user
      → count_where
          (consumable u.id (hash_token y.token) later)
          (activate hash_token hash_password check_totp now x t user s).tokens
        ≡ 0
  unfolding activate
  consumed_once now later x y t u s user same unique h =
      let one = activation_user-count now x t s h in
      let p = consumable t.id (hash_token x.token) now in
      let total =
        count_where-taken p (consumable u.id (hash_token x.token) later)
          (has_hash (hash_token x.token)) (set_used now) s.tokens (λ z e. ground arith)
          (λ z e. ground arith) (λ z. ground arith) in
      rw (← same) (omega (arith, one, total, unique))

  activation_write-ok :
      (now : Date) (x : ActivationRequest) (t : Token) (s : Onboarding) {user : Login}
      → activation_user hash_token hash_password check_totp now x t s ≡ ok user
      → activation_write hash_token hash_password check_totp now x t s
        ≡ (ok tt, activate hash_token hash_password check_totp now x t user s)
  unfolding activation_write
  activation_write-ok now x t s h = rw (h, activation_write) refl

  activation_write-err :
      (now : Date) (x : ActivationRequest) (t : Token) (s : Onboarding) {e : ActivationError}
      → activation_user hash_token hash_password check_totp now x t s ≡ err e
      → activation_write hash_token hash_password check_totp now x t s ≡ (err e, s)
  unfolding activation_write
  activation_write-err now x t s h = rw (h, activation_write) refl

  activation_user-gone :
      (now : Date) (y : ActivationRequest) (u : Token) (s : Onboarding)
      → count_where (consumable u.id (hash_token y.token) now) s.tokens ≡ 0
      → activation_user hash_token hash_password check_totp now y u s
        ≡ err ActivationError.unavailable
  unfolding activation_user
  activation_user-gone now y u s h = ground (arith, h)

  -- Once a completion with an activation token was written, any other that carries the token is refused and
  -- writes nothing, also one whose lookup had found the token before. Token hashes must be unique.
  pub activation_is_once :
      (now later : Date) (x y : ActivationRequest) (t u : Token) (s : Onboarding)
      → x.token ≡ y.token
      → count_where (has_hash (hash_token x.token)) s.tokens ≤ 1
      → (activation_write hash_token hash_password check_totp now x t s).0 ≡ ok tt
      → activation_write hash_token hash_password check_totp later y u
          (activation_write hash_token hash_password check_totp now x t s).1
        ≡ (
          err ActivationError.unavailable,
          (activation_write hash_token hash_password check_totp now x t s).1,
        )
  activation_is_once now later x y t u s same unique h =
      elim (Result-cases (activation_user hash_token hash_password check_totp now x t s)) [
        | inl (user, e) ↦
            let gone = consumed_once now later x y t u s user same unique e in
            let s' = activate hash_token hash_password check_totp now x t user s in
            rw (activation_write-ok now x t s e)
              (activation_write-err later y u s' (activation_user-gone later y u s' gone))
        | inr (thrown, e) ↦ cc (rw (activation_write-err now x t s e) at h)
      ]

  -- The token that a link carries, as it was created.
  abbrev issued : Date → ℕ → String → ℕ → Token
  issued now fresh raw user_id = record {
    id = fresh;
    user_id = user_id;
    token_hash = hash_token raw;
    purpose = "ACTIVATION";
    expires_at = now + activation_ttl;
    used_at = none;
  }

  module _ (now later : Date) (fresh : ℕ) (x : ActivationRequest) (user : Login) (s : Onboarding)
      (in_time : later < now + activation_ttl) (found : find user_key user.id s.users ≡ some user)
      (enabled : is_disabled user.status ≡ false)
      (new_hash : count_where (has_hash (hash_token x.token)) s.tokens ≡ 0)
      (same : str_eq x.password x.confirm_password ≡ true)
      (code : check_totp x.totp x.totp_secret ≡ true) where
    abbrev linked : Onboarding
    linked = create_activation now fresh (hash_token x.token) user.id s

    link_checked :
        activation_checked hash_token hash_password check_totp later x linked
        ≡ ok (issued now fresh x.token user.id)
    unfolding activation_checked load_activation create_activation first_where
    link_checked = ground (
      arith,
      str_refl (hash_token x.token),
      str_refl "ACTIVATION",
      in_time,
      found,
      enabled,
      same,
      code,
    )

    live_count :
        count_where
          (consumable fresh (hash_token x.token) later)
          (update_where (live_for user.id) (set_used now) s.tokens)
        ≡ 0
    live_count =
        let q = consumable fresh (hash_token x.token) later in
        let before =
          count_where-taken q (λ z. false) (has_hash (hash_token x.token)) (λ z. z) s.tokens
            (λ z e. ground arith) (λ z e. cc) (λ z. refl) in
        let after =
          count_where-update_where_le q (live_for user.id) (set_used now) s.tokens
            (λ z e e'. ground arith) in
        omega (arith, new_hash, before, after)

    link_user :
        activation_user hash_token hash_password check_totp later x
          (issued now fresh x.token user.id)
          linked
        ≡ ok user
    unfolding activation_user create_activation count_where
    link_user = ground (
      arith,
      ==_refl fresh,
      str_refl (hash_token x.token),
      str_refl "ACTIVATION",
      in_time,
      live_count,
      found,
      enabled,
    )

    link_completes : complete_activation hash_token hash_password check_totp later x linked ≡ (
      ok tt,
      activate hash_token hash_password check_totp later x
          (issued now fresh x.token user.id)
          user
          linked,
    )
    unfolding complete_activation
    link_completes =
        rw (link_checked, complete_activation)
          (activation_write-ok later x (issued now fresh x.token user.id) linked link_user)

    activate-find :
        find user_key user.id
          (activate hash_token hash_password check_totp later x
            (issued now fresh x.token user.id)
            user
            linked).users
        ≡ some (activate_touch (hash_password x.password) x.totp_secret user)
    unfolding activate create_activation
    activate-find =
        find-update_self user_key user.id (activate_touch (hash_password x.password) x.totp_secret)
          s.users {x = user} (λ u. refl) found

    -- A user that is in: active, with the password and the secret that the request gave.
    pub record IsActivated (v : Login) : Type 0 where
      pub same_user : (v.id ≡ user.id) × (v.email ≡ user.email)
      pub active : v.status ≡ UserStatus.active
      pub password : v.password_hash ≡ some (hash_password x.password)
      pub secret : v.totp_secret ≡ some x.totp_secret
      pub second_factor : v.mfa_enabled ≡ true
      pub unlocked : (v.failed_logins ≡ 0) × (v.locked_until ≡ none)

    -- A link works: within 72 hours of its creation, a request that carries its token, with matching passwords and a
    -- valid code, leaves the user active, unlocked, with the hash of that password and with a second factor by the
    -- request's secret, if the user is not disabled and no token had the same hash.
    pub link_activates :
        ((complete_activation hash_token hash_password check_totp later x linked).0 ≡ ok tt)
        × (v : Login) × (find user_key user.id
              (complete_activation hash_token hash_password check_totp later x linked).1.users
            ≡ some v)
        × IsActivated v
    link_activates = rw link_completes (
      refl,
      activate_touch (hash_password x.password) x.totp_secret user,
      activate-find,
      record {
        same_user = (refl, refl);
        active = refl;
        password = refl;
        secret = refl;
        second_factor = refl;
        unlocked = (refl, refl);
      },
    )
