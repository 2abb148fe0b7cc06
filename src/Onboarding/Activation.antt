-- ===== src/Onboarding/Activation.antt =====
-- Activation tokens: `createActivation` (src/lib/activation.ts) and the `complete` action of
-- src/app/api/activate/route.ts, whose lookup comes before its transaction. `hashToken`, `hashPassword` and
-- the check of the one-time code are parameters; a database that fails is left out.
use crm_mcd.Prelude.{
  ℕ, ◌+◌, ◌*◌, ltb, Bool, true, false, ◌&&◌, Option, none, some, ◌∷◌, String, Date, ◌==◌, str_eq,
  is_none, Result, ok, err, ◌>>=◌, ◌>>◌, require, refuse_if, or_throw, find, update, update_where,
  count_where, first_where,
}
use crm_mcd.Lead.{UserStatus}
use crm_mcd.Onboarding.{Onboarding, Login, Token, user_key}

-- 72 hours.
abbrev pub activation_ttl : ℕ
activation_ttl = 72 * 60 * 60 * 1000

abbrev pub is_live : Token → Bool
is_live t = str_eq t.purpose "ACTIVATION" && is_none t.used_at

abbrev pub live_for : ℕ → Token → Bool
live_for user_id t = t.user_id == user_id && is_live t

abbrev pub set_used : Date → Token → Token
set_used now t = record t { used_at = some now }

-- `hash` is that of the token that the link carries.
unfoldable pub create_activation : Date → ℕ → String → ℕ → Onboarding → Onboarding
create_activation now fresh hash user_id s = record s {
  tokens =
      record {
        id = fresh;
        user_id = user_id;
        token_hash = hash;
        purpose = "ACTIVATION";
        expires_at = now + activation_ttl;
        used_at = none;
      }
      ∷ update_where (live_for user_id) (set_used now) s.tokens;
}

pub data ActivationError : Type 0 where
  passwords_differ unavailable invalid_code : ActivationError

pub record ActivationRequest : Type 0 where
  pub token : String
  pub password : String
  pub confirm_password : String
  pub totp_secret : String
  pub totp : String

abbrev pub is_disabled : UserStatus → Bool
is_disabled UserStatus.disabled = true
is_disabled _ = false

abbrev pub has_hash : String → Token → Bool
has_hash hash t = str_eq t.token_hash hash

abbrev pub usable : String → Date → Token → Bool
usable hash now t = has_hash hash t && (is_live t && ltb now t.expires_at)

-- The `where` of the update in the transaction.
abbrev pub consumable : ℕ → String → Date → Token → Bool
consumable id hash now t = t.id == id && usable hash now t

abbrev pub activate_touch : String → String → Login → Login
activate_touch password_hash totp_secret u = record u {
  password_hash = some password_hash;
  status = UserStatus.active;
  totp_secret = some totp_secret;
  mfa_enabled = true;
  failed_logins = 0;
  locked_until = none;
}

module _ (hash_token hash_password : String → String) (check_totp : String → String → Bool) where
  unfoldable pub load_activation : Date → String → Onboarding → Option Token
  load_activation now raw s = first_where (usable (hash_token raw) now) s.tokens

  -- The token that the transaction is to consume, or why there is none.
  unfoldable pub activation_checked :
      Date → ActivationRequest → Onboarding → Result ActivationError Token
  unfolding load_activation
  activation_checked now x s = do
    require (str_eq x.password x.confirm_password) ActivationError.passwords_differ
    t ← or_throw (load_activation now x.token s) ActivationError.unavailable
    user ← or_throw (find user_key t.user_id s.users) ActivationError.unavailable
    refuse_if (is_disabled user.status) ActivationError.unavailable
    require (check_totp x.totp x.totp_secret) ActivationError.invalid_code
    ok t

  -- The user that the transaction finds, after the token was consumed.
  unfoldable pub activation_user :
      Date → ActivationRequest → Token → Onboarding → Result ActivationError Login
  activation_user now x t s = do
    require (count_where (consumable t.id (hash_token x.token) now) s.tokens == 1)
        ActivationError.unavailable
    user ← or_throw (find user_key t.user_id s.users) ActivationError.unavailable
    refuse_if (is_disabled user.status) ActivationError.unavailable
    ok user

  unfoldable pub activate : Date → ActivationRequest → Token → Login → Onboarding → Onboarding
  activate now x t user s = record s {
    tokens = update_where (consumable t.id (hash_token x.token) now) (set_used now) s.tokens;
    users =
        update user_key user.id (activate_touch (hash_password x.password) x.totp_secret) s.users;
    audits =
        record { action_type = "ACTIVATION_COMPLETED"; entity_id = user.id }
        ∷ record { action_type = "MFA_ENROLLED"; entity_id = user.id }
        ∷ s.audits;
  }

  -- The transaction: an error undoes it.
  unfoldable pub activation_write :
      Date → ActivationRequest → Token → Onboarding → Result ActivationError (Unit {0}) × Onboarding
  unfolding activation_user activate
  activation_write now x t s = elim (activation_user now x t s) [
    | ok user ↦ (ok tt, activate now x t user s)
    | err e ↦ (err e, s)
  ]

  unfoldable pub complete_activation :
      Date → ActivationRequest → Onboarding → Result ActivationError (Unit {0}) × Onboarding
  unfolding activation_checked activation_write
  complete_activation now x s = elim (activation_checked now x s) [
    | ok t ↦ activation_write now x t s
    | err e ↦ (err e, s)
  ]
