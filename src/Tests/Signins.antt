-- ===== src/Tests/Signins.antt =====
-- The theorems on signing in at one concrete user.
use crm_mcd.Prelude.{
  ◌≡◌, arith, refl, Bool, true, none, some, List, [], ◌∷◌, String, Date, ok, err, str_eq, concat,
  first_where,
}
use crm_mcd.Lead.{Role, UserStatus}
use crm_mcd.Onboarding.{Onboarding, Login}
use crm_mcd.Signin.{Credentials, SigninError, authorize}
use crm_mcd.Signin.Lockout.{IsAt, IsWrong, try_all, five_failures_lock}
use crm_mcd.Signin.Guard.{IsGuarded, sign_in-IsGuarded}
use crm_mcd.Signin.Runs.{Access, LocksAgree, access_all, access_all-LocksAgree}

abbrev member : Login
member = record {
  id = 7;
  email = "closer@example.com";
  role = Role.agent;
  status = UserStatus.active;
  password_hash = some "correct horse battery";
  totp_secret = some "ABCDEFGHABCDEFGH";
  mfa_enabled = true;
  failed_logins = 2;
  locked_until = none;
  last_login_at = none;
}

abbrev house : Onboarding
house = record {
  users = member ∷ [];
  tokens = [];
  partners = [];
  documents = [];
  events = [];
  audits = [];
}

abbrev any_code : String → String → Bool
any_code code secret = true

abbrev hash : String → String
hash s = concat "h:" s

abbrev guess : Credentials
guess = record { email = "closer@example.com"; password = "letmein"; totp = none }

abbrev right : Credentials
right = record {
  email = "closer@example.com";
  password = "correct horse battery";
  totp = some "123456";
}

member-IsAt : IsAt "closer@example.com" (some "correct horse battery") 2 none house
unfolding first_where
member-IsAt = record {
  user = member;
  found = refl;
  active = refl;
  hashed = refl;
  count = refl;
  locked = refl;
}

guess-IsWrong :
    (t : Date)
    → IsWrong str_eq any_code "closer@example.com" (some "correct horse battery") refl (t, guess)
unfolding IsWrong
guess-IsWrong t = (refl, refl)

abbrev guessed : Onboarding
guessed =
    (authorize str_eq any_code 30 guess (
      try_all str_eq any_code "closer@example.com" (some "correct horse battery") refl
        ((10, guess) ∷ (20, guess) ∷ []) house)).1

five_failures_lock_example :
    authorize str_eq any_code 900029 right guessed ≡ (err SigninError.account_locked, guessed)
five_failures_lock_example =
    five_failures_lock str_eq any_code "closer@example.com" (some "correct horse battery") refl
      ((10, guess) ∷ (20, guess) ∷ []) 30 guess 900029 right 2 house member-IsAt
      (guess-IsWrong 10, (guess-IsWrong 20, tt)) (guess-IsWrong 30) refl refl (omega arith)

abbrev inside : Onboarding
inside = (authorize str_eq any_code 40 right house).1

member_enters : authorize str_eq any_code 40 right house ≡ (ok member, inside)
unfolding authorize first_where
member_enters = refl

sign_in-IsGuarded_example : IsGuarded str_eq any_code 40 right house member inside
sign_in-IsGuarded_example =
    sign_in-IsGuarded str_eq any_code 40 right house member inside member_enters

abbrev night : List Access
night =
    Access.attempt 10 guess
    ∷ Access.attempt 20 guess
    ∷ Access.attempt 30 guess
    ∷ Access.attempt 40 right
    ∷ []

access_all-LocksAgree_example : LocksAgree (access_all str_eq any_code hash hash night house)
access_all-LocksAgree_example =
    access_all-LocksAgree str_eq any_code hash hash night house (refl, tt)
