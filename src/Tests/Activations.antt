-- ===== src/Tests/Activations.antt =====
-- The theorems on partner onboarding at a concrete agent.
use crm_mcd.Prelude.{
  ◌≡◌, ◌≤◌, refl, arith, true, false, Bool, none, some, [], ◌∷◌, String, ok, err, find, UniqueKeys,
  List, count_where, update_where, concat,
}
use crm_mcd.Lead.{Role, User, UserStatus}
use crm_mcd.Onboarding.{
  Onboarding, Login, Token, Partner, AgentStatus, DocType, DocStatus, Document, user_key,
}
use crm_mcd.Onboarding.Activation.{
  create_activation, has_hash, ActivationRequest, ActivationError, activation_write,
  complete_activation,
}
use crm_mcd.Onboarding.Documents.{DocumentEnv, DocumentPayload, PayloadType, receive_document}
use crm_mcd.Onboarding.Tokens.{IsActivated, activation_is_once, link_activates}
use crm_mcd.Onboarding.Policy.{ActivationGate}
use crm_mcd.Onboarding.Review.{ReviewEnv, ReviewAction}
use crm_mcd.Onboarding.Vetting.{AllVetted}
use crm_mcd.Onboarding.Provisioned.{Step, onboard_all, onboard_all-AllVetted}
use crm_mcd.Onboarding.Gates.{Fair, receive_document-Fair}

abbrev invitee : Login
invitee = record {
  id = 7;
  email = "closer@example.com";
  role = Role.agent;
  status = UserStatus.invited;
  password_hash = none;
  totp_secret = none;
  mfa_enabled = false;
  failed_logins = 0;
  locked_until = none;
  last_login_at = none;
}

abbrev applicant : Partner
applicant = record {
  id = 70;
  user_id = none;
  personal_email = "closer@example.com";
  status = AgentStatus.approved;
  confirmed_call_at = some 2;
  approved_by_id = some 1;
  approved_at = some 3;
  review_note = none;
  provisioned_at = none;
  w9_verified_at = some 5;
  profile_completed_at = some 6;
  training_completed_at = some 7;
  ghl_contact_id = none;
}

abbrev paper : DocType → Document
paper type = record {
  agent_id = 70;
  doc_type = type;
  status = DocStatus.completed;
  ghl_document_id = none;
  signer_ip = none;
  countersigned = true;
  completed_at = some 8;
}

abbrev office : Onboarding
office = record {
  users = invitee ∷ [];
  tokens = [];
  partners = applicant ∷ [];
  documents = paper DocType.sales_agreement ∷ paper DocType.nda_ip ∷ paper DocType.w9_payout ∷ [];
  events = [];
  audits = [];
}

abbrev hash : String → String
hash s = concat "h:" s

abbrev any_code : String → String → Bool
any_code code secret = true

abbrev sign_up : ActivationRequest
sign_up = record {
  token = "t-1";
  password = "correct horse battery";
  confirm_password = "correct horse battery";
  totp_secret = "ABCDEFGHABCDEFGH";
  totp = "123456";
}

invitee_found : find user_key invitee.id office.users ≡ some invitee
unfolding find
invitee_found = refl

no_hash_yet : count_where (has_hash (hash sign_up.token)) office.tokens ≡ 0
unfolding count_where
no_hash_yet = refl

abbrev with_link : Onboarding
with_link = create_activation 10 90 (hash sign_up.token) 7 office

link_activates_example :
    ((complete_activation hash hash any_code 20 sign_up with_link).0 ≡ ok tt)
    × (v : Login) × (find user_key invitee.id
          (complete_activation hash hash any_code 20 sign_up with_link).1.users
        ≡ some v)
    × IsActivated hash hash any_code 10 20 90 sign_up invitee office
        (omega arith)
        invitee_found
        refl
        no_hash_yet
        refl
        refl
        v
link_activates_example =
    link_activates hash hash any_code 10 20 90 sign_up invitee office (omega arith) invitee_found
      refl no_hash_yet refl refl

abbrev link : Token
link = record {
  id = 90;
  user_id = 7;
  token_hash = "h:t-1";
  purpose = "ACTIVATION";
  expires_at = 259200010;
  used_at = none;
}

one_hash : count_where (has_hash (hash sign_up.token)) with_link.tokens ≤ 1
unfolding count_where create_activation update_where
one_hash = omega arith

link_written : (activation_write hash hash any_code 20 sign_up link with_link).0 ≡ ok tt
unfolding activation_write create_activation count_where find update_where
link_written = refl

activation_is_once_example :
    activation_write hash hash any_code 25 sign_up link
      (activation_write hash hash any_code 20 sign_up link with_link).1
    ≡ (
      err ActivationError.unavailable,
      (activation_write hash hash any_code 20 sign_up link with_link).1,
    )
activation_is_once_example =
    activation_is_once hash hash any_code 20 25 sign_up sign_up link link with_link refl one_hash
      link_written

abbrev last_paper : DocumentPayload
last_paper = record {
  ghl_event_id = 11;
  location_id = 1;
  ghl_contact_id = none;
  mini_crm_agent_id = some 70;
  document_type = PayloadType.acknowledgment;
  status = "COMPLETED";
  document_id = none;
  signer_ip = none;
  countersigned = false;
  completed_at = none;
}

abbrev at_nine : DocumentEnv
at_nine = record {
  now = 9;
  fresh_user = 8;
  fresh_token = 90;
  token_hash = "h:t-1";
  fails = λ stage. false;
}

receive_document-Fair_example : Fair at_nine.now office (receive_document at_nine last_paper office)
receive_document-Fair_example = receive_document-Fair at_nine last_paper office

abbrev reviewer : User
reviewer = record {
  id = 1;
  role = Role.sales_manager;
  status = UserStatus.active;
  email = "sm@example.com";
}

abbrev in_review : ReviewEnv
in_review = record {
  session = some reviewer;
  now = 4;
  tag_accepted = true;
  smtp_configured = true;
  delivered = true;
  fresh_token = 80;
  token_hash = "h:t-0";
}

-- An applicant that nobody has called yet.
abbrev newcomer : Partner
newcomer = record applicant {
  id = 71;
  status = AgentStatus.submitted;
  confirmed_call_at = none;
  ghl_contact_id = some "c-71";
}

abbrev lobby : Onboarding
lobby = record office { partners = applicant ∷ newcomer ∷ [] }

abbrev visits : List Step
visits =
    Step.review in_review 71 ReviewAction.approve none
    ∷ Step.review in_review 71 ReviewAction.confirm_call none
    ∷ Step.review in_review 71 ReviewAction.approve none
    ∷ Step.gate in_review 70 ActivationGate.training_completion false
    ∷ Step.gate in_review 70 ActivationGate.training_completion true
    ∷ Step.document at_nine last_paper
    ∷ Step.review in_review 71 ReviewAction.reject (some "Second thoughts.")
    ∷ []

lobby-AllVetted : AllVetted lobby
unfolding UniqueKeys find
lobby-AllVetted = record {
  unique = (refl, (refl, tt));
  each = (
    record { called = λ e. refl; approved = λ e. refl; not_active = refl },
    (record { called = λ e. cc; approved = λ e. cc; not_active = refl }, tt),
  );
}

onboard_all-AllVetted_example : AllVetted (onboard_all visits lobby)
onboard_all-AllVetted_example = onboard_all-AllVetted visits lobby lobby-AllVetted
