-- ===== src/Onboarding.antt =====
-- Partner onboarding: the users, agents, documents and activation tokens of prisma/schema.prisma that
-- src/lib/activation.ts, src/app/api/activate/route.ts and src/app/api/ghl/documents/route.ts read and write.
-- Of a user's and an agent's columns those are kept that this code touches.
pub mod Policy
pub mod Activation
pub mod Documents
pub mod Review
pub mod Vetting
pub mod Provisioned
pub mod Tokens
pub mod Issued
pub mod Gates
use crm_mcd.Prelude.{ℕ, Bool, Option, List, String, Date}
use crm_mcd.Lead.{Role, UserStatus}
use crm_mcd.Webhook.{Event}

pub data AgentStatus : Type 0 where
  draft submitted pending_review needs_correction approved : AgentStatus
  rejected invited active suspended offboarded : AgentStatus

pub data DocType : Type 0 where
  sales_agreement nda_ip w9_payout acknowledgment : DocType

pub data DocStatus : Type 0 where
  pending sent viewed signed completed rejected : DocStatus

pub record Login : Type 0 where
  pub id : ℕ
  pub email : String
  pub role : Role
  pub status : UserStatus
  pub password_hash : Option String
  pub totp_secret : Option String
  pub mfa_enabled : Bool
  pub failed_logins : ℕ
  pub locked_until : Option Date
  pub last_login_at : Option Date

pub record Token : Type 0 where
  pub id : ℕ
  pub user_id : ℕ
  pub token_hash : String
  pub purpose : String
  pub expires_at : Date
  pub used_at : Option Date

pub record Partner : Type 0 where
  pub id : ℕ
  pub user_id : Option ℕ
  pub personal_email : String
  pub status : AgentStatus
  pub confirmed_call_at : Option Date
  pub approved_by_id : Option ℕ
  pub approved_at : Option Date
  pub review_note : Option String
  pub provisioned_at : Option Date
  pub w9_verified_at : Option Date
  pub profile_completed_at : Option Date
  pub training_completed_at : Option Date
  pub ghl_contact_id : Option String

pub record Document : Type 0 where
  pub agent_id : ℕ
  pub doc_type : DocType
  pub status : DocStatus
  pub ghl_document_id : Option String
  pub signer_ip : Option String
  pub countersigned : Bool
  pub completed_at : Option Date

-- Audit rows by the action and what it was about.
pub record Trace : Type 0 where
  pub action_type : String
  pub entity_id : ℕ

pub record Onboarding : Type 0 where
  pub users : List Login
  pub tokens : List Token
  pub partners : List Partner
  pub documents : List Document
  pub events : List Event
  pub audits : List Trace

abbrev pub user_key : Login → ℕ
user_key u = u.id

abbrev pub partner_key : Partner → ℕ
partner_key p = p.id
