-- ===== src/Onboarding/Documents.antt =====
-- The webhook of completed documents, `POST` of src/app/api/ghl/documents/route.ts, from the recording of the
-- event on: a request that was authenticated and names the location of the CRM. `fails` says which of the steps
-- that write throw; the handler then ends in its `catch`. A read that throws, the lost race for a user's e-mail and
-- what mail answers are left out, and the log of integration errors is not kept.
use crm_mcd.Prelude.{
  ℕ, Bool, true, false, ◌&&◌, not, Option, none, some, List, ◌∷◌, String, Date, ◌==◌, str_eq,
  is_text, is_some, get_or, find, update, update_where, first_where, if◌then◌else◌,
}
use crm_mcd.Lead.{Role, UserStatus}
use crm_mcd.Session.{is_agent_role}
use crm_mcd.Webhook.{Inbound, Ending, record_inbound_event, finish_inbound_event}
use crm_mcd.Onboarding.{
  Onboarding, Login, Partner, Document, DocType, DocStatus, AgentStatus, partner_key,
}
use crm_mcd.Onboarding.Policy.{ActivationInput, ActivationState, evaluate_agent_activation}
use crm_mcd.Onboarding.Activation.{create_activation}

-- `document_type` of the payload: `W9` is another name of `W9_PAYOUT`.
pub data PayloadType : Type 0 where
  sales_agreement nda_ip w9 w9_payout acknowledgment : PayloadType

abbrev pub normalized_doc_type : PayloadType → DocType
normalized_doc_type PayloadType.sales_agreement = DocType.sales_agreement
normalized_doc_type PayloadType.nda_ip = DocType.nda_ip
normalized_doc_type PayloadType.w9 = DocType.w9_payout
normalized_doc_type PayloadType.w9_payout = DocType.w9_payout
normalized_doc_type PayloadType.acknowledgment = DocType.acknowledgment

pub record DocumentPayload : Type 0 where
  pub ghl_event_id : ℕ
  pub location_id : ℕ
  pub ghl_contact_id : Option String
  pub mini_crm_agent_id : Option ℕ
  pub document_type : PayloadType
  pub status : String
  pub document_id : Option String
  pub signer_ip : Option String
  pub countersigned : Bool
  pub completed_at : Option Date

-- The steps of the handler that may throw, in their order: the document's transaction, the new user, the agent's
-- transaction, the link, the last transaction, and the log after it of mail that was not sent.
pub data Stage : Type 0 where
  recording inviting provisioning linking closing reporting : Stage

-- The time, what the request creates (the ids of a user and a token, and the token's hash), and what throws.
pub record DocumentEnv : Type 0 where
  pub now : Date
  pub fresh_user : ℕ
  pub fresh_token : ℕ
  pub token_hash : String
  pub fails : Stage → Bool

pub data DocumentAnswer : Type 0 where
  duplicate ignored unmatched conflict provisioned failed : DocumentAnswer
  waiting : ActivationState → DocumentAnswer

abbrev pub same_type : DocType → DocType → Bool
same_type DocType.sales_agreement DocType.sales_agreement = true
same_type DocType.nda_ip DocType.nda_ip = true
same_type DocType.w9_payout DocType.w9_payout = true
same_type DocType.acknowledgment DocType.acknowledgment = true
same_type _ _ = false

abbrev pub is_document : ℕ → DocType → Document → Bool
is_document agent_id type d = d.agent_id == agent_id && same_type d.doc_type type

abbrev pub is_complete : DocStatus → Bool
is_complete DocStatus.completed = true
is_complete _ = false

abbrev pub is_approved : AgentStatus → Bool
is_approved AgentStatus.approved = true
is_approved _ = false

unfoldable pub payload_agent : DocumentPayload → Onboarding → Option Partner
payload_agent p s = elim p.mini_crm_agent_id [
  | some id ↦ find partner_key id s.partners
  | none ↦ elim p.ghl_contact_id [
    | some contact ↦ first_where (λ a. is_text a.ghl_contact_id contact) s.partners
    | none ↦ none
  ]
]

abbrev pub set_complete : DocumentEnv → DocumentPayload → Document → Document
set_complete env p d = record d {
  status = DocStatus.completed;
  ghl_document_id = p.document_id;
  signer_ip = p.signer_ip;
  countersigned = p.countersigned;
  completed_at = some (get_or p.completed_at env.now);
}

abbrev new_document : ℕ → DocType → Document
new_document agent_id type = record {
  agent_id = agent_id;
  doc_type = type;
  status = DocStatus.pending;
  ghl_document_id = none;
  signer_ip = none;
  countersigned = false;
  completed_at = none;
}

-- The first transaction, an `upsert`.
unfoldable pub record_document : DocumentEnv → DocumentPayload → ℕ → Onboarding → Onboarding
record_document env p agent_id s =
    let type = normalized_doc_type p.document_type in
    record s {
      documents =
          if is_some (first_where (is_document agent_id type) s.documents)
          then update_where (is_document agent_id type) (set_complete env p) s.documents
          else set_complete env p (new_document agent_id type) ∷ s.documents;
      audits =
          record { action_type = "ONBOARDING_DOCUMENT_COMPLETED"; entity_id = agent_id } ∷ s.audits;
    }

abbrev is_done : Option Document → Bool
is_done none = false
is_done (some d) = is_complete d.status

abbrev pub is_signed : Option Document → Bool
is_signed none = false
is_signed (some d) = d.countersigned

-- `completed.get(type)`.
unfoldable pub document_of : ℕ → DocType → List Document → Option Document
document_of agent_id type documents = first_where (is_document agent_id type) documents

unfoldable pub four_gates_complete : ℕ → List Document → Bool
unfolding document_of
four_gates_complete i documents =
    is_done (document_of i DocType.sales_agreement documents)
    && (is_done (document_of i DocType.nda_ip documents)
        && (is_done (document_of i DocType.w9_payout documents)
            && is_done (document_of i DocType.acknowledgment documents)))

unfoldable pub policy_input : Partner → List Document → ActivationInput
unfolding four_gates_complete document_of
policy_input current documents = record {
  agent_approved = is_approved current.status;
  documents_complete = four_gates_complete current.id documents;
  agreement_countersigned = is_signed (document_of current.id DocType.sales_agreement documents);
  w9_verified = is_some current.w9_verified_at;
  profile_complete = is_some current.profile_completed_at;
  training_complete = is_some current.training_completed_at;
  provisioned = is_some current.user_id;
}

abbrev pub finished : DocumentEnv → DocumentPayload → Ending → Onboarding → Onboarding
finished env p ending s = record s {
  events = finish_inbound_event env.now p.ghl_event_id ending s.events;
}

abbrev pub invited_login : DocumentEnv → Partner → Login
invited_login env current = record {
  id = env.fresh_user;
  email = current.personal_email;
  role = Role.agent;
  status = UserStatus.invited;
  password_hash = none;
  totp_secret = none;
  mfa_enabled = false;
  failed_logins = 0;
  locked_until = none;
  last_login_at = none;
}

abbrev pub provision_touch : Date → ℕ → Partner → Partner
provision_touch now user_id a = record a { user_id = some user_id; provisioned_at = some now }

-- The transaction that gives the agent its user.
unfoldable pub provision : DocumentEnv → Partner → ℕ → Onboarding → Onboarding
provision env current user_id s = record s {
  partners = update partner_key current.id (provision_touch env.now user_id) s.partners;
  audits = record { action_type = "AGENT_PROVISIONED"; entity_id = current.id } ∷ s.audits;
}

-- The last transaction: the audit row of the link, and the event.
unfoldable pub close : DocumentEnv → DocumentPayload → ℕ → Onboarding → Onboarding
unfolding finish_inbound_event
close env p user_id s = finished env p Ending.as_processed (record s {
  audits = record { action_type = "ACTIVATION_LINK_ISSUED"; entity_id = user_id } ∷ s.audits;
})

-- The `catch`: what was committed stays, and the event is to be retried.
unfoldable pub give_up : DocumentEnv → DocumentPayload → Onboarding → DocumentAnswer × Onboarding
unfolding finish_inbound_event
give_up env p s = (DocumentAnswer.failed, finished env p Ending.as_error s)

-- The agent is given its user, then the user a link, then the event is finished.
unfoldable pub issue :
    DocumentEnv → DocumentPayload → Partner → ℕ → Onboarding → DocumentAnswer × Onboarding
unfolding provision create_activation close give_up
issue env p current user_id s =
    let provisioned = provision env current user_id s in
    let linked = create_activation env.now env.fresh_token env.token_hash user_id provisioned in
    let closed = close env p user_id linked in
    if env.fails Stage.provisioning
    then give_up env p s
    else (if env.fails Stage.linking
        then give_up env p provisioned
        else (if env.fails Stage.closing
            then give_up env p linked
            else (if env.fails Stage.reporting
                then give_up env p closed
                else (DocumentAnswer.provisioned, closed))))

-- A user for the agent: the one with its e-mail, unless that one is privileged, or a new one.
unfoldable pub admit :
    DocumentEnv
    → DocumentPayload
    → Partner
    → Option Login
    → Onboarding
    → DocumentAnswer × Onboarding
unfolding issue give_up finish_inbound_event
admit env p current none s =
    if env.fails Stage.inviting
    then give_up env p s
    else issue env p current env.fresh_user
        (record s { users = invited_login env current ∷ s.users })
admit env p current (some user) s =
    if is_agent_role user.role
    then issue env p current user.id s
    else (DocumentAnswer.conflict, finished env p Ending.as_error s)

unfoldable pub weigh :
    DocumentEnv → DocumentPayload → Partner → Onboarding → DocumentAnswer × Onboarding
unfolding policy_input evaluate_agent_activation admit finish_inbound_event
weigh env p current s =
    let policy = evaluate_agent_activation (policy_input current s.documents) in
    if not policy.may_issue_activation
    then (DocumentAnswer.waiting policy.state, finished env p Ending.as_processed s)
    else admit env p current (first_where (λ u. str_eq u.email current.personal_email) s.users) s

-- The agent as it is read again after the first transaction.
unfoldable pub settle : DocumentEnv → DocumentPayload → ℕ → Onboarding → DocumentAnswer × Onboarding
unfolding weigh give_up
settle env p agent_id s = elim (find partner_key agent_id s.partners) [
  | none ↦ give_up env p s
  | some current ↦ weigh env p current s
]

unfoldable pub process_document :
    DocumentEnv → DocumentPayload → Onboarding → DocumentAnswer × Onboarding
unfolding payload_agent record_document settle give_up finish_inbound_event
process_document env p s =
    if not (str_eq p.status "COMPLETED")
    then (DocumentAnswer.ignored, finished env p Ending.as_processed s)
    else elim (payload_agent p s) [
      | none ↦ (DocumentAnswer.unmatched, finished env p Ending.as_error s)
      | some agent ↦
          if env.fails Stage.recording
          then give_up env p s
          else settle env p agent.id (record_document env p agent.id s)
    ]

abbrev pub as_inbound : DocumentPayload → Inbound
as_inbound p = record {
  ghl_event_id = p.ghl_event_id;
  location_id = p.location_id;
  type = "documents.completed";
}

unfoldable pub receive_document :
    DocumentEnv → DocumentPayload → Onboarding → DocumentAnswer × Onboarding
unfolding record_inbound_event process_document
receive_document env p s =
    let (receipt, events') = record_inbound_event (as_inbound p) s.events in
    if receipt.first_time
    then process_document env p (record s { events = events' })
    else (DocumentAnswer.duplicate, record s { events = events' })
