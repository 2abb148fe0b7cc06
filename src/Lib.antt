-- ===== src/Lib.antt =====
-- Verification of the mini CRM: how Leads are worked, claimed, aged, imported and blocked, and how the
-- commissions on the sales that follow are reviewed, held and split; how clients are served afterwards, and
-- how partners are provisioned and activated.
--
-- The parts, and where each is modelled:
--   * Lead: the rows of prisma/schema.prisma that a Lead operation reads and writes, as one record Crm;
--     Lead/Handler has the shape of a handler, checks first and then one transaction. Session: roles and
--     gates (src/lib/authz.ts, src/lib/features.ts, src/lib/controlled-test-leads.ts).
--   * Workspace: the agent's handlers (src/lib/lead-workspace.ts), one file each: log_cold_lead_call_initiated,
--     log_cold_lead_disposition, log_lead_interaction, suppress_lead_for_dnc.
--   * Claims: claim_available_lead (src/lib/claims.ts), as claim_checked, which reads, and claim_write,
--     which is the conditional update: two claims may interleave between them.
--   * OpenPool: release_lead_to_open_pool (src/lib/open-pool-release.ts). Aging: run_lead_aging_sweep
--     (src/lib/lead-aging-jobs.ts).
--   * Ghl: the relays of the marketing platform's events (src/lib/lead-appointment-attribution.ts,
--     src/lib/lead-opportunity-attribution.ts, src/lib/lead-inbound-reply-attribution.ts,
--     src/lib/lead-opt-out-relay.ts). Normalization: src/lib/lead-normalization.ts.
--   * Blackout: a blocked Lead under every one of those handlers, then under any run of them. The routes and
--     pages under src/app that write Leads by themselves are outside of it.
--   * PortalRoutes: two of those, portal_action (src/app/api/portal/actions/route.ts) and portal_release
--     (src/app/api/portal/release/route.ts). Owned: whose Leads they write. Blocked: that they neither set nor
--     lift the marks DNC and suppressed, and that a callback is taken on a blocked Lead all the same.
--   * Import: the batch import (src/lib/lead-import-contract.ts, src/lib/lead-import-workflow.ts,
--     src/lib/lead-import-batch.ts, src/lib/lead-import-replay.ts,
--     src/lib/lead-import-concurrency-contract.ts): a Staging has batches, rows and the Leads made.
--   * Commission: the policies (src/lib/commission-policy.ts, src/lib/commission-ledger-policy.ts) and the
--     operations on the Books (src/lib/commission-ledger-actions.ts, src/lib/commission-hold-release.ts,
--     src/lib/commission-review-actions.ts).
--   * Finance: whole cents and the splits (src/lib/commission-formula.ts, src/lib/commission-math.ts,
--     src/lib/package-schedule.ts, src/lib/revenue-policy.ts), and the payout ladders
--     (src/lib/finance-readiness.ts, src/lib/stripe-connect-readiness.ts).
--   * Webhook: the inbox of the platform's events (src/lib/ghl-webhook.ts): record_inbound_event and
--     finish_inbound_event; Webhook/Deliveries has handlers that overlap, end their event once and die as a step
--     relation.
--   * Servicing: client accounts and service cases as one record Desk
--     (database/migrations/20260702_002_client_servicing_health.sql). Actors: who may act. Accounts:
--     create_client_account (src/lib/client-servicing-actions.ts), create_client_account_from_won_lead
--     (src/lib/lead-client-account.ts). Launch: confirm_client_launch, complete_client_launch
--     (src/lib/client-launch-actions.ts). Cases: open_client_service_case, record_service_response,
--     resolve_client_service_case. Standing: record_payment_resolved, transfer_client_service_to_house,
--     record_agent_continues_service (src/lib/client-servicing-resolution.ts). Cadence, Scan and Sweep:
--     run_service_cadence_sweep (src/lib/service-cadence-jobs.ts, src/lib/service-cadence-schedule.ts,
--     src/lib/service-rules.ts). Runs serves requests on the desk one after another.
--   * Onboarding: the review of applicants (src/app/admin/page-v3.tsx) and the internal gates
--     (src/app/admin/agents/[id]/onboarding/page.tsx) in Review, whose effect on agents is followed in Vetting and
--     Provisioned; the activation policy (src/lib/agent-activation-policy.ts), activation tokens
--     (src/lib/activation.ts, src/app/api/activate/route.ts, with the lookup and the transaction apart, so
--     that two completions may interleave), and the webhook of documents
--     (src/app/api/ghl/documents/route.ts), which records its event by the inbox; `fails` says which of its
--     steps throws, so that an agent may be provisioned and the event still be one to retry (Issued, Gates).
--   * Signin: authorize (src/auth.ts), its lock after five wrong passwords and its second factor; Signin/Runs
--     has it together with activations and document webhooks, which write the same users; the edits of role
--     and status by an administrator (src/app/admin/users/page.tsx) are left out.
--   * Retry: the loop of src/lib/transient-database-retry.ts.
--   * Prelude: Booleans, lists, results, texts and the tables of a database; Tests: concrete requests.
--
-- A handler returns its result or the error it throws, with the database it leaves; a transaction is one
-- change of the record. A request brings its time and the ids that the database gives out. Dates are
-- milliseconds, ids, digests and payloads are numbers that are only compared, and cents are natural numbers
-- below the bound that the source tests. No definition takes fuel: the loops are over lists, and the retry
-- loop counts the attempts that are left, which its options bound by five.
--
-- Parameters of the model: the platform's toLowerCase, time zones and case-insensitive comparison; `parse`,
-- the zod schema of an import row together with its digest and identifiers; `fails`, the row transactions
-- of an import that the database refuses, and the steps of the document webhook that throw; `transient`, the match on a database error's messages; `before`, the database's
-- order of texts, and `ids`, the random ids of a sweep; the hashes of tokens and passwords and the check of a
-- one-time code, also in signing in, where NextAuth keeps the session.
--
-- Not modelled: pages, most routes, mail, the authentication of webhooks and the signed HTTP transport of the
-- import, signup and certification, acceptance boards, build scripts; and of the modelled files the metadata
-- of activity and audit rows, which no code reads back, the bounds on the length of texts, and a database
-- that fails in the middle of a request, save where a parameter stands for it.

mod Prelude
mod Lead
mod Session
mod Workspace
mod Claims
mod OpenPool
mod Aging
mod Normalization
mod Ghl
mod Blackout
mod PortalRoutes
mod Commission
mod Import
mod Retry
mod Finance
mod Webhook
mod Servicing
mod Onboarding
mod Signin
mod Tests
