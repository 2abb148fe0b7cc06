-- ===== src/Lead/Table.antt =====
-- The tables of the database by their keys, and the tests that the queries on callbacks share.
use crm_mcd.Prelude.{ℕ, Bool, true, false, ◌&&◌, Option, List, ◌==◌, holds, find, update, latest}
use crm_mcd.Lead.{Lead, Agent, Callback, CallbackStatus}

abbrev pub lead_key : Lead → ℕ
lead_key l = l.id

abbrev pub last_updated : Lead → ℕ
last_updated l = l.updated_at

-- `findUnique({ where: { id } })` and `update({ where: { id }, data })` on the Leads.
abbrev pub find_lead : ℕ → List Lead → Option Lead
find_lead = find lead_key

abbrev pub update_lead : ℕ → (Lead → Lead) → List Lead → List Lead
update_lead = update lead_key

-- `findFirst({ where, orderBy: { updatedAt: "desc" } })`.
abbrev pub newest : (Lead → Bool) → List Lead → Option Lead
newest = latest lead_key last_updated

-- `findUnique({ where: { userId } })` on the Agents.
abbrev pub find_agent : ℕ → List Agent → Option Agent
find_agent = find (λ a. a.user_id)

abbrev pub is_scheduled : CallbackStatus → Bool
is_scheduled CallbackStatus.scheduled = true
is_scheduled _ = false

-- A scheduled callback on a Lead, with any agent, and with one agent.
abbrev pub scheduled_on : ℕ → Callback → Bool
scheduled_on i c = c.lead_id == i && is_scheduled c.status

abbrev pub scheduled_with : ℕ → ℕ → Callback → Bool
scheduled_with i a c = c.lead_id == i && (holds c.agent_id a && is_scheduled c.status)

abbrev pub cancel : Callback → Callback
cancel c = record c { status = CallbackStatus.cancelled }
