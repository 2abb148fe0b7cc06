-- ===== src/Lead/Handler.antt =====
-- A handler reads and checks, throws or goes on, and ends with one transaction. What was committed
-- before a `throw` stays committed, so the database comes back in both cases.
use crm_mcd.Prelude.{◌≡◌, refl, Result, ok, err, arith}
use crm_mcd.Lead.{Crm, Error, User, Agent}

abbrev pub Outcome : Type 0
Outcome = Result Error (Unit {0}) × Crm

-- The checks give what the transaction needs, or throw before it begins.
unfoldable pub transact {ℓ} : {A : Type ℓ} → Result Error A → (A → Crm → Crm) → Crm → Outcome
transact (ok a) write s = (ok tt, write a s)
transact (err e) write s = (err e, s)

-- A handler that runs for the user and the agent that `activeAgent` gives, on the database that it
-- leaves.
unfoldable pub with_agent :
    Result Error (User × Agent × Crm) → (User → Agent → Crm → Outcome) → Crm → Outcome
with_agent (ok (user, agent, s')) body s = body user agent s'
with_agent (err e) body s = (err e, s)

pub transact-keeps {ℓ} :
    {A : Type ℓ} (P : Crm → Type 0) (checked : Result Error A) (write : A → Crm → Crm) (s : Crm)
    → P s
    → ((a : A) → checked ≡ ok a → P (write a s))
    → P (transact checked write s).1
unfolding transact
transact-keeps P (ok a) write s p k = k a refl
transact-keeps P (err e) write s p k = p

pub with_agent-keeps :
    (P : Crm → Type 0) (seat : Result Error (User × Agent × Crm))
    (body : User → Agent → Crm → Outcome) (s : Crm)
    → P s
    → ((user : User) (agent : Agent) (s' : Crm)
        → seat ≡ ok (user, agent, s')
        → P (body user agent s').1)
    → P (with_agent seat body s).1
unfolding with_agent
with_agent-keeps P (ok (user, agent, s')) body s p k = k user agent s' refl
with_agent-keeps P (err e) body s p k = p

-- A transaction is reached exactly when the checks pass.
pub transact-eq-ok {ℓ} :
    {A : Type ℓ} (checked : Result Error A) (write : A → Crm → Crm) (s s' : Crm)
    → transact checked write s ≡ (ok tt, s')
    → (a : A) × (checked ≡ ok a) × (write a s ≡ s')
unfolding transact
transact-eq-ok (ok a) write s s' h = (a, refl, cc)
transact-eq-ok (err e) write s s' h = absurd (ground arith)

pub with_agent-eq-ok :
    (seat : Result Error (User × Agent × Crm)) (body : User → Agent → Crm → Outcome) (s s' : Crm)
    → with_agent seat body s ≡ (ok tt, s')
    → (user : User) × (agent : Agent) × (t : Crm) × (seat ≡ ok (user, agent, t))
      × (body user agent t ≡ (ok tt, s'))
unfolding with_agent
with_agent-eq-ok (ok (user, agent, t)) body s s' h = (user, agent, t, refl, h)
with_agent-eq-ok (err e) body s s' h = absurd (ground arith)
