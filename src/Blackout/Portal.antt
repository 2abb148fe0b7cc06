-- ===== src/Blackout/Portal.antt =====
-- The handlers of the workspace, src/lib/lead-workspace.ts, leave a blocked Lead alone.
use crm_mcd.Prelude.{
  ℕ, ◌≡◌, refl, ◌≢◌, Bool, false, Option, none, some, List, arith, any, String, Date, ok,
  Bool-cases, inl, inr,
}
use crm_mcd.Lead.{Lead, Callback, Crm, Env, User, Agent}
use crm_mcd.Lead.Table.{find_lead, scheduled_on, scheduled_with, cancel}
use crm_mcd.Lead.Handler.{transact-keeps, with_agent-keeps}
use crm_mcd.Session.{active_agent_writes}
use crm_mcd.Workspace.Rules.{InteractionInput, is_do_not_contact}
use crm_mcd.Workspace.ColdCall.{
  find_cold_lead, call_touch, call_write, log_cold_lead_call_initiated,
}
use crm_mcd.Workspace.ColdDisposition.{
  cold_checked, cold_touch, cold_write, complete, add_callback, log_cold_lead_disposition,
}
use crm_mcd.Workspace.Interaction.{
  interaction_checked, interaction_touch, interaction_write, log_lead_interaction,
}
use crm_mcd.Workspace.Dnc.{dnc_checked, dnc_touch, dnc_write, suppress_lead_for_dnc}
use crm_mcd.Blackout.Rules.{
  IsBlackout, ne_of_free, IsBlackout-same, IsBlackout-write, unscheduled-update_where,
}

-- What the checks say of the Lead that they give: it is a row of the table, and not blocked.
pub find_cold_lead-free :
    (j : ℕ) (s : Crm) {m : Lead}
    → find_cold_lead j s ≡ ok m
    → (m.dnc ≡ false) × (find_lead j s.leads ≡ some m)
unfolding find_cold_lead
find_cold_lead-free j s h = ground arith

-- A callback that a handler adds is on the Lead that it serves.
pub add_callback-other :
    (i j a : ℕ) (skip : Bool) (env : Env) (due : Option Date) (cs : List Callback)
    → i ≢ j
    → any (scheduled_on i) cs ≡ false
    → any (scheduled_on i) (add_callback skip env j a due cs) ≡ false
add_callback-other i j a skip env due cs ne h = ground arith

module _ (env : Env) (to_utc : String → Option Date) (input : InteractionInput) (i : ℕ)
    (l : Lead) where
  cold_write-IsBlackout :
      (s : Crm) (user : User) (agent : Agent) (m : Lead) (due : Option Date)
      → IsBlackout i l s
      → i ≢ m.id
      → IsBlackout i l (cold_write env input user agent (m, due) s)
  unfolding cold_write
  cold_write-IsBlackout s user agent m due b ne =
      IsBlackout-write i m.id l (cold_touch env.now input.disposition due m) s _ b (λ x. refl) ne
        refl
        (add_callback-other i m.id agent.id _ env due _ ne (
          unscheduled-update_where i (scheduled_with m.id agent.id) (complete env.now) s.callbacks
            (λ c. refl) (λ c q. refl) b.unscheduled))

  interaction_write-IsBlackout :
      (s : Crm) (user : User) (agent : Agent) (m : Lead) (due : Option Date)
      → IsBlackout i l s
      → i ≢ m.id
      → IsBlackout i l (interaction_write env input user agent (m, due) s)
  unfolding interaction_write
  interaction_write-IsBlackout s user agent m due b ne =
      IsBlackout-write i m.id l (interaction_touch env.now input.disposition due m) s _ b
        (λ x. refl) ne refl
        (add_callback-other i m.id agent.id _ env due _ ne (
          unscheduled-update_where i (scheduled_with m.id agent.id) (complete env.now) s.callbacks
            (λ c. refl) (λ c q. refl) b.unscheduled))

  cold_checked-free :
      (s : Crm) {m : Lead} {due : Option Date}
      → cold_checked env to_utc input s ≡ ok (m, due)
      → (m.dnc ≡ false) × (find_lead input.lead_id s.leads ≡ some m)
  unfolding cold_checked find_cold_lead
  cold_checked-free s h = ground arith

  interaction_checked-free :
      (agent : Agent) (s : Crm) {m : Lead} {due : Option Date}
      → interaction_checked env to_utc input agent s ≡ ok (m, due)
      → (m.dnc ≡ false) × (find_lead input.lead_id s.leads ≡ some m)
  unfolding interaction_checked
  interaction_checked-free agent s h = ground arith

  pub log_cold_lead_disposition-IsBlackout :
      (s : Crm) → IsBlackout i l s → IsBlackout i l (log_cold_lead_disposition env to_utc input s).1
  unfolding log_cold_lead_disposition
  log_cold_lead_disposition-IsBlackout s b =
      elim (Bool-cases (is_do_not_contact input.disposition)) [
        | inl e ↦ rw e b
        | inr e ↦ rw e (
            with_agent-keeps (IsBlackout i l) _ _ s b λ user agent s' seat.
              let writes = active_agent_writes env (some input.lead_id) s seat in
              let b' = IsBlackout-same i l s s' b writes.0 writes.1 in
              transact-keeps (IsBlackout i l) _ _ s' b' λ plan checked.
                cold_write-IsBlackout s' user agent plan.0 plan.1 b'
                  (ne_of_free i input.lead_id l plan.0 s' b' (cold_checked-free s' checked)))
      ]

  pub log_lead_interaction-IsBlackout :
      (s : Crm) → IsBlackout i l s → IsBlackout i l (log_lead_interaction env to_utc input s).1
  unfolding log_lead_interaction
  log_lead_interaction-IsBlackout s b = elim (Bool-cases (is_do_not_contact input.disposition)) [
    | inl e ↦ rw e b
    | inr e ↦ rw e (
        with_agent-keeps (IsBlackout i l) _ _ s b λ user agent s' seat.
          let writes = active_agent_writes env none s seat in
          let b' = IsBlackout-same i l s s' b writes.0 writes.1 in
          transact-keeps (IsBlackout i l) _ _ s' b' λ plan checked.
            interaction_write-IsBlackout s' user agent plan.0 plan.1 b' (
              ne_of_free i input.lead_id l plan.0 s' b'
                (interaction_checked-free agent s' checked)))
  ]

module _ (env : Env) (i : ℕ) (l : Lead) where
  call_write-IsBlackout :
      (s : Crm) (user : User) (agent : Agent) (m : Lead)
      → IsBlackout i l s
      → i ≢ m.id
      → IsBlackout i l (call_write env user agent m s)
  unfolding call_write
  call_write-IsBlackout s user agent m b ne =
      IsBlackout-write i m.id l (call_touch env.now) s _ b (λ x. refl) ne refl b.unscheduled

  pub log_cold_lead_call_initiated-IsBlackout :
      (lead_id : ℕ) (s : Crm)
      → IsBlackout i l s
      → IsBlackout i l (log_cold_lead_call_initiated env lead_id s).1
  unfolding log_cold_lead_call_initiated
  log_cold_lead_call_initiated-IsBlackout lead_id s b =
      with_agent-keeps (IsBlackout i l) _ _ s b λ user agent s' seat.
        let writes = active_agent_writes env (some lead_id) s seat in
        let b' = IsBlackout-same i l s s' b writes.0 writes.1 in
        transact-keeps (IsBlackout i l) _ _ s' b' λ m checked.
          call_write-IsBlackout s' user agent m b'
            (ne_of_free i lead_id l m s' b' (find_cold_lead-free lead_id s' checked))

  dnc_checked-free :
      (j : ℕ) (agent : Agent) (s : Crm) {m : Lead}
      → dnc_checked j agent s ≡ ok m
      → (m.dnc ≡ false) × (find_lead j s.leads ≡ some m)
  unfolding dnc_checked
  dnc_checked-free j agent s h = ground arith

  dnc_write-IsBlackout :
      (reason : Option String) (s : Crm) (user : User) (agent : Agent) (m : Lead)
      → IsBlackout i l s
      → i ≢ m.id
      → IsBlackout i l (dnc_write env reason user agent m s)
  unfolding dnc_write
  dnc_write-IsBlackout reason s user agent m b ne =
      IsBlackout-write i m.id l (dnc_touch env.now) s _ b (λ x. refl) ne refl
        (unscheduled-update_where i (scheduled_on m.id) cancel s.callbacks (λ c. refl) (λ c q. refl)
          b.unscheduled)

  pub suppress_lead_for_dnc-IsBlackout :
      (lead_id : ℕ) (reason : Option String) (s : Crm)
      → IsBlackout i l s
      → IsBlackout i l (suppress_lead_for_dnc env lead_id reason s).1
  unfolding suppress_lead_for_dnc
  suppress_lead_for_dnc-IsBlackout lead_id reason s b =
      with_agent-keeps (IsBlackout i l) _ _ s b λ user agent s' seat.
        let writes = active_agent_writes env (some lead_id) s seat in
        let b' = IsBlackout-same i l s s' b writes.0 writes.1 in
        transact-keeps (IsBlackout i l) _ _ s' b' λ m checked.
          dnc_write-IsBlackout reason s' user agent m b'
            (ne_of_free i lead_id l m s' b' (dnc_checked-free lead_id agent s' checked))
