-- ===== src/Webhook/Outcomes.antt =====
-- What becomes of an event (src/lib/ghl-webhook.ts): one whose handler died, and one that failed.
use crm_mcd.Prelude.{
  ℕ, ◌≡◌, ◌≢◌, ltb, Bool-cases, inl, inr, refl, ◌<◌, some, Date, ==_refl, arith, sym, ◌∙◌,
}
use crm_mcd.Webhook.{EventStatus, Inbound, Ending, ending_status}
use crm_mcd.Webhook.Records.{status_of, record_inbound_event-Delivered, finish-status}
use crm_mcd.Webhook.Deliveries.{Inbox, deliver, conclude, Step, Reach, IsExclusive}

-- An event that no delivery opens and that no handler works on.
pub record Rests (i : ℕ) (q : EventStatus) (s : Inbox) : Type 0 where
  pub reads : status_of i s.events ≡ some q
  pub idle : s.working i ≡ 0

-- Only an event that reads RECEIVED has a handler.
settled_is_idle :
    (i : ℕ) (s : Inbox) {q : EventStatus}
    → IsExclusive s
    → status_of i s.events ≡ some q
    → q ≢ EventStatus.received
    → s.working i ≡ 0
settled_is_idle i s {q} h reads ne = elim (Bool-cases (ltb 0 (s.working i))) [
  | inl e ↦
      let same : some q ≡ some EventStatus.received = sym reads ∙ h.busy i (ground arith) in
      absurd (ne cc)
  | inr e ↦ ground arith
]

failed-deliver :
    (x : Inbound) (s : Inbox)
    → IsExclusive s
    → status_of x.ghl_event_id s.events ≡ some EventStatus.failed
    → ((deliver x s).working x.ghl_event_id ≡ 1)
      × (status_of x.ghl_event_id (deliver x s).events ≡ some EventStatus.received)
unfolding deliver
failed-deliver x s h reads =
    let d = record_inbound_event-Delivered x s.events h.unique in
    let idle = settled_is_idle x.ghl_event_id s h reads (λ same. cc) in
    (
      ground (arith, d.opens, ==_refl x.ghl_event_id),
      ground (arith, d.statuses x.ghl_event_id, ==_refl x.ghl_event_id),
    )

conclude-status :
    (now : Date) (i : ℕ) (how : Ending) (s : Inbox) {q : EventStatus}
    → status_of i s.events ≡ some q
    → status_of i (conclude now i how s).events ≡ some (ending_status how)
unfolding conclude
conclude-status now i how s reads =
    ground (arith, finish-status now i i how s.events reads, ==_refl i)

-- An event that failed is worked on by one handler at its next delivery, and reads PROCESSED once that
-- handler has finished it so.
pub failed_is_retried :
    (x : Inbound) (now : Date) (s : Inbox)
    → IsExclusive s
    → status_of x.ghl_event_id s.events ≡ some EventStatus.failed
    → ((deliver x s).working x.ghl_event_id ≡ 1)
      × (status_of x.ghl_event_id
            (conclude now x.ghl_event_id Ending.as_processed (deliver x s)).events
          ≡ some EventStatus.processed)
      × Reach s (conclude now x.ghl_event_id Ending.as_processed (deliver x s))
failed_is_retried x now s h reads =
    let (one, read) = failed-deliver x s h reads in
    let i = x.ghl_event_id in
    let t = deliver x s in
    let busy : 0 < t.working i = omega (arith, one) in
    (
      one,
      conclude-status now i Ending.as_processed t read,
      Reach.next (Reach.next Reach.here (Step.delivery x refl))
          (Step.ending now i Ending.as_processed busy refl),
    )
