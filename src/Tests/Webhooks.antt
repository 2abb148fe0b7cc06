-- ===== src/Tests/Webhooks.antt =====
-- The theorems on inbound events at a concrete inbox.
use crm_mcd.Prelude.{◌≡◌, refl, arith, some, [], ◌∷◌, UniqueKeys, find, ◌==◌, if◌then◌else◌}
use crm_mcd.Webhook.{EventStatus, Inbound, Ending, new_event}
use crm_mcd.Webhook.Records.{status_of}
use crm_mcd.Webhook.Deliveries.{Inbox, deliver, conclude, crash, Reach, IsExclusive}
use crm_mcd.Webhook.Outcomes.{failed_is_retried}

abbrev funded : Inbound
funded = record { ghl_event_id = 5; location_id = 1; type = "funding" }

-- One event each: settled, failed, and in the hands of a handler.
abbrev inbox : Inbox
inbox = record {
  events =
      record (new_event funded) {
        ghl_event_id = 3;
        status = EventStatus.processed;
        processed_at = some 9;
      }
      ∷ record (new_event funded) {
        ghl_event_id = 4;
        status = EventStatus.failed;
        processed_at = some 9;
      }
      ∷ new_event funded
      ∷ [];
  working = λ i. if i == 5 then 1 else 0;
}

inbox-IsExclusive : IsExclusive inbox
unfolding UniqueKeys find status_of
inbox-IsExclusive = record {
  unique = (refl, (refl, (refl, tt)));
  single = λ i. ground arith;
  busy = λ i w. ground arith;
}

abbrev again : Inbox
again = deliver funded inbox

abbrev stranded : Inbox
stranded = deliver funded (crash 5 inbox)

abbrev refunded : Inbound
refunded = record funded { ghl_event_id = 4 }

failed_reads : status_of 4 inbox.events ≡ some EventStatus.failed
unfolding status_of find
failed_reads = refl

failed_is_retried_example :
    ((deliver refunded inbox).working 4 ≡ 1)
    × (status_of 4 (conclude 12 4 Ending.as_processed (deliver refunded inbox)).events
        ≡ some EventStatus.processed)
    × Reach inbox (conclude 12 4 Ending.as_processed (deliver refunded inbox))
failed_is_retried_example = failed_is_retried refunded 12 inbox inbox-IsExclusive failed_reads
