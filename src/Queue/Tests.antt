-- ===== src/Queue/Tests.antt =====
-- The properties of the queue at concrete rows.
use zero_trust_continuous_au.Base.{
  ℕ, ◌≤◌, ◌+◌, max, ◌≡◌, refl, String, true, false, none, some, List, [], ◌∷◌, arith, All, length,
  if◌then◌else◌,
}
use zero_trust_continuous_au.Json.{obj, end}
use zero_trust_continuous_au.Row.{
  Event, in_flight, retry_pending, permanent_error, find, listed, new_event, is_due,
  is_permanent_class,
}
use zero_trust_continuous_au.Queue.{
  Queue, Op, start, put, claim, retry, synced, run, claim_batch, mark_retry,
}
use zero_trust_continuous_au.Queue.Table.{content, Unique}
use zero_trust_continuous_au.Queue.Keeps.{run-Has, run-Unique}
use zero_trust_continuous_au.Queue.Claim.{ids_of, claim_batch_disjoint, claim_batch_takes}
use zero_trust_continuous_au.Queue.Retry.{mark_retry_backoff}

abbrev row : String → Event
row k = new_event k "PROCESS" "HIGH" (obj end) "2026-01-01"

abbrev first_id : String
first_id = "e1"

abbrev queue : Queue
queue = record { events = row first_id ∷ row "e2" ∷ []; max_size = 1; last_capacity_warning = 0 }

abbrev ops : List Op
ops =
    claim 60 100 1
    ∷ start
    ∷ put "e3" "FILE" "LOW" (obj end) "2026-01-02" 400
    ∷ retry (first_id ∷ []) "HTTP 503" "TRANSIENT" none 120
    ∷ synced ("e2" ∷ [])
    ∷ []

queue-Unique : Unique queue.events
unfolding find
queue-Unique = (refl, (refl, tt))

found_first : find first_id queue.events ≡ some (row first_id)
unfolding find
found_first = refl

not_synced : listed ("e2" ∷ []) first_id ≡ false
unfolding listed
not_synced = refl

named : listed (first_id ∷ []) first_id ≡ true
unfolding listed
named = refl

run-Has_example :
    (x : Event) × (find first_id (run ops queue).events ≡ some x)
    × (content x ≡ content (row first_id))
run-Has_example =
    run-Has ops queue first_id (row first_id) found_first (tt, (tt, (tt, (tt, (not_synced, tt)))))

run-Unique_example : Unique (run ops queue).events
run-Unique_example = run-Unique ops queue queue-Unique

claim_batch_disjoint_example :
    let (q1, rows) = claim_batch 60 100 1 queue in
    let (_, rows') = claim_batch 60 150 5 q1 in
    All (λ e. listed (ids_of rows) e.event_id ≡ false) rows'
claim_batch_disjoint_example = claim_batch_disjoint 60 100 1 60 150 5 queue (omega arith)

claim_batch_takes_example :
    let (q1, rows) = claim_batch 60 100 1 queue in
    (length rows ≤ max 1 1)
    × All
        (λ e.
          (is_due 100 e ≡ true)
          × (find e.event_id q1.events
              ≡ some (record e {
                status = in_flight;
                attempt_count = e.attempt_count + 1;
                last_attempt_at = some 100;
              })))
        rows
claim_batch_takes_example = claim_batch_takes 60 100 1 queue queue-Unique

mark_retry_backoff_example :
    (x : Event) × (t : ℕ) × (find first_id
        (mark_retry (first_id ∷ []) "HTTP 503" "TRANSIENT" none 120 queue).events
      ≡ some x)
    × (x.next_attempt_at ≡ some t)
    × (120 ≤ t)
    × (t ≤ 120 + 300)
    × (0 ≤ 1 → t ≡ 120)
    × (content x ≡ content (row first_id))
    × (x.attempt_count ≡ 0)
    × (x.status ≡ (if is_permanent_class "TRANSIENT" 0 then permanent_error else retry_pending))
mark_retry_backoff_example =
    mark_retry_backoff (first_id ∷ []) "HTTP 503" "TRANSIENT" 120 queue first_id (row first_id)
      found_first named
