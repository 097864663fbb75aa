-- ===== src/Queue.antt =====
-- agent/storage/offline_queue.py: the agent's durable queue of telemetry events. The table is the list of its
-- rows in the order of `id`; each call is one transaction. The rows stand in Row.antt.
pub mod Table
pub mod Keeps
pub mod Claim
pub mod Retry
mod Tests
use zero_trust_continuous_au.Base.{
  ℕ, zero, suc, ◌+◌, ◌-◌, ◌^◌, min, max, String, Bool, true, false, not, ◌&&◌, ◌||◌, Option, none,
  some, List, [], ◌∷◌, ◌++◌, map, any, keep, take, length, leb, str_eq, if◌then◌else◌,
}
use zero_trust_continuous_au.Base.Int.{ℤ, pos, negsuc}
use zero_trust_continuous_au.Json.{Value, value_eq}
use zero_trust_continuous_au.Row.{
  Status, Event, is_pending, is_in_flight, is_waiting, is_permanent_error, find, update, listed,
  count, text_take, is_text, is_none, map_add, recover_at_start, recover_legacy, new_event,
  says_same, at_most, is_stale, recover_stale, is_due, put_in_flight, is_permanent_class,
  retry_delay, attempts_or, not_negative, retry_event, where_id, pending, in_flight, retry_pending,
  permanent_error,
}

pub record Queue : Type 0 where
  pub events : List Event
  pub max_size : ℕ
  pub last_capacity_warning : ℕ

unfoldable pub queue_depth : Queue → ℕ
queue_depth q = length q.events

unfoldable pub pending_depth : Queue → ℕ
unfolding count
pending_depth q = count (λ e. is_pending e.status) q.events

unfoldable pub permanent_error_count : Queue → ℕ
unfolding count
permanent_error_count q = count (λ e. is_permanent_error e.status) q.events

pub data Enqueued : Type 0 where
  added already_there conflict : Enqueued

-- A full queue only moves the time of the last warning; `clock` is `time.monotonic()`.
unfoldable pub warn_capacity : ℕ → Queue → Queue
unfolding pending_depth
warn_capacity clock q =
    if leb q.max_size (pending_depth q) && leb 300 (clock - q.last_capacity_warning)
    then record q { last_capacity_warning = clock }
    else q

unfoldable pub enqueue : String → String → String → Value → String → ℕ → Queue → Queue × Enqueued
unfolding find says_same warn_capacity
enqueue event_id collector_type severity payload timestamp clock q = elim (find event_id q.events) [
  | some e ↦
      if says_same e collector_type severity payload then (q, already_there) else (q, conflict)
  | none ↦
      let warned = warn_capacity clock q in
      (
        record warned {
          events =
              warned.events ++ (new_event event_id collector_type severity payload timestamp ∷ []);
        },
        added,
      )
]

-- `dequeue_batch`, also under the name `get_pending_batch`
unfoldable pub dequeue_batch : ℕ → Queue → List Event
dequeue_batch batch_size q = take batch_size q.events

-- The rows that `claim_batch` selects.
unfoldable pub claimed : ℕ → ℕ → ℕ → Queue → List Event
unfolding update recover_stale is_due
claimed timeout now batch_size q =
    take (max 1 batch_size) (keep (is_due now) (update (recover_stale timeout now) q.events))

unfoldable pub claim_batch : ℕ → ℕ → ℕ → Queue → Queue × List Event
unfolding claimed put_in_flight
claim_batch timeout now batch_size q =
    let rows = claimed timeout now batch_size q in
    let recovered = update (recover_stale timeout now) q.events in
    (record q { events = update (put_in_flight (map (λ e. e.event_id) rows) now) recovered }, rows)

unfoldable pub retry_loop :
    String → String → Option ℤ → ℕ → List Event → List String → List Event → List Event
unfolding update find retry_event
retry_loop error error_class delay_seconds now before [] es = es
retry_loop error error_class delay_seconds now before (k ∷ ks) es =
    retry_loop error error_class delay_seconds now before ks
      (update (where_id k (retry_event error error_class delay_seconds now (find k before))) es)

unfoldable pub mark_retry : List String → String → String → Option ℤ → ℕ → Queue → Queue
unfolding retry_loop
mark_retry event_ids error error_class delay_seconds now q = record q {
  events = retry_loop error error_class delay_seconds now q.events event_ids q.events;
}

-- DELETE of the rows whose ids are acknowledged.
unfoldable pub mark_synced : List String → Queue → Queue
unfolding listed
mark_synced event_ids q = record q {
  events = keep (λ e. not (listed event_ids e.event_id)) q.events;
}

-- A call on the queue, or a start of the agent on the same file.
pub data Op : Type 0 where
  start : Op
  legacy : Op
  put : String → String → String → Value → String → ℕ → Op
  claim : ℕ → ℕ → ℕ → Op
  retry : List String → String → String → Option ℤ → ℕ → Op
  synced : List String → Op

unfoldable pub step : Op → Queue → Queue
unfolding recover_at_start recover_legacy enqueue claim_batch mark_retry mark_synced update
step start q = record q { events = update recover_at_start q.events }
step legacy q = record q { events = update recover_legacy q.events }
step (put k c s p t clock) q = (enqueue k c s p t clock q).0
step (claim timeout now n) q = (claim_batch timeout now n q).0
step (retry ks e c d now) q = mark_retry ks e c d now q
step (synced ks) q = mark_synced ks q

unfoldable pub run : List Op → Queue → Queue
unfolding step
run [] q = q
run (o ∷ os) q = run os (step o q)
