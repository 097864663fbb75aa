-- ===== src/Row.antt =====
-- The rows of `offline_events` in agent/storage/offline_queue.py, and what its SQL statements test and
-- change in one row. Times are numbers on one scale, in seconds.
use zero_trust_continuous_au.Base.{
  ℕ, zero, suc, ◌+◌, ◌-◌, ◌^◌, min, max, String, Bool, true, false, ◌&&◌, ◌||◌, Option, none, some,
  List, [], ◌∷◌, leb, str_eq, if◌then◌else◌,
}
use zero_trust_continuous_au.Base.Int.{ℤ, pos, negsuc}
use zero_trust_continuous_au.Json.{Value, value_eq}

pub data Status : Type 0 where
  pending in_flight retry_pending permanent_error : Status

-- A row of `offline_events`.
pub record Event : Type 0 where
  pub event_id : String
  pub collector_type : String
  pub severity : String
  pub payload : Value
  pub timestamp : String
  pub status : Status
  pub attempt_count : ℕ
  pub last_attempt_at : Option ℕ
  pub next_attempt_at : Option ℕ
  pub last_error : Option String
  pub error_class : Option String

-- `status IN ('PENDING','RETRY_PENDING','IN_FLIGHT')`
abbrev pub is_pending : Status → Bool
is_pending permanent_error = false
is_pending s = true

abbrev pub is_in_flight : Status → Bool
is_in_flight in_flight = true
is_in_flight s = false

-- `status IN ('PENDING','RETRY_PENDING')`
abbrev pub is_waiting : Status → Bool
is_waiting pending = true
is_waiting retry_pending = true
is_waiting s = false

abbrev pub is_permanent_error : Status → Bool
is_permanent_error permanent_error = true
is_permanent_error s = false

-- `WHERE event_id=?`, of a column that is unique.
unfoldable pub find : String → List Event → Option Event
find k [] = none
find k (e ∷ es) = if str_eq e.event_id k then some e else find k es

-- An UPDATE of every row.
unfoldable pub update : (Event → Event) → List Event → List Event
update f [] = []
update f (e ∷ es) = f e ∷ update f es

-- `event_id IN (...)`
unfoldable pub listed : List String → String → Bool
listed [] k = false
listed (i ∷ is) k = str_eq i k || listed is k

unfoldable pub count : (Event → Bool) → List Event → ℕ
count p [] = 0
count p (e ∷ es) = if p e then suc (count p es) else count p es

-- The first n characters: `text[:n]`.
unfoldable pub text_take : ℕ → String → String
text_take zero s = String.[]
text_take (suc n) String.[] = String.[]
text_take (suc n) (String.◌∷◌ c s) = String.◌∷◌ c (text_take n s)

-- A column equals this text; no row without a value passes.
abbrev pub is_text : Option String → String → Bool
is_text none t = false
is_text (some s) t = str_eq s t

abbrev pub is_none : Option ℕ → Bool
is_none none = true
is_none (some n) = false

abbrev pub map_add : ℕ → Option ℕ → Option ℕ
map_add n none = none
map_add n (some t) = some (t + n)

-- The UPDATE at the end of `_init_db`.
unfoldable pub recover_at_start : Event → Event
recover_at_start e = if is_in_flight e.status then record e { status = retry_pending } else e

-- `recover_legacy_batch_rejections`
unfoldable pub recover_legacy : Event → Event
recover_legacy e =
    if is_permanent_error e.status
      && is_text e.error_class "VALIDATION"
      && is_text e.last_error "HTTP 400"
    then record e {
      status = retry_pending;
      next_attempt_at = none;
      last_error = some "Re-evaluating legacy batch rejection";
      error_class = some "TRANSIENT";
    }
    else e

abbrev pub new_event : String → String → String → Value → String → Event
new_event event_id collector_type severity payload timestamp = record {
  event_id = event_id;
  collector_type = collector_type;
  severity = severity;
  payload = payload;
  timestamp = timestamp;
  status = pending;
  attempt_count = 0;
  last_attempt_at = none;
  next_attempt_at = none;
  last_error = none;
  error_class = none;
}

-- The row under this key says the same.
unfoldable pub says_same : Event → String → String → Value → Bool
says_same e collector_type severity payload =
    str_eq e.collector_type collector_type
    && str_eq e.severity severity
    && value_eq e.payload payload

-- `column<=?`, which no row without a value passes.
abbrev pub at_most : Option ℕ → ℕ → Bool
at_most none t = false
at_most (some u) t = leb u t

-- `last_attempt_at <= now - timeout`, where the timeout is at least 30 seconds.
unfoldable pub is_stale : ℕ → ℕ → Event → Bool
is_stale timeout now e =
    is_in_flight e.status && at_most (map_add (max 30 timeout) e.last_attempt_at) now

unfoldable pub recover_stale : ℕ → ℕ → Event → Event
unfolding is_stale
recover_stale timeout now e =
    if is_stale timeout now e
    then record e {
      status = retry_pending;
      next_attempt_at = none;
      last_error = some "Recovered from stale IN_FLIGHT state (upload timeout)";
      error_class = some "TRANSIENT";
    }
    else e

-- A waiting row whose next attempt is due.
unfoldable pub is_due : ℕ → Event → Bool
is_due now e = is_waiting e.status && (is_none e.next_attempt_at || at_most e.next_attempt_at now)

unfoldable pub put_in_flight : List String → ℕ → Event → Event
unfolding listed
put_in_flight ids now e =
    if listed ids e.event_id
    then record e {
      status = in_flight;
      attempt_count = e.attempt_count + 1;
      last_attempt_at = some now;
    }
    else e

abbrev pub is_permanent_class : String → ℕ → Bool
is_permanent_class c attempts =
    str_eq c "PERMANENT"
    || str_eq c "VALIDATION"
    || str_eq c "SECURITY"
    || (str_eq c "AUTHENTICATION" && leb 3 attempts)

-- The seconds until the next attempt, before `max(0, delay)`.
unfoldable pub retry_delay : Option ℤ → ℕ → ℤ
retry_delay (some delay) attempt = delay
retry_delay none attempt = if leb attempt 1 then pos 0 else pos (min 300 (2 ^ min (attempt - 1) 8))

-- `attempts.get(event_id, default)`, of the counts before the loop.
abbrev pub attempts_or : ℕ → Option Event → ℕ
attempts_or n none = n
attempts_or n (some e) = e.attempt_count

abbrev pub not_negative : ℤ → ℕ
not_negative (pos n) = n
not_negative (negsuc n) = 0

-- The loop's UPDATE for one id, given the row as it was before the loop.
unfoldable pub retry_event : String → String → Option ℤ → ℕ → Option Event → Event → Event
unfolding retry_delay text_take
retry_event error error_class delay_seconds now before e = record e {
  status =
      if is_permanent_class error_class (attempts_or 0 before)
      then permanent_error
      else retry_pending;
  next_attempt_at = some (now + not_negative (retry_delay delay_seconds (attempts_or 1 before)));
  last_error = some (text_take 2000 error);
  error_class = some error_class;
}

abbrev pub where_id : String → (Event → Event) → Event → Event
where_id k f e = if str_eq e.event_id k then f e else e
