-- ===== src/Risk.antt =====
-- engine/risk/engine.py: risk scores of agents, with adjustments, decay and an audit history.
-- A datetime is its microsecond count; `Floats` is Python's float arithmetic on elapsed minutes.
pub mod Bounds
pub mod Effects
pub mod History
mod Tests
use zero_trust_continuous_au.Base.{
  ℕ, String, Bool, Option, none, some, List, [], ◌∷◌, ◌++◌, if◌then◌else◌,
}
use zero_trust_continuous_au.Base.Int.{ℤ, pos, ◌+ℤ◌, ◌-ℤ◌, sub_ℕ, ltb_ℤ, leb_ℤ, max_ℤ, min_ℤ}
use zero_trust_continuous_au.Base.Dict.{Dict, lookup, insert, get_or}

-- The floating-point steps of `apply_decay`.
pub record Floats : Type 1 where
  pub Float : Type 0
  -- `timedelta.total_seconds() / 60.0`, of a difference in microseconds
  pub minutes : ℤ → Float
  -- `x < 1.0`
  pub below_one : Float → Bool
  -- `int(x * y)`
  pub int_mul : Float → Float → ℤ
  -- `int(x)`
  pub to_int : Float → ℤ

-- The text of a change: what the caller gave, or the decay message with its minutes.
pub data Reason : Type 0 where
  given : String → Reason
  decayed : ℤ → Reason

pub record RiskEvent : Type 0 where
  pub timestamp : ℕ
  pub agent_id : String
  pub previous_score : ℤ
  pub delta : ℤ
  pub new_score : ℤ
  pub reason : Reason
  pub finding_id : Option String

-- `self._scores`, `self._last_update` and `self._history`.
pub record Tables : Type 0 where
  pub scores : Dict ℤ
  pub last_update : Dict ℕ
  pub history : Dict (List RiskEvent)

pub record Limits : Type 0 where
  pub min_score : ℤ
  pub max_score : ℤ

abbrev pub default_limits : Limits
default_limits = record { min_score = pos 0; max_score = pos 100 }

abbrev pub fresh : Tables
fresh = record { scores = []; last_update = []; history = [] }

unfoldable pub get_score : Tables → String → ℤ
get_score t a = get_or a (pos 0) t.scores

pub data Level : Type 0 where
  low medium high critical : Level

unfoldable pub get_risk_level : Tables → String → Level
get_risk_level t a =
    let score = get_score t a in
    if leb_ℤ (pos 85) score
    then critical
    else if leb_ℤ (pos 60) score
    then high
    else if leb_ℤ (pos 30) score
    then medium
    else low

unfoldable pub get_history : Tables → String → List RiskEvent
get_history t a = get_or a [] t.history

unfoldable pub clamp : Limits → ℤ → ℤ
clamp l x = max_ℤ l.min_score (min_ℤ l.max_score x)

-- The event and the tables that `apply_delta` leaves; `now` is read when no timestamp is given.
unfoldable pub delta_event :
    Limits → String → ℤ → String → Option String → Option ℕ → ℕ → Tables → RiskEvent
delta_event l a delta reason finding_id timestamp now t = record {
  timestamp = elim timestamp [ none ↦ now | some ts ↦ ts ];
  agent_id = a;
  previous_score = get_score t a;
  delta = delta;
  new_score = clamp l (get_score t a +ℤ delta);
  reason = given reason;
  finding_id = finding_id;
}

-- The three writes that record an event of an agent which has, or gets, a history.
unfoldable pub record_event : RiskEvent → Tables → Tables
record_event e t = record {
  scores = insert e.agent_id e.new_score t.scores;
  last_update = insert e.agent_id e.timestamp t.last_update;
  history = insert e.agent_id (get_history t e.agent_id ++ e ∷ []) t.history;
}

unfoldable pub apply_delta :
    Limits → String → ℤ → String → Option String → Option ℕ → ℕ → Tables → Tables × RiskEvent
apply_delta l a delta reason finding_id timestamp now t =
    let e = delta_event l a delta reason finding_id timestamp now t in (record_event e t, e)

-- What `apply_decay` gives back: an event or `None`, or the `KeyError` of `self._history[agent_id]`.
pub data Decay : Type 0 where
  event : RiskEvent → Decay
  nothing : Decay
  key_error : Decay

module _ (fl : Floats) where
  open fl use {Float, minutes, below_one, int_mul, to_int}

  -- The append at the end, after the score and the time are written.
  unfoldable pub append_decay : RiskEvent → Tables → Option (List RiskEvent) → Tables × Decay
  append_decay e t none = (
    record t {
      scores = insert e.agent_id e.new_score t.scores;
      last_update = insert e.agent_id e.timestamp t.last_update;
    },
    key_error,
  )
  append_decay e t (some _) = (record_event e t, event e)

  unfoldable pub decay_event : Limits → String → ℤ → Float → ℕ → Tables → RiskEvent
  decay_event l a amount elapsed now t =
      let prev = get_score t a in
      let new = max_ℤ l.min_score (prev -ℤ amount) in
      record {
        timestamp = now;
        agent_id = a;
        previous_score = prev;
        delta = new -ℤ prev;
        new_score = new;
        reason = decayed (to_int elapsed);
        finding_id = none;
      }

  -- The guards of `apply_decay` once a last update is known.
  unfoldable pub decay_since : Limits → Float → String → ℕ → Tables → ℕ → Tables × Decay
  unfolding append_decay
  decay_since l rate a now t last =
      let elapsed = minutes (sub_ℕ now last) in
      let amount = int_mul elapsed rate in
      if below_one elapsed
      then (t, nothing)
      else if leb_ℤ amount (pos 0)
      then (t, nothing)
      else if leb_ℤ (get_score t a) l.min_score
      then (t, nothing)
      else append_decay (decay_event l a amount elapsed now t) t (lookup a t.history)

  unfoldable pub apply_decay : Limits → Float → String → ℕ → Tables → Tables × Decay
  apply_decay l rate a now t = elim (lookup a t.last_update) [
    | none ↦ (t, nothing)
    | some last ↦ decay_since l rate a now t last
  ]

  -- One call on the engine.
  pub data Op : Type 0 where
    delta : String → ℤ → String → Option String → Option ℕ → ℕ → Op
    decay : String → ℕ → Op

  unfoldable pub step : Limits → Float → Op → Tables → Tables
  step l rate (delta a d reason f ts now) t = (apply_delta l a d reason f ts now t).0
  step l rate (decay a now) t = (apply_decay l rate a now t).0

  unfoldable pub run : Limits → Float → List Op → Tables → Tables
  run l rate [] t = t
  run l rate (op ∷ ops) t = run l rate ops (step l rate op t)
