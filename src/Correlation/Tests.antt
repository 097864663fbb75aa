-- ===== src/Correlation/Tests.antt =====
-- The properties of the correlation engine at a concrete sequence of logins.
use zero_trust_continuous_au.Base.{
  ℕ, ◌≡◌, ◌≤◌, refl, String, List, [], ◌∷◌, some, none, All, arith, length, keep,
}
use zero_trust_continuous_au.Base.Dict.{get_or}
use zero_trust_continuous_au.Json.Text.{occurs_in, starts_with}
use zero_trust_continuous_au.Correlation.{
  Event, Finding, Windows, success, auth_sequence, login_key, login_kind, in_window, process_event,
  process_all,
}
use zero_trust_continuous_au.Correlation.Detects.{NoSuccess, failures_of, process_event_detects}
use zero_trust_continuous_au.Correlation.Sound.{IsSound, process_event-IsSound}

abbrev lower : String → String
lower s = s

abbrev login : ℕ → String → Event
login t text = record {
  timestamp = t;
  agent_id = "a1";
  user_name = some "u";
  process_name = none;
  destination_ip = none;
  rule = some (record { groups = "authentication" ∷ []; description = text });
}

abbrev failed : List Event
failed = login 10 "login failed" ∷ login 20 "login failed" ∷ login 30 "login failed" ∷ []

abbrev good : Event
good = login 40 "login success"

abbrev fresh : Windows
fresh = record { buffers = []; failed_logins = [] }

good_kind : login_kind lower good.rule ≡ success
unfolding login_kind occurs_in starts_with
good_kind = refl

none_succeeds : All (NoSuccess lower 300 (login_key good)) failed
unfolding login_kind occurs_in starts_with login_key
none_succeeds = (refl, (refl, (refl, tt)))

three_failures :
    3 ≤ length (keep (in_window 300 40) (failures_of lower 300 (login_key good) failed))
unfolding failures_of login_kind occurs_in starts_with login_key
three_failures = omega arith

process_event_detects_example :
    (n : ℕ) × (rest : List Finding) × (3 ≤ n)
    × ((process_event lower 300 good (process_all lower 300 failed fresh)).1
        ≡ record {
          pattern = auth_sequence n (some "u");
          agent_id = "a1";
          risk_delta = 30;
          matched = good;
          timestamp = 40;
        }
          ∷ rest)
    × (get_or
          (login_key good)
          []
          (process_event lower 300 good (process_all lower 300 failed fresh)).0.failed_logins
        ≡ [])
process_event_detects_example =
    process_event_detects lower 300 failed good fresh good_kind none_succeeds three_failures

process_event-IsSound_example :
    All (IsSound lower 300 good fresh) (process_event lower 300 good fresh).1
process_event-IsSound_example = process_event-IsSound lower 300 good fresh
