-- ===== src/Correlation.antt =====
-- engine/correlation/engine.py: findings from sequences of events of an agent. A time is a number of
-- microseconds, and so is the window. Of an event the model has what the engine reads.
pub mod Detects
pub mod Sound
mod Tests
use zero_trust_continuous_au.Base.{
  ℕ, ◌+◌, String, Bool, true, false, not, ◌&&◌, ◌||◌, Option, none, some, List, [], ◌∷◌, ◌++◌, any,
  keep, length, leb, is_some, str_eq, if◌then◌else◌,
}
use zero_trust_continuous_au.Base.Dict.{Dict, lookup, insert, get_or}
use zero_trust_continuous_au.Json.Text.{is_empty, occurs_in}

-- `wazuh_rule`
pub record SourceRule : Type 0 where
  pub groups : List String
  pub description : String

pub record Event : Type 0 where
  pub timestamp : ℕ
  pub agent_id : String
  pub user_name : Option String
  pub process_name : Option String
  pub destination_ip : Option String
  pub rule : Option SourceRule

-- The two rules, with what their descriptions say.
pub data Pattern : Type 0 where
  auth_sequence : ℕ → Option String → Pattern
  powershell_network : String → Pattern

pub record Finding : Type 0 where
  pub pattern : Pattern
  pub agent_id : String
  pub risk_delta : ℕ
  pub matched : Event
  pub timestamp : ℕ

-- `self._buffers` and `self._failed_logins`
pub record Windows : Type 0 where
  pub buffers : Dict (List Event)
  pub failed_logins : Dict (List ℕ)

abbrev pub has_text : Option String → Bool
has_text none = false
has_text (some s) = not (is_empty s)

-- `name or 'unknown'`
abbrev pub or_unknown : Option String → String
or_unknown none = "unknown"
or_unknown (some s) = if is_empty s then "unknown" else s

abbrev pub append_text : String → String → String
append_text String.[] t = t
append_text (String.◌∷◌ c s) t = String.◌∷◌ c (append_text s t)

-- The key of the failed logins: agent, colon, user.
unfoldable pub login_key : Event → String
login_key e = append_text e.agent_id (append_text ":" (or_unknown e.user_name))

-- `rule and group in rule.groups`
abbrev pub in_group : String → Option SourceRule → Bool
in_group g none = false
in_group g (some r) = any (λ h. str_eq h g) r.groups

-- `time >= current - window`
abbrev pub in_window : ℕ → ℕ → ℕ → Bool
in_window window current time = leb current (time + window)

-- The buffer of an agent once the event is in and old ones are out.
unfoldable pub buffer_with : ℕ → Event → Windows → List Event
buffer_with window e w =
    keep (λ x. in_window window e.timestamp x.timestamp)
      (get_or e.agent_id [] w.buffers ++ (e ∷ []))

-- What a login event is taken for.
pub data Login : Type 0 where
  failure success other : Login

-- `lower` is Python's `str.lower`.
module _ (lower : String → String) where
  abbrev pub login_of : String → Login
  login_of text =
      if occurs_in "failed" text || occurs_in "failure" text
      then failure
      else if occurs_in "success" text || occurs_in "succeeded" text
      then success
      else other

  unfoldable pub login_kind : Option SourceRule → Login
  login_kind none = other
  login_kind (some r) =
      if in_group "authentication" (some r) then login_of (lower r.description) else other

  unfoldable pub recent_failures : ℕ → Event → Windows → List ℕ
  recent_failures window e w =
      keep (in_window window e.timestamp) (get_or (login_key e) [] w.failed_logins)

  -- Rule 1.
  unfoldable pub check_login : ℕ → Event → Windows → Login → Windows × List Finding
  unfolding recent_failures
  check_login window e w failure = (
    record w {
      failed_logins =
          insert (login_key e) (get_or (login_key e) [] w.failed_logins ++ (e.timestamp ∷ []))
            w.failed_logins;
    },
    [],
  )
  check_login window e w success =
      let recent = recent_failures window e w in
      if leb 3 (length recent)
      then (
        record w { failed_logins = insert (login_key e) [] w.failed_logins },
        record {
          pattern = auth_sequence (length recent) e.user_name;
          agent_id = e.agent_id;
          risk_delta = 30;
          matched = e;
          timestamp = e.timestamp;
        }
            ∷ [],
      )
      else (w, [])
  check_login window e w other = (w, [])

  unfoldable pub runs_powershell : Event → Bool
  runs_powershell e = elim e.process_name [
    | none ↦ false
    | some p ↦ not (is_empty p) && occurs_in "powershell" (lower p)
  ]

  -- The finding of rule 2, by the destination; `seen` is the test before `event.destination_ip`.
  unfoldable pub network_finding : Event → Bool → Option String → List Finding
  network_finding e seen none = []
  network_finding e seen (some ip) =
      if seen && not (is_empty ip)
      then record {
        pattern = powershell_network ip;
        agent_id = e.agent_id;
        risk_delta = 35;
        matched = e;
        timestamp = e.timestamp;
      }
        ∷ []
      else []

  -- Rule 2.
  unfoldable pub check_network : Event → List Event → List Finding
  unfolding runs_powershell network_finding
  check_network e buffer =
      let has_network = is_some e.destination_ip || in_group "network" e.rule in
      network_finding e (any runs_powershell buffer && has_network) e.destination_ip

  unfoldable pub process_event : ℕ → Event → Windows → Windows × List Finding
  unfolding check_login check_network buffer_with login_kind
  process_event window e w =
      let buffer = buffer_with window e w in
      let buffered = record w { buffers = insert e.agent_id buffer w.buffers } in
      let (checked, findings) = check_login window e buffered (login_kind e.rule) in
      (checked, findings ++ check_network e buffer)

  -- The windows after a sequence of events.
  unfoldable pub process_all : ℕ → List Event → Windows → Windows
  unfolding process_event
  process_all window [] w = w
  process_all window (e ∷ es) w = process_all window es (process_event window e w).0
