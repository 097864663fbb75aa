-- ===== src/Executor/Checks.antt =====
-- The checks of `execute_template` on the parameters, per action; `none` is an `InvalidParameterError`.
use Prim.Native.Char.{Char, code}
use zero_trust_continuous_au.Base.{
  ℕ, String, Bool, true, false, not, ◌&&◌, ◌||◌, Option, none, some, List, [], ◌∷◌, any, ltb, leb,
  str_eq, if◌then◌else◌, ◌==◌,
}
use zero_trust_continuous_au.Json.{Value, str, Fields, end, field, get}
use zero_trust_continuous_au.Json.Text.{is_empty, text_length, starts_with, any_char}
use zero_trust_continuous_au.Policy.{get_or_value, set_field}
use zero_trust_continuous_au.Executor.{
  Action, logoff_user, kill_process, network_isolation, local_account_control, is_dangerous, System,
}

-- No key but the allowed ones.
unfoldable pub only_keys : List String → Fields → Bool
only_keys allowed end = true
only_keys allowed (field k v fs) = any (λ a. str_eq a k) allowed && only_keys allowed fs

-- A value that is a text.
abbrev pub text_or_none : Option Value → Option String
text_or_none (some (str s)) = some s
text_or_none v = none

abbrev pub is_hex_char : Char → Bool
is_hex_char c =
    (leb b'0' (code c) && leb (code c) b'9')
    || (leb b'a' (code c) && leb (code c) b'f')
    || (leb b'A' (code c) && leb (code c) b'F')

abbrev pub one_of : List ℕ → Char → Bool
one_of cs c = any (λ d. code c == d) cs

-- `'*?\r\n'`
abbrev pub wildcards : List ℕ
wildcards = b'*' ∷ b'?' ∷ 13 ∷ 10 ∷ []

abbrev pub is_in_range : ℕ → ℕ → Option ℕ → Bool
is_in_range low high none = false
is_in_range low high (some n) = leb low n && leb n high

module _ (system : System) where
  -- `_validate_parameters`
  unfoldable pub validate_parameters : Fields → Bool
  validate_parameters end = true
  validate_parameters (field k v fs) =
      not (is_dangerous k) && not (is_dangerous (system.text_of v)) && validate_parameters fs

  -- `str(params.get(k, s))`
  abbrev pub text_at : String → String → Fields → String
  text_at k s params = system.text_of (get_or_value k (str s) params)

  abbrev pub is_blank : String → Bool
  is_blank s = is_empty (system.strip s)

  unfoldable pub lock_target : Option String → Option ℕ → Option (String × ℕ)
  lock_target (some user) (some id) = if is_blank user || id == 0 then none else some (user, id)
  lock_target user id = none

  unfoldable pub file_target : Option String → Option String → Option (String × String)
  file_target (some path) (some expected) =
      if is_empty path
        || any_char (λ c. code c == 0) path
        || not (text_length expected == 64)
        || any_char (λ c. not (is_hex_char c)) expected
      then none
      else some (path, expected)
  file_target path expected = none

  unfoldable pub check_isolation : String → Fields → Option Fields
  unfolding get_or_value
  check_isolation original params =
      let action =
        if str_eq original "UNISOLATE_ENDPOINT"
        then "UNISOLATE"
        else system.upper (text_at "Action" "ISOLATE" params) in
      let port = text_at "ManagerPort" "8080" params in
      if (str_eq action "ISOLATE" || str_eq action "UNISOLATE")
        && is_in_range 1 65535 (system.decimal port)
      then some (set_field "ManagerPort" (str port) (set_field "Action" (str action) params))
      else none

  unfoldable pub is_local_name : Option String → Bool
  is_local_name none = false
  is_local_name (some user) = not (is_empty user) && not (any_char (one_of (92 ∷ wildcards)) user)

  unfoldable pub check_account : String → Fields → Option Fields
  unfolding get_or_value is_local_name
  check_account original params =
      let requested = if str_eq original "UNLOCK_LOCAL_ACCOUNT" then "UNLOCK" else "LOCK" in
      let logout = system.lower (text_at "LogoutExistingSessions" "false" params) in
      if is_local_name (text_or_none (get "UserName" params))
        && (str_eq logout "true" || str_eq logout "false")
      then some (
          set_field "AgentAccount" (str system.user_name) (
            set_field "LogoutExistingSessions" (str logout)
              (set_field "Action" (str requested) params)))
      else none

  unfoldable pub is_logoff_name : Option String → Bool
  is_logoff_name none = false
  is_logoff_name (some user) =
      not (is_blank user) && not (any_char (one_of wildcards) user) && not (starts_with "-" user)

  unfoldable pub check_logoff : Fields → Option Fields
  unfolding get_or_value is_logoff_name
  check_logoff params =
      let id = text_at "SessionId" "" params in
      if is_logoff_name (text_or_none (get "UserName" params))
        && (is_empty id || is_in_range 1 2147483647 (system.decimal id))
      then some params
      else none

  abbrev pub is_given : Option String → Bool
  is_given none = false
  is_given (some s) = not (is_empty s)

  unfoldable pub is_process_name : Option String → Bool
  is_process_name none = false
  is_process_name (some name) = not (is_empty name) && not (any_char (one_of wildcards) name)

  abbrev pub is_user_process : Option ℕ → Bool
  is_user_process none = false
  is_user_process (some pid) = ltb 4 pid

  unfoldable pub check_kill : Fields → Option Fields
  unfolding get_or_value is_process_name
  check_kill params =
      if is_user_process (system.decimal (text_at "ProcessId" "" params))
        && is_process_name (text_or_none (get "ProcessName" params))
        && is_given (text_or_none (get "ProcessPath" params))
        && is_given (text_or_none (get "ProcessCreatedAt" params))
      then some (set_field "AgentProcessId" (str system.process_id) params)
      else none

  -- The parameters with which the script of an action runs.
  unfoldable pub script_parameters : Action → String → Fields → Option Fields
  unfolding check_isolation check_account check_logoff check_kill
  script_parameters network_isolation original params = check_isolation original params
  script_parameters local_account_control original params = check_account original params
  script_parameters logoff_user original params = check_logoff params
  script_parameters kill_process original params = check_kill params
  script_parameters action original params = none
