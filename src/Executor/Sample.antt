-- ===== src/Executor/Sample.antt =====
-- A Windows machine whose scripts print their markers, and a command to kill a process.
use zero_trust_continuous_au.Base.{
  ℕ, String, ◌≡◌, refl, true, false, Option, some, none, if◌then◌else◌, str_eq,
}
use zero_trust_continuous_au.Base.Int.{pos}
use zero_trust_continuous_au.Json.{Value, str, Fields, field, end}
use zero_trust_continuous_au.Executor.{System, finished, managed, PsResult}

abbrev text_value : Value → String
text_value (str s) = s
text_value v = ""

pub text_value_str : (s : String) → text_value (str s) ≡ s
text_value_str s = refl

abbrev number_of : String → Option ℕ
number_of s = if str_eq s "512" then some 512 else none

abbrev pub machine : System
machine = record {
  text_of = text_value;
  text_of_str = text_value_str;
  strip = λ s. s;
  upper = λ s. s;
  lower = λ s. s;
  decimal = number_of;
  is_windows = true;
  isolation_switch = "true";
  user_name = "zta";
  process_id = "77";
  script_path = λ file. file;
  exists = λ file. true;
  run = λ line. finished (pos 0) "PROCESS_NOT_ACTIVE" "";
  session_of_user = λ user id. some id;
  own_session = none;
  locks = true;
  last_error = 0;
  logoff = λ user domain id. managed "3";
  quarantine = λ path expected. managed "{}";
}

abbrev pub target : Fields
target = field "ProcessId" (str "512") (
    field "ProcessName" (str "evil.exe") (
      field "ProcessPath" (str "C:/evil.exe")
        (field "ProcessCreatedAt" (str "2026-01-01T00:00:00Z") end)))

abbrev pub killed : PsResult
killed = record {
  success = true;
  output = "Target process is no longer active";
  error = none;
  exit_code = pos 0;
  verification = some "PROCESS_NOT_ACTIVE";
  dry_run = false;
  error_code = none;
}
