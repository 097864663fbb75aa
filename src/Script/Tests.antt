-- ===== src/Script/Tests.antt =====
-- A script at a handler that always succeeds.
use zero_trust_continuous_au.Base.{true, some}
use zero_trust_continuous_au.Base.Int.{pos}
use zero_trust_continuous_au.Json.{str, obj, Fields, field, end}
use zero_trust_continuous_au.Script.{Scripts, returned}

abbrev scripts : Scripts
scripts = record {
  text_of = λ v. "x";
  lower = λ s. s;
  int_of = λ v. some (pos 8080);
  handle = λ id correlation params. returned true (pos 0) "ok" "" "LOGGED";
}

abbrev command : Fields
command = field "command_id" (str "c1") (
    field "params"
      (obj (field "script_id" (str "DEMO_LOG_PUSH") (field "message" (str "hello") end))) end)
