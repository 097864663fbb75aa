-- ===== src/Executor/Outcomes.antt =====
-- The results that `execute_template` builds, and the markers that scripts print.
use zero_trust_continuous_au.Base.{
  String, Bool, true, false, not, Option, none, some, List, [], ◌∷◌, str_eq, if◌then◌else◌,
}
use zero_trust_continuous_au.Base.Int.{ℤ, pos, eqb_ℤ}
use zero_trust_continuous_au.Json.Text.{is_empty, occurs_in}
use zero_trust_continuous_au.Executor.{PsResult}

abbrev pub unavailable : String → Bool → PsResult
unavailable error dry_run = record {
  success = false;
  output = String.[];
  error = some error;
  exit_code = pos 1;
  verification = some "UNAVAILABLE";
  dry_run = dry_run;
  error_code = none;
}

abbrev pub validated : String → PsResult
validated output = record {
  success = true;
  output = output;
  error = none;
  exit_code = pos 0;
  verification = none;
  dry_run = true;
  error_code = none;
}

abbrev pub with_code : String → PsResult → PsResult
with_code code r = record r { error_code = some code }

abbrev pub failure : String → ℤ → String → PsResult
failure error exit_code verification = record (unavailable error false) {
  exit_code = exit_code;
  verification = some verification;
}

abbrev pub success_of : String → String → PsResult
success_of output verification = record {
  success = true;
  output = output;
  error = none;
  exit_code = pos 0;
  verification = some verification;
  dry_run = false;
  error_code = none;
}

-- The script's own result, by the marker that verifies it. `code` is the exit code that is reported.
abbrev pub reported : Bool → String → String → ℤ → Option String → PsResult
reported verified output error code verification = record {
  success = verified;
  output = if verified then output else String.[];
  error = if verified then none else some error;
  exit_code = code;
  verification = verification;
  dry_run = false;
  error_code = none;
}

abbrev pub text_or : String → String → String
text_or s t = if is_empty s then t else s

-- `code if code else (0 if verified else 1)`
abbrev pub code_or : ℤ → Bool → ℤ
code_or code verified = if not (eqb_ℤ code (pos 0)) then code else if verified then pos 0 else pos 1

-- `next((m for m in expected if m in stdout), default)`
unfoldable pub first_marker : List String → String → Option String
first_marker [] stdout = none
first_marker (m ∷ ms) stdout = if occurs_in m stdout then some m else first_marker ms stdout

abbrev pub is_found : Option String → Bool
is_found none = false
is_found (some m) = true

abbrev pub marker_or : String → Option String → String
marker_or default none = default
marker_or default (some m) = m

-- The markers that the script of an account prints, by what was asked for.
abbrev pub account_markers : String → List String
account_markers asked =
    if str_eq asked "UNLOCK"
    then "LOCAL_ACCOUNT_ENABLED" ∷ "LOCAL_ACCOUNT_RESTORED_DISABLED" ∷ []
    else "LOCAL_ACCOUNT_DISABLED" ∷ []

abbrev pub network_marker : String → String
network_marker asked =
    if str_eq asked "UNISOLATE" then "UNISOLATION_VERIFIED" else "ISOLATION_VERIFIED"
