-- ===== src/Executor/Run.antt =====
-- `execute_template`: what is done once the parameters have been checked, and what is reported of it.
use zero_trust_continuous_au.Base.{
  ℕ, String, Bool, false, not, ◌&&◌, Option, none, some, List, [], ◌∷◌, ◌++◌, str_eq, if◌then◌else◌,
  ◌==◌,
}
use zero_trust_continuous_au.Base.Int.{ℤ, pos, eqb_ℤ}
use zero_trust_continuous_au.Json.{Value, Fields, end, field, get, truthy}
use zero_trust_continuous_au.Json.Text.{is_empty, occurs_in, concat}
use zero_trust_continuous_au.Executor.{
  Action, logoff_user, kill_process, network_isolation, local_account_control, lock_workstation,
  quarantine_file, action_of, parameters_of, script_of, Ran, finished, timed_out, broken, Attempt,
  managed, raised_here, System, PsResult, Ending, done, unknown_template, invalid_parameter,
  execution_timeout, unresolved, Effect, subprocess, lock_station, log_off, put_away,
}
use zero_trust_continuous_au.Executor.Checks.{
  only_keys, validate_parameters, text_or_none, text_at, lock_target, file_target,
  script_parameters,
}
use zero_trust_continuous_au.Executor.Outcomes.{
  unavailable, validated, with_code, failure, success_of, reported, text_or, code_or, first_marker,
  is_found, marker_or, account_markers, network_marker,
}

module _ (system : System) where
  -- The parameters on the command line.
  unfoldable pub arguments : Fields → List String
  arguments end = []
  arguments (field k v fs) = concat "-" k ∷ system.text_of v ∷ arguments fs

  abbrev pub command_line : String → Fields → List String
  command_line path params =
      ("powershell.exe" ∷ "-NoProfile" ∷ "-NonInteractive" ∷ "-ExecutionPolicy" ∷ "Bypass" ∷ "-File"
        ∷ path ∷ [])
      ++ arguments params

  -- `asked` is the parameter `Action`.
  unfoldable pub judge : Action → String → ℤ → String → String → PsResult
  judge kill_process asked code stdout stderr =
      let verified = eqb_ℤ code (pos 0) && str_eq (system.strip stdout) "PROCESS_NOT_ACTIVE" in
      reported verified "Target process is no longer active"
        (text_or (system.strip stderr) "Process termination was not verified") code
        (if verified then some "PROCESS_NOT_ACTIVE" else none)
  judge local_account_control asked code stdout stderr =
      let marker = first_marker (account_markers asked) stdout in
      let verified = eqb_ℤ code (pos 0) && is_found marker in
      reported verified (system.strip stdout)
        (text_or (system.strip stderr) "Account state was not verified") (code_or code verified)
        (some (marker_or "ACCOUNT_STATE_UNVERIFIED" marker))
  judge network_isolation asked code stdout stderr =
      let verified = eqb_ℤ code (pos 0) && occurs_in (network_marker asked) stdout in
      reported verified (system.strip stdout)
        (text_or (system.strip stderr) "Network state was not verified") (code_or code verified)
        (some (if verified then network_marker asked else "NETWORK_STATE_UNVERIFIED"))
  judge action asked code stdout stderr = record {
    success = eqb_ℤ code (pos 0);
    output = system.strip stdout;
    error = if is_empty stderr then none else some (system.strip stderr);
    exit_code = code;
    verification = none;
    dry_run = false;
    error_code = none;
  }

  unfoldable pub ran : Action → String → Ran → Ending
  unfolding judge
  ran action asked (finished code stdout stderr) = done (judge action asked code stdout stderr)
  ran action asked timed_out = execution_timeout
  ran action asked (broken error) = done (record (unavailable error false) { verification = none })

  unfoldable pub logged_off : Attempt → PsResult
  logged_off (managed id) =
      success_of (concat "WTS session " (concat id " is no longer present")) "SESSION_NOT_ACTIVE"
  logged_off (raised_here name error) = failure error (pos 1) "SESSION_STILL_PRESENT"

  -- `str(params.get(k) or '')`
  abbrev pub text_or_empty : Option Value → String
  text_or_empty none = String.[]
  text_or_empty (some v) = if truthy v then system.text_of v else String.[]

  unfoldable pub start_script : Action → Fields → List Effect × Ending
  unfolding ran logged_off
  start_script logoff_user params =
      let user = text_at system "UserName" "" params in
      let domain = text_or_empty (get "Domain" params) in
      let id = system.decimal (text_or_empty (get "SessionId" params)) in
      (log_off user domain id ∷ [], done (logged_off (system.logoff user domain id)))
  start_script action params =
      let line = command_line (system.script_path (script_of action)) params in
      (subprocess line ∷ [], ran action (text_at system "Action" "" params) (system.run line))

  unfoldable pub run_script : Action → String → Bool → Option Fields → List Effect × Ending
  unfolding start_script
  run_script action original dry_run none = ([], invalid_parameter)
  run_script action original dry_run (some params) =
      if not (system.exists (system.script_path (script_of action)))
      then ([], unknown_template)
      else if dry_run
      then (
        [],
        done (
            validated (
              concat "[DRY_RUN] Validated template: "
                (concat (script_of action) "; no action executed"))),
      )
      else if not system.is_windows
      then (
        [],
        done (unavailable (concat original " is unavailable on this operating system") false),
      )
      else start_script action params

  abbrev pub or_one : ℕ → ℤ
  or_one n = if n == 0 then pos 1 else pos n

  -- The end of the lock, once the session has been looked up.
  unfoldable pub lock_resolved : Option ℕ → Option ℕ → List Effect × Ending
  lock_resolved none own = ([], unresolved)
  lock_resolved (some id) none = (
    [],
    done (
        with_code "SESSION_LOOKUP_FAILED"
          (failure "Unable to resolve agent service session" (pos 1) "UNKNOWN")),
  )
  lock_resolved (some id) (some own) =
      if not (own == id)
      then (
        [],
        done (
            with_code "SESSION_ISOLATION" (
              failure "Agent is not running in the target interactive session" (pos 1)
                "UNAVAILABLE")),
      )
      else (
        lock_station ∷ [],
        done (
            if not system.locks
            then with_code "WINDOWS_API_ERROR"
                (failure "LockWorkStation failed" (or_one system.last_error) "EXECUTION_FAILED")
            else with_code "UNVERIFIED_POSTCONDITION"
                (record (failure
                  "Windows does not expose a reliable independent lock-state verification here"
                  (pos 0) "EXECUTION_COMPLETED_UNVERIFIED") {
                    output = "LockWorkStation returned successfully";
                  })),
      )

  unfoldable pub lock : Bool → Option (String × ℕ) → List Effect × Ending
  unfolding lock_resolved
  lock dry_run none = ([], invalid_parameter)
  lock dry_run (some (user, id)) =
      if dry_run
      then ([], done (validated "[DRY_RUN] Validated native workstation lock; no action executed"))
      else if not system.is_windows
      then (
        [],
        done (
            with_code "UNSUPPORTED_OS"
              (unavailable "Workstation lock is unavailable on this operating system" false)),
      )
      else lock_resolved (system.session_of_user user id) system.own_session

  unfoldable pub quarantined : Attempt → PsResult
  quarantined (managed evidence) = success_of evidence "FILE_QUARANTINED"
  quarantined (raised_here name error) =
      with_code name (failure error (pos 1) "QUARANTINE_NOT_VERIFIED")

  unfoldable pub quarantine : Bool → Option (String × String) → List Effect × Ending
  unfolding quarantined
  quarantine dry_run none = ([], invalid_parameter)
  quarantine dry_run (some (path, expected)) =
      if dry_run
      then ([], done (validated "[DRY_RUN] Validated file quarantine contract; no action executed"))
      else (put_away path expected ∷ [], done (quarantined (system.quarantine path expected)))

  unfoldable pub execute_action : Action → String → Fields → Bool → List Effect × Ending
  unfolding lock quarantine run_script lock_target file_target script_parameters
  execute_action lock_workstation original params dry_run = lock dry_run (
      lock_target system (text_or_none (get "UserName" params))
        (system.decimal (text_at system "SessionId" "" params)))
  execute_action quarantine_file original params dry_run = quarantine dry_run (
      file_target system (text_or_none (get "FilePath" params))
        (text_or_none (get "ExpectedSha256" params)))
  execute_action network_isolation original params dry_run =
      if not (str_eq (system.lower system.isolation_switch) "true")
      then (
        [],
        done (
            unavailable "Network isolation is unavailable (disabled pending VM-console validation)"
              dry_run),
      )
      else run_script network_isolation original dry_run
          (script_parameters system network_isolation original params)
  execute_action action original params dry_run =
      run_script action original dry_run (script_parameters system action original params)

  unfoldable pub execute_template : String → Fields → Bool → List Effect × Ending
  unfolding execute_action validate_parameters only_keys
  execute_template original params dry_run = elim (action_of original) [
    | none ↦ ([], unknown_template)
    | some action ↦
        if only_keys (parameters_of action) params && validate_parameters system params
        then execute_action action original params dry_run
        else ([], invalid_parameter)
  ]
