-- ===== src/Executor/Safe.antt =====
-- What can reach the system: nothing in a dry run, and no dangerous character otherwise.
use Prim.Native.Char.{code}
use zero_trust_continuous_au.Base.{
  ℕ, String, ◌≡◌, refl, sym, ap, ◌∙◌, Bool, true, not, ◌&&◌, ◌||◌, Option, none, some, List, [],
  ◌∷◌, ◌++◌, str_eq, ◌==◌, Option-cases, if_intro, inl, inr, All, arith,
}
use zero_trust_continuous_au.Json.{Value, str, Fields, get}
use zero_trust_continuous_au.Json.Text.{is_empty, text_length, any_char}
use zero_trust_continuous_au.Executor.{
  Action, logoff_user, kill_process, network_isolation, local_account_control, lock_workstation,
  quarantine_file, action_of, parameters_of, script_of, is_dangerous, System, Ending, Effect,
  subprocess, lock_station, log_off, put_away,
}
use zero_trust_continuous_au.Executor.Checks.{
  is_hex_char, only_keys, validate_parameters, text_or_none, text_at, lock_target, file_target,
  script_parameters,
}
use zero_trust_continuous_au.Executor.Plain.{
  Plain, IsPlainHost, validate_parameters-get, text_at-Plain, text_or_empty-Plain, arguments-All,
  script_parameters-Plain,
}
use zero_trust_continuous_au.Executor.Run.{
  arguments, start_script, run_script, lock_resolved, lock, quarantine, execute_action,
  execute_template,
}

module _ (system : System) where
  run_script_inert :
      (a : Action) (original : String) (o : Option Fields)
      → (run_script system a original true o).0 ≡ []
  unfolding run_script
  run_script_inert a original none = refl
  run_script_inert a original (some params) =
      if_intro (λ (r : List Effect × Ending). r.0 ≡ [])
        (not (system.exists (system.script_path (script_of a)))) (λ _. refl) (λ _. refl)

  lock_inert : (o : Option (String × ℕ)) → (lock system true o).0 ≡ []
  unfolding lock
  lock_inert none = refl
  lock_inert (some (user, id)) = refl

  quarantine_inert : (o : Option (String × String)) → (quarantine system true o).0 ≡ []
  unfolding quarantine
  quarantine_inert none = refl
  quarantine_inert (some (path, expected)) = refl

  execute_action_inert :
      (a : Action) (original : String) (params : Fields)
      → (execute_action system a original params true).0 ≡ []
  unfolding execute_action
  execute_action_inert lock_workstation original params = lock_inert (
      lock_target system (text_or_none (get "UserName" params))
        (system.decimal (text_at system "SessionId" "" params)))
  execute_action_inert quarantine_file original params = quarantine_inert (
      file_target system (text_or_none (get "FilePath" params))
        (text_or_none (get "ExpectedSha256" params)))
  execute_action_inert network_isolation original params =
      if_intro (λ (r : List Effect × Ending). r.0 ≡ [])
        (not (str_eq (system.lower system.isolation_switch) "true")) (λ _. refl)
        (λ _.
          run_script_inert network_isolation original
            (script_parameters system network_isolation original params))
  execute_action_inert logoff_user original params =
      run_script_inert logoff_user original (script_parameters system logoff_user original params)
  execute_action_inert kill_process original params =
      run_script_inert kill_process original (script_parameters system kill_process original params)
  execute_action_inert local_account_control original params =
      run_script_inert local_account_control original
        (script_parameters system local_account_control original params)

  -- A dry run has no effect, whatever the action and the parameters are.
  pub dry_run_inert :
      (original : String) (params : Fields) → (execute_template system original params true).0 ≡ []
  unfolding execute_template
  dry_run_inert original params = elim (Option-cases (action_of original)) [
    | inl unknown ↦ rw (unknown, execute_template) refl
    | inr (a, known) ↦
        rw (known, execute_template)
          (if_intro (λ (r : List Effect × Ending). r.0 ≡ [])
            (only_keys (parameters_of a) params && validate_parameters system params)
            (λ _. execute_action_inert a original params) (λ _. refl))
  ]

  -- An effect that is told no dangerous character: a process is one of the scripts, with plain arguments.
  abbrev pub Harmless : Effect → Type 0
  Harmless (subprocess line) =
      (a : Action) × (args : List String) × (line
        ≡ ("powershell.exe"
            ∷ "-NoProfile"
            ∷ "-NonInteractive"
            ∷ "-ExecutionPolicy"
            ∷ "Bypass"
            ∷ "-File"
            ∷ system.script_path (script_of a)
            ∷ [])
          ++ args)
      × All Plain args
  Harmless lock_station = Unit
  Harmless (log_off user domain id) = Plain user × Plain domain
  Harmless (put_away path expected) = Plain path × Plain expected

  abbrev AllHarmless : List Effect × Ending → Type 0
  AllHarmless r = All Harmless r.0

  start_script-All :
      (a : Action) (params : Fields)
      → validate_parameters system params ≡ true
      → AllHarmless (start_script system a params)
  unfolding start_script any_char
  start_script-All logoff_user params ok = (
    (
      text_at-Plain system "UserName" "" params ok refl,
      text_or_empty-Plain system "Domain" params ok,
    ),
    tt,
  )
  start_script-All kill_process params ok =
      ((kill_process, arguments system params, refl, arguments-All system params ok), tt)
  start_script-All network_isolation params ok =
      ((network_isolation, arguments system params, refl, arguments-All system params ok), tt)
  start_script-All local_account_control params ok =
      ((local_account_control, arguments system params, refl, arguments-All system params ok), tt)
  start_script-All lock_workstation params ok =
      ((lock_workstation, arguments system params, refl, arguments-All system params ok), tt)
  start_script-All quarantine_file params ok =
      ((quarantine_file, arguments system params, refl, arguments-All system params ok), tt)

  run_script-All :
      (a : Action) (original : String) (dry_run : Bool) (o : Option Fields)
      → ((q : Fields) → o ≡ some q → validate_parameters system q ≡ true)
      → AllHarmless (run_script system a original dry_run o)
  unfolding run_script
  run_script-All a original dry_run none ok = tt
  run_script-All a original dry_run (some q) ok =
      if_intro AllHarmless (not (system.exists (system.script_path (script_of a)))) (λ _. tt)
        λ _.
          if_intro AllHarmless dry_run (λ _. tt)
            λ _.
              if_intro AllHarmless (not system.is_windows) (λ _. tt)
                λ _. start_script-All a q (ok q refl)

  lock_resolved-All : (o own : Option ℕ) → AllHarmless (lock_resolved system o own)
  unfolding lock_resolved
  lock_resolved-All none own = tt
  lock_resolved-All (some id) none = tt
  lock_resolved-All (some id) (some own) =
      if_intro AllHarmless (not (own == id)) (λ _. tt) (λ _. (tt, tt))

  lock-All : (dry_run : Bool) (o : Option (String × ℕ)) → AllHarmless (lock system dry_run o)
  unfolding lock
  lock-All dry_run none = tt
  lock-All dry_run (some (user, id)) =
      if_intro AllHarmless dry_run (λ _. tt)
        λ _.
          if_intro AllHarmless (not system.is_windows) (λ _. tt)
            λ _. lock_resolved-All (system.session_of_user user id) system.own_session

  text_or_none-Plain :
      (o : Option Value) (s : String)
      → ((v : Value) → o ≡ some v → Plain (system.text_of v))
      → text_or_none o ≡ some s
      → Plain s
  text_or_none-Plain (some (str t)) s plain h =
      let same : t ≡ s = ground arith in
      ap is_dangerous (sym same ∙ sym (system.text_of_str t)) ∙ plain (str t) refl
  text_or_none-Plain o s plain h = absurd (cc h)

  abbrev PlainPair : Option (String × String) → Type 0
  PlainPair none = Unit
  PlainPair (some (path, expected)) = Plain path × Plain expected

  file_target-PlainPair :
      (o p : Option String)
      → ((s : String) → o ≡ some s → Plain s)
      → ((s : String) → p ≡ some s → Plain s)
      → PlainPair (file_target system o p)
  unfolding file_target
  file_target-PlainPair (some path) (some expected) hp he =
      let both : PlainPair (some (path, expected)) = (hp path refl, he expected refl) in
      if_intro PlainPair
        (is_empty path
          || any_char (λ c. code c == 0) path
          || not (text_length expected == 64)
          || any_char (λ c. not (is_hex_char c)) expected)
        (λ _. tt) (λ _. both)
  file_target-PlainPair (some path) none hp he = tt
  file_target-PlainPair none (some expected) hp he = tt
  file_target-PlainPair none none hp he = tt

  quarantine-All :
      (dry_run : Bool) (o : Option (String × String))
      → PlainPair o
      → AllHarmless (quarantine system dry_run o)
  unfolding quarantine
  quarantine-All dry_run none h = tt
  quarantine-All dry_run (some (path, expected)) h =
      if_intro AllHarmless dry_run (λ _. tt) (λ _. (h, tt))

  module _ (host : IsPlainHost system) (original : String) (params : Fields) (dry_run : Bool)
      (ok : validate_parameters system params ≡ true) where
    given-Plain : (k s : String) → text_or_none (get k params) ≡ some s → Plain s
    given-Plain k s h =
        text_or_none-Plain (get k params) s
          (λ v hit. validate_parameters-get system k params v ok hit) h

    script-All :
        (a : Action)
        → AllHarmless
            (run_script system a original dry_run (script_parameters system a original params))
    script-All a =
        run_script-All a original dry_run (script_parameters system a original params)
          (λ q h. script_parameters-Plain system a original params q host ok h)

    execute_action-All :
        (a : Action) → AllHarmless (execute_action system a original params dry_run)
    unfolding execute_action
    execute_action-All lock_workstation = lock-All dry_run _
    execute_action-All quarantine_file =
        quarantine-All dry_run _
          (file_target-PlainPair _ _ (given-Plain "FilePath") (given-Plain "ExpectedSha256"))
    execute_action-All network_isolation =
        if_intro AllHarmless (not (str_eq (system.lower system.isolation_switch) "true")) (λ _. tt)
          (λ _. script-All network_isolation)
    execute_action-All logoff_user = script-All logoff_user
    execute_action-All kill_process = script-All kill_process
    execute_action-All local_account_control = script-All local_account_control

  -- Whatever the action, the parameters and the answers of the system are, no dangerous character is handed to
  -- it: a process is PowerShell with one of the scripts and arguments without such characters, a log-off and a quarantine
  -- have such texts as well. The name of the agent's account and its process id are without dangerous characters.
  pub execute_template-AllHarmless :
      IsPlainHost system
      → (original : String) (params : Fields) (dry_run : Bool)
      → All Harmless (execute_template system original params dry_run).0
  unfolding execute_template
  execute_template-AllHarmless host original params dry_run =
      elim (Option-cases (action_of original)) [
        | inl unknown ↦ rw (unknown, execute_template) tt
        | inr (a, known) ↦
            rw (known, execute_template)
              (if_intro AllHarmless
                (only_keys (parameters_of a) params && validate_parameters system params)
                (λ good. execute_action-All host original params dry_run (ground arith) a)
                (λ _. tt))
      ]
