-- ===== src/Executor/Asked.antt =====
-- What a script is asked to do is what the command asked for.
use mathlib.Core.Path.{subst}
use zero_trust_continuous_au.Base.{
  not, guarded, String, ◌≡◌, refl, ap, ◌∙◌, true, false, ◌&&◌, Option, none, some, str_eq, eq_iff,
  Bool-cases, if_intro, inl, inr, arith,
}
use zero_trust_continuous_au.Json.{Value, str, Fields, end, field, get}
use zero_trust_continuous_au.Policy.{set_field}
use zero_trust_continuous_au.Executor.{
  Action, logoff_user, kill_process, network_isolation, local_account_control, lock_workstation,
  quarantine_file, action_of, parameters_of, System, done, PsResult,
}
use zero_trust_continuous_au.Executor.Checks.{
  only_keys, validate_parameters, text_at, script_parameters, check_isolation, check_account,
}
use zero_trust_continuous_au.Executor.Plain.{get_or_value_hit}
use zero_trust_continuous_au.Executor.Proves.{
  markers_of, is_one_of, is_script, asked_of, ProvedEnd, ProvedEnding, run_script-Proved,
  lock-Proved, quarantine-Proved,
}
use zero_trust_continuous_au.Executor.Run.{run_script, execute_action, execute_template}

get-set_field : (k : String) (v : Value) (fs : Fields) → get k (set_field k v fs) ≡ some v
unfolding get set_field
get-set_field k v end = ground (arith, eq_iff k k)
get-set_field k v (field j w fs) = elim (Bool-cases (str_eq j k)) [
  | inl here ↦ rw (here) (ground (arith, eq_iff k k))
  | inr later ↦ rw (later) (rw (later) (get-set_field k v fs))
]

get-set_field_other :
    (k i : String) (v : Value) (fs : Fields)
    → str_eq i k ≡ false
    → get k (set_field i v fs) ≡ get k fs
unfolding get set_field
get-set_field_other k i v end ne = rw (ne) refl
get-set_field_other k i v (field j w fs) ne = elim (Bool-cases (str_eq j i)) [
  | inl here ↦
      let not_k : str_eq j k ≡ false = ap (λ x. str_eq x k) ((eq_iff j i).0 here) ∙ ne in
      rw (here) (rw (ne) (rw (not_k) refl))
  | inr later ↦ elim (Bool-cases (str_eq j k)) [
    | inl found ↦ rw (later) (rw (found) refl)
    | inr other ↦ rw (later) (rw (other) (get-set_field_other k i v fs ne))
  ]
]

module _ (system : System) where
  text_at-known :
      (k x : String) (params : Fields)
      → get k params ≡ some (str x)
      → text_at system k "" params ≡ x
  text_at-known k x params h =
      ap system.text_of (get_or_value_hit k (str "") (str x) params h) ∙ system.text_of_str x

  -- The parameters ask for this.
  abbrev AsksFor : String → Option Fields → Type 0
  AsksFor x none = Unit
  AsksFor x (some q) = text_at system "Action" "" q ≡ x

  check_isolation-AsksFor :
      (original : String) (params q : Fields)
      → check_isolation system original params ≡ some q
      → AsksFor (asked_of system network_isolation original params) (some q)
  unfolding check_isolation
  check_isolation-AsksFor original params q h =
      let action : String = asked_of system network_isolation original params in
      let port : String = text_at system "ManagerPort" "8080" params in
      subst (AsksFor action) (guarded _ _ q h).1 (
        text_at-known "Action" action _ (
          get-set_field_other "Action" "ManagerPort" (str port)
            (set_field "Action" (str action) params) refl
          ∙ get-set_field "Action" (str action) params))

  check_account-AsksFor :
      (original : String) (params q : Fields)
      → check_account system original params ≡ some q
      → AsksFor (asked_of system local_account_control original params) (some q)
  unfolding check_account
  check_account-AsksFor original params q h =
      let asked : String = asked_of system local_account_control original params in
      let logout : String = system.lower (text_at system "LogoutExistingSessions" "false" params) in
      let with_action : Fields = set_field "Action" (str asked) params in
      subst (AsksFor asked) (guarded _ _ q h).1 (
        text_at-known "Action" asked _ (
          get-set_field_other "Action" "AgentAccount" (str system.user_name)
            (set_field "LogoutExistingSessions" (str logout) with_action) refl
          ∙ get-set_field_other "Action" "LogoutExistingSessions" (str logout) with_action refl
          ∙ get-set_field "Action" (str asked) params))

  script_parameters-asked :
      (a : Action) (original : String) (params q : Fields)
      → script_parameters system a original params ≡ some q
      → markers_of a (text_at system "Action" "" q)
        ≡ markers_of a (asked_of system a original params)
  unfolding script_parameters
  script_parameters-asked network_isolation original params q h =
      ap (markers_of network_isolation) (check_isolation-AsksFor original params q h)
  script_parameters-asked local_account_control original params q h =
      ap (markers_of local_account_control) (check_account-AsksFor original params q h)
  script_parameters-asked logoff_user original params q h = refl
  script_parameters-asked kill_process original params q h = refl
  script_parameters-asked lock_workstation original params q h = refl
  script_parameters-asked quarantine_file original params q h = refl

  script-Proved :
      (a : Action) (original : String) (params : Fields)
      → is_script a ≡ true
      → ProvedEnd system a
          (asked_of system a original params)
          (run_script system a original false (script_parameters system a original params))
  script-Proved a original params s =
      run_script-Proved system a original (asked_of system a original params)
        (script_parameters system a original params) s
        (λ q h. script_parameters-asked a original params q h)

  execute_action-Proved :
      (a : Action) (original : String) (params : Fields)
      → ProvedEnd system a
          (asked_of system a original params)
          (execute_action system a original params false)
  unfolding execute_action
  execute_action-Proved lock_workstation original params = lock-Proved system "" _
  execute_action-Proved quarantine_file original params = quarantine-Proved system "" _
  execute_action-Proved network_isolation original params =
      if_intro
        (ProvedEnd system network_isolation (asked_of system network_isolation original params))
        (not (str_eq (system.lower system.isolation_switch) "true")) (λ _ claim. absurd (cc claim))
        (λ _. script-Proved network_isolation original params refl)
  execute_action-Proved logoff_user original params = script-Proved logoff_user original params refl
  execute_action-Proved kill_process original params =
      script-Proved kill_process original params refl
  execute_action-Proved local_account_control original params =
      script-Proved local_account_control original params refl

  -- A success that is reported outside a dry run is proved by a text that the postcondition of this very action
  -- gives: a log-off, a killed process and a quarantined file each have one, an account and the network have those of
  -- what was asked for, and a locked workstation, for which there is none, never succeeds.
  pub execute_template-Proved :
      (original : String) (a : Action) (params : Fields) (r : PsResult)
      → action_of original ≡ some a
      → (execute_template system original params false).1 ≡ done r
      → r.success ≡ true
      → is_one_of (markers_of a (asked_of system a original params)) r.verification ≡ true
  execute_template-Proved original a params r known ends claim =
      subst (ProvedEnding system a (asked_of system a original params)) ends whole claim
    where
      whole :
          ProvedEnd system a
            (asked_of system a original params)
            (execute_template system original params false)
      whole =
          unfold execute_template in
          rw (known, execute_template)
            (if_intro (ProvedEnd system a (asked_of system a original params))
              (only_keys (parameters_of a) params && validate_parameters system params)
              (λ _. execute_action-Proved a original params) (λ _. tt))
