-- ===== src/Executor/Plain.antt =====
-- Checked parameters hold no dangerous character, as they are given and as a script gets them.
use mathlib.Core.Path.{subst}
use zero_trust_continuous_au.Base.{
  guarded, String, ◌≡◌, refl, sym, ap, ◌∙◌, true, false, ◌||◌, Option, none, some, str_eq, eq_iff,
  if◌then◌else◌, Bool-cases, Option-cases, if_intro, inl, inr, All, arith,
}
use zero_trust_continuous_au.Json.{Value, str, Fields, end, field, get, truthy}
use zero_trust_continuous_au.Json.Text.{any_char, concat}
use zero_trust_continuous_au.Policy.{get_or_value, set_field}
use zero_trust_continuous_au.Executor.{
  Action, logoff_user, kill_process, network_isolation, local_account_control, lock_workstation,
  quarantine_file, is_dangerous, System,
}
use zero_trust_continuous_au.Executor.Checks.{
  validate_parameters, text_at, script_parameters, check_isolation, check_account, check_logoff,
  check_kill,
}
use zero_trust_continuous_au.Executor.Run.{arguments, text_or_empty}

abbrev pub Plain : String → Type 0
Plain s = is_dangerous s ≡ false

-- The default is taken exactly where the key is missing.
pub get_or_value_missing :
    (k : String) (d : Value) (fs : Fields) → get k fs ≡ none → get_or_value k d fs ≡ d
unfolding get_or_value
get_or_value_missing k d fs h = ap (λ (o : Option Value). elim o [ none ↦ d | some w ↦ w ]) h

pub get_or_value_hit :
    (k : String) (d v : Value) (fs : Fields) → get k fs ≡ some v → get_or_value k d fs ≡ v
unfolding get_or_value
get_or_value_hit k d v fs h = ap (λ (o : Option Value). elim o [ none ↦ d | some w ↦ w ]) h

-- The texts of checked parameters.
module _ (system : System) where
  pub validate_parameters-get :
      (k : String) (params : Fields) (v : Value)
      → validate_parameters system params ≡ true
      → get k params ≡ some v
      → Plain (system.text_of v)
  unfolding validate_parameters get
  validate_parameters-get k end v ok h = absurd (cc h)
  validate_parameters-get k (field j w fs) v ok h = elim (Bool-cases (str_eq j k)) [
    | inl here ↦
        let same : some w ≡ some v = rw (here) at h in
        let is_v : w ≡ v = ground arith in
        ap (λ x. is_dangerous (system.text_of x)) (sym is_v) ∙ ground arith
    | inr later ↦ validate_parameters-get k fs v (ground arith) (rw (later) at h)
  ]

  pub text_at-Plain :
      (k s : String) (params : Fields)
      → validate_parameters system params ≡ true
      → Plain s
      → Plain (text_at system k s params)
  text_at-Plain k s params ok plain = elim (Option-cases (get k params)) [
    | inl missing ↦
        ap (λ v. is_dangerous (system.text_of v)) (get_or_value_missing k (str s) params missing)
        ∙ ap is_dangerous (system.text_of_str s)
        ∙ plain
    | inr (v, hit) ↦
        ap (λ w. is_dangerous (system.text_of w)) (get_or_value_hit k (str s) v params hit)
        ∙ validate_parameters-get k params v ok hit
  ]

  pub text_or_empty-Plain :
      (k : String) (params : Fields)
      → validate_parameters system params ≡ true
      → Plain (text_or_empty system (get k params))
  unfolding any_char
  text_or_empty-Plain k params ok = elim (Option-cases (get k params)) [
    | inl missing ↦ rw (missing) refl
    | inr (v, hit) ↦
        rw (hit)
          (if_intro Plain (truthy v) (λ _. validate_parameters-get k params v ok hit) (λ _. refl))
  ]

  validate_parameters-set_field :
      (k s : String) (params : Fields)
      → Plain k
      → Plain s
      → validate_parameters system params ≡ true
      → validate_parameters system (set_field k (str s) params) ≡ true
  unfolding validate_parameters set_field
  validate_parameters-set_field k s end pk ps ok = rw (pk, system.text_of_str s, ps) refl
  validate_parameters-set_field k s (field j w fs) pk ps ok = elim (Bool-cases (str_eq j k)) [
    | inl here ↦ rw (here, system.text_of_str s, ps) (ground arith)
    | inr later ↦
        let rest = validate_parameters-set_field k s fs pk ps (ground arith) in
        rw (later) (ground arith)
  ]

  pub arguments-All :
      (params : Fields)
      → validate_parameters system params ≡ true
      → All Plain (arguments system params)
  unfolding arguments validate_parameters concat any_char
  arguments-All end ok = tt
  arguments-All (field k v fs) ok = (ground arith, (ground arith, arguments-All fs (ground arith)))

  -- What the system itself adds to the parameters: the account and the process of the agent.
  abbrev pub IsPlainHost : Type 0
  IsPlainHost = Plain system.user_name × Plain system.process_id

  choice-Plain : (s t u : String) → Plain t → Plain u → (str_eq s t || str_eq s u) ≡ true → Plain s
  choice-Plain s t u pt pu h = elim (Bool-cases (str_eq s t)) [
    | inl same ↦ ap is_dangerous ((eq_iff s t).0 same) ∙ pt
    | inr other ↦ ap is_dangerous ((eq_iff s u).0 (ground arith)) ∙ pu
  ]

  abbrev IsValidOption : Option Fields → Type 0
  IsValidOption none = Unit
  IsValidOption (some q) = validate_parameters system q ≡ true

  check_isolation-Plain :
      (original : String) (params q : Fields)
      → validate_parameters system params ≡ true
      → check_isolation system original params ≡ some q
      → validate_parameters system q ≡ true
  unfolding check_isolation any_char
  check_isolation-Plain original params q ok h =
      let action : String =
        if str_eq original "UNISOLATE_ENDPOINT"
        then "UNISOLATE"
        else system.upper (text_at system "Action" "ISOLATE" params) in
      let port : String = text_at system "ManagerPort" "8080" params in
      let (good, is_q) = guarded _ _ q h in
      let plain_action = choice-Plain action "ISOLATE" "UNISOLATE" refl refl (ground arith) in
      let plain_port = text_at-Plain "ManagerPort" "8080" params ok refl in
      subst IsValidOption is_q (
        validate_parameters-set_field "ManagerPort" port (set_field "Action" (str action) params)
          refl plain_port
          (validate_parameters-set_field "Action" action params refl plain_action ok))

  check_account-Plain :
      (original : String) (params q : Fields)
      → IsPlainHost
      → validate_parameters system params ≡ true
      → check_account system original params ≡ some q
      → validate_parameters system q ≡ true
  unfolding check_account any_char
  check_account-Plain original params q host ok h =
      let requested : String =
        if str_eq original "UNLOCK_LOCAL_ACCOUNT" then "UNLOCK" else "LOCK" in
      let logout : String = system.lower (text_at system "LogoutExistingSessions" "false" params) in
      let (good, is_q) = guarded _ _ q h in
      let plain_logout = choice-Plain logout "true" "false" refl refl (ground arith) in
      let plain_requested =
        if_intro Plain (str_eq original "UNLOCK_LOCAL_ACCOUNT") (λ _. refl) (λ _. refl) in
      subst IsValidOption is_q (
        validate_parameters-set_field "AgentAccount" system.user_name _ refl host.0 (
          validate_parameters-set_field "LogoutExistingSessions" logout _ refl plain_logout
            (validate_parameters-set_field "Action" requested params refl plain_requested ok)))

  pub script_parameters-Plain :
      (a : Action) (original : String) (params q : Fields)
      → IsPlainHost
      → validate_parameters system params ≡ true
      → script_parameters system a original params ≡ some q
      → validate_parameters system q ≡ true
  unfolding script_parameters check_logoff check_kill any_char
  script_parameters-Plain network_isolation original params q host ok h =
      check_isolation-Plain original params q ok h
  script_parameters-Plain local_account_control original params q host ok h =
      check_account-Plain original params q host ok h
  script_parameters-Plain logoff_user original params q host ok h =
      subst IsValidOption (guarded _ _ q h).1 ok
  script_parameters-Plain kill_process original params q host ok h =
      subst IsValidOption (guarded _ _ q h).1
        (validate_parameters-set_field "AgentProcessId" system.process_id params refl host.1 ok)
  script_parameters-Plain lock_workstation original params q host ok h = absurd (cc h)
  script_parameters-Plain quarantine_file original params q host ok h = absurd (cc h)
