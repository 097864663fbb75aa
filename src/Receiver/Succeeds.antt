-- ===== src/Receiver/Succeeds.antt =====
-- What a report of success stands for.
use mathlib.Core.Path.{subst}
use zero_trust_continuous_au.Base.{
  String, ◌≡◌, refl, sym, Bool, true, false, ◌||◌, Option, some, List, str_eq, if◌then◌else◌,
  Option-cases, if_intro, inl, inr,
}
use zero_trust_continuous_au.Json.{Value, str, obj, Fields, end}
use zero_trust_continuous_au.Json.Text.{is_empty}
use zero_trust_continuous_au.Policy.{get_or_value}
use zero_trust_continuous_au.Executor.{
  Action, action_of, PsResult, Ending, done, unknown_template, invalid_parameter, execution_timeout,
  unresolved,
}
use zero_trust_continuous_au.Executor.Run.{execute_template}
use zero_trust_continuous_au.Executor.Proves.{markers_of, is_one_of, asked_of}
use zero_trust_continuous_au.Executor.Asked.{execute_template-Proved}
use zero_trust_continuous_au.Receiver.{
  success, failed, unknown, preview, Report, Deed, Endpoint, is_unverified, mapped_action,
  template_report,
}
use zero_trust_continuous_au.Receiver.Process.{
  final_params, dispatch, check_params, check_action, correlation_of, raw_action, validated_by,
  process_command,
}

-- The parameters that a command carries.
abbrev pub params_of : Value → Fields
params_of (obj params) = params
params_of v = end

module _ (endpoint : Endpoint) where
  abbrev pub params_in : Fields → Fields
  params_in payload = params_of (get_or_value "params" (obj end) payload)

  -- The verification is one of the texts that prove the action.
  abbrev pub Shown : String → Fields → Option String → Type 0
  Shown raw given verification =
      (a : Action) × (action_of (mapped_action raw) ≡ some a)
      × (is_one_of
            (markers_of a
              (asked_of endpoint.machine a (mapped_action raw) (final_params endpoint raw given)))
            verification
          ≡ true)

  abbrev Claims : String → Fields → Report → Type 0
  Claims raw given r = r.status ≡ success → Shown raw given r.verification

  succeeded :
      (b c d : Bool)
      → (if b then (if c then preview else success) else if d then unknown else failed) ≡ success
      → b ≡ true
  succeeded true c d h = refl
  succeeded false true true h = absurd (cc h)
  succeeded false true false h = absurd (cc h)
  succeeded false false true h = absurd (cc h)
  succeeded false false false h = absurd (cc h)

  known_action :
      (raw : String) (given : Fields) (r : PsResult)
      → (execute_template endpoint.machine (mapped_action raw) given false).1 ≡ done r
      → (a : Action) × (action_of (mapped_action raw) ≡ some a)
  known_action raw given r h = elim (Option-cases (action_of (mapped_action raw))) [
    | inl missing ↦ absurd (unfold execute_template in cc (rw (missing, execute_template) at h))
    | inr (a, hit) ↦ (a, hit)
  ]

  template_report-Claims :
      (payload : Fields) (id raw correlation : String) (given : Fields) (o : Ending)
      → (execute_template endpoint.machine
          (mapped_action raw)
          (final_params endpoint raw given)
          false).1
        ≡ o
      → Claims raw given
          (template_report endpoint payload id (mapped_action raw) correlation false o)
  unfolding template_report
  template_report-Claims payload id raw correlation given (done r) ends = λ claim.
      let good = succeeded r.success false (is_unverified r.verification) claim in
      let (a, known) = known_action raw (final_params endpoint raw given) r ends in
      (
        a,
        known,
        execute_template-Proved endpoint.machine (mapped_action raw) a
            (final_params endpoint raw given) r known ends good,
      )
  template_report-Claims payload id raw correlation given unknown_template ends =
      λ claim. absurd (cc claim)
  template_report-Claims payload id raw correlation given invalid_parameter ends =
      λ claim. absurd (cc claim)
  template_report-Claims payload id raw correlation given execution_timeout ends =
      λ claim. absurd (cc claim)
  template_report-Claims payload id raw correlation given unresolved ends =
      λ claim. absurd (cc claim)

  dispatch-Claims :
      (payload : Fields) (id raw : String) (given : Fields)
      → str_eq (mapped_action raw) "DEMO_SCRIPT" ≡ false
      → Claims raw given (dispatch endpoint payload id raw given false).1
  unfolding dispatch
  dispatch-Claims payload id raw given no_demo = rw (no_demo) (
      template_report-Claims payload id raw
        (correlation_of endpoint payload (final_params endpoint raw given)) given
        (execute_template endpoint.machine (mapped_action raw) (final_params endpoint raw given)
          false).1
        refl)

  check_params-Claims :
      (payload : Fields) (id raw : String) (v : Value)
      → str_eq (mapped_action raw) "DEMO_SCRIPT" ≡ false
      → Claims raw (params_of v) (check_params endpoint payload id raw v false).1
  unfolding check_params
  check_params-Claims payload id raw (obj params) no_demo =
      dispatch-Claims payload id raw params no_demo
  check_params-Claims payload id raw v no_demo = λ claim. absurd (cc claim)

  check_action-Claims :
      (payload : Fields) (id raw : String)
      → str_eq (mapped_action raw) "DEMO_SCRIPT" ≡ false
      → Claims raw (params_in payload) (check_action endpoint payload id (str raw) false).1
  unfolding check_action
  check_action-Claims payload id raw no_demo =
      if_intro (λ (r : List Deed × Report). Claims raw (params_in payload) r.1)
        (is_empty id || is_empty raw) (λ _ claim. absurd (cc claim))
        (λ _. check_params-Claims payload id raw (get_or_value "params" (obj end) payload) no_demo)

  -- A report of success, for a command that is no demonstration script, carries a verification which proves the
  -- very action that the command names, with the parameters as the receiver completes them.
  pub process_command-Shown :
      (payload : Fields) (raw : String)
      → raw_action endpoint payload ≡ str raw
      → str_eq (mapped_action raw) "DEMO_SCRIPT" ≡ false
      → (process_command endpoint payload false).1.status ≡ success
      → Shown raw (params_in payload) (process_command endpoint payload false).1.verification
  process_command-Shown payload raw named no_demo =
      elim (Option-cases (validated_by endpoint endpoint.validator payload)) [
        | inr (err, stopped) ↦
            unfold process_command in rw (stopped, process_command) (λ claim. absurd (cc claim))
        | inl passed ↦
            unfold process_command in
            rw (passed, process_command)
              (subst
                (λ v.
                  Claims raw (params_in payload)
                    (check_action endpoint payload
                      (endpoint.machine.text_of (get_or_value "command_id" (str "") payload)) v
                      false).1)
                (sym named) (check_action-Claims payload _ raw no_demo))
      ]
