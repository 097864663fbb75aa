-- ===== src/Receiver/Process.antt =====
-- `process_command` of agent/commands/command_receiver.py: the validator, the parameters, the executors.
use zero_trust_continuous_au.Base.{
  String, Bool, ◌||◌, Option, none, some, List, [], map, str_eq, if◌then◌else◌,
}
use zero_trust_continuous_au.Json.{Value, null, str, obj, Fields, end, get}
use zero_trust_continuous_au.Json.Text.{is_empty}
use zero_trust_continuous_au.Policy.{get_or_value, set_field}
use zero_trust_continuous_au.Executor.Run.{execute_template}
use zero_trust_continuous_au.Script.{
  or_value, requested_id, validate_script_request, execute_script,
}
use zero_trust_continuous_au.Receiver.{
  Report, Raised, Deed, told, script, Endpoint, mapped_action, unexpected, command_error,
  template_report, script_report, script_preview,
}

module _ (endpoint : Endpoint) where
  -- The parameters as the executor gets them.
  abbrev pub address_field : Option String → Fields → Fields
  address_field none params = params
  address_field (some s) params =
      if is_empty s then params else set_field "ManagerIP" (str s) params

  unfoldable pub final_params : String → Fields → Fields
  final_params raw params =
      let asked =
        if str_eq raw "UNISOLATE_ENDPOINT"
        then set_field "Action" (str "UNISOLATE") params
        else params in
      if str_eq (mapped_action raw) "NETWORK_ISOLATION"
      then address_field endpoint.manager_address asked
      else asked

  abbrev pub correlation_of : Fields → Fields → String
  correlation_of payload params =
      endpoint.machine.text_of
        (or_value (get "correlation_id" payload) (or_value (get "correlation_id" params) (str "")))

  -- The command once its identity, action and parameters are known.
  unfoldable pub dispatch : Fields → String → String → Fields → Bool → List Deed × Report
  unfolding final_params template_report script_report script_preview execute_template
  dispatch payload command_id raw given dry_run =
      let params = final_params raw given in
      let (effects, outcome) =
        execute_template endpoint.machine (mapped_action raw) params dry_run in
      let (handler_calls, result) =
        execute_script endpoint.scripts endpoint.agent_id endpoint.fresh endpoint.drawn endpoint.now
          endpoint.then_now endpoint.script_error.text payload in
      if str_eq (mapped_action raw) "DEMO_SCRIPT"
      then (if dry_run
          then (
            [],
            script_preview endpoint payload command_id (
                validate_script_request endpoint.scripts
                  (requested_id endpoint.scripts payload params) params),
          )
          else (map script handler_calls, script_report endpoint payload command_id result))
      else (
        map told effects,
        template_report endpoint payload command_id (mapped_action raw)
            (correlation_of payload params) dry_run outcome,
      )

  unfoldable pub check_params : Fields → String → String → Value → Bool → List Deed × Report
  unfolding dispatch
  check_params payload command_id raw (obj params) dry_run =
      dispatch payload command_id raw params dry_run
  check_params payload command_id raw v dry_run = (
    [],
    unexpected endpoint payload ""
        (command_error endpoint "Command params must be a JSON dictionary"),
  )

  unfoldable pub check_action : Fields → String → Value → Bool → List Deed × Report
  unfolding check_params
  check_action payload command_id (str raw) dry_run =
      if is_empty command_id || is_empty raw
      then (
        [],
        unexpected endpoint payload ""
            (command_error endpoint "Command identity and action are required"),
      )
      else check_params payload command_id raw (get_or_value "params" (obj end) payload) dry_run
  check_action payload command_id v dry_run = (
    [],
    unexpected endpoint payload ""
        (command_error endpoint "Command identity and action are required"),
  )

  unfoldable pub raw_action : Fields → Value
  raw_action payload =
      or_value (get "action" payload)
        (or_value (get "command_type" payload) (get_or_value "action_type" null payload))

  unfoldable pub validated_by : Option (Fields → Option Raised) → Fields → Option Raised
  validated_by none payload =
      some (command_error endpoint "Command authorization is not configured; execution refused")
  validated_by (some validate) payload = validate payload

  unfoldable pub process_command : Fields → Bool → List Deed × Report
  unfolding validated_by check_action raw_action
  process_command payload dry_run =
      elim (if dry_run then none else validated_by endpoint.validator payload) [
        | some err ↦ ([], unexpected endpoint payload "" err)
        | none ↦
            check_action payload
              (endpoint.machine.text_of (get_or_value "command_id" (str "") payload))
              (raw_action payload) dry_run
      ]
