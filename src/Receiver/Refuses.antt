-- ===== src/Receiver/Refuses.antt =====
-- When a command does nothing on the endpoint.
use zero_trust_continuous_au.Base.{
  String, ◌≡◌, ◌≢◌, refl, ap, true, false, ◌||◌, Option, none, some, List, [], map, str_eq,
  Option-cases, if_intro, inl, inr,
}
use zero_trust_continuous_au.Json.{Value, str, obj, Fields, end}
use zero_trust_continuous_au.Json.Text.{is_empty}
use zero_trust_continuous_au.Policy.{get_or_value}
use zero_trust_continuous_au.Executor.Safe.{dry_run_inert}
use zero_trust_continuous_au.Receiver.{Report, Raised, Deed, told, Endpoint, mapped_action}
use zero_trust_continuous_au.Receiver.Process.{
  final_params, dispatch, check_params, check_action, raw_action, validated_by, process_command,
}

-- The same end, in one condition or the other.
abbrev Idle : List Deed × Report → Type 0
Idle r = r.0 ≡ []

module _ (endpoint : Endpoint) where
  dispatch-Idle :
      (payload : Fields) (id raw : String) (given : Fields)
      → Idle (dispatch endpoint payload id raw given true)
  unfolding dispatch
  dispatch-Idle payload id raw given =
      if_intro Idle (str_eq (mapped_action raw) "DEMO_SCRIPT") (λ _. refl)
        (λ _.
          ap (map told)
            (dry_run_inert endpoint.machine (mapped_action raw) (final_params endpoint raw given)))

  check_params-Idle :
      (payload : Fields) (id raw : String) (v : Value)
      → Idle (check_params endpoint payload id raw v true)
  unfolding check_params
  check_params-Idle payload id raw (obj params) = dispatch-Idle payload id raw params
  check_params-Idle payload id raw v = refl

  check_action-Idle :
      (payload : Fields) (id : String) (v : Value) → Idle (check_action endpoint payload id v true)
  unfolding check_action
  check_action-Idle payload id (str raw) =
      if_intro Idle (is_empty id || is_empty raw) (λ _. refl)
        (λ _. check_params-Idle payload id raw (get_or_value "params" (obj end) payload))
  check_action-Idle payload id v = refl

  -- A dry run of any command leaves the endpoint alone.
  pub process_command_idle : (payload : Fields) → (process_command endpoint payload true).0 ≡ []
  unfolding process_command
  process_command_idle payload =
      check_action-Idle payload
        (endpoint.machine.text_of (get_or_value "command_id" (str "") payload))
        (raw_action endpoint payload)

  validated_by-returned :
      (o : Option (Fields → Option Raised)) (payload : Fields)
      → validated_by endpoint o payload ≡ none
      → (validate : Fields → Option Raised) × (o ≡ some validate) × (validate payload ≡ none)
  unfolding validated_by
  validated_by-returned none payload h = absurd (cc h)
  validated_by-returned (some validate) payload h = (validate, refl, h)

  -- A command that does anything on the endpoint was let through by a validator: where none is configured, or
  -- where it raises, nothing is done.
  pub process_command_authorized :
      (payload : Fields)
      → (process_command endpoint payload false).0 ≢ []
      → (validate : Fields → Option Raised) × (endpoint.validator ≡ some validate)
        × (validate payload ≡ none)
  process_command_authorized payload acts =
      elim (Option-cases (validated_by endpoint endpoint.validator payload)) [
        | inl passed ↦ validated_by-returned endpoint.validator payload passed
        | inr (err, stopped) ↦
            absurd (acts (unfold process_command in rw (stopped, process_command) refl))
      ]
