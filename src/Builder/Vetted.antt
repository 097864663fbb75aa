-- ===== src/Builder/Vetted.antt =====
-- What a built command is.
use mathlib.Core.Path.{subst}
use zero_trust_continuous_au.Base.{
  ℕ, ◌+◌, ◌*◌, ◌≤◌, String, ◌≡◌, ◌≢◌, str_eq, eq_iff, refl, ◌∙◌, true, false, ◌&&◌, Option, none,
  some, guarded, Bool-cases, inl, inr, arith,
}
use zero_trust_continuous_au.Json.{Value, str, Fields, truthy}
use zero_trust_continuous_au.Rule.{at}
use zero_trust_continuous_au.Executor.{
  System, PsResult, Ending, done, unknown_template, invalid_parameter, execution_timeout,
  unresolved,
}
use zero_trust_continuous_au.Executor.Run.{execute_template}
use zero_trust_continuous_au.Script.{
  Scripts, Validity, sound, refused, type_error, validate_script_request,
}
use zero_trust_continuous_au.Script.Accepted.{Fit, sound-Fit}
use zero_trust_continuous_au.Builder.{
  EventFacts, Decision, BuiltCommand, is_sound, params_for, returns, is_vetted, command_of, vetted,
  is_live_time, build_command,
}

module _ (system : System) (scripts : Scripts) (manager_ip : String) where
  -- A command is for the event's agent and the decision's action, comes from an event that is at most 300 seconds
  -- old and at most 60 ahead, lives for 300 seconds, and its parameters pass a dry run or the checks of a demonstration script.
  pub record Vetted (d : Decision) (e : EventFacts) (now : ℕ) (b : BuiltCommand) : Type 0 where
    pub seen : ℕ
    pub time : e.timestamp ≡ some seen
    pub not_old : now ≤ seen + 300 * 1000000
    pub not_ahead : seen ≤ now + 60 * 1000000
    pub agent : b.agent_id ≡ e.agent_id
    pub action : b.action_type ≡ d.action
    pub life : b.expires_at ≡ b.created_at + 300 * 1000000
    pub params : params_for system scripts manager_ip d.action b.alert_id e ≡ some b.params
    pub passes :
        d.action ≢ "DEMO_SCRIPT"
        → (r : PsResult) × ((execute_template system d.action b.params true).1 ≡ done r)
    pub passes_script :
        d.action ≡ "DEMO_SCRIPT"
        → (id : String) × (at "script_id" b.params ≡ str id) × Fit scripts id b.params

  live_time :
      (now : ℕ) (o : Option ℕ)
      → is_live_time system scripts manager_ip now o ≡ true
      → (t : ℕ) × (o ≡ some t) × (now ≤ t + 300 * 1000000) × (t ≤ now + 60 * 1000000)
  live_time now none h = absurd (cc h)
  live_time now (some t) h = (t, refl, ground arith, ground arith)

  returned :
      (o : Ending) → returns system scripts manager_ip o ≡ true → (r : PsResult) × (o ≡ done r)
  returned (done r) h = (r, refl)
  returned unknown_template h = absurd (cc h)
  returned invalid_parameter h = absurd (cc h)
  returned execution_timeout h = absurd (cc h)
  returned unresolved h = absurd (cc h)

  vetted_parts :
      (d : Decision) (e : EventFacts) (command_id alert_id source : String) (now : ℕ)
      (o : Option Fields) (b : BuiltCommand)
      → vetted system scripts manager_ip d e command_id alert_id source now o ≡ some b
      → (params : Fields) × (o ≡ some params)
        × (is_vetted system scripts manager_ip d.action params ≡ true)
        × (some (command_of system scripts manager_ip d e command_id alert_id source now params)
            ≡ some b)
  vetted_parts d e command_id alert_id source now none b h = absurd (cc h)
  vetted_parts d e command_id alert_id source now (some params) b h =
      let (good, same) = guarded _ _ b h in (params, refl, good, same)

  passed_dry_run :
      (action : String) (params : Fields)
      → is_vetted system scripts manager_ip action params ≡ true
      → action ≢ "DEMO_SCRIPT"
      → (r : PsResult) × ((execute_template system action params true).1 ≡ done r)
  unfolding is_vetted
  passed_dry_run action params good other =
      let is_other : str_eq action "DEMO_SCRIPT" ≡ false =
        elim (Bool-cases (str_eq action "DEMO_SCRIPT")) [
          | inl same ↦ absurd (other ((eq_iff action "DEMO_SCRIPT").0 same))
          | inr differ ↦ differ
        ] in
      returned (execute_template system action params true).1 (rw (is_other) at good)

  passed_script :
      (action : String) (params : Fields)
      → is_vetted system scripts manager_ip action params ≡ true
      → action ≡ "DEMO_SCRIPT"
      → (id : String) × (at "script_id" params ≡ str id) × Fit scripts id params
  unfolding is_vetted
  passed_script action params good is_script = named (at "script_id" params) refl (
      of_sound (validate_script_request scripts (at "script_id" params) params)
        (subst (λ a. is_vetted system scripts manager_ip a params ≡ true) is_script good))
    where
      of_sound : (v : Validity) → is_sound system scripts manager_ip v ≡ true → v ≡ sound
      of_sound sound h = refl
      of_sound refused h = absurd (cc h)
      of_sound type_error h = absurd (cc h)

      named :
          (v : Value)
          → at "script_id" params ≡ v
          → validate_script_request scripts v params ≡ sound
          → (id : String) × (at "script_id" params ≡ str id) × Fit scripts id params
      named v is_v ok =
          let (id, is_id, fit) = sound-Fit scripts v params ok in (id, is_v ∙ is_id, fit)

  -- Every command that is built is for the event's agent and the decision's action, comes from an event that is at
  -- most 300 seconds old and at most 60 ahead, and lives for 300 seconds; its parameters are those that the
  -- builder derives from the event, and they pass a dry run of the executor or, for a demonstration script, fit
  -- an allowlisted script.
  pub build_command-Vetted :
      (d : Decision) (e : EventFacts) (command_id alert_id source : String) (now then_now : ℕ)
      (b : BuiltCommand)
      → build_command system scripts manager_ip d e command_id alert_id source now then_now ≡ some b
      → Vetted d e now b
  unfolding build_command
  build_command-Vetted d e command_id alert_id source now then_now b h =
      elim (Bool-cases (
        is_live_time system scripts manager_ip now e.timestamp
        && truthy (at "timestamp" e.raw_event))) [
          | inr stale ↦ absurd (cc (rw (stale) at h))
          | inl fresh ↦
              let (params, found, good, same) =
                vetted_parts d e command_id alert_id source then_now
                  (params_for system scripts manager_ip d.action alert_id e) b (rw (fresh) at h) in
              let (t, time, not_old, not_ahead) = live_time now e.timestamp (ground arith) in
              subst VettedOption same record {
                seen = t;
                time = time;
                not_old = not_old;
                not_ahead = not_ahead;
                agent = refl;
                action = refl;
                life = refl;
                params = found;
                passes = λ other. passed_dry_run d.action params good other;
                passes_script = λ is_script. passed_script d.action params good is_script;
              }
        ]
    where
      VettedOption : Option BuiltCommand → Type 0
      VettedOption none = Unit
      VettedOption (some x) = Vetted d e now x
