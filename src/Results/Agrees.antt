-- ===== src/Results/Agrees.antt =====
-- The agent and the manager agree on what a success is.
use mathlib.Core.Path.{subst}
use zero_trust_continuous_au.Base.{
  String, ◌≡◌, refl, sym, true, false, Option, none, some, List, [], ◌∷◌, str_eq,
}
use zero_trust_continuous_au.Json.{str, Fields}
use zero_trust_continuous_au.Executor.{Action, action_of}
use zero_trust_continuous_au.Executor.Proves.{markers_of, is_one_of, asked_of}
use zero_trust_continuous_au.Receiver.{Endpoint, success, mapped_action}
use zero_trust_continuous_au.Receiver.Process.{final_params, raw_action, process_command}
use zero_trust_continuous_au.Receiver.Succeeds.{params_in, process_command-Shown}
use zero_trust_continuous_au.Results.{required, is_text_in, may_succeed}
use zero_trust_continuous_au.Results.Shown.{value_of}

-- The responses on users, processes, accounts and files.
pub data Response : Type 0 where
  log_out log_off kill lock_account unlock_account quarantine_file lock_station : Response

abbrev pub action_name : Response → String
action_name log_out = "LOGOUT_USER"
action_name log_off = "LOGOFF_USER"
action_name kill = "KILL_PROCESS"
action_name lock_account = "LOCK_LOCAL_ACCOUNT"
action_name unlock_account = "UNLOCK_LOCAL_ACCOUNT"
action_name quarantine_file = "QUARANTINE_FILE"
action_name lock_station = "LOCK_WORKSTATION"

one_of-text_in :
    (markers : List String) (v : Option String)
    → is_one_of markers v ≡ true
    → is_text_in markers (value_of v) ≡ true
one_of-text_in markers none h = absurd (cc h)
one_of-text_in markers (some s) h = h

module _ (endpoint : Endpoint) where
  abbrev ProvedBy : String → Fields → Option String → Option Action → Type 0
  ProvedBy raw given v none = ⊥
  ProvedBy raw given v (some a) =
      is_one_of
        (markers_of a
          (asked_of endpoint.machine a (mapped_action raw) (final_params endpoint raw given)))
        v
      ≡ true

  response-may_succeed :
      (x : Response) (given : Fields) (v : Option String)
      → ProvedBy (action_name x) given v (action_of (mapped_action (action_name x)))
      → may_succeed (action_name x) (value_of v) ≡ true
  unfolding action_of may_succeed required
  response-may_succeed log_out given v h = one_of-text_in ("SESSION_NOT_ACTIVE" ∷ []) v h
  response-may_succeed log_off given v h = one_of-text_in ("SESSION_NOT_ACTIVE" ∷ []) v h
  response-may_succeed kill given v h = one_of-text_in ("PROCESS_NOT_ACTIVE" ∷ []) v h
  response-may_succeed lock_account given v h = one_of-text_in ("LOCAL_ACCOUNT_DISABLED" ∷ []) v h
  response-may_succeed unlock_account given v h =
      one_of-text_in ("LOCAL_ACCOUNT_ENABLED" ∷ "LOCAL_ACCOUNT_RESTORED_DISABLED" ∷ []) v h
  response-may_succeed quarantine_file given v h = one_of-text_in ("FILE_QUARANTINED" ∷ []) v h
  response-may_succeed lock_station given (some s) h = absurd (cc h)
  response-may_succeed lock_station given none h = absurd (cc h)

  no_demo : (x : Response) → str_eq (mapped_action (action_name x)) "DEMO_SCRIPT" ≡ false
  no_demo log_out = refl
  no_demo log_off = refl
  no_demo kill = refl
  no_demo lock_account = refl
  no_demo unlock_account = refl
  no_demo quarantine_file = refl
  no_demo lock_station = refl

  -- A success that an agent reports of a response on a user, a process, an account or a file passes the manager's
  -- check of the verification for that action.
  pub process_command-may_succeed :
      (payload : Fields) (x : Response)
      → raw_action endpoint payload ≡ str (action_name x)
      → (process_command endpoint payload false).1.status ≡ success
      → may_succeed
          (action_name x)
          (value_of (process_command endpoint payload false).1.verification)
        ≡ true
  process_command-may_succeed payload x named claim =
      let (a, known, one) =
        process_command-Shown endpoint payload (action_name x) named (no_demo x) claim in
      response-may_succeed x (params_in endpoint payload)
        (process_command endpoint payload false).1.verification
        (subst
          (ProvedBy (action_name x) (params_in endpoint payload)
            (process_command endpoint payload false).1.verification)
          (sym known) one)
