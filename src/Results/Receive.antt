-- ===== src/Results/Receive.antt =====
-- The steps of `command_result`, in its order, and the expiry of commands.
use zero_trust_continuous_au.Base.{
  String, Bool, true, false, not, ◌&&◌, ◌||◌, Option, none, some, List, [], ◌∷◌, ◌++◌, str_eq,
  if◌then◌else◌,
}
use zero_trust_continuous_au.Base.Table.{select, update_rows}
use zero_trust_continuous_au.Json.{Value, null, str, arr, obj, Fields, get}
use zero_trust_continuous_au.Json.Text.{is_empty}
use zero_trust_continuous_au.Rule.{at}
use zero_trust_continuous_au.Policy.{get_or_value}
use zero_trust_continuous_au.Script.{or_value}
use zero_trust_continuous_au.Authorization.{Expiry, not_a_time}
use zero_trust_continuous_au.Results.{
  CommandStatus, open_status, dispatched, executing, expired, succeeded, failed, Command, Result,
  CommandTables, Encoding, command_key, result_key, told_status, is_terminal, claims_success,
  same_end, is_id, is_note, may_succeed, same_value, column, first_some, Answer, changed, unchanged,
  refused,
}
use zero_trust_continuous_au.Results.Rows.{
  starts_in_time, is_expired, is_executing, is_awaited, is_evidence, is_result_id, for_command,
  followed,
}

module _ (encoding : Encoding) where
  -- `update_command_result` stores a structured verification as its JSON text.
  abbrev pub stored_verification : Value → Option String
  stored_verification null = none
  stored_verification (str s) = some s
  stored_verification (arr vs) = some (encoding.dumps (arr vs))
  stored_verification (obj fs) = some (encoding.dumps (obj fs))
  stored_verification v = some (encoding.text_of v)

  -- The row of the command with its result, after the three updates.
  abbrev pub with_result : CommandStatus → String → String → Fields → Command → Command
  with_result status result_id now payload c = record c {
    status = status;
    output = column (get_or_value "output" (str "") payload);
    error_message = column (at "error" payload);
    verification = stored_verification (at "verification" payload);
    executing_at = first_some c.executing_at (column (at "executed_at" payload));
    completed_at = column (or_value (get "completed_at" payload) (str now));
    result_id = some result_id;
    verification_status = column (at "verification_status" payload);
    correlation_id = first_some c.correlation_id (column (at "correlation_id" payload));
  }

  abbrev pub result_id_of : Fields → String
  result_id_of payload =
      encoding.text_of (or_value (get "result_id" payload) (str (encoding.hash_of payload)))

  abbrev pub evidence_of : Fields → String
  evidence_of payload = encoding.dumps (obj payload)

  abbrev pub new_result : CommandStatus → Command → Fields → String → Result
  new_result status c payload now = record {
    result_id = result_id_of payload;
    command_id = c.command_id;
    agent_id = c.agent_id;
    status = status;
    verification_status = column (at "verification_status" payload);
    verification = column (at "verification" payload);
    evidence_json = evidence_of payload;
    received_at = now;
  }

  -- INSERT OR IGNORE
  abbrev pub add_result : Result → Option Result → List Result → List Result
  add_result r none rs = rs ++ (r ∷ [])
  add_result r (some old) rs = rs

  -- A repetition of a result has the same end, the same evidence and the same id.
  abbrev pub is_repetition : CommandStatus → Command → Fields → Option Result → Bool
  is_repetition status c payload stored =
      same_end c.status status
      && same_value c.verification (at "verification" payload)
      && same_value c.error_message (at "error" payload)
      && is_evidence (evidence_of payload) stored
      && is_result_id (result_id_of payload) c.result_id

  abbrev pub time_of : Option String → Expiry
  time_of none = not_a_time
  time_of (some s) = if is_empty s then not_a_time else encoding.parse_time (str s)

  -- After the expiry only an end counts, and an end other than UNKNOWN and REJECTED must have begun in time.
  unfoldable pub may_be_late : CommandStatus → Command → Fields → Bool
  may_be_late executing c payload = false
  may_be_late succeeded c payload =
      starts_in_time (encoding.parse_time (get_or_value "executed_at" (str "") payload))
        (time_of c.expires_at)
  may_be_late failed c payload =
      starts_in_time (encoding.parse_time (get_or_value "executed_at" (str "") payload))
        (time_of c.expires_at)
  may_be_late s c payload = true

  unfoldable pub store_end :
      CommandStatus
      → Command
      → Fields
      → String
      → CommandTables
      → Option Result
      → CommandTables × Answer
  unfolding followed
  store_end status c payload now t old =
      if not (is_evidence (evidence_of payload) old) then (t, refused) else (
        followed c status now (record t {
          commands =
              update_rows
                (for_command c.command_id (with_result status (result_id_of payload) now payload))
                t.commands;
          results = add_result (new_result status c payload now) old t.results;
        }),
        changed,
      )

  -- The result of a command that is awaited.
  unfoldable pub store_result :
      CommandStatus → Command → Fields → String → CommandTables → CommandTables × Answer
  unfolding store_end followed
  store_result status c payload now t =
      if is_executing status
      then (if is_executing c.status then (t, unchanged) else (
        followed c executing now (record t {
          commands =
              update_rows
                (for_command c.command_id
                  (λ x. record x { status = executing; executing_at = some now }))
                t.commands;
        }),
        changed,
      ))
      else store_end status c payload now t (select result_key (result_id_of payload) t.results)

  abbrev pub is_of_command : String → Option Result → Option Result
  is_of_command id none = none
  is_of_command id (some r) = if str_eq r.command_id id then some r else none

  unfoldable pub judge_result :
      CommandStatus → Command → Fields → String → CommandTables → CommandTables × Answer
  unfolding store_result may_succeed may_be_late
  judge_result status c payload now t =
      if claims_success status && not (may_succeed c.action_type (at "verification" payload))
      then (t, refused)
      else if is_terminal c.status
      then (
        t,
        if is_repetition status c payload
              (is_of_command c.command_id (select result_key (result_id_of payload) t.results))
            then unchanged
            else refused,
      )
      else if not (is_awaited c.status)
      then (t, refused)
      else if is_expired c.status && not (may_be_late status c payload)
      then (t, refused)
      else store_result status c payload now t

  abbrev pub text_id : Value → String
  text_id (str s) = s
  text_id v = String.[]

  unfoldable pub for_row :
      CommandStatus → Fields → String → CommandTables → Option Command → CommandTables × Answer
  unfolding judge_result
  for_row status payload now t none = (t, refused)
  for_row status payload now t (some c) =
      if str_eq c.agent_id (text_id (at "agent_id" payload))
      then judge_result status c payload now t
      else (t, refused)

  abbrev pub is_well_formed : Fields → Bool
  is_well_formed payload =
      is_id (at "command_id" payload)
      && is_id (at "agent_id" payload)
      && is_note (at "output" payload)
      && is_note (at "error" payload)

  unfoldable pub for_status :
      Fields → String → CommandTables → Option CommandStatus → CommandTables × Answer
  unfolding for_row
  for_status payload now t none = (t, refused)
  for_status payload now t (some status) =
      if is_well_formed payload
      then for_row status payload now t
          (select command_key (text_id (at "command_id" payload)) t.commands)
      else (t, refused)

  unfoldable pub command_result : Fields → String → CommandTables → CommandTables × Answer
  unfolding for_status told_status
  command_result payload now t = for_status payload now t (told_status (at "status" payload))

-- The commands that `tick` expires; `lapsed` says of an expiry whether it has come.
abbrev pub is_live : CommandStatus → Bool
is_live dispatched = true
is_live executing = true
is_live (open_status s) = str_eq s "PENDING" || str_eq s "QUEUED" || str_eq s "AUTHORIZED"
is_live s = false

abbrev pub is_lapsed : (String → Bool) → Option String → Bool
is_lapsed lapsed none = true
is_lapsed lapsed (some s) = lapsed s

abbrev pub expire_command : (String → Bool) → String → Command → Command
expire_command lapsed now c =
    if is_live c.status && is_lapsed lapsed c.expires_at
    then record c {
      status = expired;
      error_message = some "Command expired before confirmed completion";
      completed_at = some now;
    }
    else c

-- The UPDATEs of the commands; those of incidents and the audit entries of `tick` are left out.
unfoldable pub expire_commands : (String → Bool) → String → CommandTables → CommandTables
expire_commands lapsed now t = record t {
  commands = update_rows (expire_command lapsed now) t.commands;
}

-- What happens to the tables.
pub data Event : Type 0 where
  uploaded : Fields → String → Event
  ticked : (String → Bool) → String → Event

module _ (encoding : Encoding) where
  unfoldable pub handle_event : Event → CommandTables → CommandTables
  unfolding command_result expire_commands
  handle_event (uploaded payload now) t = (command_result encoding payload now t).0
  handle_event (ticked lapsed now) t = expire_commands lapsed now t

  unfoldable pub handle_all : List Event → CommandTables → CommandTables
  unfolding handle_event
  handle_all [] t = t
  handle_all (e ∷ es) t = handle_all es (handle_event e t)
