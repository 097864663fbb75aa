-- ===== src/Journal/Steps.antt =====
-- The life of an agent as steps: threads that each execute one command, uploads, crashes and restarts. A thread runs
-- the three transactions and `process_command` one after the other, and other steps may fall between them.
use zero_trust_continuous_au.Base.{
  String, Bool, false, Option, none, some, List, [], ◌∷◌, ◌++◌, str_eq, if◌then◌else◌,
}
use zero_trust_continuous_au.Base.Table.{select, update_rows, delete_rows}
use zero_trust_continuous_au.Json.{Fields}
use zero_trust_continuous_au.Receiver.{Report, Endpoint}
use zero_trust_continuous_au.Receiver.Process.{process_command}
use zero_trust_continuous_au.Journal.{
  StoredReport, Entry, Codec, Earlier, claim_command, start_entry, stored_of, finish_entry,
  recover_interrupted_commands, upload_results,
}

-- Where a thread that holds a claim stands.
pub data Stage : Type 0 where
  claimed started : Stage
  processed : Report → Stage

pub record Worker : Type 0 where
  pub id : String
  pub command : Fields
  pub stage : Stage

-- `executed` are the commands that `process_command` was run for, the newest first.
pub record Agent : Type 0 where
  pub journal : List Entry
  pub workers : List Worker
  pub executed : List String

pub data Step : Type 0 where
  -- A command with its id, its action and the time arrives, and has been validated.
  receive : String → String → String → Fields → Step
  start : String → String → Step
  process : String → Endpoint → Step
  finish : String → String → Step
  upload : (StoredReport → Bool) → String → Step
  crash : Step
  restart : String → Step

abbrev pub worker_key : Worker → String
worker_key w = w.id

abbrev pub at_stage : String → Stage → Worker → Worker
at_stage id s w = if str_eq w.id id then record w { stage = s } else w

abbrev pub is_worker : String → Worker → Bool
is_worker id w = str_eq w.id id

module _ (codec : Codec) (agent_id : String) where
  -- A thread goes on only where the command was not received before.
  unfoldable pub received : String → Fields → Agent → List Entry × Option Earlier → Agent
  received id command a (journal, some earlier) = record a { journal = journal }
  received id command a (journal, none) = record a {
    journal = journal;
    workers = a.workers ++ (record { id = id; command = command; stage = claimed } ∷ []);
  }

  unfoldable pub start_at : String → String → Agent → Stage → Agent
  start_at id now a claimed = record a {
    journal = update_rows (start_entry codec id now) a.journal;
    workers = update_rows (at_stage id started) a.workers;
  }
  start_at id now a s = a

  unfoldable pub process_at : String → Endpoint → Fields → Agent → Stage → Agent
  unfolding process_command
  process_at id endpoint command a started = record a {
    workers =
        update_rows (at_stage id (processed (process_command endpoint command false).1)) a.workers;
    executed = id ∷ a.executed;
  }
  process_at id endpoint command a s = a

  unfoldable pub finish_at : String → String → Agent → Stage → Agent
  finish_at id now a (processed r) = record a {
    journal = update_rows (finish_entry codec id (stored_of codec agent_id now r)) a.journal;
    workers = delete_rows (is_worker id) a.workers;
  }
  finish_at id now a s = a

  -- What a worker's step does, if there is such a worker.
  unfoldable pub with_worker : (Worker → Agent) → Agent → Option Worker → Agent
  with_worker f a none = a
  with_worker f a (some w) = f w

  unfoldable pub step : Step → Agent → Agent
  unfolding received with_worker start_at process_at finish_at claim_command upload_results
      recover_interrupted_commands
  step (receive id action now command) a =
      received id command a (claim_command codec id action now command a.journal)
  step (start id now) a =
      with_worker (λ w. start_at id now a w.stage) a (select worker_key id a.workers)
  step (process id endpoint) a =
      with_worker (λ w. process_at id endpoint w.command a w.stage) a
        (select worker_key id a.workers)
  step (finish id now) a =
      with_worker (λ w. finish_at id now a w.stage) a (select worker_key id a.workers)
  step (upload accepts now) a = record a { journal = upload_results codec accepts now a.journal }
  step crash a = record a { workers = [] }
  step (restart now) a = record a {
    journal = recover_interrupted_commands codec agent_id now a.journal;
    workers = [];
  }

  unfoldable pub run : List Step → Agent → Agent
  unfolding step
  run [] a = a
  run (s ∷ ss) a = run ss (step s a)

abbrev pub no_commands : Agent
no_commands = record { journal = []; workers = []; executed = [] }
