-- ===== src/Journal/Once.antt =====
-- No command is executed twice, whatever is received again, and whenever the agent crashes.
use zero_trust_continuous_au.Base.{String, ◌≡◌, refl, ap, Option, none, some, List, [], ◌∷◌}
use zero_trust_continuous_au.Base.Table.{select}
use zero_trust_continuous_au.Receiver.{Endpoint}
use zero_trust_continuous_au.Journal.{
  Codec, entry_key, claim_command, recover_entry, recover_interrupted_commands, upload_entry,
  upload_results,
}
use zero_trust_continuous_au.Journal.Sound.{
  NoRepeat, is_before_run, IsSound, kept_row, start_at-IsSound, process_at-IsSound,
  finish_at-IsSound, received-IsSound, with_journal, recover_entry-key, upload_entry-key,
  upload_entry-report,
}
use zero_trust_continuous_au.Journal.Steps.{
  Stage, claimed, started, processed, Worker, Agent, Step, receive, start, process, finish, upload,
  crash, restart, worker_key, start_at, process_at, finish_at, with_worker, step, run, no_commands,
}

module _ (codec : Codec) (agent_id : String) where
  -- A step of a worker: it is only taken where there is one.
  with_worker-IsSound :
      (f : Worker → Agent) (a : Agent) (o : Option Worker)
      → IsSound a
      → ((w : Worker) → o ≡ some w → IsSound (f w))
      → IsSound (with_worker codec agent_id f a o)
  unfolding with_worker
  with_worker-IsSound f a none v h = v
  with_worker-IsSound f a (some w) v h = h w refl

  start_stage :
      (id now : String) (a : Agent) (w : Worker) (s : Stage)
      → w.stage ≡ s
      → select worker_key id a.workers ≡ some w
      → IsSound a
      → IsSound (start_at codec agent_id id now a s)
  unfolding start_at
  start_stage id now a w claimed is hit v =
      start_at-IsSound codec agent_id a v id w hit (ap is_before_run is) now
  start_stage id now a w started is hit v = v
  start_stage id now a w (processed r) is hit v = v

  process_stage :
      (id : String) (endpoint : Endpoint) (a : Agent) (w : Worker) (s : Stage)
      → w.stage ≡ s
      → select worker_key id a.workers ≡ some w
      → IsSound a
      → IsSound (process_at codec agent_id id endpoint w.command a s)
  unfolding process_at
  process_stage id endpoint a w started is hit v =
      process_at-IsSound codec agent_id a v id w hit (ap is_before_run is) endpoint w.command
  process_stage id endpoint a w claimed is hit v = v
  process_stage id endpoint a w (processed r) is hit v = v

  finish_stage :
      (id now : String) (a : Agent) (s : Stage)
      → IsSound a
      → IsSound (finish_at codec agent_id id now a s)
  unfolding finish_at
  finish_stage id now a (processed r) v = finish_at-IsSound codec agent_id a id now r v
  finish_stage id now a claimed v = v
  finish_stage id now a started v = v

  no_workers-IsSound : (a : Agent) → IsSound a → IsSound (record a { workers = [] })
  unfolding select
  no_workers-IsSound a v = record {
    waiting = λ id w h waits. absurd (cc h);
    open_rows = λ id w h. absurd (cc h);
    known = v.known;
    once = v.once;
  }

  restart-IsSound :
      (now : String) (a : Agent) → IsSound a → IsSound (step codec agent_id (restart now) a)
  unfolding step recover_interrupted_commands select
  restart-IsSound now a v = record {
    waiting = λ id w h waits. absurd (cc h);
    open_rows = λ id w h. absurd (cc h);
    known = λ id h.
        let (e, found) = v.known id h in
        (
          recover_entry codec agent_id now e,
          kept_row (recover_entry codec agent_id now) (recover_entry-key codec agent_id now) id
              a.journal e found,
        );
    once = v.once;
  }

  pub step-IsSound : (s : Step) (a : Agent) → IsSound a → IsSound (step codec agent_id s a)
  unfolding step claim_command upload_results
  step-IsSound (receive id action now command) a v =
      received-IsSound codec agent_id id action now command a (select entry_key id a.journal) refl v
  step-IsSound (start id now) a v =
      with_worker-IsSound _ a (select worker_key id a.workers) v
        (λ w hit. start_stage id now a w w.stage refl hit v)
  step-IsSound (process id endpoint) a v =
      with_worker-IsSound _ a (select worker_key id a.workers) v
        (λ w hit. process_stage id endpoint a w w.stage refl hit v)
  step-IsSound (finish id now) a v =
      with_worker-IsSound _ a (select worker_key id a.workers) v
        (λ w hit. finish_stage id now a w.stage v)
  step-IsSound (upload accepts now) a v =
      with_journal codec agent_id (upload_entry codec accepts now) a
        (upload_entry-key codec agent_id accepts now)
        (upload_entry-report codec agent_id accepts now) v
  step-IsSound crash a v = no_workers-IsSound a v
  step-IsSound (restart now) a v = restart-IsSound now a v

  pub run-IsSound : (ss : List Step) (a : Agent) → IsSound a → IsSound (run codec agent_id ss a)
  unfolding run
  run-IsSound [] a v = v
  run-IsSound (s ∷ ss) a v = run-IsSound ss (step codec agent_id s a) (step-IsSound s a v)

  pub no_commands-IsSound : IsSound no_commands
  unfolding select
  no_commands-IsSound = record {
    waiting = λ id w h waits. absurd (cc h);
    open_rows = λ id w h. absurd (cc h);
    known = λ id h. absurd (cc h);
    once = tt;
  }

  -- From an empty journal, through any interleaving of threads that receive, start, process and finish commands,
  -- of uploads, crashes and restarts, no command is executed twice, however often it is received.
  pub run-NoRepeat : (ss : List Step) → NoRepeat (run codec agent_id ss no_commands).executed
  run-NoRepeat ss = (run-IsSound ss no_commands no_commands-IsSound).once
