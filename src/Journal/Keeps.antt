-- ===== src/Journal/Keeps.antt =====
-- A report that was stored stays, and answers every later receipt of its command.
use zero_trust_continuous_au.Base.{
  String, ◌≡◌, refl, sym, ap, ◌∙◌, Option, none, some, List, [], ◌∷◌, str_eq, eq_iff, is_some,
  if_intro, arith,
}
use zero_trust_continuous_au.Base.Table.{select, select-key, update_rows}
use zero_trust_continuous_au.Base.Found.{append_kept}
use zero_trust_continuous_au.Json.{Fields}
use zero_trust_continuous_au.Receiver.{Endpoint}
use zero_trust_continuous_au.Journal.{
  StoredReport, Entry, Codec, finished_before, entry_key, new_entry, earlier_of, claim_after,
  claim_command, start_entry, stored_of, finish_entry, is_interrupted, recover_entry,
  recover_interrupted_commands, upload_entry, upload_results,
}
use zero_trust_continuous_au.Journal.Once.{step-IsSound, run-IsSound, no_commands-IsSound}
use zero_trust_continuous_au.Journal.Sound.{
  IsSound, kept_row, start_entry-key, start_entry-report, finish_entry-key, recover_entry-key,
  upload_entry-key, upload_entry-report,
}
use zero_trust_continuous_au.Journal.Steps.{
  Stage, claimed, started, processed, Worker, Agent, Step, receive, start, process, finish, upload,
  crash, restart, worker_key, received, start_at, process_at, finish_at, with_worker, step, run,
  no_commands,
}

module _ (codec : Codec) (agent_id : String) (id : String) (r : StoredReport) where
  -- The journal holds this report of the command.
  abbrev pub Answered : List Entry → Type 0
  Answered journal = (e : Entry) × (select entry_key id journal ≡ some e) × (e.report ≡ some r)

  kept_report :
      (f : Entry → Entry) (journal : List Entry)
      → ((e : Entry) → entry_key (f e) ≡ entry_key e)
      → ((e : Entry)
          → select entry_key id journal ≡ some e
          → e.report ≡ some r
          → (f e).report ≡ some r)
      → Answered journal
      → Answered (update_rows f journal)
  kept_report f journal keys keeps (e, found, has) =
      (f e, kept_row f keys id journal e found, keeps e found has)

  received-Answered :
      (k action now : String) (command : Fields) (a : Agent) (o : Option Entry)
      → Answered a.journal
      → Answered
          (received codec agent_id k command a
            (claim_after codec k action now command a.journal o)).journal
  unfolding received claim_after
  received-Answered k action now command a (some e) h = h
  received-Answered k action now command a none (e, found, has) =
      (e, append_kept entry_key id a.journal (new_entry codec k action now command) e found, has)

  start_at-Answered :
      (k now : String) (a : Agent) (s : Stage)
      → Answered a.journal
      → Answered (start_at codec agent_id k now a s).journal
  unfolding start_at
  start_at-Answered k now a claimed h =
      kept_report (start_entry codec k now) a.journal (start_entry-key codec agent_id k now)
        (λ e found has. start_entry-report codec agent_id k now e ∙ has) h
  start_at-Answered k now a started h = h
  start_at-Answered k now a (processed x) h = h

  process_at-Answered :
      (k : String) (endpoint : Endpoint) (command : Fields) (a : Agent) (s : Stage)
      → Answered a.journal
      → Answered (process_at codec agent_id k endpoint command a s).journal
  unfolding process_at
  process_at-Answered k endpoint command a claimed h = h
  process_at-Answered k endpoint command a started h = h
  process_at-Answered k endpoint command a (processed x) h = h

  -- A worker's row is open, so it is another row than one with a report.
  finish_at-Answered :
      (k now : String) (a : Agent) (w : Worker) (s : Stage)
      → IsSound a
      → select worker_key k a.workers ≡ some w
      → Answered a.journal
      → Answered (finish_at codec agent_id k now a s).journal
  unfolding finish_at
  finish_at-Answered k now a w (processed x) v hit h =
      let s = stored_of codec agent_id now x in
      kept_report (finish_entry codec k s) a.journal (finish_entry-key codec agent_id k s)
        (λ e found has.
          if_intro (λ (y : Entry). y.report ≡ some r) (str_eq e.command_id k)
            (λ same.
              let (o, there, blank) = v.open_rows k w hit in
              let at_k : id ≡ k =
                sym (select-key entry_key id a.journal e found) ∙ (eq_iff e.command_id k).0 same in
              let is_e : some e ≡ some o =
                sym found ∙ ap (λ i. select entry_key i a.journal) at_k ∙ there in
              absurd (cc (sym has ∙ ap report_of is_e ∙ blank)))
            (λ _. has))
        h
    where
      report_of : Option Entry → Option StoredReport
      report_of none = none
      report_of (some e) = e.report
  finish_at-Answered k now a w claimed v hit h = h
  finish_at-Answered k now a w started v hit h = h

  recover_entry-report :
      (now : String) (e : Entry)
      → e.report ≡ some r
      → (recover_entry codec agent_id now e).report ≡ some r
  unfolding recover_entry
  recover_entry-report now e has =
      if_intro (λ (y : Entry). y.report ≡ some r) (is_interrupted codec e)
        (λ open_row. absurd (ground (arith, ap is_some has))) (λ _. has)

  with_worker-Answered :
      (f : Worker → Agent) (a : Agent) (o : Option Worker)
      → Answered a.journal
      → ((w : Worker) → o ≡ some w → Answered (f w).journal)
      → Answered (with_worker codec agent_id f a o).journal
  unfolding with_worker
  with_worker-Answered f a none h go = h
  with_worker-Answered f a (some w) h go = go w refl

  step-Answered :
      (s : Step) (a : Agent)
      → IsSound a
      → Answered a.journal
      → Answered (step codec agent_id s a).journal
  unfolding step claim_command upload_results recover_interrupted_commands
  step-Answered (receive k action now command) a v h =
      received-Answered k action now command a (select entry_key k a.journal) h
  step-Answered (start k now) a v h =
      with_worker-Answered _ a (select worker_key k a.workers) h
        (λ w hit. start_at-Answered k now a w.stage h)
  step-Answered (process k endpoint) a v h =
      with_worker-Answered _ a (select worker_key k a.workers) h
        (λ w hit. process_at-Answered k endpoint w.command a w.stage h)
  step-Answered (finish k now) a v h =
      with_worker-Answered _ a (select worker_key k a.workers) h
        (λ w hit. finish_at-Answered k now a w w.stage v hit h)
  step-Answered (upload accepts now) a v h =
      kept_report (upload_entry codec accepts now) a.journal
        (upload_entry-key codec agent_id accepts now)
        (λ e found has. upload_entry-report codec agent_id accepts now e ∙ has) h
  step-Answered crash a v h = h
  step-Answered (restart now) a v h =
      kept_report (recover_entry codec agent_id now) a.journal
        (recover_entry-key codec agent_id now) (λ e found has. recover_entry-report now e has) h

  run-Answered :
      (ss : List Step) (a : Agent)
      → IsSound a
      → Answered a.journal
      → Answered (run codec agent_id ss a).journal
  unfolding run
  run-Answered [] a v h = h
  run-Answered (s ∷ ss) a v h =
      run-Answered ss (step codec agent_id s a) (step-IsSound codec agent_id s a v)
        (step-Answered s a v h)

  answered_again :
      (action now : String) (command : Fields) (journal : List Entry)
      → Answered journal
      → claim_command codec id action now command journal ≡ (journal, some (finished_before r))
  unfolding claim_command
  answered_again action now command journal (e, found, has) =
      rw (found, claim_after) (ap (λ o. (journal, some (earlier_of codec action e o))) has)

  -- Once a report of a command is stored, it stays through any later steps, and whenever the command is received
  -- again this report is the answer, and the journal does not change.
  pub run_answers :
      (before after : List Step) (action now : String) (command : Fields)
      → Answered (run codec agent_id before no_commands).journal
      → let later = (run codec agent_id after (run codec agent_id before no_commands)).journal in
        claim_command codec id action now command later ≡ (later, some (finished_before r))
  run_answers before after action now command h = answered_again action now command _ (
      run-Answered after (run codec agent_id before no_commands)
        (run-IsSound codec agent_id before no_commands (no_commands-IsSound codec agent_id)) h)
