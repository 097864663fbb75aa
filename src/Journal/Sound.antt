-- ===== src/Journal/Sound.antt =====
-- What holds of an agent's journal, its threads and its executed commands, and that each step keeps it.
use zero_trust_continuous_au.Base.{
  String, ◌≡◌, refl, sym, ap, ◌∙◌, Bool, true, false, not, ◌&&◌, Option, none, some, List, [], ◌∷◌,
  ◌++◌, any, str_eq, eq_iff, Bool-cases, if_intro, inl, inr, arith,
}
use zero_trust_continuous_au.Base.Table.{
  select, update_rows, select-key, select-update_rows, map_row,
}
use zero_trust_continuous_au.Base.Found.{
  update_rows_found, append_found, append_kept, delete_rows_found, select-new,
}
use zero_trust_continuous_au.Json.{Fields}
use zero_trust_continuous_au.Receiver.{Report, Endpoint}
use zero_trust_continuous_au.Receiver.Process.{process_command}
use zero_trust_continuous_au.Journal.{
  StoredReport, Entry, Codec, entry_key, new_entry, claim_after, start_entry, stored_of,
  finish_entry, is_interrupted, recover_entry, upload_entry, is_offline_payload, is_accepted,
}
use zero_trust_continuous_au.Journal.Steps.{
  Stage, claimed, started, processed, Worker, Agent, worker_key, at_stage, received, start_at,
  process_at, finish_at,
}

abbrev pub is_in : String → List String → Bool
is_in id ids = any (λ x. str_eq x id) ids

-- No text twice.
abbrev pub NoRepeat : List String → Type 0
NoRepeat [] = Unit
NoRepeat (x ∷ xs) = (is_in x xs ≡ false) × NoRepeat xs

abbrev pub is_before_run : Stage → Bool
is_before_run (processed r) = false
is_before_run s = true

-- A row that has no report yet.
abbrev Open : Option Entry → Type 0
Open o = (e : Entry) × (o ≡ some e) × (e.report ≡ none)

-- What is known of an agent at any time.
pub record IsSound (a : Agent) : Type 0 where
  pub waiting :
      (id : String) (w : Worker)
      → select worker_key id a.workers ≡ some w
      → is_before_run w.stage ≡ true
      → is_in id a.executed ≡ false
  pub open_rows :
      (id : String) (w : Worker)
      → select worker_key id a.workers ≡ some w
      → Open (select entry_key id a.journal)
  pub known :
      (id : String)
      → is_in id a.executed ≡ true
      → (e : Entry) × (select entry_key id a.journal ≡ some e)
  pub once : NoRepeat a.executed

at_stage-id : (id : String) (s : Stage) (w : Worker) → worker_key (at_stage id s w) ≡ worker_key w
at_stage-id id s w =
    if_intro (λ x. worker_key x ≡ worker_key w) (str_eq w.id id) (λ _. refl) (λ _. refl)

-- A change of the rows that keeps keys finds what was there.
pub kept_row :
    (f : Entry → Entry)
    → ((e : Entry) → entry_key (f e) ≡ entry_key e)
    → (id : String) (journal : List Entry) (e : Entry) → select entry_key id journal ≡ some e
    → select entry_key id (update_rows f journal) ≡ some (f e)
kept_row f keeps id journal e h =
    select-update_rows entry_key f keeps id journal ∙ ap (map_row entry_key f) h

module _ (codec : Codec) (agent_id : String) where
  pub start_entry-key :
      (id now : String) (e : Entry) → entry_key (start_entry codec id now e) ≡ entry_key e
  start_entry-key id now e =
      if_intro (λ x. entry_key x ≡ entry_key e) (str_eq e.command_id id) (λ _. refl) (λ _. refl)

  pub start_entry-report :
      (id now : String) (e : Entry) → (start_entry codec id now e).report ≡ e.report
  start_entry-report id now e =
      if_intro (λ (x : Entry). x.report ≡ e.report) (str_eq e.command_id id) (λ _. refl) (λ _. refl)

  pub finish_entry-key :
      (id : String) (s : StoredReport) (e : Entry)
      → entry_key (finish_entry codec id s e) ≡ entry_key e
  finish_entry-key id s e =
      if_intro (λ x. entry_key x ≡ entry_key e) (str_eq e.command_id id) (λ _. refl) (λ _. refl)

  pub recover_entry-key :
      (now : String) (e : Entry) → entry_key (recover_entry codec agent_id now e) ≡ entry_key e
  unfolding recover_entry
  recover_entry-key now e =
      if_intro (λ x. entry_key x ≡ entry_key e) (is_interrupted codec e) (λ _. refl) (λ _. refl)

  pub upload_entry-key :
      (accepts : StoredReport → Bool) (now : String) (e : Entry)
      → entry_key (upload_entry codec accepts now e) ≡ entry_key e
  unfolding upload_entry
  upload_entry-key accepts now e =
      if_intro (λ x. entry_key x ≡ entry_key e)
        (not e.reported
          && not (is_offline_payload codec e.payload)
          && is_accepted codec accepts e.report)
        (λ _. refl) (λ _. refl)

  pub upload_entry-report :
      (accepts : StoredReport → Bool) (now : String) (e : Entry)
      → (upload_entry codec accepts now e).report ≡ e.report
  unfolding upload_entry
  upload_entry-report accepts now e =
      if_intro (λ (x : Entry). x.report ≡ e.report)
        (not e.reported
          && not (is_offline_payload codec e.payload)
          && is_accepted codec accepts e.report)
        (λ _. refl) (λ _. refl)

  -- Rows that change but for their keys and their reports.
  pub with_journal :
      (f : Entry → Entry) (a : Agent)
      → ((e : Entry) → entry_key (f e) ≡ entry_key e)
      → ((e : Entry) → (f e).report ≡ e.report)
      → IsSound a
      → IsSound (record a { journal = update_rows f a.journal })
  with_journal f a keys reports v = record {
    waiting = v.waiting;
    open_rows = λ id w h.
        let (e, found, blank) = v.open_rows id w h in
        (f e, kept_row f keys id a.journal e found, reports e ∙ blank);
    known = λ id h. let (e, found) = v.known id h in (f e, kept_row f keys id a.journal e found);
    once = v.once;
  }

  -- A worker that was found after a change of stage, before it.
  stage_found :
      (id : String) (s : Stage) (k : String) (ws : List Worker) (w : Worker)
      → select worker_key k (update_rows (at_stage id s) ws) ≡ some w
      → (x : Worker) × (select worker_key k ws ≡ some x) × (at_stage id s x ≡ w)
  stage_found id s k ws w h =
      update_rows_found worker_key (at_stage id s) (at_stage-id id s) k ws w h

  -- A worker that waits moves on: its id is what the change is about.
  module _ (a : Agent) (v : IsSound a) (id : String) (w : Worker)
      (hit : select worker_key id a.workers ≡ some w) (waits : is_before_run w.stage ≡ true) where
    start-waiting :
        (k : String) (y : Worker)
        → select worker_key k (update_rows (at_stage id started) a.workers) ≡ some y
        → is_before_run y.stage ≡ true
        → is_in k a.executed ≡ false
    start-waiting k y h y_waits =
        let (x, found, is_y) = stage_found id started k a.workers y h in
        elim (Bool-cases (str_eq x.id id)) [
          | inl same ↦
              let at_id : k ≡ id =
                sym (select-key worker_key k a.workers x found) ∙ (eq_iff x.id id).0 same in
              ap (λ i. is_in i a.executed) at_id ∙ v.waiting id w hit waits
          | inr other ↦
              let is_x : x ≡ y = rw (other) at is_y in
              v.waiting k x found (ap (λ (z : Worker). is_before_run z.stage) is_x ∙ y_waits)
        ]

    pub start_at-IsSound : (now : String) → IsSound (start_at codec agent_id id now a claimed)
    unfolding start_at
    start_at-IsSound now =
        with_journal (start_entry codec id now)
          (record a { workers = update_rows (at_stage id started) a.workers })
          (start_entry-key id now) (start_entry-report id now)
          (record {
            waiting = start-waiting;
            open_rows = λ k y h.
                let (x, found, _) = stage_found id started k a.workers y h in v.open_rows k x found;
            known = v.known;
            once = v.once;
          })

    process-waiting :
        (s : Stage)
        → is_before_run s ≡ false
        → (k : String) (y : Worker)
        → select worker_key k (update_rows (at_stage id s) a.workers) ≡ some y
        → is_before_run y.stage ≡ true
        → is_in k (id ∷ a.executed) ≡ false
    process-waiting s over k y h y_waits =
        let (x, found, is_y) = stage_found id s k a.workers y h in
        elim (Bool-cases (str_eq x.id id)) [
          | inl same ↦
              let is_x : record x { stage = s } ≡ y = rw (same) at is_y in
              absurd (cc (sym over ∙ ap (λ (z : Worker). is_before_run z.stage) is_x ∙ y_waits))
          | inr other ↦
              let is_x : x ≡ y = rw (other) at is_y in
              let new =
                v.waiting k x found (ap (λ (z : Worker). is_before_run z.stage) is_x ∙ y_waits) in
              let here = select-key worker_key k a.workers x found in
              ground (arith, eq_iff id k, eq_iff x.id id)
        ]

    pub process_at-IsSound :
        (endpoint : Endpoint) (command : Fields)
        → IsSound (process_at codec agent_id id endpoint command a started)
    unfolding process_at
    process_at-IsSound endpoint command = record {
      waiting = process-waiting (processed (process_command endpoint command false).1) refl;
      open_rows = λ k y h.
          let (x, found, _) =
            stage_found id (processed (process_command endpoint command false).1) k a.workers y h in
          v.open_rows k x found;
      known = λ k h. elim (Bool-cases (str_eq id k)) [
        | inl same ↦
            let (e, found, _) = v.open_rows id w hit in
            (e, ap (λ i. select entry_key i a.journal) (sym ((eq_iff id k).0 same)) ∙ found)
        | inr other ↦ v.known k (ground arith)
      ];
      once = (v.waiting id w hit waits, v.once);
    }

  pub finish_at-IsSound :
      (a : Agent) (id now : String) (r : Report)
      → IsSound a
      → IsSound (finish_at codec agent_id id now a (processed r))
  unfolding finish_at
  finish_at-IsSound a id now r v = record {
    waiting =
        λ k y h y_waits. v.waiting k y (delete_rows_found worker_key k id a.workers y h).0 y_waits;
    open_rows = λ k y h.
        let (found, ne) = delete_rows_found worker_key k id a.workers y h in
        let (e, there, blank) = v.open_rows k y found in
        let at_k = select-key entry_key k a.journal e there in
        let s = stored_of codec agent_id now r in
        (
          finish_entry codec id s e,
          kept_row (finish_entry codec id s) (finish_entry-key id s) k a.journal e there,
          if_intro (λ (x : Entry). x.report ≡ none) (str_eq e.command_id id)
              (λ same. absurd (ne (sym at_k ∙ (eq_iff e.command_id id).0 same))) (λ _. blank),
        );
    known = λ k h.
        let (e, found) = v.known k h in
        let s = stored_of codec agent_id now r in
        (
          finish_entry codec id s e,
          kept_row (finish_entry codec id s) (finish_entry-key id s) k a.journal e found,
        );
    once = v.once;
  }

  pub received-IsSound :
      (id action now : String) (command : Fields) (a : Agent) (o : Option Entry)
      → select entry_key id a.journal ≡ o
      → IsSound a
      → IsSound (
          received codec agent_id id command a
            (claim_after codec id action now command a.journal o))
  unfolding received claim_after
  received-IsSound id action now command a (some e) h v = v
  received-IsSound id action now command a none h v =
      let fresh : is_in id a.executed ≡ false = elim (Bool-cases (is_in id a.executed)) [
        | inl before ↦ let (e, found) = v.known id before in absurd (cc (sym h ∙ found))
        | inr never ↦ never
      ] in
      record {
        waiting = λ k y found y_waits. elim (append_found worker_key k a.workers _ y found) [
          | inl old ↦ v.waiting k y old y_waits
          | inr (_, at_k, _) ↦ ap (λ i. is_in i a.executed) (sym at_k) ∙ fresh
        ];
        open_rows = λ k y found. elim (append_found worker_key k a.workers _ y found) [
          | inl old ↦
              let (e, there, blank) = v.open_rows k y old in
              (
                e,
                append_kept entry_key k a.journal (new_entry codec id action now command) e there,
                blank,
              )
          | inr (_, at_k, _) ↦ (
            new_entry codec id action now command,
            ap (λ i. select entry_key i (a.journal ++ (new_entry codec id action now command ∷ [])))
                  (sym at_k)
                ∙ select-new entry_key a.journal (new_entry codec id action now command) h,
            refl,
          )
        ];
        known = λ k before.
            let (e, found) = v.known k before in
            (e, append_kept entry_key k a.journal (new_entry codec id action now command) e found);
        once = v.once;
      }
