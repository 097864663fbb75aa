-- ===== src/Results/Final.antt =====
-- A command that has ended stays as it is.
use zero_trust_continuous_au.Base.{
  String, ◌≡◌, refl, sym, ap, ◌∙◌, Bool, true, false, not, ◌&&◌, Option, none, some, List, [], ◌∷◌,
  str_eq, eq_iff, Bool-cases, if_intro, inl, inr,
}
use zero_trust_continuous_au.Base.Table.{
  select, update_rows, select-update_rows, select-key, map_row,
}
use zero_trust_continuous_au.Json.{Fields}
use zero_trust_continuous_au.Rule.{at}
use zero_trust_continuous_au.Results.{
  CommandStatus, open_status, dispatched, executing, expired, succeeded, failed, unknown, rejected,
  Command, CommandTables, Encoding, command_key, result_key, told_status, is_terminal,
  claims_success, may_succeed, Answer,
}
use zero_trust_continuous_au.Results.Receive.{
  with_result, result_id_of, evidence_of, may_be_late, store_end, store_result, judge_result,
  text_id, for_row, is_well_formed, for_status, command_result, is_live, is_lapsed, expire_command,
  expire_commands, Event, uploaded, ticked, handle_event, handle_all,
}
use zero_trust_continuous_au.Results.Rows.{
  is_expired, is_executing, is_awaited, is_evidence, for_command, followed,
}

module _ (encoding : Encoding) (id : String) (c : Command)
    (ended : is_terminal c.status ≡ true) where
  -- The row of the command.
  abbrev pub Holds : CommandTables → Type 0
  Holds t = select command_key id t.commands ≡ some c

  abbrev HoldsAfter : CommandTables × Answer → Type 0
  HoldsAfter r = Holds r.0

  -- An update of another command's row.
  other_row :
      (k : String) (f : Command → Command) (cs : List Command)
      → ((x : Command) → command_key (f x) ≡ command_key x)
      → str_eq c.command_id k ≡ false
      → select command_key id cs ≡ some c
      → select command_key id (update_rows (for_command k f) cs) ≡ some c
  other_row k f cs keys other h =
      select-update_rows command_key (for_command k f)
        (λ x.
          if_intro (λ y. command_key y ≡ command_key x) (str_eq x.command_id k) (λ _. keys x)
            (λ _. refl))
        id cs
      ∙ ap (map_row command_key (for_command k f)) h
      ∙ rw (other) refl

  store_result-Holds :
      (status : CommandStatus) (d : Command) (payload : Fields) (now : String) (t : CommandTables)
      → str_eq c.command_id d.command_id ≡ false
      → Holds t
      → HoldsAfter (store_result encoding status d payload now t)
  unfolding store_result store_end followed
  store_result-Holds status d payload now t other h =
      if_intro HoldsAfter (is_executing status)
        (λ _.
          if_intro HoldsAfter (is_executing d.status) (λ _. h)
            (λ _.
              other_row d.command_id (λ x. record x { status = executing; executing_at = some now })
                t.commands (λ x. refl) other h))
        (λ _.
          if_intro HoldsAfter
            (not (
              is_evidence (evidence_of encoding payload)
                (select result_key (result_id_of encoding payload) t.results)))
            (λ _. h)
            (λ _.
              other_row d.command_id
                (with_result encoding status (result_id_of encoding payload) now payload) t.commands
                (λ x. refl) other h))

  judge_result-Holds :
      (status : CommandStatus) (d : Command) (payload : Fields) (now : String) (t : CommandTables)
      → select command_key d.command_id t.commands ≡ some d
      → Holds t
      → HoldsAfter (judge_result encoding status d payload now t)
  unfolding judge_result
  judge_result-Holds status d payload now t there h =
      if_intro HoldsAfter
        (claims_success status && not (may_succeed d.action_type (at "verification" payload)))
        (λ _. h)
        λ _.
          if_intro HoldsAfter (is_terminal d.status) (λ _. h)
            λ live.
              if_intro HoldsAfter (not (is_awaited d.status)) (λ _. h)
                λ _.
                  if_intro HoldsAfter
                    (is_expired d.status && not (may_be_late encoding status d payload)) (λ _. h)
                    λ _. store_result-Holds status d payload now t (another d there h live) h
    where
      another :
          (d : Command)
          → select command_key d.command_id t.commands ≡ some d
          → Holds t
          → is_terminal d.status ≡ false
          → str_eq c.command_id d.command_id ≡ false
      another d there h live = elim (Bool-cases (str_eq c.command_id d.command_id)) [
        | inl same ↦
            let at_id : id ≡ d.command_id =
              sym (select-key command_key id t.commands c h)
              ∙ (eq_iff c.command_id d.command_id).0 same in
            let both : some c ≡ some d =
              sym h ∙ ap (λ i. select command_key i t.commands) at_id ∙ there in
            absurd (cc (sym ended ∙ ap end_of both ∙ live))
        | inr other ↦ other
      ]
        where
          end_of : Option Command → Bool
          end_of none = false
          end_of (some x) = is_terminal x.status

  for_row-Holds :
      (status : CommandStatus) (payload : Fields) (now : String) (t : CommandTables) (k : String)
      (o : Option Command)
      → select command_key k t.commands ≡ o
      → Holds t
      → HoldsAfter (for_row encoding status payload now t o)
  unfolding for_row
  for_row-Holds status payload now t k none there h = h
  for_row-Holds status payload now t k (some d) there h =
      if_intro HoldsAfter (str_eq d.agent_id (text_id encoding (at "agent_id" payload)))
        (λ _.
          judge_result-Holds status d payload now t
            (ap (λ i. select command_key i t.commands) (select-key command_key k t.commands d there)
              ∙ there)
            h)
        (λ _. h)

  for_status-Holds :
      (payload : Fields) (now : String) (t : CommandTables) (o : Option CommandStatus)
      → Holds t
      → HoldsAfter (for_status encoding payload now t o)
  unfolding for_status
  for_status-Holds payload now t none h = h
  for_status-Holds payload now t (some status) h =
      if_intro HoldsAfter (is_well_formed encoding payload)
        (λ _.
          for_row-Holds status payload now t (text_id encoding (at "command_id" payload))
            (select command_key (text_id encoding (at "command_id" payload)) t.commands) refl h)
        (λ _. h)

  not_live : (s : CommandStatus) → is_terminal s ≡ true → is_live s ≡ false
  not_live succeeded h = refl
  not_live failed h = refl
  not_live unknown h = refl
  not_live rejected h = refl
  not_live (open_status s) h = absurd (cc h)
  not_live dispatched h = absurd (cc h)
  not_live executing h = absurd (cc h)
  not_live expired h = absurd (cc h)

  handle_event-Holds : (e : Event) (t : CommandTables) → Holds t → Holds (handle_event encoding e t)
  unfolding handle_event command_result expire_commands
  handle_event-Holds (uploaded payload now) t h =
      for_status-Holds payload now t (told_status (at "status" payload)) h
  handle_event-Holds (ticked lapsed now) t h =
      select-update_rows command_key (expire_command lapsed now)
        (λ x.
          if_intro (λ y. command_key y ≡ command_key x)
            (is_live x.status && is_lapsed lapsed x.expires_at) (λ _. refl) (λ _. refl))
        id t.commands
      ∙ ap (map_row command_key (expire_command lapsed now)) h
      ∙ rw (not_live c.status ended) refl

  -- A command that has ended, as succeeded, failed, unknown or rejected, keeps its row as it is, whatever results are
  -- uploaded for it or others afterwards and whenever commands expire.
  pub handle_all-Holds :
      (es : List Event) (t : CommandTables) → Holds t → Holds (handle_all encoding es t)
  unfolding handle_all
  handle_all-Holds [] t h = h
  handle_all-Holds (e ∷ es) t h =
      handle_all-Holds es (handle_event encoding e t) (handle_event-Holds e t h)
