-- ===== src/Results/Proved.antt =====
-- A command is only recorded as succeeded with the verification that its action asks for.
use zero_trust_continuous_au.Base.{
  String, ◌≡◌, refl, sym, ap, ◌∙◌, Bool, true, false, not, ◌&&◌, Option, none, some, List, [], ◌∷◌,
  str_eq, eq_iff, Option-cases, if_intro, All, inl, inr, arith,
}
use zero_trust_continuous_au.Base.Table.{
  select, update_rows, update_rows-All, update_rows-Distinct, Distinct, Distinct-select, select-key,
}
use zero_trust_continuous_au.Json.{Value, null, bool, int, str, float, datetime, arr, obj, Fields}
use zero_trust_continuous_au.Rule.{at}
use zero_trust_continuous_au.Results.{
  CommandStatus, executing, succeeded, Command, CommandTables, Encoding, command_key, result_key,
  told_status, is_terminal, claims_success, required, is_text_in, may_succeed, Answer,
}
use zero_trust_continuous_au.Results.Receive.{
  stored_verification, with_result, result_id_of, evidence_of, may_be_late, store_end, store_result,
  judge_result, text_id, for_row, is_well_formed, for_status, command_result, is_live, is_lapsed,
  expire_command, expire_commands, Event, uploaded, ticked, handle_event, handle_all,
}
use zero_trust_continuous_au.Results.Shown.{value_of, Shown, may_succeed-Shown}
use zero_trust_continuous_au.Results.Rows.{
  is_expired, is_executing, is_awaited, is_evidence, for_command, followed,
}

-- A success of the row shows what its action asks for.
abbrev pub Allowed : Command → Type 0
Allowed c = c.status ≡ succeeded → Shown c.action_type c.verification

-- An action that allows a verification that is no text asks for none.
may_succeed_any :
    (action : String) (v w : Value)
    → ((texts : List String) → is_text_in texts v ≡ false)
    → may_succeed action v ≡ true
    → may_succeed action w ≡ true
unfolding may_succeed
may_succeed_any action v w no_text h = elim (Option-cases (required action)) [
  | inl free ↦ rw (free, may_succeed) (rw (free, may_succeed) at h)
  | inr (texts, asks) ↦
      let both : (not (str_eq action "LOCK_WORKSTATION") && is_text_in texts v) ≡ true =
        rw (asks, may_succeed) at h in
      absurd (ground (arith, no_text texts))
]

passed : (a b : Bool) → (a && not b) ≡ false → a ≡ true → b ≡ true
passed a b h good = ground arith

module _ (encoding : Encoding) where
  stored-may_succeed :
      (action : String) (v : Value)
      → may_succeed action v ≡ true
      → may_succeed action (value_of (stored_verification encoding v)) ≡ true
  stored-may_succeed action null h = h
  stored-may_succeed action (str s) h = h
  stored-may_succeed action (bool b) h = may_succeed_any action (bool b) _ (λ texts. refl) h
  stored-may_succeed action (int i) h = may_succeed_any action (int i) _ (λ texts. refl) h
  stored-may_succeed action (float m k) h = may_succeed_any action (float m k) _ (λ texts. refl) h
  stored-may_succeed action (datetime t) h = may_succeed_any action (datetime t) _ (λ texts. refl) h
  stored-may_succeed action (arr vs) h = may_succeed_any action (arr vs) _ (λ texts. refl) h
  stored-may_succeed action (obj fs) h = may_succeed_any action (obj fs) _ (λ texts. refl) h

  -- Ids are distinct, and every success shows what its action asks for.
  pub record IsValid (t : CommandTables) : Type 0 where
    pub ids : Distinct command_key t.commands
    pub allowed_rows : All Allowed t.commands

  both_rows :
      (P Q : Command → Type 0) (cs : List Command) → All P cs → All Q cs → All (λ c. P c × Q c) cs
  both_rows P Q [] ps qs = tt
  both_rows P Q (c ∷ cs) ps qs = ((ps.0, qs.0), both_rows P Q cs ps.1 qs.1)

  -- An update of one row, which keeps its id.
  update-IsValid :
      (d : Command) (f : Command → Command) (cs : List Command)
      → ((x : Command) → command_key (f x) ≡ command_key x)
      → select command_key d.command_id cs ≡ some d
      → ((x : Command) → x.action_type ≡ d.action_type → Allowed (f x))
      → Distinct command_key cs
      → All Allowed cs
      → Distinct command_key (update_rows (for_command d.command_id f) cs)
        × All Allowed (update_rows (for_command d.command_id f) cs)
  update-IsValid d f cs keys there good ids h = (
    update_rows-Distinct command_key (for_command d.command_id f)
        (λ x.
          if_intro (λ y. command_key y ≡ command_key x) (str_eq x.command_id d.command_id)
            (λ _. keys x) (λ _. refl))
        cs ids,
    update_rows-All (λ x. Allowed x × (select command_key x.command_id cs ≡ some x)) Allowed
        (for_command d.command_id f)
        (λ x both.
          if_intro Allowed (str_eq x.command_id d.command_id)
            (λ same. good x (same_action x both.1 same)) (λ _. both.0))
        cs
        (both_rows Allowed (λ x. select command_key x.command_id cs ≡ some x) cs h
          (Distinct-select command_key cs ids)),
  )
    where
      action_in : Option Command → String
      action_in none = ""
      action_in (some x) = x.action_type

      same_action :
          (x : Command)
          → select command_key x.command_id cs ≡ some x
          → str_eq x.command_id d.command_id ≡ true
          → x.action_type ≡ d.action_type
      same_action x found same = ap action_in (
          sym found
          ∙ ap (λ i. select command_key i cs) ((eq_iff x.command_id d.command_id).0 same)
          ∙ there)

  abbrev ValidAfter : CommandTables × Answer → Type 0
  ValidAfter r = IsValid r.0

  IsValid-both :
      (t : CommandTables) → Distinct command_key t.commands × All Allowed t.commands → IsValid t
  IsValid-both t p = record { ids = p.0; allowed_rows = p.1 }

  store_result-IsValid :
      (status : CommandStatus) (d : Command) (payload : Fields) (now : String) (t : CommandTables)
      → select command_key d.command_id t.commands ≡ some d
      → (claims_success status ≡ true
          → may_succeed d.action_type (at "verification" payload) ≡ true)
      → IsValid t
      → ValidAfter (store_result encoding status d payload now t)
  unfolding store_result store_end followed
  store_result-IsValid status d payload now t there may v =
      if_intro ValidAfter (is_executing status)
        (λ _.
          if_intro ValidAfter (is_executing d.status) (λ _. v)
            (λ _. IsValid-both _ (
              update-IsValid d (λ x. record x { status = executing; executing_at = some now })
                t.commands (λ x. refl) there (λ x same claim. absurd (cc claim)) v.ids
                v.allowed_rows)))
        (λ _.
          if_intro ValidAfter
            (not (
              is_evidence (evidence_of encoding payload)
                (select result_key (result_id_of encoding payload) t.results)))
            (λ _. v)
            (λ _. IsValid-both _ (
              update-IsValid d
                (with_result encoding status (result_id_of encoding payload) now payload) t.commands
                (λ x. refl) there
                (λ x same claim.
                  may_succeed-Shown x.action_type
                    (stored_verification encoding (at "verification" payload))
                    (ap
                        (λ a.
                          may_succeed a
                            (value_of (stored_verification encoding (at "verification" payload))))
                        same
                      ∙ stored-may_succeed d.action_type (at "verification" payload)
                          (may (ap claims_success claim))))
                v.ids v.allowed_rows)))

  judge_result-IsValid :
      (status : CommandStatus) (d : Command) (payload : Fields) (now : String) (t : CommandTables)
      → select command_key d.command_id t.commands ≡ some d
      → IsValid t
      → ValidAfter (judge_result encoding status d payload now t)
  unfolding judge_result
  judge_result-IsValid status d payload now t there v =
      if_intro ValidAfter
        (claims_success status && not (may_succeed d.action_type (at "verification" payload)))
        (λ _. v)
        λ may.
          if_intro ValidAfter (is_terminal d.status) (λ _. v)
            λ _.
              if_intro ValidAfter (not (is_awaited d.status)) (λ _. v)
                λ _.
                  if_intro ValidAfter
                    (is_expired d.status && not (may_be_late encoding status d payload)) (λ _. v)
                    λ _.
                      store_result-IsValid status d payload now t there
                        (λ claim.
                          passed (claims_success status)
                            (may_succeed d.action_type (at "verification" payload)) may claim)
                        v

  for_row-IsValid :
      (status : CommandStatus) (payload : Fields) (now : String) (t : CommandTables) (k : String)
      (o : Option Command)
      → select command_key k t.commands ≡ o
      → IsValid t
      → ValidAfter (for_row encoding status payload now t o)
  unfolding for_row
  for_row-IsValid status payload now t k none there v = v
  for_row-IsValid status payload now t k (some d) there v =
      if_intro ValidAfter (str_eq d.agent_id (text_id encoding (at "agent_id" payload)))
        (λ _.
          judge_result-IsValid status d payload now t
            (ap (λ i. select command_key i t.commands) (select-key command_key k t.commands d there)
              ∙ there)
            v)
        (λ _. v)

  for_status-IsValid :
      (payload : Fields) (now : String) (t : CommandTables) (o : Option CommandStatus)
      → IsValid t
      → ValidAfter (for_status encoding payload now t o)
  unfolding for_status
  for_status-IsValid payload now t none v = v
  for_status-IsValid payload now t (some status) v =
      if_intro ValidAfter (is_well_formed encoding payload)
        (λ _.
          for_row-IsValid status payload now t (text_id encoding (at "command_id" payload))
            (select command_key (text_id encoding (at "command_id" payload)) t.commands) refl v)
        (λ _. v)

  expire-IsValid :
      (lapsed : String → Bool) (now : String) (t : CommandTables)
      → IsValid t
      → IsValid (expire_commands lapsed now t)
  unfolding expire_commands
  expire-IsValid lapsed now t v = record {
    ids =
        update_rows-Distinct command_key (expire_command lapsed now)
          (λ x.
            if_intro (λ y. command_key y ≡ command_key x)
              (is_live x.status && is_lapsed lapsed x.expires_at) (λ _. refl) (λ _. refl))
          t.commands v.ids;
    allowed_rows =
        update_rows-All Allowed Allowed (expire_command lapsed now)
          (λ x h.
            if_intro Allowed (is_live x.status && is_lapsed lapsed x.expires_at)
              (λ _ claim. absurd (cc claim)) (λ _. h))
          t.commands v.allowed_rows;
  }

  handle_event-IsValid :
      (e : Event) (t : CommandTables) → IsValid t → IsValid (handle_event encoding e t)
  unfolding handle_event command_result
  handle_event-IsValid (uploaded payload now) t v =
      for_status-IsValid payload now t (told_status (at "status" payload)) v
  handle_event-IsValid (ticked lapsed now) t v = expire-IsValid lapsed now t v

  -- Whatever results are uploaded and whenever commands expire, a command that is recorded as succeeded has the
  -- verification text of its action: for a kill PROCESS_NOT_ACTIVE, for a log-off SESSION_NOT_ACTIVE, for an
  -- isolation ISOLATION_VERIFIED, and so on for every response action; a lock of the workstation is never
  -- recorded as succeeded, and command ids stay distinct. The tables at the start have these properties.
  pub handle_all-IsValid :
      (es : List Event) (t : CommandTables) → IsValid t → IsValid (handle_all encoding es t)
  unfolding handle_all
  handle_all-IsValid [] t v = v
  handle_all-IsValid (e ∷ es) t v =
      handle_all-IsValid es (handle_event encoding e t) (handle_event-IsValid e t v)
