-- ===== src/Executor/Proves.antt =====
-- What a reported success stands for.
use zero_trust_continuous_au.Base.{
  ℕ, String, ◌≡◌, refl, sym, ap, ◌∙◌, Bool, true, false, not, Option, none, some, List, [], ◌∷◌,
  any, str_eq, eq_iff, if◌then◌else◌, ◌==◌, Bool-cases, if_intro, inl, inr, arith,
}
use zero_trust_continuous_au.Base.Int.{ℤ}
use zero_trust_continuous_au.Json.{Fields}
use zero_trust_continuous_au.Json.Text.{occurs_in}
use zero_trust_continuous_au.Executor.{
  Action, logoff_user, kill_process, network_isolation, local_account_control, lock_workstation,
  quarantine_file, script_of, Ran, finished, timed_out, broken, Attempt, managed, raised_here,
  System, PsResult, Ending, done, unknown_template, invalid_parameter, execution_timeout,
  unresolved, Effect,
}
use zero_trust_continuous_au.Executor.Checks.{text_at}
use zero_trust_continuous_au.Executor.Run.{
  judge, ran, logged_off, start_script, run_script, lock_resolved, lock, quarantined, quarantine,
}
use zero_trust_continuous_au.Executor.Outcomes.{
  account_markers, network_marker, first_marker, is_found, marker_or,
}

-- The texts that prove an action, by what is asked of it.
abbrev pub markers_of : Action → String → List String
markers_of logoff_user asked = "SESSION_NOT_ACTIVE" ∷ []
markers_of kill_process asked = "PROCESS_NOT_ACTIVE" ∷ []
markers_of network_isolation asked = network_marker asked ∷ []
markers_of local_account_control asked = account_markers asked
markers_of lock_workstation asked = []
markers_of quarantine_file asked = "FILE_QUARANTINED" ∷ []

-- The verification is one of the texts.
abbrev pub is_one_of : List String → Option String → Bool
is_one_of markers none = false
is_one_of markers (some v) = any (λ m. str_eq m v) markers

-- The actions that a script performs.
abbrev pub is_script : Action → Bool
is_script lock_workstation = false
is_script quarantine_file = false
is_script a = true

first_marker-is_one_of :
    (ms : List String) (stdout : String)
    → is_found (first_marker ms stdout) ≡ true
    → is_one_of ms (first_marker ms stdout) ≡ true
unfolding first_marker
first_marker-is_one_of [] stdout h = absurd (cc h)
first_marker-is_one_of (m ∷ ms) stdout h = elim (Bool-cases (occurs_in m stdout)) [
  | inl here ↦ rw (here) (ground (arith, eq_iff m m))
  | inr later ↦
      rw (later)
        (widen (first_marker ms stdout) (first_marker-is_one_of ms stdout (rw (later) at h)))
]
  where
    widen : (o : Option String) → is_one_of ms o ≡ true → is_one_of (m ∷ ms) o ≡ true
    widen (some v) h = ground arith
    widen none h = absurd (cc h)

module _ (system : System) where
  -- A result that claims success is proved by a text for the action.
  abbrev pub Proved : Action → String → PsResult → Type 0
  Proved a asked r = r.success ≡ true → is_one_of (markers_of a asked) r.verification ≡ true

  pub judge-Proved-account :
      (asked : String) (code : ℤ) (stdout stderr : String)
      → Proved local_account_control asked
          (judge system local_account_control asked code stdout stderr)
  unfolding judge
  judge-Proved-account asked code stdout stderr h =
      go (first_marker (account_markers asked) stdout) (ground arith)
        (first_marker-is_one_of (account_markers asked) stdout)
    where
      go :
          (o : Option String)
          → is_found o ≡ true
          → (is_found o ≡ true → is_one_of (account_markers asked) o ≡ true)
          → is_one_of (account_markers asked) (some (marker_or "ACCOUNT_STATE_UNVERIFIED" o)) ≡ true
      go none found one = absurd (cc found)
      go (some m) found one = one found

  judge-Proved-network :
      (asked : String) (code : ℤ) (stdout stderr : String)
      → Proved network_isolation asked (judge system network_isolation asked code stdout stderr)
  unfolding judge
  judge-Proved-network asked code stdout stderr h =
      rw (h) (ground (arith, eq_iff (network_marker asked) (network_marker asked)))

  judge-Proved-kill :
      (asked : String) (code : ℤ) (stdout stderr : String)
      → Proved kill_process asked (judge system kill_process asked code stdout stderr)
  unfolding judge
  judge-Proved-kill asked code stdout stderr h = rw (h) refl

  abbrev pub ProvedEnding : Action → String → Ending → Type 0
  ProvedEnding a asked (done r) = Proved a asked r
  ProvedEnding a asked o = Unit

  -- The same of a call's result.
  abbrev pub ProvedEnd : Action → String → List Effect × Ending → Type 0
  ProvedEnd a asked r = ProvedEnding a asked r.1

  ran-Proved :
      (a : Action) (asked : String) (x : Ran)
      → ((code : ℤ) (stdout stderr : String)
          → Proved a asked (judge system a asked code stdout stderr))
      → ProvedEnding a asked (ran system a asked x)
  unfolding ran
  ran-Proved a asked (finished code stdout stderr) judged = judged code stdout stderr
  ran-Proved a asked timed_out judged = tt
  ran-Proved a asked (broken error) judged = λ claim. absurd (cc claim)

  logged_off-Proved :
      (asked : String) (x : Attempt) → Proved logoff_user asked (logged_off system x)
  unfolding logged_off
  logged_off-Proved asked (managed id) claim = refl
  logged_off-Proved asked (raised_here name error) claim = absurd (cc claim)

  start_script-Proved :
      (a : Action) (params : Fields)
      → is_script a ≡ true
      → ProvedEnd a (text_at system "Action" "" params) (start_script system a params)
  unfolding start_script
  start_script-Proved logoff_user params s = logged_off-Proved (text_at system "Action" "" params) _
  start_script-Proved kill_process params s =
      ran-Proved kill_process (text_at system "Action" "" params) _
        (judge-Proved-kill (text_at system "Action" "" params))
  start_script-Proved network_isolation params s =
      ran-Proved network_isolation (text_at system "Action" "" params) _
        (judge-Proved-network (text_at system "Action" "" params))
  start_script-Proved local_account_control params s =
      ran-Proved local_account_control (text_at system "Action" "" params) _
        (judge-Proved-account (text_at system "Action" "" params))
  start_script-Proved lock_workstation params s = absurd (cc s)
  start_script-Proved quarantine_file params s = absurd (cc s)

  ProvedEnding-same :
      (a : Action) (x y : String) (o : Ending)
      → markers_of a x ≡ markers_of a y
      → ProvedEnding a x o
      → ProvedEnding a y o
  ProvedEnding-same a x y (done r) e p =
      λ claim. ap (λ ms. is_one_of ms r.verification) (sym e) ∙ p claim
  ProvedEnding-same a x y unknown_template e p = tt
  ProvedEnding-same a x y invalid_parameter e p = tt
  ProvedEnding-same a x y execution_timeout e p = tt
  ProvedEnding-same a x y unresolved e p = tt

  pub run_script-Proved :
      (a : Action) (original asked : String) (o : Option Fields)
      → is_script a ≡ true
      → ((q : Fields)
          → o ≡ some q
          → markers_of a (text_at system "Action" "" q) ≡ markers_of a asked)
      → ProvedEnd a asked (run_script system a original false o)
  unfolding run_script
  run_script-Proved a original asked none s h = tt
  run_script-Proved a original asked (some q) s h =
      if_intro (ProvedEnd a asked) (not (system.exists (system.script_path (script_of a))))
        (λ _. tt)
        λ _.
          if_intro (ProvedEnd a asked) (not system.is_windows) (λ _ claim. absurd (cc claim))
            λ _.
              ProvedEnding-same a (text_at system "Action" "" q) asked (start_script system a q).1
                (h q refl) (start_script-Proved a q s)

  lock_resolved-Proved :
      (asked : String) (target own : Option ℕ)
      → ProvedEnd lock_workstation asked (lock_resolved system target own)
  unfolding lock_resolved
  lock_resolved-Proved asked none own = tt
  lock_resolved-Proved asked (some id) none = λ claim. absurd (cc claim)
  lock_resolved-Proved asked (some id) (some own) =
      if_intro (ProvedEnd lock_workstation asked) (not (own == id)) (λ _ claim. absurd (cc claim))
        λ _.
          if_intro (Proved lock_workstation asked) (not system.locks) (λ _ claim. absurd (cc claim))
            (λ _ claim. absurd (cc claim))

  pub lock-Proved :
      (asked : String) (o : Option (String × ℕ))
      → ProvedEnd lock_workstation asked (lock system false o)
  unfolding lock
  lock-Proved asked none = tt
  lock-Proved asked (some (user, id)) =
      if_intro (ProvedEnd lock_workstation asked) (not system.is_windows)
        (λ _ claim. absurd (cc claim))
        λ _. lock_resolved-Proved asked (system.session_of_user user id) system.own_session

  quarantined-Proved :
      (asked : String) (x : Attempt) → Proved quarantine_file asked (quarantined system x)
  unfolding quarantined
  quarantined-Proved asked (managed evidence) claim = refl
  quarantined-Proved asked (raised_here name error) claim = absurd (cc claim)

  pub quarantine-Proved :
      (asked : String) (o : Option (String × String))
      → ProvedEnd quarantine_file asked (quarantine system false o)
  unfolding quarantine
  quarantine-Proved asked none = tt
  quarantine-Proved asked (some (path, expected)) =
      quarantined-Proved asked (system.quarantine path expected)

  -- What an account or a network command asks for.
  abbrev pub asked_of : Action → String → Fields → String
  asked_of network_isolation original params =
      if str_eq original "UNISOLATE_ENDPOINT"
      then "UNISOLATE"
      else system.upper (text_at system "Action" "ISOLATE" params)
  asked_of local_account_control original params =
      if str_eq original "UNLOCK_LOCAL_ACCOUNT" then "UNLOCK" else "LOCK"
  asked_of a original params = String.[]
