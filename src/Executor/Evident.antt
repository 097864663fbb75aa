-- ===== src/Executor/Evident.antt =====
-- A script that is reported as successful ended with exit code 0 and printed its marker.
use zero_trust_continuous_au.Base.{
  String, ◌≡◌, ◌≢◌, refl, sym, ap, ◌∙◌, ◌⊎◌, Bool, true, false, Option, none, some, List, [], ◌∷◌,
  str_eq, eq_iff, Bool-cases, inl, inr, arith,
}
use zero_trust_continuous_au.Base.Int.{ℤ, pos, eqb_ℤ}
use zero_trust_continuous_au.Json.Text.{occurs_in}
use zero_trust_continuous_au.Executor.{
  Action, kill_process, network_isolation, local_account_control, System, PsResult,
}
use zero_trust_continuous_au.Executor.Proves.{is_one_of, judge-Proved-account}
use zero_trust_continuous_au.Executor.Run.{judge}
use zero_trust_continuous_au.Executor.Outcomes.{
  account_markers, network_marker, first_marker, is_found, marker_or,
}

-- The actions whose script prints a marker.
abbrev pub prints_marker : Action → Bool
prints_marker kill_process = true
prints_marker local_account_control = true
prints_marker network_isolation = true
prints_marker a = false

-- What the first marker that is found says of the output.
first_marker-occurs_in :
    (ms : List String) (stdout m : String)
    → first_marker ms stdout ≡ some m
    → occurs_in m stdout ≡ true
unfolding first_marker
first_marker-occurs_in [] stdout m h = absurd (cc h)
first_marker-occurs_in (x ∷ ms) stdout m h = elim (Bool-cases (occurs_in x stdout)) [
  | inl here ↦
      let same : some x ≡ some m = rw (here) at h in
      let is_m : x ≡ m = ground arith in ap (λ y. occurs_in y stdout) (sym is_m) ∙ here
  | inr later ↦ first_marker-occurs_in ms stdout m (rw (later) at h)
]

-- Without a request to undo, the script for the network says that the endpoint is isolated.
network_marker-isolated :
    (asked : String) → asked ≢ "UNISOLATE" → network_marker asked ≡ "ISOLATION_VERIFIED"
network_marker-isolated asked ne = elim (Bool-cases (str_eq asked "UNISOLATE")) [
  | inl same ↦ absurd (ne ((eq_iff asked "UNISOLATE").0 same))
  | inr other ↦ rw (other) refl
]

unlock_marker :
    (m : String)
    → is_one_of (account_markers "UNLOCK") (some m) ≡ true
    → (m ≡ "LOCAL_ACCOUNT_ENABLED") ⊎ (m ≡ "LOCAL_ACCOUNT_RESTORED_DISABLED")
unlock_marker m h = elim (Bool-cases (str_eq "LOCAL_ACCOUNT_ENABLED" m)) [
  | inl same ↦ inl (sym ((eq_iff "LOCAL_ACCOUNT_ENABLED" m).0 same))
  | inr other ↦ inr (ground (arith, eq_iff "LOCAL_ACCOUNT_RESTORED_DISABLED" m, rw (other) at h))
]

lock_marker :
    (asked m : String)
    → asked ≢ "UNLOCK"
    → is_one_of (account_markers asked) (some m) ≡ true
    → m ≡ "LOCAL_ACCOUNT_DISABLED"
lock_marker asked m ne h = elim (Bool-cases (str_eq asked "UNLOCK")) [
  | inl same ↦ absurd (ne ((eq_iff asked "UNLOCK").0 same))
  | inr other ↦ ground (arith, eq_iff "LOCAL_ACCOUNT_DISABLED" m, rw (other) at h)
]

module _ (system : System) where
  -- The text that the action asked for prints.
  abbrev pub Marks : Action → String → String → Type 0
  Marks kill_process asked m = m ≡ "PROCESS_NOT_ACTIVE"
  Marks network_isolation asked m =
      (asked ≡ "UNISOLATE" → m ≡ "UNISOLATION_VERIFIED")
      × (asked ≢ "UNISOLATE" → m ≡ "ISOLATION_VERIFIED")
  Marks local_account_control asked m =
      (asked ≡ "UNLOCK" → (m ≡ "LOCAL_ACCOUNT_ENABLED") ⊎ (m ≡ "LOCAL_ACCOUNT_RESTORED_DISABLED"))
      × (asked ≢ "UNLOCK" → m ≡ "LOCAL_ACCOUNT_DISABLED")
  Marks a asked m = ⊥

  -- Where the text is in the output: for a process it is all of the output but for blanks around it.
  abbrev pub Printed : Action → String → String → Type 0
  Printed kill_process m stdout = system.strip stdout ≡ m
  Printed a m stdout = occurs_in m stdout ≡ true

  -- The exit code is 0, and the text that is reported as the verification proves the action and was printed.
  abbrev pub Evident : Action → String → ℤ → String → PsResult → Type 0
  Evident a asked code stdout r =
      (eqb_ℤ code (pos 0) ≡ true)
      × ((m : String) × (r.verification ≡ some m) × Marks a asked m × Printed a m stdout)

  found_marker :
      (asked stdout : String) (o : Option String)
      → first_marker (account_markers asked) stdout ≡ o
      → is_found o ≡ true
      → (m : String) × (marker_or "ACCOUNT_STATE_UNVERIFIED" o ≡ m) × (occurs_in m stdout ≡ true)
  found_marker asked stdout none h found = absurd (cc found)
  found_marker asked stdout (some m) h found =
      (m, refl, first_marker-occurs_in (account_markers asked) stdout m h)

  -- A success that is reported of the script for a process, an account or the network comes from exit code 0, and
  -- the output contains the text that is reported as the verification: ISOLATION_VERIFIED or, where asked to
  -- undo it, UNISOLATION_VERIFIED for the network, LOCAL_ACCOUNT_DISABLED or the texts of an unlocked account
  -- for an account; for a process it is PROCESS_NOT_ACTIVE, and the stripped output is that text and nothing else.
  pub judge-Evident :
      (a : Action) (asked : String) (code : ℤ) (stdout stderr : String)
      → prints_marker a ≡ true
      → (judge system a asked code stdout stderr).success ≡ true
      → Evident a asked code stdout (judge system a asked code stdout stderr)
  unfolding judge
  judge-Evident kill_process asked code stdout stderr which good = (
    ground arith,
    (
      "PROCESS_NOT_ACTIVE",
      rw (good) refl,
      refl,
      ((eq_iff (system.strip stdout) "PROCESS_NOT_ACTIVE").0 (ground arith)),
    ),
  )
  judge-Evident network_isolation asked code stdout stderr which good = (
    ground arith,
    (
      network_marker asked,
      rw (good) refl,
      ((λ is. ap network_marker is), (λ ne. network_marker-isolated asked ne)),
      ground arith,
    ),
  )
  judge-Evident local_account_control asked code stdout stderr which good =
      let (m, is_m, printed) =
        found_marker asked stdout (first_marker (account_markers asked) stdout) refl
          (ground arith) in
      (
        ground arith,
        (
          m,
          ap some is_m,
          let marks : is_one_of (account_markers asked) (some m) ≡ true =
                ap (λ x. is_one_of (account_markers asked) (some x)) (sym is_m)
                ∙ judge-Proved-account system asked code stdout stderr good in
              (
                (λ is.
                    unlock_marker m
                      (ap (λ x. is_one_of (account_markers x) (some m)) (sym is) ∙ marks)),
                (λ ne. lock_marker asked m ne marks),
              ),
          printed,
        ),
      )
  judge-Evident a asked code stdout stderr which good = absurd (cc which)
