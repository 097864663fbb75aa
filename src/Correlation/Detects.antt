-- ===== src/Correlation/Detects.antt =====
-- Failed logins that are followed by a successful one are found.
use zero_trust_continuous_au.Base.{
  ℕ, ◌≡◌, ◌≤◌, refl, sym, ap, ◌∙◌, String, Bool, true, false, ◌&&◌, List, [], ◌∷◌, ◌++◌, keep,
  length, length-append, leb, str_eq, eq_iff, if◌then◌else◌, Bool-cases, inl, inr, All, arith,
  if_intro,
}
use zero_trust_continuous_au.Base.Dict.{get_or, insert, get_or-insert, get_or-insert_self}
use zero_trust_continuous_au.Correlation.{
  Event, Finding, Windows, Login, failure, success, other, auth_sequence, login_key, login_kind,
  recent_failures, check_login, check_network, buffer_with, process_event, process_all, in_window,
}

keep-append : (p : ℕ → Bool) (xs ys : List ℕ) → keep p (xs ++ ys) ≡ keep p xs ++ keep p ys
keep-append p [] ys = refl
keep-append p (x ∷ xs) ys = go (p x) (keep-append p xs ys)
  where
    go :
        (b : Bool)
        → keep p (xs ++ ys) ≡ keep p xs ++ keep p ys
        → elim b [ true ↦ x ∷ keep p (xs ++ ys) | false ↦ keep p (xs ++ ys) ]
          ≡ elim b [ true ↦ x ∷ keep p xs | false ↦ keep p xs ] ++ keep p ys
    go true h = ap (λ l. x ∷ l) h
    go false h = h

append-nil : (xs : List ℕ) → xs ++ [] ≡ xs
append-nil [] = refl
append-nil (x ∷ xs) = ap (λ l. x ∷ l) (append-nil xs)

append-none : (b : Bool) (xs : List ℕ) → xs ≡ xs ++ (if b then [] else [])
append-none true xs = sym (append-nil xs)
append-none false xs = sym (append-nil xs)

append_assoc : (xs ys zs : List ℕ) → (xs ++ ys) ++ zs ≡ xs ++ (ys ++ zs)
append_assoc [] ys zs = refl
append_assoc (x ∷ xs) ys zs = ap (λ l. x ∷ l) (append_assoc xs ys zs)

abbrev failure_time : Login → Event → List ℕ
failure_time failure e = e.timestamp ∷ []
failure_time kind e = []

abbrev pub is_success : Login → Bool
is_success success = true
is_success kind = false

module _ (lower : String → String) (window : ℕ) (k : String) where
  -- The times of the failed logins under a key.
  unfoldable pub failures_of : List Event → List ℕ
  failures_of [] = []
  failures_of (e ∷ es) =
      (if str_eq (login_key e) k then failure_time (login_kind lower e.rule) e else [])
      ++ failures_of es

  -- The event is no successful login under the key.
  abbrev pub NoSuccess : Event → Type 0
  NoSuccess e = (str_eq (login_key e) k && is_success (login_kind lower e.rule)) ≡ false

  check_login-failures :
      (e : Event) (w : Windows) (kind : Login)
      → (str_eq (login_key e) k && is_success kind) ≡ false
      → get_or k [] (check_login lower window e w kind).0.failed_logins
        ≡ get_or k [] w.failed_logins
          ++ (if str_eq (login_key e) k then failure_time kind e else [])
  unfolding check_login
  check_login-failures e w failure h =
      rw get_or-insert (elim (Bool-cases (str_eq (login_key e) k)) [
        | inl same ↦ rw (same) (
            ap (λ j. get_or j [] w.failed_logins ++ (e.timestamp ∷ []))
              (ground (arith, eq_iff (login_key e) k)))
        | inr off ↦ rw (off) (sym (append-nil _))
      ])
  check_login-failures e w success h =
      let off : str_eq (login_key e) k ≡ false = ground arith in
      let P = λ (r : Windows × List Finding).
        get_or k [] r.0.failed_logins
        ≡ get_or k [] w.failed_logins ++ (if str_eq (login_key e) k then [] else []) in
      if_intro P (leb 3 (length (recent_failures lower window e w)))
        (λ _. rw get_or-insert (rw (off) (append-none false (get_or k [] w.failed_logins))))
        (λ _. append-none (str_eq (login_key e) k) (get_or k [] w.failed_logins))
  check_login-failures e w other h =
      append-none (str_eq (login_key e) k) (get_or k [] w.failed_logins)

  -- Without a successful login under the key, the table gathers the failures.
  process_all-failures :
      (es : List Event) (w : Windows)
      → All NoSuccess es
      → get_or k [] (process_all lower window es w).failed_logins
        ≡ get_or k [] w.failed_logins ++ failures_of es
  unfolding process_all process_event failures_of
  process_all-failures [] w h = sym (append-nil _)
  process_all-failures (e ∷ es) w h =
      let buffered = record w { buffers = insert e.agent_id (buffer_with window e w) w.buffers } in
      let here = if str_eq (login_key e) k then failure_time (login_kind lower e.rule) e else [] in
      process_all-failures es (process_event lower window e w).0 h.1
      ∙ ap (λ l. l ++ failures_of es)
          (check_login-failures e buffered (login_kind lower e.rule) h.0)
      ∙ append_assoc (get_or k [] w.failed_logins) here (failures_of es)

-- Rule 1 on a successful login with at least three recent failures.
detect :
    (lower : String → String) (window : ℕ) (e : Event) (w : Windows)
    → 3 ≤ length (recent_failures lower window e w)
    → (n : ℕ) × (3 ≤ n)
      × ((check_login lower window e w success).1
          ≡ record {
            pattern = auth_sequence n e.user_name;
            agent_id = e.agent_id;
            risk_delta = 30;
            matched = e;
            timestamp = e.timestamp;
          }
            ∷ [])
      × (get_or (login_key e) [] (check_login lower window e w success).0.failed_logins ≡ [])
unfolding check_login
detect lower window e w many =
    let enough : leb 3 (length (recent_failures lower window e w)) ≡ true = ground arith in
    (
      length (recent_failures lower window e w),
      many,
      rw (enough) refl,
      rw (enough) (get_or-insert_self (login_key e) [] [] w.failed_logins),
    )

module _ (lower : String → String) (window : ℕ) where
  -- Whatever the engine has seen before: if at least three failed logins with the login key of a successful
  -- one lie in the window before it, other events may stand between them but no successful login with this
  -- key, then the successful login gives a finding of risk 30 that counts at least three failures, and the
  -- failures under the key are cleared.
  pub process_event_detects :
      (es : List Event) (s : Event) (w : Windows)
      → login_kind lower s.rule ≡ success
      → All (NoSuccess lower window (login_key s)) es
      → 3 ≤ length (keep (in_window window s.timestamp) (failures_of lower window (login_key s) es))
      → (n : ℕ) × (rest : List Finding) × (3 ≤ n)
        × ((process_event lower window s (process_all lower window es w)).1
            ≡ record {
              pattern = auth_sequence n s.user_name;
              agent_id = s.agent_id;
              risk_delta = 30;
              matched = s;
              timestamp = s.timestamp;
            }
              ∷ rest)
        × (get_or
              (login_key s)
              []
              (process_event lower window s (process_all lower window es w)).0.failed_logins
            ≡ [])
  unfolding process_event recent_failures
  process_event_detects es s w kind quiet many =
      let k = login_key s in
      let seen = process_all lower window es w in
      let buffer = buffer_with window s seen in
      let buffered = record seen { buffers = insert s.agent_id buffer seen.buffers } in
      let gathered = process_all-failures lower window k es w quiet in
      let test = in_window window s.timestamp in
      let split =
        ap (keep test) gathered
        ∙ keep-append test (get_or k [] w.failed_logins) (failures_of lower window k es) in
      let enough : 3 ≤ length (recent_failures lower window s buffered) = rw (split) (
        omega (
          arith,
          many,
          length-append (keep test (get_or k [] w.failed_logins))
              (keep test (failures_of lower window k es)),
        )) in
      let (n, many_n, found, cleared) = detect lower window s buffered enough in
      (
        n,
        check_network lower s buffer,
        many_n,
        rw (kind) (ap (λ l. l ++ check_network lower s buffer) found),
        rw (kind) cleared,
      )
