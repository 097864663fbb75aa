-- ===== src/Correlation/Sound.antt =====
-- What a finding says of the event and the windows, and what one event changes of them.
use zero_trust_continuous_au.Base.{
  ℕ, ◌≡◌, ◌≤◌, refl, ◌∙◌, String, Bool, true, false, not, ◌&&◌, Option, none, some, List, [], ◌∷◌,
  ◌++◌, keep, any, length, leb, str_eq, Bool-cases, inl, inr, All, arith, if_intro, ◌⊎◌,
}
use zero_trust_continuous_au.Json.Text.{is_empty}
use zero_trust_continuous_au.Base.Dict.{Dict, get_or, insert, get_or-insert, get_or-insert_self}
use zero_trust_continuous_au.Correlation.{
  Event, Finding, Pattern, Windows, Login, failure, success, other, auth_sequence,
  powershell_network, login_kind, recent_failures, check_login, check_network, buffer_with,
  process_event, in_window, runs_powershell, network_finding,
}

append-All : (P : Finding → Type 0) (fs gs : List Finding) → All P fs → All P gs → All P (fs ++ gs)
append-All P [] gs a b = b
append-All P (x ∷ fs) gs (px, pxs) b = (px, append-All P fs gs pxs b)

module _ (lower : String → String) (window : ℕ) (e : Event) (w : Windows) where
  -- What the pattern of a finding claims.
  abbrev pub Claims : Pattern → ℕ → Type 0
  Claims (auth_sequence n user) risk =
      (login_kind lower e.rule ≡ success)
      × (n ≡ length (recent_failures lower window e w))
      × (3 ≤ n)
      × (risk ≡ 30)
  Claims (powershell_network ip) risk =
      (any (runs_powershell lower) (buffer_with window e w) ≡ true)
      × (e.destination_ip ≡ some ip)
      × (risk ≡ 35)

  abbrev pub IsSound : Finding → Type 0
  IsSound f =
      Claims f.pattern f.risk_delta × (f.agent_id ≡ e.agent_id) × (f.timestamp ≡ e.timestamp)

  check_login-IsSound :
      (bs : Dict (List Event)) (kind : Login)
      → login_kind lower e.rule ≡ kind
      → All IsSound (check_login lower window e (record w { buffers = bs }) kind).1
  unfolding check_login recent_failures
  check_login-IsSound bs failure h = tt
  check_login-IsSound bs other h = tt
  check_login-IsSound bs success h =
      if_intro (λ (r : Windows × List Finding). All IsSound r.1)
        (leb 3 (length (recent_failures lower window e w)))
        (λ enough. (((h, refl, ground arith, refl), refl, refl), tt)) (λ _. tt)

  network_finding-IsSound :
      (seen : Bool) (o : Option String)
      → (seen ≡ true → any (runs_powershell lower) (buffer_with window e w) ≡ true)
      → e.destination_ip ≡ o
      → All IsSound (network_finding lower e seen o)
  unfolding network_finding
  network_finding-IsSound seen none shell h = tt
  network_finding-IsSound seen (some ip) shell h =
      if_intro (All IsSound) (seen && not (is_empty ip))
        (λ both. (((shell (ground arith), h, refl), refl, refl), tt)) (λ _. tt)

  -- Every finding of an event is of its agent and time. One of the authentication rule comes with a
  -- successful login and counts the at least three failures in the window, with risk 30; one of the other rule comes with PowerShell in
  -- the agent's window and the destination of the event, with risk 35.
  pub process_event-IsSound : All IsSound (process_event lower window e w).1
  unfolding process_event check_network
  process_event-IsSound =
      let buffered = record w { buffers = insert e.agent_id (buffer_with window e w) w.buffers } in
      append-All IsSound (check_login lower window e buffered (login_kind lower e.rule)).1 _
        (check_login-IsSound buffered.buffers (login_kind lower e.rule) refl)
        (network_finding-IsSound _ e.destination_ip (λ both. ground arith) refl)

keep-All : (p : Event → Bool) (es : List Event) → All (λ x. p x ≡ true) (keep p es)
keep-All p [] = tt
keep-All p (x ∷ xs) = go (p x) refl (keep-All p xs)
  where
    go :
        (b : Bool)
        → p x ≡ b
        → All (λ y. p y ≡ true) (keep p xs)
        → All (λ y. p y ≡ true) (elim b [ true ↦ x ∷ keep p xs | false ↦ keep p xs ])
    go true h hs = (h, hs)
    go false h hs = hs

check_login-buffers :
    (lower : String → String) (window : ℕ) (e : Event) (w : Windows) (kind : Login)
    → (check_login lower window e w kind).0.buffers ≡ w.buffers
unfolding check_login
check_login-buffers lower window e w failure = refl
check_login-buffers lower window e w other = refl
check_login-buffers lower window e w success =
    if_intro (λ (r : Windows × List Finding). r.0.buffers ≡ w.buffers)
      (leb 3 (length (recent_failures lower window e w))) (λ _. refl) (λ _. refl)

-- After an event, its agent's buffer has only events from the window before it, and the buffers of other
-- agents are as they were.
pub process_event_buffers :
    (lower : String → String) (window : ℕ) (e : Event) (w : Windows)
    → let w' = (process_event lower window e w).0 in
      All (λ x. in_window window e.timestamp x.timestamp ≡ true) (get_or e.agent_id [] w'.buffers)
      × ((b : String)
          → (str_eq e.agent_id b ≡ true) ⊎ (get_or b [] w'.buffers ≡ get_or b [] w.buffers))
unfolding process_event buffer_with
process_event_buffers lower window e w =
    let buffer = buffer_with window e w in
    let buffered = record w { buffers = insert e.agent_id buffer w.buffers } in
    rw (check_login-buffers lower window e buffered (login_kind lower e.rule)) (
      rw (get_or-insert_self e.agent_id [] buffer w.buffers)
          (keep-All (λ x. in_window window e.timestamp x.timestamp) _),
      λ b. elim (Bool-cases (str_eq e.agent_id b)) [
        | inl same ↦ inl same
        | inr off ↦ inr (get_or-insert e.agent_id b [] buffer w.buffers ∙ rw (off) refl)
      ],
    )
