-- ===== src/Auth/Kept.antt =====
-- The invariant of the accounts under the calls that change users or end sessions, and under interleaved calls.
use zero_trust_continuous_au.Base.{
  String, ◌≡◌, ◌++◌, refl, ap, ◌∙◌, true, false, not, ◌||◌, Option, none, some, List, [], ◌∷◌,
  str_eq, is_some, Option-cases, inl, inr, if_intro, arith,
}
use zero_trust_continuous_au.Base.Table.{
  select, update_rows, select-append, append-Distinct, weaken_rows,
}
use zero_trust_continuous_au.Json.Text.{is_empty}
use zero_trust_continuous_au.Auth.Password.{password_hash, verify_password}
use zero_trust_continuous_au.Auth.{
  Role, find_role, User, Accounts, Host, user_key, session_of, with_password, Done,
}
use zero_trust_continuous_au.Auth.Backed.{
  is_enabled, Backed, Welcome, IsValid, keep_users_allowed, keep_fewer, with_password-IsValid,
}
use zero_trust_continuous_au.Auth.Logged.{identity-IsValid, login-IsValid}
use zero_trust_continuous_au.Auth.Calls.{
  is_username, logout, other_session, enabled_only, set_password, change_password, name_taken,
  insert_user, create_user, reset_password, revoke_user_sessions, Call, identify, log_in, log_out,
  change, create, toggle, reset, revoke, call,
}
use zero_trust_continuous_au.Auth.Switched.{toggle-IsValid}
use zero_trust_continuous_au.Auth.Steps.{OpenCall, entering, Undisturbed}

module _ (host : Host) (opens : List (OpenCall host)) where
  logout-IsValid :
      (token : String) (a : Accounts)
      → IsValid host opens a
      → IsValid host opens (logout host token a)
  unfolding logout
  logout-IsValid token a v =
      if_intro (IsValid host opens) (is_empty token) (λ _. v)
        (λ _. keep_fewer host (λ s. str_eq s.token_hash (host.token_hash token)) opens a v)

  set_password-IsValid :
      (k current token : String) (o : Option String) (a : Accounts)
      → IsValid host opens a
      → IsValid host opens (set_password host k current token o a).0
  unfolding set_password
  set_password-IsValid k current token none a v = v
  set_password-IsValid k current token (some hash) a v =
      if_intro (λ (r : Accounts × Done). IsValid host opens r.0)
        (verify_password host.kdf current hash) (λ _. v)
        (λ _.
          keep_fewer host (other_session host k token) opens
            (record a { users = update_rows (with_password k hash) a.users })
            (with_password-IsValid host k hash opens a v))

  change_password-IsValid :
      (k current new token salt : String) (seen a : Accounts)
      → IsValid host opens a
      → IsValid host opens (change_password host k current new token salt seen a).0
  change_password-IsValid k current new token salt seen a v =
      elim (Option-cases (enabled_only host (select user_key k seen.users))) [
        | inl missing ↦ unfold change_password in rw (missing, change_password) v
        | inr (u, hit) ↦
            unfold change_password in
            rw (hit, change_password)
              (if_intro (λ (r : Accounts × Done). IsValid host opens r.0)
                (verify_password host.kdf current u.password_hash)
                (λ _. set_password-IsValid k current token (password_hash host.kdf new salt) a v)
                (λ _. v))
      ]

  insert_user-IsValid :
      (k name : String) (role : Role) (actor : String) (o : Option String) (a : Accounts)
      → IsValid host opens a
      → IsValid host opens (insert_user host k name role actor o a).0
  unfolding insert_user
  insert_user-IsValid k name role actor none a v = v
  insert_user-IsValid k name role actor (some hash) a v =
      if_intro (λ (r : Accounts × Done). IsValid host opens r.0)
        (name_taken host name a.users || is_some (select user_key k a.users)) (λ _. v)
        λ new. record {
          users =
              append-Distinct user_key a.users _
                (not_found (select user_key k a.users) (ground arith)) v.users;
          hashes = v.hashes;
          backed =
              weaken_rows (Backed a.users) (Backed _) (λ s b. later s.user_id _ b) a.sessions
                v.backed;
          welcome = keep_users_allowed host opens a.users _ (λ i b. later i _ b) v.welcome;
        }
    where
      not_found : (o : Option User) → is_some o ≡ false → o ≡ none
      not_found none h = refl
      not_found (some s) h = absurd (cc h)

      still :
          (o p : Option User)
          → is_enabled o ≡ true
          → is_enabled (elim o [ some x ↦ some x | none ↦ p ]) ≡ true
      still none p h = absurd (cc h)
      still (some u) p h = h

      later :
          (i : String) (x : User)
          → is_enabled (select user_key i a.users) ≡ true
          → is_enabled (select user_key i (a.users ++ (x ∷ []))) ≡ true
      later i x b =
          ap is_enabled (select-append user_key i a.users x) ∙ still (select user_key i a.users) _ b

  create_user-IsValid :
      (name role password actor k salt : String) (a : Accounts)
      → IsValid host opens a
      → IsValid host opens (create_user host name role password actor k salt a).0
  create_user-IsValid name role password actor k salt a v = elim (Option-cases (find_role role)) [
    | inl missing ↦
        unfold create_user in
        rw (missing, create_user)
          (if_intro (λ (r : Accounts × Done). IsValid host opens r.0) (not (is_username name))
            (λ _. v) (λ _. v))
    | inr (r, hit) ↦
        unfold create_user in
        rw (hit, create_user)
          (if_intro (λ (x : Accounts × Done). IsValid host opens x.0) (not (is_username name))
            (λ _. v)
            (λ _. insert_user-IsValid k name r actor (password_hash host.kdf password salt) a v))
  ]

  reset_password-IsValid :
      (k new salt : String) (seen a : Accounts)
      → IsValid host opens a
      → IsValid host opens (reset_password host k new salt seen a).0
  reset_password-IsValid k new salt seen a v =
      elim (Option-cases (password_hash host.kdf new salt)) [
        | inl bad ↦ unfold reset_password in rw (bad, reset_password) v
        | inr (hash, good) ↦ elim (Option-cases (select user_key k seen.users)) [
          | inl missing ↦ unfold reset_password in rw (good, missing, reset_password) v
          | inr (u, hit) ↦
              unfold reset_password in
              rw (good, hit, reset_password)
                (keep_fewer host (session_of k) opens
                  (record a { users = update_rows (with_password k hash) a.users })
                  (with_password-IsValid host k hash opens a v))
        ]
      ]

  revoke-IsValid :
      (k : String) (seen a : Accounts)
      → IsValid host opens a
      → IsValid host opens (revoke_user_sessions host k seen a).0
  revoke-IsValid k seen a v = elim (Option-cases (select user_key k seen.users)) [
    | inl missing ↦ unfold revoke_user_sessions in rw (missing, revoke_user_sessions) v
    | inr (u, hit) ↦
        unfold revoke_user_sessions in
        rw (hit, revoke_user_sessions) (keep_fewer host (session_of k) opens a v)
  ]

  -- The writes of a call that read before.
  pub call-IsValid :
      (c : Call host) (seen a : Accounts)
      → Welcome host a.users (record { request = c; seen = seen })
      → Undisturbed host c seen a opens
      → IsValid host opens a
      → IsValid host opens (call host c seen a)
  unfolding call entering
  call-IsValid (identify legacy token now) seen a on calm v =
      identity-IsValid host legacy token now opens seen a v
  call-IsValid (log_in name password token session_id now) seen a on calm v =
      login-IsValid host name password token session_id now opens seen a on v
  call-IsValid (log_out token) seen a on calm v = logout-IsValid token a v
  call-IsValid (change k current new token salt) seen a on calm v =
      change_password-IsValid k current new token salt seen a v
  call-IsValid (create name role password actor k salt) seen a on calm v =
      create_user-IsValid name role password actor k salt a v
  call-IsValid (toggle k enabled) seen a on calm v =
      toggle-IsValid host opens k enabled seen a calm v
  call-IsValid (reset k new salt) seen a on calm v = reset_password-IsValid k new salt seen a v
  call-IsValid (revoke k) seen a on calm v = revoke-IsValid k seen a v
