-- ===== src/Auth/Calls.antt =====
-- The calls of `OperatorAuth` in api/auth.py. A SELECT runs before the transaction of the writes that follow it, so a
-- call that reads takes two states: `seen`, which its SELECT reads, and the state on which its writes run.
use Prim.Native.Char.{Char, code}
use zero_trust_continuous_au.Base.{
  ℕ, ◌+◌, ◌*◌, String, Bool, true, not, ◌&&◌, ◌||◌, Option, none, some, List, [], ◌∷◌, ◌++◌, any,
  leb, str_eq, if◌then◌else◌, is_some, ◌==◌,
}
use zero_trust_continuous_au.Base.Table.{select, update_rows, delete_rows}
use zero_trust_continuous_au.Json.Text.{is_empty, text_length}
use zero_trust_continuous_au.Auth.Password.{password_hash, verify_password}
use zero_trust_continuous_au.Auth.{
  Role, find_role, User, Session, Accounts, Identity, identity_of, legacy_admin, Host, user_key,
  with_password, with_enabled, with_login, find_live, touch, wrong_password, bad_password,
  same_password, bad_username, unknown_role, taken, no_user, Done, password_changed, created,
  toggled, password_reset, revoked, failed, Login, refused, clash, granted, session_hours,
  count_sessions, drop_sessions,
}

-- One character of `[A-Za-z0-9_.@-]`.
abbrev pub is_safe_char : Char → Bool
is_safe_char c =
    (leb b'A' (code c) && leb (code c) b'Z')
    || (leb b'a' (code c) && leb (code c) b'z')
    || (leb b'0' (code c) && leb (code c) b'9')
    || (code c == b'_')
    || (code c == b'.')
    || (code c == b'@')
    || (code c == b'-')

unfoldable pub all_safe : String → Bool
all_safe String.[] = true
all_safe (String.◌∷◌ c s) = is_safe_char c && all_safe s

-- The pattern of a user name, with 3 to 64 characters.
unfoldable pub is_username : String → Bool
unfolding all_safe
is_username s = all_safe s && leb 3 (text_length s) && leb (text_length s) 64

module _ (host : Host) where
  -- The row that the SELECT gave, and the UPDATE of `last_used_at`.
  unfoldable pub identified : String → ℕ → Accounts → Option User → Accounts × Option Identity
  identified token now a none = (a, none)
  identified token now a (some u) = (
    record a { sessions = update_rows (touch (host.token_hash token) now) a.sessions },
    some (identity_of u),
  )

  -- `ZTA_ADMIN_TOKEN` is `legacy`; an empty text is no token.
  unfoldable pub identity : String → String → ℕ → Accounts → Accounts → Accounts × Option Identity
  unfolding find_live identified
  identity legacy token now seen a =
      if not (is_empty legacy) && not (is_empty token) && str_eq token legacy
      then (a, some legacy_admin)
      else if is_empty token
      then (a, none)
      else identified token now a (find_live (host.token_hash token) now seen.users seen.sessions)

  -- The SELECT of an enabled user by name.
  unfoldable pub find_login : String → List User → Option User
  find_login name [] = none
  find_login name (u ∷ us) =
      if host.same_name u.username name && u.enabled then some u else find_login name us

  abbrev pub hash_key : Session → String
  hash_key s = s.token_hash

  -- The INSERT, with the constraints of the table, and the UPDATE of the user.
  unfoldable pub open_session : User → String → String → ℕ → Accounts → Accounts × Login
  open_session u token session_id now a =
      let expires = now + 3600 * session_hours in
      if is_some (select hash_key (host.token_hash token) a.sessions)
        || not (is_some (select user_key u.user_id a.users))
      then (a, clash)
      else (
        record {
          users = update_rows (with_login u.user_id now) a.users;
          sessions =
              a.sessions
              ++ (record {
                session_id = session_id;
                user_id = u.user_id;
                token_hash = host.token_hash token;
                created_at = now;
                expires_at = expires;
                last_used_at = now;
              }
                  ∷ []);
        },
        granted token expires (identity_of u),
      )

  -- The part of `login` that reads: the user whose password it is. `name` is the stripped text.
  unfoldable pub login_read : String → String → Accounts → Option User
  unfolding find_login
  login_read name password seen = elim (find_login name seen.users) [
    | none ↦ none
    | some u ↦ if verify_password host.kdf password u.password_hash then some u else none
  ]

  -- `token` and `session_id` are fresh.
  unfoldable pub login :
      String → String → String → String → ℕ → Accounts → Accounts → Accounts × Login
  unfolding login_read open_session
  login name password token session_id now seen a = elim (login_read name password seen) [
    | none ↦ (a, refused)
    | some u ↦ open_session u token session_id now a
  ]

  unfoldable pub logout : String → Accounts → Accounts
  logout token a = if is_empty token then a else record a {
    sessions = delete_rows (λ s. str_eq s.token_hash (host.token_hash token)) a.sessions;
  }

  -- The sessions that a change of password ends: those of the user but for the current one.
  abbrev pub other_session : String → String → Session → Bool
  other_session user_id token s =
      str_eq s.user_id user_id && not (str_eq s.token_hash (host.token_hash token))

  abbrev pub enabled_only : Option User → Option User
  enabled_only none = none
  enabled_only (some u) = if u.enabled then some u else none

  unfoldable pub set_password :
      String → String → String → Option String → Accounts → Accounts × Done
  set_password user_id current token none a = (a, failed bad_password)
  set_password user_id current token (some hash) a =
      if verify_password host.kdf current hash then (a, failed same_password) else (
        record {
          users = update_rows (with_password user_id hash) a.users;
          sessions = delete_rows (other_session user_id token) a.sessions;
        },
        password_changed,
      )

  unfoldable pub change_password :
      String → String → String → String → String → Accounts → Accounts → Accounts × Done
  unfolding set_password
  change_password user_id current new token salt seen a =
      elim (enabled_only (select user_key user_id seen.users)) [
        | none ↦ (a, failed wrong_password)
        | some u ↦
            if verify_password host.kdf current u.password_hash
            then set_password user_id current token (password_hash host.kdf new salt) a
            else (a, failed wrong_password)
      ]

  abbrev pub name_taken : String → List User → Bool
  name_taken name us = any (λ u. host.same_name u.username name) us

  -- The INSERT, with the constraints of the table.
  unfoldable pub insert_user :
      String → String → Role → String → Option String → Accounts → Accounts × Done
  insert_user user_id name role actor none a = (a, failed bad_password)
  insert_user user_id name role actor (some hash) a =
      if name_taken name a.users || is_some (select user_key user_id a.users)
      then (a, failed taken)
      else (
        record a {
          users =
              a.users
              ++ (record {
                user_id = user_id;
                username = name;
                password_hash = hash;
                role = role;
                enabled = true;
                created_by = actor;
                last_login_at = none;
              }
                  ∷ []);
        },
        created user_id,
      )

  -- `name` is stripped and `role` in upper case; `user_id` is fresh.
  unfoldable pub create_user :
      String → String → String → String → String → String → Accounts → Accounts × Done
  unfolding is_username insert_user
  create_user name role password actor user_id salt a =
      if not (is_username name) then (a, failed bad_username) else elim (find_role role) [
        | none ↦ (a, failed unknown_role)
        | some r ↦ insert_user user_id name r actor (password_hash host.kdf password salt) a
      ]

  -- Without a wanted value the flag is flipped.
  abbrev pub or_flip : Option Bool → Bool → Bool
  or_flip none b = not b
  or_flip (some wanted) b = wanted

  unfoldable pub toggle_user_enabled : String → Option Bool → Accounts → Accounts → Accounts × Done
  toggle_user_enabled user_id enabled seen a = elim (select user_key user_id seen.users) [
    | none ↦ (a, failed no_user)
    | some u ↦
        let on = or_flip enabled u.enabled in
        let switched = record a { users = update_rows (with_enabled user_id on) a.users } in
        (if on then switched else drop_sessions user_id switched, toggled on)
  ]

  unfoldable pub reset_password : String → String → String → Accounts → Accounts → Accounts × Done
  reset_password user_id new salt seen a = elim (password_hash host.kdf new salt) [
    | none ↦ (a, failed bad_password)
    | some hash ↦ elim (select user_key user_id seen.users) [
      | none ↦ (a, failed no_user)
      | some u ↦ (
        drop_sessions user_id
            (record a { users = update_rows (with_password user_id hash) a.users }),
        password_reset,
      )
    ]
  ]

  unfoldable pub revoke_user_sessions : String → Accounts → Accounts → Accounts × Done
  unfolding count_sessions
  revoke_user_sessions user_id seen a = elim (select user_key user_id seen.users) [
    | none ↦ (a, failed no_user)
    | some u ↦ (drop_sessions user_id a, revoked (count_sessions user_id a.sessions))
  ]

  -- One call, with the values that it draws.
  pub data Call : Type 0 where
    identify : String → String → ℕ → Call
    log_in : String → String → String → String → ℕ → Call
    log_out : String → Call
    change : String → String → String → String → String → Call
    create : String → String → String → String → String → String → Call
    toggle : String → Option Bool → Call
    reset : String → String → String → Call
    revoke : String → Call

  -- `seen` is what the call reads; `log_out` and `create` read nothing.
  unfoldable pub call : Call → Accounts → Accounts → Accounts
  unfolding identity login logout change_password create_user toggle_user_enabled reset_password
      revoke_user_sessions
  call (identify legacy token now) seen a = (identity legacy token now seen a).0
  call (log_in name password token session_id now) seen a =
      (login name password token session_id now seen a).0
  call (log_out token) seen a = logout token a
  call (change user_id current new token salt) seen a =
      (change_password user_id current new token salt seen a).0
  call (create name role password actor user_id salt) seen a =
      (create_user name role password actor user_id salt a).0
  call (toggle user_id enabled) seen a = (toggle_user_enabled user_id enabled seen a).0
  call (reset user_id new salt) seen a = (reset_password user_id new salt seen a).0
  call (revoke user_id) seen a = (revoke_user_sessions user_id seen a).0
