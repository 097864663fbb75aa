-- ===== src/Auth/Logged.antt =====
-- The invariant of the accounts under the calls that log in and identify.
use mathlib.Core.Path.{subst}
use zero_trust_continuous_au.Base.{
  ℕ, String, ◌≡◌, refl, sym, ap, ◌∙◌, true, false, not, ◌&&◌, ◌||◌, guarded, Option, none, some,
  List, [], ◌∷◌, str_eq, if◌then◌else◌, is_some, Bool-cases, Option-cases, inl, inr, if_intro, All,
  arith,
}
use zero_trust_continuous_au.Base.Table.{
  select, update_rows, Distinct, select-update_rows, update_rows-Distinct, append-Distinct,
  Distinct-select, update_rows-All, append_row-All,
}
use zero_trust_continuous_au.Json.Text.{is_empty}
use zero_trust_continuous_au.Auth.Password.{verify_password}
use zero_trust_continuous_au.Auth.{
  User, Session, Accounts, Identity, Host, user_key, with_login, find_live, touch, Login,
}
use zero_trust_continuous_au.Auth.Calls.{
  identified, identity, find_login, hash_key, open_session, login_read, login, Call, log_in,
}
use zero_trust_continuous_au.Auth.Steps.{OpenCall, entering}
use zero_trust_continuous_au.Auth.Backed.{
  is_enabled, Backed, still_on, Welcome, IsValid, keep_users,
}

module _ (host : Host) where
  identified-IsValid :
      (token : String) (now : ℕ) (opens : List (OpenCall host)) (a : Accounts) (o : Option User)
      → IsValid host opens a
      → IsValid host opens (identified host token now a o).0
  unfolding identified
  identified-IsValid token now opens a none v = v
  identified-IsValid token now opens a (some u) v = record {
    users = v.users;
    hashes =
        update_rows-Distinct (hash_key host) (touch (host.token_hash token) now)
          (λ s.
            if_intro (λ (x : Session). x.token_hash ≡ s.token_hash)
              (str_eq s.token_hash (host.token_hash token)) (λ _. refl) (λ _. refl))
          a.sessions v.hashes;
    backed =
        update_rows-All (Backed a.users) (Backed a.users) (touch (host.token_hash token) now)
          (λ s b.
            if_intro (Backed a.users) (str_eq s.token_hash (host.token_hash token)) (λ _. b)
              (λ _. b))
          a.sessions v.backed;
    welcome = v.welcome;
  }

  pub identity-IsValid :
      (legacy token : String) (now : ℕ) (opens : List (OpenCall host)) (seen a : Accounts)
      → IsValid host opens a
      → IsValid host opens (identity host legacy token now seen a).0
  unfolding identity
  identity-IsValid legacy token now opens seen a v =
      let P = λ (r : Accounts × Option Identity). IsValid host opens r.0 in
      if_intro P (not (is_empty legacy) && not (is_empty token) && str_eq token legacy) (λ _. v)
        λ _.
          if_intro P (is_empty token) (λ _. v)
            λ _.
              identified-IsValid token now opens a
                (find_live (host.token_hash token) now seen.users seen.sessions) v

  -- The user whose log-in is tried is enabled and found by its id.
  find_login-All :
      (P : User → Type 0) (name : String) (us : List User) (u : User)
      → All P us
      → find_login host name us ≡ some u
      → P u × (u.enabled ≡ true)
  unfolding find_login
  find_login-All P name [] u ps h = absurd (cc h)
  find_login-All P name (x ∷ us) u ps h =
      elim (Bool-cases (host.same_name x.username name && x.enabled)) [
        | inl hit ↦
            let same : some x ≡ some u =
              ap (λ b. if b then some x else find_login host name us) (sym hit) ∙ h in
            subst Q same (ps.0, ground arith)
        | inr miss ↦
            find_login-All P name us u ps.1
              (ap (λ b. if b then some x else find_login host name us) (sym miss) ∙ h)
      ]
    where
      Q : Option User → Type 0
      Q none = Unit
      Q (some y) = P y × (y.enabled ≡ true)

  login_read-is_enabled :
      (name password : String) (a : Accounts) (u : User)
      → Distinct user_key a.users
      → login_read host name password a ≡ some u
      → is_enabled (select user_key u.user_id a.users) ≡ true
  unfolding login_read
  login_read-is_enabled name password a u ids h =
      elim (Option-cases (find_login host name a.users)) [
        | inl missing ↦ absurd (cc (rw (missing, login_read) at h))
        | inr (x, hit) ↦
            let (found, on) =
              find_login-All (λ r. select user_key r.user_id a.users ≡ some r) name a.users x
                (Distinct-select user_key a.users ids) hit in
            let (_, same) =
              guarded (verify_password host.kdf password x.password_hash) x u
                (rw (hit, login_read) at h) in
            subst OnOption same (ap is_enabled found ∙ on)
      ]
    where
      OnOption : Option User → Type 0
      OnOption none = Unit
      OnOption (some y) = is_enabled (select user_key y.user_id a.users) ≡ true

  -- A log-in that has just read is of an enabled user.
  pub entering-Welcome :
      (c : Call host) (a : Accounts)
      → Distinct user_key a.users
      → Welcome host a.users (record { request = c; seen = a })
  unfolding entering
  entering-Welcome (log_in name password token session_id now) a ids u h =
      login_read-is_enabled name password a u ids h
  entering-Welcome c a ids u h = absurd (cc h)

  open_session-IsValid :
      (u : User) (token session_id : String) (now : ℕ) (opens : List (OpenCall host)) (a : Accounts)
      → is_enabled (select user_key u.user_id a.users) ≡ true
      → IsValid host opens a
      → IsValid host opens (open_session host u token session_id now a).0
  unfolding open_session
  open_session-IsValid u token session_id now opens a on v =
      if_intro (λ (r : Accounts × Login). IsValid host opens r.0)
        (is_some (select (hash_key host) (host.token_hash token) a.sessions)
          || not (is_some (select user_key u.user_id a.users)))
        (λ _. v)
        λ new.
          let stamped = keep_users host (with_login u.user_id now) opens a stamp_keeps stamp_on v in
          let users' = update_rows (with_login u.user_id now) a.users in
          record {
            users = stamped.users;
            hashes =
                append-Distinct (hash_key host) a.sessions _
                  (not_found (select (hash_key host) (host.token_hash token) a.sessions)
                    (ground arith))
                  v.hashes;
            backed = append_row-All (Backed users') a.sessions _ stamped.backed (
                ap is_enabled (
                  select-update_rows user_key (with_login u.user_id now) stamp_keeps u.user_id
                    a.users)
                ∙ still_on (with_login u.user_id now) (select user_key u.user_id a.users) stamp_on
                    on);
            welcome = stamped.welcome;
          }
    where
      stamp_keeps : (x : User) → user_key (with_login u.user_id now x) ≡ user_key x
      stamp_keeps x =
          if_intro (λ y. user_key y ≡ user_key x) (str_eq x.user_id u.user_id) (λ _. refl)
            (λ _. refl)

      stamp_on : (x : User) → x.enabled ≡ true → (with_login u.user_id now x).enabled ≡ true
      stamp_on x h =
          if_intro (λ (y : User). y.enabled ≡ true) (str_eq x.user_id u.user_id) (λ _. h) (λ _. h)

      not_found : (o : Option Session) → is_some o ≡ false → o ≡ none
      not_found none h = refl
      not_found (some s) h = absurd (cc h)

  -- A log-in that read in another state, where its user is still enabled.
  pub login-IsValid :
      (name password token session_id : String) (now : ℕ) (opens : List (OpenCall host))
      (seen a : Accounts)
      → ((u : User)
          → login_read host name password seen ≡ some u
          → is_enabled (select user_key u.user_id a.users) ≡ true)
      → IsValid host opens a
      → IsValid host opens (login host name password token session_id now seen a).0
  login-IsValid name password token session_id now opens seen a on v =
      elim (Option-cases (login_read host name password seen)) [
        | inl missing ↦ unfold login in rw (missing, login) v
        | inr (u, hit) ↦
            unfold login in
            rw (hit, login) (open_session-IsValid u token session_id now opens a (on u hit) v)
      ]
