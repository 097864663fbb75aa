-- ===== src/Auth/Revoked.antt =====
-- Who is let in by a token: after a log-in, and after sessions were ended.
use zero_trust_continuous_au.Base.{
  ℕ, String, ◌≡◌, ◌≢◌, refl, sym, ap, ◌∙◌, Bool, true, false, Option, none, some, List, [], ◌∷◌,
  str_eq, eq_iff, Bool-cases, Option-cases, inl, inr, All, arith,
}
use zero_trust_continuous_au.Base.Table.{
  select, update_rows, delete_rows, select-key, delete_rows-All,
}
use zero_trust_continuous_au.Json.Text.{is_empty}
use zero_trust_continuous_au.Auth.Password.{password_hash, verify_password}
use zero_trust_continuous_au.Auth.{
  User, Session, Accounts, Identity, identity_of, Host, user_key, session_of, with_password,
  with_enabled, live_user, find_live, password_changed, toggled, password_reset, revoked,
  drop_sessions,
}
use zero_trust_continuous_au.Auth.Calls.{
  identified, identity, other_session, enabled_only, set_password, change_password, or_flip,
  toggle_user_enabled, reset_password, revoke_user_sessions, Call, toggle, reset, revoke, call,
}

-- No row is left that was to be deleted.
deleted-All : (p : Session → Bool) (ss : List Session) → All (λ s. p s ≡ false) (delete_rows p ss)
deleted-All p ss =
    delete_rows-All (λ _. Unit {0}) (λ s. p s ≡ false) p (λ s out _. out) ss (trivial ss)
  where
    trivial : (ss : List Session) → All (λ _. Unit {0}) ss
    trivial [] = tt
    trivial (s ∷ ss) = (tt, trivial ss)

-- A session that lets a user in is the user's.
live_user-id :
    (now : ℕ) (users : List User) (s : Session) (u : User)
    → live_user now users s ≡ some u
    → (u.user_id ≡ s.user_id) × (u.enabled ≡ true)
unfolding live_user
live_user-id now users s u h = elim (Option-cases (select user_key s.user_id users)) [
  | inl missing ↦ absurd (ground arith)
  | inr (x, hit) ↦ let here = select-key user_key s.user_id users x hit in ground arith
]

-- Where every session passes a test that a token's hash and a user fail together, the token does not let that user in.
find_live-All :
    (P : Session → Type 0) (hash : String) (now : ℕ) (users : List User) (ss : List Session)
    (u : User)
    → All P ss
    → find_live hash now users ss ≡ some u
    → (s : Session) × P s × (s.token_hash ≡ hash) × (u.user_id ≡ s.user_id) × (u.enabled ≡ true)
unfolding find_live
find_live-All P hash now users [] u ps h = absurd (cc h)
find_live-All P hash now users (s ∷ ss) u ps h = elim (Option-cases (live_user now users s)) [
  | inl dead ↦ find_live-All P hash now users ss u ps.1 (rw (dead, find_live) at h)
  | inr (x, live) ↦ elim (Bool-cases (str_eq s.token_hash hash)) [
    | inl same ↦
        let (id, on) = live_user-id now users s x live in
        let is_u : some x ≡ some u = rw (live, find_live, same) at h in
        (s, ps.0, ground (arith, eq_iff s.token_hash hash), ground arith, ground arith)
    | inr other ↦ find_live-All P hash now users ss u ps.1 (rw (live, find_live, other) at h)
  ]
]

module _ (host : Host) where
  identified-live :
      (token : String) (now : ℕ) (a later : Accounts) (i : Identity)
      → (identity host String.[] token now a later).1 ≡ some i
      → (u : User) × (find_live (host.token_hash token) now a.users a.sessions ≡ some u)
        × (i.user_id ≡ u.user_id)
  unfolding identity identified
  identified-live token now a later i h = elim (Bool-cases (is_empty token)) [
    | inl none_given ↦ absurd (ground arith)
    | inr given ↦ elim (Option-cases (find_live (host.token_hash token) now a.users a.sessions)) [
      | inl dead ↦ absurd (cc (rw (given, dead, identity) at h))
      | inr (u, live) ↦
          let is_u : some (identity_of u) ≡ some i = rw (given, live, identity) at h in
          (u, live, ground arith)
    ]
  ]

  -- Where the sessions of a user have gone, no token lets the user in.
  dropped-shut :
      (k : String) (a later : Accounts) (token : String) (now : ℕ) (i : Identity)
      → (identity host String.[] token now (drop_sessions k a) later).1 ≡ some i
      → i.user_id ≢ k
  dropped-shut k a later token now i h is_k =
      let (u, live, same) = identified-live token now (drop_sessions k a) later i h in
      let (s, gone, _, id, _) =
        find_live-All (λ s. session_of k s ≡ false) (host.token_hash token) now a.users
          (delete_rows (session_of k) a.sessions) u (deleted-All (session_of k) a.sessions) live in
      let at_k : s.user_id ≡ k = sym id ∙ sym same ∙ is_k in cc ((eq_iff s.user_id k).1 at_k, gone)

  -- The call is for this user, and it succeeds in ending the user's sessions.
  abbrev pub Ends : String → Call host → Accounts → Accounts → Type 0
  Ends k (reset j new salt) seen a =
      (j ≡ k) × ((reset_password host j new salt seen a).1 ≡ password_reset)
  Ends k (revoke j) seen a =
      (j ≡ k) × ((n : ℕ) × ((revoke_user_sessions host j seen a).1 ≡ revoked n))
  Ends k (toggle j enabled) seen a =
      (j ≡ k) × ((toggle_user_enabled host j enabled seen a).1 ≡ toggled false)
  Ends k c seen a = ⊥

  -- Each of these calls leaves accounts without the user's sessions.
  Ends-dropped :
      (k : String) (c : Call host) (seen a : Accounts)
      → Ends k c seen a
      → (b : Accounts) × (call host c seen a ≡ drop_sessions k b)
  unfolding call
  Ends-dropped k (reset j new salt) seen a (is_k, done) =
      elim (Option-cases (password_hash host.kdf new salt)) [
        | inl bad ↦ absurd (cc (rw (bad, reset_password) at done))
        | inr (hash, good) ↦ elim (Option-cases (select user_key j seen.users)) [
          | inl missing ↦ absurd (cc (rw (good, missing, reset_password) at done))
          | inr (u, hit) ↦ (
            record a { users = update_rows (with_password j hash) a.users },
            unfold reset_password in
                rw (call, good, hit, reset_password)
                  (ap
                    (λ i.
                      drop_sessions i
                        (record a { users = update_rows (with_password j hash) a.users }))
                    is_k),
          )
        ]
      ]
  Ends-dropped k (revoke j) seen a (is_k, (n, done)) =
      elim (Option-cases (select user_key j seen.users)) [
        | inl missing ↦ absurd (cc (rw (missing, revoke_user_sessions) at done))
        | inr (u, hit) ↦ (
          a,
          unfold revoke_user_sessions in
              rw (call, hit, revoke_user_sessions) (ap (λ i. drop_sessions i a) is_k),
        )
      ]
  Ends-dropped k (toggle j enabled) seen a (is_k, done) =
      elim (Option-cases (select user_key j seen.users)) [
        | inl missing ↦ absurd (cc (rw (missing, toggle_user_enabled) at done))
        | inr (u, hit) ↦
            let off : or_flip host enabled u.enabled ≡ false =
              ground (arith, rw (hit, toggle_user_enabled) at done) in
            (
              record a { users = update_rows (with_enabled j false) a.users },
              unfold toggle_user_enabled in
                  rw (call, hit, off, toggle_user_enabled)
                    (ap
                      (λ i.
                        drop_sessions i
                          (record a { users = update_rows (with_enabled j false) a.users }))
                      is_k),
            )
      ]
  Ends-dropped k c seen a h = absurd h

  -- After a reset of the password, an end of all sessions or a switch to disabled that succeeded, whatever it read
  -- before, a request that reads at once is not let in as the user by any token; the administrator's token is not
  -- configured.
  pub revoked_shut_out :
      (k : String) (c : Call host) (seen a later : Accounts) (token : String) (now : ℕ)
      (i : Identity)
      → Ends k c seen a
      → (identity host String.[] token now (call host c seen a) later).1 ≡ some i
      → i.user_id ≢ k
  revoked_shut_out k c seen a later token now i ends h =
      let (b, e) = Ends-dropped k c seen a ends in
      dropped-shut k b later token now i
        (ap (λ x. (identity host String.[] token now x later).1) (sym e) ∙ h)

  -- A change that succeeded left the user no session but the one that made it.
  set_password-changed :
      (k current held : String) (o : Option String) (a : Accounts)
      → (set_password host k current held o a).1 ≡ password_changed
      → (us : List User) × ((set_password host k current held o a).0
          ≡ record { users = us; sessions = delete_rows (other_session host k held) a.sessions })
  unfolding set_password
  set_password-changed k current held none a done = absurd (cc done)
  set_password-changed k current held (some hash) a done =
      elim (Bool-cases (verify_password host.kdf current hash)) [
        | inl same ↦ absurd (cc (rw (same) at done))
        | inr other ↦ (update_rows (with_password k hash) a.users, rw (other) refl)
      ]

  change_password-changed :
      (k current new held salt : String) (seen a : Accounts)
      → (change_password host k current new held salt seen a).1 ≡ password_changed
      → (us : List User) × ((change_password host k current new held salt seen a).0
          ≡ record { users = us; sessions = delete_rows (other_session host k held) a.sessions })
  unfolding change_password
  change_password-changed k current new held salt seen a done =
      elim (Option-cases (enabled_only host (select user_key k seen.users))) [
        | inl missing ↦ absurd (cc (rw (missing, change_password) at done))
        | inr (u, hit) ↦ elim (Bool-cases (verify_password host.kdf current u.password_hash)) [
          | inl right ↦
              rw (hit, right, change_password)
                (set_password-changed k current held (password_hash host.kdf new salt) a
                  (rw (hit, right, change_password) at done))
          | inr wrong ↦ absurd (cc (rw (hit, wrong, change_password) at done))
        ]
      ]

  -- A change of the password that succeeded shuts the user's other tokens out: a token that still lets the user
  -- in has the hash of the one that made the change.
  pub change_password_shuts_out :
      (k current new held salt : String) (seen a later : Accounts) (token : String) (now : ℕ)
      (i : Identity)
      → (change_password host k current new held salt seen a).1 ≡ password_changed
      → (identity host String.[] token now
          (change_password host k current new held salt seen a).0
          later).1
        ≡ some i
      → i.user_id ≡ k
      → host.token_hash token ≡ host.token_hash held
  change_password_shuts_out k current new held salt seen a later token now i done h is_k =
      let (us, e) = change_password-changed k current new held salt seen a done in
      let b : Accounts = record {
        users = us;
        sessions = delete_rows (other_session host k held) a.sessions;
      } in
      let (u, live, same) =
        identified-live token now b later i
          (ap (λ x. (identity host String.[] token now x later).1) (sym e) ∙ h) in
      let (s, kept, hash, id, _) =
        find_live-All (λ s. other_session host k held s ≡ false) (host.token_hash token) now us
          (delete_rows (other_session host k held) a.sessions) u
          (deleted-All (other_session host k held) a.sessions) live in
      let at_k : s.user_id ≡ k = sym id ∙ sym same ∙ is_k in
      let hit : str_eq s.user_id k ≡ true = (eq_iff s.user_id k).1 at_k in
      sym hash ∙ (eq_iff s.token_hash (host.token_hash held)).0 (ground (arith, rw (hit) at kept))
