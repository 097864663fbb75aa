-- ===== src/Auth/Switched.antt =====
-- The invariant of the accounts where a user is enabled or disabled.
use zero_trust_continuous_au.Base.{
  String, ◌≡◌, ◌≢◌, All, eq_iff, refl, sym, ap, ◌∙◌, Bool, true, false, Option, none, some, List,
  [], ◌∷◌, str_eq, if◌then◌else◌, Option-cases, inl, inr, if_intro,
}
use zero_trust_continuous_au.Base.Table.{
  select, update_rows, map_row, select-update_rows, update_rows-Distinct, delete_rows-Distinct,
  select-key, delete_rows-All,
}
use zero_trust_continuous_au.Auth.{
  User, Accounts, toggled, Host, user_key, session_of, with_enabled, drop_sessions,
}
use zero_trust_continuous_au.Auth.Backed.{is_enabled, Backed, Welcome, IsValid, keep_users}
use zero_trust_continuous_au.Auth.Calls.{hash_key, or_flip, toggle_user_enabled}
use zero_trust_continuous_au.Auth.Steps.{OpenCall, Absent}

module _ (host : Host) (opens : List (OpenCall host)) where
  -- Disabling a user ends the user's sessions.
  disable-IsValid :
      (k : String) (a : Accounts)
      → All (Absent host k) opens
      → IsValid host opens a
      → IsValid host opens
          (drop_sessions k (record a { users = update_rows (with_enabled k false) a.users }))
  disable-IsValid k a away v = record {
    users = update_rows-Distinct user_key off ids a.users v.users;
    hashes = delete_rows-Distinct (hash_key host) (session_of k) a.sessions v.hashes;
    backed =
        delete_rows-All (Backed a.users) (Backed (update_rows off a.users)) (session_of k)
          (λ s other b. others s.user_id (λ same. cc (other, (eq_iff s.user_id k).1 same)) b)
          a.sessions v.backed;
    welcome = stay opens away v.welcome;
  }
    where
      off : User → User
      off = with_enabled k false

      ids : (u : User) → user_key (off u) ≡ user_key u
      ids u = if_intro (λ x. user_key x ≡ user_key u) (str_eq u.user_id k) (λ _. refl) (λ _. refl)

      -- Whoever is not this user is as enabled as before.
      spared :
          (i : String)
          → i ≢ k
          → (o : Option User) → ((u : User) → o ≡ some u → u.user_id ≡ i)
          → is_enabled o ≡ true
          → is_enabled (map_row user_key off o) ≡ true
      spared i other none id b = b
      spared i other (some u) id b =
          if_intro (λ (x : User). x.enabled ≡ true) (str_eq u.user_id k)
            (λ hit. absurd (other (sym (id u refl) ∙ (eq_iff u.user_id k).0 hit))) (λ _. b)

      others :
          (i : String)
          → i ≢ k
          → is_enabled (select user_key i a.users) ≡ true
          → is_enabled (select user_key i (update_rows off a.users)) ≡ true
      others i other b =
          ap is_enabled (select-update_rows user_key off ids i a.users)
          ∙ spared i other (select user_key i a.users) (λ u h. select-key user_key i a.users u h) b

      stay :
          (os : List (OpenCall host))
          → All (Absent host k) os
          → All (Welcome host a.users) os
          → All (Welcome host (update_rows off a.users)) os
      stay [] ns ws = tt
      stay (o ∷ os) ns ws =
          ((λ u hit. others u.user_id (ns.0 u hit) (ws.0 u hit)), stay os ns.1 ws.1)

  enable-IsValid :
      (k : String) (a : Accounts)
      → IsValid host opens a
      → IsValid host opens (record a { users = update_rows (with_enabled k true) a.users })
  enable-IsValid k a v =
      keep_users host (with_enabled k true) opens a
        (λ u. if_intro (λ x. user_key x ≡ user_key u) (str_eq u.user_id k) (λ _. refl) (λ _. refl))
        (λ u h. if_intro (λ (x : User). x.enabled ≡ true) (str_eq u.user_id k) (λ _. refl) (λ _. h))
        v

  pub toggle-IsValid :
      (k : String) (enabled : Option Bool) (seen a : Accounts)
      → ((toggle_user_enabled host k enabled seen a).1 ≡ toggled false → All (Absent host k) opens)
      → IsValid host opens a
      → IsValid host opens (toggle_user_enabled host k enabled seen a).0
  toggle-IsValid k enabled seen a away v = elim (Option-cases (select user_key k seen.users)) [
    | inl missing ↦ unfold toggle_user_enabled in rw (missing, toggle_user_enabled) v
    | inr (u, hit) ↦
        unfold toggle_user_enabled in
        rw (hit, toggle_user_enabled)
          (set (or_flip host enabled u.enabled) (rw (hit, toggle_user_enabled) at away))
  ]
    where
      set :
          (on : Bool)
          → (toggled on ≡ toggled false → All (Absent host k) opens)
          → IsValid host opens (
              let switched = record a { users = update_rows (with_enabled k on) a.users } in
              if on then switched else drop_sessions k switched)
      set true h = enable-IsValid k a v
      set false h = disable-IsValid k a (h refl) v
