-- ===== src/Auth/Backed.antt =====
-- Every session belongs to an enabled operator: the invariant, and the changes of the tables that keep it.

use zero_trust_continuous_au.Base.{
  String, ◌≡◌, refl, ap, ◌∙◌, Bool, true, false, Option, none, some, List, str_eq, if_intro, All,
}
use zero_trust_continuous_au.Base.Table.{
  select, update_rows, delete_rows, Distinct, map_row, select-update_rows, update_rows-Distinct,
  delete_rows-Distinct, delete_rows-All, weaken_rows,
}
use zero_trust_continuous_au.Auth.{User, Session, Accounts, Host, user_key, with_password}
use zero_trust_continuous_au.Auth.Calls.{hash_key}
use zero_trust_continuous_au.Auth.Steps.{OpenCall, entering}

abbrev pub is_enabled : Option User → Bool
is_enabled none = false
is_enabled (some u) = u.enabled

abbrev pub Backed : List User → Session → Type 0
Backed users s = is_enabled (select user_key s.user_id users) ≡ true

-- An update of users that disables nobody.
pub still_on :
    (f : User → User) (o : Option User)
    → ((u : User) → u.enabled ≡ true → (f u).enabled ≡ true)
    → is_enabled o ≡ true
    → is_enabled (map_row user_key f o) ≡ true
still_on f none on h = h
still_on f (some u) on h = on u h

module _ (host : Host) where
  -- A log-in that is open is of a user who is enabled now.
  abbrev pub Welcome : List User → OpenCall host → Type 0
  Welcome users o =
      (u : User) → entering host o ≡ some u → is_enabled (select user_key u.user_id users) ≡ true

  -- The ids of users and the hashes of tokens are distinct, and every session, expired or not, belongs to a user who
  -- exists and is enabled; so does every session that an open log-in is about to create.
  pub record IsValid (opens : List (OpenCall host)) (a : Accounts) : Type 0 where
    pub users : Distinct user_key a.users
    pub hashes : Distinct (hash_key host) a.sessions
    pub backed : All (Backed a.users) a.sessions
    pub welcome : All (Welcome a.users) opens

  -- Where everyone who was enabled is still, open log-ins stay welcome.
  pub keep_users_allowed :
      (opens : List (OpenCall host)) (us vs : List User)
      → ((k : String)
          → is_enabled (select user_key k us) ≡ true
          → is_enabled (select user_key k vs) ≡ true)
      → All (Welcome us) opens
      → All (Welcome vs) opens
  keep_users_allowed opens us vs still h =
      weaken_rows (Welcome us) (Welcome vs) (λ o w u hit. still u.user_id (w u hit)) opens h

  -- A change of the users that keeps ids and does not disable anyone.
  pub keep_users :
      (f : User → User) (opens : List (OpenCall host)) (a : Accounts)
      → ((u : User) → user_key (f u) ≡ user_key u)
      → ((u : User) → u.enabled ≡ true → (f u).enabled ≡ true)
      → IsValid opens a
      → IsValid opens (record a { users = update_rows f a.users })
  keep_users f opens a ids on v = record {
    users = update_rows-Distinct user_key f ids a.users v.users;
    hashes = v.hashes;
    backed =
        weaken_rows (Backed a.users) (Backed (update_rows f a.users)) (λ s b. still s.user_id b)
          a.sessions v.backed;
    welcome = keep_users_allowed opens a.users (update_rows f a.users) still v.welcome;
  }
    where
      still :
          (k : String)
          → is_enabled (select user_key k a.users) ≡ true
          → is_enabled (select user_key k (update_rows f a.users)) ≡ true
      still k b =
          ap is_enabled (select-update_rows user_key f ids k a.users)
          ∙ still_on f (select user_key k a.users) on b

  -- Ending sessions.
  pub keep_fewer :
      (p : Session → Bool) (opens : List (OpenCall host)) (a : Accounts)
      → IsValid opens a
      → IsValid opens (record a { sessions = delete_rows p a.sessions })
  keep_fewer p opens a v = record {
    users = v.users;
    hashes = delete_rows-Distinct (hash_key host) p a.sessions v.hashes;
    backed = delete_rows-All (Backed a.users) (Backed a.users) p (λ s _ b. b) a.sessions v.backed;
    welcome = v.welcome;
  }

  pub with_password-IsValid :
      (k hash : String) (opens : List (OpenCall host)) (a : Accounts)
      → IsValid opens a
      → IsValid opens (record a { users = update_rows (with_password k hash) a.users })
  with_password-IsValid k hash opens a v =
      keep_users (with_password k hash) opens a
        (λ u. if_intro (λ x. user_key x ≡ user_key u) (str_eq u.user_id k) (λ _. refl) (λ _. refl))
        (λ u h. if_intro (λ (x : User). x.enabled ≡ true) (str_eq u.user_id k) (λ _. h) (λ _. h)) v
