-- ===== src/Auth/Steps.antt =====
-- The calls of `OperatorAuth` on the threads of api/server.py: between the SELECT of a call and its writes, other calls
-- read and write. The writes of one call are one transaction.
use zero_trust_continuous_au.Base.{
  ℕ, zero, suc, String, ◌≡◌, ◌≢◌, false, Option, none, some, List, [], ◌∷◌, ◌++◌, All,
}
use zero_trust_continuous_au.Auth.{User, Accounts, Host, toggled}
use zero_trust_continuous_au.Auth.Calls.{
  login_read, toggle_user_enabled, Call, log_in, toggle, call,
}

unfoldable pub get_elem? {ℓ} : {A : Type ℓ} → ℕ → List A → Option A
get_elem? n [] = none
get_elem? zero (x ∷ xs) = some x
get_elem? (suc n) (x ∷ xs) = get_elem? n xs

unfoldable pub erase_at {ℓ} : {A : Type ℓ} → ℕ → List A → List A
erase_at n [] = []
erase_at zero (x ∷ xs) = xs
erase_at (suc n) (x ∷ xs) = x ∷ erase_at n xs

module _ (host : Host) where
  -- A call that has read and has not written yet.
  pub record OpenCall : Type 0 where
    pub request : Call host
    pub seen : Accounts

  pub record Desk : Type 0 where
    pub accounts : Accounts
    pub open_calls : List OpenCall

  -- A call reads, or the open call at this place writes and ends.
  pub data ServerStep : Type 0 where
    reads : Call host → ServerStep
    writes : ℕ → ServerStep

  unfoldable pub write_open : ℕ → Desk → Option OpenCall → Desk
  unfolding call erase_at
  write_open n d none = d
  write_open n d (some o) = record {
    accounts = call host o.request o.seen d.accounts;
    open_calls = erase_at n d.open_calls;
  }

  unfoldable pub serve : ServerStep → Desk → Desk
  unfolding write_open get_elem?
  serve (reads c) d = record d {
    open_calls = d.open_calls ++ (record { request = c; seen = d.accounts } ∷ []);
  }
  serve (writes n) d = write_open n d (get_elem? n d.open_calls)

  unfoldable pub serve_all : List ServerStep → Desk → Desk
  unfolding serve
  serve_all [] d = d
  serve_all (e ∷ es) d = serve_all es (serve e d)

  -- The user whom an open log-in is about to give a session.
  unfoldable pub entering : OpenCall → Option User
  unfolding login_read
  entering o = elim o.request [
    | log_in name password token session_id now ↦ login_read host name password o.seen
    | _ ↦ none
  ]

  -- No log-in of this user is open.
  abbrev pub Absent : String → OpenCall → Type 0
  Absent k o = (u : User) → entering o ≡ some u → u.user_id ≢ k

  -- A call that disables a user finds no log-in of this user among the others that are open.
  abbrev pub Undisturbed : Call host → Accounts → Accounts → List OpenCall → Type 0
  Undisturbed (toggle k enabled) seen a others =
      (toggle_user_enabled host k enabled seen a).1 ≡ toggled false → All (Absent k) others
  Undisturbed c seen a others = Unit

  abbrev pub UndisturbedOpen : ℕ → Desk → Option OpenCall → Type 0
  UndisturbedOpen n d none = Unit
  UndisturbedOpen n d (some o) = Undisturbed o.request o.seen d.accounts (erase_at n d.open_calls)

  unfoldable pub UndisturbedStep : ServerStep → Desk → Type 0
  UndisturbedStep (reads c) d = Unit
  UndisturbedStep (writes n) d = UndisturbedOpen n d (get_elem? n d.open_calls)

  unfoldable pub UndisturbedAll : List ServerStep → Desk → Type 0
  unfolding UndisturbedStep
  UndisturbedAll [] d = Unit
  UndisturbedAll (e ∷ es) d = UndisturbedStep e d × UndisturbedAll es (serve e d)
