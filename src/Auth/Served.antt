-- ===== src/Auth/Served.antt =====
-- The invariant of the accounts under every interleaving of calls.
use mathlib.Core.Path.{subst}
use zero_trust_continuous_au.Base.{ℕ, zero, suc, ◌≡◌, Option, none, some, List, [], ◌∷◌, All, refl}
use zero_trust_continuous_au.Base.Table.{append_row-All}
use zero_trust_continuous_au.Auth.{Host}
use zero_trust_continuous_au.Auth.Backed.{Welcome, IsValid}
use zero_trust_continuous_au.Auth.Kept.{call-IsValid}
use zero_trust_continuous_au.Auth.Logged.{entering-Welcome}
use zero_trust_continuous_au.Auth.Steps.{
  get_elem?, erase_at, OpenCall, Desk, ServerStep, reads, writes, write_open, serve, serve_all,
  UndisturbedOpen, UndisturbedStep, UndisturbedAll,
}

-- What holds of every element holds of one that is found and of the others.
erase_at-All :
    {A : Type 0} (P : A → Type 0) (n : ℕ) (xs : List A) → All P xs → All P (erase_at n xs)
unfolding erase_at
erase_at-All P n [] ps = tt
erase_at-All P zero (x ∷ xs) ps = ps.1
erase_at-All P (suc n) (x ∷ xs) ps = (ps.0, erase_at-All P n xs ps.1)

abbrev OnSome : {A : Type 0} → (A → Type 0) → Option A → Type 0
OnSome P none = Unit
OnSome P (some x) = P x

get_elem?-All :
    {A : Type 0} (P : A → Type 0) (n : ℕ) (xs : List A) (x : A)
    → All P xs
    → get_elem? n xs ≡ some x
    → P x
unfolding get_elem?
get_elem?-All P n [] x ps h = absurd (cc h)
get_elem?-All P zero (y ∷ xs) x ps h = subst (OnSome P) h ps.0
get_elem?-All P (suc n) (y ∷ xs) x ps h = get_elem?-All P n xs x ps.1 h

module _ (host : Host) where
  write_open-IsValid :
      (n : ℕ) (d : Desk host) (o : Option (OpenCall host))
      → get_elem? n d.open_calls ≡ o
      → UndisturbedOpen host n d o
      → IsValid host d.open_calls d.accounts
      → IsValid host (write_open host n d o).open_calls (write_open host n d o).accounts
  unfolding write_open
  write_open-IsValid n d none found calm v = v
  write_open-IsValid n d (some o) found calm v =
      call-IsValid host (erase_at n d.open_calls) o.request o.seen d.accounts
        (get_elem?-All (Welcome host d.accounts.users) n d.open_calls o v.welcome found) calm
        (record {
          users = v.users;
          hashes = v.hashes;
          backed = v.backed;
          welcome = erase_at-All (Welcome host d.accounts.users) n d.open_calls v.welcome;
        })

  serve-IsValid :
      (e : ServerStep host) (d : Desk host)
      → UndisturbedStep host e d
      → IsValid host d.open_calls d.accounts
      → IsValid host (serve host e d).open_calls (serve host e d).accounts
  unfolding serve UndisturbedStep
  serve-IsValid (reads c) d calm v = record {
    users = v.users;
    hashes = v.hashes;
    backed = v.backed;
    welcome =
        append_row-All (Welcome host d.accounts.users) d.open_calls _ v.welcome
          (entering-Welcome host c d.accounts v.users);
  }
  serve-IsValid (writes n) d calm v = write_open-IsValid n d (get_elem? n d.open_calls) refl calm v

  -- However calls interleave between what they read and what they write, if no user is disabled while a log-in of
  -- this user has checked the password and has not written its session yet, then user ids and token hashes stay
  -- distinct, and every session, expired or not, belongs to a user who exists and is enabled.
  pub serve_all-IsValid :
      (es : List (ServerStep host)) (d : Desk host)
      → UndisturbedAll host es d
      → IsValid host d.open_calls d.accounts
      → IsValid host (serve_all host es d).open_calls (serve_all host es d).accounts
  unfolding serve_all UndisturbedAll
  serve_all-IsValid [] d calm v = v
  serve_all-IsValid (e ∷ es) d calm v =
      serve_all-IsValid es (serve host e d) calm.1 (serve-IsValid e d calm.0 v)
