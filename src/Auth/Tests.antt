-- ===== src/Auth/Tests.antt =====
-- Operators at concrete accounts. A password is its own key, and a token its own hash.
use zero_trust_continuous_au.Base.{
  ℕ, String, ◌≡◌, ◌≢◌, refl, true, false, map, ◌&&◌, Option, some, none, List, [], ◌∷◌,
  if◌then◌else◌, str_eq,
}
use zero_trust_continuous_au.Base.Table.{select, update_rows, delete_rows}
use zero_trust_continuous_au.Json.Text.{text_length}
use zero_trust_continuous_au.Auth.Password.{
  Kdf, is_password, password_hash, verify_parts, verify_password,
}
use zero_trust_continuous_au.Auth.Password.Dollar.{join_dollar, split_dollar, is_plain}
use zero_trust_continuous_au.Auth.{
  User, Session, Accounts, identity_of, Host, admin, viewer, find_live, live_user, password_changed,
}
use zero_trust_continuous_au.Auth.Calls.{
  identified, identity, set_password, change_password, reset_password, Call, log_in, toggle, reset,
  call, login, login_read, find_login, open_session, toggle_user_enabled,
}
use zero_trust_continuous_au.Auth.Steps.{
  get_elem?, erase_at, Desk, ServerStep, reads, writes, write_open, serve, serve_all,
  UndisturbedStep, UndisturbedAll,
}
use zero_trust_continuous_au.Auth.Backed.{IsValid}
use zero_trust_continuous_au.Auth.Served.{serve_all-IsValid}
use zero_trust_continuous_au.Auth.Revoked.{Ends, revoked_shut_out, change_password_shuts_out}
use zero_trust_continuous_au.Auth.Accepts.{verify_password-password_hash}

abbrev number_of : String → Option ℕ
number_of s = if str_eq s "240000" then some 240000 else none

number_of_240000 : number_of "240000" ≡ some 240000
number_of_240000 = refl

abbrev own_key : Kdf
own_key = record {
  derive = λ password _ _. password;
  is_hex = λ _. true;
  to_int = number_of;
  int_240000 = number_of_240000;
}

abbrev host : Host
host = record { same_name = str_eq; token_hash = λ token. token; kdf = own_key }

abbrev old_password : String
old_password = "correct-horse-1"

abbrev new_password : String
new_password = "battery-staple-2"

abbrev ada : User
ada = record {
  user_id = "u1";
  username = "ada";
  password_hash = "pbkdf2_sha256$240000$00ff$correct-horse-1";
  role = admin;
  enabled = true;
  created_by = "setup";
  last_login_at = none;
}

abbrev bob : User
bob = record {
  user_id = "u2";
  username = "bob";
  password_hash = "pbkdf2_sha256$240000$00ff$correct-horse-1";
  role = viewer;
  enabled = true;
  created_by = "ada";
  last_login_at = none;
}

abbrev session : String → String → Session
session token user_id = record {
  session_id = token;
  user_id = user_id;
  token_hash = token;
  created_at = 0;
  expires_at = 28800;
  last_used_at = 0;
}

abbrev accounts : Accounts
accounts = record {
  users = ada ∷ bob ∷ [];
  sessions = session "t1" "u1" ∷ session "t2" "u1" ∷ session "t3" "u2" ∷ [];
}

abbrev desk : Desk host
desk = record { accounts = accounts; open_calls = [] }

desk-IsValid : IsValid host [] accounts
unfolding select
desk-IsValid = record {
  users = (refl, (refl, tt));
  hashes = (refl, (refl, (refl, tt)));
  backed = (refl, (refl, (refl, tt)));
  welcome = tt;
}

abbrev bob_in : Call host
bob_in = log_in "bob" old_password "t4" "s4" 10

-- Ada's password is reset while Bob logs in; after that Bob is disabled.
abbrev steps : List (ServerStep host)
steps =
    reads bob_in
    ∷ reads (reset "u1" new_password "00ff")
    ∷ writes 1
    ∷ writes 0
    ∷ reads (toggle "u2" none)
    ∷ writes 0
    ∷ []

steps-UndisturbedAll : UndisturbedAll host steps desk
unfolding UndisturbedAll UndisturbedStep serve write_open get_elem? erase_at
steps-UndisturbedAll = (tt, (tt, (tt, (tt, (tt, ((λ _. tt), tt))))))

serve_all-IsValid_example :
    IsValid host (serve_all host steps desk).open_calls (serve_all host steps desk).accounts
serve_all-IsValid_example = serve_all-IsValid host steps desk steps-UndisturbedAll desk-IsValid

-- Bob is disabled while he logs in: his new session is there afterwards.
abbrev late_steps : List (ServerStep host)
late_steps = reads bob_in ∷ reads (toggle "u2" none) ∷ writes 1 ∷ writes 0 ∷ []

late_session :
    map (λ (s : Session). s.user_id) (serve_all host late_steps desk).accounts.sessions
    ≡ "u1" ∷ "u1" ∷ "u2" ∷ []
unfolding serve_all serve write_open get_elem? erase_at call login login_read find_login
    open_session toggle_user_enabled verify_password verify_parts split_dollar is_password select
    update_rows delete_rows text_length
late_session = refl

late_is_disabled :
    map (λ (u : User). u.enabled) (serve_all host late_steps desk).accounts.users
    ≡ true ∷ false ∷ []
unfolding serve_all serve write_open get_elem? erase_at call login login_read find_login
    open_session toggle_user_enabled verify_password verify_parts split_dollar is_password select
    update_rows delete_rows text_length
late_is_disabled = refl

reset-Ends : Ends host "u1" (reset "u1" new_password "00ff") accounts accounts
unfolding reset_password password_hash is_password join_dollar select text_length
reset-Ends = (refl, refl)

still_in :
    (identity host String.[] "t3" 20
      (call host (reset "u1" new_password "00ff") accounts accounts)
      accounts).1
    ≡ some (identity_of bob)
unfolding call reset_password password_hash is_password join_dollar select update_rows delete_rows
    identity identified find_live live_user text_length
still_in = refl

revoked_shut_out_example : (identity_of bob).user_id ≢ "u1"
revoked_shut_out_example =
    revoked_shut_out host "u1" (reset "u1" new_password "00ff") accounts accounts accounts "t3" 20
      (identity_of bob) reset-Ends still_in

is_changed :
    (change_password host "u1" old_password new_password "t1" "00ff" accounts accounts).1
    ≡ password_changed
unfolding change_password set_password password_hash verify_password verify_parts split_dollar
    is_password join_dollar select text_length
is_changed = refl

holder_in :
    (identity host String.[] "t1" 20
      (change_password host "u1" old_password new_password "t1" "00ff" accounts accounts).0
      accounts).1
    ≡ some (identity_of ada)
unfolding change_password set_password password_hash verify_password verify_parts split_dollar
    is_password join_dollar select update_rows delete_rows identity identified find_live live_user
    text_length
holder_in = refl

change_password_shuts_out_example : host.token_hash "t1" ≡ host.token_hash "t1"
change_password_shuts_out_example =
    change_password_shuts_out host "u1" old_password new_password "t1" "00ff" accounts accounts
      accounts "t1" 20 (identity_of ada) is_changed holder_in refl

own_hash :
    password_hash own_key old_password "00ff" ≡ some "pbkdf2_sha256$240000$00ff$correct-horse-1"
unfolding password_hash is_password join_dollar text_length
own_hash = refl

plain_salt : is_plain "00ff" ≡ true
unfolding is_plain
plain_salt = refl

verify_password-password_hash_example :
    verify_password own_key new_password "pbkdf2_sha256$240000$00ff$correct-horse-1"
    ≡ (is_password new_password && str_eq new_password old_password)
verify_password-password_hash_example =
    verify_password-password_hash own_key "00ff" old_password new_password
      "pbkdf2_sha256$240000$00ff$correct-horse-1" plain_salt refl own_hash
