-- ===== src/Auth.antt =====
-- api/auth.py: operators of the dashboard, their passwords, sessions and roles. The two tables are lists of
-- rows. A call reads, and then writes in one transaction; other calls may come in between. Times are seconds; new identifiers,
-- tokens and salts are arguments.
pub mod Password
pub mod Calls
pub mod Steps
pub mod Backed
pub mod Logged
pub mod Switched
pub mod Kept
pub mod Served
pub mod Revoked
pub mod Accepts
mod Tests
use zero_trust_continuous_au.Base.{
  ℕ, suc, ◌+◌, ◌*◌, String, Bool, true, false, not, ◌&&◌, ◌||◌, Option, none, some, List, [], ◌∷◌,
  ◌++◌, ltb, str_eq, if◌then◌else◌, is_some,
}
use zero_trust_continuous_au.Base.Table.{select, update_rows, delete_rows}
use zero_trust_continuous_au.Json.Text.{is_empty, text_length}
use zero_trust_continuous_au.Auth.Password.{Kdf, password_hash, verify_password}

pub data Role : Type 0 where
  admin soc_analyst auditor viewer : Role

-- `ROLE_PERMISSIONS`, sorted
unfoldable pub permissions : Role → List String
permissions admin =
    "audit:read" ∷ "config:write" ∷ "read" ∷ "response:write" ∷ "stream" ∷ "users:manage" ∷ []
permissions soc_analyst = "read" ∷ "response:write" ∷ "stream" ∷ []
permissions auditor = "audit:read" ∷ "read" ∷ "stream" ∷ []
permissions viewer = "read" ∷ []

unfoldable pub find_role : String → Option Role
find_role s =
    if str_eq s "ADMIN"
    then some admin
    else if str_eq s "SOC_ANALYST"
    then some soc_analyst
    else if str_eq s "AUDITOR"
    then some auditor
    else if str_eq s "VIEWER"
    then some viewer
    else none

-- A row of `operator_users`, without `created_at`.
pub record User : Type 0 where
  pub user_id : String
  pub username : String
  pub password_hash : String
  pub role : Role
  pub enabled : Bool
  pub created_by : String
  pub last_login_at : Option ℕ

-- A row of `operator_sessions`.
pub record Session : Type 0 where
  pub session_id : String
  pub user_id : String
  pub token_hash : String
  pub created_at : ℕ
  pub expires_at : ℕ
  pub last_used_at : ℕ

pub record Accounts : Type 0 where
  pub users : List User
  pub sessions : List Session

pub record Identity : Type 0 where
  pub user_id : String
  pub username : String
  pub role : Role
  pub allowed : List String
  pub legacy : Bool

abbrev pub identity_of : User → Identity
identity_of u = record {
  user_id = u.user_id;
  username = u.username;
  role = u.role;
  allowed = permissions u.role;
  legacy = false;
}

abbrev pub legacy_admin : Identity
legacy_admin = record {
  user_id = "legacy-admin";
  username = "legacy-admin";
  role = admin;
  allowed = permissions admin;
  legacy = true;
}

-- SQLite's NOCASE equality, SHA-256, and the password functions.
pub record Host : Type 0 where
  pub same_name : String → String → Bool
  pub token_hash : String → String
  pub kdf : Kdf

abbrev pub session_of : String → Session → Bool
session_of user_id s = str_eq s.user_id user_id

abbrev pub user_key : User → String
user_key u = u.user_id

abbrev pub with_password : String → String → User → User
with_password user_id hash u =
    if str_eq u.user_id user_id then record u { password_hash = hash } else u

abbrev pub with_enabled : String → Bool → User → User
with_enabled user_id b u = if str_eq u.user_id user_id then record u { enabled = b } else u

abbrev pub with_login : String → ℕ → User → User
with_login user_id now u =
    if str_eq u.user_id user_id then record u { last_login_at = some now } else u

-- The user of a session that has not expired, if that user is enabled.
unfoldable pub live_user : ℕ → List User → Session → Option User
live_user now users s =
    if ltb now s.expires_at
    then elim (select user_key s.user_id users) [
      | none ↦ none
      | some u ↦ if u.enabled then some u else none
    ]
    else none

-- The SELECT with its JOIN: the first session with this hash that has such a user.
unfoldable pub find_live : String → ℕ → List User → List Session → Option User
unfolding live_user
find_live hash now users [] = none
find_live hash now users (s ∷ ss) = elim (live_user now users s) [
  | none ↦ find_live hash now users ss
  | some u ↦ if str_eq s.token_hash hash then some u else find_live hash now users ss
]

abbrev pub touch : String → ℕ → Session → Session
touch hash now s = if str_eq s.token_hash hash then record s { last_used_at = now } else s

-- The codes of the errors that the calls raise.
pub data Failure : Type 0 where
  wrong_password bad_password same_password bad_username unknown_role taken no_user : Failure

pub data Done : Type 0 where
  password_changed : Done
  created : String → Done
  toggled : Bool → Done
  password_reset : Done
  revoked : ℕ → Done
  failed : Failure → Done

pub data Login : Type 0 where
  refused : Login
  clash : Login
  granted : String → ℕ → Identity → Login

abbrev pub session_hours : ℕ
session_hours = 8

unfoldable pub count_sessions : String → List Session → ℕ
count_sessions user_id [] = 0
count_sessions user_id (s ∷ ss) =
    let rest = count_sessions user_id ss in if session_of user_id s then suc rest else rest

abbrev pub drop_sessions : String → Accounts → Accounts
drop_sessions user_id a = record a { sessions = delete_rows (session_of user_id) a.sessions }
