-- ===== src/Auth/Password.antt =====
-- `_password_hash` and `_verify_password` of api/auth.py. PBKDF2 on the bytes that a hexadecimal text stands for,
-- and the reading of such texts and of integers, are a parameter.
pub mod Dollar
use zero_trust_continuous_au.Base.{
  ℕ, String, ◌≡◌, Bool, true, false, not, ◌&&◌, ◌||◌, Option, none, some, List, [], ◌∷◌, ltb, leb,
  str_eq, if◌then◌else◌,
}
use zero_trust_continuous_au.Json.Text.{text_length}
use zero_trust_continuous_au.Auth.Password.Dollar.{join_dollar, split_dollar}

pub record Kdf : Type 0 where
  pub derive : String → String → ℕ → String
  pub is_hex : String → Bool
  pub to_int : String → Option ℕ
  pub int_240000 : to_int "240000" ≡ some 240000

unfoldable pub is_password : String → Bool
is_password password = leb 12 (text_length password) && leb (text_length password) 256

-- The encoded text, of a salt that is given as its hexadecimal text; `none` is the `ValueError`.
unfoldable pub password_hash : Kdf → String → String → Option String
unfolding is_password join_dollar
password_hash kdf password salt =
    if is_password password
    then some (
        join_dollar "pbkdf2_sha256"
          (join_dollar "240000" (join_dollar salt (kdf.derive password salt 240000))))
    else none

-- The four parts of `encoded.split("$", 3)`.
unfoldable pub verify_parts : Kdf → String → List String → Bool
verify_parts kdf password (algorithm ∷ iterations ∷ salt ∷ expected ∷ []) =
    str_eq algorithm "pbkdf2_sha256" && kdf.is_hex salt && elim (kdf.to_int iterations) [
      | none ↦ false
      | some n ↦ str_eq (kdf.derive password salt n) expected
    ]
verify_parts kdf password parts = false

unfoldable pub verify_password : Kdf → String → String → Bool
unfolding is_password verify_parts split_dollar
verify_password kdf password encoded =
    is_password password && verify_parts kdf password (split_dollar 3 encoded)
