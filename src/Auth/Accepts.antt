-- ===== src/Auth/Accepts.antt =====
-- Which passwords an encoded password of api/auth.py lets in.
use zero_trust_continuous_au.Base.{
  String, ◌≡◌, refl, sym, ap, ◌∙◌, true, ◌&&◌, some, Bool-cases, inl, inr, [], ◌∷◌, str_eq, arith,
}
use zero_trust_continuous_au.Auth.Password.{
  Kdf, is_password, password_hash, verify_parts, verify_password,
}
use zero_trust_continuous_au.Auth.Password.Dollar.{
  join_dollar, split_dollar, is_plain, split_dollar-join_dollar,
}

module _ (kdf : Kdf) (salt : String) where
  -- The text that is stored.
  abbrev encoded_as : String → String
  encoded_as key = join_dollar "pbkdf2_sha256" (join_dollar "240000" (join_dollar salt key))

  split_dollar-encoded :
      (key : String)
      → is_plain salt ≡ true
      → split_dollar 3 (encoded_as key) ≡ "pbkdf2_sha256" ∷ "240000" ∷ salt ∷ key ∷ []
  unfolding is_plain split_dollar
  split_dollar-encoded key plain =
      split_dollar-join_dollar 2 "pbkdf2_sha256" (join_dollar "240000" (join_dollar salt key)) refl
      ∙ ap (λ ps. "pbkdf2_sha256" ∷ ps)
          (split_dollar-join_dollar 1 "240000" (join_dollar salt key) refl)
      ∙ ap (λ ps. "pbkdf2_sha256" ∷ "240000" ∷ ps) (split_dollar-join_dollar 0 salt key plain)

  -- A password is let in by the encoded password exactly where it has 12 to 256 characters and PBKDF2 gives
  -- the same key for both; the salt is hexadecimal and holds no dollar sign.
  pub verify_password-password_hash :
      (password other encoded : String)
      → is_plain salt ≡ true
      → kdf.is_hex salt ≡ true
      → password_hash kdf password salt ≡ some encoded
      → verify_password kdf other encoded ≡ (
          is_password other
          && str_eq (kdf.derive other salt 240000) (kdf.derive password salt 240000))
  unfolding password_hash verify_password verify_parts
  verify_password-password_hash password other encoded plain hex h =
      elim (Bool-cases (is_password password)) [
        | inl good ↦
            let same : some (encoded_as (kdf.derive password salt 240000)) ≡ some encoded =
              rw (good) at h in
            let text : encoded_as (kdf.derive password salt 240000) ≡ encoded = ground arith in
            ap (λ e. is_password other && verify_parts kdf other (split_dollar 3 e)) (sym text)
            ∙ ap (λ ps. is_password other && verify_parts kdf other ps)
                (split_dollar-encoded (kdf.derive password salt 240000) plain)
            ∙ rw (hex, kdf.int_240000) refl
        | inr bad ↦ absurd (cc (rw (bad) at h))
      ]
