-- ===== src/Authorization/Tests.antt =====
-- Commands at concrete payloads, with a code that is the secret itself.
use zero_trust_continuous_au.Base.{◌≡◌, refl, true, String, some, arith}
use zero_trust_continuous_au.Json.{Value, str, Fields, end, field, get, value_eq, scalar_eq}
use zero_trust_continuous_au.Policy.{get_or_value}
use zero_trust_continuous_au.Authorization.{
  Crypto, moment, authorized, body_of, with_signature, sign, check_expiry, expiry_of, has_agent,
  verify,
}
use zero_trust_continuous_au.Authorization.Signed.{Genuine, verify-Genuine, verify-sign}

abbrev text_value : Value → String
text_value (str s) = s
text_value v = ""

text_value_str : (s : String) → text_value (str s) ≡ s
text_value_str s = refl

abbrev crypto : Crypto
crypto = record {
  mac = λ secret _. secret;
  text_of = text_value;
  text_of_str = text_value_str;
  parse_time = λ _. moment 100;
}

abbrev payload : Fields
payload = field "agent_id" (str "a1") (field "expires_at" (str "2026-01-01T00:00:00Z") end)

abbrev signed : Fields
signed =
    field "agent_id" (str "a1")
      (field "expires_at" (str "2026-01-01T00:00:00Z") (field "signature" (str "key") end))

payload_signed : sign crypto payload "key" ≡ some signed
unfolding sign body_of with_signature
payload_signed = refl

names_agent : has_agent crypto (get "agent_id" payload) "a1" ≡ true
unfolding has_agent get value_eq scalar_eq
names_agent = refl

lapses : expiry_of crypto (get "expires_at" payload) ≡ moment 100
unfolding expiry_of get
lapses = refl

verify-sign_example : verify crypto signed "key" "a1" 50 ≡ authorized signed
verify-sign_example =
    verify-sign crypto payload signed "key" "a1" 50 100 payload_signed names_agent lapses
      (omega arith)

signed_accepted : verify crypto signed "key" "a1" 50 ≡ authorized signed
unfolding verify body_of get_or_value get has_agent value_eq scalar_eq expiry_of check_expiry
signed_accepted = refl

verify-Genuine_example : Genuine crypto signed "key" "a1" 50
verify-Genuine_example = verify-Genuine crypto signed "key" "a1" 50 signed_accepted
