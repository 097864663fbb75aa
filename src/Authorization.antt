-- ===== src/Authorization.antt =====
-- agent/commands/authorization.py: signed commands. A payload is the dict of the command; a signature that it
-- carries is taken to be ASCII, which `compare_digest` asks for.
pub mod Signed
mod Tests
use zero_trust_continuous_au.Base.{
  ℕ, String, ◌≡◌, Bool, true, false, not, ◌&&◌, ◌||◌, Option, none, some, leb, str_eq,
  if◌then◌else◌,
}
use zero_trust_continuous_au.Json.{Value, str, Fields, end, field, get, value_eq}
use zero_trust_continuous_au.Json.Text.{is_empty}
use zero_trust_continuous_au.Policy.{get_or_value}

-- What `datetime.fromisoformat` gives of a text: nothing, a time without a zone, or a moment.
pub data Expiry : Type 0 where
  not_a_time without_zone : Expiry
  moment : ℕ → Expiry

-- The parts of Python that the code calls: the hexadecimal HMAC of the canonical JSON text of a dict under a
-- secret, `str` of a value, and the parsing of an ISO time. `str` leaves a text as it is.
pub record Crypto : Type 0 where
  pub mac : String → Fields → String
  pub text_of : Value → String
  pub text_of_str : (s : String) → text_of (str s) ≡ s
  pub parse_time : String → Expiry

pub data Verified : Type 0 where
  authorized : Fields → Verified
  not_configured bad_signature wrong_agent bad_expiry expired : Verified

-- `{k: v for k, v in payload.items() if k != 'signature'}`
unfoldable pub body_of : Fields → Fields
body_of end = end
body_of (field k v fs) = if str_eq k "signature" then body_of fs else field k v (body_of fs)

-- `{**body, 'signature': s}`, of a dict without that key
unfoldable pub with_signature : String → Fields → Fields
with_signature s end = field "signature" (str s) end
with_signature s (field k v fs) = field k v (with_signature s fs)

module _ (crypto : Crypto) where
  -- `sign`; `none` is the `ValueError` for an empty secret.
  unfoldable pub sign : Fields → String → Option Fields
  unfolding body_of with_signature
  sign payload secret =
      if is_empty secret
      then none
      else some (with_signature (crypto.mac secret (body_of payload)) (body_of payload))

  unfoldable pub check_expiry : Fields → ℕ → Expiry → Verified
  check_expiry payload now not_a_time = bad_expiry
  check_expiry payload now without_zone = expired
  check_expiry payload now (moment t) = if leb t now then expired else authorized payload

  unfoldable pub expiry_of : Option Value → Expiry
  expiry_of none = not_a_time
  expiry_of (some v) = crypto.parse_time (crypto.text_of v)

  unfoldable pub has_agent : Option Value → String → Bool
  has_agent none agent_id = false
  has_agent (some v) agent_id = value_eq v (str agent_id)

  unfoldable pub verify : Fields → String → String → ℕ → Verified
  unfolding check_expiry expiry_of has_agent body_of get_or_value
  verify payload secret agent_id now =
      if is_empty secret
      then not_configured
      else if not (
          str_eq (crypto.mac secret (body_of payload))
            (crypto.text_of (get_or_value "signature" (str "") payload)))
      then bad_signature
      else if not (has_agent (get "agent_id" payload) agent_id)
      then wrong_agent
      else check_expiry payload now (expiry_of (get "expires_at" payload))
