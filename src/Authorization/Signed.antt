-- ===== src/Authorization/Signed.antt =====
-- Signing and verifying fit together.
use zero_trust_continuous_au.Base.{
  ℕ, ◌≡◌, ◌<◌, refl, sym, ap, ◌∙◌, String, true, false, none, some, arith, leb, str_eq, eq_iff,
  if◌then◌else◌, Bool-cases, inl, inr,
}
use zero_trust_continuous_au.Json.{str, Fields, end, field, get}
use zero_trust_continuous_au.Json.Text.{is_empty}
use zero_trust_continuous_au.Policy.{get_or_value}
use zero_trust_continuous_au.Authorization.{
  Expiry, not_a_time, without_zone, moment, Crypto, Verified, authorized, body_of, with_signature,
  sign, check_expiry, expiry_of, has_agent, verify,
}

abbrev IsAuthorized : Verified → Type 0
IsAuthorized (authorized fs) = Unit
IsAuthorized v = ⊥

-- What an accepted command has.
pub record Genuine (crypto : Crypto) (payload : Fields) (secret agent_id : String) (now : ℕ)
    : Type 0 where
  pub configured : is_empty secret ≡ false
  pub signed :
      crypto.mac secret (body_of payload)
      ≡ crypto.text_of (get_or_value "signature" (str "") payload)
  pub agent : has_agent crypto (get "agent_id" payload) agent_id ≡ true
  pub until : ℕ
  pub lapses : expiry_of crypto (get "expires_at" payload) ≡ moment until
  pub in_time : now < until

check_expiry-moment :
    (crypto : Crypto) (payload : Fields) (now : ℕ) (x : Expiry)
    → check_expiry crypto payload now x ≡ authorized payload
    → (t : ℕ) × (x ≡ moment t) × (now < t)
unfolding check_expiry
check_expiry-moment crypto payload now (moment t) h = (t, refl, ground arith)
check_expiry-moment crypto payload now not_a_time h = absurd (cc h)
check_expiry-moment crypto payload now without_zone h = absurd (cc h)

module _ (crypto : Crypto) (payload : Fields) (secret agent_id : String) (now : ℕ) where
  -- A command that is accepted carries the code of its own fields under the agent's secret, names this agent,
  -- and expires later than now; without a secret none is accepted.
  pub verify-Genuine :
      verify crypto payload secret agent_id now ≡ authorized payload
      → Genuine crypto payload secret agent_id now
  unfolding verify
  verify-Genuine h =
      let test =
        str_eq (crypto.mac secret (body_of payload))
          (crypto.text_of (get_or_value "signature" (str "") payload)) in
      let last : check_expiry crypto payload now (expiry_of crypto (get "expires_at" payload))
          ≡ authorized payload =
        ground arith in
      let (t, is_t, later) =
        check_expiry-moment crypto payload now (expiry_of crypto (get "expires_at" payload)) last in
      record {
        configured = ground arith;
        signed = ground (
          arith,
          eq_iff (crypto.mac secret (body_of payload))
              (crypto.text_of (get_or_value "signature" (str "") payload)),
        );
        agent = ground arith;
        until = t;
        lapses = is_t;
        in_time = later;
      }

body_of-with_signature : (s : String) (fs : Fields) → body_of (with_signature s fs) ≡ body_of fs
unfolding body_of with_signature
body_of-with_signature s end = refl
body_of-with_signature s (field k v fs) =
    ap (λ rest. if str_eq k "signature" then rest else field k v rest) (body_of-with_signature s fs)

body_of_twice : (fs : Fields) → body_of (body_of fs) ≡ body_of fs
unfolding body_of
body_of_twice end = refl
body_of_twice (field k v fs) = elim (Bool-cases (str_eq k "signature")) [
  | inl here ↦ rw (here) (body_of_twice fs)
  | inr off ↦ rw (off) (rw (off) (ap (field k v) (body_of_twice fs)))
]

get-with_signature :
    (j s : String) (fs : Fields)
    → str_eq "signature" j ≡ false
    → get j (with_signature s fs) ≡ get j fs
unfolding get with_signature
get-with_signature j s end h = rw (h) refl
get-with_signature j s (field k v fs) h =
    ap (λ o. if str_eq k j then some v else o) (get-with_signature j s fs h)

get-body_of :
    (j : String) (fs : Fields) → str_eq "signature" j ≡ false → get j (body_of fs) ≡ get j fs
unfolding get body_of
get-body_of j end h = refl
get-body_of j (field k v fs) h =
    ground (arith, get-body_of j fs h, eq_iff k "signature", eq_iff "signature" j, eq_iff k j)

get-signature :
    (s : String) (fs : Fields) → get "signature" (with_signature s (body_of fs)) ≡ some (str s)
unfolding get body_of with_signature
get-signature s end = refl
get-signature s (field k v fs) = elim (Bool-cases (str_eq k "signature")) [
  | inl here ↦ rw (here) (get-signature s fs)
  | inr off ↦ rw (off) (rw (off) (get-signature s fs))
]

accepted_of :
    (crypto : Crypto) (payload : Fields) (secret agent_id : String) (now t : ℕ)
    → is_empty secret ≡ false
    → str_eq
        (crypto.mac secret (body_of payload))
        (crypto.text_of (get_or_value "signature" (str "") payload))
      ≡ true
    → has_agent crypto (get "agent_id" payload) agent_id ≡ true
    → expiry_of crypto (get "expires_at" payload) ≡ moment t
    → leb t now ≡ false
    → verify crypto payload secret agent_id now ≡ authorized payload
unfolding verify check_expiry
accepted_of crypto payload secret agent_id now t configured code agent time later =
    rw (configured, code, agent, time, later) refl

-- A payload that names an agent and a later moment of expiry, once it is signed, is accepted by that agent under
-- the same secret, whatever it had as a signature before.
pub verify-sign :
    (crypto : Crypto) (payload signed : Fields) (secret agent_id : String) (now t : ℕ)
    → sign crypto payload secret ≡ some signed
    → has_agent crypto (get "agent_id" payload) agent_id ≡ true
    → expiry_of crypto (get "expires_at" payload) ≡ moment t
    → now < t
    → verify crypto signed secret agent_id now ≡ authorized signed
unfolding sign verify get_or_value check_expiry
verify-sign crypto payload signed secret agent_id now t h names lapses later =
    let code = crypto.mac secret (body_of payload) in
    let made : with_signature code (body_of payload) ≡ signed = ground arith in
    let same_body : body_of signed ≡ body_of payload =
      ap body_of (sym made)
      ∙ body_of-with_signature code (body_of payload)
      ∙ body_of_twice payload in
    let found : get "signature" signed ≡ some (str code) =
      ap (get "signature") (sym made) ∙ get-signature code payload in
    let agent : get "agent_id" signed ≡ get "agent_id" payload =
      ap (get "agent_id") (sym made)
      ∙ get-with_signature "agent_id" code (body_of payload) refl
      ∙ get-body_of "agent_id" payload refl in
    let expiry : get "expires_at" signed ≡ get "expires_at" payload =
      ap (get "expires_at") (sym made)
      ∙ get-with_signature "expires_at" code (body_of payload) refl
      ∙ get-body_of "expires_at" payload refl in
    let stored : get_or_value "signature" (str "") signed ≡ str code =
      ap (λ o. elim o [ none ↦ str "" | some w ↦ w ]) found in
    let matches : crypto.mac secret (body_of signed)
        ≡ crypto.text_of (get_or_value "signature" (str "") signed) =
      ap (crypto.mac secret) same_body ∙ sym (ap crypto.text_of stored ∙ crypto.text_of_str code) in
    let configured : is_empty secret ≡ false = ground arith in
    let code_ok : str_eq (crypto.mac secret (body_of signed))
          (crypto.text_of (get_or_value "signature" (str "") signed))
        ≡ true =
      (eq_iff (crypto.mac secret (body_of signed))
          (crypto.text_of (get_or_value "signature" (str "") signed))).1
        matches in
    let agent_ok : has_agent crypto (get "agent_id" signed) agent_id ≡ true =
      ap (λ o. has_agent crypto o agent_id) agent ∙ names in
    let time_ok : expiry_of crypto (get "expires_at" signed) ≡ moment t =
      ap (expiry_of crypto) expiry ∙ lapses in
    let not_yet : leb t now ≡ false = ground arith in
    accepted_of crypto signed secret agent_id now t configured code_ok agent_ok time_ok not_yet
