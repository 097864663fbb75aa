-- ===== src/Journal/Validate.antt =====
-- `validate_command` of agent/agent_daemon.py: which commands an agent takes on.
use zero_trust_continuous_au.Base.{
  ℕ, String, ◌≡◌, refl, Bool, true, false, not, ◌||◌, Option, none, some, List, [], ◌∷◌, any,
  str_eq, if◌then◌else◌, if_intro, arith,
}
use zero_trust_continuous_au.Json.{
  Value, str, arr, obj, Fields, end, get, Items, nil, cons, truthy, value_eq,
}
use zero_trust_continuous_au.Json.Text.{is_empty}
use zero_trust_continuous_au.Policy.{get_or_value}
use zero_trust_continuous_au.Rule.{at}
use zero_trust_continuous_au.Authorization.{
  Crypto, Expiry, not_a_time, without_zone, moment, Verified, authorized, body_of, check_expiry,
  expiry_of, has_agent, verify,
}
use zero_trust_continuous_au.Authorization.Signed.{Genuine, verify-Genuine}

-- What the method raises, by its place; `malformed` is the error of a configuration that lacks what is read of it.
pub data Fault : Type 0 where
  not_verified bad_identity offline_disabled bad_cache malformed offline_denied : Fault

-- The actions that an agent does not take on by itself while it is offline.
abbrev pub destructive_actions : List String
destructive_actions =
    "KILL_PROCESS" ∷ "LOGOUT_USER" ∷ "LOGOFF_USER" ∷ "LOGOUT_SESSION" ∷ "LOCK_LOCAL_ACCOUNT"
    ∷ "UNLOCK_LOCAL_ACCOUNT" ∷ []

-- `v in (...)`, of texts
abbrev pub is_any : List String → Value → Bool
is_any texts v = any (λ t. value_eq v (str t)) texts

pub data Found : Type 0 where
  broken : Found
  absent : Found
  found : Fields → Found

-- The first policy with this id.
unfoldable pub find_policy : Value → Items → Found
find_policy id nil = absent
find_policy id (cons (obj p) ps) =
    let rest = find_policy id ps in
    elim (get "policy_id" p) [ none ↦ broken | some v ↦ if value_eq v id then found p else rest ]
find_policy id (cons v ps) = broken

-- The policy lets the action run offline.
unfoldable pub check_policy : Fields → Found → Option Fault
check_policy command broken = some malformed
check_policy command absent = some offline_denied
check_policy command (found p) =
    if not (truthy (at "enabled" p))
      || not (truthy (at "allow_offline" p))
      || not (value_eq (at "mode" p) (str "ENFORCE"))
    then some offline_denied
    else elim (get "action" p) [
      | none ↦ some malformed
      | some action ↦
          if value_eq action (at "action_type" command) then none else some offline_denied
    ]

unfoldable pub check_cache : Fields → Verified → Option Fault
unfolding find_policy check_policy
check_cache command (authorized cache) = elim (get "policies" cache) [
  | some (arr ps) ↦ check_policy command (find_policy (at "policy_id" command) ps)
  | _ ↦ some malformed
]
check_cache command v = some bad_cache

-- `self.state.get('configuration') or {}`
abbrev pub configuration_of : Value → Fields
configuration_of (obj fs) = fs
configuration_of v = end

module _ (crypto : Crypto) (token agent_id : String) (now : ℕ) (configuration : Value) where
  unfoldable pub check_command : Fields → Verified → Option Fault
  unfolding check_cache value_eq
  check_command command (authorized fs) =
      if not (truthy (at "command_id" command))
        || not (is_any ("DISPATCHED" ∷ "QUEUED" ∷ []) (at "status" command))
      then some bad_identity
      else if not (value_eq (at "execution_source" command) (str "AGENT_OFFLINE"))
      then none
      else if is_any destructive_actions (at "action_type" command)
      then some offline_disabled
      else check_cache command (verify crypto (configuration_of configuration) token agent_id now)
  check_command command v = some not_verified

  -- `none` is the return.
  unfoldable pub validate_command : Fields → Option Fault
  unfolding check_command
  validate_command command = check_command command (verify crypto command token agent_id now)

  -- What the result of `verify` says, where it accepts, is the payload itself.
  check_expiry-payload :
      (payload fs : Fields) (x : Expiry)
      → check_expiry crypto payload now x ≡ authorized fs
      → check_expiry crypto payload now x ≡ authorized payload
  unfolding check_expiry
  check_expiry-payload payload fs not_a_time h = absurd (cc h)
  check_expiry-payload payload fs without_zone h = absurd (cc h)
  check_expiry-payload payload fs (moment t) h = ground arith

  verify-payload :
      (payload fs : Fields)
      → verify crypto payload token agent_id now ≡ authorized fs
      → verify crypto payload token agent_id now ≡ authorized payload
  unfolding verify
  verify-payload payload fs h =
      let Q = λ (v : Verified). v ≡ authorized fs → v ≡ authorized payload in
      if_intro Q (is_empty token) (λ _ x. absurd (cc x))
        (λ _.
          if_intro Q
            (not (
              str_eq (crypto.mac token (body_of payload))
                (crypto.text_of (get_or_value "signature" (str "") payload))))
            (λ _ x. absurd (cc x))
            (λ _.
              if_intro Q (not (has_agent crypto (get "agent_id" payload) agent_id))
                (λ _ x. absurd (cc x))
                (λ _.
                  check_expiry-payload payload fs (expiry_of crypto (get "expires_at" payload)))))
        h

  -- A command that is taken on carries a genuine signature that names this agent and has not expired, has an id and
  -- is dispatched or queued; where the agent issued it by itself offline, its `action_type` is none of the destructive ones.
  pub record Taken (command : Fields) : Type 0 where
    pub genuine : Genuine crypto command token agent_id now
    pub has_id : truthy (at "command_id" command) ≡ true
    pub open_state : is_any ("DISPATCHED" ∷ "QUEUED" ∷ []) (at "status" command) ≡ true
    pub not_destructive :
        value_eq (at "execution_source" command) (str "AGENT_OFFLINE") ≡ true
        → is_any destructive_actions (at "action_type" command) ≡ false

  check_command-Taken :
      (command : Fields) (v : Verified)
      → verify crypto command token agent_id now ≡ v
      → check_command command v ≡ none
      → Taken command
  unfolding check_command value_eq
  check_command-Taken command (authorized fs) is h = record {
    genuine = verify-Genuine crypto command token agent_id now (verify-payload command fs is);
    has_id = ground arith;
    open_state = ground arith;
    not_destructive = λ offline. ground arith;
  }
  check_command-Taken command v is h = absurd (cc h)

  -- A command that the agent takes on is signed for it and in time, has an id and an open state, and is not one of the
  -- destructive actions by its `action_type` where the agent issued it offline.
  pub validate_command-Taken : (command : Fields) → validate_command command ≡ none → Taken command
  unfolding validate_command
  validate_command-Taken command h =
      check_command-Taken command (verify crypto command token agent_id now) refl h
