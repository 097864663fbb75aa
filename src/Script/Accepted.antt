-- ===== src/Script/Accepted.antt =====
-- What runs is an allowlisted script with its own parameters.
use zero_trust_continuous_au.Base.{
  ◌≤◌, String, ◌≡◌, refl, ap, ◌∙◌, Bool, true, Option, none, some, arith,
}
use zero_trust_continuous_au.Base.Int.{ℤ, pos, ◌≤ℤ◌}
use zero_trust_continuous_au.Json.{Value, str, Fields, get, truthy}
use zero_trust_continuous_au.Json.Text.{text_length}
use zero_trust_continuous_au.Script.Names.{
  DemoScript, OwnKey, RawName, has_disallowed-RawName, script_ids-DemoScript, only_keys-OwnKey,
}
use zero_trust_continuous_au.Script.{
  Scripts, sound, are_values, validate_script_request, HandlerCall, is_correlation, is_safe_id,
  script_params, requested_id, where_given, is_port, is_short_text,
}

-- A port, as a number, is from 1 through 65535.
abbrev pub IsPort : Option ℤ → Type 0
IsPort none = ⊥
IsPort (some i) = (pos 1 ≤ℤ i) × (i ≤ℤ pos 65535)

-- A text of 1 to 256 characters.
abbrev pub IsShort : Value → Type 0
IsShort (str s) = (1 ≤ text_length s) × (text_length s ≤ 256)
IsShort v = ⊥

-- The parameters fit the script: its own keys only, none of them a command, a correlation id of the safe
-- characters, ports from 1 through 65535, and texts of 1 to 256 characters.
pub record Fit (scripts : Scripts) (id : String) (params : Fields) : Type 0 where
  pub allowlisted : DemoScript id
  pub keys : (k : String) (v : Value) → get k params ≡ some v → OwnKey id k
  pub no_command : (k : String) (v : Value) → get k params ≡ some v → ¬ RawName (scripts.lower k)
  pub correlation_id :
      (v : Value)
      → get "correlation_id" params ≡ some v
      → truthy v ≡ true
      → is_correlation (scripts.text_of v) ≡ true
  pub port : (v : Value) → get "port" params ≡ some v → IsPort (scripts.int_of v)
  pub destination_port :
      (v : Value) → get "destination_port" params ≡ some v → IsPort (scripts.int_of v)
  pub destination_ip : (v : Value) → get "destination_ip" params ≡ some v → IsShort v
  pub host : (v : Value) → get "host" params ≡ some v → IsShort v
  pub username : (v : Value) → get "username" params ≡ some v → IsShort v
  pub message : (v : Value) → get "message" params ≡ some v → IsShort v

is_port-IsPort : (o : Option ℤ) → is_port o ≡ true → IsPort o
is_port-IsPort none h = absurd (cc h)
is_port-IsPort (some i) h = (ground arith, ground arith)

is_short_text-IsShort : (v : Value) → is_short_text v ≡ true → IsShort v
unfolding is_short_text
is_short_text-IsShort (str s) h = (ground arith, ground arith)
is_short_text-IsShort v h = absurd (cc h)

where_given_hit :
    (p : Value → Bool) (o : Option Value) (v : Value)
    → where_given p o ≡ true
    → o ≡ some v
    → p v ≡ true
where_given_hit p none v ok h = absurd (cc h)
where_given_hit p (some w) v ok h = ap p (ground arith) ∙ ok

module _ (scripts : Scripts) where
  validate_script_request-Fit :
      (id : String) (params : Fields)
      → validate_script_request scripts (str id) params ≡ sound
      → Fit scripts id params
  unfolding validate_script_request are_values
  validate_script_request-Fit id params h = record {
    allowlisted = script_ids-DemoScript id (ground arith);
    keys = λ k v found. only_keys-OwnKey id params k v (ground arith) found;
    no_command = λ k v found. has_disallowed-RawName scripts params k v (ground arith) found;
    correlation_id = λ v hit true_text.
        safe v true_text
          (where_given_hit (is_safe_id scripts) (get "correlation_id" params) v (ground arith) hit);
    port = λ v hit. is_port-IsPort (scripts.int_of v) (
        where_given_hit (λ v. is_port (scripts.int_of v)) (get "port" params) v (ground arith) hit);
    destination_port = λ v hit. is_port-IsPort (scripts.int_of v) (
        where_given_hit (λ v. is_port (scripts.int_of v)) (get "destination_port" params) v
          (ground arith) hit);
    destination_ip = λ v hit.
        is_short_text-IsShort v
          (where_given_hit is_short_text (get "destination_ip" params) v (ground arith) hit);
    host = λ v hit.
        is_short_text-IsShort v
          (where_given_hit is_short_text (get "host" params) v (ground arith) hit);
    username = λ v hit.
        is_short_text-IsShort v
          (where_given_hit is_short_text (get "username" params) v (ground arith) hit);
    message = λ v hit.
        is_short_text-IsShort v
          (where_given_hit is_short_text (get "message" params) v (ground arith) hit);
  }
    where
      safe :
          (v : Value)
          → truthy v ≡ true
          → is_safe_id scripts v ≡ true
          → is_correlation (scripts.text_of v) ≡ true
      safe v true_text ok = ground arith

  -- Only a text can be the id of a request that passes.
  pub sound-Fit :
      (id : Value) (params : Fields)
      → validate_script_request scripts id params ≡ sound
      → (s : String) × (id ≡ str s) × Fit scripts s params
  unfolding validate_script_request
  sound-Fit (str id) params h = (id, refl, validate_script_request-Fit id params h)
  sound-Fit id params h = absurd (ground arith)

  -- The call of a handler is of the script that the command asks for, with the parameters of the command, which
  -- fit that script.
  abbrev pub IsFitCall : Fields → HandlerCall → Type 0
  IsFitCall command c =
      (script_params scripts command ≡ some c.parameters)
      × (requested_id scripts command c.parameters ≡ str c.script_id)
      × Fit scripts c.script_id c.parameters
      × (is_correlation c.correlation_id ≡ true)
