-- ===== src/Script/Names.antt =====
-- The demonstration scripts and the parameters of each, one by one, and that the tables of the validator agree.
use mathlib.Core.Path.{subst}
use zero_trust_continuous_au.Base.{
  String, ◌≡◌, refl, sym, true, false, some, List, [], ◌∷◌, any, str_eq, eq_iff, Bool-cases, inl,
  inr, All, arith,
}
use zero_trust_continuous_au.Json.{Value, Fields, end, field, get}
use zero_trust_continuous_au.Executor.Checks.{only_keys}
use zero_trust_continuous_au.Script.{
  script_ids, script_keys, disallowed_keys, Scripts, has_disallowed,
}

-- The scripts that an agent has.
pub data DemoScript : String → Type 0 where
  process_start : DemoScript "DEMO_PROCESS_START"
  file_create : DemoScript "DEMO_FILE_CREATE"
  file_modify : DemoScript "DEMO_FILE_MODIFY"
  network_connection : DemoScript "DEMO_NETWORK_CONNECTION"
  listening_port : DemoScript "DEMO_LISTENING_PORT"
  auth_event : DemoScript "DEMO_AUTH_EVENT"
  rule_trigger : DemoScript "DEMO_RULE_TRIGGER"
  log_push : DemoScript "DEMO_LOG_PUSH"

-- The parameters that a script may be given.
pub data OwnKey : String → String → Type 0 where
  its_id : {id : String} → OwnKey id "script_id"
  its_correlation : {id : String} → OwnKey id "correlation_id"
  remote_address : OwnKey "DEMO_NETWORK_CONNECTION" "destination_ip"
  remote_port : OwnKey "DEMO_NETWORK_CONNECTION" "destination_port"
  local_address : OwnKey "DEMO_LISTENING_PORT" "host"
  local_port : OwnKey "DEMO_LISTENING_PORT" "port"
  whose : OwnKey "DEMO_AUTH_EVENT" "username"
  text : OwnKey "DEMO_LOG_PUSH" "message"

-- What holds of all in a list holds of a text that is in it.
listed :
    (P : String → Type 0) (ls : List String) (s : String)
    → any (λ l. str_eq l s) ls ≡ true
    → All P ls
    → P s
listed P [] s h ps = absurd (cc h)
listed P (l ∷ ls) s h ps = elim (Bool-cases (str_eq l s)) [
  | inl same ↦ subst P ((eq_iff l s).0 same) ps.0
  | inr other ↦ listed P ls s (rw (other) at h) ps.1
]

pub script_ids-DemoScript : (id : String) → any (λ i. str_eq i id) script_ids ≡ true → DemoScript id
script_ids-DemoScript id h = listed DemoScript script_ids id h (
  process_start,
  (
    file_create,
    (
      file_modify,
      (network_connection, (listening_port, (auth_event, (rule_trigger, (log_push, tt))))),
    ),
  ),
)

at_id :
    (id name : String)
    → str_eq id name ≡ true
    → All (OwnKey name) (script_keys name)
    → All (OwnKey id) (script_keys id)
at_id id name same ks =
    subst (λ i. All (OwnKey i) (script_keys i)) (sym ((eq_iff id name).0 same)) ks

script_keys-OwnKey : (id : String) → All (OwnKey id) (script_keys id)
unfolding script_keys
script_keys-OwnKey id = elim (Bool-cases (str_eq id "DEMO_NETWORK_CONNECTION")) [
  | inl same ↦ at_id id _ same (remote_address, (remote_port, (its_id, (its_correlation, tt))))
  | inr n1 ↦ elim (Bool-cases (str_eq id "DEMO_LISTENING_PORT")) [
    | inl same ↦ at_id id _ same (local_address, (local_port, (its_id, (its_correlation, tt))))
    | inr n2 ↦ elim (Bool-cases (str_eq id "DEMO_AUTH_EVENT")) [
      | inl same ↦ at_id id _ same (whose, (its_id, (its_correlation, tt)))
      | inr n3 ↦ elim (Bool-cases (str_eq id "DEMO_LOG_PUSH")) [
        | inl same ↦ at_id id _ same (text, (its_id, (its_correlation, tt)))
        | inr n4 ↦ rw (n1, n2, n3, n4) (its_id, (its_correlation, tt))
      ]
    ]
  ]
]

only_keys-any :
    (allowed : List String) (params : Fields) (k : String) (v : Value)
    → only_keys allowed params ≡ true
    → get k params ≡ some v
    → any (λ a. str_eq a k) allowed ≡ true
unfolding only_keys get
only_keys-any allowed end k v h found = absurd (cc found)
only_keys-any allowed (field j w fs) k v h found = elim (Bool-cases (str_eq j k)) [
  | inl same ↦
      let here : any (λ a. str_eq a j) allowed ≡ true = ground arith in
      subst (λ i. any (λ a. str_eq a i) allowed ≡ true) ((eq_iff j k).0 same) here
  | inr other ↦ only_keys-any allowed fs k v (ground arith) (rw (other) at found)
]

pub only_keys-OwnKey :
    (id : String) (params : Fields) (k : String) (v : Value)
    → only_keys (script_keys id) params ≡ true
    → get k params ≡ some v
    → OwnKey id k
only_keys-OwnKey id params k v h found =
    listed (OwnKey id) (script_keys id) k (only_keys-any (script_keys id) params k v h found)
      (script_keys-OwnKey id)

-- The names that stand for a command to run.
pub data RawName : String → Type 0 where
  raw_command : RawName "command"
  raw_cmd : RawName "cmd"
  raw_script : RawName "script"
  raw_code : RawName "code"
  raw_powershell : RawName "powershell"
  raw_shell : RawName "shell"
  raw_exec : RawName "exec"
  raw_eval : RawName "eval"
  raw_text : RawName "raw"

disallowed_keys-RawName : (s : String) → RawName s → any (λ d. str_eq d s) disallowed_keys ≡ true
disallowed_keys-RawName _ raw_command = refl
disallowed_keys-RawName _ raw_cmd = refl
disallowed_keys-RawName _ raw_script = refl
disallowed_keys-RawName _ raw_code = refl
disallowed_keys-RawName _ raw_powershell = refl
disallowed_keys-RawName _ raw_shell = refl
disallowed_keys-RawName _ raw_exec = refl
disallowed_keys-RawName _ raw_eval = refl
disallowed_keys-RawName _ raw_text = refl

has_disallowed-get :
    (scripts : Scripts) (params : Fields) (k : String) (v : Value)
    → has_disallowed scripts params ≡ false
    → get k params ≡ some v
    → any (λ d. str_eq d (scripts.lower k)) disallowed_keys ≡ false
unfolding has_disallowed get
has_disallowed-get scripts end k v h found = absurd (cc found)
has_disallowed-get scripts (field j w fs) k v h found = elim (Bool-cases (str_eq j k)) [
  | inl same ↦
      let here : any (λ d. str_eq d (scripts.lower j)) disallowed_keys ≡ false = ground arith in
      subst (λ i. any (λ d. str_eq d (scripts.lower i)) disallowed_keys ≡ false)
        ((eq_iff j k).0 same) here
  | inr other ↦ has_disallowed-get scripts fs k v (ground arith) (rw (other) at found)
]

pub has_disallowed-RawName :
    (scripts : Scripts) (params : Fields) (k : String) (v : Value)
    → has_disallowed scripts params ≡ false
    → get k params ≡ some v
    → ¬ RawName (scripts.lower k)
has_disallowed-RawName scripts params k v h found raw =
    cc
      (has_disallowed-get scripts params k v h found, disallowed_keys-RawName (scripts.lower k) raw)
