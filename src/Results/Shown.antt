-- ===== src/Results/Shown.antt =====
-- What the verification of a success shows, action by action, and that the gate on results asks for it.
use mathlib.Core.Path.{subst}
use zero_trust_continuous_au.Base.{
  String, ◌≡◌, ◌≢◌, sym, ap, ◌⊎◌, true, Option, none, some, [], ◌∷◌, str_eq, eq_iff, Bool-cases,
  inl, inr,
}
use zero_trust_continuous_au.Json.{Value, null, str}
use zero_trust_continuous_au.Results.{required, is_text_in, may_succeed}

abbrev pub value_of : Option String → Value
value_of none = null
value_of (some s) = str s

-- The verification that a success of each action comes with; no action locks the workstation.
pub record Shown (action : String) (verification : Option String) : Type 0 where
  pub no_lock : action ≢ "LOCK_WORKSTATION"
  pub kill : action ≡ "KILL_PROCESS" → verification ≡ some "PROCESS_NOT_ACTIVE"
  pub logout : action ≡ "LOGOUT_USER" → verification ≡ some "SESSION_NOT_ACTIVE"
  pub logoff : action ≡ "LOGOFF_USER" → verification ≡ some "SESSION_NOT_ACTIVE"
  pub isolate : action ≡ "ISOLATE_ENDPOINT" → verification ≡ some "ISOLATION_VERIFIED"
  pub disable : action ≡ "DISABLE_NETWORK" → verification ≡ some "ISOLATION_VERIFIED"
  pub unisolate : action ≡ "UNISOLATE_ENDPOINT" → verification ≡ some "UNISOLATION_VERIFIED"
  pub quarantine : action ≡ "QUARANTINE_FILE" → verification ≡ some "FILE_QUARANTINED"
  pub lock : action ≡ "LOCK_LOCAL_ACCOUNT" → verification ≡ some "LOCAL_ACCOUNT_DISABLED"
  pub unlock :
      action ≡ "UNLOCK_LOCAL_ACCOUNT"
      → (verification ≡ some "LOCAL_ACCOUNT_ENABLED")
        ⊎ (verification ≡ some "LOCAL_ACCOUNT_RESTORED_DISABLED")

is_text_in-one :
    (t : String) (o : Option String) → is_text_in (t ∷ []) (value_of o) ≡ true → o ≡ some t
is_text_in-one t none h = absurd (cc h)
is_text_in-one t (some s) h = elim (Bool-cases (str_eq t s)) [
  | inl same ↦ ap some (sym ((eq_iff t s).0 same))
  | inr other ↦ absurd (cc (rw (other) at h))
]

is_text_in-two :
    (t u : String) (o : Option String)
    → is_text_in (t ∷ u ∷ []) (value_of o) ≡ true
    → (o ≡ some t) ⊎ (o ≡ some u)
is_text_in-two t u none h = absurd (cc h)
is_text_in-two t u (some s) h = elim (Bool-cases (str_eq t s)) [
  | inl same ↦ inl (ap some (sym ((eq_iff t s).0 same)))
  | inr other ↦ inr (is_text_in-one u (some s) (rw (other) at h))
]

-- The gate only lets a success through that shows what its action asks for.
pub may_succeed-Shown :
    (action : String) (o : Option String) → may_succeed action (value_of o) ≡ true → Shown action o
unfolding may_succeed required
may_succeed-Shown action o h = record {
  no_lock = λ is. cc (at_action is);
  kill = λ is. is_text_in-one "PROCESS_NOT_ACTIVE" o (at_action is);
  logout = λ is. is_text_in-one "SESSION_NOT_ACTIVE" o (at_action is);
  logoff = λ is. is_text_in-one "SESSION_NOT_ACTIVE" o (at_action is);
  isolate = λ is. is_text_in-one "ISOLATION_VERIFIED" o (at_action is);
  disable = λ is. is_text_in-one "ISOLATION_VERIFIED" o (at_action is);
  unisolate = λ is. is_text_in-one "UNISOLATION_VERIFIED" o (at_action is);
  quarantine = λ is. is_text_in-one "FILE_QUARANTINED" o (at_action is);
  lock = λ is. is_text_in-one "LOCAL_ACCOUNT_DISABLED" o (at_action is);
  unlock = λ is.
      is_text_in-two "LOCAL_ACCOUNT_ENABLED" "LOCAL_ACCOUNT_RESTORED_DISABLED" o (at_action is);
}
  where
    at_action : {b : String} → action ≡ b → may_succeed b (value_of o) ≡ true
    at_action is = subst (λ x. may_succeed x (value_of o) ≡ true) is h
