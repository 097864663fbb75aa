-- ===== src/Connection/Durable.antt =====
-- What the store holds of the connection after calls of `transition`.
use zero_trust_continuous_au.Base.{
  ℕ, String, ◌≡◌, Bool, true, not, ◌&&◌, Option, none, some, List, [], ◌∷◌, arith, ◌⊎◌,
  Option-cases, inl, inr, eq_iff, if_intro,
}
use zero_trust_continuous_au.Base.Dict.{Dict, lookup, lookup-insert_self, lookup-insert_ne}
use zero_trust_continuous_au.Connection.{
  State, states, find_state, same, allowed, Machine, Outcome, done, move, transition, Request, run,
  Stored, connection_state, details, state_key, details_key, save,
}

-- The store, where there is one, names the machine's state under both keys, with its time.
abbrev pub Holds : State → ℕ → Option (Dict Stored) → Type 0
Holds s at none = Unit
Holds s at (some d) =
    (lookup state_key d ≡ some (connection_state s))
    × ((p : State) × (r : Option String) × (lookup details_key d ≡ some (details p s at r)))

abbrev pub IsRecorded : Machine → Type 0
IsRecorded m = Holds m.state m.changed_at m.store

save-Holds :
    (p t : State) (now : ℕ) (reason : Option String) (st : Option (Dict Stored))
    → Holds t now (save p t now reason st)
unfolding save
save-Holds p t now reason none = tt
save-Holds p t now reason (some d) = (
  rw (lookup-insert_ne details_key state_key _ _ (ground (arith, eq_iff details_key state_key)))
      (lookup-insert_self state_key _ d),
  (p, reason, lookup-insert_self details_key _ _),
)

abbrev pub IsChange : Outcome → Type 0
IsChange (done _ _ true) = Unit
IsChange _ = ⊥

move-IsRecorded :
    (t : State) (reason : Option String) (force : Bool) (now : ℕ) (m : Machine)
    → let (m', o) = move t reason force now m in IsRecorded m ⊎ IsChange o → IsRecorded m'
unfolding move
move-IsRecorded t reason force now m =
    let P = λ (r : Machine × Outcome). IsRecorded m ⊎ IsChange r.1 → IsRecorded r.0 in
    if_intro P (same t m.state) (λ _. kept)
      λ _.
        if_intro P (not force && not (allowed m.state t)) (λ _. kept)
          (λ _ _. save-Holds m.state t now reason m.store)
  where
    kept : IsRecorded m ⊎ ⊥ → IsRecorded m
    kept (inl h) = h
    kept (inr x) = absurd x

-- After a call that changed the state, the store names the new state and time under both keys; a call
-- that changes nothing leaves a store that did so.
pub transition-IsRecorded :
    (target : String) (reason : Option String) (force : Bool) (now : ℕ) (m : Machine)
    → let (m', o) = transition target reason force now m in
      IsRecorded m ⊎ IsChange o → IsRecorded m'
transition-IsRecorded target reason force now m = elim (Option-cases (find_state states target)) [
  | inl unknown ↦ unfold transition in rw (unknown, transition) kept
  | inr (t, e) ↦ unfold transition in rw (e, transition) (move-IsRecorded t reason force now m)
]
  where
    kept : IsRecorded m ⊎ ⊥ → IsRecorded m
    kept (inl h) = h
    kept (inr x) = absurd x

-- However the calls go, a store that names the machine's state goes on naming it.
pub run-IsRecorded : (rs : List Request) (m : Machine) → IsRecorded m → IsRecorded (run rs m)
unfolding run
run-IsRecorded [] m h = h
run-IsRecorded (r ∷ rs) m h =
    run-IsRecorded rs _ (transition-IsRecorded r.target r.reason r.force r.now m (inl h))
