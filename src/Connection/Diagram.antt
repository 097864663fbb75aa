-- ===== src/Connection/Diagram.antt =====
-- The transition diagram as a relation, and what `transition` does with it.
use zero_trust_continuous_au.Base.{
  ℕ, String, ◌≡◌, ◌≢◌, refl, Bool, true, false, Option, none, some, List, [], ◌∷◌, arith, ◌⊎◌, sym,
  ap, ◌∙◌, All, Bool-cases, Option-cases, inl, inr, ◌↔◌,
}
use zero_trust_continuous_au.Connection.{
  State, starting, connecting, online, degraded, offline, reconnecting, syncing, stopping, stopped,
  name, states, find_state, same, allowed, Machine, done, move, transition, Request, run,
}

infix 40 ◌⇢◌ ◌⇢*◌
-- The edges, by what they are for.
pub data ◌⇢◌ : State → State → Type 0 where
  connect : starting ⇢ connecting
  start_offline : starting ⇢ offline
  connected : connecting ⇢ online
  connect_sync : connecting ⇢ syncing
  connect_lost : connecting ⇢ offline
  connect_degraded : connecting ⇢ degraded
  degrade : online ⇢ degraded
  lose : online ⇢ offline
  sync : online ⇢ syncing
  recover : degraded ⇢ online
  degraded_lost : degraded ⇢ offline
  degraded_reconnect : degraded ⇢ reconnecting
  degraded_sync : degraded ⇢ syncing
  reconnect : offline ⇢ reconnecting
  connect_again : offline ⇢ connecting
  reconnect_sync : reconnecting ⇢ syncing
  reconnected : reconnecting ⇢ online
  reconnect_lost : reconnecting ⇢ offline
  reconnect_degraded : reconnecting ⇢ degraded
  synced : syncing ⇢ online
  sync_lost : syncing ⇢ offline
  sync_degraded : syncing ⇢ degraded
  stop : {s : State} → s ≢ stopping → s ≢ stopped → s ⇢ stopping
  halt : stopping ⇢ stopped

pub data ◌⇢*◌ : State → State → Type 0 where
  arrived : {a : State} → a ⇢* a
  next : {a b c : State} → a ⇢ b → b ⇢* c → a ⇢* c

ruleset edges = (
  connect, start_offline, connected, connect_sync, connect_lost, connect_degraded, degrade, lose,
  sync, recover, degraded_lost, degraded_reconnect, degraded_sync, reconnect, connect_again,
  reconnect_sync, reconnected, reconnect_lost, reconnect_degraded, synced, sync_lost, sync_degraded,
  halt,
)

-- The table allows exactly the edges of the diagram.
allowed-⇢ : (s t : State) → allowed s t ≡ true → s ⇢ t
unfolding allowed
allowed-⇢ s t h = grind (arith, edges, stop)

⇢-allowed : {s t : State} → s ⇢ t → allowed s t ≡ true
unfolding allowed
⇢-allowed connect = refl
⇢-allowed (stop {s = starting} p q) = refl
⇢-allowed (stop {s = connecting} p q) = refl
⇢-allowed (stop {s = online} p q) = refl
⇢-allowed (stop {s = degraded} p q) = refl
⇢-allowed (stop {s = offline} p q) = refl
⇢-allowed (stop {s = reconnecting} p q) = refl
⇢-allowed (stop {s = syncing} p q) = refl
⇢-allowed (stop {s = stopping} p q) = absurd (p refl)
⇢-allowed (stop {s = stopped} p q) = absurd (q refl)
⇢-allowed _ = refl

pub find-name : (t : State) → find_state states (name t) ≡ some t
unfolding find_state
find-name starting = refl
find-name _ = refl

pub same_iff : (s t : State) → (same s t ≡ true) ↔ (s ≡ t)
unfolding same
same_iff s t = grind arith

move_unforced :
    (t : State) (reason : Option String) (now : ℕ) (m : Machine)
    → let (m', _) = move t reason false now m in
      ((m'.state ≡ t) × ((m.state ≡ t) ⊎ (m.state ⇢ t)))
      ⊎ ((m' ≡ m) × (m.state ≢ t) × ¬ (m.state ⇢ t))
unfolding move
move_unforced t reason now m = elim (Bool-cases (same t m.state)) [
  | inl eq ↦
      rw (eq, move) (inl (sym ((same_iff t m.state).0 eq), inl (sym ((same_iff t m.state).0 eq))))
  | inr ne ↦ elim (Bool-cases (allowed m.state t)) [
    | inl edge ↦ rw (ne, edge, move) (inl (refl, inr (allowed-⇢ m.state t edge)))
    | inr bar ↦
        rw (ne, bar, move)
          (inr (refl, λ p. cc ((same_iff t m.state).1 (sym p)), λ e. cc (⇢-allowed e)))
  ]
]

-- A call that is not forced, for the name of a state `t`, ends in `t` exactly when the machine is in
-- `t` already or the diagram has an edge to `t`; otherwise the machine is as before.
pub transition_follows_diagram :
    (t : State) (reason : Option String) (now : ℕ) (m : Machine)
    → let (m', _) = transition (name t) reason false now m in
      ((m'.state ≡ t) ↔ ((m.state ≡ t) ⊎ (m.state ⇢ t)))
      × (¬ ((m.state ≡ t) ⊎ (m.state ⇢ t)) → m' ≡ m)
unfolding transition
transition_follows_diagram t reason now m =
    rw (find-name t, transition) (decided (move_unforced t reason now m))
  where
    decided :
        {m' : Machine}
        → ((m'.state ≡ t) × ((m.state ≡ t) ⊎ (m.state ⇢ t)))
          ⊎ ((m' ≡ m) × (m.state ≢ t) × ¬ (m.state ⇢ t))
        → ((m'.state ≡ t) ↔ ((m.state ≡ t) ⊎ (m.state ⇢ t)))
          × (¬ ((m.state ≡ t) ⊎ (m.state ⇢ t)) → m' ≡ m)
    decided (inl (there, way)) = ((λ _. way, λ _. there), λ h. absurd (h way))
    decided (inr (stays, away, bar)) = (
      (
        λ p. absurd (away (ap (λ (x : Machine). x.state) (sym stays) ∙ p)),
        elim [ inl e ↦ absurd (away e) | inr e ↦ absurd (bar e) ],
      ),
      λ _. stays,
    )

move_unchanged :
    (t : State) (reason : Option String) (force : Bool) (now : ℕ) (m : Machine)
    → ((p u : State) → (move t reason force now m).1 ≢ done p u true)
    → (move t reason force now m).0 ≡ m
unfolding move
move_unchanged t reason force now m h = ground (arith, h m.state t)

-- A refused call, of an unknown name or with no edge, leaves the machine and its store as they were;
-- so does a call for the state that the machine is in, forced or not.
pub transition_unchanged :
    (target : String) (reason : Option String) (force : Bool) (now : ℕ) (m : Machine)
    → ((p t : State) → (transition target reason force now m).1 ≢ done p t true)
    → (transition target reason force now m).0 ≡ m
transition_unchanged target reason force now m h = elim (Option-cases (find_state states target)) [
  | inl unknown ↦ unfold transition in rw (unknown, transition)
  | inr (t, e) ↦
      unfold transition in
      rw (e, transition)
        (move_unchanged t reason force now m (λ p u. rw (e, transition) at (h p u)))
]

⇢*-next : {s t u : State} → s ⇢* t → t ⇢ u → s ⇢* u
⇢*-next arrived e = next e arrived
⇢*-next (next d r) e = next d (⇢*-next r e)

abbrev pub Unforced : Request → Type 0
Unforced r = r.force ≡ false

step_along :
    (r : Request) (m : Machine)
    → Unforced r
    → m.state ⇢* (transition r.target r.reason r.force r.now m).0.state
step_along r m h = elim (Option-cases (find_state states r.target)) [
  | inl unknown ↦ unfold transition in rw (unknown, transition) arrived
  | inr (t, e) ↦
      unfold transition in rw (e, transition, h) (along (move_unforced t r.reason r.now m))
]
  where
    along :
        {t : State} {m' : Machine}
        → ((m'.state ≡ t) × ((m.state ≡ t) ⊎ (m.state ⇢ t)))
          ⊎ ((m' ≡ m) × (m.state ≢ t) × ¬ (m.state ⇢ t))
        → m.state ⇢* m'.state
    along (inl (there, inl stay)) = rw (there, stay) arrived
    along (inl (there, inr edge)) = rw there (next edge arrived)
    along (inr (stays, _, _)) = rw stays arrived

⇢*-trans : {s t u : State} → s ⇢* t → t ⇢* u → s ⇢* u
⇢*-trans arrived r = r
⇢*-trans (next d q) r = next d (⇢*-trans q r)

-- However the calls go, accepted or refused, a run without `force` moves along the diagram.
pub run_along : (rs : List Request) (m : Machine) → All Unforced rs → m.state ⇢* (run rs m).state
unfolding run
run_along [] m h = arrived
run_along (r ∷ rs) m h =
    ⇢*-trans (step_along r m h.0)
      (run_along rs (transition r.target r.reason r.force r.now m).0 h.1)

abbrev pub IsEnding : State → Type 0
IsEnding s = (s ≡ stopping) ⊎ (s ≡ stopped)

⇢-IsEnding : {s t : State} → s ⇢ t → IsEnding s → IsEnding t
⇢-IsEnding halt h = inr refl
⇢-IsEnding (stop p q) h = inl refl
⇢-IsEnding connect h = ground arith
⇢-IsEnding _ h = ground arith

⇢*-IsEnding : {s t : State} → s ⇢* t → IsEnding s → IsEnding t
⇢*-IsEnding arrived h = h
⇢*-IsEnding (next e r) h = ⇢*-IsEnding r (⇢-IsEnding e h)

-- Once a machine is stopping or stopped, no run without `force` brings it back.
pub run_no_return :
    (rs : List Request) (m : Machine)
    → All Unforced rs
    → IsEnding m.state
    → IsEnding (run rs m).state
run_no_return rs m h e = ⇢*-IsEnding (run_along rs m h) e

to_stopped : (s : State) → s ⇢* stopped
to_stopped stopped = arrived
to_stopped stopping = next halt arrived
to_stopped _ = next (stop (λ p. cc) (λ p. cc)) (next halt arrived)

to_online : (s : State) → ¬ IsEnding s → s ⇢* online
to_online stopping h = absurd (h (inl refl))
to_online stopped h = absurd (h (inr refl))
to_online online h = arrived
to_online _ h = search (arrived, next, edges)

-- The calls that follow a way through the diagram, with no reasons and at time 0.
abbrev request : State → Request
request t = record { target = name t; reason = none; force = false; now = 0 }

abbrev requests : {s t : State} → s ⇢* t → List Request
requests arrived = []
requests (next {b = u} e r) = request u ∷ requests r

requests-Unforced : {s t : State} (r : s ⇢* t) → All Unforced (requests r)
requests-Unforced arrived = tt
requests-Unforced (next e r) = (refl, requests-Unforced r)

requests_lead :
    {s t : State} (r : s ⇢* t) (m : Machine) → m.state ≡ s → (run (requests r) m).state ≡ t
unfolding run
requests_lead arrived m e = e
requests_lead (next {b = u} d r) m e =
    requests_lead r _ ((transition_follows_diagram u none 0 m).0.1 (inr (rw e d)))

-- From every state there are calls without `force` that stop the machine, and from every state other
-- than STOPPING and STOPPED there are calls without `force` that bring it to ONLINE.
pub machine_live :
    (m : Machine)
    → ((rs : List Request) × All Unforced rs × ((run rs m).state ≡ stopped))
      × (¬ IsEnding m.state → (rs : List Request) × All Unforced rs × ((run rs m).state ≡ online))
machine_live m =
    let down = to_stopped m.state in
    (
      (requests down, requests-Unforced down, requests_lead down m refl),
      λ h.
          let up = to_online m.state h in
          (requests up, requests-Unforced up, requests_lead up m refl),
    )
