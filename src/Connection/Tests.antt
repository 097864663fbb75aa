-- ===== src/Connection/Tests.antt =====
-- The properties of the connection at concrete machines.
use zero_trust_continuous_au.Base.{
  ℕ, ◌≡◌, ◌≢◌, ◌↔◌, ◌⊎◌, inr, true, false, some, none, List, [], ◌∷◌, All,
}
use zero_trust_continuous_au.Connection.{
  State, starting, connecting, online, offline, stopped, Machine, Request, done, transition, run,
  name, find_state, move, same, State-discrete, allowed, transitions,
}
use zero_trust_continuous_au.Connection.Diagram.{
  ◌⇢◌, Unforced, IsEnding, transition_follows_diagram, machine_live,
}
use zero_trust_continuous_au.Connection.Durable.{
  IsRecorded, IsChange, transition-IsRecorded, run-IsRecorded,
}

abbrev machine_in : State → Machine
machine_in s = record { state = s; changed_at = 0; store = some [] }

abbrev call : State → ℕ → Request
call s t = record { target = name s; reason = none; force = false; now = t }

abbrev calls : List Request
calls = call connecting 1 ∷ call online 2 ∷ call starting 3 ∷ call offline 4 ∷ []

transition_follows_diagram_example :
    let (m', _) = transition (name online) none false 5 (machine_in offline) in
    ((m'.state ≡ online) ↔ ((offline ≡ online) ⊎ (offline ⇢ online)))
    × (¬ ((offline ≡ online) ⊎ (offline ⇢ online)) → m' ≡ machine_in offline)
transition_follows_diagram_example = transition_follows_diagram online none 5 (machine_in offline)

refused :
    (p t : State) → (transition (name online) none false 5 (machine_in offline)).1 ≢ done p t true
unfolding transition find_state name move same State-discrete allowed transitions
refused p t h = cc

machine_live_example :
    ((rs : List Request) × All Unforced rs × ((run rs (machine_in offline)).state ≡ stopped))
    × (¬ IsEnding offline
        → (rs : List Request) × All Unforced rs × ((run rs (machine_in offline)).state ≡ online))
machine_live_example = machine_live (machine_in offline)

changes : IsChange (transition "CONNECTING" none false 7 (machine_in starting)).1
unfolding transition find_state name move same State-discrete allowed transitions
changes = tt

recorded : IsRecorded (transition "CONNECTING" none false 7 (machine_in starting)).0
recorded = transition-IsRecorded "CONNECTING" none false 7 (machine_in starting) (inr changes)

run-IsRecorded_example :
    IsRecorded (run calls (transition "CONNECTING" none false 7 (machine_in starting)).0)
run-IsRecorded_example =
    run-IsRecorded calls (transition "CONNECTING" none false 7 (machine_in starting)).0 recorded
