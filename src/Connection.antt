-- ===== src/Connection.antt =====
-- agent/connection.py: the agent's connection to its manager as an explicit state machine. The lock
-- makes each `transition` one step. A store holds what `AgentState.set` was last given for a key.
pub mod Diagram
pub mod Durable
mod Tests
use zero_trust_continuous_au.Base.{
  ℕ, String, ◌≡◌, Bool, true, false, not, ◌&&◌, ◌||◌, Option, none, some, List, [], ◌∷◌, str_eq,
  any, if◌then◌else◌,
}
use zero_trust_continuous_au.Base.Dict.{Dict, lookup, insert}

pub data State : Type 0 where
  starting connecting online degraded offline reconnecting syncing stopping stopped : State

unfoldable pub name : State → String
name starting = "STARTING"
name connecting = "CONNECTING"
name online = "ONLINE"
name degraded = "DEGRADED"
name offline = "OFFLINE"
name reconnecting = "RECONNECTING"
name syncing = "SYNCING"
name stopping = "STOPPING"
name stopped = "STOPPED"

pub State-discrete : Discrete State
State-discrete = hlevel

abbrev pub states : List State
states =
    starting ∷ connecting ∷ online ∷ degraded ∷ offline ∷ reconnecting ∷ syncing ∷ stopping
    ∷ stopped ∷ []

-- `target in self.STATES`, with the state that the text names.
unfoldable pub find_state : List State → String → Option State
unfolding name
find_state [] s = none
find_state (x ∷ xs) s = if str_eq (name x) s then some x else find_state xs s

-- `TRANSITIONS[previous]`
unfoldable pub transitions : State → List State
transitions starting = connecting ∷ offline ∷ stopping ∷ []
transitions connecting = online ∷ syncing ∷ offline ∷ degraded ∷ stopping ∷ []
transitions online = degraded ∷ offline ∷ syncing ∷ stopping ∷ []
transitions degraded = online ∷ offline ∷ reconnecting ∷ syncing ∷ stopping ∷ []
transitions offline = reconnecting ∷ connecting ∷ stopping ∷ []
transitions reconnecting = syncing ∷ online ∷ offline ∷ degraded ∷ stopping ∷ []
transitions syncing = online ∷ offline ∷ degraded ∷ stopping ∷ []
transitions stopping = stopped ∷ []
transitions stopped = []

-- Equality of states, as Python compares their texts.
unfoldable pub same : State → State → Bool
unfolding State-discrete
same x y = elim (State-discrete x y) [ yes _ ↦ true | no _ ↦ false ]

unfoldable pub allowed : State → State → Bool
unfolding transitions same
allowed previous target = any (same target) (transitions previous)

-- A value of the store: a state's name, or the details of a change.
pub data Stored : Type 0 where
  connection_state : State → Stored
  details : State → State → ℕ → Option String → Stored

pub record Machine : Type 0 where
  pub state : State
  pub changed_at : ℕ
  -- `none` where no store is given
  pub store : Option (Dict Stored)

pub data Outcome : Type 0 where
  unknown_state : Outcome
  invalid_transition : State → State → Outcome
  done : State → State → Bool → Outcome

abbrev pub state_key : String
state_key = "connection_state"

abbrev pub details_key : String
details_key = "connection_state_details"

-- The two `set` calls.
unfoldable pub save :
    State → State → ℕ → Option String → Option (Dict Stored) → Option (Dict Stored)
save previous target now reason none = none
save previous target now reason (some d) = some (
    insert details_key (details previous target now reason)
      (insert state_key (connection_state target) d))

unfoldable pub move : State → Option String → Bool → ℕ → Machine → Machine × Outcome
unfolding allowed save
move target reason force now m =
    if same target m.state
    then (m, done m.state target false)
    else if not force && not (allowed m.state target)
    then (m, invalid_transition m.state target)
    else (
      record { state = target; changed_at = now; store = save m.state target now reason m.store },
      done m.state target true,
    )

unfoldable pub transition : String → Option String → Bool → ℕ → Machine → Machine × Outcome
transition target reason force now m = elim (find_state states target) [
  | none ↦ (m, unknown_state)
  | some t ↦ move t reason force now m
]

-- A call of `transition`, and a sequence of them.
pub record Request : Type 0 where
  pub target : String
  pub reason : Option String
  pub force : Bool
  pub now : ℕ

unfoldable pub run : List Request → Machine → Machine
run [] m = m
run (r ∷ rs) m = run rs (transition r.target r.reason r.force r.now m).0
