-- ===== src/Queue/Table.antt =====
-- What the statements do to a row that is looked up.
use zero_trust_continuous_au.Base.{
  String, ◌≡◌, refl, ◌∙◌, ap, Bool, true, false, not, Option, none, some, List, [], ◌∷◌, ◌++◌, keep,
  arith, str_eq, eq_iff, if◌then◌else◌, Bool-cases, inl, inr,
}
use zero_trust_continuous_au.Json.{Value}
use zero_trust_continuous_au.Row.{Event, find, update, listed}

-- What the agent recorded of an event, apart from how its upload stands.
abbrev pub content : Event → String × (String × (String × (Value × String)))
content e = (e.event_id, (e.collector_type, (e.severity, (e.payload, e.timestamp))))

abbrev pub KeepsContent : (Event → Event) → Type 0
KeepsContent f = (e : Event) → content (f e) ≡ content e

-- No two rows have the same id.
abbrev pub Unique : List Event → Type 0
Unique [] = Unit
Unique (e ∷ es) = (find e.event_id es ≡ none) × Unique es

abbrev pub map_event : (Event → Event) → Option Event → Option Event
map_event f none = none
map_event f (some e) = some (f e)

module _ (f : Event → Event) (keeps : KeepsContent f) where
  pub find-update : (k : String) (es : List Event) → find k (update f es) ≡ map_event f (find k es)
  unfolding find update
  find-update k [] = refl
  find-update k (e ∷ es) =
      ap (λ i. if str_eq i k then some (f e) else find k (update f es)) (ap (λ c. c.0) (keeps e))
      ∙ (elim (Bool-cases (str_eq e.event_id k)) [
        | inl h ↦ rw (h) refl
        | inr h ↦ rw (h) (find-update k es)
      ])

  pub update-Unique : (es : List Event) → Unique es → Unique (update f es)
  unfolding update
  update-Unique [] h = tt
  update-Unique (e ∷ es) h =
      let same_id : (f e).event_id ≡ e.event_id = ap (λ c. c.0) (keeps e) in
      (rw (same_id) (find-update e.event_id es ∙ ap (map_event f) h.0), update-Unique es h.1)

pub find-append :
    (k : String) (es : List Event) (e : Event)
    → find k (es ++ (e ∷ []))
      ≡ elim (find k es) [ some x ↦ some x | none ↦ if str_eq e.event_id k then some e else none ]
unfolding find
find-append k [] e = refl
find-append k (x ∷ es) e = ground (arith, find-append k es e)

pub append-Unique :
    (es : List Event) (e : Event) → find e.event_id es ≡ none → Unique es → Unique (es ++ (e ∷ []))
unfolding find
append-Unique [] e h u = (refl, tt)
append-Unique (x ∷ es) e h u = (
  ground (
    arith,
    find-append x.event_id es e,
    eq_iff x.event_id e.event_id,
    eq_iff e.event_id x.event_id,
  ),
  append-Unique es e (ground arith) u.1,
)

pub find-keep :
    (ks : List String) (k : String) (es : List Event)
    → find k (keep (λ e. not (listed ks e.event_id)) es) ≡ (if listed ks k then none else find k es)
unfolding find
find-keep ks k [] = ground arith
find-keep ks k (e ∷ es) = ground (arith, find-keep ks k es, eq_iff e.event_id k)

pub keep-Unique :
    (ks : List String) (es : List Event)
    → Unique es
    → Unique (keep (λ e. not (listed ks e.event_id)) es)
keep-Unique ks [] h = tt
keep-Unique ks (e ∷ es) h = go (not (listed ks e.event_id)) refl (keep-Unique ks es h.1)
  where
    rest : List Event
    rest = keep (λ e. not (listed ks e.event_id)) es

    go :
        (b : Bool)
        → not (listed ks e.event_id) ≡ b
        → Unique rest
        → Unique (elim b [ true ↦ e ∷ rest | false ↦ rest ])
    go false out u = u
    go true inside u = (find-keep ks e.event_id es ∙ ground (arith, h.0), u)
