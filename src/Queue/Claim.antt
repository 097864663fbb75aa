-- ===== src/Queue/Claim.antt =====
-- What `claim_batch` gives: a bounded batch of rows that no other claim gives while they are in flight.
use zero_trust_continuous_au.Base.{
  ℕ, zero, suc, String, ◌≡◌, ◌≤◌, ◌<◌, ◌+◌, max, refl, ◌∙◌, ap, Bool, true, false, some, List, [],
  ◌∷◌, map, arith, eq_iff, Bool-cases, inl, inr, All, take, keep, length,
}
use zero_trust_continuous_au.Row.{
  Event, in_flight, find, update, listed, recover_stale, put_in_flight, is_stale, is_due,
}
use zero_trust_continuous_au.Queue.Table.{Unique, find-update, update-Unique, map_event}
use zero_trust_continuous_au.Queue.Keeps.{recover_stale-KeepsContent, put_in_flight-KeepsContent}
use zero_trust_continuous_au.Queue.{Queue, claim_batch, claimed}

abbrev pub ids_of : List Event → List String
ids_of = map (λ e. e.event_id)

take-All : (P : Event → Type 0) (n : ℕ) (es : List Event) → All P es → All P (take n es)
take-All P zero es h = tt
take-All P (suc n) [] h = tt
take-All P (suc n) (e ∷ es) h = (h.0, take-All P n es h.1)

length-take : (n : ℕ) (es : List Event) → length (take n es) ≤ n
length-take zero es = omega arith
length-take (suc n) [] = omega arith
length-take (suc n) (e ∷ es) = omega (arith, length-take n es)

keep-All :
    (P : Event → Type 0) (p : Event → Bool) (es : List Event)
    → All (λ e. p e ≡ true → P e) es
    → All P (keep p es)
keep-All P p [] h = tt
keep-All P p (e ∷ es) h = go (p e) refl (keep-All P p es h.1)
  where
    go :
        (b : Bool)
        → p e ≡ b
        → All P (keep p es)
        → All P (elim b [ true ↦ e ∷ keep p es | false ↦ keep p es ])
    go false out hs = hs
    go true inside hs = (h.0 inside, hs)

-- A predicate on the rows of an updated table.
update-All :
    (P : Event → Type 0) (f : Event → Event) (es : List Event)
    → ((e : Event) → P (f e))
    → All P (update f es)
unfolding update
update-All P f [] h = tt
update-All P f (e ∷ es) h = (h e, update-All P f es h)

update_twice-All :
    (P : Event → Type 0) (f g : Event → Event) (es : List Event)
    → ((e : Event) → P (g (f e)))
    → All P (update g (update f es))
unfolding update
update_twice-All P f g [] h = tt
update_twice-All P f g (e ∷ es) h = (h e, update_twice-All P f g es h)

put_in_flight-listed :
    (ids : List String) (now : ℕ) (e : Event)
    → listed ids e.event_id ≡ true
    → some (put_in_flight ids now e)
      ≡ some (record e {
        status = in_flight;
        attempt_count = e.attempt_count + 1;
        last_attempt_at = some now;
      })
unfolding put_in_flight
put_in_flight-listed ids now e h = rw (h) refl

-- A row that was put in flight is not due before its timeout.
put_in_flight_not_due :
    (ids : List String) (now timeout later : ℕ) (e : Event)
    → later < now + max 30 timeout
    → is_due later (recover_stale timeout later (put_in_flight ids now e)) ≡ true
    → listed ids (recover_stale timeout later (put_in_flight ids now e)).event_id ≡ false
unfolding is_due recover_stale put_in_flight is_stale
put_in_flight_not_due ids now timeout later e soon due = elim (Bool-cases (listed ids e.event_id)) [
  | inl inside ↦ ground arith
  | inr outside ↦ ground arith
]

-- What a second claim gives, made before the timeout of the first has run out, is none of what the
-- first one gave.
pub claim_batch_disjoint :
    (timeout now n : ℕ) (timeout' later n' : ℕ) (q : Queue)
    → later < now + max 30 timeout'
    → let (q1, rows) = claim_batch timeout now n q in
      let (_, rows') = claim_batch timeout' later n' q1 in
      All (λ e. listed (ids_of rows) e.event_id ≡ false) rows'
unfolding claim_batch claimed
claim_batch_disjoint timeout now n timeout' later n' q soon =
    let ids = ids_of (claimed timeout now n q) in
    let recovered = update (recover_stale timeout now) q.events in
    let rows = update (recover_stale timeout' later) (update (put_in_flight ids now) recovered) in
    take-All (λ e. listed ids e.event_id ≡ false) (max 1 n') (keep (is_due later) rows)
      (keep-All (λ e. listed ids e.event_id ≡ false) (is_due later) rows
        (update_twice-All (λ e. is_due later e ≡ true → listed ids e.event_id ≡ false)
          (put_in_flight ids now) (recover_stale timeout' later) recovered
          (λ e. put_in_flight_not_due ids now timeout' later e soon)))

weaken-All :
    (P Q : Event → Type 0) (es : List Event) → ((e : Event) → P e → Q e) → All P es → All Q es
weaken-All P Q [] f h = tt
weaken-All P Q (e ∷ es) f h = (f e h.0, weaken-All P Q es f h.1)

pair-All : (P Q : Event → Type 0) (es : List Event) → All P es → All Q es → All (λ e. P e × Q e) es
pair-All P Q [] h k = tt
pair-All P Q (e ∷ es) h k = ((h.0, k.0), pair-All P Q es h.1 k.1)

-- Where ids are unique, every row is what its id finds.
Unique-found : (es : List Event) → Unique es → All (λ e. find e.event_id es ≡ some e) es
unfolding find
Unique-found [] u = tt
Unique-found (x ∷ es) u = (
  ground (arith, eq_iff x.event_id x.event_id),
  weaken-All (λ e. find e.event_id es ≡ some e) (λ e. find e.event_id (x ∷ es) ≡ some e) es
      (λ e h. ground (arith, h, u.0, eq_iff x.event_id e.event_id)) (Unique-found es u.1),
)

ids_of-listed : (es : List Event) → All (λ e. listed (ids_of es) e.event_id ≡ true) es
unfolding listed
ids_of-listed [] = tt
ids_of-listed (x ∷ es) = (
  ground (arith, eq_iff x.event_id x.event_id),
  weaken-All (λ e. listed (ids_of es) e.event_id ≡ true)
      (λ e. listed (ids_of (x ∷ es)) e.event_id ≡ true) es (λ e h. ground (arith, h))
      (ids_of-listed es),
)

constant-All : (es : List Event) (p : Event → Bool) → All (λ e. p e ≡ true → p e ≡ true) es
constant-All [] p = tt
constant-All (e ∷ es) p = ((λ h. h), constant-All es p)

-- Where event ids are unique, a claim gives at most `max(1, batch_size)` rows. Each of them was due, and in
-- the table it is now in flight since this moment, with one attempt more and otherwise as it was given.
pub claim_batch_takes :
    (timeout now n : ℕ) (q : Queue)
    → Unique q.events
    → let (q1, rows) = claim_batch timeout now n q in
      (length rows ≤ max 1 n)
      × All
          (λ e.
            (is_due now e ≡ true)
            × (find e.event_id q1.events
                ≡ some (record e {
                  status = in_flight;
                  attempt_count = e.attempt_count + 1;
                  last_attempt_at = some now;
                })))
          rows
unfolding claim_batch claimed
claim_batch_takes timeout now n q u =
    let recovered = update (recover_stale timeout now) q.events in
    let rows = claimed timeout now n q in
    let due = keep (is_due now) recovered in
    let Found = λ (e : Event). find e.event_id recovered ≡ some e in
    let Listed = λ (e : Event). listed (ids_of rows) e.event_id ≡ true in
    let found = take-All Found (max 1 n) due (
      keep-All Found (is_due now) recovered (
        weaken-All Found (λ e. is_due now e ≡ true → Found e) recovered (λ e h _. h)
          (Unique-found recovered
            (update-Unique _ (recover_stale-KeepsContent timeout now) q.events u)))) in
    let are_due =
      take-All (λ e. is_due now e ≡ true) (max 1 n) due
        (keep-All (λ e. is_due now e ≡ true) (is_due now) recovered
          (constant-All recovered (is_due now))) in
    (
      length-take (max 1 n) due,
      pair-All (λ e. is_due now e ≡ true) _ rows are_due
          (weaken-All (λ e. Found e × Listed e) _ rows
            (λ e (at, inside).
              find-update _ (put_in_flight-KeepsContent (ids_of rows) now) e.event_id recovered
              ∙ ap (map_event (put_in_flight (ids_of rows) now)) at
              ∙ put_in_flight-listed (ids_of rows) now e inside)
            (pair-All Found Listed rows found (ids_of-listed rows))),
    )
