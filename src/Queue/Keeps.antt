-- ===== src/Queue/Keeps.antt =====
-- No event is lost: what each call on the queue keeps of the rows.
use zero_trust_continuous_au.Base.{
  ℕ, String, ◌≡◌, refl, ◌∙◌, ap, false, Option, none, some, List, [], ◌∷◌, ◌++◌, arith, str_eq,
  Option-cases, ◌⊎◌, inl, inr, All, if_intro,
}
use zero_trust_continuous_au.Base.Int.{ℤ}
use zero_trust_continuous_au.Json.{Value}
use zero_trust_continuous_au.Row.{
  Event, find, update, listed, recover_at_start, recover_legacy, recover_stale, put_in_flight,
  retry_event, where_id, new_event, is_in_flight, is_stale,
}
use zero_trust_continuous_au.Queue.{
  Queue, Op, start, legacy, put, claim, retry, synced, step, run, enqueue, claim_batch, mark_retry,
  retry_loop, mark_synced, warn_capacity,
}
use zero_trust_continuous_au.Queue.Table.{
  content, KeepsContent, Unique, map_event, find-update, update-Unique, find-append, append-Unique,
  find-keep, keep-Unique,
}

recover_at_start-KeepsContent : KeepsContent recover_at_start
unfolding recover_at_start
recover_at_start-KeepsContent e =
    if_intro (λ x. content x ≡ content e) (is_in_flight e.status) (λ _. refl) (λ _. refl)

recover_legacy-KeepsContent : KeepsContent recover_legacy
unfolding recover_legacy
recover_legacy-KeepsContent e = if_intro (λ x. content x ≡ content e) _ (λ _. refl) (λ _. refl)

pub recover_stale-KeepsContent : (timeout now : ℕ) → KeepsContent (recover_stale timeout now)
unfolding recover_stale
recover_stale-KeepsContent timeout now e =
    if_intro (λ x. content x ≡ content e) (is_stale timeout now e) (λ _. refl) (λ _. refl)

pub put_in_flight-KeepsContent :
    (ids : List String) (now : ℕ) → KeepsContent (put_in_flight ids now)
unfolding put_in_flight
put_in_flight-KeepsContent ids now e =
    if_intro (λ x. content x ≡ content e) (listed ids e.event_id) (λ _. refl) (λ _. refl)

pub where_id-KeepsContent :
    (k : String) (f : Event → Event) → KeepsContent f → KeepsContent (where_id k f)
where_id-KeepsContent k f keeps e =
    if_intro (λ x. content x ≡ content e) (str_eq e.event_id k) (λ _. keeps e) (λ _. refl)

pub retry_event-KeepsContent :
    (error error_class : String) (delay : Option ℤ) (now : ℕ) (before : Option Event)
    → KeepsContent (retry_event error error_class delay now before)
unfolding retry_event
retry_event-KeepsContent error error_class delay now before e = refl

-- The row with this id is there, with this content.
abbrev pub Has : String → Event → List Event → Type 0
Has k e es = (x : Event) × (find k es ≡ some x) × (content x ≡ content e)

update-Has :
    (f : Event → Event) (k : String) (e : Event) (es : List Event)
    → KeepsContent f
    → Has k e es
    → Has k e (update f es)
update-Has f k e es keeps (x, found, same) =
    (f x, find-update f keeps k es ∙ ap (map_event f) found, keeps x ∙ same)

retry_loop-Has :
    (error error_class : String) (delay : Option ℤ) (now : ℕ) (before : List Event)
    (ks : List String) (k : String) (e : Event) (es : List Event)
    → Has k e es
    → Has k e (retry_loop error error_class delay now before ks es)
unfolding retry_loop
retry_loop-Has error error_class delay now before [] k e es h = h
retry_loop-Has error error_class delay now before (j ∷ ks) k e es h =
    retry_loop-Has error error_class delay now before ks k e _ (
      update-Has _ k e es
        (where_id-KeepsContent j _
          (retry_event-KeepsContent error error_class delay now (find j before)))
        h)

retry_loop-Unique :
    (error error_class : String) (delay : Option ℤ) (now : ℕ) (before : List Event)
    (ks : List String) (es : List Event)
    → Unique es
    → Unique (retry_loop error error_class delay now before ks es)
unfolding retry_loop
retry_loop-Unique error error_class delay now before [] es h = h
retry_loop-Unique error error_class delay now before (j ∷ ks) es h =
    retry_loop-Unique error error_class delay now before ks _ (
      update-Unique _
        (where_id-KeepsContent j _
          (retry_event-KeepsContent error error_class delay now (find j before)))
        es h)

-- A new row goes last, and only where no row has its id.
enqueue_rows :
    (k c s : String) (p : Value) (t : String) (clock : ℕ) (q : Queue)
    → ((enqueue k c s p t clock q).0 ≡ q)
      ⊎ ((find k q.events ≡ none)
          × ((enqueue k c s p t clock q).0.events ≡ q.events ++ (new_event k c s p t ∷ [])))
enqueue_rows k c s p t clock q = elim (Option-cases (find k q.events)) [
  | inl h ↦ inr (h, unfold enqueue in unfold warn_capacity in rw (h, enqueue) ground arith)
  | inr (e, h) ↦ inl (unfold enqueue in rw (h, enqueue) ground arith)
]

-- A call other than one that acknowledges this id.
abbrev pub Spares : String → Op → Type 0
Spares k (synced ks) = listed ks k ≡ false
Spares k o = Unit

step-Has :
    (o : Op) (q : Queue) (k : String) (e : Event)
    → Spares k o
    → Has k e q.events
    → Has k e (step o q).events
unfolding step claim_batch mark_retry mark_synced
step-Has start q k e _ h = update-Has _ k e _ recover_at_start-KeepsContent h
step-Has legacy q k e _ h = update-Has _ k e _ recover_legacy-KeepsContent h
step-Has (put j c s p t clock) q k e _ (x, found, same) = elim (enqueue_rows j c s p t clock q) [
  | inl r ↦ (x, ap (λ a. find k a.events) r ∙ found, same)
  | inr (_, r) ↦ (x, ap (find k) r ∙ find-append k q.events _ ∙ rw (found) refl, same)
]
step-Has (claim timeout now n) q k e _ h =
    update-Has _ k e _ (put_in_flight-KeepsContent _ now)
      (update-Has _ k e _ (recover_stale-KeepsContent timeout now) h)
step-Has (retry ks error c d now) q k e _ h =
    retry_loop-Has error c d now q.events ks k e q.events h
step-Has (synced ks) q k e spared (x, found, same) =
    (x, find-keep ks k q.events ∙ rw (spared) found, same)

-- No event is lost: a queued event stays in the queue, with its type, severity, payload and time,
-- through any calls of which none acknowledges its id.
pub run-Has :
    (os : List Op) (q : Queue) (k : String) (e : Event)
    → find k q.events ≡ some e
    → All (Spares k) os
    → (x : Event) × (find k (run os q).events ≡ some x) × (content x ≡ content e)
unfolding run
run-Has os q k e found spared = along os q spared (e, found, refl)
  where
    along :
        (os : List Op) (q : Queue)
        → All (Spares k) os
        → Has k e q.events
        → Has k e (run os q).events
    along [] q _ h = h
    along (o ∷ os) q (s, ss) h = along os (step o q) ss (step-Has o q k e s h)

step-Unique : (o : Op) (q : Queue) → Unique q.events → Unique (step o q).events
unfolding step claim_batch mark_retry mark_synced
step-Unique start q u = update-Unique _ recover_at_start-KeepsContent _ u
step-Unique legacy q u = update-Unique _ recover_legacy-KeepsContent _ u
step-Unique (put j c s p t clock) q u = elim (enqueue_rows j c s p t clock q) [
  | inl r ↦ rw r u
  | inr (new, r) ↦ rw r (append-Unique q.events _ new u)
]
step-Unique (claim timeout now n) q u =
    update-Unique _ (put_in_flight-KeepsContent _ now) _
      (update-Unique _ (recover_stale-KeepsContent timeout now) _ u)
step-Unique (retry ks error c d now) q u = retry_loop-Unique error c d now q.events ks q.events u
step-Unique (synced ks) q u = keep-Unique ks q.events u

-- Whatever calls are made, no two rows of the queue have the same event id.
pub run-Unique : (os : List Op) (q : Queue) → Unique q.events → Unique (run os q).events
unfolding run
run-Unique [] q u = u
run-Unique (o ∷ os) q u = run-Unique os (step o q) (step-Unique o q u)
