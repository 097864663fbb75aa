-- ===== src/Queue/Retry.antt =====
-- What `mark_retry` does to a row: its status and the time of its next attempt.
use zero_trust_continuous_au.Base.{
  ℕ, String, ◌≡◌, ◌≤◌, ◌+◌, refl, ◌∙◌, ap, true, false, Option, none, some, List, [], ◌∷◌, arith,
  str_eq, eq_iff, if◌then◌else◌, Bool-cases, inl, inr,
}
use zero_trust_continuous_au.Base.Int.{ℤ}
use zero_trust_continuous_au.Row.{
  Event, permanent_error, retry_pending, find, update, listed, retry_event, where_id, retry_delay,
  not_negative, is_permanent_class,
}
use zero_trust_continuous_au.Queue.Table.{content, find-update, map_event}
use zero_trust_continuous_au.Queue.Keeps.{where_id-KeepsContent, retry_event-KeepsContent}
use zero_trust_continuous_au.Queue.{Queue, retry_loop, mark_retry}

find-event_id : (k : String) (es : List Event) (x : Event) → find k es ≡ some x → x.event_id ≡ k
unfolding find
find-event_id k (e ∷ es) x h = elim (Bool-cases (str_eq e.event_id k)) [
  | inl same ↦ ground (arith, eq_iff e.event_id k)
  | inr other ↦ find-event_id k es x (ground arith)
]
find-event_id k [] x h = ground arith

module _ (error error_class : String) (delay : Option ℤ) (now : ℕ) (before : List Event)
    (k : String) (e : Event) (was : find k before ≡ some e) where
  abbrev retried : Event → Event
  retried = retry_event error error_class delay now (some e)

  -- One turn of the loop, as the row under `k` sees it.
  retry_one :
      (j : String) (es : List Event) (x : Event)
      → find k es ≡ some x
      → find k (update (where_id j (retry_event error error_class delay now (find j before))) es)
        ≡ some (if str_eq j k then retried x else x)
  retry_one j es x h =
      let f = where_id j (retry_event error error_class delay now (find j before)) in
      find-update f
        (where_id-KeepsContent j _
          (retry_event-KeepsContent error error_class delay now (find j before)))
        k es
      ∙ ap (map_event f) h
      ∙ elim (Bool-cases (str_eq j k)) [
        | inl same ↦
            let j_is_k : j ≡ k = ground (arith, eq_iff j k) in
            let here : str_eq x.event_id k ≡ true =
              ground (arith, find-event_id k es x h, eq_iff x.event_id k) in
            ap (λ i. some (where_id i (retry_event error error_class delay now (find i before)) x))
              j_is_k
            ∙ ap
                (λ b.
                  some (if b then retry_event error error_class delay now (find k before) x else x))
                here
            ∙ ap (λ o. some (retry_event error error_class delay now o x)) was
            ∙ rw (same) refl
        | inr other ↦
            let elsewhere : str_eq x.event_id j ≡ false =
              ground (arith, find-event_id k es x h, eq_iff x.event_id j, eq_iff j k) in
            ap
              (λ b.
                some (if b then retry_event error error_class delay now (find j before) x else x))
              elsewhere
            ∙ rw (other) refl
      ]

  -- The rest of the loop leaves the row as it is, or does the same again.
  retry_loop-retried :
      (ks : List String) (es : List Event)
      → find k es ≡ some (retried e)
      → find k (retry_loop error error_class delay now before ks es) ≡ some (retried e)
  unfolding retry_loop retry_event
  retry_loop-retried [] es h = h
  retry_loop-retried (j ∷ ks) es h = retry_loop-retried ks _ (
      retry_one j es (retried e) h
      ∙ elim (Bool-cases (str_eq j k)) [ inl same ↦ rw (same) refl | inr other ↦ rw (other) refl ])

  retry_loop-listed :
      (ks : List String) (es : List Event)
      → find k es ≡ some e
      → listed ks k ≡ true
      → find k (retry_loop error error_class delay now before ks es) ≡ some (retried e)
  unfolding retry_loop listed
  retry_loop-listed (j ∷ ks) es h inside = elim (Bool-cases (str_eq j k)) [
    | inl same ↦ retry_loop-retried ks _ (retry_one j es e h ∙ rw (same) refl)
    | inr other ↦ retry_loop-listed ks _ (retry_one j es e h ∙ rw (other) refl) (ground arith)
  ]
  retry_loop-listed [] es h inside = ground arith

-- A queued row that is named for a retry without a given delay is tried again within 300 seconds from
-- now, at once after its first attempt. It keeps its content and its count of attempts, and it becomes a permanent error
-- exactly where the error's class is permanent, or is AUTHENTICATION after three attempts.
pub mark_retry_backoff :
    (ks : List String) (error error_class : String) (now : ℕ) (q : Queue) (k : String) (e : Event)
    → find k q.events ≡ some e
    → listed ks k ≡ true
    → (x : Event) × (t : ℕ) × (find k (mark_retry ks error error_class none now q).events ≡ some x)
      × (x.next_attempt_at ≡ some t)
      × (now ≤ t)
      × (t ≤ now + 300)
      × (e.attempt_count ≤ 1 → t ≡ now)
      × (content x ≡ content e)
      × (x.attempt_count ≡ e.attempt_count)
      × (x.status ≡ (
          if is_permanent_class error_class e.attempt_count
          then permanent_error
          else retry_pending))
unfolding mark_retry retry_event retry_delay
mark_retry_backoff ks error error_class now q k e found inside = (
  retried error error_class none now q.events k e found e,
  now + not_negative (retry_delay none e.attempt_count),
  retry_loop-listed error error_class none now q.events k e found ks q.events found inside,
  refl,
  ground arith,
  ground arith,
  ground arith,
  refl,
  refl,
  refl,
)
