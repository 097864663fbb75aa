-- ===== src/Risk/Tests.antt =====
-- Runs of the risk engine at concrete tables, and the properties at them.
use zero_trust_continuous_au.Base.{
  String, ◌≡◌, ◌≢◌, refl, List, [], ◌∷◌, none, some, arith, eq_iff, ◌/◌, ◌*◌,
}
use zero_trust_continuous_au.Base.Int.{ℤ, pos, negsuc, ◌≤ℤ◌, ◌+ℤ◌, ◌-ℤ◌, ltb_ℤ}
use zero_trust_continuous_au.Base.Dict.{get_or, lookup, insert}
use zero_trust_continuous_au.Risk.{
  Floats, Op, delta, decay, Tables, default_limits, fresh, run, step, apply_decay, apply_delta,
  get_score, clamp, record_event, delta_event, decay_since, append_decay, decay_event,
}
use zero_trust_continuous_au.Risk.History.{IsValid}
use zero_trust_continuous_au.Risk.Bounds.{run-IsValid, fresh-IsValid}

-- Float arithmetic on whole minutes.
abbrev whole : ℤ → ℤ
whole (pos n) = pos (n / 60000000)
whole (negsuc n) = negsuc (n / 60000000)

abbrev times : ℤ → ℤ → ℤ
times (pos a) (pos b) = pos (a * b)
times x y = pos 0

abbrev whole_minutes : Floats
whole_minutes = record {
  Float = ℤ;
  minutes = whole;
  below_one = λ x. ltb_ℤ x (pos 1);
  int_mul = times;
  to_int = λ x. x;
}

abbrev calls : List (Op whole_minutes)
calls =
    delta "a1" (pos 70) "rule" none (some 0) 0
    ∷ delta "a1" (pos 50) "rule" (some "f1") (some 1000) 1000
    ∷ decay "a1" 600000000
    ∷ delta "a2" (negsuc 4) "review" none none 700000000
    ∷ []

abbrev after_calls : Tables
after_calls = run whole_minutes default_limits (pos 2) calls fresh

run-IsValid_example : IsValid default_limits (run whole_minutes default_limits (pos 2) calls fresh)
run-IsValid_example =
    run-IsValid whole_minutes default_limits (pos 2) calls fresh (omega arith)
      (fresh-IsValid default_limits)

score_after_calls : get_score after_calls "a1" ≡ pos 82
unfolding get_score run step apply_delta apply_decay get_or lookup record_event insert delta_event
    decay_since append_decay clamp ◌+ℤ◌ decay_event ◌-ℤ◌
score_after_calls = refl

after_calls-IsValid : IsValid default_limits after_calls
after_calls-IsValid =
    run-IsValid whole_minutes default_limits (pos 2) calls fresh (omega arith)
      (fresh-IsValid default_limits)

abbrev a1 : String
a1 = "a1"

a1-ne-a2 : a1 ≢ "a2"
a1-ne-a2 p = ground (arith, eq_iff a1 "a2", p)

fresh_below : get_score fresh "a1" ≤ℤ get_score after_calls "a1"
unfolding get_score get_or lookup
fresh_below = rw score_after_calls (omega arith)
