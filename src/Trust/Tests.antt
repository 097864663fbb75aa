-- ===== src/Trust/Tests.antt =====
-- The properties of the trust state at concrete endpoints.
use zero_trust_continuous_au.Base.{false, some, none}
use zero_trust_continuous_au.Base.Int.{pos, ltb_ℤ}
use zero_trust_continuous_au.Trust.{evaluate_trust, incidents_of}
use zero_trust_continuous_au.Trust.Score.{Explains, contained_by, evaluate_trust-Explains}

evaluate_trust-Explains_example :
    let s = evaluate_trust none "a1" none (some (pos 40)) (pos 1) false 0 in
    Explains (contained_by (incidents_of none) false) (ltb_ℤ (pos 0) (pos 1)) s.trust_score s.status
evaluate_trust-Explains_example =
    evaluate_trust-Explains none "a1" none (some (pos 40)) (pos 1) false 0
