-- ===== src/Policy/Select.antt =====
-- Which policy decides: the first in the order of the keys that triggers.
use mathlib.Core.Logic.Or
use mathlib.Core.Bool.{Bool-set}
use mathlib.Core.List.{Perm, Mem, mem-cons, mem-cons_of_mem, mem-cons_self, not-mem-nil}
use mathlib.Core.List.Perm
use zero_trust_continuous_au.Base.{
  String, ◌≡◌, ◌≢◌, refl, Bool, true, false, none, some, List, [], ◌∷◌, arith, ap, ◌∙◌, sym,
  Bool-cases, inl, inr,
}
use zero_trust_continuous_au.Base.Int.{ℤ}
use zero_trust_continuous_au.Base.Order.{
  sort, IsLeast, IsSorted, sort-IsSorted, sort-perm, Shuffle, sort-Shuffle,
}
use zero_trust_continuous_au.Json.{obj, Fields}
use zero_trust_continuous_au.Condition.{Host}
use zero_trust_continuous_au.Condition.Trace.{explain, Explained, refused, explained}
use zero_trust_continuous_au.Condition.Total.{explain-followed}
use zero_trust_continuous_au.Policy.{
  Policy, PolicyDecision, key_order, policy_sort_key, evaluate_single_policy, first_triggered,
  evaluate, eval_context, Outcome, decided, no_decision, not_followed, condition_of,
  decide_explained,
}

module _ (host : Host) where
  -- Every policy is decided on: a condition that is refused is caught, and one that is accepted is
  -- evaluated to the end.
  evaluate_single_total :
      (p : Policy) (context : Fields)
      → (d : PolicyDecision) × (evaluate_single_policy host p context ≡ some d)
  unfolding evaluate_single_policy
  evaluate_single_total p context = go (explain host (condition_of p) (obj context)) refl
    where
      go :
          (x : Explained)
          → explain host (condition_of p) (obj context) ≡ x
          → (d : PolicyDecision) × (decide_explained p context x ≡ some d)
      go (refused e) h = (_, refl)
      go (explained (some t)) h = (_, refl)
      go (explained none) h = absurd (explain-followed host (condition_of p) (obj context) h)

  abbrev Triggers : Fields → Policy → Type 0
  Triggers context q =
      (d : PolicyDecision) × (evaluate_single_policy host q context ≡ some d) × (d.triggered ≡ true)

  abbrev Fires : Fields → Policy → PolicyDecision → Type 0
  Fires context p d = (evaluate_single_policy host p context ≡ some d) × (d.triggered ≡ true)

  abbrev before : Policy → Policy → Bool
  before q p = key_order.less (policy_sort_key host q) (policy_sort_key host p)

  -- The decision is that of a member that fires, and no member with a smaller key fires.
  pub record Selected (context : Fields) (ps : List Policy) (d : PolicyDecision) : Type 0 where
    pub policy : Policy
    pub member : Mem policy ps
    pub fires : Fires context policy d
    pub least :
        (q : Policy) (e : PolicyDecision) → Mem q ps → Fires context q e → before q policy ≡ false

  not_before_self : (p : Policy) → before p p ≡ false
  not_before_self p = elim (Bool-cases (before p p)) [
    | inl h ↦ key_order.asym (policy_sort_key host p) (policy_sort_key host p) h
    | inr h ↦ h
  ]

  IsLeast-mem :
      (p q : Policy) (ps : List Policy)
      → IsLeast key_order (policy_sort_key host) p ps
      → Mem q ps
      → before q p ≡ false
  IsLeast-mem p q [] l m = absurd (not-mem-nil m)
  IsLeast-mem p q (x ∷ xs) l m =
      Or.elim (Bool-set _ _) (mem-cons.0 m) (λ e. rw e l.0) (IsLeast-mem p q xs l.1)

  -- The loop on a policy that fires, and on one that does not.
  first-Fires :
      (context : Fields) (p : Policy) (ps : List Policy) (e : PolicyDecision)
      → Fires context p e
      → first_triggered host (p ∷ ps) context ≡ decided e
  unfolding first_triggered
  first-Fires context p ps e (one, fires) = rw (one, first_triggered) (rw fires)

  first_quiet :
      (context : Fields) (p : Policy) (ps : List Policy) (e : PolicyDecision)
      → evaluate_single_policy host p context ≡ some e
      → e.triggered ≡ false
      → first_triggered host (p ∷ ps) context ≡ first_triggered host ps context
  unfolding first_triggered
  first_quiet context p ps e one quiet = rw (one, first_triggered) (rw quiet)

  silent :
      (context : Fields) (p : Policy) (e f : PolicyDecision)
      → evaluate_single_policy host p context ≡ some e
      → e.triggered ≡ false
      → Fires context p f
      → ⊥
  silent context p e f one quiet (two, fires) = ground arith

  first-Selected :
      (context : Fields) (ps : List Policy) (d : PolicyDecision)
      → IsSorted key_order (policy_sort_key host) ps
      → first_triggered host ps context ≡ decided d
      → Selected context ps d
  first-Selected context [] d s h = unfold first_triggered in cc h
  first-Selected context (p ∷ ps) d s h =
      let (e, one) = evaluate_single_total p context in
      elim (Bool-cases e.triggered) [
        | inl fires ↦
            let same : e ≡ d = cc (first-Fires context p ps e (one, fires), h) in
            record {
              policy = p;
              member = mem-cons_self;
              fires = rw (← same) (one, fires);
              least = λ q f m _. IsLeast-mem p q (p ∷ ps) (not_before_self p, s.0) m;
            }
        | inr quiet ↦
            let rest =
              first-Selected context ps d s.1 (sym (first_quiet context p ps e one quiet) ∙ h) in
            record {
              policy = rest.policy;
              member = mem-cons_of_mem p rest.member;
              fires = rest.fires;
              least = λ q f m fires.
                  Or.elim (Bool-set _ _) (mem-cons.0 m)
                    (λ is_p. absurd (silent context p e f one quiet (rw is_p at fires)))
                    (λ m'. rest.least q f m' fires);
            }
      ]

  -- No policy of the list fires.
  abbrev pub NoneFires : Fields → List Policy → Type 0
  NoneFires context ps = (q : Policy) (e : PolicyDecision) → Mem q ps → ¬ Fires context q e

  first-NoneFires :
      (context : Fields) (ps : List Policy)
      → first_triggered host ps context ≡ no_decision
      → NoneFires context ps
  first-NoneFires context [] h q e m fires = absurd (not-mem-nil m)
  first-NoneFires context (p ∷ ps) h q e m fires =
      let (d, one) = evaluate_single_total p context in
      elim (Bool-cases d.triggered) [
        | inl fires_p ↦ cc (first-Fires context p ps d (one, fires_p), h)
        | inr quiet ↦
            Or.elim (λ x y. absurd x) (mem-cons.0 m)
              (λ is_p. silent context p d e one quiet (rw is_p at fires))
              (λ m'.
                first-NoneFires context ps (sym (first_quiet context p ps d one quiet) ∙ h) q e m'
                  fires)
      ]

  first_followed :
      (context : Fields) (ps : List Policy) → first_triggered host ps context ≢ not_followed
  first_followed context [] h = unfold first_triggered in cc h
  first_followed context (p ∷ ps) h =
      let (d, one) = evaluate_single_total p context in
      elim (Bool-cases d.triggered) [
        | inl fires ↦ cc (first-Fires context p ps d (one, fires), h)
        | inr quiet ↦ first_followed context ps (sym (first_quiet context p ps d one quiet) ∙ h)
      ]

  module _ (policies : List Policy) (agent_id : String) (risk trust : ℤ) (context : Fields) where
    -- The context that the policies are evaluated in.
    abbrev pub given : Fields
    given = eval_context host agent_id risk trust context

    -- What each result of `evaluate` means.
    abbrev pub Explains : Outcome → Type 0
    Explains (decided d) = Selected given policies d
    Explains no_decision = NoneFires given policies
    Explains not_followed = ⊥

    -- A decision of `evaluate` is that of a policy of the list that fires, and no policy whose sort key
    -- is smaller fires; without a decision no policy fires. There is no other outcome.
    pub evaluate-Explains : Explains (evaluate host policies agent_id risk trust context)
    unfolding evaluate
    evaluate-Explains = go (first_triggered host sorted given) refl
      where
        sorted : List Policy
        sorted = sort key_order (policy_sort_key host) policies

        same_members : Perm sorted policies
        same_members = sort-perm key_order (policy_sort_key host) policies

        go : (o : Outcome) → first_triggered host sorted given ≡ o → Explains o
        go (decided d) h =
            let chosen =
              first-Selected given sorted d
                (sort-IsSorted key_order (policy_sort_key host) policies) h in
            record {
              policy = chosen.policy;
              member = (Perm.mem_iff same_members).0 chosen.member;
              fires = chosen.fires;
              least = λ q e m fires. chosen.least q e ((Perm.mem_iff same_members).1 m) fires;
            }
        go no_decision h =
            λ q e m. first-NoneFires given sorted h q e ((Perm.mem_iff same_members).1 m)
        go not_followed h = first_followed given sorted h

  -- Reordering the list, where no two policies with equal sort keys pass one another, does not change
  -- the outcome of `evaluate`.
  pub evaluate-Shuffle :
      {ps qs : List Policy} (agent_id : String) (risk trust : ℤ) (context : Fields)
      → Shuffle key_order (policy_sort_key host) ps qs
      → evaluate host ps agent_id risk trust context ≡ evaluate host qs agent_id risk trust context
  unfolding evaluate
  evaluate-Shuffle agent_id risk trust context s =
      ap (λ l. first_triggered host l (eval_context host agent_id risk trust context))
        (sort-Shuffle key_order (policy_sort_key host) s)
