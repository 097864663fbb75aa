-- ===== src/Base/Order.antt =====
-- Strict orders as Boolean tests, their lexicographic product, and a stable sort by a key.
use Prim.Native.Char.{code}
use Prim.Native.String.{String}
use mathlib.Core.Path.{◌≡◌, refl, sym, ap, ◌∙◌}
use mathlib.Core.Logic.{◌⊎◌, inl, inr}
use mathlib.Core.Bool.{Bool, true, false, not, ◌&&◌, ◌||◌}
use mathlib.Core.List.{List, [], ◌∷◌}
use mathlib.Core.List.{Perm}
use mathlib.Core.List.Perm
use native.Mathlib.Omega.{arith}
use zero_trust_continuous_au.Base.Tests.{ltb, if_intro, if◌then◌else◌}
use zero_trust_continuous_au.Base.Int.{ℤ, ltb_ℤ}

-- Two values neither of which is less are equal for the order.
pub record Order {ℓ} (A : Type ℓ) : Type ℓ where
  pub less : A → A → Bool
  pub asym : (a b : A) → less a b ≡ true → less b a ≡ false
  pub cotrans : (a b c : A) → less a c ≡ true → less a b ≡ false → less b c ≡ true

-- `<` of Python's texts, by code points.
unfoldable pub text_less : String → String → Bool
text_less String.[] String.[] = false
text_less String.[] (String.◌∷◌ d t) = true
text_less (String.◌∷◌ c s) String.[] = false
text_less (String.◌∷◌ c s) (String.◌∷◌ d t) =
    ltb (code c) (code d) || (not (ltb (code d) (code c)) && text_less s t)

pub text_less-asym : (s t : String) → text_less s t ≡ true → text_less t s ≡ false
unfolding text_less
text_less-asym String.[] String.[] h = cc
text_less-asym String.[] (String.◌∷◌ d t) h = refl
text_less-asym (String.◌∷◌ c s) String.[] h = cc
text_less-asym (String.◌∷◌ c s) (String.◌∷◌ d t) h = ground (arith, text_less-asym s t)

pub text_less-cotrans :
    (s t u : String) → text_less s u ≡ true → text_less s t ≡ false → text_less t u ≡ true
unfolding text_less
text_less-cotrans String.[] String.[] u h k = h
text_less-cotrans String.[] (String.◌∷◌ d t) u h k = cc
text_less-cotrans (String.◌∷◌ c s) t String.[] h k = cc
text_less-cotrans (String.◌∷◌ c s) String.[] (String.◌∷◌ e u) h k = refl
text_less-cotrans (String.◌∷◌ c s) (String.◌∷◌ d t) (String.◌∷◌ e u) h k =
    ground (arith, text_less-cotrans s t u)

abbrev pub text_order : Order String
text_order = record { less = text_less; asym = text_less-asym; cotrans = text_less-cotrans }

pub int_less-asym : (a b : ℤ) → ltb_ℤ a b ≡ true → ltb_ℤ b a ≡ false
int_less-asym a b h = ground arith

pub int_less-cotrans : (a b c : ℤ) → ltb_ℤ a c ≡ true → ltb_ℤ a b ≡ false → ltb_ℤ b c ≡ true
int_less-cotrans a b c h k = ground arith

abbrev pub int_order : Order ℤ
int_order = record { less = ltb_ℤ; asym = int_less-asym; cotrans = int_less-cotrans }

-- Tuples: by the first part, and by the second where the first parts are equal.
module _ {ℓ κ} {A : Type ℓ} {B : Type κ} (p : Order A) (q : Order B) where
  abbrev pair_less : A × B → A × B → Bool
  pair_less (a, b) (c, d) = p.less a c || (not (p.less c a) && q.less b d)

  pub pair_less-asym : (x y : A × B) → pair_less x y ≡ true → pair_less y x ≡ false
  pair_less-asym (a, b) (c, d) h = ground (arith, p.asym a c, p.asym c a, q.asym b d)

  pub pair_less-cotrans :
      (x y z : A × B) → pair_less x z ≡ true → pair_less x y ≡ false → pair_less y z ≡ true
  pair_less-cotrans (a, b) (c, d) (e, f) h k = ground (
    arith,
    p.cotrans a c e,
    p.cotrans c a e,
    p.cotrans e c a,
    p.cotrans a e c,
    p.cotrans c e a,
    p.cotrans e a c,
    p.asym e a,
    p.asym c e,
    p.asym a e,
    p.asym c a,
    p.asym a c,
    q.cotrans b d f,
  )

  abbrev pub pair_order : Order (A × B)
  pair_order = record { less = pair_less; asym = pair_less-asym; cotrans = pair_less-cotrans }

-- `sorted(xs, key=key)`: equal keys keep their order.
module _ {ℓ κ} {A : Type ℓ} {K : Type κ} (order : Order K) (key : A → K) where
  unfoldable pub insert : A → List A → List A
  insert x [] = x ∷ []
  insert x (y ∷ ys) =
      let rest = insert x ys in if order.less (key y) (key x) then y ∷ rest else x ∷ y ∷ ys

  unfoldable pub sort : List A → List A
  unfolding insert
  sort [] = []
  sort (x ∷ xs) = insert x (sort xs)

  -- No member's key is less than that of `x`.
  abbrev pub IsLeast : A → List A → Type 0
  IsLeast x [] = Unit
  IsLeast x (y ∷ ys) = (order.less (key y) (key x) ≡ false) × IsLeast x ys

  abbrev pub IsSorted : List A → Type 0
  IsSorted [] = Unit
  IsSorted (x ∷ xs) = IsLeast x xs × IsSorted xs

  IsLeast-insert :
      (z x : A) (ys : List A)
      → order.less (key x) (key z) ≡ false
      → IsLeast z ys
      → IsLeast z (insert x ys)
  unfolding insert
  IsLeast-insert z x [] h l = (h, tt)
  IsLeast-insert z x (y ∷ ys) h l =
      if_intro (IsLeast z) (order.less (key y) (key x)) (λ _. (l.0, IsLeast-insert z x ys h l.1))
        (λ _. (h, l))

  IsLeast-le :
      (x y : A) (ys : List A) → order.less (key y) (key x) ≡ false → IsLeast y ys → IsLeast x ys
  IsLeast-le x y [] h l = tt
  IsLeast-le x y (z ∷ zs) h l =
      (ground (arith, order.cotrans (key z) (key y) (key x)), IsLeast-le x y zs h l.1)

  insert-IsSorted : (x : A) (ys : List A) → IsSorted ys → IsSorted (insert x ys)
  unfolding insert
  insert-IsSorted x [] s = (tt, tt)
  insert-IsSorted x (y ∷ ys) s =
      if_intro IsSorted (order.less (key y) (key x))
        (λ lt.
          (IsLeast-insert y x ys (order.asym (key y) (key x) lt) s.0, insert-IsSorted x ys s.1))
        (λ ge. ((ge, IsLeast-le x y ys ge s.0), s))

  pub sort-IsSorted : (xs : List A) → IsSorted (sort xs)
  unfolding sort
  sort-IsSorted [] = tt
  sort-IsSorted (x ∷ xs) = insert-IsSorted x (sort xs) (sort-IsSorted xs)

  insert-perm : (x : A) (ys : List A) → Perm (insert x ys) (x ∷ ys)
  unfolding insert
  insert-perm x [] = Perm.refl _
  insert-perm x (y ∷ ys) =
      if_intro (λ l. Perm l (x ∷ y ∷ ys)) (order.less (key y) (key x))
        (λ _. Perm.trans (Perm.cons y (insert-perm x ys)) (Perm.swap x y ys)) (λ _. Perm.refl _)

  pub sort-perm : (xs : List A) → Perm (sort xs) xs
  unfolding sort
  sort-perm [] = Perm.refl _
  sort-perm (x ∷ xs) = Perm.trans (insert-perm x (sort xs)) (Perm.cons x (sort-perm xs))

  -- Members of different keys may be inserted in either order.
  insert_comm :
      (x y : A) (l : List A)
      → order.less (key x) (key y) ≡ true
      → insert x (insert y l) ≡ insert y (insert x l)
  unfolding insert
  insert_comm x y [] h = ground (arith, order.asym (key x) (key y))
  insert_comm x y (z ∷ zs) h = ground (
    arith,
    order.asym (key x) (key y),
    order.asym (key z) (key x),
    order.cotrans (key x) (key z) (key y),
    insert_comm x y zs,
  )

  -- Members are reordered, and no two with equal keys pass one another.
  pub data Shuffle : List A → List A → Type ℓ where
    done : Shuffle [] []
    skip : (x : A) {xs ys : List A} → Shuffle xs ys → Shuffle (x ∷ xs) (x ∷ ys)
    pass :
        (x y : A) (xs : List A)
        → (order.less (key x) (key y) ≡ true) ⊎ (order.less (key y) (key x) ≡ true)
        → Shuffle (x ∷ y ∷ xs) (y ∷ x ∷ xs)
    after : {xs ys zs : List A} → Shuffle xs ys → Shuffle ys zs → Shuffle xs zs

  -- The sorted list does not depend on such an order.
  pub sort-Shuffle : {xs ys : List A} → Shuffle xs ys → sort xs ≡ sort ys
  unfolding sort
  sort-Shuffle done = refl
  sort-Shuffle (skip x s) = ap (insert x) (sort-Shuffle s)
  sort-Shuffle (pass x y xs (inl lt)) = insert_comm x y (sort xs) lt
  sort-Shuffle (pass x y xs (inr gt)) = sym (insert_comm y x (sort xs) gt)
  sort-Shuffle (after s t) = sort-Shuffle s ∙ sort-Shuffle t
