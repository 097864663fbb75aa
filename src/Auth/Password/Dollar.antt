-- ===== src/Auth/Password/Dollar.antt =====
-- Texts joined and split at dollar signs.
use Prim.Native.Char.{Char, code}
use zero_trust_continuous_au.Base.{
  ℕ, zero, suc, String, ◌≡◌, refl, ap, Bool, true, false, Bool-cases, inl, inr, arith, List, [],
  ◌∷◌, ◌==◌, if◌then◌else◌,
}

abbrev pub is_dollar : Char → Bool
is_dollar c = code c == b'$'

unfoldable pub join_dollar : String → String → String
join_dollar String.[] t = String.◌∷◌ "$" t
join_dollar (String.◌∷◌ c s) t = String.◌∷◌ c (join_dollar s t)

-- A character put before the first part.
abbrev pub prepend : Char → List String → List String
prepend c [] = String.◌∷◌ c String.[] ∷ []
prepend c (part ∷ parts) = String.◌∷◌ c part ∷ parts

-- `s.split("$", n)`: at most n splits.
unfoldable pub split_dollar : ℕ → String → List String
split_dollar zero s = s ∷ []
split_dollar (suc n) String.[] = String.[] ∷ []
split_dollar (suc n) (String.◌∷◌ c s) =
    if is_dollar c then String.[] ∷ split_dollar n s else prepend c (split_dollar (suc n) s)

-- No dollar sign in the text.
unfoldable pub is_plain : String → Bool
is_plain String.[] = true
is_plain (String.◌∷◌ c s) = if is_dollar c then false else is_plain s

pub split_dollar-join_dollar :
    (n : ℕ) (s t : String)
    → is_plain s ≡ true
    → split_dollar (suc n) (join_dollar s t) ≡ s ∷ split_dollar n t
unfolding split_dollar join_dollar is_plain
split_dollar-join_dollar n String.[] t h = refl
split_dollar-join_dollar n (String.◌∷◌ c s) t h = elim (Bool-cases (is_dollar c)) [
  | inl here ↦ absurd (ground arith)
  | inr off ↦ rw (off) (ap (prepend c) (split_dollar-join_dollar n s t (ground arith)))
]
