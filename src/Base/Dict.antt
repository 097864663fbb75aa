-- ===== src/Base/Dict.antt =====
-- A Python dict with text keys, in insertion order; tables keyed by a text are read as dicts too.
use Prim.Native.String.{String}
use mathlib.Core.Path.{◌≡◌, refl}
use mathlib.Core.Bool.{Bool}
use mathlib.Core.Logic.{◌≢◌}
use mathlib.Core.Option.{Option, none, some}
use mathlib.Core.List.{List, [], ◌∷◌}
use native.Mathlib.Omega.{arith}
use text.Mathlib.Text.{◌==◌ as str_eq}
use text.Mathlib.TextEquality.{eq_iff}
use zero_trust_continuous_au.Base.Tests.{if◌then◌else◌, is_some}

abbrev pub Dict {ℓ} : Type ℓ → Type ℓ
Dict V = List (String × V)

module _ {ℓ} {V : Type ℓ} where
  -- `d.get(k)`
  unfoldable pub lookup : String → Dict V → Option V
  lookup k [] = none
  lookup k ((j, v) ∷ d) = if str_eq j k then some v else lookup k d

  -- `d[k] = v`
  unfoldable pub insert : String → V → Dict V → Dict V
  insert k v [] = (k, v) ∷ []
  insert k v ((j, w) ∷ d) = if str_eq j k then (k, v) ∷ d else (j, w) ∷ insert k v d

  pub lookup-insert :
      (k j : String) (v : V) (d : Dict V)
      → lookup j (insert k v d) ≡ (if str_eq k j then some v else lookup j d)
  unfolding lookup insert
  lookup-insert k j v [] = refl
  lookup-insert k j v ((i, w) ∷ d) =
      ground (arith, eq_iff k j, eq_iff i k, eq_iff i j, lookup-insert k j v d)

-- `d.get(k, default)`
module _ {ℓ} {V : Type ℓ} where
  unfoldable pub get_or : String → V → Dict V → V
  get_or k x d = elim (lookup k d) [ none ↦ x | some v ↦ v ]

  pub get_or-insert :
      (k j : String) (x v : V) (d : Dict V)
      → get_or j x (insert k v d) ≡ (if str_eq k j then v else get_or j x d)
  unfolding get_or
  get_or-insert k j x v d = ground (arith, lookup-insert k j v d)

  pub get_or-insert_self : (k : String) (x v : V) (d : Dict V) → get_or k x (insert k v d) ≡ v
  get_or-insert_self k x v d = rw get_or-insert (ground (arith, eq_iff k k))

  pub lookup-insert_self : (k : String) (v : V) (d : Dict V) → lookup k (insert k v d) ≡ some v
  lookup-insert_self k v d = rw lookup-insert (ground (arith, eq_iff k k))

  pub lookup-insert_ne :
      (k j : String) (v : V) (d : Dict V) → k ≢ j → lookup j (insert k v d) ≡ lookup j d
  lookup-insert_ne k j v d ne = rw lookup-insert (ground (arith, eq_iff k j))

-- `k in d`
abbrev pub contains {ℓ} : {V : Type ℓ} → String → Dict V → Bool
contains k d = is_some (lookup k d)
