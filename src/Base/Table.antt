-- ===== src/Base/Table.antt =====
-- A database table with a text key: a list of rows in the order of insertion.
use Prim.Native.String.{String}
use mathlib.Core.Path.{◌≡◌, refl, sym, ap, ◌∙◌}
use mathlib.Core.Bool.{Bool, false}
use mathlib.Core.Logic.{inl, inr}
use mathlib.Core.Option.{Option, none, some}
use mathlib.Core.List.{List, [], ◌∷◌, ◌++◌}
use native.Mathlib.Omega.{arith}
use text.Mathlib.Text.{◌==◌ as str_eq}
use text.Mathlib.TextEquality.{eq_iff}
use zero_trust_continuous_au.Base.Tests.{if◌then◌else◌, Bool-cases}
use zero_trust_continuous_au.Base.Lists.{All}

-- UPDATE, with the condition in the function.
unfoldable pub update_rows {ℓ} : {R : Type ℓ} → (R → R) → List R → List R
update_rows f [] = []
update_rows f (r ∷ rs) = f r ∷ update_rows f rs

-- DELETE of the rows that pass the test.
unfoldable pub delete_rows {ℓ} : {R : Type ℓ} → (R → Bool) → List R → List R
delete_rows p [] = []
delete_rows p (r ∷ rs) = let rest = delete_rows p rs in if p r then rest else r ∷ rest

module _ {ℓ} {R : Type ℓ} (key : R → String) where
  -- SELECT of the row with a key.
  unfoldable pub select : String → List R → Option R
  select k [] = none
  select k (r ∷ rs) = if str_eq (key r) k then some r else select k rs

  abbrev pub Distinct : List R → Type ℓ
  Distinct [] = Unit
  Distinct (r ∷ rs) = (select (key r) rs ≡ none) × Distinct rs

  abbrev pub map_row : (R → R) → Option R → Option R
  map_row f none = none
  map_row f (some r) = some (f r)

  pub select-update_rows :
      (f : R → R)
      → ((r : R) → key (f r) ≡ key r)
      → (k : String) (rs : List R) → select k (update_rows f rs) ≡ map_row f (select k rs)
  unfolding select update_rows
  select-update_rows f keeps k [] = refl
  select-update_rows f keeps k (r ∷ rs) =
      ap (λ i. if str_eq i k then some (f r) else select k (update_rows f rs)) (keeps r)
      ∙ elim (Bool-cases (str_eq (key r) k)) [
        | inl h ↦ rw (h) refl
        | inr h ↦ rw (h) (select-update_rows f keeps k rs)
      ]

  pub update_rows-Distinct :
      (f : R → R)
      → ((r : R) → key (f r) ≡ key r)
      → (rs : List R) → Distinct rs
      → Distinct (update_rows f rs)
  unfolding update_rows
  update_rows-Distinct f keeps [] h = tt
  update_rows-Distinct f keeps (r ∷ rs) h = (
    ap (λ i. select i (update_rows f rs)) (keeps r)
        ∙ select-update_rows f keeps (key r) rs
        ∙ ap (map_row f) h.0,
    update_rows-Distinct f keeps rs h.1,
  )

  pub select-append :
      (k : String) (rs : List R) (r : R)
      → select k (rs ++ (r ∷ []))
        ≡ elim (select k rs) [ some x ↦ some x | none ↦ if str_eq (key r) k then some r else none ]
  unfolding select
  select-append k [] r = refl
  select-append k (x ∷ rs) r = elim (Bool-cases (str_eq (key x) k)) [
    | inl h ↦ rw (h) refl
    | inr h ↦ rw (h) (select-append k rs r)
  ]

  pub select-key : (k : String) (rs : List R) (r : R) → select k rs ≡ some r → key r ≡ k
  unfolding select
  select-key k [] r h = absurd (cc h)
  select-key k (x ∷ rs) r h = elim (Bool-cases (str_eq (key x) k)) [
    | inl same ↦ ground (arith, eq_iff (key x) k)
    | inr other ↦ select-key k rs r (ground arith)
  ]

  pub append-Distinct :
      (rs : List R) (r : R) → select (key r) rs ≡ none → Distinct rs → Distinct (rs ++ (r ∷ []))
  unfolding select
  append-Distinct [] r h u = (refl, tt)
  append-Distinct (x ∷ rs) r h u = elim (Bool-cases (str_eq (key x) (key r))) [
    | inl same ↦ absurd (ground arith)
    | inr other ↦ (
      select-append (key x) rs r
          ∙ rw (u.0) ground (arith, eq_iff (key x) (key r), eq_iff (key r) (key x)),
      append-Distinct rs r (ground arith) u.1,
    )
  ]

-- Deleting rows, and finding them again.
module _ {ℓ} {R : Type ℓ} (key : R → String) where
  pub select-delete_rows :
      (p : R → Bool) (k : String) (rs : List R)
      → select key k rs ≡ none
      → select key k (delete_rows p rs) ≡ none
  unfolding select delete_rows
  select-delete_rows p k [] h = refl
  select-delete_rows p k (r ∷ rs) h = elim (Bool-cases (str_eq (key r) k)) [
    | inl same ↦ absurd (ground arith)
    | inr other ↦ elim (Bool-cases (p r)) [
      | inl out ↦ rw (out) (select-delete_rows p k rs (ground arith))
      | inr kept ↦ rw (kept) (rw (other) (select-delete_rows p k rs (ground arith)))
    ]
  ]

  pub delete_rows-Distinct :
      (p : R → Bool) (rs : List R) → Distinct key rs → Distinct key (delete_rows p rs)
  unfolding delete_rows
  delete_rows-Distinct p [] u = tt
  delete_rows-Distinct p (r ∷ rs) u = elim (Bool-cases (p r)) [
    | inl out ↦ rw (out) (delete_rows-Distinct p rs u.1)
    | inr kept ↦ rw (kept) (select-delete_rows p (key r) rs u.0, delete_rows-Distinct p rs u.1)
  ]

  select_later :
      (x : R) (rs : List R)
      → select key (key x) rs ≡ none
      → (r : R) → select key (key r) rs ≡ some r
      → select key (key r) (x ∷ rs) ≡ some r
  unfolding select
  select_later x rs new r found = elim (Bool-cases (str_eq (key x) (key r))) [
    | inl same ↦
        let ids : key x ≡ key r = (eq_iff (key x) (key r)).0 same in
        absurd (cc (ap (λ k. select key k rs) (sym ids) ∙ new, found))
    | inr other ↦ rw (other) found
  ]

  weaken_found : (P Q : R → Type ℓ) → ((r : R) → P r → Q r) → (rs : List R) → All P rs → All Q rs
  weaken_found P Q h [] ps = tt
  weaken_found P Q h (r ∷ rs) ps = (h r ps.0, weaken_found P Q h rs ps.1)

  -- Where keys are distinct, every row is what its key finds.
  pub Distinct-select :
      (rs : List R) → Distinct key rs → All (λ r. select key (key r) rs ≡ some r) rs
  unfolding select
  Distinct-select [] u = tt
  Distinct-select (x ∷ rs) u = (
    ground (arith, eq_iff (key x) (key x)),
    weaken_found (λ r. select key (key r) rs ≡ some r) (λ r. select key (key r) (x ∷ rs) ≡ some r)
        (select_later x rs u.0) rs (Distinct-select rs u.1),
  )

module _ {ℓ κ} {R : Type ℓ} (P : R → Type κ) where
  pub update_rows-All :
      (Q : R → Type κ) (f : R → R)
      → ((r : R) → P r → Q (f r))
      → (rs : List R) → All P rs
      → All Q (update_rows f rs)
  unfolding update_rows
  update_rows-All Q f h [] ps = tt
  update_rows-All Q f h (r ∷ rs) ps = (h r ps.0, update_rows-All Q f h rs ps.1)

  pub delete_rows-All :
      (Q : R → Type κ) (p : R → Bool)
      → ((r : R) → p r ≡ false → P r → Q r)
      → (rs : List R) → All P rs
      → All Q (delete_rows p rs)
  unfolding delete_rows
  delete_rows-All Q p h [] ps = tt
  delete_rows-All Q p h (r ∷ rs) ps = elim (Bool-cases (p r)) [
    | inl out ↦ rw (out) (delete_rows-All Q p h rs ps.1)
    | inr kept ↦ rw (kept) (h r kept ps.0, delete_rows-All Q p h rs ps.1)
  ]

  pub append_row-All : (rs : List R) (r : R) → All P rs → P r → All P (rs ++ (r ∷ []))
  append_row-All [] r ps p = (p, tt)
  append_row-All (x ∷ rs) r ps p = (ps.0, append_row-All rs r ps.1 p)

  pub weaken_rows : (Q : R → Type κ) → ((r : R) → P r → Q r) → (rs : List R) → All P rs → All Q rs
  weaken_rows Q h [] ps = tt
  weaken_rows Q h (r ∷ rs) ps = (h r ps.0, weaken_rows Q h rs ps.1)
