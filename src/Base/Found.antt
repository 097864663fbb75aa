-- ===== src/Base/Found.antt =====
-- Where a row that is found in a changed table came from.
use Prim.Native.String.{String}
use mathlib.Core.Path.{◌≡◌, refl, sym, ap, ◌∙◌}
use mathlib.Core.Logic.{inl, inr, ◌⊎◌, ◌≢◌}
use mathlib.Core.Option.{none, some}
use mathlib.Core.List.{List, [], ◌∷◌, ◌++◌}
use native.Mathlib.Omega.{arith}
use text.Mathlib.Text.{◌==◌ as str_eq}
use text.Mathlib.TextEquality.{eq_iff}
use zero_trust_continuous_au.Base.Tests.{if◌then◌else◌, Bool-cases}
use zero_trust_continuous_au.Base.Table.{update_rows, delete_rows, select, select-append}

module _ {ℓ} {R : Type ℓ} (key : R → String) where
  pub update_rows_found :
      (f : R → R)
      → ((r : R) → key (f r) ≡ key r)
      → (k : String) (rs : List R) (y : R) → select key k (update_rows f rs) ≡ some y
      → (x : R) × (select key k rs ≡ some x) × (f x ≡ y)
  unfolding select update_rows
  update_rows_found f keeps k [] y h = absurd (cc h)
  update_rows_found f keeps k (r ∷ rs) y h =
      let at_r =
        ap (λ i. if str_eq i k then some (f r) else select key k (update_rows f rs)) (sym (keeps r))
        ∙ h in
      elim (Bool-cases (str_eq (key r) k)) [
        | inl here ↦
            let same : some (f r) ≡ some y = rw (here) at at_r in (r, rw (here) refl, ground arith)
        | inr later ↦ rw (later) (update_rows_found f keeps k rs y (rw (later) at at_r))
      ]

  pub append_found :
      (k : String) (rs : List R) (r x : R)
      → select key k (rs ++ (r ∷ [])) ≡ some x
      → (select key k rs ≡ some x) ⊎ ((select key k rs ≡ none) × (key r ≡ k) × (r ≡ x))
  unfolding select
  append_found k [] r x h = elim (Bool-cases (str_eq (key r) k)) [
    | inl here ↦
        let same : some r ≡ some x = rw (here) at h in
        inr (refl, (eq_iff (key r) k).0 here, ground arith)
    | inr other ↦ absurd (cc (rw (other) at h))
  ]
  append_found k (y ∷ rs) r x h = elim (Bool-cases (str_eq (key y) k)) [
    | inl here ↦ inl (rw (here) (rw (here) at h))
    | inr later ↦ rw (later) (append_found k rs r x (rw (later) at h))
  ]

  pub append_kept :
      (k : String) (rs : List R) (r x : R)
      → select key k rs ≡ some x
      → select key k (rs ++ (r ∷ [])) ≡ some x
  unfolding select
  append_kept k [] r x h = absurd (cc h)
  append_kept k (y ∷ rs) r x h = elim (Bool-cases (str_eq (key y) k)) [
    | inl here ↦ rw (here) (rw (here) at h)
    | inr later ↦ rw (later) (append_kept k rs r x (rw (later) at h))
  ]

  pub delete_rows_found :
      (k j : String) (rs : List R) (x : R)
      → select key k (delete_rows (λ r. str_eq (key r) j) rs) ≡ some x
      → (select key k rs ≡ some x) × (k ≢ j)
  unfolding select delete_rows
  delete_rows_found k j [] x h = absurd (cc h)
  delete_rows_found k j (r ∷ rs) x h = elim (Bool-cases (str_eq (key r) j)) [
    | inl out ↦
        let (found, ne) = delete_rows_found k j rs x (rw (out) at h) in
        (
          elim (Bool-cases (str_eq (key r) k)) [
            | inl same ↦ absurd (ne (sym ((eq_iff (key r) k).0 same) ∙ (eq_iff (key r) j).0 out))
            | inr other ↦ rw (other) found
          ],
          ne,
        )
    | inr kept ↦ elim (Bool-cases (str_eq (key r) k)) [
      | inl here ↦
          let same : some r ≡ some x = rw (here) at (rw (kept) at h) in
          (
            rw (here) same,
            λ is_j. cc ((eq_iff (key r) j).1 ((eq_iff (key r) k).0 here ∙ is_j), kept),
          )
      | inr later ↦ rw (later) (delete_rows_found k j rs x (rw (later) at (rw (kept) at h)))
    ]
  ]

  pub select-new :
      (rs : List R) (r : R)
      → select key (key r) rs ≡ none
      → select key (key r) (rs ++ (r ∷ [])) ≡ some r
  select-new rs r h = select-append key (key r) rs r ∙ rw (h) ground (arith, eq_iff (key r) (key r))
