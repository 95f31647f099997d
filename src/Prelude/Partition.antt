-- ===== src/Prelude/Partition.antt =====
-- The rows of a table that fit a test, and those that do not.
use Prim.Native.Nat.{◌+◌}
use mathlib.Core.Path.{◌≡◌, refl}
use mathlib.Core.Logic.{inl, inr}
use mathlib.Core.Bool.{Bool, true, not, ◌&&◌}
use mathlib.Core.List.{List, [], ◌∷◌, ◌++◌, Perm, perm_middle}
use mathlib.Core.List.Perm
use native.Mathlib.Omega.{arith}
use pocket_mvp_backend.Prelude.Tests.{Bool-cases}
use pocket_mvp_backend.Prelude.Lists.{length}
use pocket_mvp_backend.Prelude.Rows.{select_where, count_where, All}

module _ {ℓ} {A : Type ℓ} where
  pub select_where-perm :
      (p : A → Bool) (rows : List A)
      → Perm (select_where p rows ++ select_where (λ r. not (p r)) rows) rows
  select_where-perm p [] = Perm.rfl
  select_where-perm p (r ∷ rows) =
      let rest = select_where-perm p rows in
      elim (Bool-cases (p r)) [
        | inl hit ↦ rw hit (Perm.cons r rest)
        | inr miss ↦ rw miss (
            Perm.trans (perm_middle (select_where p rows) (select_where (λ x. not (p x)) rows))
              (Perm.cons r rest))
      ]

  pub length-select_where :
      (p : A → Bool) (rows : List A)
      → length (select_where p rows) + length (select_where (λ r. not (p r)) rows) ≡ length rows
  length-select_where p [] = refl
  length-select_where p (r ∷ rows) = ground (arith, length-select_where p rows)

  pub count_where-eq :
      (p : A → Bool) (rows : List A) → count_where p rows ≡ length (select_where p rows)
  count_where-eq p [] = refl
  count_where-eq p (r ∷ rows) = ground (arith, count_where-eq p rows)

  pub select_where-and :
      (p q : A → Bool) (rows : List A)
      → select_where (λ r. p r && q r) rows ≡ select_where q (select_where p rows)
  select_where-and p q [] = refl
  select_where-and p q (r ∷ rows) = ground (arith, select_where-and p q rows)

  pub All-select_where {κ} :
      (P : A → Type κ) (p : A → Bool)
      → ((r : A) → p r ≡ true → P r)
      → (rows : List A) → All P (select_where p rows)
  All-select_where P p h [] = tt
  All-select_where P p h (r ∷ rows) = elim (Bool-cases (p r)) [
    | inl hit ↦ rw hit (h r hit, All-select_where P p h rows)
    | inr miss ↦ rw miss (All-select_where P p h rows)
  ]

  -- What holds of all rows holds of those that are selected.
  pub All-select_where_keeps {κ μ} :
      (P : A → Type κ) (Q : A → Type μ) (p : A → Bool)
      → ((r : A) → P r → p r ≡ true → Q r)
      → (rows : List A) → All P rows
      → All Q (select_where p rows)
  All-select_where_keeps P Q p h [] k = tt
  All-select_where_keeps P Q p h (r ∷ rows) k = elim (Bool-cases (p r)) [
    | inl hit ↦ rw hit (h r k.0 hit, All-select_where_keeps P Q p h rows k.1)
    | inr miss ↦ rw miss (All-select_where_keeps P Q p h rows k.1)
  ]
