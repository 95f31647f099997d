-- ===== src/Prelude/Unique.antt =====
-- Tables with a UNIQUE column: its updates, insertions and look-ups.
use Prim.Native.String.{String}
use mathlib.Core.Path.{◌≡◌, refl, ◌∙◌, subst}
use mathlib.Core.Logic.{inl, inr}
use mathlib.Core.Bool.{Bool, true, false, ◌&&◌}
use mathlib.Core.Option.{none, some}
use mathlib.Core.List.{List, [], ◌∷◌, ◌++◌}
use native.Mathlib.Omega.{arith}
use text.Mathlib.Text.{◌==◌}
use text.Mathlib.TextEquality.{eq_iff}
use text.Mathlib.TextPositions.{eq_refl}
use pocket_mvp_backend.Prelude.Tests.{Bool-cases}
use pocket_mvp_backend.Prelude.Rows.{find, exists, update_where, delete_where}

-- No two rows have one key: a UNIQUE column.
module _ {ℓ} {A : Type ℓ} (key : A → String) where
  abbrev pub UniqueBy : List A → Type 0
  UniqueBy [] = Unit
  UniqueBy (r ∷ rs) = (exists (λ x. key x == key r) rs ≡ false) × UniqueBy rs

  abbrev has_key : String → A → Bool
  has_key k r = key r == k

  pub find-none_of_absent :
      (k : String) (q : A → Bool) (rs : List A)
      → exists (has_key k) rs ≡ false
      → find (λ r. has_key k r && q r) rs ≡ none
  find-none_of_absent k q [] h = refl
  find-none_of_absent k q (r ∷ rs) h = ground (arith, find-none_of_absent k q rs)

  pub absent-update_where :
      (k : String) (p : A → Bool) (f : A → A)
      → ((r : A) → key (f r) ≡ key r)
      → (rs : List A) → exists (has_key k) (update_where p f rs) ≡ exists (has_key k) rs
  absent-update_where k p f same [] = refl
  absent-update_where k p f same (r ∷ rs) =
      ground (arith, same r, absent-update_where k p f same rs)

  -- Updates keep the keys unique.
  pub UniqueBy-update_where :
      (p : A → Bool) (f : A → A)
      → ((r : A) → key (f r) ≡ key r)
      → (rs : List A) → UniqueBy rs
      → UniqueBy (update_where p f rs)
  UniqueBy-update_where p f same [] h = tt
  UniqueBy-update_where p f same (r ∷ rs) (new, rest) = (
    elim (Bool-cases (p r)) [
      | inl hit ↦ rw hit (rw (same r) (absent-update_where (key r) p f same rs ∙ new))
      | inr miss ↦ rw miss (absent-update_where (key r) p f same rs ∙ new)
    ],
    UniqueBy-update_where p f same rs rest,
  )

  -- Where keys are unique, a row that is found is the one that its key finds.
  pub find-by_key :
      (p q : A → Bool) (rs : List A) (r : A)
      → UniqueBy rs
      → find p rs ≡ some r
      → q r ≡ true
      → find (λ x. has_key (key r) x && q x) rs ≡ some r
  find-by_key p q [] r u h e = cc
  find-by_key p q (x ∷ rs) r (new, u) h e = elim (Bool-cases (p x)) [
    | inl hit ↦ let same : x ≡ r = ground arith in ground (arith, same, eq_refl (key r))
    | inr miss ↦
        let later : find p rs ≡ some r = ground arith in
        elim (Bool-cases (key x == key r)) [
          | inl clash ↦
              let absent =
                subst (λ k. exists (has_key k) rs ≡ false) ((eq_iff (key x) (key r)).0 clash) new in
              absurd (cc (find-none_of_absent (key r) q rs absent, find-by_key p q rs r u later e))
          | inr other ↦ ground (arith, find-by_key p q rs r u later e)
        ]
  ]

  pub absent-append :
      (k : String) (rs : List A) (r : A)
      → exists (has_key k) rs ≡ false
      → (key r == k) ≡ false
      → exists (has_key k) (rs ++ r ∷ []) ≡ false
  absent-append k [] r h n = ground arith
  absent-append k (x ∷ rs) r h n = ground (arith, absent-append k rs r)

  -- A row whose key was absent may be inserted.
  pub UniqueBy-append :
      (rs : List A) (r : A)
      → UniqueBy rs
      → exists (has_key (key r)) rs ≡ false
      → UniqueBy (rs ++ r ∷ [])
  UniqueBy-append [] r h n = (refl, tt)
  UniqueBy-append (x ∷ rs) r (new, rest) n = (
    absent-append (key x) rs r new (ground (arith, eq_iff (key x) (key r), eq_iff (key r) (key x))),
    UniqueBy-append rs r rest (ground arith),
  )

  pub exists-delete_where :
      (k : String) (p : A → Bool) (rs : List A)
      → exists (has_key k) rs ≡ false
      → exists (has_key k) (delete_where p rs) ≡ false
  exists-delete_where k p [] h = refl
  exists-delete_where k p (r ∷ rs) h = ground (arith, exists-delete_where k p rs)

  pub UniqueBy-delete_where :
      (p : A → Bool) (rs : List A) → UniqueBy rs → UniqueBy (delete_where p rs)
  UniqueBy-delete_where p [] h = tt
  UniqueBy-delete_where p (r ∷ rs) h =
      ground (arith, exists-delete_where (key r) p rs, UniqueBy-delete_where p rs h.1)

  -- Where a key names one row, an update that spoils the row found for it leaves none to find.
  pub find-spoiled :
      (k : String) (q q' p : A → Bool) (f : A → A)
      → ((r : A) → key (f r) ≡ key r)
      → ((r : A) → q' (f r) ≡ false)
      → (rs : List A) (r : A) → UniqueBy rs
      → find (λ x. has_key k x && q x) rs ≡ some r
      → p r ≡ true
      → find (λ x. has_key k x && q' x) (update_where p f rs) ≡ none
  find-spoiled k q q' p f same spoil [] r u h e = ground arith
  find-spoiled k q q' p f same spoil (x ∷ rs) r u h e = elim (Bool-cases (key x == k)) [
    | inl found ↦
        let absent : exists (has_key k) rs ≡ false =
          subst (λ j. exists (has_key j) rs ≡ false) ((eq_iff (key x) k).0 found) u.0 in
        ground (
          arith,
          same x,
          spoil x,
          find-none_of_absent k q rs absent,
          find-none_of_absent k q' (update_where p f rs)
              (absent-update_where k p f same rs ∙ absent),
        )
    | inr other ↦ ground (arith, same x, find-spoiled k q q' p f same spoil rs r u.1)
  ]
