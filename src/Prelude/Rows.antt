-- ===== src/Prelude/Rows.antt =====
-- The parts of SQL that the services use: the first row that fits (`SELECT … WHERE`), `EXISTS`,
-- `COUNT`, and `UPDATE … SET … WHERE`, over a table that is a list of rows.
use Prim.Native.Nat.{ℕ, suc}
use mathlib.Core.Path.{◌≡◌, refl}
use mathlib.Core.Bool.{Bool, true, false, ◌||◌}
use mathlib.Core.Option.{Option, none, some}
use mathlib.Core.List.{List, [], ◌∷◌, ◌++◌}
use native.Mathlib.Omega.{arith}
use mathlib.Core.Path.{subst, ap}
use mathlib.Core.Logic.{inl, inr}
use pocket_mvp_backend.Prelude.Tests.{Bool-cases, Option-cases, if◌then◌else◌}

module _ {ℓ} {A : Type ℓ} where
  abbrev pub find : (A → Bool) → List A → Option A
  find p [] = none
  find p (r ∷ rs) = if p r then some r else find p rs

  abbrev pub exists : (A → Bool) → List A → Bool
  exists p [] = false
  exists p (r ∷ rs) = p r || exists p rs

  abbrev pub count_where : (A → Bool) → List A → ℕ
  count_where p [] = 0
  count_where p (r ∷ rs) = if p r then suc (count_where p rs) else count_where p rs

  abbrev pub update_where : (A → Bool) → (A → A) → List A → List A
  update_where p f [] = []
  update_where p f (r ∷ rs) = (if p r then f r else r) ∷ update_where p f rs

  abbrev pub select_where : (A → Bool) → List A → List A
  select_where p [] = []
  select_where p (r ∷ rs) = if p r then r ∷ select_where p rs else select_where p rs

  abbrev pub delete_where : (A → Bool) → List A → List A
  delete_where p [] = []
  delete_where p (r ∷ rs) = if p r then delete_where p rs else r ∷ delete_where p rs

  -- The first value that `f` gives: a `JOIN` whose first row is wanted.
  abbrev pub find_map {κ} : {B : Type κ} → (A → Option B) → List A → Option B
  find_map f [] = none
  find_map f (r ∷ rs) = elim (f r) [ none ↦ find_map f rs | some b ↦ some b ]

  -- Every row satisfies `P`.
  abbrev pub All {κ} : (A → Type κ) → List A → Type κ
  All P [] = Unit
  All P (r ∷ rs) = P r × All P rs

  -- What holds of every row after an update, from what holds of each updated row.
  pub All-update_where {κ} :
      (P : A → Type κ) (p : A → Bool) (f : A → A)
      → ((r : A) → P (if p r then f r else r))
      → (rs : List A) → All P (update_where p f rs)
  All-update_where P p f h [] = tt
  All-update_where P p f h (r ∷ rs) = (h r, All-update_where P p f h rs)

  -- What an update keeps of each row it keeps of all.
  pub All-update_where_keeps {κ} :
      (P : A → Type κ) (p : A → Bool) (f : A → A)
      → ((r : A) → P r → P (f r))
      → (rs : List A) → All P rs
      → All P (update_where p f rs)
  All-update_where_keeps P p f h [] k = tt
  All-update_where_keeps P p f h (r ∷ rs) k = elim (Bool-cases (p r)) [
    | inl hit ↦ rw hit (h r k.0, All-update_where_keeps P p f h rs k.1)
    | inr miss ↦ rw miss (k.0, All-update_where_keeps P p f h rs k.1)
  ]

  -- What is found is a row of the list that fits.
  pub find-All {κ} :
      (P : A → Type κ) (p : A → Bool) (rs : List A) (r : A) → All P rs → find p rs ≡ some r → P r
  find-All P p [] r h e = cc
  find-All P p (x ∷ rs) r h e = elim (Bool-cases (p x)) [
    | inl hit ↦ subst P (ground arith) h.0
    | inr miss ↦ find-All P p rs r h.1 (ground arith)
  ]

  -- A row that exists stands somewhere.
  pub exists-split :
      (p : A → Bool) (rs : List A)
      → exists p rs ≡ true
      → (before after : List A) × (r : A) × (rs ≡ before ++ r ∷ after) × (p r ≡ true)
  exists-split p [] h = cc
  exists-split p (r ∷ rs) h = elim (Bool-cases (p r)) [
    | inl hit ↦ ([], rs, r, refl, hit)
    | inr miss ↦
        let (before, after, x, split, hit) = exists-split p rs (ground arith) in
        (r ∷ before, after, x, ap (λ l. r ∷ l) split, hit)
  ]

  pub exists-All {κ} :
      (p : A → Bool) (P : A → Type κ)
      → ((r : A) → p r ≡ false → P r)
      → (rs : List A) → exists p rs ≡ false
      → All P rs
  exists-All p P h [] e = tt
  exists-All p P h (r ∷ rs) e = (h r (ground arith), exists-All p P h rs (ground arith))

  pub find-fits : (p : A → Bool) (rs : List A) (r : A) → find p rs ≡ some r → p r ≡ true
  find-fits p [] r h = cc
  find-fits p (x ∷ rs) r h = ground (arith, find-fits p rs r)

  -- A row that no longer fits after the update is not found, wherever it stood.
  pub find-update_where-none :
      (p q : A → Bool) (f : A → A)
      → ((r : A) → p r ≡ true → q (f r) ≡ false)
      → ((r : A) → p r ≡ false → q r ≡ false)
      → (rs : List A) → find q (update_where p f rs) ≡ none
  find-update_where-none p q f hit miss [] = refl
  find-update_where-none p q f hit miss (r ∷ rs) =
      ground (arith, hit r, miss r, find-update_where-none p q f hit miss rs)

  -- An update that leaves the test alone finds the updated row.
  pub find-update_where :
      (p q : A → Bool) (f : A → A)
      → ((r : A) → q (if p r then f r else r) ≡ q r)
      → (rs : List A) (r : A) → find q rs ≡ some r
      → find q (update_where p f rs) ≡ some (if p r then f r else r)
  find-update_where p q f same [] r h = ground arith
  find-update_where p q f same (x ∷ rs) r h =
      ground (arith, same x, find-update_where p q f same rs r)

  pub find-update_where_absent :
      (p q : A → Bool) (f : A → A)
      → ((r : A) → q (if p r then f r else r) ≡ q r)
      → (rs : List A) → find q rs ≡ none
      → find q (update_where p f rs) ≡ none
  find-update_where_absent p q f same [] h = refl
  find-update_where_absent p q f same (x ∷ rs) h =
      ground (arith, same x, find-update_where_absent p q f same rs)

  -- A join whose rows are updated along with what they give.
  pub find_map-update_where {κ} :
      {B : Type κ} (f g : A → Option B) (change : B → B) (p : A → Bool) (u : A → A)
      → ((r : A) → f r ≡ none → g (if p r then u r else r) ≡ none)
      → ((r : A) (b : B) → f r ≡ some b → g (if p r then u r else r) ≡ some (change b))
      → (rs : List A) (b : B) → find_map f rs ≡ some b
      → find_map g (update_where p u rs) ≡ some (change b)
  find_map-update_where f g change p u absent present [] b h = cc
  find_map-update_where f g change p u absent present (r ∷ rs) b h = elim (Option-cases (f r)) [
    | inl missing ↦
        ground (arith, absent r missing, find_map-update_where f g change p u absent present rs b)
    | inr (c, found) ↦ ground (arith, present r c found)
  ]

  pub find_map-append_none {κ} :
      {B : Type κ} (f : A → Option B) (rs : List A) (r : A)
      → find_map f rs ≡ none
      → find_map f (rs ++ r ∷ []) ≡ f r
  find_map-append_none f [] r h = elim (Option-cases (f r)) [
    | inl missing ↦ ground arith
    | inr (b, found) ↦ ground arith
  ]
  find_map-append_none f (x ∷ rs) r h = ground (arith, find_map-append_none f rs r)

  pub find_map-all_none {κ} :
      {B : Type κ} (f : A → Option B) (p : A → Bool)
      → ((r : A) → p r ≡ false → f r ≡ none)
      → (rs : List A) → exists p rs ≡ false
      → find_map f rs ≡ none
  find_map-all_none f p h [] e = refl
  find_map-all_none f p h (r ∷ rs) e = ground (arith, h r, find_map-all_none f p h rs)

  pub find-append_none :
      (p : A → Bool) (rs : List A) (r : A)
      → find p rs ≡ none
      → p r ≡ true
      → find p (rs ++ r ∷ []) ≡ some r
  find-append_none p [] r h e = ground arith
  find-append_none p (x ∷ rs) r h e = ground (arith, find-append_none p rs r)

  pub find-append_some :
      (p : A → Bool) (rs : List A) (r x : A) → find p rs ≡ some x → find p (rs ++ r ∷ []) ≡ some x
  find-append_some p [] r x h = ground arith
  find-append_some p (y ∷ rs) r x h = ground (arith, find-append_some p rs r x)
