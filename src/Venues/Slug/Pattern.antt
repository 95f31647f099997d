-- ===== src/Venues/Slug/Pattern.antt =====
-- When the slug of a new venue matches the pattern that the table venues asks for.
use Prim.Native.String.{◌++◌}
use text.Mathlib.TextLemmas.{cons-append, nil-append}
use pocket_mvp_backend.Prelude.{
  ℕ, zero, suc, ◌≡◌, refl, sym, ap, subst, ◌∙◌, Bool, true, false, ◌||◌, not, Bool-cases, inl, inr,
  String, Char, arith, eq_refl, if◌then◌else◌, ◌==◌,
}
use pocket_mvp_backend.Platform.{Platform, Env}
use pocket_mvp_backend.Effects.{State, ok, ◌>>=◌, ask, fail_if, pure}
use pocket_mvp_backend.Effects.Rules.{Result-cases}
use pocket_mvp_backend.GoText.{is_empty, to_lower, trim_space}
use pocket_mvp_backend.Security.Session.{new_session_token}
use pocket_mvp_backend.Venues.Slug.{
  is_slug_char, is_dash, dash_runs, trim_dashes_left, trim_dashes_right, slugify, cut, slug_base,
  slug_suffix, unique_slug, matches_from, is_slug,
}

-- Whether the text ends in a character other than a dash; `clean` is for the empty text.
abbrev pub ends_clean : Bool → String → Bool
ends_clean clean String.[] = clean
ends_clean clean (String.◌∷◌ c s) = ends_clean (not (is_dash c)) s

no_dash : (c : Char) → is_slug_char c ≡ true → is_dash c ≡ false
no_dash c h = ground arith

-- What is left of a text after a run of other characters, and after a character of a group.
abbrev after_run : String → String
after_run s = trim_dashes_right (dash_runs true s)

abbrev after_char : String → String
after_char s = trim_dashes_right (dash_runs false s)

dash_runs_match :
    (s : String)
    → ((is_empty (after_run s) || is_slug (after_run s)) ≡ true)
      × (matches_from true (after_char s) ≡ true)
unfolding dash_runs trim_dashes_right
dash_runs_match String.[] = (refl, refl)
dash_runs_match (String.◌∷◌ c s) =
    let (runs, group) = dash_runs_match s in
    elim (Bool-cases (is_slug_char c)) [
      | inl hit ↦ (ground (arith, no_dash c hit), ground (arith, no_dash c hit))
      | inr miss ↦ elim (Bool-cases (is_empty (after_run s))) [
        | inl none_left ↦
            let dashed : dash_runs false (String.◌∷◌ c s) ≡ String.◌∷◌ "-" (dash_runs true s) =
              ground arith in
            let ended : trim_dashes_right (String.◌∷◌ "-" (dash_runs true s)) ≡ "" = ground arith in
            (
              ground arith,
              ap (λ t. matches_from true (trim_dashes_right t)) dashed
                  ∙ ap (matches_from true) ended,
            )
        | inr some_left ↦ (ground arith, ground arith)
      ]
    ]

-- The left trim only takes a leading dash, of which `dash_runs true` has none.
trim_dashes_left-dash_runs : (s : String) → trim_dashes_left (dash_runs true s) ≡ dash_runs true s
unfolding dash_runs trim_dashes_left
trim_dashes_left-dash_runs String.[] = refl
trim_dashes_left-dash_runs (String.◌∷◌ c s) = elim (Bool-cases (is_slug_char c)) [
  | inl hit ↦ ground (arith, no_dash c hit)
  | inr miss ↦ ground (arith, trim_dashes_left-dash_runs s)
]

trim_runs : (s : String) → trim_dashes_right (trim_dashes_left (dash_runs false s)) ≡ after_run s
unfolding dash_runs trim_dashes_left
trim_runs String.[] = refl
trim_runs (String.◌∷◌ c s) = elim (Bool-cases (is_slug_char c)) [
  | inl hit ↦ ground (arith, no_dash c hit)
  | inr miss ↦ ground (arith, trim_dashes_left-dash_runs s)
]

-- A slug is empty or matches the pattern of the table venues, whatever the text.
pub slugify-matches :
    (e : Platform) (value : String)
    → (is_empty (slugify e value) || is_slug (slugify e value)) ≡ true
unfolding slugify
slugify-matches e value =
    let s = to_lower e (trim_space value) in
    ap (λ t. is_empty t || is_slug t) (trim_runs s) ∙ (dash_runs_match s).0

-- A first part of a matching text matches if it does not end in a dash.
matches_from-cut :
    (n : ℕ) (g : Bool) (s : String)
    → matches_from g s ≡ true
    → matches_from g (cut n s) ≡ ends_clean g (cut n s)
unfolding cut
matches_from-cut zero g s h = refl
matches_from-cut (suc n) g String.[] h = refl
matches_from-cut (suc n) g (String.◌∷◌ c s) h = elim (Bool-cases (is_slug_char c)) [
  | inl hit ↦ ground (arith, no_dash c hit, matches_from-cut n true s)
  | inr miss ↦ ground (arith, matches_from-cut n false s)
]

dashed_part : (t : String) → ("" ++ ("-" ++ t)) ≡ String.◌∷◌ "-" t
dashed_part t =
    nil-append ("-" ++ t) ∙ cons-append "-" "" t ∙ ap (λ r. String.◌∷◌ "-" r) (nil-append t)

-- Two parts with a dash between them.
matches_from-joined :
    (g : Bool) (s t : String)
    → matches_from g s ≡ true
    → matches_from g (s ++ ("-" ++ t)) ≡ is_slug t
matches_from-joined g String.[] t h = ap (matches_from g) (dashed_part t) ∙ ground arith
matches_from-joined g (String.◌∷◌ c s) t h = elim (Bool-cases (is_slug_char c)) [
  | inl hit ↦
      ap (matches_from g) (cons-append c s ("-" ++ t))
      ∙ ground (arith, matches_from-joined true s t)
  | inr miss ↦
      ap (matches_from g) (cons-append c s ("-" ++ t))
      ∙ ground (arith, matches_from-joined false s t)
]

ends_clean-joined : (g : Bool) (s t : String) → ends_clean g (s ++ ("-" ++ t)) ≡ ends_clean false t
ends_clean-joined g String.[] t = ap (ends_clean g) (dashed_part t)
ends_clean-joined g (String.◌∷◌ c s) t =
    ap (ends_clean g) (cons-append c s ("-" ++ t)) ∙ ends_clean-joined (not (is_dash c)) s t

empty_text : (s : String) → is_empty s ≡ true → s ≡ ""
empty_text String.[] h = refl
empty_text (String.◌∷◌ c s) h = cc

base_matches :
    (b : Bool) (t : String)
    → (b ≡ false → is_slug t ≡ true)
    → is_slug (if b then "venue" else t) ≡ true
base_matches true t h = refl
base_matches false t h = h refl

slug_base-matches : (e : Platform) (name : String) → is_slug (slug_base e name) ≡ true
slug_base-matches e name = base_matches (slugify e name == "") (slugify e name) λ named.
    elim (Bool-cases (is_empty (slugify e name))) [
      | inl none_left ↦
          let gone = empty_text (slugify e name) none_left in
          absurd (cc (named, subst (λ t. (t == "") ≡ true) (sym gone) (eq_refl "")))
      | inr some_left ↦ ground (arith, slugify-matches e name)
    ]

slug_suffix-matches :
    (e : Platform) (token : String)
    → (slug_suffix e token == "") ≡ false
    → is_slug (slug_suffix e token) ≡ ends_clean false (slug_suffix e token)
unfolding cut
slug_suffix-matches e token h = elim (Bool-cases (is_empty (slugify e token))) [
  | inl none_left ↦
      let gone = empty_text (slugify e token) none_left in
      absurd (cc (h, subst (λ t. (cut 7 t == "") ≡ true) (sym gone) (eq_refl "")))
  | inr some_left ↦
      matches_from-cut 7 false (slugify e token) (ground (arith, slugify-matches e token))
]

-- The slug of a new venue matches the pattern that the table venues asks for exactly if it does not
-- end in a dash.
pub unique_slug-matches :
    (name : String) (e : Env) (s : State) (slug : String)
    → (unique_slug name e s).0 ≡ ok slug
    → is_slug slug ≡ ends_clean false slug
unfolding unique_slug ◌>>=◌ ask fail_if pure
unique_slug-matches name e s slug h = elim (Result-cases (new_session_token e s).0) [
  | inr (x, failed) ↦ absurd (ground arith)
  | inl (token, drawn) ↦
      let base = slug_base e.platform name in
      let suffix = slug_suffix e.platform token in
      let nonempty : (suffix == "") ≡ false = ground arith in
      let built : slug ≡ (base ++ ("-" ++ suffix)) = ground arith in
      subst (λ t. is_slug t ≡ ends_clean false t) (sym built)
        (matches_from-joined false base suffix (slug_base-matches e.platform name)
          ∙ slug_suffix-matches e.platform token nonempty
          ∙ sym (ends_clean-joined false base suffix))
]
