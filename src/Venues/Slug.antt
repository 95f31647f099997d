-- ===== src/Venues/Slug.antt =====
-- `slugify` and `uniqueSlug` of internal/modules/venues/service.go.
pub mod Pattern
use Prim.Native.String.{◌++◌}
use pocket_mvp_backend.Prelude.{
  ℕ, zero, suc, Bool, true, false, ◌&&◌, ◌||◌, not, String, Char, code, leb, nat_eq, if◌then◌else◌,
  ◌==◌,
}
use pocket_mvp_backend.Faults.{other}
use pocket_mvp_backend.Platform.{Platform}
use pocket_mvp_backend.Effects.{Op, ask, pure, fail_if, ◌>>=◌, ◌>>◌}
use pocket_mvp_backend.GoText.{trim_space, to_lower, is_empty}
use pocket_mvp_backend.Security.Session.{new_session_token}

-- `[a-z0-9]`
abbrev pub is_slug_char : Char → Bool
is_slug_char c = leb b'a' (code c) && leb (code c) b'z' || leb b'0' (code c) && leb (code c) b'9'

abbrev pub is_dash : Char → Bool
is_dash c = nat_eq (code c) b'-'

-- `regexp.MustCompile("[^a-z0-9]+").ReplaceAllString(value, "-")`; `in_run` says that the run of
-- other characters that the text starts with has its dash already.
unfoldable pub dash_runs : Bool → String → String
dash_runs in_run String.[] = String.[]
dash_runs in_run (String.◌∷◌ c s) = elim (is_slug_char c) [
  | true ↦ String.◌∷◌ c (dash_runs false s)
  | false ↦ elim in_run [ true ↦ dash_runs true s | false ↦ String.◌∷◌ "-" (dash_runs true s) ]
]

-- `strings.Trim(value, "-")`
unfoldable pub trim_dashes_left : String → String
trim_dashes_left String.[] = String.[]
trim_dashes_left (String.◌∷◌ c s) = elim (is_dash c) [
  | true ↦ trim_dashes_left s
  | false ↦ String.◌∷◌ c s
]

unfoldable pub trim_dashes_right : String → String
trim_dashes_right String.[] = String.[]
trim_dashes_right (String.◌∷◌ c s) =
    let rest = trim_dashes_right s in
    if is_dash c && is_empty rest then String.[] else String.◌∷◌ c rest

unfoldable pub slugify : Platform → String → String
slugify e value =
    trim_dashes_right (trim_dashes_left (dash_runs false (to_lower e (trim_space value))))

-- `suffix[:7]` of a longer suffix; a slug has one byte for each character.
unfoldable pub cut : ℕ → String → String
cut zero s = String.[]
cut (suc n) String.[] = String.[]
cut (suc n) (String.◌∷◌ c s) = String.◌∷◌ c (cut n s)

-- The `base` of `uniqueSlug`.
abbrev pub slug_base : Platform → String → String
slug_base e name = let base = slugify e name in if base == "" then "venue" else base

abbrev pub slug_suffix : Platform → String → String
slug_suffix e token = cut 7 (slugify e token)

unfoldable pub unique_slug : String → Op String
unique_slug name = do
  token ← new_session_token
  e ← ask
  fail_if (slug_suffix e.platform token == "") other
  pure (slug_base e.platform name ++ ("-" ++ slug_suffix e.platform token))

-- `slug ~ '^[a-z0-9]+(?:-[a-z0-9]+)*$'`; `in_group` says that a character of a group came before.
abbrev pub matches_from : Bool → String → Bool
matches_from in_group String.[] = in_group
matches_from in_group (String.◌∷◌ c s) =
    let as_char = matches_from true s in
    let as_dash = matches_from false s in
    if is_slug_char c then as_char else is_dash c && in_group && as_dash

abbrev pub is_slug : String → Bool
is_slug = matches_from false
