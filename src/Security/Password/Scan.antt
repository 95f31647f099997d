-- ===== src/Security/Password/Scan.antt =====
-- strings.Split at one character, and the fmt.Sscanf formats of `VerifyPassword`. Sscanf reads
-- as much as its format asks for: what follows the last number is not looked at.
use pocket_mvp_backend.Prelude.{
  ℕ, ◌+◌, ◌-◌, ◌*◌, ◌^◌, Bool, false, ◌&&◌, Option, none, some, String, Char, code, List, [], ◌∷◌,
  leb, ltb, nat_eq, if◌then◌else◌,
}
use pocket_mvp_backend.GoText.{is_space}

abbrev pub onto_first : Char → List String → List String
onto_first c [] = String.◌∷◌ c "" ∷ []
onto_first c (part ∷ parts) = String.◌∷◌ c part ∷ parts

-- strings.Split(s, sep) for a separator of one character.
unfoldable pub split : ℕ → String → List String
split sep String.[] = "" ∷ []
split sep (String.◌∷◌ c s) =
    let parts = split sep s in if nat_eq (code c) sep then "" ∷ parts else onto_first c parts

-- A literal of the format.
scan_literal : String → String → Option String
scan_literal String.[] s = some s
scan_literal (String.◌∷◌ c l) String.[] = none
scan_literal (String.◌∷◌ c l) (String.◌∷◌ d s) =
    if nat_eq (code c) (code d) then scan_literal l s else none

-- ss.SkipSpace: a newline is an error where the format has none.
skip_space : String → Option String
skip_space String.[] = some ""
skip_space (String.◌∷◌ c s) =
    if nat_eq (code c) b'\n'
    then none
    else if is_space c
    then skip_space s
    else some (String.◌∷◌ c s)

scan_digits : ℕ → String → ℕ × String
scan_digits acc String.[] = (acc, "")
scan_digits acc (String.◌∷◌ c s) =
    let n = code c in
    let rest = scan_digits (acc * 10 + (n - b'0')) s in
    if leb b'0' n && leb n b'9' then rest else (acc, String.◌∷◌ c s)

starts_with_digit : String → Bool
starts_with_digit String.[] = false
starts_with_digit (String.◌∷◌ c s) = leb b'0' (code c) && leb (code c) b'9'

number_in_bits : ℕ → ℕ × String → Option (ℕ × String)
number_in_bits bits (n, rest) = if ltb n (2 ^ bits) then some (n, rest) else none

number_at : ℕ → Option String → Option (ℕ × String)
unfolding number_in_bits scan_digits starts_with_digit
number_at bits none = none
number_at bits (some s) =
    if starts_with_digit s then number_in_bits bits (scan_digits 0 s) else none

-- "%d" into an unsigned integer of so many bits.
scan_uint : ℕ → String → Option (ℕ × String)
unfolding number_at skip_space
scan_uint bits s = number_at bits (skip_space s)

-- "%d" into an `int`, compared with a number that is not negative: a minus sign never fits.
after_sign : Option String → Option String
after_sign none = none
after_sign (some String.[]) = some ""
after_sign (some (String.◌∷◌ c s)) = if nat_eq (code c) b'+' then some s else some (String.◌∷◌ c s)

reads_as : ℕ → Option (ℕ × String) → Bool
reads_as n none = false
reads_as n (some (m, rest)) = nat_eq m n

scan_signed : ℕ → Option String → Bool
unfolding reads_as number_at after_sign skip_space
scan_signed wanted none = false
scan_signed wanted (some s) = reads_as wanted (number_at 63 (after_sign (skip_space s)))

-- `fmt.Sscanf(s, "v=%d", &version)` succeeds with `version` equal to the given number.
unfoldable pub scan_version : String → ℕ → Bool
unfolding scan_signed scan_literal
scan_version s wanted = scan_signed wanted (scan_literal "v=" s)

pub record Parameters : Type 0 where
  pub memory : ℕ
  pub iterations : ℕ
  pub parallelism : ℕ

infixl 5 ◌>>=◌
abbrev ◌>>=◌ : {A B : Type 0} → Option A → (A → Option B) → Option B
none >>= f = none
some a >>= f = f a

-- `fmt.Sscanf(s, "m=%d,t=%d,p=%d", &memory, &iterations, &parallelism)`
unfoldable pub scan_parameters : String → Option Parameters
unfolding scan_literal scan_uint
scan_parameters s = do
  s₁ ← scan_literal "m=" s
  (memory, s₂) ← scan_uint 32 s₁
  s₃ ← scan_literal ",t=" s₂
  (iterations, s₄) ← scan_uint 32 s₃
  s₅ ← scan_literal ",p=" s₄
  (parallelism, s₆) ← scan_uint 8 s₅
  some (record { memory = memory; iterations = iterations; parallelism = parallelism })
