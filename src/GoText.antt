-- ===== src/GoText.antt =====
-- The functions of Go's strings, unicode and unicode/utf8 packages that the services call, over
-- texts that are valid UTF-8 (encoding/json yields no others), and UTF-8 validity of raw bytes.
pub mod Trimmed
use Prim.Native.String.{len, count, ◌++◌ as ◌⧺◌}
use pocket_mvp_backend.Prelude.{
  ℕ, zero, suc, Bool, true, false, ◌&&◌, ◌||◌, String, Char, code, [], ◌∷◌, Bytes, leb, ltb, nat_eq,
  if◌then◌else◌, ◌/◌, ◌%◌,
}
use pocket_mvp_backend.Platform.{Platform}

-- unicode.IsSpace
unfoldable pub is_space : Char → Bool
is_space c =
    let n = code c in
    (leb 9 n && leb n 13)
    || nat_eq n 0x20
    || nat_eq n 0x85
    || nat_eq n 0xA0
    || nat_eq n 0x1680
    || (leb 0x2000 n && leb n 0x200a)
    || nat_eq n 0x2028
    || nat_eq n 0x2029
    || nat_eq n 0x202f
    || nat_eq n 0x205f
    || nat_eq n 0x3000

unfoldable pub trim_left : String → String
trim_left String.[] = String.[]
trim_left (String.◌∷◌ c s) = if is_space c then trim_left s else String.◌∷◌ c s

abbrev pub is_empty : String → Bool
is_empty String.[] = true
is_empty (String.◌∷◌ c s) = false

unfoldable pub trim_right : String → String
trim_right String.[] = String.[]
trim_right (String.◌∷◌ c s) =
    let rest = trim_right s in if is_empty rest && is_space c then String.[] else String.◌∷◌ c rest

-- strings.TrimSpace
unfoldable pub trim_space : String → String
unfolding trim_left trim_right
trim_space s = trim_right (trim_left s)

unfoldable pub map_chars : (Char → Char) → String → String
map_chars f String.[] = String.[]
map_chars f (String.◌∷◌ c s) = String.◌∷◌ (f c) (map_chars f s)

-- strings.ToLower and strings.ToUpper
unfoldable pub to_lower : Platform → String → String
unfolding map_chars
to_lower p s = map_chars p.lower s

unfoldable pub to_upper : Platform → String → String
unfolding map_chars
to_upper p s = map_chars p.upper s

-- strings.ContainsRune, for one character given by its code point
unfoldable pub contains_code : ℕ → String → Bool
contains_code n String.[] = false
contains_code n (String.◌∷◌ c s) = nat_eq (code c) n || contains_code n s

-- utf8.RuneCountInString and len
abbrev pub rune_count : String → ℕ
rune_count s = count s

abbrev pub byte_len : String → ℕ
byte_len s = len s

abbrev continuation : ℕ → Bool
continuation b = leb 0x80 b && leb b 0xBF

-- The range of the second byte after each first byte, by RFC 3629 and the table of unicode/utf8.
abbrev second_fits : ℕ → ℕ → Bool
second_fits b c =
    if nat_eq b 0xE0
    then leb 0xA0 c && leb c 0xBF
    else if nat_eq b 0xED
    then leb 0x80 c && leb c 0x9F
    else if nat_eq b 0xF0
    then leb 0x90 c && leb c 0xBF
    else if nat_eq b 0xF4
    then leb 0x80 c && leb c 0x8F
    else continuation c

-- How many continuation bytes a first byte announces; `5` for a byte that starts no character.
abbrev announced : ℕ → ℕ
announced b =
    if ltb b 0x80
    then 0
    else if leb 0xC2 b && leb b 0xDF
    then 1
    else if leb 0xE0 b && leb b 0xEF
    then 2
    else if leb 0xF0 b && leb b 0xF4
    then 3
    else 5

-- `first` is the byte that the next one is checked against, `left` the continuations still owed.
utf8_from : ℕ → ℕ → Bytes → Bool
utf8_from first zero [] = true
utf8_from first (suc left) [] = false
utf8_from first zero (b ∷ rest) = leb (announced b) 3 && utf8_from b (announced b) rest
utf8_from first (suc left) (b ∷ rest) =
    (if leb 0x80 first then second_fits first b else continuation b) && utf8_from 0 left rest

-- utf8.Valid
unfoldable pub valid_utf8 : Bytes → Bool
unfolding utf8_from
valid_utf8 bytes = utf8_from 0 0 bytes

abbrev digit : ℕ → String
digit d =
    if nat_eq d 0
    then "0"
    else if nat_eq d 1
    then "1"
    else if nat_eq d 2
    then "2"
    else if nat_eq d 3
    then "3"
    else if nat_eq d 4
    then "4"
    else if nat_eq d 5
    then "5"
    else if nat_eq d 6
    then "6"
    else if nat_eq d 7
    then "7"
    else if nat_eq d 8
    then "8"
    else "9"

-- The first argument bounds the number of digits.
abbrev digits : ℕ → ℕ → String
digits zero n = ""
digits (suc more) n =
    let front = digits more (n / 10) in if ltb n 10 then digit n else front ⧺ digit (n % 10)

-- A number in decimal: `%d` and PostgreSQL's bigint::text. A number has fewer digits than
-- successors, or one.
unfoldable pub decimal : ℕ → String
decimal n = digits (suc n) n
