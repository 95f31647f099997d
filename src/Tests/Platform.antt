-- ===== src/Tests/Platform.antt =====
-- A platform with the documented behaviour: texts are the codes of their characters, encodings are
-- unary, and sealing puts sixteen zeros before the value.
use Prim.Native.Nat.{Ordering, compare}
use Prim.Native.Char.{char, IsScalar, IsLt}
use text.Mathlib.TextEquality.{Char-path}
use pocket_mvp_backend.Prelude.{
  ℕ, zero, suc, ◌+◌, ◌≡◌, refl, ap, ◌∙◌, true, false, Option, none, some, String, Char, code, Bytes,
  [], ◌∷◌, ◌++◌, length, drop, nat_eq, if◌then◌else◌, ◌==◌, arith,
}
use pocket_mvp_backend.Platform.{Platform, Env}
use pocket_mvp_backend.Platform.Laws.{IsLawful}
use pocket_mvp_backend.GoText.{contains_code}

abbrev Both : Ordering → Ordering → Type 0
Both Ordering.lt o = IsLt o
Both Ordering.eq _ = ⊥
Both Ordering.gt _ = ⊥

abbrev Scalar : Ordering → Ordering → Ordering → Type 0
Scalar Ordering.lt _ _ = Unit
Scalar Ordering.eq o p = Both o p
Scalar Ordering.gt o p = Both o p

abbrev decide_lt : (o : Ordering) → Option (IsLt o)
decide_lt Ordering.lt = some tt
decide_lt Ordering.eq = none
decide_lt Ordering.gt = none

abbrev decide_both : (o p : Ordering) → Option (Both o p)
decide_both Ordering.lt o = decide_lt o
decide_both Ordering.eq _ = none
decide_both Ordering.gt _ = none

abbrev decide_scalar : (o p q : Ordering) → Option (Scalar o p q)
decide_scalar Ordering.lt _ _ = some tt
decide_scalar Ordering.eq o p = decide_both o p
decide_scalar Ordering.gt o p = decide_both o p

decide_scalar-some :
    (o p q : Ordering) (h : Scalar o p q) → (k : Scalar o p q) × (decide_scalar o p q ≡ some k)
decide_scalar-some Ordering.lt _ _ h = (tt, refl)
decide_scalar-some Ordering.eq Ordering.lt Ordering.lt h = (tt, refl)
decide_scalar-some Ordering.gt Ordering.lt Ordering.lt h = (tt, refl)
decide_scalar-some Ordering.eq Ordering.eq q h = absurd h
decide_scalar-some Ordering.eq Ordering.gt q h = absurd h
decide_scalar-some Ordering.gt Ordering.eq q h = absurd h
decide_scalar-some Ordering.gt Ordering.gt q h = absurd h
decide_scalar-some Ordering.eq Ordering.lt Ordering.eq h = absurd h
decide_scalar-some Ordering.eq Ordering.lt Ordering.gt h = absurd h
decide_scalar-some Ordering.gt Ordering.lt Ordering.eq h = absurd h
decide_scalar-some Ordering.gt Ordering.lt Ordering.gt h = absurd h

abbrev char_or : (n : ℕ) → Option (IsScalar n) → Char
char_or n none = "a"
char_or n (some p) = char n p

abbrev to_char : ℕ → Char
to_char n = char_or n (decide_scalar (compare n 55296) (compare 57343 n) (compare n 1114112))

to_char-code : (c : Char) → to_char (code c) ≡ c
to_char-code (char n p) =
    let (k, decided) =
      decide_scalar-some (compare n 55296) (compare 57343 n) (compare n 1114112) p in
    ap (char_or n) decided ∙ Char-path (char n k) (char n p) refl

abbrev pub codes : String → Bytes
codes String.[] = []
codes (String.◌∷◌ c s) = code c ∷ codes s

abbrev chars : Bytes → String
chars [] = ""
chars (b ∷ bs) = String.◌∷◌ (to_char b) (chars bs)

chars-codes : (t : String) → chars (codes t) ≡ t
chars-codes String.[] = refl
chars-codes (String.◌∷◌ c s) =
    ap (λ d. String.◌∷◌ d (chars (codes s))) (to_char-code c) ∙ ap (String.◌∷◌ c) (chars-codes s)

-- A number as so many "a" and a "b".
abbrev unary : ℕ → String → String
unary zero rest = String.◌∷◌ "b" rest
unary (suc n) rest = String.◌∷◌ "a" (unary n rest)

abbrev pub encode : Bytes → String
encode [] = ""
encode (n ∷ ns) = unary n (encode ns)

abbrev with_head : ℕ → Option Bytes → Option Bytes
with_head n none = none
with_head n (some ns) = some (n ∷ ns)

abbrev decode_from : ℕ → String → Option Bytes
decode_from n String.[] = if nat_eq n 0 then some [] else none
decode_from n (String.◌∷◌ c s) =
    if nat_eq (code c) b'a' then decode_from (suc n) s else with_head n (decode_from 0 s)

decode-unary :
    (k n : ℕ) (rest : String)
    → decode_from k (unary n rest) ≡ with_head (k + n) (decode_from 0 rest)
decode-unary k zero rest = ground arith
decode-unary k (suc n) rest = ground (arith, decode-unary (suc k) n rest)

decode-encode : (b : Bytes) → decode_from 0 (encode b) ≡ some b
decode-encode [] = refl
decode-encode (n ∷ ns) = ground (arith, decode-unary 0 n (encode ns), decode-encode ns)

unary-no_dollar :
    (n : ℕ) (rest : String)
    → contains_code b'$' rest ≡ false
    → contains_code b'$' (unary n rest) ≡ false
unfolding contains_code
unary-no_dollar zero rest h = ground arith
unary-no_dollar (suc n) rest h = ground (arith, unary-no_dollar n rest)

encode-no_dollar : (b : Bytes) → contains_code b'$' (encode b) ≡ false
unfolding contains_code
encode-no_dollar [] = refl
encode-no_dollar (n ∷ ns) = unary-no_dollar n (encode ns) (encode-no_dollar ns)

-- The first bytes, with zeros where they end early.
abbrev pub fit : ℕ → Bytes → Bytes
fit zero bs = []
fit (suc n) [] = 0 ∷ fit n []
fit (suc n) (b ∷ bs) = b ∷ fit n bs

length-fit : (n : ℕ) (bs : Bytes) → length (fit n bs) ≡ n
length-fit zero bs = refl
length-fit (suc n) [] = ground (arith, length-fit n [])
length-fit (suc n) (b ∷ bs) = ground (arith, length-fit n bs)

abbrev pub zeros : Bytes
zeros = 0 ∷ 0 ∷ 0 ∷ 0 ∷ 0 ∷ 0 ∷ 0 ∷ 0 ∷ 0 ∷ 0 ∷ 0 ∷ 0 ∷ 0 ∷ 0 ∷ 0 ∷ 0 ∷ []

abbrev pub platform : Platform
platform = record {
  lower = λ c. c;
  upper = λ c. c;
  parse_address = λ t. some t;
  split_host_port = λ t. none;
  parse_ip = λ t. some t;
  bytes_of = codes;
  text_of = chars;
  sha256 = λ b. b;
  hex_encode = chars;
  hmac_sha256 = λ k b. b;
  raw_url_encode = encode;
  raw_url_decode = decode_from 0;
  raw_std_encode = encode;
  raw_std_decode = decode_from 0;
  std_decode = decode_from 0;
  seal = λ key nonce value aad. zeros ++ value;
  unseal = λ key nonce sealed aad. some (drop 16 sealed);
  id_key = λ password salt t m p size. fit size password;
  parse_uuid = λ t. some t;
  accepts_text = λ b. true;
  add_period = λ yearly now. now + 1000;
  concat_settings = λ old new. if new == "" then old else new;
  remove_floor_plan = λ t. "";
  json_valid = λ t. true;
  get_floor_plan = λ t. t;
  set_floor_plan = λ old new. some new;
  day_start = λ now. 50;
  lower_text = λ t. t;
  accepts_database_url = λ t. true;
  query_escape = λ t. t;
}

-- A run in which nothing fails, at this time; the n-th call gives n as its random bytes.
abbrev pub at : ℕ → Env
at now = record {
  platform = platform;
  fault = λ n. false;
  db_now = now;
  app_now = now;
  fresh_id = λ n. unary n "";
  random = λ n size. fit size (n ∷ []);
}

pub at-IsLawful : (now : ℕ) → IsLawful (at now)
at-IsLawful now = record {
  length-random = λ n size. length-fit size (n ∷ []);
  text_of-bytes_of = chars-codes;
  raw_url_decode-encode = decode-encode;
  raw_std_decode-encode = decode-encode;
  unseal-seal = λ key nonce value aad. refl;
  length-seal = λ key nonce value aad. ground arith;
  raw_std_encode-no_dollar = encode-no_dollar;
  length-id_key = λ password salt t m p size. length-fit size password;
}
