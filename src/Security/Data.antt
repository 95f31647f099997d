-- ===== src/Security/Data.antt =====
-- internal/security/data.go: field-level encryption and the keyed lookup of normalized values.
pub mod RoundTrip
use pocket_mvp_backend.Prelude.{
  ℕ, ◌+◌, Bool, true, false, ◌||◌, not, Option, none, some, String, Bytes, ◌++◌, length, take, drop,
  leb, ltb, nat_eq, if◌then◌else◌,
}
use pocket_mvp_backend.Platform.{Platform}
use pocket_mvp_backend.Effects.{Op, ask, pure, ◌>>=◌, read_random}
use pocket_mvp_backend.GoText.{trim_space, to_lower}

-- `aead` is AES-GCM under `encryption_key`.
pub record DataProtector : Type 0 where
  pub encryption_key : Bytes
  pub lookup_key : Bytes

-- cipher.AEAD of cipher.NewGCM: NonceSize and Overhead
abbrev pub nonce_size : ℕ
nonce_size = 12

abbrev pub overhead : ℕ
overhead = 16

-- aes.NewCipher and cipher.NewGCM accept every key of 32 bytes.
unfoldable pub new_data_protector : Bytes → Bytes → Option DataProtector
new_data_protector encryption_key lookup_key =
    if not (nat_eq (length encryption_key) 32)
    then none
    else if ltb (length lookup_key) 32
    then none
    else some (record { encryption_key = encryption_key; lookup_key = lookup_key })

-- `DecodeKey`; `none` is its error.
unfoldable pub decode_key : Platform → String → Option Bytes
decode_key e value = e.std_decode (trim_space value)

unfoldable pub encrypt_bytes : DataProtector → Bytes → String → Op Bytes
encrypt_bytes p value field = do
  nonce ← read_random nonce_size
  e ← ask
  pure (nonce ++ e.seal p.encryption_key nonce value (e.bytes_of field))

unfoldable pub encrypt : DataProtector → String → String → Op String
unfolding encrypt_bytes
encrypt p value field = do
  e ← ask
  sealed ← encrypt_bytes p (e.bytes_of value) field
  pure (e.raw_url_encode sealed)

unfoldable pub decrypt_bytes : Platform → DataProtector → Bytes → String → Option Bytes
decrypt_bytes e p sealed field =
    if ltb (length sealed) (nonce_size + overhead)
    then none
    else e.unseal p.encryption_key (take nonce_size sealed) (drop nonce_size sealed)
        (e.bytes_of field)

-- The value of a field, from what base64 gave.
decrypt_decoded : Platform → DataProtector → String → Option Bytes → Option String
decrypt_decoded e p field none = none
decrypt_decoded e p field (some sealed) = elim (decrypt_bytes e p sealed field) [
  | none ↦ none
  | some plaintext ↦ some (e.text_of plaintext)
]

unfoldable pub decrypt : Platform → DataProtector → String → String → Option String
unfolding decrypt_decoded decrypt_bytes
decrypt e p value field = decrypt_decoded e p field (e.raw_url_decode value)

unfoldable pub lookup : Platform → DataProtector → String → Bytes
lookup e p normalized_value = e.hmac_sha256 p.lookup_key (e.bytes_of normalized_value)

unfoldable pub normalize_email : Platform → String → String
unfolding trim_space to_lower
normalize_email e email = to_lower e (trim_space email)
