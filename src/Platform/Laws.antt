-- ===== src/Platform/Laws.antt =====
-- What the theorems rely on of the code outside the repository, each its documented behaviour.
use pocket_mvp_backend.Prelude.{ℕ, Bool, ◌+◌, ◌≡◌, false, some, String, Bytes, length}
use pocket_mvp_backend.Platform.{Env}
use pocket_mvp_backend.GoText.{contains_code}

-- The documented behaviour of these calls that the theorems name.
pub record IsLawful (e : Env) : Type 0 where
  pub length-random : (n size : ℕ) → length (e.random n size) ≡ size
  pub text_of-bytes_of : (t : String) → e.text_of (e.bytes_of t) ≡ t
  pub raw_url_decode-encode : (b : Bytes) → e.raw_url_decode (e.raw_url_encode b) ≡ some b
  pub raw_std_decode-encode : (b : Bytes) → e.raw_std_decode (e.raw_std_encode b) ≡ some b
  pub unseal-seal :
      (key nonce value aad : Bytes)
      → e.unseal key nonce (e.seal key nonce value aad) aad ≡ some value
  pub length-seal :
      (key nonce value aad : Bytes) → length (e.seal key nonce value aad) ≡ length value + 16
  -- the alphabet of standard base64 has no "$"
  pub raw_std_encode-no_dollar : (b : Bytes) → contains_code b'$' (e.raw_std_encode b) ≡ false
  pub length-id_key :
      (password salt : Bytes) (t m p size : ℕ) → length (e.id_key password salt t m p size) ≡ size

-- The documented behaviour of the jsonb operators on the settings of a venue, which are an object:
-- `jsonb` is the text that PostgreSQL gives a document.
pub record IsPlanLawful (e : Env) (jsonb : String → String) : Type 0 where
  pub get-set :
      (settings plan changed : String)
      → e.set_floor_plan settings plan ≡ some changed
      → e.get_floor_plan changed ≡ jsonb plan

-- The documented behaviour of `||` and `-` on such settings: what `-` gives has no such key, and of
-- a key that the right side of `||` does not have the left side's value is kept. `has_plan` says of
-- a JSON text whether it has the key 'floor_plan'.
pub record IsMergeLawful (e : Env) (has_plan : String → Bool) : Type 0 where
  pub has-remove : (changes : String) → has_plan (e.remove_floor_plan changes) ≡ false
  pub get-concat :
      (settings changes : String)
      → has_plan changes ≡ false
      → e.get_floor_plan (e.concat_settings settings changes) ≡ e.get_floor_plan settings
