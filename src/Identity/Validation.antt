-- ===== src/Identity/Validation.antt =====
-- internal/modules/identity/validation.go, and the two input checks of service.go.
use pocket_mvp_backend.Prelude.{
  ℕ, Bool, false, ◌&&◌, ◌||◌, Option, none, some, String, Bytes, length, take, leb, ltb,
  if◌then◌else◌, ◌==◌,
}
use pocket_mvp_backend.Platform.{Platform}
use pocket_mvp_backend.GoText.{trim_space, rune_count, byte_len, contains_code}
use pocket_mvp_backend.Identity.Model.{RegisterInput, UpdateProfileInput}

unfoldable pub valid_name : String → Bool
valid_name value = let count = rune_count value in leb 1 count && leb count 80

abbrev is_parsed_as : String → Option String → Bool
is_parsed_as value none = false
is_parsed_as value (some address) = address == value

unfoldable pub valid_email : Platform → String → Bool
valid_email e value =
    if ltb 254 (byte_len value) || contains_code b'\r' value || contains_code b'\n' value
    then false
    else is_parsed_as value (e.parse_address value)

unfoldable pub valid_password : String → Bool
valid_password value = let length = rune_count value in leb 12 length && leb length 128

abbrev host_or : String → Option String → String
host_or value none = value
host_or value (some host) = host

abbrev ip_or_zero : Option String → String
ip_or_zero none = "0.0.0.0"
ip_or_zero (some parsed) = parsed

unfoldable pub normalized_ip : Platform → String → String
normalized_ip e value =
    ip_or_zero (e.parse_ip (trim_space (host_or value (e.split_host_port value))))

-- On raw bytes: a User-Agent header need not be valid UTF-8, and a cut may fall inside a character.
unfoldable pub truncate : Bytes → ℕ → Bytes
truncate value limit = if leb (length value) limit then value else take limit value

unfoldable pub valid_registration : Platform → RegisterInput → Bool
unfolding valid_name valid_email valid_password
valid_registration e input =
    valid_name input.first_name
    && valid_name input.last_name
    && valid_email e input.email
    && valid_password input.password
    && leb (rune_count input.phone) 40

unfoldable pub valid_profile_update : UpdateProfileInput → Bool
unfolding valid_name
valid_profile_update input =
    valid_name input.first_name && valid_name input.last_name && leb (rune_count input.phone) 40
