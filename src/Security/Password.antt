-- ===== src/Security/Password.antt =====
-- internal/security/password.go: Argon2id hashes in PHC form.
pub mod Scan
pub mod RoundTrip
use Prim.Native.String.{◌++◌}
use pocket_mvp_backend.Prelude.{
  ℕ, ◌*◌, Bool, true, false, ◌||◌, not, Option, none, some, String, Bytes, List, [], ◌∷◌, length,
  ltb, leb, nat_eq, bytes_eq, if◌then◌else◌, ◌==◌,
}
use pocket_mvp_backend.Platform.{Platform}
use pocket_mvp_backend.Effects.{Op, ask, pure, ◌>>=◌, read_random}
use pocket_mvp_backend.Security.Password.Scan.{split, scan_version, scan_parameters, Parameters}

abbrev pub argon_memory : ℕ
argon_memory = 64 * 1024

abbrev pub argon_iterations : ℕ
argon_iterations = 3

abbrev pub argon_parallelism : ℕ
argon_parallelism = 4

abbrev pub argon_salt_length : ℕ
argon_salt_length = 16

abbrev pub argon_key_length : ℕ
argon_key_length = 32

-- argon2.Version
abbrev pub argon_version : ℕ
argon_version = 0x13

-- The format of `HashPassword` with its constants filled in.
unfoldable pub encoded_hash : Platform → Bytes → Bytes → String
encoded_hash e salt digest =
    "$"
    ++ ("argon2id"
        ++ ("$"
            ++ ("v=19"
                ++ ("$"
                    ++ ("m=65536,t=3,p=4"
                        ++ ("$" ++ (e.raw_std_encode salt ++ ("$" ++ e.raw_std_encode digest))))))))

unfoldable pub hash_password : String → Op String
hash_password password = do
  salt ← read_random argon_salt_length
  e ← ask
  let digest =
      e.id_key (e.bytes_of password) salt argon_iterations argon_memory argon_parallelism
        argon_key_length
  pure (encoded_hash e.platform salt digest)

abbrev pub in_range : Parameters → Bool
in_range q = not (
    ltb q.memory (8 * 1024)
    || ltb (256 * 1024) q.memory
    || ltb q.iterations 1
    || ltb 10 q.iterations
    || ltb q.parallelism 1
    || ltb 16 q.parallelism)

-- `len(decoded) < 16 || len(decoded) > 64`, and the error of DecodeString.
abbrev of_fit_length : Option Bytes → Option Bytes
of_fit_length none = none
of_fit_length (some b) = if ltb (length b) 16 || ltb 64 (length b) then none else some b

verify_digest : Platform → String → Parameters → Option Bytes → Option Bytes → Option Bool
verify_digest e password q none want = none
verify_digest e password q (some salt) none = none
verify_digest e password q (some salt) (some want) = some (
    bytes_eq (e.id_key (e.bytes_of password) salt q.iterations q.memory q.parallelism (length want))
      want)

verify_parameters : Platform → String → String → String → Option Parameters → Option Bool
unfolding verify_digest
verify_parameters e password salt want none = none
verify_parameters e password salt want (some q) =
    if in_range q
    then verify_digest e password q (of_fit_length (e.raw_std_decode salt))
        (of_fit_length (e.raw_std_decode want))
    else none

-- The parts of the split at "$": `len(parts) != 6` is the pattern.
verify_parts : Platform → String → List String → Option Bool
unfolding verify_parameters
verify_parts e password (empty ∷ name ∷ version ∷ parameters ∷ salt ∷ want ∷ []) =
    if not (name == "argon2id")
    then none
    else if not (scan_version version argon_version)
    then none
    else verify_parameters e password salt want (scan_parameters parameters)
verify_parts e password _ = none

-- `VerifyPassword`; `none` is ErrInvalidPasswordHash.
unfoldable pub verify_password : Platform → String → String → Option Bool
unfolding verify_parts
verify_password e password encoded = verify_parts e password (split b'$' encoded)
