-- ===== src/Tests/SecurityRuns.antt =====
-- The theorems of Security on the example platform.
use pocket_mvp_backend.Prelude.{◌≡◌, refl, some, String, [], bytes_eq, ◌++◌, arith}
use pocket_mvp_backend.Effects.{ask, pure, ◌>>=◌, read_random}
use pocket_mvp_backend.Security.Data.{encrypt_bytes, encrypt, decrypt}
use pocket_mvp_backend.Security.Data.RoundTrip.{decrypt-encrypt}
use pocket_mvp_backend.Security.Password.{hash_password, verify_password, encoded_hash}
use pocket_mvp_backend.Security.Password.RoundTrip.{
  argon_digest, verify_password-encoded_hash, verify_password-hash_password,
}
use pocket_mvp_backend.Tests.Platform.{platform, at, at-IsLawful, codes, encode, fit, zeros}
use pocket_mvp_backend.Tests.Scene.{protector, start}

abbrev ada : String
ada = encode (fit 12 [] ++ (zeros ++ codes "ada"))

decrypt-encrypt_example : decrypt platform protector ada "users.email" ≡ some "ada"
unfolding encrypt encrypt_bytes ask pure ◌>>=◌ read_random
decrypt-encrypt_example =
    decrypt-encrypt (at-IsLawful 1) protector "ada" "users.email" start ada refl

verify_password-hash_password_example :
    verify_password platform "other" (encoded_hash platform (fit 16 []) (fit 32 (codes "secret")))
    ≡ some (
        bytes_eq
          (argon_digest (at 1) "other" (fit 16 []))
          (argon_digest (at 1) "secret" (fit 16 [])))
unfolding hash_password ask pure ◌>>=◌ read_random
verify_password-hash_password_example =
    verify_password-hash_password (at-IsLawful 1) "secret" "other" start
      (encoded_hash platform (fit 16 []) (fit 32 (codes "secret"))) refl

verify_password-encoded_hash_example :
    verify_password platform "other" (encoded_hash platform (fit 16 []) (fit 20 (codes "secret")))
    ≡ some (bytes_eq (fit 20 (codes "other")) (fit 20 (codes "secret")))
verify_password-encoded_hash_example =
    verify_password-encoded_hash (at-IsLawful 1) "other" (fit 16 []) (fit 20 (codes "secret"))
      (omega arith) (omega arith) (omega arith) (omega arith)
