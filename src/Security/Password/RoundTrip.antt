-- ===== src/Security/Password/RoundTrip.antt =====
-- A hash that `HashPassword` made is accepted by `VerifyPassword` for its password.
use Prim.Native.String.{◌++◌}
use text.Mathlib.TextLemmas.{cons-append, nil-append}
use pocket_mvp_backend.Prelude.{
  ◌∙◌, ◌≡◌, ◌≤◌, refl, true, false, some, String, Bytes, [], ◌∷◌, length, arith, bytes_eq,
  bytes_eq_refl, eq_refl, ap,
}
use pocket_mvp_backend.Platform.{Env}
use pocket_mvp_backend.Platform.Laws.{IsLawful}
use pocket_mvp_backend.GoText.{contains_code, is_space}
use pocket_mvp_backend.Effects.{State, ok, ◌>>=◌, ask, read_random}
use pocket_mvp_backend.Security.Password.{
  encoded_hash, hash_password, verify_password, argon_iterations, argon_memory, argon_parallelism,
  argon_salt_length, argon_key_length, argon_version,
}
use pocket_mvp_backend.Security.Password.Scan.{split, scan_version, scan_parameters, Parameters}

dollar-append : (t : String) → ("$" ++ t) ≡ String.◌∷◌ "$" t
dollar-append t = cons-append "$" "" t ∙ ap (λ r. String.◌∷◌ "$" r) (nil-append t)

split-dollar : (t : String) → split b'$' ("$" ++ t) ≡ "" ∷ split b'$' t
unfolding split
split-dollar t = rw dollar-append refl

abbrev default_parameters : Parameters
default_parameters = record {
  memory = argon_memory;
  iterations = argon_iterations;
  parallelism = argon_parallelism;
}

-- A part with no separator is the first part.
split-append :
    (s t : String) → contains_code b'$' s ≡ false → split b'$' (s ++ ("$" ++ t)) ≡ s ∷ split b'$' t
unfolding split contains_code
split-append String.[] t h = rw nil-append (split-dollar t)
split-append (String.◌∷◌ c s) t h = rw (cons-append c s) (ground (arith, split-append s t))

split-last : (s : String) → contains_code b'$' s ≡ false → split b'$' s ≡ s ∷ []
unfolding split contains_code
split-last String.[] h = refl
split-last (String.◌∷◌ c s) h = ground (arith, split-last s)

name_plain : contains_code b'$' "argon2id" ≡ false
unfolding contains_code
name_plain = refl

version_plain : contains_code b'$' "v=19" ≡ false
unfolding contains_code
version_plain = refl

parameters_plain : contains_code b'$' "m=65536,t=3,p=4" ≡ false
unfolding contains_code
parameters_plain = refl

scan_version_19 : scan_version "v=19" argon_version ≡ true
unfolding scan_version is_space
scan_version_19 = refl

scan_parameters_default : scan_parameters "m=65536,t=3,p=4" ≡ some default_parameters
unfolding scan_parameters is_space
scan_parameters_default = refl

-- The Argon2id digest of a password under the parameters of `hash_password`.
abbrev pub argon_digest : Env → String → Bytes → Bytes
argon_digest e password salt =
    e.id_key (e.bytes_of password) salt argon_iterations argon_memory argon_parallelism
      argon_key_length

module _ {e : Env} (lawful : IsLawful e) where
  split-encoded_hash :
      (salt digest : Bytes)
      → split b'$' (encoded_hash e.platform salt digest)
        ≡ ""
          ∷ "argon2id"
          ∷ "v=19"
          ∷ "m=65536,t=3,p=4"
          ∷ e.raw_std_encode salt
          ∷ e.raw_std_encode digest
          ∷ []
  unfolding encoded_hash
  split-encoded_hash salt digest = simp (
    split-dollar,
    split-append "argon2id" _ name_plain,
    split-append "v=19" _ version_plain,
    split-append "m=65536,t=3,p=4" _ parameters_plain,
    split-append (e.raw_std_encode salt) _ (lawful.raw_std_encode-no_dollar salt),
    split-last (e.raw_std_encode digest) (lawful.raw_std_encode-no_dollar digest),
  )

  -- On a stored hash in the form of `HashPassword`, with a salt and a digest of allowed lengths, the
  -- check compares the digest with the one of the offered password.
  pub verify_password-encoded_hash :
      (password : String) (salt digest : Bytes)
      → 16 ≤ length salt
      → length salt ≤ 64
      → 16 ≤ length digest
      → length digest ≤ 64
      → verify_password e.platform password (encoded_hash e.platform salt digest)
        ≡ some (
            bytes_eq
              (e.id_key
                (e.bytes_of password)
                salt
                argon_iterations
                argon_memory
                argon_parallelism
                (length digest))
              digest)
  unfolding verify_password
  verify_password-encoded_hash password salt digest h₁ h₂ h₃ h₄ =
      rw (split-encoded_hash salt digest) (
        ground (
          arith,
          scan_version_19,
          scan_parameters_default,
          eq_refl "argon2id",
          lawful.raw_std_decode-encode salt,
          lawful.raw_std_decode-encode digest,
        ))

  -- A hash from `hash_password` accepts exactly the passwords with its Argon2id digest: the hashed
  -- one among them.
  pub verify_password-hash_password :
      (password offered : String) (s : State) (stored : String)
      → (hash_password password e s).0 ≡ ok stored
      → verify_password e.platform offered stored
        ≡ some (
            bytes_eq
              (argon_digest e offered (e.random s.calls argon_salt_length))
              (argon_digest e password (e.random s.calls argon_salt_length)))
  unfolding hash_password ◌>>=◌ read_random ask
  verify_password-hash_password password offered s stored h =
      let salt = e.random s.calls argon_salt_length in
      let digest = argon_digest e password salt in
      ground (
        arith,
        lawful.length-random s.calls argon_salt_length,
        lawful.length-id_key (e.bytes_of password) salt argon_iterations argon_memory
            argon_parallelism argon_key_length,
        verify_password-encoded_hash offered salt digest,
      )

  -- The hash that was made for a password is accepted for it.
  pub hash_password-verifies :
      (password : String) (s : State) (stored : String)
      → (hash_password password e s).0 ≡ ok stored
      → verify_password e.platform password stored ≡ some true
  hash_password-verifies password s stored h =
      verify_password-hash_password password password s stored h
      ∙ ap some (bytes_eq_refl (argon_digest e password (e.random s.calls argon_salt_length)))
