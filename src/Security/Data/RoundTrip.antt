-- ===== src/Security/Data/RoundTrip.antt =====
-- `Decrypt` and `DecryptBytes` of internal/security/data.go on what was encrypted for a field.
use pocket_mvp_backend.Prelude.{
  ◌≡◌, some, String, Bytes, ◌++◌, length, take, drop, length-append, take-append, drop-append,
  arith, subst,
}
use pocket_mvp_backend.Platform.{Env}
use pocket_mvp_backend.Platform.Laws.{IsLawful}
use pocket_mvp_backend.Effects.{State, ok, ◌>>=◌, ask, read_random}
use pocket_mvp_backend.Security.Data.{
  DataProtector, encrypt_bytes, encrypt, decrypt_bytes, decrypt, nonce_size,
}

module _ {e : Env} (lawful : IsLawful e) (p : DataProtector) where
  decrypt_bytes_sealed :
      (nonce value : Bytes) (field : String)
      → length nonce ≡ nonce_size
      → decrypt_bytes e.platform p
          (nonce ++ e.seal p.encryption_key nonce value (e.bytes_of field))
          field
        ≡ some value
  unfolding decrypt_bytes
  decrypt_bytes_sealed nonce value field h =
      let key = p.encryption_key in
      let aad = e.bytes_of field in
      let body = e.seal key nonce value aad in
      ground (
        arith,
        length-append nonce body,
        lawful.length-seal key nonce value aad,
        lawful.unseal-seal key nonce value aad,
        subst (λ n. take n (nonce ++ body) ≡ nonce) h (take-append nonce body),
        subst (λ n. drop n (nonce ++ body) ≡ body) h (drop-append nonce body),
      )

  -- Decrypting what `encrypt_bytes` returned for a field gives the encrypted bytes.
  pub decrypt_bytes-encrypt_bytes :
      (value : Bytes) (field : String) (s : State) (sealed : Bytes)
      → (encrypt_bytes p value field e s).0 ≡ ok sealed
      → decrypt_bytes e.platform p sealed field ≡ some value
  unfolding encrypt_bytes ◌>>=◌ read_random ask
  decrypt_bytes-encrypt_bytes value field s sealed h =
      let nonce = e.random s.calls nonce_size in
      ground
        (arith, decrypt_bytes_sealed nonce value field (lawful.length-random s.calls nonce_size))

  -- Decrypting what `encrypt` returned for a field gives the encrypted text.
  pub decrypt-encrypt :
      (value field : String) (s : State) (stored : String)
      → (encrypt p value field e s).0 ≡ ok stored
      → decrypt e.platform p stored field ≡ some value
  unfolding encrypt ◌>>=◌ read_random ask decrypt
  decrypt-encrypt value field s stored h =
      let nonce = e.random s.calls nonce_size in
      let body = e.seal p.encryption_key nonce (e.bytes_of value) (e.bytes_of field) in
      ground (
        arith,
        decrypt_bytes_sealed nonce (e.bytes_of value) field
            (lawful.length-random s.calls nonce_size),
        lawful.raw_url_decode-encode (nonce ++ body),
        lawful.text_of-bytes_of value,
      )
