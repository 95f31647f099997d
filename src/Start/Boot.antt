-- ===== src/Start/Boot.antt =====
-- When the start-up of cmd/api/main.go succeeds.
use pocket_mvp_backend.Prelude.{
  ℕ, suc, ◌≡◌, ◌⊎◌, ◌≤◌, ◌<◌, ◌/◌, ◌^◌, pos, true, false, Bool-cases, some, inl, inr, String,
  length, arith, ltb, nat_eq,
}
use pocket_mvp_backend.Faults.{other}
use pocket_mvp_backend.Platform.{Env}
use pocket_mvp_backend.Effects.{
  State, ok, err, ◌>>=◌, ask, pure, fail, fail_if, or_fail, external, read_random,
}
use pocket_mvp_backend.Effects.Rules.{Result-cases}
use pocket_mvp_backend.Security.Data.{new_data_protector}
use pocket_mvp_backend.Security.Password.{hash_password}
use pocket_mvp_backend.Identity.Service.{new_service}
use pocket_mvp_backend.Config.{Host, Config, loaded, load}
use pocket_mvp_backend.Config.Valid.{load-valid}
use pocket_mvp_backend.Http.Message.{Handler}
use pocket_mvp_backend.Http.Contracts.{Codec}
use pocket_mvp_backend.Start.{ping, open_database, new_identity, boot}

-- A start-up whose calls to the outside all work, from a configuration that loaded with a reset
-- time to live of at least a microsecond, succeeds if pgxpool accepts the database URL and the
-- encryption key has exactly 32 bytes; and it fails if pgxpool does not accept the URL or the key
-- is longer than 32 bytes, which are the only other cases. (ParseInt gives no number beyond the 32
-- bits it is asked for.)
pub boot-loaded :
    (codec : Codec) (h : Host) (cfg : Config) (e : Env) (s : State)
    → ((t : String) (k : ℕ) → h.parse_int32 t ≡ some (pos k) → k < 2 ^ 31)
    → load h ≡ loaded cfg
    → ((n : ℕ) → e.fault n ≡ false)
    → 1000 ≤ cfg.password_reset_ttl
    → ((e.accepts_database_url cfg.database_url ≡ true)
        × (length cfg.data_encryption_key ≡ 32)
        × (handler : Handler) × ((boot codec cfg e s).0 ≡ ok handler))
      ⊎ (((e.accepts_database_url cfg.database_url ≡ false) ⊎ (32 < length cfg.data_encryption_key))
          × ((boot codec cfg e s).0 ≡ err other))
unfolding boot open_database ping new_identity new_service new_data_protector hash_password ◌>>=◌
    ask pure fail fail_if or_fail external read_random
boot-loaded codec h cfg e s law found works lasting =
    let usable = load-valid h cfg law found in
    let (_, _, _, _, _, _, _, key_long, look_long, _, _, base) = usable in
    let w₀ = works s.calls in
    let w₁ = works (suc s.calls) in
    let w₂ = works (suc (suc s.calls)) in
    let long : 1 ≤ cfg.password_reset_ttl / 1000 = omega (arith, lasting) in
    let look : ltb (length cfg.data_lookup_key) 32 ≡ false = ground (arith, look_long) in
    elim (Bool-cases (e.accepts_database_url cfg.database_url)) [
      | inr refused ↦ inr (inl refused, ground arith)
      | inl accepted ↦ elim (Bool-cases (nat_eq (length cfg.data_encryption_key) 32)) [
        | inl exact ↦ elim (Result-cases (boot codec cfg e s).0) [
          | inl (handler, started) ↦ inl (accepted, ground arith, handler, started)
          | inr (x, failed) ↦ absurd (ground arith)
        ]
        | inr longer ↦ inr (inr (ground arith), ground arith)
      ]
    ]
