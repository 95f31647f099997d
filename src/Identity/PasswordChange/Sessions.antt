-- ===== src/Identity/PasswordChange/Sessions.antt =====
-- What a password change does to the sessions of the account: the one it came from stays, every
-- other one ends.
use pocket_mvp_backend.Prelude.{
  ℕ, suc, ◌≡◌, ap, ◌∙◌, Bool, ◌&&◌, not, some, Option-cases, inl, inr, String, update_where, arith,
  ◌==◌,
}
use pocket_mvp_backend.Platform.{Env}
use pocket_mvp_backend.Schema.{SessionRow, Database}
use pocket_mvp_backend.Effects.{State, ok, ◌>>=◌, ask, fail_if, exec, uuid_arg, transaction}
use pocket_mvp_backend.Effects.Rules.{Result-cases, transaction-eq-ok, ReadsOnly, reads_only}
use pocket_mvp_backend.Security.Password.{hash_password}
use pocket_mvp_backend.Security.Session.{hash_session_token}
use pocket_mvp_backend.Identity.Model.{ChangePasswordInput, Service}
use pocket_mvp_backend.Identity.Sessions.{revoke}
use pocket_mvp_backend.Identity.Account.{confirm_password}
use pocket_mvp_backend.Identity.Atomicity.{hash_password-ReadsOnly}
use pocket_mvp_backend.Identity.PasswordReset.{set_password, consume_once, is_session_of}
use pocket_mvp_backend.Identity.PasswordChange.{password_change, change_password}

-- The sessions that a change by the session `kept` ends.
abbrev pub is_other_session : String → String → SessionRow → Bool
is_other_session id kept r = is_session_of id r && not (r.refresh_token_hash == kept)

-- The database after a password change.
abbrev pub changed : ℕ → String → String → String → Database → Database
changed now id kept new_hash db = record db {
  users = update_where (λ u. u.id == id) (set_password new_hash) db.users;
  resets = update_where (λ t. t.user_id == id) (consume_once now) db.resets;
  sessions = update_where (is_other_session id kept) (revoke now) db.sessions;
}

confirm_password-ReadsOnly : (id password : String) → ReadsOnly (confirm_password id password)
unfolding confirm_password
confirm_password-ReadsOnly id password = search reads_only

pub password_change-eq-ok :
    (id current new kept : String) (e : Env) (s : State)
    → (password_change id current new kept e s).0 ≡ ok tt
    → (new_hash : String) × (t : State) × ((hash_password new e t).0 ≡ ok new_hash)
      × ((password_change id current new kept e s).1.db ≡ changed e.db_now id kept new_hash s.db)
unfolding password_change ◌>>=◌ exec
password_change-eq-ok id current new kept e s h =
    elim (Result-cases (confirm_password id current e s).0) [
      | inr (x, failed) ↦ absurd (ground arith)
      | inl (done, confirmed) ↦
          let s₁ = (confirm_password id current e s).1 in
          let same₁ = (confirm_password-ReadsOnly id current).keeps e s in
          elim (Result-cases (hash_password new e s₁).0) [
            | inr (x, failed) ↦ absurd (ground arith)
            | inl (new_hash, hashed) ↦
                let same₂ = (hash_password-ReadsOnly new).keeps e s₁ in
                let s₂ = (hash_password new e s₁).1 in
                let step : (password_change id current new kept e s).1.db
                    ≡ changed e.db_now id kept new_hash s₂.db =
                  ground arith in
                (
                  new_hash,
                  s₁,
                  hashed,
                  step ∙ ap (changed e.db_now id kept new_hash) (same₂ ∙ same₁),
                )
          ]
    ]

-- What a successful change has done.
pub change_password-eq-ok :
    (svc : Service) (input : ChangePasswordInput) (e : Env) (s : State)
    → (change_password svc input e s).0 ≡ ok tt
    → (id : String) × (new_hash : String) × (e.parse_uuid input.user_id ≡ some id)
      × ((change_password svc input e s).1.db
          ≡ changed e.db_now id (hash_session_token e.platform input.session_token) new_hash s.db)
      × (t : State) × ((hash_password input.new_password e t).0 ≡ ok new_hash)
unfolding change_password ◌>>=◌ fail_if ask uuid_arg
change_password-eq-ok svc input e s h = elim (Option-cases (e.parse_uuid input.user_id)) [
  | inl malformed ↦ absurd (ground arith)
  | inr (id, parsed) ↦
      let kept = hash_session_token e.platform input.session_token in
      let body = password_change id input.current_password input.new_password kept in
      let (ran, after) = transaction-eq-ok body e s tt (ground arith) in
      let (new_hash, t, hashed, effect) =
        password_change-eq-ok id input.current_password input.new_password kept e
          (record s { calls = suc s.calls }) ran in
      let ended : (change_password svc input e s).1.db ≡ (transaction body e s).1.db =
        ground arith in
      (id, new_hash, parsed, ended ∙ after ∙ effect, t, hashed)
]
