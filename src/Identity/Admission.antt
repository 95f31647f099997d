-- ===== src/Identity/Admission.antt =====
-- What a login opens: a session that authenticates as the account whose password was given.
use pocket_mvp_backend.Prelude.{
  ℕ, suc, ◌+◌, ◌<◌, ◌≡◌, refl, sym, ◌∙◌, ap, subst, Bool, true, false, not, Option, none, some,
  Option-cases, inl, inr, String, Bytes, List, find, exists, find-by_key, find-fits, UniqueBy,
  arith, ◌==◌, delete_where,
}
use pocket_mvp_backend.Platform.{Env, Platform}
use pocket_mvp_backend.Schema.{UserRow, Database}
use pocket_mvp_backend.Effects.{
  State, ok, ◌>>=◌, ask, pure, external, query, fail, fail_if, exec, transaction,
}
use pocket_mvp_backend.Effects.Rules.{Result-cases, transaction-eq-ok, ReadsOnly, reads_only}
use pocket_mvp_backend.Security.Session.{hash_session_token}
use pocket_mvp_backend.Identity.Model.{User, Session, LoginInput, Service}
use pocket_mvp_backend.Identity.Validation.{truncate, normalized_ip}
use pocket_mvp_backend.Identity.Persistence.{session_row, is_active_id, is_active}
use pocket_mvp_backend.Identity.Refusal.{login_lookup, login_ip, is_blocked}
use pocket_mvp_backend.Identity.Throttle.{is_attempt, record_failure, login_blocked}
use pocket_mvp_backend.Identity.Sessions.{session_user}
use pocket_mvp_backend.Identity.Service.{
  open_login, hash_to_check, decide_login, refuse_login, login, password_matches,
}
use pocket_mvp_backend.Identity.Sessions.Access.{id-decrypt_user}
use pocket_mvp_backend.Identity.Persistence.{
  CredentialRecord, EncryptedUser, decrypt_user, decrypt_phone, credentials, has_lookup,
  find_user_by_lookup, map_option,
}
use pocket_mvp_backend.Identity.Opening.{with_session, session_user-with_session, open_login-eq-ok}

decrypt_phone-ReadsOnly :
    (p : Platform) (svc : Service) (phone : Option String) → ReadsOnly (decrypt_phone p svc phone)
unfolding decrypt_phone
decrypt_phone-ReadsOnly p svc none = search reads_only
decrypt_phone-ReadsOnly p svc (some phone) = search reads_only

pub decrypt_user-ReadsOnly :
    (svc : Service) (row : EncryptedUser) → ReadsOnly (decrypt_user svc row)
unfolding decrypt_user
decrypt_user-ReadsOnly svc row = search (reads_only, decrypt_phone-ReadsOnly) depth 12

-- The database that a login leaves for this account and token.
abbrev pub granted :
    Service → LoginInput → Bytes → String → Env → String → String → Database → Database
granted svc input l ip e id token db =
    with_session
      (session_row id (hash_session_token e.platform token) (truncate input.user_agent 512)
        (normalized_ip e.platform ip) (e.app_now + svc.ttl))
      (record db { attempts = delete_where (is_attempt l ip) db.attempts })

abbrev pub no_session : Env → String → Database → Bool
no_session e token db =
    not (exists (λ r. r.refresh_token_hash == hash_session_token e.platform token) db.sessions)

-- What a login that goes through has found and done.
decide_login-eq-ok :
    (svc : Service) (input : LoginInput) (l : Bytes) (ip : String) (found : Option CredentialRecord)
    (verified : Bool) (e : Env) (s : State) (user : User) (opened : Session)
    → ((id : String) → ReadsOnly (svc.list_capabilities id))
    → (decide_login svc input l ip found verified e s).0 ≡ ok (user, opened)
    → (r : CredentialRecord) × (found ≡ some r)
      × (verified ≡ true)
      × (user.id ≡ r.user.id)
      × (no_session e opened.token s.db ≡ true)
      × ((decide_login svc input l ip found verified e s).1.db
          ≡ granted svc input l ip e r.user.id opened.token s.db)
unfolding decide_login ◌>>=◌ refuse_login record_failure exec external pure fail
decide_login-eq-ok svc input l ip none verified e s user opened reads h = absurd (ground arith)
decide_login-eq-ok svc input l ip (some r) false e s user opened reads h = absurd (ground arith)
decide_login-eq-ok svc input l ip (some r) true e s user opened reads h =
    elim (Result-cases (decrypt_user svc r.user e s).0) [
      | inr (x, failed) ↦ absurd (ground arith)
      | inl (u, decrypted) ↦
          let s₁ = (decrypt_user svc r.user e s).1 in
          let body = open_login svc input l ip u.id in
          elim (Result-cases (transaction body e s₁).0) [
            | inr (x, failed) ↦ absurd (ground arith)
            | inl (sess, opening) ↦
                let s₂ = (transaction body e s₁).1 in
                let (ran, kept) = transaction-eq-ok body e s₁ sess opening in
                let (expiry, new, after) =
                  open_login-eq-ok svc input l ip u.id e (record s₁ { calls = suc s₁.calls }) sess
                    ran in
                elim (Result-cases (svc.list_capabilities u.id e s₂).0) [
                  | inr (x, failed) ↦ absurd (ground arith)
                  | inl (capabilities, listed) ↦
                      let untouched = (decrypt_user-ReadsOnly svc r.user).keeps e s in
                      let unchanged = (reads u.id).keeps e s₂ in
                      let answer : user ≡ record u { capabilities = capabilities } = ground arith in
                      let session : opened ≡ sess = ground arith in
                      let named : u.id ≡ r.user.id = id-decrypt_user svc r.user e s u decrypted in
                      let ended : (decide_login svc input l ip (some r) true e s).1.db
                          ≡ (svc.list_capabilities u.id e s₂).1.db =
                        ground arith in
                      let fresh : no_session e sess.token s₁.db ≡ true = ground arith in
                      (
                        r,
                        refl,
                        refl,
                        ground arith,
                        subst (λ d. no_session e opened.token d ≡ true) untouched
                            (subst (λ o. no_session e o.token s₁.db ≡ true) (sym session) fresh),
                        ended
                            ∙ unchanged
                            ∙ kept
                            ∙ after
                            ∙ ap (λ d. granted svc input l ip e u.id sess.token d) untouched
                            ∙ ap (λ k. granted svc input l ip e k sess.token s.db) named
                            ∙ ap (λ o. granted svc input l ip e r.user.id o.token s.db)
                                (sym session),
                      )
                ]
          ]
    ]

-- What was found by its lookup is found by its id.
found_is_active :
    (l : Bytes) (users : List UserRow) (u : UserRow)
    → UniqueBy (λ u. u.id) users
    → find (has_lookup l) users ≡ some u
    → find (is_active_id u.id) users ≡ some u
found_is_active l users u unique found =
    find-by_key (λ u. u.id) (has_lookup l) is_active users u unique found
      (ground (arith, find-fits (has_lookup l) users u found))

-- A login that succeeds was for an active account with this e-mail and password, on a key that was
-- not blocked; and until the session's time to live is over, its token leads to that account. (The
-- capability reader only reads, and user ids are unique.)
pub login-opens_session :
    (svc : Service) (input : LoginInput) (e : Env) (s : State) (user : User) (opened : Session)
    (now : ℕ)
    → ((id : String) → ReadsOnly (svc.list_capabilities id))
    → UniqueBy (λ u. u.id) s.db.users
    → (login svc input e s).0 ≡ ok (user, opened)
    → now < e.app_now + svc.ttl
    → (u : UserRow) × (find (has_lookup (login_lookup svc e input)) s.db.users ≡ some u)
      × (password_matches e.platform input.password u.password_hash ≡ true)
      × (is_blocked e.db_now (login_lookup svc e input) (login_ip e input) s.db ≡ false)
      × (user.id ≡ u.id)
      × (session_user now (hash_session_token e.platform opened.token) (login svc input e s).1.db
          ≡ some u)
unfolding login ◌>>=◌ ask fail_if login_blocked query external find_user_by_lookup
login-opens_session svc input e s user opened now reads unique h soon =
    let l = login_lookup svc e input in
    let ip = login_ip e input in
    let s₂ = record s { calls = suc (suc s.calls) } in
    let found = map_option credentials (find (has_lookup l) s.db.users) in
    let verified = password_matches e.platform input.password (hash_to_check svc found) in
    let decided : (decide_login svc input l ip found verified e s₂).0 ≡ ok (user, opened) =
      ground arith in
    let ended : (login svc input e s).1.db
        ≡ (decide_login svc input l ip found verified e s₂).1.db =
      ground arith in
    let (r, exists_account, right, named, fresh, after) =
      decide_login-eq-ok svc input l ip found verified e s₂ user opened reads decided in
    elim (Option-cases (find (has_lookup l) s.db.users)) [
      | inl unknown ↦ absurd (ground arith)
      | inr (u, known) ↦
          let account : u.id ≡ r.user.id = ground arith in
          let row =
            session_row r.user.id (hash_session_token e.platform opened.token)
              (truncate input.user_agent 512) (normalized_ip e.platform ip) (e.app_now + svc.ttl) in
          let cleared = record s.db { attempts = delete_where (is_attempt l ip) s.db.attempts } in
          let user_found =
            subst (λ k. find (is_active_id k) s.db.users ≡ some u) account
              (found_is_active l s.db.users u unique known) in
          (
            u,
            known,
            ground arith,
            ground arith,
            named ∙ sym account,
            ap (session_user now (hash_session_token e.platform opened.token)) (ended ∙ after)
                ∙ session_user-with_session now row cleared u (ground arith) (ground arith)
                    user_found,
          )
    ]
