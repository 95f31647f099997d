-- ===== src/Identity/PasswordReset/Answered.antt =====
-- `RequestPasswordReset` of internal/modules/identity, with and without an account of the address.
use pocket_mvp_backend.Prelude.{
  ℕ, suc, ◌≡◌, ◌<◌, ◌+◌, refl, Bool, true, false, Bool-cases, Option, none, some, inl, inr, String,
  List, [], ◌∷◌, find, exists, absent-update_where, arith, ◌==◌, eq_refl,
}
use pocket_mvp_backend.Platform.{Env}
use pocket_mvp_backend.Schema.{UserRow, ResetRow, Database}
use pocket_mvp_backend.Effects.{
  State, ok, ◌>>=◌, ask, pure, query, exec, statement, external, read_random, on_failure,
  transaction,
}
use pocket_mvp_backend.Security.Data.{lookup, normalize_email}
use pocket_mvp_backend.Security.Session.{new_session_token, hash_session_token}
use pocket_mvp_backend.Identity.Model.{PasswordResetRequest, Service}
use pocket_mvp_backend.Identity.Validation.{valid_email}
use pocket_mvp_backend.Identity.Persistence.{
  credentials, has_lookup, map_option, find_user_by_lookup,
}
use pocket_mvp_backend.Identity.PasswordReset.{
  consume, is_recent, is_unused_of, insert_reset, replace_token, issue_token, deliver_token,
  request_for, reset_url, normalize_reset_locale, request_password_reset,
}

-- Every call to the outside works, the tokens drawn are new, a reset link is valid for a while, and
-- the sender of links has no failure.
pub record IsServing (svc : Service) (e : Env) (d : Database) : Type 0 where
  pub works : (n : ℕ) → e.fault n ≡ false
  pub fresh :
      (n : ℕ)
      → exists
          (λ t. t.token_hash == hash_session_token e.platform (e.raw_url_encode (e.random n 32)))
          d.resets
        ≡ false
  pub lasting : e.db_now < e.app_now + svc.reset_ttl
  pub delivers :
      (to url locale : String) (s : State) → (svc.send_password_reset to url locale e s).0 ≡ ok tt

exists_of_find :
    (p : UserRow → Bool) (users : List UserRow) (u : UserRow)
    → find p users ≡ some u
    → exists (λ x. x.id == u.id) users ≡ true
exists_of_find p [] u h = cc
exists_of_find p (x ∷ users) u h = elim (Bool-cases (p x)) [
  | inl hit ↦ let same : x ≡ u = ground arith in ground (arith, same, eq_refl u.id)
  | inr miss ↦ let rest = exists_of_find p users u (ground arith) in ground arith
]

module _ (svc : Service) (e : Env) (s : State) (h : IsServing svc e s.db) where
  delivered :
      (email locale : String) (issued : Option String) (t : State)
      → (deliver_token svc email locale issued e t).0 ≡ ok tt
  unfolding deliver_token pure ask ◌>>=◌ on_failure
  delivered email locale none t = refl
  delivered email locale (some token) t =
      let sent = h.delivers email (reset_url e.platform svc locale token) locale t in ground arith

  issued_ok :
      (ip : String) (u : UserRow) (k : ℕ)
      → exists (λ x. x.id == u.id) s.db.users ≡ true
      → (o : Option String) × ((transaction (issue_token svc ip u.id) e (record s { calls = k })).0
          ≡ ok o)
  unfolding transaction issue_token replace_token ◌>>=◌ query exec statement external read_random
      new_session_token ask pure insert_reset
  issued_ok ip u k known =
      let w₀ = h.works k in
      let w₁ = h.works (suc k) in
      let w₂ = h.works (suc (suc k)) in
      let w₃ = h.works (suc (suc (suc k))) in
      let w₄ = h.works (suc (suc (suc (suc k)))) in
      let w₅ = h.works (suc (suc (suc (suc (suc k))))) in
      elim (Bool-cases (exists (is_recent e.db_now u.id) s.db.resets)) [
        | inl recent ↦ (none, ground arith)
        | inr first ↦
            let token = e.raw_url_encode (e.random (suc (suc k)) 32) in
            let hash = hash_session_token e.platform token in
            let new =
              absent-update_where (λ (r : ResetRow). r.token_hash) hash (is_unused_of u.id)
                (consume e.db_now) (λ r. refl) s.db.resets in
            let unused = h.fresh (suc (suc k)) in let long = h.lasting in (some token, ground arith)
      ]

  answered :
      (input : PasswordResetRequest) (email : String) (o : Option UserRow) (k : ℕ)
      → ((u : UserRow) → o ≡ some u → exists (λ x. x.id == u.id) s.db.users ≡ true)
      → (request_for svc input email (map_option credentials o) e (record s { calls = k })).0
        ≡ ok tt
  unfolding request_for ◌>>=◌ ask pure
  answered input email none k known = refl
  answered input email (some u) k known =
      let (issued, went) = issued_ok input.ip_address u k (known u refl) in
      let t = (transaction (issue_token svc input.ip_address u.id) e (record s { calls = k })).1 in
      let sent = delivered email (normalize_reset_locale e.platform input.locale) issued t in
      ground arith

-- Under `IsServing`, a request for a reset link succeeds: for a malformed
-- address, an unknown one, an account that asked a moment ago, and any other account.
pub request_password_reset-ok :
    (svc : Service) (input : PasswordResetRequest) (e : Env) (s : State)
    → IsServing svc e s.db
    → (request_password_reset svc input e s).0 ≡ ok tt
unfolding request_password_reset ◌>>=◌ ask pure find_user_by_lookup query external
request_password_reset-ok svc input e s h =
    let email = normalize_email e.platform input.email in
    let found = find (has_lookup (lookup e.platform svc.protector email)) s.db.users in
    let w = h.works s.calls in
    elim (Bool-cases (valid_email e.platform email)) [
      | inr malformed ↦ ground arith
      | inl formed ↦
          let done = answered svc e s h input email found (suc s.calls) (λ u known.
            exists_of_find (has_lookup (lookup e.platform svc.protector email)) s.db.users u
              known) in
          ground arith
    ]
