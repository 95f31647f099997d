-- ===== src/Http/Denies.antt =====
-- Rules for what a handler answers to a caller who may not do what it is asked to do.
use pocket_mvp_backend.Prelude.{
  ◌≡◌, ◌≤◌, refl, Bool, true, false, Option, none, inl, inr, Bytes, arith, if◌then◌else◌, ltb,
  length, Option-cases,
}
use pocket_mvp_backend.Faults.{Error, AppFault, app, identity, no_rows, pg, other}
use pocket_mvp_backend.Platform.{Env}
use pocket_mvp_backend.Effects.{State, Op}
use pocket_mvp_backend.Access.Owner.{Refused}
use pocket_mvp_backend.Http.Message.{
  Request, Response, Web, next, pure, call, or_respond, serve, ◌>>=◌,
}
use pocket_mvp_backend.Http.Support.{
  write_owner_error, decode_owner_json, decode_limited, max_owner_body,
}
use pocket_mvp_backend.Http.Owner.{method_not_allowed}

-- The handler answers with a status of a failure, and the database is as it was.
pub record Denies (m : Web Response) (e : Env) (s : State) : Type 0 where
  pub failure : 400 ≤ (serve m e s).0.status
  pub same : (serve m e s).1.db ≡ s.db

-- The service fails and changes nothing.
pub record Fails {A : Type 0} (m : Op A) (e : Env) (s : State) : Type 0 where
  pub error : Error
  pub refused : Refused m e s error

owner_error_failure : (x : Error) → 400 ≤ (write_owner_error x).status
unfolding write_owner_error
owner_error_failure (app AppFault.invalid_input) = omega arith
owner_error_failure (app AppFault.not_found) = omega arith
owner_error_failure (app AppFault.conflict) = omega arith
owner_error_failure (identity i) = omega arith
owner_error_failure no_rows = omega arith
owner_error_failure (pg c) = omega arith
owner_error_failure other = omega arith

module _ (e : Env) (s : State) where
  pub Denies-call :
      {A : Type 0} (m : Op A) (k : A → Web Response)
      → Fails m e s
      → Denies (call m write_owner_error >>= k) e s
  unfolding ◌>>=◌ call serve
  Denies-call m k h =
      let bad = owner_error_failure h.error in
      let failed = h.refused.0 in
      let kept = h.refused.1 in record { failure = ground arith; same = ground arith }

  pub Denies-405 : Denies method_not_allowed e s
  unfolding serve pure
  Denies-405 = record { failure = omega arith; same = refl }

  pub Denies-if :
      (b : Bool) (m n : Web Response)
      → Denies m e s
      → Denies n e s
      → Denies (if b then m else n) e s
  Denies-if true m n hm hn = hm
  Denies-if false m n hm hn = hn

  pub Denies-decode :
      {A : Type 0} (decode : Bytes → Option A) (r : Request) (k : A → Web Response)
      → ((a : A) → Denies (k a) e s)
      → Denies (decode_owner_json decode r >>= k) e s
  unfolding ◌>>=◌ serve decode_owner_json decode_limited or_respond
  Denies-decode decode r k h =
      elim (Option-cases (if ltb max_owner_body (length r.body) then none else decode r.body)) [
        | inl bad ↦ record { failure = ground arith; same = ground arith }
        | inr (a, good) ↦
            let f = (h a).failure in
            let k = (h a).same in record { failure = ground arith; same = ground arith }
      ]

  -- A step that goes on, and a rest that denies.
  pub Denies-bind :
      {A : Type 0} (m : Web A) (k : A → Web Response) (a : A)
      → (m e s).0 ≡ next a
      → (m e s).1.db ≡ s.db
      → Denies (k a) e (m e s).1
      → Denies (m >>= k) e s
  unfolding ◌>>=◌ serve
  Denies-bind m k a went kept h =
      let f = h.failure in let g = h.same in record { failure = ground arith; same = ground arith }

pub ruleset denies = (Denies-call, Denies-405, Denies-if, Denies-decode)
