-- ===== src/Effects/Rules.antt =====
-- Rules for properties of operations: what keeps the database, and what a success went through.
use pocket_mvp_backend.Prelude.{
  ℕ, Bool, true, false, Option, String, ◌⊎◌, inl, inr, ◌≡◌, refl, ◌∙◌, arith, if◌then◌else◌, suc,
}
use pocket_mvp_backend.Faults.{Error}
use pocket_mvp_backend.Platform.{Env}
use pocket_mvp_backend.Schema.{Database}
use pocket_mvp_backend.Effects.{
  Result, ok, err, State, Op, pure, fail, continue, ◌>>=◌, fail_if, on_error, recover, query,
  query_row, Statement, statement, read_random, transaction, uuid_arg, map_err, ask, or_fail,
}

-- However it ends, the operation leaves the database as it was.
pub record ReadsOnly {A : Type 0} (m : Op A) : Type 0 where
  pub keeps : (e : Env) (s : State) → (m e s).1.db ≡ s.db

-- If it ends with an error, the operation leaves the database as it was.
pub record IsAtomic {A : Type 0} (m : Op A) : Type 0 where
  pub on_err : (e : Env) (s : State) (x : Error) → (m e s).0 ≡ err x → (m e s).1.db ≡ s.db

module _ {A : Type 0} where
  pub ReadsOnly-pure : (a : A) → ReadsOnly (pure a)
  unfolding pure
  ReadsOnly-pure a = record { keeps = λ e s. refl }

  pub ReadsOnly-fail : (x : Error) → ReadsOnly (fail {A = A} x)
  unfolding fail
  ReadsOnly-fail x = record { keeps = λ e s. refl }

  pub ReadsOnly-or_fail : (o : Option A) (x : Error) → ReadsOnly (or_fail o x)
  unfolding or_fail
  ReadsOnly-or_fail o x = record { keeps = λ e s. refl }

  pub ReadsOnly-query : (f : Env → Database → A) → ReadsOnly (query f)
  unfolding query
  ReadsOnly-query f = record { keeps = λ e s. ground arith }

  pub ReadsOnly-query_row : (f : Env → Database → Option A) → ReadsOnly (query_row f)
  unfolding query_row
  ReadsOnly-query_row f = record { keeps = λ e s. ground arith }

  pub ReadsOnly-on_error : (m : Op A) (f : Error → Error) → ReadsOnly m → ReadsOnly (on_error m f)
  unfolding on_error
  ReadsOnly-on_error m f h = record { keeps = h.keeps }

  pub ReadsOnly-recover : (m : Op A) (f : Error → A) → ReadsOnly m → ReadsOnly (recover m f)
  unfolding recover
  ReadsOnly-recover m f h = record { keeps = h.keeps }

  pub ReadsOnly-if :
      (b : Bool) (m n : Op A) → ReadsOnly m → ReadsOnly n → ReadsOnly (if b then m else n)
  ReadsOnly-if true m n hm hn = hm
  ReadsOnly-if false m n hm hn = hn

  -- Whatever the body does, a transaction that fails leaves the database as it was.
  pub IsAtomic-transaction : (m : Op A) → IsAtomic (transaction m)
  unfolding transaction
  IsAtomic-transaction m = record { on_err = λ e s x h. ground arith }

  pub IsAtomic-statement : (f : ℕ → Env → Database → Statement A) → IsAtomic (statement f)
  unfolding statement
  IsAtomic-statement f = record { on_err = λ e s x h. ground arith }

  map_err-eq-err :
      (f : Error → Error) (r : Result A) (x : Error)
      → map_err f r ≡ err x
      → (y : Error) × (r ≡ err y)
  map_err-eq-err f (ok a) x h = cc
  map_err-eq-err f (err y) x h = (y, refl)

  pub IsAtomic-on_error : (m : Op A) (f : Error → Error) → IsAtomic m → IsAtomic (on_error m f)
  unfolding on_error
  IsAtomic-on_error m f h = record {
    on_err = λ e s x k. let (y, back) = map_err-eq-err f (m e s).0 x k in h.on_err e s y back;
  }

  pub IsAtomic-ReadsOnly : {m : Op A} → ReadsOnly m → IsAtomic m
  IsAtomic-ReadsOnly h = record { on_err = λ e s x k. h.keeps e s }

pub ReadsOnly-ask : ReadsOnly ask
unfolding ask
ReadsOnly-ask = record { keeps = λ e s. refl }

pub ReadsOnly-fail_if : (b : Bool) (x : Error) → ReadsOnly (fail_if b x)
unfolding fail_if
ReadsOnly-fail_if b x = record { keeps = λ e s. refl }

pub ReadsOnly-read_random : (n : ℕ) → ReadsOnly (read_random n)
unfolding read_random
ReadsOnly-read_random n = record { keeps = λ e s. ground arith }

pub ReadsOnly-uuid_arg : (t : String) → ReadsOnly (uuid_arg t)
unfolding uuid_arg
ReadsOnly-uuid_arg t = record { keeps = λ e s. refl }

module _ {A B : Type 0} (m : Op A) (f : A → Op B) where
  continue_keeps :
      ((a : A) → ReadsOnly (f a))
      → (r : Result A) (e : Env) (s : State) → (continue r f e s).1.db ≡ s.db
  continue_keeps h (ok a) e s = (h a).keeps e s
  continue_keeps h (err x) e s = refl

  pub ReadsOnly-bind : ReadsOnly m → ((a : A) → ReadsOnly (f a)) → ReadsOnly (m >>= f)
  unfolding ◌>>=◌
  ReadsOnly-bind hm hf = record {
    keeps = λ e s. continue_keeps hf (m e s).0 e (m e s).1 ∙ hm.keeps e s;
  }

  continue_on_err :
      ((a : A) → IsAtomic (f a))
      → (r : Result A) (e : Env) (s : State) (x : Error) → (continue r f e s).0 ≡ err x
      → (continue r f e s).1.db ≡ s.db
  continue_on_err h (ok a) e s x k = (h a).on_err e s x k
  continue_on_err h (err y) e s x k = refl

  -- Reads, and then something atomic.
  pub IsAtomic-bind : ReadsOnly m → ((a : A) → IsAtomic (f a)) → IsAtomic (m >>= f)
  unfolding ◌>>=◌
  IsAtomic-bind hm hf = record {
    on_err = λ e s x k. continue_on_err hf (m e s).0 e (m e s).1 x k ∙ hm.keeps e s;
  }

  continue_ok :
      ((a : A) (e : Env) (s : State) → (b : B) × ((f a e s).0 ≡ ok b))
      → (d : Database) (r : Result A) (s' : State) → ((x : Error) → r ≡ err x → s'.db ≡ d)
      → (e : Env) (x : Error) → (continue r f e s').0 ≡ err x
      → (continue r f e s').1.db ≡ d
  continue_ok h d (ok a) s' hr e x k = let (b, q) = h a e s' in cc (q, k)
  continue_ok h d (err y) s' hr e x k = hr y refl

  -- Something atomic, and then a step that cannot fail.
  pub IsAtomic-bind_ok :
      IsAtomic m
      → ((a : A) (e : Env) (s : State) → (b : B) × ((f a e s).0 ≡ ok b))
      → IsAtomic (m >>= f)
  unfolding ◌>>=◌
  IsAtomic-bind_ok hm hf = record {
    on_err = λ e s x k. continue_ok hf s.db (m e s).0 (m e s).1 (hm.on_err e s) e x k;
  }

  -- What a successful sequence went through.
  pub bind-eq-ok :
      (e : Env) (s : State) (b : B)
      → ((m >>= f) e s).0 ≡ ok b
      → (a : A) × ((m e s).0 ≡ ok a)
        × ((f a e (m e s).1).0 ≡ ok b)
        × (((m >>= f) e s).1 ≡ (f a e (m e s).1).1)
  unfolding ◌>>=◌
  bind-eq-ok e s b h = split (m e s).0 (m e s).1 h
    where
      split :
          (r : Result A) (s' : State)
          → (continue r f e s').0 ≡ ok b
          → (a : A) × (r ≡ ok a) × ((f a e s').0 ≡ ok b) × ((continue r f e s').1 ≡ (f a e s').1)
      split (ok a) s' k = (a, refl, k, refl)
      split (err x) s' k = cc

pub ruleset reads_only = (
  ReadsOnly-pure, ReadsOnly-fail, ReadsOnly-ask, ReadsOnly-or_fail, ReadsOnly-query,
  ReadsOnly-query_row, ReadsOnly-on_error, ReadsOnly-recover, ReadsOnly-if, ReadsOnly-fail_if,
  ReadsOnly-read_random, ReadsOnly-uuid_arg, ReadsOnly-bind,
)

pub ruleset atomic = (
  reads_only, IsAtomic-transaction, IsAtomic-statement, IsAtomic-on_error, IsAtomic-ReadsOnly,
  IsAtomic-bind, IsAtomic-bind_ok,
)

-- A transaction that succeeds has done what its body did.
pub transaction-eq-ok :
    {A : Type 0} (m : Op A) (e : Env) (s : State) (a : A)
    → (transaction m e s).0 ≡ ok a
    → ((m e (record s { calls = suc s.calls })).0 ≡ ok a)
      × ((transaction m e s).1.db ≡ (m e (record s { calls = suc s.calls })).1.db)
unfolding transaction
transaction-eq-ok m e s a h = ground arith

-- A guard that let the operation go on.
pub fail_if-eq-ok :
    (b : Bool) (x : Error) (e : Env) (s : State) → (fail_if b x e s).0 ≡ ok tt → b ≡ false
unfolding fail_if
fail_if-eq-ok b x e s h = ground arith

pub Result-cases :
    {A : Type 0} (r : Result A) → ((a : A) × (r ≡ ok a)) ⊎ ((x : Error) × (r ≡ err x))
Result-cases (ok a) = inl (a, refl)
Result-cases (err x) = inr (x, refl)

-- Either it succeeds, or the database is as it was.
abbrev pub AllOrNothing : {A : Type 0} → Op A → Env → State → Type 0
AllOrNothing {A} m e s = ((a : A) × ((m e s).0 ≡ ok a)) ⊎ ((m e s).1.db ≡ s.db)

pub IsAtomic-AllOrNothing :
    {A : Type 0} {m : Op A} → IsAtomic m → (e : Env) (s : State) → AllOrNothing m e s
IsAtomic-AllOrNothing {m = m} h e s = elim (Result-cases (m e s).0) [
  | inl success ↦ inl success
  | inr (x, failed) ↦ inr (h.on_err e s x failed)
]
