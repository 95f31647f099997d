-- ===== src/Effects.antt =====
-- How a request of the service runs: a state with the database and the mail that was sent, calls
-- to the outside that may fail, and transactions of pgx (BeginTx, deferred Rollback, Commit).
-- A call that fails has had no effect; the statements of one request are not interleaved with
-- those of another.
pub mod Rules
use pocket_mvp_backend.Prelude.{
  ℕ, ℤ, pos, negsuc, suc, ◌^◌, ltb, Bool, true, false, Option, none, some, String, Bytes, List, ◌∷◌,
  if◌then◌else◌,
}
use pocket_mvp_backend.Faults.{Error, other, no_rows, pg, PgCode}
use pocket_mvp_backend.Platform.{Env}
use pocket_mvp_backend.Schema.{Database}

pub data Result {ℓ} (A : Type ℓ) : Type ℓ where
  ok : A → Result A
  err : Error → Result A

-- One message handed to an SMTP server; `login` is the name and the password of PlainAuth.
pub record Mail : Type 0 where
  pub server : String
  pub login : Option (String × String)
  pub sender : String
  pub recipient : String
  pub message : String

pub record State : Type 0 where
  pub db : Database
  pub calls : ℕ
  pub outbox : List Mail

abbrev pub Op : Type 0 → Type 0
Op A = Env → State → Result A × State

module _ {A : Type 0} where
  unfoldable pub pure : A → Op A
  pure a e s = (ok a, s)

  unfoldable pub fail : Error → Op A
  fail x e s = (err x, s)

abbrev pub continue : {A B : Type 0} → Result A → (A → Op B) → Op B
continue (ok a) f e s = f a e s
continue (err x) f e s = (err x, s)

infixl 5 ◌>>=◌ ◌>>◌
unfoldable pub ◌>>=◌ : {A B : Type 0} → Op A → (A → Op B) → Op B
unfolding pure fail
◌>>=◌ m f e s = let (r, s') = m e s in continue r f e s'

abbrev pub ◌>>◌ : {B : Type 0} → Op (Unit {0}) → Op B → Op B
m >> k = m >>= λ _. k

-- The platform and the clocks, which no operation changes.
unfoldable pub ask : Op Env
ask e s = (ok e, s)

abbrev lifted : {A : Type 0} → Option A → Error → Result A
lifted none x = err x
lifted (some a) x = ok a

-- `value, err := f(…); if err != nil { return err }` for a function with no effect
unfoldable pub or_fail : {A : Type 0} → Option A → Error → Op A
or_fail o x e s = (lifted o x, s)

-- `if test { return err }`
unfoldable pub fail_if : Bool → Error → Op (Unit {0})
fail_if test x e s = (if test then err x else ok tt, s)

abbrev map_err : {A : Type 0} → (Error → Error) → Result A → Result A
map_err f (ok a) = ok a
map_err f (err x) = err (f x)

-- `if err != nil { return f(err) }`
unfoldable pub on_error : {A : Type 0} → Op A → (Error → Error) → Op A
on_error m f e s = let (r, s') = m e s in (map_err f r, s')

abbrev catch_with : {A : Type 0} → (Error → A) → Result A → Result A
catch_with f (ok a) = ok a
catch_with f (err x) = ok (f x)

-- `value, err := m; if err != nil { value = f(err) }`
unfoldable pub recover : {A : Type 0} → Op A → (Error → A) → Op A
recover m f e s = let (r, s') = m e s in (catch_with f r, s')

abbrev failing : {A : Type 0} → Result A → Op Unit → Op A
failing (ok a) k e s = (ok a, s)
failing (err x) k e s = (err x, (k e s).1)

-- `if err != nil { _, _ = k(); return err }`: the result of `k` is dropped.
unfoldable pub on_failure : {A : Type 0} → Op A → Op Unit → Op A
on_failure m k e s = let (r, s') = m e s in failing r k e s'

abbrev ticked : State → State
ticked s = record s { calls = suc s.calls }

-- A call to the outside: it fails if the environment says so, and else does `act`, which is given
-- the number of the call.
unfoldable pub external : {A : Type 0} → (ℕ → Op A) → Op A
external act e s = if e.fault s.calls then (err other, ticked s) else act s.calls e (ticked s)

-- `QueryRow` on a statement that always has a row, and `Query`.
unfoldable pub query : {A : Type 0} → (Env → Database → A) → Op A
unfolding external
query f = external λ n e s. (ok (f e s.db), s)

abbrev row_or : {A : Type 0} → Option A → Result A
row_or none = err no_rows
row_or (some a) = ok a

-- `QueryRow(…).Scan(…)` of a statement that may have no row.
unfoldable pub query_row : {A : Type 0} → (Env → Database → Option A) → Op A
unfolding external
query_row f = external λ n e s. (row_or (f e s.db), s)

-- `Exec` of a statement that cannot violate a constraint.
unfoldable pub exec : (Env → Database → Database) → Op (Unit {0})
unfolding external
exec f = external λ n e s. (ok tt, record s { db = f e s.db })

-- What a statement that may violate a constraint does.
pub data Statement (A : Type 0) : Type 0 where
  rejected : PgCode → Statement A
  no_row : Statement A
  done : A → Database → Statement A

abbrev apply_statement : {A : Type 0} → Statement A → State → Result A × State
apply_statement (rejected code) s = (err (pg code), s)
apply_statement no_row s = (err no_rows, s)
apply_statement (done a d) s = (ok a, record s { db = d })

-- `Exec` or `QueryRow(…).Scan(…)` of such a statement, which is given the number of the call.
unfoldable pub statement : {A : Type 0} → (ℕ → Env → Database → Statement A) → Op A
unfolding external
statement f = external λ n e s. apply_statement (f n e s.db) s

-- `rand.Read` of so many bytes.
unfoldable pub read_random : ℕ → Op Bytes
unfolding external
read_random size = external λ n e s. (ok (e.random n size), s)

abbrev end_transaction : {A : Type 0} → Database → Result A → Op A
end_transaction start (err x) e s = (err x, record s { db = start })
end_transaction start (ok a) e s =
    if e.fault s.calls
    then (err other, record s { db = start; calls = suc s.calls })
    else (ok a, ticked s)

-- BeginTx, the body, and Commit if the body succeeds; any error rolls the database back.
unfoldable pub transaction : {A : Type 0} → Op A → Op A
unfolding external
transaction body = external λ n e s. let (r, s') = body e s in end_transaction s.db r e s'

-- A uuid argument of a statement: pgx refuses a malformed one.
unfoldable pub uuid_arg : String → Op String
uuid_arg text e s = (lifted (e.parse_uuid text) other, s)

-- An argument of a column of type integer: pgx refuses what 32 bits do not hold.
abbrev fits_int4 : ℤ → Bool
fits_int4 (pos n) = ltb n (2 ^ 31)
fits_int4 (negsuc n) = ltb n (2 ^ 31)

unfoldable pub int4_arg : ℤ → Op ℤ
int4_arg n e s = (if fits_int4 n then ok n else err other, s)

-- A value of a text column: PostgreSQL refuses what is not text in the database's encoding.
unfoldable pub storable_text : {A : Type 0} → Env → String → Statement A → Statement A
storable_text e text insertion =
    if e.accepts_text (e.bytes_of text) then insertion else rejected PgCode.other_code
