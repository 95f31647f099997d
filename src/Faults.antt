-- ===== src/Faults.antt =====
-- internal/appfault/errors.go and the sentinel errors of internal/modules/identity/model.go:
-- the errors that handlers tell apart, and the mapping of storage constraint errors.

-- The SQLSTATE codes that the code looks at: 23505, 23503, 23514; `other_code` is any other.
pub data PgCode : Type 0 where
  unique_violation foreign_key_violation check_violation other_code : PgCode

-- The `var ( Err… )` block of the identity module.
pub data IdentityError : Type 0 where
  invalid_input email_already_exists invalid_credentials too_many_attempts unauthorized :
      IdentityError
  invalid_reset_token invalid_current_password avatar_not_found : IdentityError

-- The `var ( Err… )` block of appfault.
pub data AppFault : Type 0 where
  invalid_input not_found conflict : AppFault

-- An error value up to wrapping: `fmt.Errorf` with `%w` keeps what `errors.Is` and `errors.As`
-- find. `no_rows` is pgx.ErrNoRows, `pg` a pgconn.PgError, and `other` an error that no code tests.
pub data Error : Type 0 where
  identity : IdentityError → Error
  app : AppFault → Error
  no_rows : Error
  pg : PgCode → Error
  other : Error

-- `appfault.MapWriteError` on an error that is not nil; nil is the success case.
unfoldable pub map_write_error : Error → Error
map_write_error (pg unique_violation) = app conflict
map_write_error (pg foreign_key_violation) = app AppFault.invalid_input
map_write_error (pg check_violation) = app AppFault.invalid_input
map_write_error (pg other_code) = pg other_code
map_write_error (identity e) = identity e
map_write_error (app e) = app e
map_write_error no_rows = no_rows
map_write_error other = other

-- `errors.Is(err, pgx.ErrNoRows)` before the default wrapping.
unfoldable pub no_rows_as : Error → Error → Error
no_rows_as e no_rows = e
no_rows_as e (identity i) = identity i
no_rows_as e (app a) = app a
no_rows_as e (pg c) = pg c
no_rows_as e other = other

-- `errors.As(err, &pgErr) && pgErr.Code == "23505"` before the default wrapping.
unfoldable pub duplicate_as : Error → Error → Error
duplicate_as e (pg unique_violation) = e
duplicate_as e (pg foreign_key_violation) = pg foreign_key_violation
duplicate_as e (pg check_violation) = pg check_violation
duplicate_as e (pg other_code) = pg other_code
duplicate_as e no_rows = no_rows
duplicate_as e (identity i) = identity i
duplicate_as e (app a) = app a
duplicate_as e other = other
