-- ===== src/Http/Avatar.antt =====
-- internal/httpapi/auth.go: the two handlers of avatars.
use pocket_mvp_backend.Prelude.{
  ℕ, suc, ◌+◌, ◌*◌, ◌^◌, Bool, true, false, ◌||◌, none, String, Bytes, [], ◌∷◌, length, take, ltb,
  nat_eq, if◌then◌else◌, ◌==◌,
}
use pocket_mvp_backend.Faults.{Error, IdentityError, identity}
use pocket_mvp_backend.GoText.{decimal}
use pocket_mvp_backend.Http.Message.{Response, Handler, Web, pure, respond, call, ◌>>=◌, ◌>>◌, raw}
use pocket_mvp_backend.Http.Contracts.{Api, Form, not_a_form, no_avatar, avatar_file}
use pocket_mvp_backend.Http.Support.{
  write_json, write_api_error, write_auth_error, no_store, current_user, new_auth_response,
}

abbrev pub max_avatar_body : ℕ
max_avatar_body = 2 * 2 ^ 20

abbrev too_large : Response
too_large = write_api_error 413 "avatar_too_large" "Фотография должна быть меньше 2 МБ"

-- The file of the form, read up to one byte beyond the limit.
abbrev read_form : Form → Web Bytes
read_form not_a_form = respond too_large
read_form no_avatar = respond (write_api_error 400 "invalid_avatar" "Выберите фотографию")
read_form (avatar_file file) = pure (take (suc max_avatar_body) file)

abbrev pub unfit_length : Bytes → Bool
unfit_length contents = nat_eq (length contents) 0 || ltb max_avatar_body (length contents)

abbrev pub is_image_type : String → Bool
is_image_type t = t == "image/jpeg" || t == "image/png" || t == "image/webp"

-- `if test { write…; return }`
abbrev respond_if : Bool → Response → Web Unit
respond_if test r = if test then respond r else pure tt

unfoldable pub update_avatar : Api → Handler
update_avatar api r = do
  user ← current_user api r
  contents ← read_form (api.codec.multipart (max_avatar_body + 64 * 2 ^ 10) max_avatar_body r.body)
  respond_if (unfit_length contents) too_large
  let content_type = api.codec.detect_content_type contents
  respond_if (if is_image_type content_type then false else true)
      (write_api_error 422 "invalid_avatar" "Используйте JPEG, PNG или WebP")
  updated ← call (api.identity.update_avatar user.id content_type contents) write_auth_error
  pure (no_store (write_json 200 (new_auth_response updated)))

-- `errors.Is(err, identity.ErrAvatarNotFound)` before `writeAuthError`
unfoldable pub write_avatar_error : Error → Response
write_avatar_error (identity IdentityError.avatar_not_found) =
    write_api_error 404 "avatar_not_found" "Фотография не найдена"
write_avatar_error x = write_auth_error x

unfoldable pub avatar : Api → Handler
avatar api r = do
  user ← current_user api r
  found ← call (api.identity.avatar user.id) write_avatar_error
  let headers =
      ("Content-Type", found.content_type)
      ∷ ("Content-Length", decimal (length found.contents))
      ∷ ("Cache-Control", "private, max-age=300")
      ∷ ("X-Content-Type-Options", "nosniff")
      ∷ []
  pure (record { status = 200; headers = headers; cookie = none; payload = raw found.contents })
