-- ===== src/Security/Session.antt =====
-- internal/security/session.go
use pocket_mvp_backend.Prelude.{String}
use pocket_mvp_backend.Platform.{Platform}
use pocket_mvp_backend.Effects.{Op, ask, pure, ◌>>=◌, read_random}

unfoldable pub new_session_token : Op String
new_session_token = do random ← read_random 32; e ← ask; pure (e.raw_url_encode random)

unfoldable pub hash_session_token : Platform → String → String
hash_session_token e token = e.hex_encode (e.sha256 (e.bytes_of token))
