-- ===== src/WebApp.antt =====
-- sylo/webapp/app.py: what the application does when it starts, the answer to a request without a
-- session, and the redirects of the roots. The templates, the static files and the wiring of the
-- routes are FastAPI's.
pub mod Lifespan
use sylo.Base.{
  ℕ, Bool, true, false, ◌||◌, List, [], ◌∷◌, ◌++◌, Option, none, some, if◌then◌else◌, length, take,
}
use sylo.Text.{Bytes, Text, text_eq, codes}
use sylo.AppDb.{AppDb, init_db}
use sylo.Auth.{Bcrypt, ensure_default_admin}
use sylo.Deps.{Response, redirect, not_authenticated}

-- `path.startswith(prefix)`.
unfoldable pub starts_with : Text → Text → Bool
starts_with path prefix = text_eq (take (length prefix) path) prefix

-- `_wants_json`.
unfoldable pub wants_json : Text → Text → Bool
wants_json url_prefix path =
    starts_with path (url_prefix ++ codes "/api/")
    || text_eq path (url_prefix ++ codes "/messages/stream")

-- What the application answers: a plain text with its status, or what a route gives.
pub data Answer : Type 0 where
  plain_text : Text → ℕ → Answer
  answers : Response → Answer

-- `_handle_not_authenticated`.
unfoldable pub handle_not_authenticated : Text → Text → Answer
handle_not_authenticated url_prefix path =
    if wants_json url_prefix path
    then plain_text (codes "not authenticated") 401
    else answers (redirect (url_prefix ++ codes "/login?next=" ++ path))

-- `prefixed_root` and `bare_root`.
unfoldable pub prefixed_root : Text → Response
prefixed_root url_prefix = redirect (url_prefix ++ codes "/messages")

unfoldable pub bare_root : Text → Response
bare_root url_prefix = redirect (url_prefix ++ codes "/")

-- `lifespan` up to its `yield`: the generated password that it logs, and the database.
unfoldable pub lifespan :
    Bcrypt → AppDb → Option Text → Text → Bytes → ℕ → Option (Option Text × AppDb)
lifespan bcrypt db initial_admin_password token salt now =
    ensure_default_admin bcrypt (init_db db) initial_admin_password token salt now
