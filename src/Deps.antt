-- ===== src/Deps.antt =====
-- sylo/webapp/deps.py, and the responses that the routes give. FastAPI runs a dependency before the
-- handler, and a dependency that raises takes the handler's place.
use sylo.Base.{ℕ, Bool, true, false, Option, none, some, if◌then◌else◌}
use sylo.Text.{Text, codes}
use sylo.AppDb.{AppDb}
use sylo.Auth
use sylo.Auth.{Session, is_admin}

-- The error texts of the pages.
pub data Notice : Type 0 where
  invalid_form bad_role missing_fields user_not_found password_required last_admin still_active :
      Notice
  username_taken : Text → Notice
  too_many_attempts bad_login wrong_password bad_retention : Notice

pub data Response : Type 0 where
  -- A rendered page: its status, its error, and the name and password that it reveals once.
  page : ℕ → Option Notice → Option (Text × Text) → Response
  -- A redirect with status 303, and the session cookie that it sets or deletes.
  redirect : Text → Response
  redirect_with_cookie : Text → Text → Response
  redirect_without_cookie : Text → Response
  -- `NotAuthenticated`, an `HTTPException` with status 403, and an exception that nothing catches.
  not_authenticated forbidden server_error : Response

abbrev pub Handler : Type 0
Handler = AppDb → Response × AppDb

-- `get_optional_session`, `get_session` and `require_admin`, in front of a handler. The cookie may be
-- missing; the lookup may delete a stale session.
unfoldable pub get_optional_session : AppDb → Option Text → ℕ → Option Session × AppDb
get_optional_session db cookie now = Auth.get_session db cookie now

abbrev pub or_not_authenticated : Option Session → (Session → Handler) → Handler
or_not_authenticated none handler db = (not_authenticated, db)
or_not_authenticated (some s) handler db = handler s db

unfoldable pub get_session : Option Text → ℕ → (Session → Handler) → Handler
get_session cookie now handler db =
    let (session, db') = get_optional_session db cookie now in
    or_not_authenticated session handler db'

unfoldable pub require_admin : Option Text → ℕ → (Session → Handler) → Handler
require_admin cookie now handler =
    get_session cookie now λ s db. if is_admin s then handler s db else (forbidden, db)

-- `client_ip`, on the address of the peer.
unfoldable pub client_ip : Option Text → Text
client_ip none = codes "unknown"
client_ip (some host) = host

-- `if not verify_csrf(…): …`, with the answer to a token that does not fit.
abbrev pub csrf_verdict : Option Bool → Response → Handler → Handler
csrf_verdict none refusal handler db = (server_error, db)
csrf_verdict (some false) refusal handler db = (refusal, db)
csrf_verdict (some true) refusal handler db = handler db

unfoldable pub with_csrf : Session → Text → Response → Handler → Handler
with_csrf session csrf_token refusal handler =
    csrf_verdict (Auth.verify_csrf session (some csrf_token)) refusal handler

abbrev pub error_page : ℕ → Notice → Response
error_page status notice = page status (some notice) none

abbrev pub invalid_form_page : Response
invalid_form_page = error_page 403 invalid_form
