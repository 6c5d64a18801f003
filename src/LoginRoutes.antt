-- ===== src/LoginRoutes.antt =====
-- sylo/webapp/routes/auth.py: login with the rate limiter, logout and the change of one's password.
-- The form that `login_form` and `account_password_form` render changes nothing.
pub mod Guessing
use sylo.Base.{ℕ, Bool, true, false, not, List, [], ◌∷◌, ◌++◌, Option, none, some, if◌then◌else◌}
use sylo.Text.{Bytes, Text, codes}
use sylo.AppDb
use sylo.AppDb.{AppDb}
use sylo.Auth
use sylo.Auth.{Bcrypt, Session, hash_password, authenticate, destroy_session}
use sylo.RateLimiter.{LoginRateLimiter, is_locked, record_failure, record_success}
use sylo.Deps.{
  Handler, Response, page, redirect, redirect_with_cookie, redirect_without_cookie, server_error,
  forbidden, get_session, with_csrf, error_page, invalid_form_page, too_many_attempts, bad_login,
  wrong_password, password_required,
}

-- `next or f"{config.url_prefix}/messages"`.
abbrev next_or : Text → Option Text → Text
next_or prefix none = prefix ++ codes "/messages"
next_or prefix (some []) = prefix ++ codes "/messages"
next_or prefix (some (c ∷ cs)) = c ∷ cs

-- One submitted form: who sends it, what it holds, what bcrypt and `secrets` draw for it, and the
-- clocks: the monotonic one when the lock is checked and when a failure is recorded, and the time.
pub record Login : Type 0 where
  pub ip : Text
  pub username : Text
  pub password : Text
  pub next : Option Text
  pub salt : Bytes
  pub token : Text
  pub csrf_token : Text
  pub checked : ℕ
  pub failed : ℕ
  pub now : ℕ

module _ (bcrypt : Bcrypt) (prefix : Text) (ttl : ℕ) where
  -- On the new session.
  abbrev pub logged_in :
      Login
      → LoginRateLimiter
      → AppDb
      → Option (Session × AppDb)
      → Response × LoginRateLimiter × AppDb
  logged_in form l db none = (server_error, l, db)
  logged_in form l db (some (session, db')) =
      (redirect_with_cookie (next_or prefix form.next) session.token, l, db')

  -- On what `authenticate` returns.
  abbrev pub on_verdict :
      Login → LoginRateLimiter → AppDb → Option (Option ℕ) → Response × LoginRateLimiter × AppDb
  on_verdict form l db none = (server_error, l, db)
  on_verdict form l db (some none) =
      (error_page 401 bad_login, record_failure l form.ip form.failed, db)
  on_verdict form l db (some (some id)) =
      logged_in form (record_success l form.ip) db
        (Auth.create_session db ttl id form.token form.csrf_token form.now)

  abbrev pub unless_locked :
      Login → AppDb → Bool × LoginRateLimiter → Response × LoginRateLimiter × AppDb
  unless_locked form db (true, l) = (error_page 429 too_many_attempts, l, db)
  unless_locked form db (false, l) =
      on_verdict form l db (authenticate bcrypt db form.username form.password form.salt)

  unfoldable pub login_submit :
      Login → LoginRateLimiter → AppDb → Response × LoginRateLimiter × AppDb
  login_submit form l db = unless_locked form db (is_locked l form.ip form.checked)

  -- Forms one after the other.
  unfoldable pub submit_all : List Login → LoginRateLimiter → AppDb → LoginRateLimiter × AppDb
  submit_all [] l db = (l, db)
  submit_all (form ∷ forms) l db =
      let (response, l', db') = login_submit form l db in submit_all forms l' db'

  unfoldable pub logout : Option Text → ℕ → Text → Handler
  logout cookie now csrf_token = get_session cookie now λ session.
      with_csrf session csrf_token forbidden
        λ db. (redirect_without_cookie (prefix ++ codes "/login"), destroy_session db session.token)

  abbrev changed : AppDb → ℕ → Option Text → Response × AppDb
  changed db id none = (server_error, db)
  changed db id (some hash) = (page 200 none none, AppDb.set_user_password db id hash)

  abbrev change_password : Session → Text → Bytes → AppDb → Option (Option ℕ) → Response × AppDb
  change_password session new_password salt db none = (server_error, db)
  change_password session new_password salt db (some none) = (error_page 401 wrong_password, db)
  change_password session [] salt db (some (some id)) = (error_page 400 password_required, db)
  change_password session (c ∷ cs) salt db (some (some id)) =
      changed db session.user_id (hash_password bcrypt (c ∷ cs) salt)

  unfoldable pub account_password_submit :
      Option Text → ℕ → Text → Text → Text → Bytes → Bytes → Handler
  account_password_submit cookie now current new_password csrf_token check_salt salt =
      get_session cookie now λ session. with_csrf session csrf_token invalid_form_page λ db.
        change_password session new_password salt db
          (authenticate bcrypt db session.username current check_salt)
