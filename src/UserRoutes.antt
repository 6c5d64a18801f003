-- ===== src/UserRoutes.antt =====
-- sylo/webapp/routes/users.py: the account management of an administrator. Each handler stands behind
-- `require_admin`; the list of users on the rendered page is not part of the response here. A handler is
-- one step, from its reads to its last update; UserRoutes/Race has deactivations that overlap.
pub mod Managed
pub mod Invariant
pub mod Race
use sylo.Base.{
  ℕ, ◌≤◌, Bool, true, false, not, ◌&&◌, ◌||◌, List, [], ◌∷◌, ◌++◌, Option, none, some, ◌==◌, leb,
  if◌then◌else◌,
}
use sylo.Text.{Bytes, Text, text_eq, strip, codes}
use sylo.AppDb
use sylo.AppDb.{AppDb, User, admin, viewer}
use sylo.Auth.{Bcrypt, Session, hash_password}
use sylo.Deps.{
  Handler, Response, page, require_admin, redirect, redirect_without_cookie, server_error, bad_role,
  missing_fields, user_not_found, password_required, last_admin, still_active, username_taken,
  with_csrf, error_page, invalid_form_page,
}

abbrev is_empty : Text → Bool
is_empty [] = true
is_empty (c ∷ cs) = false

-- `role in _VALID_ROLES`.
abbrev valid_role : Text → Bool
valid_role role = text_eq role admin || text_eq role viewer

-- `RedirectResponse` to these paths.
abbrev pub login_path : Text → Text
login_path prefix = prefix ++ codes "/login"

abbrev pub users_path : Text → Text
users_path prefix = prefix ++ codes "/settings/users"

-- On the result of the INSERT: the handler of `sqlite3.IntegrityError`.
abbrev created : AppDb → Text → Text → Option (ℕ × AppDb) → Response × AppDb
created db username password none = (error_page 400 (username_taken username), db)
created db username password (some (id, db')) = (page 200 none (some (username, password)), db')

abbrev create_hashed : AppDb → Text → Text → Text → ℕ → Option Text → Response × AppDb
create_hashed db username password role now none = (server_error, db)
create_hashed db username password role now (some hash) =
    created db username password (AppDb.create_user db username hash role now)

module _ (bcrypt : Bcrypt) where
  unfoldable pub create_user : Text → Text → Text → Text → Bytes → ℕ → Session → Handler
  create_user username role password csrf_token salt now session =
      with_csrf session csrf_token invalid_form_page λ db.
        if not (valid_role role)
        then (error_page 400 bad_role, db)
        else if is_empty (strip username) || is_empty password
        then (error_page 400 missing_fields, db)
        else create_hashed db (strip username) password role now
            (hash_password bcrypt password salt)

  abbrev reset_hashed : AppDb → User → ℕ → Text → Option Text → Response × AppDb
  reset_hashed db u id password none = (server_error, db)
  reset_hashed db u id password (some hash) =
      (page 200 none (some (u.username, password)), AppDb.set_user_password db id hash)

  abbrev reset_found : AppDb → ℕ → Text → Bytes → Option User → Response × AppDb
  reset_found db id password salt none = (error_page 404 user_not_found, db)
  reset_found db id password salt (some u) =
      if is_empty password
      then (error_page 400 password_required, db)
      else reset_hashed db u id password (hash_password bcrypt password salt)

  unfoldable pub reset_password : ℕ → Text → Text → Bytes → Session → Handler
  reset_password user_id new_password csrf_token salt session =
      with_csrf session csrf_token invalid_form_page
        λ db. reset_found db user_id new_password salt (AppDb.get_user_by_id db user_id)

-- `user["role"] == "admin" and user["is_active"] and count_active_admins(…) <= 1`.
abbrev pub is_last_admin : AppDb → User → Bool
is_last_admin db u = text_eq u.role admin && u.is_active && leb (AppDb.count_active_admins db) 1

abbrev pub deactivated : AppDb → ℕ → AppDb
deactivated db id = AppDb.delete_sessions_for_user (AppDb.set_user_active db id false) id

abbrev pub deactivate_found : Text → ℕ → Session → AppDb → Option User → Response × AppDb
deactivate_found prefix id session db none = (error_page 404 user_not_found, db)
deactivate_found prefix id session db (some u) =
    if is_last_admin db u
    then (error_page 400 last_admin, db)
    else if id == session.user_id
    then (redirect_without_cookie (login_path prefix), deactivated db id)
    else (redirect (users_path prefix), deactivated db id)

unfoldable pub deactivate_user : Text → ℕ → Text → Session → Handler
deactivate_user prefix user_id csrf_token session =
    with_csrf session csrf_token invalid_form_page
      λ db. deactivate_found prefix user_id session db (AppDb.get_user_by_id db user_id)

abbrev delete_found : Text → ℕ → AppDb → Option User → Response × AppDb
delete_found prefix id db none = (error_page 404 user_not_found, db)
delete_found prefix id db (some u) =
    if u.is_active
    then (error_page 400 still_active, db)
    else (redirect (users_path prefix), AppDb.delete_user db id)

unfoldable pub delete_user : Text → ℕ → Text → Session → Handler
delete_user prefix user_id csrf_token session =
    with_csrf session csrf_token invalid_form_page
      λ db. delete_found prefix user_id db (AppDb.get_user_by_id db user_id)

-- The requests that FastAPI routes here, with the salt that bcrypt draws.
pub data Request : Type 0 where
  creates : Text → Text → Text → Text → Bytes → Request
  resets : ℕ → Text → Text → Bytes → Request
  deactivates : ℕ → Text → Request
  deletes : ℕ → Text → Request

module _ (bcrypt : Bcrypt) (prefix : Text) where
  abbrev pub route : Request → ℕ → Session → Handler
  route (creates username role password csrf_token salt) now =
      create_user bcrypt username role password csrf_token salt now
  route (resets id new_password csrf_token salt) now =
      reset_password bcrypt id new_password csrf_token salt
  route (deactivates id csrf_token) now = deactivate_user prefix id csrf_token
  route (deletes id csrf_token) now = delete_user prefix id csrf_token

  -- One request with its cookie, at a time.
  unfoldable pub handle : Option Text → ℕ → Request → Handler
  handle cookie now request = require_admin cookie now (route request now)

  -- The database after requests one by one.
  unfoldable pub serve : List (Option Text × ℕ × Request) → AppDb → AppDb
  serve [] db = db
  serve ((cookie, now, request) ∷ rest) db = serve rest (handle cookie now request db).1
