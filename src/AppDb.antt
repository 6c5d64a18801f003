-- ===== src/AppDb.antt =====
-- sylo/webapp/appdb.py: the control-plane database, each statement as its effect on the tables. Rows
-- stand in the order of their ids. `none` is a raised sqlite3.IntegrityError, which leaves the
-- database as it was. A stored ISO time stamp is the instant that it stands for, in microseconds.
pub mod Tables
pub mod Keys
pub mod Admins
use sylo.Base.{
  ℕ, zero, suc, ◌+◌, ◌≤◌, ◌<◌, Bool, true, false, not, ◌&&◌, ◌||◌, List, [], ◌∷◌, ◌++◌, map, Option,
  none, some, ◌==◌, ltb, if◌then◌else◌, length, find, keep, count, has,
}
use sylo.Text.{Text, text_eq, text_lt, codes}
use sylo.Sort.{sort_desc}

pub record User : Type 0 where
  pub id : ℕ
  pub username : Text
  pub password_hash : Text
  pub role : Text
  pub is_active : Bool
  pub created_at : ℕ

pub record SessionRow : Type 0 where
  pub token : Text
  pub user_id : ℕ
  pub csrf_token : Text
  pub created_at : ℕ
  pub expires_at : ℕ

pub record AppDb : Type 0 where
  pub users : List User
  pub sessions : List SessionRow
  pub settings : List (Text × Text)

abbrev pub admin : Text
admin = codes "admin"

abbrev pub viewer : Text
viewer = codes "viewer"

abbrev pub retention_days_key : Text
retention_days_key = codes "retention_days"

abbrev pub default_retention : Text
default_retention = codes "365"

-- The tests of the WHERE clauses.
abbrev pub named : Text → User → Bool
named username u = text_eq u.username username

abbrev pub with_id : ℕ → User → Bool
with_id id u = u.id == id

abbrev pub of_user : ℕ → SessionRow → Bool
of_user id s = s.user_id == id

abbrev pub with_token : Text → SessionRow → Bool
with_token token s = text_eq s.token token

abbrev pub is_active_admin : User → Bool
is_active_admin u = text_eq u.role admin && u.is_active

abbrev pub keyed : Text → Text × Text → Bool
keyed key (k, v) = text_eq k key

-- `SELECT value FROM settings WHERE key = ?`, with the default of a missing row.
abbrev pub value_or : Text → Option (Text × Text) → Text
value_or default none = default
value_or default (some (k, v)) = v

unfoldable pub get_setting : AppDb → Text → Text → Text
get_setting db key default = value_or default (find (keyed key) db.settings)

-- `INSERT … ON CONFLICT(key) DO UPDATE`.
abbrev pub put : Text → Text → List (Text × Text) → List (Text × Text)
put key value [] = (key, value) ∷ []
put key value ((k, v) ∷ rows) =
    if text_eq k key then (key, value) ∷ rows else (k, v) ∷ put key value rows

unfoldable pub set_setting : AppDb → Text → Text → AppDb
set_setting db key value = record db { settings = put key value db.settings }

abbrev pub no_db : AppDb
no_db = record { users = []; sessions = []; settings = [] }

-- `init_db`: the tables are created if they are missing, and the default setting is inserted unless
-- its key is there.
unfoldable pub init_db : AppDb → AppDb
init_db db =
    if has (keyed retention_days_key) db.settings
    then db
    else record db { settings = db.settings ++ (retention_days_key, default_retention) ∷ [] }

unfoldable pub count_users : AppDb → ℕ
count_users db = length db.users

-- The id that SQLite gives a new row: one more than the largest.
unfoldable pub next_id : List User → ℕ
next_id [] = 1
next_id (u ∷ us) = let n = next_id us in if ltb u.id n then n else suc u.id

-- The inserted row; `is_active` has its default.
abbrev pub new_user : List User → Text → Text → Text → ℕ → User
new_user us username password_hash role now = record {
  id = next_id us;
  username = username;
  password_hash = password_hash;
  role = role;
  is_active = true;
  created_at = now;
}

unfoldable pub create_user : AppDb → Text → Text → Text → ℕ → Option (ℕ × AppDb)
create_user db username password_hash role now =
    if has (named username) db.users
    then none
    else some (
      next_id db.users,
      record db { users = db.users ++ new_user db.users username password_hash role now ∷ [] },
    )

-- `ORDER BY username`.
unfoldable pub list_users : AppDb → List User
list_users db = sort_desc (λ a b. text_lt b.username a.username) db.users

unfoldable pub set_user_password : AppDb → ℕ → Text → AppDb
set_user_password db id password_hash = record db {
  users =
      map (λ u. if with_id id u then record u { password_hash = password_hash } else u) db.users;
}

unfoldable pub set_user_active : AppDb → ℕ → Bool → AppDb
set_user_active db id active = record db {
  users = map (λ u. if with_id id u then record u { is_active = active } else u) db.users;
}

unfoldable pub delete_sessions_for_user : AppDb → ℕ → AppDb
delete_sessions_for_user db id = record db { sessions = keep (λ s. not (of_user id s)) db.sessions }

-- The sessions go first, so the foreign key never refuses the second statement.
unfoldable pub delete_user : AppDb → ℕ → AppDb
delete_user db id = record db {
  users = keep (λ u. not (with_id id u)) db.users;
  sessions = keep (λ s. not (of_user id s)) db.sessions;
}

unfoldable pub count_active_admins : AppDb → ℕ
count_active_admins db = count is_active_admin db.users

unfoldable pub get_user_by_username : AppDb → Text → Option User
get_user_by_username db username = find (named username) db.users

unfoldable pub get_user_by_id : AppDb → ℕ → Option User
get_user_by_id db id = find (with_id id) db.users

abbrev pub new_session : Text → ℕ → Text → ℕ → ℕ → SessionRow
new_session token user_id csrf_token expires_at now = record {
  token = token;
  user_id = user_id;
  csrf_token = csrf_token;
  created_at = now;
  expires_at = expires_at;
}

-- A token that is there breaks the primary key, and a user that is not there the foreign key.
unfoldable pub create_session : AppDb → Text → ℕ → Text → ℕ → ℕ → Option AppDb
create_session db token user_id csrf_token expires_at now =
    if has (with_token token) db.sessions || not (has (with_id user_id) db.users)
    then none
    else some (record db {
      sessions = db.sessions ++ new_session token user_id csrf_token expires_at now ∷ [];
    })

unfoldable pub get_session : AppDb → Text → Option SessionRow
get_session db token = find (with_token token) db.sessions

unfoldable pub delete_session : AppDb → Text → AppDb
delete_session db token = record db { sessions = keep (λ s. not (with_token token s)) db.sessions }

unfoldable pub purge_expired_sessions : AppDb → ℕ → AppDb
purge_expired_sessions db now = record db {
  sessions = keep (λ s. not (ltb s.expires_at now)) db.sessions;
}
