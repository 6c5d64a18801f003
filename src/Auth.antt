-- ===== src/Auth.antt =====
-- sylo/webapp/auth.py without its rate limiter: passwords, sessions and CSRF tokens. `none` is a
-- raised exception that the function does not catch. bcrypt is a parameter; what `secrets` and the
-- clock return are arguments.
pub mod Created
pub mod Lifecycle
use sylo.Base.{
  ℕ, ◌+◌, ◌≡◌, Bool, true, false, not, ◌&&◌, ◌||◌, List, [], ◌∷◌, Option, none, some, ◌>>=◌, ltb,
  if◌then◌else◌, all,
}
use sylo.Text.{Bytes, Text, text_eq}
use sylo.Text.Utf8.{decode, encode}
use sylo.AppDb
use sylo.AppDb.{AppDb, User, SessionRow, admin}

-- The package bcrypt: `none` is its ValueError. What `hashpw` returns is ASCII, and is accepted for
-- its password.
pub record Bcrypt : Type 0 where
  pub hashpw : Bytes → Bytes → Option Bytes
  pub checkpw : Bytes → Bytes → Option Bool
  pub hash_text :
      (password salt hash : Bytes) → hashpw password salt ≡ some hash → encode (decode hash) ≡ hash
  pub check_hash :
      (password salt hash : Bytes)
      → hashpw password salt ≡ some hash
      → checkpw password hash ≡ some true

pub record Session : Type 0 where
  pub token : Text
  pub user_id : ℕ
  pub username : Text
  pub csrf_token : Text
  pub role : Text

abbrev pub is_admin : Session → Bool
is_admin s = text_eq s.role admin

module _ (bcrypt : Bcrypt) where
  unfoldable pub hash_password : Text → Bytes → Option Text
  hash_password password salt = do hash ← bcrypt.hashpw (encode password) salt; some (decode hash)

  abbrev or_false : Option Bool → Bool
  or_false none = false
  or_false (some b) = b

  unfoldable pub verify_password : Text → Text → Bool
  verify_password password password_hash =
      or_false (bcrypt.checkpw (encode password) (encode password_hash))

  -- `if not password: password = token; generated = token`.
  abbrev pub initial_or : Option Text → Text → Text × Option Text
  initial_or none token = (token, some token)
  initial_or (some []) token = (token, some token)
  initial_or (some (c ∷ cs)) token = (c ∷ cs, none)

  unfoldable pub ensure_default_admin :
      AppDb → Option Text → Text → Bytes → ℕ → Option (Option Text × AppDb)
  ensure_default_admin db initial token salt now =
      if ltb 0 (AppDb.count_users db) then some (none, db) else do
        password_hash ← hash_password (initial_or initial token).0 salt
        (_, db') ← AppDb.create_user db admin password_hash admin now
        some ((initial_or initial token).1, db')

  -- On the row of the user: `some none` is a refusal.
  unfoldable pub authenticate_row : Option User → Text → Bytes → Option (Option ℕ)
  unfolding verify_password
  authenticate_row none password salt = do _ ← bcrypt.checkpw (encode password) salt; some none
  authenticate_row (some u) password salt =
      some (if verify_password password u.password_hash && u.is_active then some u.id else none)

  unfoldable pub authenticate : AppDb → Text → Text → Bytes → Option (Option ℕ)
  authenticate db username password salt =
      authenticate_row (AppDb.get_user_by_username db username) password salt

unfoldable pub create_session : AppDb → ℕ → ℕ → Text → Text → ℕ → Option (Session × AppDb)
create_session db ttl user_id token csrf_token now = do
  db' ← AppDb.create_session db token user_id csrf_token (now + ttl) now
  u ← AppDb.get_user_by_id db' user_id
  some (
    record {
      token = token;
      user_id = user_id;
      username = u.username;
      csrf_token = csrf_token;
      role = u.role;
    },
    db',
  )

-- On the row of the session's user.
abbrev pub live_session : AppDb → SessionRow → Text → Option User → Option Session × AppDb
live_session db row token none = (none, AppDb.delete_session db token)
live_session db row token (some u) =
    if not u.is_active then (none, AppDb.delete_session db token) else (
      some (record {
        token = token;
        user_id = row.user_id;
        username = u.username;
        csrf_token = row.csrf_token;
        role = u.role;
      }),
      db,
    )

-- On the row of the token.
abbrev pub on_row : AppDb → Text → ℕ → Option SessionRow → Option Session × AppDb
on_row db token now none = (none, db)
on_row db token now (some row) =
    if ltb row.expires_at now
    then (none, AppDb.delete_session db token)
    else live_session db row token (AppDb.get_user_by_id db row.user_id)

unfoldable pub get_session : AppDb → Option Text → ℕ → Option Session × AppDb
get_session db none now = (none, db)
get_session db (some []) now = (none, db)
get_session db (some (c ∷ cs)) now = on_row db (c ∷ cs) now (AppDb.get_session db (c ∷ cs))

unfoldable pub destroy_session : AppDb → Text → AppDb
destroy_session db token = AppDb.delete_session db token

abbrev is_ascii : ℕ → Bool
is_ascii c = ltb c 128

-- `secrets.compare_digest` on two `str`: a TypeError unless both are ASCII.
abbrev compare_digest : Text → Text → Option Bool
compare_digest a b = if all is_ascii a && all is_ascii b then some (text_eq a b) else none

-- No token, or an empty one, is refused before the comparison.
unfoldable pub verify_csrf : Session → Option Text → Option Bool
verify_csrf session none = some false
verify_csrf session (some []) = some false
verify_csrf session (some (c ∷ cs)) = compare_digest session.csrf_token (c ∷ cs)
