-- ===== src/Auth/Lifecycle.antt =====
-- Accounts and sessions of sylo/webapp/auth.py from creation to revocation.
use sylo.Base.{
  ℕ, ◌≤◌, ◌≡◌, ◌≢◌, refl, ap, ◌∙◌, true, false, List, [], ◌∷◌, ◌++◌, map, inl, inr, Option, none,
  some, >>=-eq-some, arith, ltb, if◌then◌else◌, find, find-append_new, has, Bool-cases,
}
use sylo.Text.{Bytes, Text}
use sylo.Text.Utf8.{encode}
use sylo.AppDb
use sylo.AppDb.{AppDb, User, SessionRow, named, with_id, of_user, with_token}
use sylo.Dict.{text_eq_refl}
use sylo.Auth.{
  Bcrypt, Session, hash_password, verify_password, authenticate_row, authenticate, live_session,
  on_row, get_session,
}

-- The account of a session, as the tables have it at `now`.
pub record IsLive (db : AppDb) (now : ℕ) (s : Session) : Type 0 where
  pub row : SessionRow
  pub user : User
  pub row_found : AppDb.get_session db s.token ≡ some row
  pub user_found : AppDb.get_user_by_id db row.user_id ≡ some user
  pub not_expired : now ≤ row.expires_at
  pub active : user.is_active ≡ true
  pub same_user : s.user_id ≡ row.user_id
  pub same_csrf : s.csrf_token ≡ row.csrf_token
  pub same_name : s.username ≡ user.username
  pub same_role : s.role ≡ user.role

live_session-IsLive :
    (db : AppDb) (row : SessionRow) (token : Text) (now : ℕ) (o : Option User) (s : Session)
    → AppDb.get_session db token ≡ some row
    → now ≤ row.expires_at
    → AppDb.get_user_by_id db row.user_id ≡ o
    → (live_session db row token o).0 ≡ some s
    → IsLive db now s × ((live_session db row token o).1 ≡ db)
live_session-IsLive db row token now none s e k f h = cc h
live_session-IsLive db row token now (some u) s e k f h = elim (Bool-cases u.is_active) [
  | inr inactive ↦ cc (inactive, h)
  | inl active ↦ (
    record {
      row = row;
      user = u;
      row_found = ground arith;
      user_found = f;
      not_expired = k;
      active = active;
      same_user = ground arith;
      same_csrf = ground arith;
      same_name = ground arith;
      same_role = ground arith;
    },
    rw active,
  )
]

on_row-IsLive :
    (db : AppDb) (token : Text) (now : ℕ) (o : Option SessionRow) (s : Session)
    → AppDb.get_session db token ≡ o
    → (on_row db token now o).0 ≡ some s
    → IsLive db now s × ((on_row db token now o).1 ≡ db)
on_row-IsLive db token now none s e h = cc h
on_row-IsLive db token now (some row) s e h = elim (Bool-cases (ltb row.expires_at now)) [
  | inl expired ↦ ground arith
  | inr fresh ↦ rw fresh (
      live_session-IsLive db row token now (AppDb.get_user_by_id db row.user_id) s e (ground arith)
        refl (rw fresh at h))
]

-- A session that `get_session` returns is backed by an unexpired row and an active user, and has
-- the name and the role that the user has now; the database is then unchanged.
pub get_session-IsLive :
    (db : AppDb) (token : Text) (now : ℕ) (s : Session)
    → (get_session db (some token) now).0 ≡ some s
    → IsLive db now s × ((get_session db (some token) now).1 ≡ db)
get_session-IsLive db [] now s h = unfold get_session in cc h
get_session-IsLive db (c ∷ cs) now s h =
    unfold get_session in on_row-IsLive db (c ∷ cs) now _ s refl h

find-deactivated :
    (id : ℕ) (us : List User) (u : User)
    → find (with_id id) (map (λ u. if with_id id u then record u { is_active = false } else u) us)
      ≡ some u
    → u.is_active ≡ false
find-deactivated id [] u h = cc
find-deactivated id (v ∷ us) u h = ground (arith, find-deactivated id us u)

get_user_by_id-deactivated :
    (db : AppDb) (id j : ℕ) (u : User)
    → j ≡ id
    → AppDb.get_user_by_id (AppDb.set_user_active db id false) j ≡ some u
    → u.is_active ≡ false
unfolding AppDb.get_user_by_id AppDb.set_user_active
get_user_by_id-deactivated db id j u e h = find-deactivated id db.users u (rw e at h)

-- Once a user is deactivated no token, however it was obtained, gives a session of that user.
pub get_session-deactivated :
    (db : AppDb) (id : ℕ) (token : Text) (now : ℕ) (s : Session)
    → (get_session (AppDb.set_user_active db id false) (some token) now).0 ≡ some s
    → s.user_id ≢ id
get_session-deactivated db id token now s h e =
    let (live, _) = get_session-IsLive (AppDb.set_user_active db id false) token now s h in
    cc (live.active, inactive live)
  where
    inactive :
        (live : IsLive (AppDb.set_user_active db id false) now s) → live.user.is_active ≡ false
    inactive live =
        get_user_by_id-deactivated db id live.row.user_id live.user (cc (live.same_user, e))
          live.user_found

-- The hash of a password verifies that password.
verify_password-hash_password :
    (bcrypt : Bcrypt) (password hash : Text) (salt : Bytes)
    → hash_password bcrypt password salt ≡ some hash
    → verify_password bcrypt password hash ≡ true
unfolding verify_password hash_password
verify_password-hash_password bcrypt password hash salt h =
    let (raw, made, read) = >>=-eq-some (bcrypt.hashpw (encode password) salt) _ h in
    ground (
      arith,
      bcrypt.hash_text (encode password) salt raw,
      bcrypt.check_hash (encode password) salt raw,
    )

-- A new user is found under its name, active and with the hash that was given.
get_user_by_username-create_user :
    (db db' : AppDb) (id : ℕ) (username hash role : Text) (now : ℕ)
    → AppDb.create_user db username hash role now ≡ some (id, db')
    → (u : User) × (AppDb.get_user_by_username db' username ≡ some u)
      × (u.id ≡ id)
      × (u.password_hash ≡ hash)
      × (u.role ≡ role)
      × (u.is_active ≡ true)
unfolding AppDb.create_user AppDb.get_user_by_username
get_user_by_username-create_user db db' id username hash role now h =
    elim (Bool-cases (has (named username) db.users)) [
      | inl taken ↦ cc (rw taken at h)
      | inr free ↦
          let u = AppDb.new_user db.users username hash role now in
          let added = find-append_new (named username) db.users u free (text_eq_refl username) in
          (
            u,
            ap (λ (d : AppDb). find (named username) d.users) (made free) ∙ added,
            ground (arith, made free),
            refl,
            refl,
            refl,
          )
    ]
  where
    made :
        has (named username) db.users ≡ false
        → db'
          ≡ record db { users = db.users ++ AppDb.new_user db.users username hash role now ∷ [] }
    made free = ground arith

-- A user that was created with the hash of a password can log in with that password.
pub authenticate-create_user :
    (bcrypt : Bcrypt) (db db' : AppDb) (id : ℕ) (username password role hash : Text)
    (salt other : Bytes) (now : ℕ)
    → hash_password bcrypt password salt ≡ some hash
    → AppDb.create_user db username hash role now ≡ some (id, db')
    → authenticate bcrypt db' username password other ≡ some (some id)
unfolding authenticate authenticate_row
authenticate-create_user bcrypt db db' id username password role hash salt other now h k =
    let (u, found, same_id, same_hash, _, active) =
      get_user_by_username-create_user db db' id username hash role now k in
    ground (arith, verify_password-hash_password bcrypt password hash salt)
