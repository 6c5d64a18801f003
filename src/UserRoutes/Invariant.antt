-- ===== src/UserRoutes/Invariant.antt =====
-- What no request to sylo/webapp/routes/users.py can break: the keys of the tables, and that an
-- active administrator is left.
use sylo.Base.{
  ℕ, ◌≡◌, refl, false, not, ◌||◌, inl, inr, List, [], ◌∷◌, Option, none, some, arith, ◌==◌,
  Bool-cases,
}
use sylo.Text.{Bytes, Text, strip}
use sylo.AppDb
use sylo.AppDb.{AppDb, User, SessionRow, with_id, is_active_admin}
use sylo.AppDb.Admins.{
  count_active_admins-create_user, count_active_admins-set_user_password,
  count_active_admins-deactivate, count_active_admins-delete_user,
}
use sylo.AppDb.Keys.{
  create_user-Keyed, set_user_password-Keyed, set_user_active-Keyed, delete_sessions_for_user-Keyed,
  delete_user-Keyed,
}
use sylo.Auth.{Bcrypt, Session, hash_password}
use sylo.Deps.{invalid_form_page}
use sylo.UserRoutes.{
  Request, creates, resets, deactivates, deletes, route, handle, serve, valid_role, is_empty,
  create_hashed, created, reset_found, reset_hashed, deactivate_found, delete_found, is_last_admin,
  deactivated, create_user, reset_password, deactivate_user, delete_user,
}
use sylo.UserRoutes.Managed.{IsManaged, if-IsManaged, with_csrf-IsManaged, require_admin-IsManaged}

create_user-IsManaged :
    (db db' : AppDb) (id : ℕ) (username hash role : Text) (now : ℕ)
    → AppDb.create_user db username hash role now ≡ some (id, db')
    → IsManaged db
    → IsManaged db'
create_user-IsManaged db db' id username hash role now h m = record {
  keyed = create_user-Keyed db db' id username hash role now h m.keyed;
  managed =
      omega (arith, count_active_admins-create_user db db' id username hash role now h, m.managed);
}

created-IsManaged :
    (db : AppDb) (username password hash role : Text) (now : ℕ) (o : Option (ℕ × AppDb))
    → AppDb.create_user db username hash role now ≡ o
    → IsManaged db
    → IsManaged (created db username password o).1
created-IsManaged db username password hash role now none e m = m
created-IsManaged db username password hash role now (some (id, db')) e m =
    create_user-IsManaged db db' id username hash role now e m

create_hashed-IsManaged :
    (db : AppDb) (username password role : Text) (now : ℕ) (o : Option Text)
    → IsManaged db
    → IsManaged (create_hashed db username password role now o).1
create_hashed-IsManaged db username password role now none m = m
create_hashed-IsManaged db username password role now (some hash) m =
    created-IsManaged db username password hash role now _ refl m

reset_hashed-IsManaged :
    (bcrypt : Bcrypt) (db : AppDb) (u : User) (id : ℕ) (password : Text) (o : Option Text)
    → IsManaged db
    → IsManaged (reset_hashed bcrypt db u id password o).1
reset_hashed-IsManaged bcrypt db u id password none m = m
reset_hashed-IsManaged bcrypt db u id password (some hash) m = record {
  keyed = set_user_password-Keyed db m.keyed id hash;
  managed = omega (arith, count_active_admins-set_user_password db id hash, m.managed);
}

-- The guard of the deactivation leaves an administrator.
deactivated-IsManaged :
    (db : AppDb) (id : ℕ) (u : User)
    → AppDb.get_user_by_id db id ≡ some u
    → is_last_admin db u ≡ false
    → IsManaged db
    → IsManaged (deactivated db id)
deactivated-IsManaged db id u found guard m = record {
  keyed =
      delete_sessions_for_user-Keyed (AppDb.set_user_active db id false)
        (set_user_active-Keyed db m.keyed id false) id;
  managed = ground (arith, count_active_admins-deactivate db id u m.keyed.ids found, m.managed);
}

deactivate_found-IsManaged :
    (prefix : Text) (id : ℕ) (session : Session) (db : AppDb) (o : Option User)
    → AppDb.get_user_by_id db id ≡ o
    → IsManaged db
    → IsManaged (deactivate_found prefix id session db o).1
deactivate_found-IsManaged prefix id session db none e m = m
deactivate_found-IsManaged prefix id session db (some u) e m =
    elim (Bool-cases (is_last_admin db u)) [
      | inl last ↦ rw last m
      | inr other ↦
          let kept = deactivated-IsManaged db id u e other m in
          elim (Bool-cases (id == session.user_id)) [
            | inl own ↦ rw (other, own) kept
            | inr another ↦ rw (other, another) kept
          ]
    ]

delete_found-IsManaged :
    (prefix : Text) (id : ℕ) (db : AppDb) (o : Option User)
    → AppDb.get_user_by_id db id ≡ o
    → IsManaged db
    → IsManaged (delete_found prefix id db o).1
delete_found-IsManaged prefix id db none e m = m
delete_found-IsManaged prefix id db (some u) e m = elim (Bool-cases u.is_active) [
  | inl active ↦ rw active m
  | inr inactive ↦ rw inactive (record {
    keyed = delete_user-Keyed db m.keyed id;
    managed = ground (arith, count_active_admins-delete_user db id u m.keyed.ids e, m.managed);
  })
]

module _ (bcrypt : Bcrypt) (prefix : Text) where
  create_user_lem :
      (username role password csrf_token : Text) (salt : Bytes) (now : ℕ) (s : Session) (db : AppDb)
      → IsManaged db
      → IsManaged (create_user bcrypt username role password csrf_token salt now s db).1
  unfolding create_user
  create_user_lem username role password csrf_token salt now s db =
      with_csrf-IsManaged s csrf_token invalid_form_page _ db λ m.
        let hashed =
          create_hashed-IsManaged db (strip username) password role now
            (hash_password bcrypt password salt) m in
        if-IsManaged (not (valid_role role)) _ _ m
          (if-IsManaged (is_empty (strip username) || is_empty password) _ _ m hashed)

  reset_found-IsManaged :
      (db : AppDb) (id : ℕ) (password : Text) (salt : Bytes) (o : Option User)
      → IsManaged db
      → IsManaged (reset_found bcrypt db id password salt o).1
  reset_found-IsManaged db id password salt none m = m
  reset_found-IsManaged db id password salt (some u) m =
      if-IsManaged (is_empty password) _ _ m (reset_hashed-IsManaged bcrypt db u id password _ m)

  route-IsManaged :
      (r : Request) (now : ℕ) (s : Session) (db : AppDb)
      → IsManaged db
      → IsManaged (route bcrypt prefix r now s db).1
  unfolding reset_password deactivate_user delete_user
  route-IsManaged (creates username role password csrf_token salt) now s db =
      create_user_lem username role password csrf_token salt now s db
  route-IsManaged (resets id password csrf_token salt) now s db =
      with_csrf-IsManaged s csrf_token invalid_form_page _ db
        (reset_found-IsManaged db id password salt _)
  route-IsManaged (deactivates id csrf_token) now s db =
      with_csrf-IsManaged s csrf_token invalid_form_page _ db
        (deactivate_found-IsManaged prefix id s db _ refl)
  route-IsManaged (deletes id csrf_token) now s db =
      with_csrf-IsManaged s csrf_token invalid_form_page _ db
        (delete_found-IsManaged prefix id db _ refl)

  handle-IsManaged :
      (cookie : Option Text) (now : ℕ) (r : Request) (db : AppDb)
      → IsManaged db
      → IsManaged (handle bcrypt prefix cookie now r db).1
  unfolding handle
  handle-IsManaged cookie now r db =
      require_admin-IsManaged cookie now (route bcrypt prefix r now) db (route-IsManaged r now)

  -- Whatever requests come to the account routes, handled one after the other, each from its reads to
  -- its last update before the next, with whatever cookies and tokens and at whatever times, the
  -- tables keep their keys and some active user is an administrator, if both hold at the start.
  pub serve-IsManaged :
      (requests : List (Option Text × ℕ × Request)) (db : AppDb)
      → IsManaged db
      → IsManaged (serve bcrypt prefix requests db)
  unfolding serve
  serve-IsManaged [] db m = m
  serve-IsManaged ((cookie, now, r) ∷ rest) db m =
      serve-IsManaged rest (handle bcrypt prefix cookie now r db).1
        (handle-IsManaged cookie now r db m)
