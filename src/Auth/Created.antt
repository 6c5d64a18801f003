-- ===== src/Auth/Created.antt =====
-- A session of sylo/webapp/auth.py from its creation to its lookup.
use sylo.Base.{
  ℕ, ◌+◌, ◌≤◌, ◌≡◌, refl, true, false, not, ◌||◌, [], ◌∷◌, ◌++◌, none, some, arith, ltb, has, inl,
  inr, Bool-cases, find-append_new,
}
use sylo.Text.{Text}
use sylo.Dict.{text_eq_refl}
use sylo.AppDb
use sylo.AppDb.{AppDb, User, named, with_id, with_token, new_session}
use sylo.Auth
use sylo.Auth.{Session, on_row, live_session}

module _ (db : AppDb) (ttl id c : ℕ) (cs csrf_token : Text) (now : ℕ) (u : User) where
  -- The session of a user, and the database with its row.
  abbrev made_session : Session
  made_session = record {
    token = c ∷ cs;
    user_id = id;
    username = u.username;
    csrf_token = csrf_token;
    role = u.role;
  }

  abbrev made_db : AppDb
  made_db = record db {
    sessions = db.sessions ++ new_session (c ∷ cs) id csrf_token (now + ttl) now ∷ [];
  }

  create_session-made :
      has (with_token (c ∷ cs)) db.sessions ≡ false
      → has (with_id id) db.users ≡ true
      → AppDb.get_user_by_id db id ≡ some u
      → Auth.create_session db ttl id (c ∷ cs) csrf_token now ≡ some (made_session, made_db)
  unfolding Auth.create_session AppDb.create_session AppDb.get_user_by_id
  create_session-made free there found = rw free (rw there (rw found refl))

  get_session-made :
      (later : ℕ)
      → has (with_token (c ∷ cs)) db.sessions ≡ false
      → AppDb.get_user_by_id db id ≡ some u
      → u.is_active ≡ true
      → later ≤ now + ttl
      → Auth.get_session made_db (some (c ∷ cs)) later ≡ (some made_session, made_db)
  unfolding Auth.get_session AppDb.get_session AppDb.get_user_by_id
  get_session-made later free found active early =
      let row_found =
        find-append_new (with_token (c ∷ cs)) db.sessions
          (new_session (c ∷ cs) id csrf_token (now + ttl) now) free (text_eq_refl (c ∷ cs)) in
      let fresh : ltb (now + ttl) later ≡ false = ground arith in
      rw row_found (rw fresh (rw found (rw active refl)))

  create_session-refused :
      (has (with_token (c ∷ cs)) db.sessions || not (has (with_id id) db.users)) ≡ true
      → Auth.create_session db ttl id (c ∷ cs) csrf_token now ≡ none
  unfolding Auth.create_session AppDb.create_session
  create_session-refused h = rw h refl

  -- Where `create_session` succeeds for an active user, the token gives a session of that user, with
  -- the same fields, until the time to live is over, and the lookup changes nothing.
  pub get_session-create_session :
      (db' : AppDb) (later : ℕ) (s : Session)
      → Auth.create_session db ttl id (c ∷ cs) csrf_token now ≡ some (s, db')
      → AppDb.get_user_by_id db id ≡ some u
      → u.is_active ≡ true
      → later ≤ now + ttl
      → Auth.get_session db' (some (c ∷ cs)) later ≡ (some s, db')
  get_session-create_session db' later s made found active early =
      elim (Bool-cases (has (with_token (c ∷ cs)) db.sessions)) [
        | inl taken ↦ cc (made, create_session-refused (rw taken refl))
        | inr free ↦ elim (Bool-cases (has (with_id id) db.users)) [
          | inr gone ↦ cc (made, create_session-refused (rw (free, gone) refl))
          | inl there ↦ cc (
            made,
            create_session-made free there found,
            get_session-made later free found active early,
          )
        ]
      ]
