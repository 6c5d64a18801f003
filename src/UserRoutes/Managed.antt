-- ===== src/UserRoutes/Managed.antt =====
-- A database with its keys and an active administrator, through the lookups and checks that stand in
-- front of a handler (sylo/webapp/deps.py).
use sylo.Base.{
  ℕ, ◌≤◌, Bool, true, false, inl, inr, [], ◌∷◌, Option, none, some, ltb, if◌then◌else◌, Bool-cases,
}
use sylo.Text.{Text}
use sylo.AppDb
use sylo.AppDb.{AppDb, User, SessionRow, with_id, is_active_admin}
use sylo.AppDb.Tables.{Keyed}
use sylo.AppDb.Keys.{delete_session-Keyed}
use sylo.Auth
use sylo.Auth.{Bcrypt, Session, is_admin, live_session, on_row, hash_password}
use sylo.Deps.{
  Handler, Response, or_not_authenticated, require_admin, get_session, get_optional_session,
  with_csrf, csrf_verdict,
}

-- The tables have their keys, and some active user is an administrator.
pub record IsManaged (db : AppDb) : Type 0 where
  pub keyed : Keyed db
  pub managed : 1 ≤ AppDb.count_active_admins db

pub if-IsManaged :
    (b : Bool) (x y : Response × AppDb)
    → IsManaged x.1
    → IsManaged y.1
    → IsManaged (if b then x else y).1
if-IsManaged true x y h k = h
if-IsManaged false x y h k = k

delete_session-IsManaged :
    (db : AppDb) (token : Text) → IsManaged db → IsManaged (AppDb.delete_session db token)
delete_session-IsManaged db token m = record {
  keyed = delete_session-Keyed db m.keyed token;
  managed =
      unfold AppDb.delete_session AppDb.count_active_admins in
      (unfold AppDb.count_active_admins in m.managed);
}

live_session-IsManaged :
    (db : AppDb) (row : SessionRow) (token : Text) (o : Option User)
    → IsManaged db
    → IsManaged (live_session db row token o).1
live_session-IsManaged db row token none m = delete_session-IsManaged db token m
live_session-IsManaged db row token (some u) m = elim (Bool-cases u.is_active) [
  | inl active ↦ rw active m
  | inr inactive ↦ rw inactive (delete_session-IsManaged db token m)
]

on_row-IsManaged :
    (db : AppDb) (token : Text) (now : ℕ) (o : Option SessionRow)
    → IsManaged db
    → IsManaged (on_row db token now o).1
on_row-IsManaged db token now none m = m
on_row-IsManaged db token now (some row) m = elim (Bool-cases (ltb row.expires_at now)) [
  | inl expired ↦ rw expired (delete_session-IsManaged db token m)
  | inr fresh ↦ rw fresh (live_session-IsManaged db row token _ m)
]

-- Looking a session up may delete it, and nothing else.
pub get_session-IsManaged :
    (db : AppDb) (cookie : Option Text) (now : ℕ)
    → IsManaged db
    → IsManaged (Auth.get_session db cookie now).1
unfolding Auth.get_session
get_session-IsManaged db none now m = m
get_session-IsManaged db (some []) now m = m
get_session-IsManaged db (some (c ∷ cs)) now m = on_row-IsManaged db (c ∷ cs) now _ m

or_not_authenticated-IsManaged :
    (o : Option Session) (handler : Session → Handler) (db : AppDb)
    → ((s : Session) → IsManaged db → IsManaged (handler s db).1)
    → IsManaged db
    → IsManaged (or_not_authenticated o handler db).1
or_not_authenticated-IsManaged none handler db h m = m
or_not_authenticated-IsManaged (some s) handler db h m = h s m

pub require_admin-IsManaged :
    (cookie : Option Text) (now : ℕ) (handler : Session → Handler) (db : AppDb)
    → ((s : Session) (db : AppDb) → IsManaged db → IsManaged (handler s db).1)
    → IsManaged db
    → IsManaged (require_admin cookie now handler db).1
unfolding require_admin get_session get_optional_session
require_admin-IsManaged cookie now handler db h m =
    or_not_authenticated-IsManaged (Auth.get_session db cookie now).0 _
      (Auth.get_session db cookie now).1 (λ s m'. if-IsManaged (is_admin s) _ _ (h s _ m') m')
      (get_session-IsManaged db cookie now m)

-- A handler behind the check of its CSRF token.
pub with_csrf-IsManaged :
    (session : Session) (csrf_token : Text) (refusal : Response) (h : Handler) (db : AppDb)
    → (IsManaged db → IsManaged (h db).1)
    → IsManaged db
    → IsManaged (with_csrf session csrf_token refusal h db).1
unfolding with_csrf
with_csrf-IsManaged session csrf_token refusal h db keep_it m =
    verdict (Auth.verify_csrf session (some csrf_token))
  where
    verdict : (o : Option Bool) → IsManaged (csrf_verdict o refusal h db).1
    verdict none = m
    verdict (some false) = m
    verdict (some true) = keep_it m
