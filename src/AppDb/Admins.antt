-- ===== src/AppDb/Admins.antt =====
-- What the statements of sylo/webapp/appdb.py do to the number of active administrators.
use sylo.Base.{
  ℕ, ◌+◌, ◌≤◌, ◌≡◌, refl, false, not, inl, inr, List, [], ◌∷◌, map, some, arith, if◌then◌else◌,
  find, keep, count, has, count-append, Bool-cases,
}
use sylo.Text.{Text}
use sylo.AppDb.Tables.{Unique, same_id, count-deactivate}
use sylo.AppDb.{
  AppDb, User, with_id, is_active_admin, new_user, create_user, set_user_password, set_user_active,
  delete_sessions_for_user, delete_user, count_active_admins, get_user_by_id,
}

pub count_active_admins-create_user :
    (db db' : AppDb) (id : ℕ) (username hash role : Text) (now : ℕ)
    → create_user db username hash role now ≡ some (id, db')
    → count_active_admins db ≤ count_active_admins db'
unfolding create_user count_active_admins
count_active_admins-create_user db db' id username hash role now h =
    ground
      (arith, count-append is_active_admin db.users (new_user db.users username hash role now ∷ []))

count-password :
    (id : ℕ) (hash : Text) (us : List User)
    → count is_active_admin
        (map (λ u. if with_id id u then record u { password_hash = hash } else u) us)
      ≡ count is_active_admin us
count-password id hash [] = refl
count-password id hash (u ∷ us) = ground (arith, count-password id hash us)

pub count_active_admins-set_user_password :
    (db : AppDb) (id : ℕ) (hash : Text)
    → count_active_admins (set_user_password db id hash) ≡ count_active_admins db
unfolding set_user_password count_active_admins
count_active_admins-set_user_password db id hash = count-password id hash db.users

-- Deactivating a user takes away one active administrator if it was one.
pub count_active_admins-deactivate :
    (db : AppDb) (id : ℕ) (u : User)
    → Unique same_id db.users
    → get_user_by_id db id ≡ some u
    → count_active_admins (delete_sessions_for_user (set_user_active db id false) id)
        + (if is_active_admin u then 1 else 0)
      ≡ count_active_admins db
unfolding set_user_active delete_sessions_for_user count_active_admins get_user_by_id
count_active_admins-deactivate db id u k h = count-deactivate id db.users u k h

keep-absent :
    (id : ℕ) (us : List User) → has (with_id id) us ≡ false → keep (λ u. not (with_id id u)) us ≡ us
keep-absent id [] h = refl
keep-absent id (u ∷ us) h = ground (arith, keep-absent id us)

count-delete :
    (id : ℕ) (us : List User) (u : User)
    → Unique same_id us
    → find (with_id id) us ≡ some u
    → count is_active_admin (keep (λ v. not (with_id id v)) us)
        + (if is_active_admin u then 1 else 0)
      ≡ count is_active_admin us
count-delete id [] u k h = cc
count-delete id (v ∷ us) u k h = elim (Bool-cases (with_id id v)) [
  | inl here ↦ ground (arith, keep-absent id us)
  | inr later ↦ ground (arith, count-delete id us u)
]

-- So does deleting it.
pub count_active_admins-delete_user :
    (db : AppDb) (id : ℕ) (u : User)
    → Unique same_id db.users
    → get_user_by_id db id ≡ some u
    → count_active_admins (delete_user db id) + (if is_active_admin u then 1 else 0)
      ≡ count_active_admins db
unfolding delete_user count_active_admins get_user_by_id
count_active_admins-delete_user db id u k h = count-delete id db.users u k h
