-- ===== src/UserRoutes/Race.antt =====
-- Two deactivations of sylo/webapp/routes/users.py at once: the handlers run in a thread pool, and each
-- reads for its guard and updates on connections of its own.
use sylo.Base.{
  ℕ, ◌+◌, ◌≡◌, refl, ◌∙◌, Bool, true, false, not, List, [], ◌∷◌, map, has, find, Option, none, some,
  arith, ◌==◌, if◌then◌else◌,
}
use sylo.Text.{Text}
use sylo.AppDb
use sylo.AppDb.{AppDb, User, admin, with_id, is_active_admin}
use sylo.AppDb.Tables.{Unique, Keyed, same_id, deactivate}
use sylo.AppDb.Keys.{set_user_active-Keyed, delete_sessions_for_user-Keyed}
use sylo.AppDb.Admins.{count_active_admins-deactivate}
use sylo.Auth.{Session}
use sylo.UserRoutes.{is_last_admin, deactivated, deactivate_found}

-- What the reads of the handler come to: whether it goes on to the update.
abbrev pub passes_guard : AppDb → Option User → Bool
passes_guard db none = false
passes_guard db (some u) = not (is_last_admin db u)

-- The reads of a request to deactivate a user, and its update.
pub data DeactivateStep : Type 0 where
  reads : ℕ → DeactivateStep
  updates : ℕ → DeactivateStep

-- The database, and the users whose deactivation has passed the guard.
abbrev step_deactivate : DeactivateStep → AppDb × List ℕ → AppDb × List ℕ
step_deactivate (reads id) (db, passed) =
    (db, if passes_guard db (AppDb.get_user_by_id db id) then id ∷ passed else passed)
step_deactivate (updates id) (db, passed) =
    (if has (λ i. i == id) passed then deactivated db id else db, passed)

unfoldable pub run_deactivate : List DeactivateStep → AppDb × List ℕ → AppDb × List ℕ
run_deactivate [] state = state
run_deactivate (e ∷ es) state = run_deactivate es (step_deactivate e state)

find-deactivate :
    (i j : ℕ) (us : List User)
    → (i == j) ≡ false
    → find (with_id j) (map (deactivate i) us) ≡ find (with_id j) us
find-deactivate i j [] h = refl
find-deactivate i j (u ∷ us) h = ground (arith, find-deactivate i j us)

get_user_by_id-deactivated :
    (db : AppDb) (i j : ℕ)
    → (i == j) ≡ false
    → AppDb.get_user_by_id (deactivated db i) j ≡ AppDb.get_user_by_id db j
unfolding AppDb.get_user_by_id AppDb.set_user_active AppDb.delete_sessions_for_user
get_user_by_id-deactivated db i j h = find-deactivate i j db.users h

-- An active administrator that is one of two is deactivated by the guard.
passes_guard-two :
    (db : AppDb) (u : User) → AppDb.count_active_admins db ≡ 2 → is_last_admin db u ≡ false
passes_guard-two db u h = ground (arith, h)

count_active_admins-deactivated :
    (db : AppDb) (i : ℕ) (u : User)
    → Unique same_id db.users
    → AppDb.get_user_by_id db i ≡ some u
    → is_active_admin u ≡ true
    → AppDb.count_active_admins (deactivated db i) + 1 ≡ AppDb.count_active_admins db
count_active_admins-deactivated db i u k found h =
    ground (arith, count_active_admins-deactivate db i u k found, h)

module _ (prefix : Text) (session : Session) (db : AppDb) where
  -- The handler alone reads, and then updates.
  run_deactivate-alone :
      (id : ℕ)
      → (run_deactivate (reads id ∷ updates id ∷ []) (db, [])).0
        ≡ (deactivate_found prefix id session db (AppDb.get_user_by_id db id)).1
  unfolding run_deactivate
  run_deactivate-alone id = by_user (AppDb.get_user_by_id db id)
    where
      by_user :
          (o : Option User)
          → (if has (λ i. i == id) (if passes_guard db o then id ∷ [] else [])
              then deactivated db id
              else db)
            ≡ (deactivate_found prefix id session db o).1
      by_user none = refl
      by_user (some u) = ground arith

  -- A deactivation that is alone reads and then updates: that leaves the database as the handler
  -- does. But if there are two active administrators, and the handlers that
  -- deactivate them read before either updates, both pass the guard, and no active administrator is
  -- left.
  pub run_deactivate-race :
      (i j id : ℕ) (u v : User)
      → Keyed db
      → AppDb.count_active_admins db ≡ 2
      → (i == j) ≡ false
      → AppDb.get_user_by_id db i ≡ some u
      → AppDb.get_user_by_id db j ≡ some v
      → is_active_admin u ≡ true
      → is_active_admin v ≡ true
      → ((run_deactivate (reads id ∷ updates id ∷ []) (db, [])).0
          ≡ (deactivate_found prefix id session db (AppDb.get_user_by_id db id)).1)
        × (AppDb.count_active_admins
              (run_deactivate (reads i ∷ reads j ∷ updates i ∷ updates j ∷ []) (db, [])).0
            ≡ 0)
  unfolding run_deactivate
  run_deactivate-race i j id u v k two apart found_u found_v admin_u admin_v = (
    run_deactivate-alone id,
    rw
        (
          found_u,
          found_v,
          passes_guard-two db u two,
          passes_guard-two db v two,
          same j,
          same i,
          both,
        )
        none_left,
  )
    where
      both : (j == i) ≡ false
      both = ground (arith, apart)

      same : (n : ℕ) → (n == n) ≡ true
      same n = ground arith

      first : AppDb.count_active_admins (deactivated db i) + 1 ≡ AppDb.count_active_admins db
      first = count_active_admins-deactivated db i u k.ids found_u admin_u

      second :
          AppDb.count_active_admins (deactivated (deactivated db i) j) + 1
          ≡ AppDb.count_active_admins (deactivated db i)
      second =
          count_active_admins-deactivated (deactivated db i) j v
            (delete_sessions_for_user-Keyed (AppDb.set_user_active db i false)
              (set_user_active-Keyed db k i false) i).ids
            (get_user_by_id-deactivated db i j apart ∙ found_v) admin_v

      none_left : AppDb.count_active_admins (deactivated (deactivated db i) j) ≡ 0
      none_left = omega (arith, first, second, two)
