-- ===== src/Tests/Racing.antt =====
-- Two administrators who deactivate each other at once (sylo/webapp/routes/users.py).
use sylo.Base.{◌≡◌, refl, true, [], ◌∷◌}
use sylo.Text.{codes, text_eq}
use sylo.AppDb
use sylo.AppDb.{AppDb, User, admin}
use sylo.AppDb.Tables.{Keyed}
use sylo.Auth.{Session}
use sylo.UserRoutes.{deactivate_found}
use sylo.UserRoutes.Race.{reads, updates, run_deactivate, run_deactivate-race}

abbrev first_admin : User
first_admin = record {
  id = 1;
  username = codes "a";
  password_hash = [];
  role = admin;
  is_active = true;
  created_at = 0;
}

abbrev second_admin : User
second_admin = record first_admin { id = 2; username = codes "b" }

abbrev both_admins : AppDb
both_admins = record { users = first_admin ∷ second_admin ∷ []; sessions = []; settings = [] }

abbrev session : Session
session = record {
  token = codes "t";
  user_id = 1;
  username = codes "a";
  csrf_token = codes "c";
  role = admin;
}

both_admins-Keyed : Keyed both_admins
unfolding text_eq
both_admins-Keyed = record {
  ids = (refl, (refl, tt));
  names = (refl, (refl, tt));
  tokens = tt;
  owners = tt;
}

run_deactivate-race_example :
    ((run_deactivate (reads 1 ∷ updates 1 ∷ []) (both_admins, [])).0
      ≡ (deactivate_found [] 1 session both_admins (AppDb.get_user_by_id both_admins 1)).1)
    × (AppDb.count_active_admins
          (run_deactivate (reads 2 ∷ reads 1 ∷ updates 2 ∷ updates 1 ∷ []) (both_admins, [])).0
        ≡ 0)
unfolding AppDb.count_active_admins AppDb.get_user_by_id text_eq
run_deactivate-race_example =
    run_deactivate-race [] session both_admins 2 1 1 second_admin first_admin both_admins-Keyed refl
      refl refl refl refl refl
