-- ===== src/Tests/Settings.antt =====
-- The form of the retention setting (sylo/webapp/routes/settings.py).
use sylo.Base.{ℕ, zero, suc, ◌≡◌, refl, ap, [], ◌∷◌, Option, none, some, length}
use sylo.Text.{Text, codes, text_eq}
use sylo.AppDb.{AppDb, get_setting, init_db}
use sylo.Auth.{Session, verify_csrf}
use sylo.Deps.{page}
use sylo.Retention.{ℤ, pos}
use sylo.Retention.Run.{retention_days}
use sylo.SettingsRoute.{retention_submit}
use sylo.SettingsRoute.Saved.{
  HasPositiveDays, retention_submit-HasPositiveDays, retention_submit-retention_days,
}

-- Numbers in strokes.
abbrev str_int : ℕ → Text
str_int zero = []
str_int (suc n) = b'1' ∷ str_int n

abbrev parse_int : Text → Option ℤ
parse_int cs = some (pos (length cs))

int_of_str : (n : ℕ) → parse_int (str_int n) ≡ some (pos n)
int_of_str zero = refl
int_of_str (suc n) = ap (λ m. some (pos m)) (strokes (suc n))
  where
    strokes : (m : ℕ) → length (str_int m) ≡ m
    strokes zero = refl
    strokes (suc m) = ap suc (strokes m)

abbrev session : Session
session = record {
  token = codes "t";
  user_id = 1;
  username = codes "root";
  role = codes "admin";
  csrf_token = codes "c";
}

abbrev fresh_db : AppDb
fresh_db = record { users = []; sessions = []; settings = [] }

fresh_db-HasPositiveDays : HasPositiveDays parse_int fresh_db
unfolding get_setting init_db text_eq
fresh_db-HasPositiveDays = (2, refl)

retention_submit-HasPositiveDays_example :
    HasPositiveDays parse_int (retention_submit parse_int str_int [] (codes "c") session fresh_db).1
retention_submit-HasPositiveDays_example =
    retention_submit-HasPositiveDays parse_int str_int int_of_str [] (codes "c") session fresh_db
      fresh_db-HasPositiveDays

retention_submit-retention_days_example :
    ((retention_submit parse_int str_int (codes "11") (codes "c") session fresh_db).0
      ≡ page 200 none none)
    × (retention_days parse_int
          (retention_submit parse_int str_int (codes "11") (codes "c") session fresh_db).1
        ≡ some (pos 2))
unfolding verify_csrf text_eq
retention_submit-retention_days_example =
    retention_submit-retention_days parse_int str_int int_of_str (codes "11") (codes "c") session
      fresh_db 1 refl refl
