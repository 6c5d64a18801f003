-- ===== src/SettingsRoute/Saved.antt =====
-- What the retention reads after a form was submitted (sylo/webapp/routes/settings.py,
-- sylo/retention/core.py).
use sylo.Base.{
  ℕ, zero, suc, ◌≡◌, refl, Bool, true, false, Bool-cases, inl, inr, List, [], ◌∷◌, Option, none,
  some, find, has,
}
use sylo.Text.{Text, text_eq}
use sylo.AppDb.{AppDb, keyed, put, retention_days_key, get_setting, set_setting, init_db}
use sylo.Auth
use sylo.Auth.{Session}
use sylo.Deps.{page, csrf_verdict, with_csrf, invalid_form_page}
use sylo.Dict.{text_eq_refl}
use sylo.Retention.{ℤ, pos, negsuc}
use sylo.Retention.Run.{retention_days}
use sylo.SettingsRoute.{save_days, retention_submit}

find-put :
    (key value : Text) (rows : List (Text × Text))
    → find (keyed key) (put key value rows) ≡ some (key, value)
find-put key value [] = rw (text_eq_refl key) refl
find-put key value ((k, v) ∷ rows) = elim (Bool-cases (text_eq k key)) [
  | inl same ↦ rw same (rw (text_eq_refl key) refl)
  | inr other ↦ rw other (rw other (find-put key value rows))
]

has-put :
    (key value : Text) (rows : List (Text × Text)) → has (keyed key) (put key value rows) ≡ true
has-put key value [] = rw (text_eq_refl key) refl
has-put key value ((k, v) ∷ rows) = elim (Bool-cases (text_eq k key)) [
  | inl same ↦ rw same (rw (text_eq_refl key) refl)
  | inr other ↦ rw other (rw other (has-put key value rows))
]

-- The setting is a positive number of days.
abbrev pub HasPositiveDays : (Text → Option ℤ) → AppDb → Type 0
HasPositiveDays parse_int db = (n : ℕ) × (retention_days parse_int db ≡ some (pos (suc n)))

module _ (parse_int : Text → Option ℤ) (str_int : ℕ → Text)
    (int_of_str : (n : ℕ) → parse_int (str_int n) ≡ some (pos n)) where
  retention_days-set_setting :
      (db : AppDb) (n : ℕ)
      → retention_days parse_int (set_setting db retention_days_key (str_int n)) ≡ some (pos n)
  unfolding set_setting init_db get_setting
  retention_days-set_setting db n =
      rw
        (
          has-put retention_days_key (str_int n) db.settings,
          find-put retention_days_key (str_int n) db.settings,
        )
        (int_of_str n)

  save_days-HasPositiveDays :
      (days : Option ℤ) (db : AppDb)
      → HasPositiveDays parse_int db
      → HasPositiveDays parse_int (save_days parse_int str_int days db).1
  save_days-HasPositiveDays none db h = h
  save_days-HasPositiveDays (some (negsuc n)) db h = h
  save_days-HasPositiveDays (some (pos zero)) db h = h
  save_days-HasPositiveDays (some (pos (suc n))) db h = (n, retention_days-set_setting db (suc n))

  -- Where the retention reads a positive number of days, it does so after any form, accepted or not.
  pub retention_submit-HasPositiveDays :
      (text csrf_token : Text) (session : Session) (db : AppDb)
      → HasPositiveDays parse_int db
      → HasPositiveDays parse_int (retention_submit parse_int str_int text csrf_token session db).1
  unfolding retention_submit with_csrf
  retention_submit-HasPositiveDays text csrf_token session db h =
      by_verdict (Auth.verify_csrf session (some csrf_token))
    where
      by_verdict :
          (verdict : Option Bool)
          → HasPositiveDays parse_int
              (csrf_verdict verdict invalid_form_page
                (save_days parse_int str_int (parse_int text))
                db).1
      by_verdict none = h
      by_verdict (some false) = h
      by_verdict (some true) = save_days-HasPositiveDays (parse_int text) db h

  -- A positive number of days that an administrator submits with the token of the session is accepted,
  -- and it is what the next pass of the retention reads.
  pub retention_submit-retention_days :
      (text csrf_token : Text) (session : Session) (db : AppDb) (n : ℕ)
      → Auth.verify_csrf session (some csrf_token) ≡ some true
      → parse_int text ≡ some (pos (suc n))
      → let result = retention_submit parse_int str_int text csrf_token session db in
        (result.0 ≡ page 200 none none) × (retention_days parse_int result.1 ≡ some (pos (suc n)))
  unfolding retention_submit with_csrf
  retention_submit-retention_days text csrf_token session db n verified days =
      rw (verified, days) (refl, retention_days-set_setting db (suc n))
