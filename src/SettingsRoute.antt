-- ===== src/SettingsRoute.antt =====
-- sylo/webapp/routes/settings.py: the retention setting. `int`, and `str` of a number that is not
-- negative, are arguments; the page is reduced to its status and its error.
pub mod Saved
use sylo.Base.{ℕ, zero, suc, Option, none, some}
use sylo.Text.{Text}
use sylo.AppDb.{AppDb, retention_days_key, default_retention, get_setting, set_setting}
use sylo.Auth.{Session}
use sylo.Deps.{
  Handler, Response, page, require_admin, bad_retention, with_csrf, error_page, invalid_form_page,
}
use sylo.Retention.{ℤ, pos, negsuc}

-- The value that the form shows.
unfoldable pub retention_form : AppDb → Text
retention_form db = get_setting db retention_days_key default_retention

module _ (parse_int : Text → Option ℤ) (str_int : ℕ → Text) where
  abbrev pub save_days : Option ℤ → Handler
  save_days (some (pos (suc n))) db =
      (page 200 none none, set_setting db retention_days_key (str_int (suc n)))
  save_days (some (pos zero)) db = (error_page 400 bad_retention, db)
  save_days (some (negsuc n)) db = (error_page 400 bad_retention, db)
  save_days none db = (error_page 400 bad_retention, db)

  unfoldable pub retention_submit : Text → Text → Session → Handler
  retention_submit retention_days csrf_token session =
      with_csrf session csrf_token invalid_form_page (save_days (parse_int retention_days))

  -- The route, with its dependency.
  unfoldable pub post_retention : Option Text → ℕ → Text → Text → Handler
  post_retention cookie now retention_days csrf_token =
      require_admin cookie now (retention_submit retention_days csrf_token)
