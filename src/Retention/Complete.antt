-- ===== src/Retention/Complete.antt =====
-- The months that a pass of sylo/retention/core.py drops, where nothing prevents it.
use sylo.Base.{◌≡◌, Bool, List, [], ◌∷◌, ◌++◌, Option, none, some}
use sylo.Text.{Text}
use sylo.AppDb.{AppDb}
use sylo.Retention.{ℤ}
use sylo.Retention.Calendar.{Date}
use sylo.Retention.Delete.{Disk}
use sylo.Retention.Run.{RetentionSummary}
use sylo.Retention.Dropped.{IsGone}

abbrev pub AreGone : List Text → Disk → Type 0
AreGone [] disk = Unit
AreGone (key ∷ keys) disk = IsGone key disk × AreGone keys disk

abbrev months : Option RetentionSummary → List Text
months none = []
months (some s) = s.dropped_months

module _ (parse_int : Text → Option ℤ) (index_locked : Text → Bool)
    (raw_locked : Text → Text → Bool) (today : Date) where
  abbrev Drops : Text → RetentionSummary → Disk × Option RetentionSummary → Type 0
  Drops key summary result =
      (s : RetentionSummary)
      → result.1 ≡ some s
      → IsGone key result.0 × (s.dropped_months ≡ summary.dropped_months ++ key ∷ [])
