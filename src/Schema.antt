-- ===== src/Schema.antt =====
-- sylo/indexer/schema.py: a row of the table `messages`. A month's database is the list of its rows,
-- the id of a row being its position from 1; `messages_fts` holds the message, host and tag of the
-- same rows under the same ids.
use sylo.Base.{ℕ, Bool, List, [], ◌∷◌, ◌++◌, Option}
use sylo.Text.{Text}

pub record Row : Type 0 where
  pub receipt_time : Text
  pub source_ip : Text
  pub facility : Option ℕ
  pub severity : Option ℕ
  pub host : Option Text
  pub tag : Option Text
  pub message : Text
  pub malformed : Bool

-- What the full-text index has of a row.
pub record FtsRow : Type 0 where
  pub message : Text
  pub host : Option Text
  pub tag : Option Text

pub record MonthDb : Type 0 where
  pub messages : List Row
  pub messages_fts : List FtsRow

-- `apply_schema` on a file that was not there; on one that is, it changes nothing.
abbrev pub empty_db : MonthDb
empty_db = record { messages = []; messages_fts = [] }

-- `insert_message`: one row in each table. Where SQLite refuses a row, it refuses the first INSERT:
-- that it takes the first and refuses the second, which leaves a row without its full-text entry, is
-- not modelled.
unfoldable pub insert_message : MonthDb → Row → MonthDb
insert_message db r = record {
  messages = db.messages ++ r ∷ [];
  messages_fts = db.messages_fts ++ record { message = r.message; host = r.host; tag = r.tag } ∷ [];
}
