-- ===== src/Rebuild.antt =====
-- sylo/indexer/rebuild.py: the index made anew from the text files. SQLite's refusals of single rows
-- are an argument, `accepts`.
pub mod Lines
pub mod Live
pub mod Index
pub mod Months
pub mod Ordered
pub mod Remade
use sylo.Base.{
  ℕ, zero, suc, Bool, true, false, ◌&&◌, List, [], ◌∷◌, ◌++◌, Option, none, some, ◌==◌,
  if◌then◌else◌, length, take, drop,
}
use sylo.Text.{Bytes, Text, text_eq, codes}
use sylo.Text.Utf8.{decode, encode}
use sylo.Parser.{parse_syslog}
use sylo.Schema.{Row, MonthDb, empty_db, insert_message}
use sylo.Dict.{Dict, get, set}

-- The newline translation of a file that is opened as text: `\r\n` and `\r` are read as `\n`.
unfoldable pub universal_newlines : Text → Text
universal_newlines [] = []
universal_newlines (c ∷ []) = (if c == b'\r' then b'\n' else c) ∷ []
universal_newlines (c ∷ d ∷ cs) =
    let pair = b'\n' ∷ universal_newlines cs in
    let single = (if c == b'\r' then b'\n' else c) ∷ universal_newlines (d ∷ cs) in
    if c == b'\r' && d == b'\n' then pair else single

-- The lines of a text without their newlines; a text that ends in a newline has no line behind it.
abbrev pub push_char : ℕ → List Text → List Text
push_char c [] = (c ∷ []) ∷ []
push_char c (l ∷ ls) = (c ∷ l) ∷ ls

unfoldable pub split_lines : Text → List Text
split_lines [] = []
split_lines (c ∷ cs) =
    let rest = split_lines cs in if c == b'\n' then [] ∷ rest else push_char c rest

-- `line.partition(" ")`: `none` where there is no space.
unfoldable pub partition_space : Text → Option (Text × Text)
partition_space [] = none
partition_space (c ∷ cs) =
    let rest = partition_space cs in if c == b' ' then some ([], cs) else extend c rest
  where
    extend : ℕ → Option (Text × Text) → Option (Text × Text)
    extend c none = none
    extend c (some (before, behind)) = some (c ∷ before, behind)

-- The row of one line.
abbrev pub row_of_line : Text → Text → Text → Row
row_of_line source_ip timestamp raw = record {
  receipt_time = timestamp;
  source_ip = source_ip;
  facility = (parse_syslog (encode raw)).facility;
  severity = (parse_syslog (encode raw)).severity;
  host = (parse_syslog (encode raw)).host;
  tag = (parse_syslog (encode raw)).tag;
  message = (parse_syslog (encode raw)).message;
  malformed = (parse_syslog (encode raw)).malformed;
}

module _ (accepts : Row → Bool) where
  -- The row counts if SQLite takes it.
  abbrev pub try_insert : MonthDb × ℕ → Row → MonthDb × ℕ
  try_insert (db, inserted) r =
      if accepts r then (insert_message db r, suc inserted) else (db, inserted)

  abbrev pub insert_partitioned : Text → MonthDb × ℕ → Option (Text × Text) → MonthDb × ℕ
  insert_partitioned source_ip acc none = acc
  insert_partitioned source_ip acc (some (timestamp, raw)) =
      try_insert acc (row_of_line source_ip timestamp raw)

  unfoldable pub rebuild_line : Text → MonthDb × ℕ → Text → MonthDb × ℕ
  rebuild_line source_ip acc [] = acc
  rebuild_line source_ip acc (c ∷ cs) = insert_partitioned source_ip acc (partition_space (c ∷ cs))

  unfoldable pub rebuild_lines : Text → MonthDb × ℕ → List Text → MonthDb × ℕ
  rebuild_lines source_ip acc [] = acc
  rebuild_lines source_ip acc (l ∷ ls) = rebuild_lines source_ip (rebuild_line source_ip acc l) ls

  -- `_rebuild_file`, on the bytes of the file.
  unfoldable pub rebuild_file : MonthDb → Bytes → Text → MonthDb × ℕ
  rebuild_file db log_file source_ip =
      rebuild_lines source_ip (db, 0) (split_lines (universal_newlines (decode log_file)))
