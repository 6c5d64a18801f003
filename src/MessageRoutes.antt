-- ===== src/MessageRoutes.antt =====
-- sylo/webapp/routes/messages.py: the filter of a request, the page of results as JSON, and the live
-- tail as server-sent events. `datetime.fromisoformat` with the conversion to UTC is an argument; the
-- templates of the pages and of a row are left out, and the tail keeps the rows that it sends.
pub mod Newer
pub mod Tail
use sylo.Base.{
  ℕ, zero, suc, ◌+◌, Bool, true, false, ◌||◌, ◌&&◌, List, [], ◌∷◌, ◌++◌, map, Option, none, some,
  ◌==◌, ltb, leb, if◌then◌else◌, length, take, drop, keep,
}
use sylo.Text.{Text, codes}
use sylo.Timeutil.{Datetime, format_receipt_time}
use sylo.Schema.{Row, MonthDb}
use sylo.Dict.{Dict, get, set}
use sylo.Queries.{
  Message, Sqlite, MessageFilter, SearchResult, number_from, messages_of, search_messages,
}

module _ (parse_iso : Text → Option Datetime) where
  abbrev formatted : Option Datetime → Option Text
  formatted none = none
  formatted (some dt) = some (format_receipt_time dt)

  -- `none` of the parser is its ValueError.
  unfoldable pub normalize_bound : Option Text → Option Text
  normalize_bound none = none
  normalize_bound (some []) = none
  normalize_bound (some (c ∷ cs)) = formatted (parse_iso (c ∷ cs))

  abbrev or_none : Option Text → Option Text
  or_none none = none
  or_none (some []) = none
  or_none (some (c ∷ cs)) = some (c ∷ cs)

  unfoldable pub parse_filter :
      List Text → Option ℕ → Option ℕ → Option Text → Option Text → Option Text → MessageFilter
  parse_filter host severity facility start end text = record {
    host = host;
    severity = severity;
    facility = facility;
    start = normalize_bound start;
    end = normalize_bound end;
    text = or_none text;
    malformed_only = false;
  }

  abbrev pub min_of : ℕ → ℕ → ℕ
  min_of a b = if leb a b then a else b

  -- The result of `api_messages`, for a session that is there.
  unfoldable pub api_messages : Sqlite → ℕ → Dict MonthDb → ℕ → MessageFilter → ℕ → ℕ → SearchResult
  api_messages sqlite recent index max_page_size filt offset limit =
      search_messages sqlite recent index filt offset (min_of limit max_page_size)

-- The ends of lines of `str.splitlines`.
unfoldable pub is_line_end : ℕ → Bool
is_line_end c =
    (leb 10 c && leb c 13) || (leb 28 c && leb c 30) || c == 0x85 || c == 0x2028 || c == 0x2029

abbrev push_front : ℕ → List Text → List Text
push_front c [] = (c ∷ []) ∷ []
push_front c (l ∷ ls) = (c ∷ l) ∷ ls

-- `\r\n` ends one line.
unfoldable pub splitlines : Text → List Text
splitlines [] = []
splitlines (c ∷ []) = (if is_line_end c then [] else c ∷ []) ∷ []
splitlines (c ∷ d ∷ cs) =
    let both = [] ∷ splitlines cs in
    let ended = [] ∷ splitlines (d ∷ cs) in
    let more = push_front c (splitlines (d ∷ cs)) in
    if c == b'\r' && d == b'\n' then both else if is_line_end c then ended else more

-- `data.splitlines() or [""]`.
abbrev pub or_blank : List Text → List Text
or_blank [] = [] ∷ []
or_blank (l ∷ ls) = l ∷ ls

unfoldable pub payload : List Text → Text
payload [] = []
payload (l ∷ ls) = codes "data: " ++ (l ++ b'\n' ∷ payload ls)

-- `_sse_event`, before it is encoded.
unfoldable pub sse_event : Text → Text → Text
sse_event event content =
    codes "event: " ++ (event ++ b'\n' ∷ (payload (or_blank (splitlines content)) ++ b'\n' ∷ []))

abbrev pub poll_limit : ℕ
poll_limit = 200

-- `rows[-1]["id"] if rows else last_id`.
unfoldable pub last_id_of : ℕ → List Message → ℕ
last_id_of n [] = n
last_id_of n (m ∷ ms) = last_id_of m.id ms

-- `_poll_new_rows`: the ids are those of the positions, so the largest is the number of the rows.
unfoldable pub poll_new_rows : MonthDb → Option ℕ → List Message × ℕ
poll_new_rows db none = ([], length db.messages)
poll_new_rows db (some last_id) =
    let rows = take poll_limit (keep (λ m. ltb last_id m.id) (messages_of db)) in
    (rows, last_id_of last_id rows)

-- The generator's dictionary, and the rows that it has yielded.
pub record TailState : Type 0 where
  pub last_id_by_month : Dict ℕ
  pub sent : List Message

abbrev tail_poll : TailState → Text → Option MonthDb → TailState
tail_poll st month_key none = st
tail_poll st month_key (some db) =
    let (rows, new_last_id) = poll_new_rows db (get month_key st.last_id_by_month) in
    record {
      last_id_by_month = set month_key new_last_id st.last_id_by_month;
      sent = st.sent ++ rows;
    }

-- One round of `_tail_generator`: what the directory of the index holds then, and the current month.
unfoldable pub tail_round : TailState → Dict MonthDb × Text → TailState
tail_round st (index, month_key) = tail_poll st month_key (get month_key index)

unfoldable pub tail_generator : TailState → List (Dict MonthDb × Text) → TailState
tail_generator st [] = st
tail_generator st (round ∷ rounds) = tail_generator (tail_round st round) rounds
