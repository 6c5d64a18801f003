-- ===== src/Queries/Browse.antt =====
-- Paging through `search_messages` (sylo/webapp/queries.py) to the end.
use sylo.Base.{ℕ, zero, suc, ◌+◌, List, [], ◌++◌, if◌then◌else◌}
use sylo.Schema.{MonthDb}
use sylo.Dict.{Dict}
use sylo.Sort.{sort_desc}
use sylo.Queries.{Message, Sqlite, MessageFilter, earlier, relevant_month_keys, search_messages}
use sylo.Queries.Paging.{all_found}

module _ (sqlite : Sqlite) (filt : MessageFilter) (index : Dict MonthDb) (recent limit : ℕ) where
  -- The rows of the pages from an offset on, as long as there is a next one.
  unfoldable pub browse : ℕ → ℕ → List Message
  browse zero offset = []
  browse (suc pages) offset =
      let result = search_messages sqlite recent index filt offset limit in
      let rest = browse pages (offset + limit) in
      result.rows ++ (if result.has_more then rest else [])

  abbrev pub found_newest_first : List Message
  found_newest_first =
      sort_desc earlier (all_found sqlite filt index (relevant_month_keys recent index filt))
