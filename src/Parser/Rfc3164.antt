-- ===== src/Parser/Rfc3164.antt =====
-- `parse_syslog` of sylo/parser.py on messages that are written as RFC 3164 lays them out.
pub mod Timestamp
use sylo.Base.{
  ℕ, zero, suc, ◌+◌, ◌/◌, ◌%◌, ◌≤◌, ◌<◌, ◌≡◌, ◌≢◌, refl, sym, ap, ◌∙◌, ◌⊎◌, inl, inr, Bool, true,
  false, not, ◌&&◌, List, [], ◌∷◌, ◌++◌, append_assoc, Option, none, some, ◌>>=◌, is_some, arith,
  ◌==◌, ltb, if◌then◌else◌, all, length,
}
use sylo.Text.{Bytes, Text, text_eq, codes}
use sylo.Text.Utf8.{decode}
use sylo.Parser.Patterns.{
  nonempty, is_digit, is_space, is_graph, is_word, is_tag_byte, span, span_max, field, match_5424,
  match_3164, match_tag, skip_timestamp, skip_month, skip_day, skip_two, skip_pid, skip_space,
  Header5424,
}
use sylo.Parser.Priority.{render_pri, split_pri-render, split_pri-Splits, Splits, split, whole}
use sylo.Parser.StructuredData.{Element, WellFormed, render_elements, split_structured_data-render}
use sylo.Parser.{
  ParsedFields, Pri, unless_nil, of_5424, of_3164, try_5424, try_3164, or_malformed, split_pri,
  split_structured_data, inner_parse_syslog, parse_syslog,
}
use sylo.Parser.Runs.{IsField, span-append, span_max-append, nonempty-of, of_priority}
use Timestamp.{Stamp, IsStamp, render_stamp, skip_timestamp-render}

-- A message of RFC 3164 behind its priority: `stamp host tag[pid]: message`.
pub record Header3164 : Type 0 where
  pub stamp : Stamp
  pub host : Bytes
  pub tag : Bytes
  pub pid : Option Bytes

abbrev IsPid : Option Bytes → Type 0
IsPid none = Unit
IsPid (some digits) = (all is_digit digits ≡ true) × (digits ≢ [])

-- The tag has at most 32 bytes, none of them a colon, an opening bracket or white space.
pub record IsHeader3164 (m : Header3164) : Type 0 where
  pub stamp : IsStamp m.stamp
  pub host : IsField m.host
  pub tag_bytes : all is_tag_byte m.tag ≡ true
  pub tag_filled : m.tag ≢ []
  pub tag_short : length m.tag ≤ 32
  pub pid : IsPid m.pid

abbrev render_pid : Option Bytes → Bytes → Bytes
render_pid none rest = rest
render_pid (some digits) rest = b'[' ∷ (digits ++ b']' ∷ rest)

unfoldable pub render_3164 : Header3164 → Bytes → Bytes
render_3164 m message =
    render_stamp m.stamp
      (b' ' ∷ (m.host ++ b' ' ∷ (m.tag ++ render_pid m.pid (b':' ∷ b' ' ∷ message))))

skip_pid-render :
    (pid : Option Bytes) (rest : Bytes)
    → IsPid pid
    → skip_pid (render_pid pid (b':' ∷ rest)) ≡ b':' ∷ rest
unfolding skip_pid
skip_pid-render none rest h = refl
skip_pid-render (some digits) rest h = rw (
  span-append is_digit digits b']' (b':' ∷ rest) h.0 (unfold is_digit in refl),
  nonempty-of digits _ h.1,
)

tag_run :
    (tag : Bytes) (pid : Option Bytes) (rest : Bytes)
    → all is_tag_byte tag ≡ true
    → length tag ≤ 32
    → span_max is_tag_byte 32 (tag ++ render_pid pid (b':' ∷ rest))
      ≡ (tag, render_pid pid (b':' ∷ rest))
tag_run tag none rest h k = span_max-append _ 32 tag b':' rest k h (unfold is_tag_byte in refl)
tag_run tag (some digits) rest h k =
    span_max-append _ 32 tag b'[' _ k h (unfold is_tag_byte in refl)

match_tag-render :
    (m : Header3164) (message : Bytes)
    → IsHeader3164 m
    → match_tag (m.tag ++ render_pid m.pid (b':' ∷ b' ' ∷ message)) ≡ some (m.tag, message)
unfolding match_tag
match_tag-render m message h = rw (
  tag_run m.tag m.pid (b' ' ∷ message) h.tag_bytes h.tag_short,
  nonempty-of m.tag _ h.tag_filled,
  skip_pid-render m.pid (b' ' ∷ message) h.pid,
)

match_3164-render :
    (m : Header3164) (message : Bytes)
    → IsHeader3164 m
    → match_3164 (render_3164 m message)
      ≡ some (m.host, m.tag ++ render_pid m.pid (b':' ∷ b' ' ∷ message))
unfolding match_3164 render_3164
match_3164-render m message h = rw (
  skip_timestamp-render m.stamp _ h.stamp,
  span-append is_graph m.host b' ' _ h.host.graph (unfold is_graph in refl),
  nonempty-of m.host _ h.host.filled,
)

-- The first letter of a month is no digit, so an RFC 3164 message is not taken for RFC 5424.
match_5424-stamp :
    (t : Stamp) (rest : Bytes) → t.month.0 ≢ b'1' → match_5424 (render_stamp t rest) ≡ none
unfolding match_5424 render_stamp
match_5424-stamp t rest h = ground arith

-- An RFC 3164 message with a valid priority, a time stamp whose month does not begin with `1`, a host
-- without white space, a tag of 1 to 32 bytes with or without a process id in digits, and any message
-- bytes is parsed to exactly these.
pub parse_syslog-3164 :
    (facility severity : ℕ) (m : Header3164) (message : Bytes)
    → facility ≤ 23
    → severity ≤ 7
    → IsHeader3164 m
    → m.stamp.month.0 ≢ b'1'
    → parse_syslog (render_pri facility severity ++ render_3164 m message) ≡ record {
      facility = some facility;
      severity = some severity;
      host = some (decode m.host);
      tag = some (decode m.tag);
      message = decode message;
      malformed = false;
    }
unfolding render_3164
parse_syslog-3164 f s m message hf hs h ne =
    of_priority f s (render_3164 m message) hf hs
    ∙ rw
        (match_5424-stamp m.stamp _ ne, match_3164-render m message h, match_tag-render m message h)
