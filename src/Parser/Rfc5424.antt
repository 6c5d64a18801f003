-- ===== src/Parser/Rfc5424.antt =====
-- `parse_syslog` of sylo/parser.py on messages that are written as RFC 5424 lays them out.
use sylo.Base.{refl, [], none, ℕ, ◌≤◌, ◌≡◌, ap, ◌∙◌, false, List, ◌∷◌, ◌++◌, Option, some}
use sylo.Text.{Bytes, Text}
use sylo.Text.Utf8.{decode}
use sylo.Parser.Patterns.{match_5424, Header5424}
use sylo.Parser.Priority.{render_pri}
use sylo.Parser.StructuredData.{
  Element, WellFormed, render_elements, split-elements, split_structured_data-render,
}
use sylo.Parser.{
  ParsedFields, unless_nil, try_5424, split_structured_data, drop_space, scan_elements,
  parse_syslog,
}
use sylo.Parser.Runs.{IsField, field-append, of_priority}

-- The six fields of an RFC 5424 header behind the version, with what follows them.
unfoldable pub render_5424 : Header5424 → Bytes
render_5424 m =
    b'1'
    ∷ b' '
    ∷ (m.timestamp
        ++ b' '
          ∷ (m.host
              ++ b' '
                ∷ (m.app_name ++ b' ' ∷ (m.procid ++ b' ' ∷ (m.msgid ++ b' ' ∷ m.remainder)))))

pub record IsHeader (m : Header5424) : Type 0 where
  pub timestamp : IsField m.timestamp
  pub host : IsField m.host
  pub app_name : IsField m.app_name
  pub procid : IsField m.procid
  pub msgid : IsField m.msgid

match_5424-render : (m : Header5424) → IsHeader m → match_5424 (render_5424 m) ≡ some m
unfolding match_5424 render_5424
match_5424-render m h = rw (
  field-append m.timestamp _ h.timestamp,
  field-append m.host _ h.host,
  field-append m.app_name _ h.app_name,
  field-append m.procid _ h.procid,
  field-append m.msgid _ h.msgid,
)

abbrev of_5424_message : ℕ → ℕ → Header5424 → Text → ParsedFields
of_5424_message f s m message = record {
  facility = some f;
  severity = some s;
  host = unless_nil m.host;
  tag = unless_nil m.app_name;
  message = message;
  malformed = false;
}

-- STRUCTURED-DATA: `-`, or one or more elements; and what follows it, a space and a message or
-- nothing.
abbrev pub render_structured_data : List Element → Bytes → Bytes
render_structured_data [] rest = b'-' ∷ rest
render_structured_data (e ∷ es) rest = render_elements (e ∷ es) rest

abbrev pub message_part : Option Bytes → Bytes
message_part none = []
message_part (some message) = b' ' ∷ message

abbrev pub message_bytes : Option Bytes → Bytes
message_bytes none = []
message_bytes (some message) = message

pub split_structured_data_lem :
    (es : List Element) (message : Option Bytes)
    → WellFormed es
    → split_structured_data (render_structured_data es (message_part message))
      ≡ message_bytes message
unfolding split_structured_data drop_space scan_elements
split_structured_data_lem [] none h = refl
split_structured_data_lem [] (some message) h = refl
split_structured_data_lem (e ∷ es) none h = split-elements e es [] (λ k. refl) h
split_structured_data_lem (e ∷ es) (some message) h = split_structured_data-render e es message h

-- An RFC 5424 message with a valid priority, six fields without white space, structured data that is
-- `-` or one or more well-formed elements, and any message bytes behind a space, or nothing behind
-- the structured data, is parsed to exactly these: `-` is no host and no tag, and the message is what
-- stands behind the structured data and its space.
pub parse_syslog-5424 :
    (facility severity : ℕ) (m : Header5424) (es : List Element) (message : Option Bytes)
    → facility ≤ 23
    → severity ≤ 7
    → IsHeader m
    → WellFormed es
    → m.remainder ≡ render_structured_data es (message_part message)
    → parse_syslog (render_pri facility severity ++ render_5424 m) ≡ record {
      facility = some facility;
      severity = some severity;
      host = unless_nil m.host;
      tag = unless_nil m.app_name;
      message = decode (message_bytes message);
      malformed = false;
    }
unfolding parse_syslog
parse_syslog-5424 f s m es message hf hs hm he r =
    of_priority f s (render_5424 m) hf hs
    ∙ ap (try_5424 _) (match_5424-render m hm)
    ∙ ap (λ text. of_5424_message f s m (decode text))
        (ap split_structured_data r ∙ split_structured_data_lem es message he)
