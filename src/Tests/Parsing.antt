-- ===== src/Tests/Parsing.antt =====
-- Messages for sylo/parser.py.
use sylo.Base.{ℕ, ◌≡◌, ◌≢◌, refl, false, List, [], ◌∷◌, ◌++◌, some, arith}
use sylo.Text.{Bytes, codes}
use sylo.Text.Utf8.{decode}
use sylo.Parser.{parse_syslog, split_structured_data, inner_parse_syslog, unless_nil}
use sylo.Parser.Patterns.{Header5424, is_graph, is_word, is_tag_byte, is_digit}
use sylo.Parser.Priority.{render_pri}
use sylo.Parser.StructuredData.{Element, render_elements, split_structured_data-render}
use sylo.Parser.Rfc5424.{render_5424, IsHeader, parse_syslog-5424}
use sylo.Parser.Rfc3164.{Header3164, IsHeader3164, render_3164, parse_syslog-3164}
use sylo.Parser.Rfc3164.Timestamp.{Stamp, IsStamp}
use sylo.Parser.Outcome.{inner_parse_syslog-total, Ranged, parse_syslog-Ranged}

abbrev element : Element
element = record {
  id = codes "ex@1";
  params = record { name = codes "k"; value = codes "a\"]b" } ∷ [];
}

abbrev elements : List Element
elements = element ∷ []

split_structured_data-render_example :
    split_structured_data (render_elements elements (b' ' ∷ codes "hello")) ≡ codes "hello"
split_structured_data-render_example =
    split_structured_data-render element [] (codes "hello") (refl, (refl, tt), tt)

abbrev header : Header5424
header = record {
  timestamp = codes "2024-05-06T07:08:09Z";
  host = codes "cam";
  app_name = b'-' ∷ [];
  procid = codes "42";
  msgid = codes "ID";
  remainder = render_elements elements (b' ' ∷ codes "hello");
}

field_lem : (c : ℕ) (cs : Bytes) → c ∷ cs ≢ []
field_lem c cs h = cc h

header-IsHeader : IsHeader header
unfolding is_graph
header-IsHeader = record {
  timestamp = record { graph = refl; filled = field_lem _ _ };
  host = record { graph = refl; filled = field_lem _ _ };
  app_name = record { graph = refl; filled = field_lem _ _ };
  procid = record { graph = refl; filled = field_lem _ _ };
  msgid = record { graph = refl; filled = field_lem _ _ };
}

parse_syslog-5424_example : parse_syslog (render_pri 1 5 ++ render_5424 header) ≡ record {
  facility = some 1;
  severity = some 5;
  host = unless_nil (codes "cam");
  tag = unless_nil (b'-' ∷ []);
  message = decode (codes "hello");
  malformed = false;
}
parse_syslog-5424_example =
    parse_syslog-5424 1 5 header elements (some (codes "hello")) (omega arith) (omega arith)
      header-IsHeader (refl, (refl, tt), tt) refl

abbrev stamp : Stamp
stamp = record { month = (b'O', b'c', b't'); day = 7; hour = 22; minute = 14; second = 15 }

abbrev header_3164 : Header3164
header_3164 = record {
  stamp = stamp;
  host = codes "cam";
  tag = codes "su";
  pid = some (codes "12");
}

stamp-IsStamp : IsStamp stamp
unfolding is_word
stamp-IsStamp = record {
  letters = (refl, refl, refl);
  day = omega arith;
  hour = omega arith;
  minute = omega arith;
  second = omega arith;
}

header_3164-IsHeader3164 : IsHeader3164 header_3164
unfolding is_graph is_tag_byte is_digit
header_3164-IsHeader3164 = record {
  stamp = stamp-IsStamp;
  host = record { graph = refl; filled = field_lem _ _ };
  tag_bytes = refl;
  tag_filled = field_lem _ _;
  tag_short = omega arith;
  pid = (refl, field_lem _ _);
}

parse_syslog-3164_example :
    parse_syslog (render_pri 4 2 ++ render_3164 header_3164 (codes "failed")) ≡ record {
      facility = some 4;
      severity = some 2;
      host = some (decode (codes "cam"));
      tag = some (decode (codes "su"));
      message = decode (codes "failed");
      malformed = false;
    }
parse_syslog-3164_example =
    parse_syslog-3164 4 2 header_3164 (codes "failed") (omega arith) (omega arith)
      header_3164-IsHeader3164 (omega arith)

inner_parse_syslog-total_example :
    inner_parse_syslog (codes "<13>x") ≡ some (parse_syslog (codes "<13>x"))
inner_parse_syslog-total_example = inner_parse_syslog-total (codes "<13>x")

parse_syslog-Ranged_example : Ranged (parse_syslog (codes "<13>x"))
parse_syslog-Ranged_example = parse_syslog-Ranged (codes "<13>x")
