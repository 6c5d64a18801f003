-- ===== src/Parser.antt =====
-- sylo/parser.py: the tolerant RFC 3164 / RFC 5424 parser that the receiver and the rebuild share.
-- `none` in the private functions stands for a raised exception.
pub mod Patterns
pub mod Priority
pub mod StructuredData
pub mod Runs
pub mod Rfc5424
pub mod Rfc3164
pub mod Outcome
use sylo.Base.{
  ℕ, zero, suc, ◌+◌, ◌-◌, ◌*◌, ◌/◌, ◌%◌, Bool, true, false, not, ◌&&◌, List, [], ◌∷◌, Option, none,
  some, ◌>>=◌, is_some, ◌==◌, ltb, if◌then◌else◌,
}
use sylo.Text.{Bytes, Text, text_eq}
use sylo.Text.Utf8.{decode}
use Patterns.{is_digit, match_pri, match_5424, match_3164, match_tag, Header5424}

pub record ParsedFields : Type 0 where
  pub facility : Option ℕ
  pub severity : Option ℕ
  pub host : Option Text
  pub tag : Option Text
  pub message : Text
  pub malformed : Bool

-- Where the inner loop of `_split_structured_data` stands: `in_quotes` false and true, and at the
-- byte behind a backslash, which `i += 2` jumps over.
pub data Quotes : Type 0 where
  outside inside escaped : Quotes

-- The inner loop: `some rest` is `closed`, with `rest` behind the `]`; `none` is the end of the
-- bytes.
unfoldable pub scan_element : Quotes → Bytes → Option Bytes
scan_element q [] = none
scan_element escaped (c ∷ cs) = scan_element inside cs
scan_element inside (c ∷ cs) =
    scan_element (if c == b'\\' then escaped else if c == b'"' then outside else inside) cs
scan_element outside (c ∷ cs) =
    let rest = scan_element (if c == b'"' then inside else outside) cs in
    if c == b']' then some cs else rest

-- The outer loop, on fuel: what stands behind the last SD-ELEMENT, or `none` at one that is not
-- closed.
unfoldable pub scan_elements : ℕ → Bytes → Option Bytes
unfolding scan_element
scan_elements zero cs = some cs
scan_elements (suc n) [] = some []
scan_elements (suc n) (c ∷ cs) =
    let closed = (do rest ← scan_element outside cs; scan_elements n rest) in
    if c == b'[' then closed else some (c ∷ cs)

-- `rest[1:] if rest[:1] == b" " else rest`.
unfoldable pub drop_space : Bytes → Bytes
drop_space [] = []
drop_space (c ∷ cs) = if c == b' ' then cs else c ∷ cs

-- The fuel: an element takes two bytes or more.
abbrev pub fuel : Bytes → ℕ
fuel [] = 1
fuel (c ∷ cs) = suc (fuel cs)

-- Without a bracket at the start, and at an unterminated element, everything is kept.
abbrev or_all : Bytes → Option Bytes → Bytes
or_all remainder none = remainder
or_all remainder (some rest) = drop_space rest

unfoldable pub split_structured_data : Bytes → Bytes
split_structured_data [] = []
split_structured_data (c ∷ cs) =
    if c == b'-'
    then drop_space cs
    else if not (c == b'[')
    then c ∷ cs
    else or_all (c ∷ cs) (scan_elements (fuel (c ∷ cs)) (c ∷ cs))

-- `int(b)` on ASCII digits; anything else raises.
unfoldable pub int_digits : ℕ → Bytes → Option ℕ
unfolding is_digit
int_digits n [] = some n
int_digits n (c ∷ cs) =
    let rest = int_digits (n * 10 + (c - b'0')) cs in if is_digit c then rest else none

pub record Pri : Type 0 where
  pub facility : Option ℕ
  pub severity : Option ℕ
  pub rest : Bytes

abbrev pub no_pri : Bytes → Pri
no_pri raw = record { facility = none; severity = none; rest = raw }

-- On the groups of a match, and on its number.
abbrev in_range : Bytes → Bytes → ℕ → Pri
in_range raw rest pri =
    if ltb 191 pri
    then no_pri raw
    else record { facility = some (pri / 8); severity = some (pri % 8); rest = rest }

abbrev matched : Bytes → Option (Bytes × Bytes) → Option Pri
matched raw none = some (no_pri raw)
matched raw (some (digits, rest)) = do pri ← int_digits 0 digits; some (in_range raw rest pri)

unfoldable pub split_pri : Bytes → Option Pri
split_pri raw = matched raw (match_pri raw)

-- `_decode(b) if b != b"-" else None`.
abbrev pub unless_nil : Bytes → Option Text
unless_nil b = if text_eq b (b'-' ∷ []) then none else some (decode b)

abbrev pub of_5424 : Pri → Header5424 → ParsedFields
of_5424 p m = record {
  facility = p.facility;
  severity = p.severity;
  host = unless_nil m.host;
  tag = unless_nil m.app_name;
  message = decode (split_structured_data m.remainder);
  malformed = not (is_some p.facility);
}

abbrev pub of_3164 : Pri → Bytes → Bytes → Option (Bytes × Bytes) → ParsedFields
of_3164 p host remainder (some (tag_name, msg)) = record {
  facility = p.facility;
  severity = p.severity;
  host = some (decode host);
  tag = some (decode tag_name);
  message = decode msg;
  malformed = not (is_some p.facility);
}
of_3164 p host remainder none = record {
  facility = p.facility;
  severity = p.severity;
  host = some (decode host);
  tag = none;
  message = decode remainder;
  malformed = not (is_some p.facility);
}

-- Neither header matched.
abbrev pub of_neither : Pri → ParsedFields
of_neither p = record {
  facility = p.facility;
  severity = p.severity;
  host = none;
  tag = none;
  message = decode p.rest;
  malformed = true;
}

abbrev try_3164 : Pri → Option (Bytes × Bytes) → ParsedFields
try_3164 p none = of_neither p
try_3164 p (some (host, remainder)) = of_3164 p host remainder (match_tag remainder)

abbrev try_5424 : Pri → Option Header5424 → ParsedFields
try_5424 p (some m) = of_5424 p m
try_5424 p none = try_3164 p (match_3164 p.rest)

abbrev pub all_malformed : Text → ParsedFields
all_malformed message = record {
  facility = none;
  severity = none;
  host = none;
  tag = none;
  message = message;
  malformed = true;
}

-- `_parse_syslog`.
unfoldable pub inner_parse_syslog : Bytes → Option ParsedFields
inner_parse_syslog [] = some (all_malformed [])
inner_parse_syslog (c ∷ cs) = do p ← split_pri (c ∷ cs); some (try_5424 p (match_5424 p.rest))

-- The handler of `except Exception`.
abbrev or_malformed : Bytes → Option ParsedFields → ParsedFields
or_malformed raw (some fields) = fields
or_malformed raw none = all_malformed (decode raw)

unfoldable pub parse_syslog : Bytes → ParsedFields
parse_syslog raw = or_malformed raw (inner_parse_syslog raw)
