-- ===== src/Envelope.antt =====
-- sylo/receiver/envelope.py: a raw message, the message with its parsed fields, and its line in the
-- text file.
use sylo.Base.{ℕ, Bool, Option, ◌∷◌, ◌++◌, map, ◌==◌, if◌then◌else◌}
use sylo.Text.{Bytes, Text}
use sylo.Text.Utf8.{decode}
use sylo.Parser.{parse_syslog}
use sylo.Timeutil.{Datetime, format_receipt_time}

pub record RawMessage : Type 0 where
  pub raw : Bytes
  pub receipt_time : Datetime
  pub source_ip : Text
  pub source_port : ℕ
  pub transport : Text

pub record MessageEnvelope : Type 0 where
  pub receipt_time : Datetime
  pub source_ip : Text
  pub source_port : ℕ
  pub transport : Text
  pub raw : Bytes
  pub facility : Option ℕ
  pub severity : Option ℕ
  pub host : Option Text
  pub tag : Option Text
  pub message : Text
  pub malformed : Bool

unfoldable pub build : Bytes → Datetime → Text → ℕ → Text → MessageEnvelope
build raw receipt_time source_ip source_port transport =
    let fields = parse_syslog raw in
    record {
      receipt_time = receipt_time;
      source_ip = source_ip;
      source_port = source_port;
      transport = transport;
      raw = raw;
      facility = fields.facility;
      severity = fields.severity;
      host = fields.host;
      tag = fields.tag;
      message = fields.message;
      malformed = fields.malformed;
    }

unfoldable pub from_raw : RawMessage → MessageEnvelope
unfolding build
from_raw m = build m.raw m.receipt_time m.source_ip m.source_port m.transport

-- `.replace("\r", " ").replace("\n", " ")` on one code point.
abbrev pub blank_break : ℕ → ℕ
blank_break c = if c == b'\r' then b' ' else if c == b'\n' then b' ' else c

unfoldable pub to_line : MessageEnvelope → Text
to_line e = format_receipt_time e.receipt_time ++ b' ' ∷ map blank_break (decode e.raw)
