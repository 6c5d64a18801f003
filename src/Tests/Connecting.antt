-- ===== src/Tests/Connecting.antt =====
-- TCP connections (sylo/receiver/server.py).
use sylo.Base.{ℕ, ◌≡◌, refl, true, false, [], ◌∷◌, Option, some, arith}
use sylo.Text.{Text, codes}
use sylo.Timeutil.{Datetime}
use sylo.Envelope.{RawMessage}
use sylo.Rebuild.{split_lines}
use sylo.Server.{
  find_newline, readuntil, rstrip_breaks, Connection, tcp_message, handle_round, handle_rounds,
  feed_data, feed_all, feed_eof, handle_tcp_connection,
}
use sylo.Server.Settled.{Settled, handle_rounds-Settled}
use sylo.Server.Framing.{handle_tcp_connection_lem}
use sylo.Tests.Indexing.{first_time}

abbrev clock : ℕ → Datetime
clock n = first_time

abbrev peer : Option (Text × ℕ)
peer = some (codes "10.0.0.9", 40000)

abbrev sent_line : Text → RawMessage
sent_line raw = record {
  raw = raw;
  receipt_time = first_time;
  source_ip = codes "10.0.0.9";
  source_port = 40000;
  transport = codes "tcp";
}

-- The line end is cut in two by the chunks, and the last line has none.
handle_tcp_connection_lem_example :
    handle_tcp_connection clock peer 8 (codes "ab\r" ∷ codes "\ncd\n\ne" ∷ codes "f" ∷ [])
    ≡ record {
      buffer = [];
      eof = true;
      enqueued =
          sent_line (codes "ab")
          ∷ sent_line (codes "cd")
          ∷ sent_line []
          ∷ sent_line (codes "ef")
          ∷ [];
      is_open = false;
    }
unfolding split_lines tcp_message rstrip_breaks
handle_tcp_connection_lem_example =
    handle_tcp_connection_lem clock peer 8 (codes "ab\r" ∷ codes "\ncd\n\ne" ∷ codes "f" ∷ []) refl

abbrev two_lines : Connection
two_lines = record { buffer = codes "a\nb\n"; eof = false; enqueued = []; is_open = true }

handle_rounds-Settled_example : Settled 8 (handle_rounds clock peer 8 5 two_lines)
handle_rounds-Settled_example = handle_rounds-Settled clock peer 8 5 two_lines (omega arith)

-- The end of a line that is too long comes through as a message.
oversized_tail :
    (handle_tcp_connection clock peer 4 (codes "abcdef\n" ∷ [])).enqueued
    ≡ sent_line (codes "ef") ∷ []
unfolding find_newline readuntil rstrip_breaks tcp_message handle_round handle_rounds feed_data
    feed_all feed_eof handle_tcp_connection
oversized_tail = refl
