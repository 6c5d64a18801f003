-- ===== src/Server.antt =====
-- sylo/receiver/server.py: datagrams and TCP streams as raw messages. The reader is asyncio's
-- StreamReader: its buffer, and whether the peer has closed. The clock and the peer are arguments.
pub mod Newlines
pub mod Settled
pub mod Rounds
pub mod Framing
use sylo.Base.{
  ℕ, zero, suc, Bool, true, false, ◌&&◌, ◌||◌, List, [], ◌∷◌, ◌++◌, Option, none, some, ◌==◌, ltb,
  if◌then◌else◌, length, take, drop,
}
use sylo.Text.{Bytes, Text, codes}
use sylo.Timeutil.{Datetime}
use sylo.Envelope.{RawMessage}

-- `SyslogUDPProtocol.datagram_received`: the message that it enqueues at the writer of its source.
unfoldable pub datagram_received : Datetime → Bytes → Text × ℕ → RawMessage
datagram_received now raw (source_ip, source_port) = record {
  raw = raw;
  receipt_time = now;
  source_ip = source_ip;
  source_port = source_port;
  transport = codes "udp";
}

-- `peername`, or what stands for a missing one.
abbrev pub source_of : Option (Text × ℕ) → Text × ℕ
source_of none = (codes "unknown", 0)
source_of (some peer) = peer

-- `rstrip(b"\r\n")`.
abbrev pub is_break : ℕ → Bool
is_break c = c == b'\r' || c == b'\n'

abbrev pub push_unless_break : ℕ → Bytes → Bytes
push_unless_break c [] = if is_break c then [] else c ∷ []
push_unless_break c (d ∷ ds) = c ∷ d ∷ ds

unfoldable pub rstrip_breaks : Bytes → Bytes
rstrip_breaks [] = []
rstrip_breaks (c ∷ cs) = push_unless_break c (rstrip_breaks cs)

-- The bytes up to the first newline, and those behind it.
abbrev pub push_before : ℕ → Option (Bytes × Bytes) → Option (Bytes × Bytes)
push_before c none = none
push_before c (some (before, after)) = some (c ∷ before, after)

unfoldable pub find_newline : Bytes → Option (Bytes × Bytes)
find_newline [] = none
find_newline (c ∷ cs) =
    let rest = find_newline cs in if c == b'\n' then some ([], cs) else push_before c rest

-- What one `readuntil(b"\n")` comes to: it waits for more data, it returns a line and leaves the
-- rest, it raises LimitOverrunError, or IncompleteReadError with what is left.
pub data Read : Type 0 where
  waits : Read
  returns : Bytes → Bytes → Read
  overruns : Read
  is_incomplete : Bytes → Read

abbrev pub read_found : ℕ → Bool → Bytes → Option (Bytes × Bytes) → Read
read_found limit eof buffer (some (line, rest)) =
    if ltb limit (length line) then overruns else returns (line ++ b'\n' ∷ []) rest
read_found limit eof buffer none =
    if ltb limit (length buffer) then overruns else if eof then is_incomplete buffer else waits

unfoldable pub readuntil : ℕ → Bool → Bytes → Read
readuntil limit eof buffer = read_found limit eof buffer (find_newline buffer)

-- A connection: the reader, the raw messages that are enqueued, and whether its handler goes on.
pub record Connection : Type 0 where
  pub buffer : Bytes
  pub eof : Bool
  pub enqueued : List RawMessage
  pub is_open : Bool

abbrev pub accepted : Connection
accepted = record { buffer = []; eof = false; enqueued = []; is_open = true }

-- The handler of a connection: `clock n` is the time at which it enqueues its message after `n` others.
-- The limit of the reader is the one that the handler is given.
module _ (clock : ℕ → Datetime) (peer : Option (Text × ℕ)) (max_line_bytes : ℕ) where
  unfoldable pub tcp_message : ℕ → Bytes → RawMessage
  tcp_message n line = record {
    raw = rstrip_breaks line;
    receipt_time = clock n;
    source_ip = (source_of peer).0;
    source_port = (source_of peer).1;
    transport = codes "tcp";
  }

  abbrev pub enqueue_line : Connection → Bytes → Bytes → Connection
  enqueue_line conn line rest = record conn {
    buffer = rest;
    enqueued = conn.enqueued ++ tcp_message (length conn.enqueued) line ∷ [];
  }

  -- `break`.
  abbrev pub stop_reading : Connection → Connection
  stop_reading conn = record conn { is_open = false }

  -- `read(max_line_bytes)`, whose bytes are dropped.
  abbrev pub drop_read : Connection → Bytes → Connection
  drop_read conn [] = stop_reading conn
  drop_read conn (c ∷ cs) = record conn { buffer = drop max_line_bytes conn.buffer }

  -- One round of the loop in `_handle_tcp_connection`, where it does not wait.
  abbrev pub handle_read : Connection → Read → Connection
  handle_read conn waits = conn
  handle_read conn (returns line rest) = enqueue_line conn line rest
  handle_read conn overruns = drop_read conn (take max_line_bytes conn.buffer)
  handle_read conn (is_incomplete []) = stop_reading (record conn { buffer = [] })
  handle_read conn (is_incomplete (c ∷ cs)) = enqueue_line conn (c ∷ cs) []

  unfoldable pub handle_round : Connection → Connection
  handle_round conn =
      if conn.is_open
      then handle_read conn (readuntil max_line_bytes conn.eof conn.buffer)
      else conn

  -- The rounds until the handler waits or ends: fuel bounds their number.
  unfoldable pub handle_rounds : ℕ → Connection → Connection
  handle_rounds zero conn = conn
  handle_rounds (suc fuel) conn = handle_rounds fuel (handle_round conn)

  -- Data arrives, and the handler takes what it can; each round takes a byte or more, but the last.
  unfoldable pub feed_data : Connection → Bytes → Connection
  feed_data conn chunk =
      let fed = record conn { buffer = conn.buffer ++ chunk } in
      handle_rounds (suc (length fed.buffer)) fed

  unfoldable pub feed_all : Connection → List Bytes → Connection
  feed_all conn [] = conn
  feed_all conn (chunk ∷ chunks) = feed_all (feed_data conn chunk) chunks

  -- The peer closes.
  unfoldable pub feed_eof : Connection → Connection
  feed_eof conn = handle_rounds (suc (length conn.buffer)) (record conn { eof = true })

  -- A whole connection, from its chunks.
  unfoldable pub handle_tcp_connection : List Bytes → Connection
  handle_tcp_connection chunks = feed_eof (feed_all accepted chunks)
