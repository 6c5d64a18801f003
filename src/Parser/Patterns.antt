-- ===== src/Parser/Patterns.antt =====
-- The regular expressions of sylo/parser.py, over bytes. In each of them a repeated class has no
-- byte in common with what may follow it, so the greedy match never has to give a byte back, and a
-- match is a chain of longest runs and single bytes.
use sylo.Base.{
  ℕ, zero, suc, Bool, not, ◌&&◌, ◌||◌, [], ◌∷◌, Option, none, some, ◌>>=◌, ◌==◌, leb, if◌then◌else◌,
}
use sylo.Text.{Bytes}

-- `\d`, `\s` and `\w` of a bytes pattern.
unfoldable pub is_digit : ℕ → Bool
is_digit c = leb b'0' c && leb c b'9'

unfoldable pub is_space : ℕ → Bool
is_space c = c == b' ' || (leb 9 c && leb c 13)

unfoldable pub is_word : ℕ → Bool
unfolding is_digit
is_word c = is_digit c || (leb b'a' c && leb c b'z') || (leb b'A' c && leb c b'Z') || c == b'_'

-- `\S`.
unfoldable pub is_graph : ℕ → Bool
unfolding is_space
is_graph c = not (is_space c)

-- `[^:\[\s]`.
unfoldable pub is_tag_byte : ℕ → Bool
unfolding is_space
is_tag_byte c = not (c == b':' || c == b'[' || is_space c)

-- One byte of a class, and one given byte.
abbrev pub one : (ℕ → Bool) → Bytes → Option Bytes
one p [] = none
one p (c ∷ cs) = if p c then some cs else none

abbrev pub byte : ℕ → Bytes → Option Bytes
byte b = one (λ c. c == b)

-- The longest run of a class, with at most `n` bytes and with no bound.
unfoldable pub span_max : (ℕ → Bool) → ℕ → Bytes → Bytes × Bytes
span_max p zero cs = ([], cs)
span_max p (suc n) [] = ([], [])
span_max p (suc n) (c ∷ cs) =
    let (run, rest) = span_max p n cs in if p c then (c ∷ run, rest) else ([], c ∷ cs)

unfoldable pub span : (ℕ → Bool) → Bytes → Bytes × Bytes
span p [] = ([], [])
span p (c ∷ cs) = let (run, rest) = span p cs in if p c then (c ∷ run, rest) else ([], c ∷ cs)

-- A run that has to have a byte: `p+` and `p{1,n}`.
abbrev pub nonempty : Bytes × Bytes → Option (Bytes × Bytes)
nonempty ([], rest) = none
nonempty (c ∷ run, rest) = some (c ∷ run, rest)

abbrev pub some_of : (ℕ → Bool) → Bytes → Option (Bytes × Bytes)
some_of p cs = nonempty (span p cs)

abbrev pub some_max : (ℕ → Bool) → ℕ → Bytes → Option (Bytes × Bytes)
some_max p n cs = nonempty (span_max p n cs)

-- `(\S+) `.
unfoldable pub field : Bytes → Option (Bytes × Bytes)
unfolding span is_graph
field cs = do (run, rest) ← some_of is_graph cs; rest ← byte b' ' rest; some (run, rest)

-- `_PRI_RE`: group 1, and what follows the match.
unfoldable pub match_pri : Bytes → Option (Bytes × Bytes)
unfolding span_max is_digit
match_pri raw = do
  rest ← byte b'<' raw
  (digits, rest) ← some_max is_digit 3 rest
  rest ← byte b'>' rest
  some (digits, rest)

-- The groups of `_5424_HEADER_RE`.
pub record Header5424 : Type 0 where
  pub timestamp : Bytes
  pub host : Bytes
  pub app_name : Bytes
  pub procid : Bytes
  pub msgid : Bytes
  pub remainder : Bytes

-- `_5424_HEADER_RE`.
unfoldable pub match_5424 : Bytes → Option Header5424
match_5424 raw = do
  rest ← byte b'1' raw
  rest ← byte b' ' rest
  (timestamp, rest) ← field rest
  (host, rest) ← field rest
  (app_name, rest) ← field rest
  (procid, rest) ← field rest
  (msgid, rest) ← field rest
  some (record {
    timestamp = timestamp;
    host = host;
    app_name = app_name;
    procid = procid;
    msgid = msgid;
    remainder = rest;
  })

-- `\w{3}`, `\s+\d{1,2}` and `\d{2}`.
unfoldable pub skip_month : Bytes → Option Bytes
skip_month cs = do rest ← one is_word cs; rest ← one is_word rest; one is_word rest

unfoldable pub skip_day : Bytes → Option Bytes
unfolding span span_max is_space is_digit
skip_day cs = do (_, rest) ← some_of is_space cs; (_, rest) ← some_max is_digit 2 rest; some rest

unfoldable pub skip_two : Bytes → Option Bytes
unfolding is_digit
skip_two cs = do rest ← one is_digit cs; one is_digit rest

-- `\w{3}\s+\d{1,2}\s\d{2}:\d{2}:\d{2}`: what follows the time stamp.
unfoldable pub skip_timestamp : Bytes → Option Bytes
skip_timestamp raw = do
  rest ← skip_month raw
  rest ← skip_day rest
  rest ← one is_space rest
  rest ← skip_two rest
  rest ← byte b':' rest
  rest ← skip_two rest
  rest ← byte b':' rest
  skip_two rest

-- `_3164_HEADER_RE`: the groups for the host and for what follows it.
unfoldable pub match_3164 : Bytes → Option (Bytes × Bytes)
unfolding is_space
match_3164 raw = do
  rest ← skip_timestamp raw
  rest ← one is_space rest
  (host, rest) ← some_of is_graph rest
  rest ← one is_space rest
  some (host, rest)

abbrev or_same : Bytes → Option Bytes → Bytes
or_same cs none = cs
or_same cs (some rest) = rest

-- `(\[\d+\])?`: the group is skipped where it does not match.
unfoldable pub skip_pid : Bytes → Bytes
skip_pid cs = or_same cs (do rest ← byte b'[' cs; (_, rest) ← some_of is_digit rest; byte b']' rest)

-- `\s?`.
unfoldable pub skip_space : Bytes → Bytes
unfolding is_space
skip_space [] = []
skip_space (c ∷ cs) = if is_space c then cs else c ∷ cs

-- `_3164_TAG_RE`: the groups for the tag and for the message.
unfoldable pub match_tag : Bytes → Option (Bytes × Bytes)
unfolding skip_space
match_tag cs = do
  (tag, rest) ← some_max is_tag_byte 32 cs
  rest ← byte b':' (skip_pid rest)
  some (tag, skip_space rest)
