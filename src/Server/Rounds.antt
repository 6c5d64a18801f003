-- ===== src/Server/Rounds.antt =====
-- The rounds of a connection's handler over short lines (sylo/receiver/server.py).
use sylo.Base.{
  ℕ, zero, suc, ◌≤◌, ◌<◌, ◌≡◌, refl, sym, ap, ◌∙◌, Bool, true, false, List, [], ◌∷◌, ◌++◌,
  append_assoc, Option, none, some, arith, ltb, leb, length, length-append, all,
}
use sylo.Text.{Bytes, Text}
use sylo.Timeutil.{Datetime}
use sylo.Envelope.{RawMessage}
use sylo.Rebuild.{split_lines}
use sylo.Server.{find_newline, readuntil, Connection, tcp_message, handle_round, handle_rounds}
use sylo.Server.Newlines.{
  rstrip_breaks-append, find_newline-split_lines, find_newline-prefix, head_of,
}
use sylo.Server.Settled.{handle_rounds-idle}

-- A line that the handler accepts.
abbrev pub is_short : ℕ → Bytes → Bool
is_short max_line_bytes l = leb (length l) max_line_bytes

module _ (clock : ℕ → Datetime) (peer : Option (Text × ℕ)) (max_line_bytes : ℕ) where
  -- The messages of some lines, after `n` others.
  abbrev pub messages_from : ℕ → List Bytes → List RawMessage
  messages_from n [] = []
  messages_from n (l ∷ ls) = tcp_message clock peer max_line_bytes n l ∷ messages_from (suc n) ls

  abbrev pub open_at : Bytes → List RawMessage → Connection
  open_at b q = record { buffer = b; eof = false; enqueued = q; is_open = true }

  -- What is enqueued and will be, with the bytes still to come.
  abbrev pub expected : Bytes → List RawMessage → List RawMessage
  expected data_left q = q ++ messages_from (length q) (split_lines data_left)

  -- A state in which the handler waits.
  abbrev pub WaitsWith : Bytes → Connection → List RawMessage → Type 0
  WaitsWith future conn whole =
      (b : Bytes) × (q : List RawMessage) × (conn ≡ open_at b q)
      × (find_newline b ≡ none)
      × (all (is_short max_line_bytes) (split_lines (b ++ future)) ≡ true)
      × (expected (b ++ future) q ≡ whole)

  head_short :
      (ls : List Bytes)
      → all (is_short max_line_bytes) ls ≡ true
      → length (head_of ls) ≤ max_line_bytes
  head_short [] h = omega arith
  head_short (l ∷ ls) h = ground arith

  pub fits :
      (b future : Bytes)
      → find_newline b ≡ none
      → all (is_short max_line_bytes) (split_lines (b ++ future)) ≡ true
      → ltb max_line_bytes (length b) ≡ false
  fits b future e h =
      let le : length b ≤ length (head_of (split_lines (b ++ future))) =
        find_newline-prefix b future e in
      let small : length (head_of (split_lines (b ++ future))) ≤ max_line_bytes =
        head_short (split_lines (b ++ future)) h in
      ground arith

  handle_round-waits :
      (b future : Bytes) (q : List RawMessage)
      → find_newline b ≡ none
      → all (is_short max_line_bytes) (split_lines (b ++ future)) ≡ true
      → handle_round clock peer max_line_bytes (open_at b q) ≡ open_at b q
  unfolding handle_round readuntil
  handle_round-waits b future q e h = rw (e, fits b future e h) refl

  handle_round-line :
      (b l rest : Bytes) (q : List RawMessage)
      → find_newline b ≡ some (l, rest)
      → is_short max_line_bytes l ≡ true
      → handle_round clock peer max_line_bytes (open_at b q)
        ≡ open_at rest (q ++ tcp_message clock peer max_line_bytes (length q) l ∷ [])
  unfolding handle_round readuntil tcp_message
  handle_round-line b l rest q e h =
      let small : ltb max_line_bytes (length l) ≡ false = ground arith in
      rw (e, small, rstrip_breaks-append l) refl

  expected-cons :
      (l rest : Bytes) (q : List RawMessage) (data_left : Bytes)
      → split_lines data_left ≡ l ∷ split_lines rest
      → expected rest (q ++ tcp_message clock peer max_line_bytes (length q) l ∷ [])
        ≡ expected data_left q
  expected-cons l rest q data_left h = rw h (
      append_assoc q (m ∷ []) (messages_from (length (q ++ m ∷ [])) (split_lines rest))
      ∙ ap (λ n. q ++ m ∷ messages_from n (split_lines rest))
          (length-append q (m ∷ []) ∙ omega arith))
    where
      m : RawMessage
      m = tcp_message clock peer max_line_bytes (length q) l

  pub handle_rounds-WaitsWith :
      (fuel : ℕ) (b future : Bytes) (q : List RawMessage)
      → length b < fuel
      → all (is_short max_line_bytes) (split_lines (b ++ future)) ≡ true
      → WaitsWith future
          (handle_rounds clock peer max_line_bytes fuel (open_at b q))
          (expected (b ++ future) q)
  unfolding handle_rounds
  handle_rounds-WaitsWith zero b future q less h = absurd (omega arith)
  handle_rounds-WaitsWith (suc fuel) b future q less h =
      by_newline (find_newline b) refl (λ rest. handle_rounds-WaitsWith fuel rest future)
    where
      by_newline :
          (found : Option (Bytes × Bytes))
          → find_newline b ≡ found
          → ((rest : Bytes) (p : List RawMessage)
              → length rest < fuel
              → all (is_short max_line_bytes) (split_lines (rest ++ future)) ≡ true
              → WaitsWith future
                  (handle_rounds clock peer max_line_bytes fuel (open_at rest p))
                  (expected (rest ++ future) p))
          → WaitsWith future
              (handle_rounds clock peer max_line_bytes (suc fuel) (open_at b q))
              (expected (b ++ future) q)
      by_newline none e again = (
        b,
        q,
        handle_rounds-idle clock peer max_line_bytes (suc fuel) (open_at b q)
            (handle_round-waits b future q e h),
        e,
        h,
        refl,
      )
      by_newline (some (l, rest)) e again =
          let (split, less_rest) = find_newline-split_lines b l rest future e in
          let all_short : all (is_short max_line_bytes) (l ∷ split_lines (rest ++ future)) ≡ true =
            sym (ap (all (is_short max_line_bytes)) split) ∙ h in
          let (b2, q2, at, unbroken, later_short, whole) =
            again rest (q ++ tcp_message clock peer max_line_bytes (length q) l ∷ []) (omega arith)
              (ground arith) in
          (
            b2,
            q2,
            ap (handle_rounds clock peer max_line_bytes fuel)
                  (handle_round-line b l rest q e (ground arith))
                ∙ at,
            unbroken,
            later_short,
            whole ∙ expected-cons l (rest ++ future) q (b ++ future) split,
          )
