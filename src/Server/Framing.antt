-- ===== src/Server/Framing.antt =====
-- The lines of a TCP connection (sylo/receiver/server.py): the chunks have nothing to do with them.
use sylo.Base.{
  ℕ, suc, ◌≡◌, refl, sym, ap, ◌∙◌, true, false, List, [], ◌∷◌, ◌++◌, append-nil, append_assoc,
  Option, none, arith, ltb, length, all,
}
use sylo.Text.{Bytes, Text}
use sylo.Timeutil.{Datetime}
use sylo.Envelope.{RawMessage}
use sylo.Rebuild.{split_lines}
use sylo.Server.{
  find_newline, readuntil, Connection, tcp_message, handle_round, handle_rounds, feed_data,
  feed_all, feed_eof, handle_tcp_connection,
}
use sylo.Sort.Merge.{concat}
use sylo.Server.Newlines.{split_lines-last}
use sylo.Server.Settled.{handle_rounds-idle}
use sylo.Server.Rounds.{
  messages_from, is_short, expected, open_at, WaitsWith, fits, handle_rounds-WaitsWith,
}

module _ (clock : ℕ → Datetime) (peer : Option (Text × ℕ)) (max_line_bytes : ℕ) where
  feed_all-WaitsWith :
      (chunks : List Bytes) (b : Bytes) (q : List RawMessage)
      → find_newline b ≡ none
      → all (is_short max_line_bytes) (split_lines (b ++ concat chunks)) ≡ true
      → WaitsWith clock peer max_line_bytes []
          (feed_all clock peer max_line_bytes (open_at clock peer max_line_bytes b q) chunks)
          (expected clock peer max_line_bytes (b ++ concat chunks) q)
  unfolding feed_all feed_data
  feed_all-WaitsWith [] b q e h = (b, q, refl, e, h, refl)
  feed_all-WaitsWith (chunk ∷ chunks) b q e h =
      let (b1, q1, at, unbroken, later_short, whole) =
        handle_rounds-WaitsWith clock peer max_line_bytes (suc (length (b ++ chunk))) (b ++ chunk)
          (concat chunks) q (omega arith)
          (ap (λ bs. all (is_short max_line_bytes) (split_lines bs))
              (append_assoc b chunk (concat chunks))
            ∙ h) in
      let (b2, q2, at2, unbroken2, later_short2, whole2) =
        feed_all-WaitsWith chunks b1 q1 unbroken later_short in
      (
        b2,
        q2,
        ap (λ c. feed_all clock peer max_line_bytes c chunks) at ∙ at2,
        unbroken2,
        later_short2,
        whole2
            ∙ whole
            ∙ ap (λ bs. expected clock peer max_line_bytes bs q)
                (append_assoc b chunk (concat chunks)),
      )

  abbrev ended : List RawMessage → Connection
  ended q = record { buffer = []; eof = true; enqueued = q; is_open = false }

  abbrev at_eof : Bytes → List RawMessage → Connection
  at_eof b q = record { buffer = b; eof = true; enqueued = q; is_open = true }

  handle_round-at_eof :
      (q : List RawMessage) → handle_round clock peer max_line_bytes (at_eof [] q) ≡ ended q
  unfolding handle_round readuntil find_newline
  handle_round-at_eof q = let small : ltb max_line_bytes 0 ≡ false = ground arith in rw small refl

  handle_round-last :
      (c : ℕ) (cs : Bytes) (q : List RawMessage)
      → find_newline (c ∷ cs) ≡ none
      → ltb max_line_bytes (length (c ∷ cs)) ≡ false
      → handle_round clock peer max_line_bytes (at_eof (c ∷ cs) q)
        ≡ at_eof [] (q ++ tcp_message clock peer max_line_bytes (length q) (c ∷ cs) ∷ [])
  unfolding handle_round readuntil
  handle_round-last c cs q e small = rw (e, small) refl

  feed_eof_lem :
      (b : Bytes) (q : List RawMessage)
      → find_newline b ≡ none
      → all (is_short max_line_bytes) (split_lines (b ++ [])) ≡ true
      → feed_eof clock peer max_line_bytes (open_at clock peer max_line_bytes b q)
        ≡ ended (expected clock peer max_line_bytes (b ++ []) q)
  unfolding feed_eof handle_rounds
  feed_eof_lem [] q e h =
      handle_round-at_eof q
      ∙ ap ended (
          sym (
            ap (λ ls. q ++ messages_from clock peer max_line_bytes (length q) ls)
              (split_lines-last [] e)
            ∙ append-nil q))
  feed_eof_lem (c ∷ cs) q e h =
      ap
        (λ s.
          handle_rounds clock peer max_line_bytes (length cs)
            (handle_round clock peer max_line_bytes s))
        (handle_round-last c cs q e (fits clock peer max_line_bytes (c ∷ cs) [] e h))
      ∙ ap (handle_rounds clock peer max_line_bytes (length cs)) (handle_round-at_eof all_now)
      ∙ handle_rounds-idle clock peer max_line_bytes (length cs) (ended all_now)
          (unfold handle_round in refl)
      ∙ ap ended (
          sym (
            ap (λ bs. expected clock peer max_line_bytes bs q) (append-nil (c ∷ cs))
            ∙ ap (λ ls. q ++ messages_from clock peer max_line_bytes (length q) ls)
                (split_lines-last (c ∷ cs) e)))
    where
      all_now : List RawMessage
      all_now = q ++ tcp_message clock peer max_line_bytes (length q) (c ∷ cs) ∷ []

  -- When no line of the bytes that a peer sends is longer than the limit, a connection enqueues one
  -- message for each line, in order and without the breaks at its end, however the bytes arrive in chunks;
  -- a last line without a newline counts, and then the handler ends with an empty buffer.
  pub handle_tcp_connection_lem :
      (chunks : List Bytes)
      → all (is_short max_line_bytes) (split_lines (concat chunks)) ≡ true
      → handle_tcp_connection clock peer max_line_bytes chunks ≡ record {
        buffer = [];
        eof = true;
        enqueued = messages_from clock peer max_line_bytes 0 (split_lines (concat chunks));
        is_open = false;
      }
  unfolding handle_tcp_connection
  handle_tcp_connection_lem chunks h =
      let (b, q, at, unbroken, short, whole) =
        feed_all-WaitsWith chunks [] [] (unfold find_newline in refl) h in
      ap (feed_eof clock peer max_line_bytes) at ∙ feed_eof_lem b q unbroken short ∙ ap ended whole
