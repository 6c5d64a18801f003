-- ===== src/Server/Settled.antt =====
-- The rounds of a connection's handler end (sylo/receiver/server.py).
use sylo.Base.{
  ◌⊎◌, ℕ, zero, suc, ◌+◌, ◌≤◌, ◌<◌, ◌≡◌, refl, ap, ◌∙◌, Bool, true, false, Bool-cases, inl, inr, [],
  ◌∷◌, Option, none, some, arith, ltb, if◌then◌else◌, if_elim, length, take, drop,
}
use sylo.Text.{Bytes, Text}
use sylo.Timeutil.{Datetime}
use sylo.Server.{
  find_newline, waits, is_incomplete, read_found, readuntil, Connection, drop_read, handle_read,
  handle_round, handle_rounds,
}
use sylo.Server.Newlines.{find_newline-split_lines}

-- The handler has ended, or its read waits: there is no newline in the buffer, the buffer is within
-- the limit, and the peer has not closed.
abbrev pub Settled : ℕ → Connection → Type 0
Settled max_line_bytes conn =
    (conn.is_open ≡ false)
    ⊎ ((find_newline conn.buffer ≡ none)
        × (length conn.buffer ≤ max_line_bytes)
        × (conn.eof ≡ false))

module _ (clock : ℕ → Datetime) (peer : Option (Text × ℕ)) (max_line_bytes : ℕ) where
  pub handle_rounds-idle :
      (fuel : ℕ) (conn : Connection)
      → handle_round clock peer max_line_bytes conn ≡ conn
      → handle_rounds clock peer max_line_bytes fuel conn ≡ conn
  unfolding handle_rounds
  handle_rounds-idle zero conn h = refl
  handle_rounds-idle (suc fuel) conn h = rw h (handle_rounds-idle fuel conn h)

  -- What is left to do: the bytes, and closing.
  abbrev pending : Connection → ℕ
  pending conn = length conn.buffer + (if conn.is_open then 1 else 0)

  readuntil-waits :
      (eof : Bool) (buffer : Bytes)
      → find_newline buffer ≡ none
      → length buffer ≤ max_line_bytes
      → eof ≡ false
      → readuntil max_line_bytes eof buffer ≡ waits
  unfolding readuntil
  readuntil-waits eof buffer no_line short not_closed = rw (no_line, within, not_closed) refl
    where
      within : ltb max_line_bytes (length buffer) ≡ false
      within = ground (arith, short)

  Settled-idle :
      (conn : Connection)
      → Settled max_line_bytes conn
      → handle_round clock peer max_line_bytes conn ≡ conn
  unfolding handle_round
  Settled-idle conn (inl ended) = rw ended refl
  Settled-idle conn (inr (no_line, short, not_closed)) =
      ap (λ r. if conn.is_open then handle_read clock peer max_line_bytes conn r else conn)
        (readuntil-waits conn.eof conn.buffer no_line short not_closed)
      ∙ if_elim (λ c. c ≡ conn) conn.is_open refl refl

  -- The connection is settled, or a round takes something.
  abbrev Proceeds : Connection → Connection → Type 0
  Proceeds conn next = Settled max_line_bytes conn ⊎ (pending next < pending conn)

  length-drop_le : (n : ℕ) (bs : Bytes) → length (drop n bs) ≤ length bs
  length-drop_le zero bs = omega arith
  length-drop_le (suc n) [] = omega arith
  length-drop_le (suc n) (b ∷ bs) = omega (arith, length-drop_le n bs)

  drop_less :
      (n : ℕ) (bs : Bytes) (c : ℕ) (cs : Bytes)
      → take n bs ≡ c ∷ cs
      → length (drop n bs) < length bs
  drop_less zero bs c cs h = cc
  drop_less (suc n) [] c cs h = cc
  drop_less (suc n) (b ∷ bs) c cs h = omega (arith, length-drop_le n bs)

  handle_read-Proceeds :
      (conn : Connection)
      → conn.is_open ≡ true
      → Proceeds conn (
          handle_read clock peer max_line_bytes conn
            (readuntil max_line_bytes conn.eof conn.buffer))
  unfolding readuntil
  handle_read-Proceeds conn h = found (find_newline conn.buffer) refl
    where
      dropped :
          (bs : Bytes)
          → take max_line_bytes conn.buffer ≡ bs
          → Proceeds conn (drop_read clock peer max_line_bytes conn bs)
      dropped [] e = inr (ground arith)
      dropped (c ∷ cs) e = inr (ground (arith, drop_less max_line_bytes conn.buffer c cs e))

      partial :
          (bs : Bytes)
          → conn.buffer ≡ bs
          → Proceeds conn (handle_read clock peer max_line_bytes conn (is_incomplete bs))
      partial [] e = inr (ground (arith, ap length e))
      partial (c ∷ cs) e = inr (ground (arith, ap length e))

      by_eof :
          find_newline conn.buffer ≡ none
          → length conn.buffer ≤ max_line_bytes
          → (b : Bool) → conn.eof ≡ b
          → Proceeds conn (
              handle_read clock peer max_line_bytes conn
                (if b then is_incomplete conn.buffer else waits))
      by_eof no_line short true h = partial conn.buffer refl
      by_eof no_line short false h = inl (inr (no_line, short, h))

      found :
          (r : Option (Bytes × Bytes))
          → find_newline conn.buffer ≡ r
          → Proceeds conn (
              handle_read clock peer max_line_bytes conn
                (read_found max_line_bytes conn.eof conn.buffer r))
      found none e = elim (Bool-cases (ltb max_line_bytes (length conn.buffer))) [
        | inl long ↦ rw long (dropped (take max_line_bytes conn.buffer) refl)
        | inr short ↦ rw short (by_eof e (ground (arith, short)) conn.eof refl)
      ]
      found (some (l, rest)) e = elim (Bool-cases (ltb max_line_bytes (length l))) [
        | inl long ↦ rw long (dropped (take max_line_bytes conn.buffer) refl)
        | inr short ↦
            rw short (inr (omega (arith, (find_newline-split_lines conn.buffer l rest [] e).1)))
      ]

  handle_round-Proceeds :
      (conn : Connection) → Proceeds conn (handle_round clock peer max_line_bytes conn)
  unfolding handle_round
  handle_round-Proceeds conn = by_open conn.is_open refl
    where
      by_open :
          (b : Bool)
          → conn.is_open ≡ b
          → Proceeds conn (
              if b
              then handle_read clock peer max_line_bytes conn
                  (readuntil max_line_bytes conn.eof conn.buffer)
              else conn)
      by_open true h = handle_read-Proceeds conn h
      by_open false h = inl (inl h)

  settles :
      (fuel : ℕ) (conn : Connection)
      → pending conn ≤ fuel
      → Settled max_line_bytes (handle_rounds clock peer max_line_bytes fuel conn)
  unfolding handle_rounds
  settles zero conn h = elim (handle_round-Proceeds conn) [
    | inl idle ↦ idle
    | inr less ↦ absurd (omega arith)
  ]
  settles (suc fuel) conn h = elim (handle_round-Proceeds conn) [
    | inl idle ↦ rw (handle_rounds-idle (suc fuel) conn (Settled-idle conn idle)) idle
    | inr less ↦ settles fuel (handle_round clock peer max_line_bytes conn) (omega arith)
  ]

  -- After as many rounds as there are bytes in the buffer, and one, the handler has ended, or it
  -- waits for data: no newline is in the buffer, the buffer is within the limit, and the peer has not
  -- closed.
  pub handle_rounds-Settled :
      (fuel : ℕ) (conn : Connection)
      → length conn.buffer < fuel
      → Settled max_line_bytes (handle_rounds clock peer max_line_bytes fuel conn)
  handle_rounds-Settled fuel conn h = settles fuel conn (
      if_elim (λ n. length conn.buffer + n ≤ fuel) conn.is_open (omega (arith, h))
        (omega (arith, h)))
