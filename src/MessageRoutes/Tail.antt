-- ===== src/MessageRoutes/Tail.antt =====
-- The live tail of sylo/webapp/routes/messages.py: which rows it yields.
use sylo.Base.{
  ℕ, zero, suc, ◌+◌, ◌*◌, ◌≤◌, ◌≡◌, refl, sym, ap, ◌∙◌, List, [], ◌∷◌, ◌++◌, append-nil,
  append_assoc, some, arith, length, length-append, length-drop_le, take, drop, take-append-drop,
}
use sylo.Text.{Text}
use sylo.Schema.{Row, MonthDb}
use sylo.Dict.{Dict, get, set, get-set, text_eq_refl}
use sylo.Queries.{Message, number_from, messages_of}
use sylo.MessageRoutes.{poll_limit, poll_new_rows, TailState, tail_poll, tail_round, tail_generator}
use sylo.MessageRoutes.Newer.{
  number_from-append, drop-append, poll_new_rows_lem, length-number_from,
}

-- Rounds in which the month is the current one and its rows grow, from the first rows to the last.
pub data Polls (month : Text) : List Row → List (Dict MonthDb × Text) → List Row → Type 0 where
  done : (rows : List Row) → Polls month rows [] rows
  poll :
      (rows : List Row)
      → (more : List Row) → (index : Dict MonthDb) → (db : MonthDb)
      → (rounds : List (Dict MonthDb × Text)) → (last : List Row) → get month index ≡ some db
      → db.messages ≡ rows ++ more
      → Polls month db.messages rounds last
      → Polls month rows ((index, month) ∷ rounds) last

-- The tail was seeded after `before`; of the later rows, those of `rest` are to be sent.
abbrev IsTailing : Text → List Message → List Row → TailState → List Message → Type 0
IsTailing month before rows st rest =
    get month st.last_id_by_month ≡ some (length (before ++ st.sent))
    × number_from 1 rows ≡ (before ++ st.sent) ++ rest

abbrev rows_after : List Row → List Row → List Message
rows_after rows more = number_from (1 + length rows) more

tail_poll-IsTailing :
    (month : Text) (before : List Message) (rows more : List Row) (st : TailState)
    → (rest : List Message) (db : MonthDb) → IsTailing month before rows st rest
    → db.messages ≡ rows ++ more
    → IsTailing month before db.messages
        (tail_poll st month (some db))
        (drop poll_limit (rest ++ rows_after rows more))
tail_poll-IsTailing month before rows more st rest db (h, k) grown =
    rw (h, poll_new_rows_lem db (before ++ st.sent) (rest ++ rows_after rows more) split)
      (next_id, next_rows)
  where
    split : messages_of db ≡ (before ++ st.sent) ++ (rest ++ rows_after rows more)
    split =
        ap (number_from 1) grown
        ∙ number_from-append 1 rows more
        ∙ rw k (append_assoc (before ++ st.sent) rest (rows_after rows more))

    sent_now : List Message
    sent_now = take poll_limit (rest ++ rows_after rows more)

    rest_now : List Message
    rest_now = drop poll_limit (rest ++ rows_after rows more)

    next_id :
        get month (set month (length (before ++ st.sent) + length sent_now) st.last_id_by_month)
        ≡ some (length (before ++ (st.sent ++ sent_now)))
    next_id =
        rw (get-set, text_eq_refl)
          (ap some (
            sym (length-append (before ++ st.sent) sent_now)
            ∙ ap length (append_assoc before st.sent sent_now)))

    next_rows :
        number_from 1 db.messages
        ≡ (before ++ (st.sent ++ sent_now)) ++ drop poll_limit (rest ++ rows_after rows more)
    next_rows =
        split
        ∙ ap (λ ms. (before ++ st.sent) ++ ms)
            (sym (take-append-drop poll_limit (rest ++ rows_after rows more)))
        ∙ sym (append_assoc (before ++ st.sent) sent_now rest_now)
        ∙ ap (λ ms. ms ++ rest_now) (append_assoc before st.sent sent_now)

abbrev pub fresh : TailState
fresh = record { last_id_by_month = []; sent = [] }

tail_poll_first :
    (month : Text) (first : MonthDb)
    → IsTailing month (messages_of first) first.messages (tail_poll fresh month (some first)) []
unfolding get poll_new_rows
tail_poll_first month first = (
  rw (get-set, text_eq_refl)
      (ap some (sym (length-number_from 1 first.messages) ∙ ap length (sym (append-nil _)))),
  sym (append-nil _ ∙ append-nil _),
)

tail_round_lem :
    (month : Text) (st : TailState) (index : Dict MonthDb) (db : MonthDb)
    → get month index ≡ some db
    → tail_round st (index, month) ≡ tail_poll st month (some db)
unfolding tail_round
tail_round_lem month st index db h = rw h refl

tail_generator-Polls :
    (month : Text) (before : List Message) (rows : List Row) (rounds : List (Dict MonthDb × Text))
    → (last : List Row) (st : TailState) (rest : List Message) → IsTailing month before rows st rest
    → Polls month rows rounds last
    → (later : List Message) × IsTailing month before last (tail_generator st rounds) later
unfolding tail_generator
tail_generator-Polls month before _ _ _ st rest h (Polls.done rows) = (rest, h)
tail_generator-Polls month before _ _ _ st rest h
      (Polls.poll rows more index db rounds last e grown ps) =
    rw (tail_generator, tail_round_lem month st index db e)
      (tail_generator-Polls month before db.messages rounds last _ _
        (tail_poll-IsTailing month before rows more st rest db h grown) ps)

abbrev pub repeat {ℓ} : {A : Type ℓ} → ℕ → A → List A
repeat zero x = []
repeat (suc n) x = x ∷ repeat n x

tail_generator-append :
    (st : TailState) (rounds later : List (Dict MonthDb × Text))
    → tail_generator st (rounds ++ later) ≡ tail_generator (tail_generator st rounds) later
unfolding tail_generator
tail_generator-append st [] later = refl
tail_generator-append st (round ∷ rounds) later =
    tail_generator-append (tail_round st round) rounds later

tail_generator-repeat :
    (month : Text) (before : List Message) (index : Dict MonthDb) (db : MonthDb) (n : ℕ)
    → (st : TailState) (rest : List Message) → get month index ≡ some db
    → IsTailing month before db.messages st rest
    → length rest ≤ n * 200
    → messages_of db ≡ before ++ (tail_generator st (repeat n (index, month))).sent
unfolding tail_generator number_from
tail_generator-repeat month before index db zero st [] e (h, k) few =
    k ∙ append-nil (before ++ st.sent)
tail_generator-repeat month before index db zero st (m ∷ rest) e (h, k) few = absurd (omega arith)
tail_generator-repeat month before index db (suc n) st rest e h few =
    rw (tail_generator, tail_round_lem month st index db e)
      (tail_generator-repeat month before index db n (tail_poll st month (some db)) _ e
        (tail_poll-IsTailing month before db.messages [] st rest db h
          (sym (append-nil db.messages)))
        (length-drop_le (n * 200) 200 (rest ++ rows_after db.messages [])
          (omega (arith, few, length-append rest []))))

-- When the month of the first poll remains the current one, its rows only grow, and the polls after
-- the last row are enough at 200 rows a poll, the tail has sent every row that came after the first
-- poll, once each and in the order of the ids, and no earlier one.
pub tail_generator_complete :
    (month : Text) (first db : MonthDb) (first_index index : Dict MonthDb) (n : ℕ)
    → (rounds : List (Dict MonthDb × Text)) → get month first_index ≡ some first
    → Polls month first.messages rounds db.messages
    → get month index ≡ some db
    → length db.messages ≤ length first.messages + n * 200
    → (tail_generator fresh ((first_index, month) ∷ rounds ++ repeat n (index, month))).sent
      ≡ drop (length first.messages) (messages_of db)
unfolding tail_generator
tail_generator_complete month first db first_index index n rounds e ps e_last few =
    rw (tail_generator, tail_generator-append seeded rounds (repeat n (index, month)))
      (sym (drop-append (messages_of first) _)
        ∙ ap (λ k. drop k (messages_of first ++ all_sent)) (length-number_from 1 first.messages)
        ∙ ap (drop (length first.messages)) (sym whole))
  where
    seeded : TailState
    seeded = tail_round fresh (first_index, month)

    seeded-IsTailing : IsTailing month (messages_of first) first.messages seeded []
    seeded-IsTailing =
        rw (tail_round_lem month fresh first_index first e) (tail_poll_first month first)

    after :
        (later : List Message) × IsTailing month
          (messages_of first)
          db.messages
          (tail_generator seeded rounds)
          later
    after =
        tail_generator-Polls month (messages_of first) first.messages rounds db.messages seeded []
          seeded-IsTailing ps

    all_sent : List Message
    all_sent = (tail_generator (tail_generator seeded rounds) (repeat n (index, month))).sent

    few_later :
        (sent later : List Message)
        → number_from 1 db.messages ≡ (messages_of first ++ sent) ++ later
        → length later ≤ n * 200
    few_later sent later h = omega (
      arith,
      few,
      ap length h,
      length-append (messages_of first ++ sent) later,
      length-append (messages_of first) sent,
      length-number_from 1 db.messages,
      length-number_from 1 first.messages,
    )

    whole : messages_of db ≡ messages_of first ++ all_sent
    whole =
        tail_generator-repeat month (messages_of first) index db n (tail_generator seeded rounds)
          after.0 e_last after.1 (few_later (tail_generator seeded rounds).sent after.0 after.1.1)
