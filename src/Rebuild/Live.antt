-- ===== src/Rebuild/Live.antt =====
-- The rebuild of sylo/indexer/rebuild.py against the live path: the rows read back from a text file
-- are the rows that the indexer inserted for the same messages.
use sylo.Base.{
  ℕ, ◌≤◌, ◌≡◌, refl, sym, ap, subst, ◌∙◌, ◌/◌, ◌%◌, Bool, true, ◌&&◌, List, [], ◌∷◌, ◌++◌, map,
  arith, ltb, all, all-append, inl,
}
use sylo.Text.{Text, codes}
use sylo.Text.Utf8.{decode, encode, AllScalar, decode-encode}
use sylo.Timeutil.{Datetime, IsDatetime, format_receipt_time, two, four, six}
use sylo.Envelope.{RawMessage, from_raw, blank_break, to_line}
use sylo.Schema.{Row, MonthDb}
use sylo.Indexer.{row_of, insert_rows}
use sylo.Rebuild.{
  row_of_line, try_insert, insert_partitioned, rebuild_line, rebuild_lines, rebuild_file,
  split_lines, universal_newlines,
}
use sylo.Rebuild.Lines.{
  is_unbroken, is_no_space, join_lines, AllUnbroken, universal_newlines-join_lines,
  split_lines-join_lines, partition_space-append,
}

-- A message whose bytes are the UTF-8 form of a text with no line break, at a time in range.
pub record IsPlain (m : RawMessage) : Type 0 where
  pub text : Text
  pub encoded : m.raw ≡ encode text
  pub scalars : AllScalar text
  pub unbroken : all is_unbroken text ≡ true
  pub time : IsDatetime m.receipt_time

abbrev pub AllPlain : List RawMessage → Type 0
AllPlain [] = Unit
AllPlain (m ∷ ms) = IsPlain m × AllPlain ms

-- The row that the live indexer inserts for a message, under the name of its device's directory.
abbrev pub live_row : Text → RawMessage → Row
live_row device m = record (row_of (from_raw m)) { source_ip = device }

-- The lines of the file, as the device's writer renders them.
abbrev pub file_lines : List RawMessage → List Text
file_lines ms = map (λ m. to_line (from_raw m)) ms

unfoldable is_stamp_byte : ℕ → Bool
is_stamp_byte c = is_unbroken c && is_no_space c && ltb c 128

unfoldable is_stamp : Text → Bool
is_stamp t = all is_stamp_byte t

stamp-cons :
    (c : ℕ) (rest : Text)
    → is_stamp_byte c ≡ true
    → is_stamp rest ≡ true
    → is_stamp (c ∷ rest) ≡ true
unfolding is_stamp
stamp-cons c rest h k = rw h k

stamp-two : (n : ℕ) (rest : Text) → n ≤ 99 → is_stamp rest ≡ true → is_stamp (two n rest) ≡ true
unfolding is_stamp is_stamp_byte
stamp-two n rest h k = ground arith

stamp-four : (n : ℕ) (rest : Text) → n ≤ 9999 → is_stamp rest ≡ true → is_stamp (four n rest) ≡ true
stamp-four n rest h k =
    stamp-two (n / 100) _ (omega arith) (stamp-two (n % 100) rest (omega arith) k)

stamp-six : (n : ℕ) (rest : Text) → n ≤ 999999 → is_stamp rest ≡ true → is_stamp (six n rest) ≡ true
stamp-six n rest h k =
    stamp-two (n / 10000) _ (omega arith)
      (stamp-two (n / 100 % 100) _ (omega arith) (stamp-two (n % 100) rest (omega arith) k))

-- A field behind its separator.
stamp-field :
    (c n : ℕ) (rest : Text)
    → is_stamp_byte c ≡ true
    → n ≤ 99
    → is_stamp rest ≡ true
    → is_stamp (c ∷ two n rest) ≡ true
stamp-field c n rest h k l = stamp-cons c (two n rest) h (stamp-two n rest k l)

stamp-utc : is_stamp (codes "+00:00") ≡ true
unfolding is_stamp is_stamp_byte
stamp-utc = refl

format-IsStamp : (dt : Datetime) → IsDatetime dt → is_stamp (format_receipt_time dt) ≡ true
unfolding format_receipt_time is_stamp_byte
format-IsStamp dt h = stamp-four dt.year _ h.year_to (
    stamp-field b'-' dt.month _ refl (omega (arith, h.month_to)) (
      stamp-field b'-' dt.day _ refl (omega (arith, h.day_to)) (
        stamp-field b'T' dt.hour _ refl (omega (arith, h.hour_to)) (
          stamp-field b':' dt.minute _ refl (omega (arith, h.minute_to)) (
            stamp-field b':' dt.second _ refl (omega (arith, h.second_to))
              (stamp-cons b'.' _ refl (stamp-six dt.microsecond _ h.microsecond_to stamp-utc)))))))

stamp-AllScalar : (t : Text) → is_stamp t ≡ true → AllScalar t
unfolding is_stamp is_stamp_byte
stamp-AllScalar [] h = tt
stamp-AllScalar (c ∷ cs) h = (inl (ground arith), stamp-AllScalar cs (ground arith))

stamp-unbroken : (t : Text) → is_stamp t ≡ true → all is_unbroken t ≡ true
unfolding is_stamp is_stamp_byte
stamp-unbroken [] h = refl
stamp-unbroken (c ∷ cs) h = ground (arith, stamp-unbroken cs)

stamp-no_space : (t : Text) → is_stamp t ≡ true → all is_no_space t ≡ true
unfolding is_stamp is_stamp_byte
stamp-no_space [] h = refl
stamp-no_space (c ∷ cs) h = ground (arith, stamp-no_space cs)

map-blank_break : (t : Text) → all is_unbroken t ≡ true → map blank_break t ≡ t
map-blank_break [] h = refl
map-blank_break (c ∷ cs) h = ground (arith, map-blank_break cs)

-- The line of a plain message: the receipt time, a space and the text.
to_line-plain :
    (m : RawMessage) (p : IsPlain m)
    → to_line (from_raw m) ≡ format_receipt_time m.receipt_time ++ b' ' ∷ p.text
unfolding to_line from_raw
to_line-plain m p =
    ap (λ t. format_receipt_time m.receipt_time ++ b' ' ∷ map blank_break t)
      (ap decode p.encoded ∙ decode-encode p.text p.scalars)
    ∙ ap (λ t. format_receipt_time m.receipt_time ++ b' ' ∷ t) (map-blank_break p.text p.unbroken)

row_of_line-plain :
    (device : Text) (m : RawMessage) (p : IsPlain m)
    → row_of_line device (format_receipt_time m.receipt_time) p.text ≡ live_row device m
unfolding row_of from_raw
row_of_line-plain device m p = rw (← p.encoded)

AllScalar-append : (a b : Text) → AllScalar a → AllScalar b → AllScalar (a ++ b)
AllScalar-append [] b h k = k
AllScalar-append (c ∷ cs) b h k = (h.0, AllScalar-append cs b h.1 k)

line-AllScalar : (m : RawMessage) (p : IsPlain m) → AllScalar (to_line (from_raw m))
line-AllScalar m p = subst AllScalar (sym (to_line-plain m p)) (
    AllScalar-append (format_receipt_time m.receipt_time) (b' ' ∷ p.text)
      (stamp-AllScalar (format_receipt_time m.receipt_time) (format-IsStamp m.receipt_time p.time))
      (inl (ground arith), p.scalars))

line-unbroken : (m : RawMessage) (p : IsPlain m) → all is_unbroken (to_line (from_raw m)) ≡ true
line-unbroken m p =
    ap (all is_unbroken) (to_line-plain m p)
    ∙ all-append is_unbroken (format_receipt_time m.receipt_time) (b' ' ∷ p.text)
        (stamp-unbroken (format_receipt_time m.receipt_time) (format-IsStamp m.receipt_time p.time))
        p.unbroken

file_lines-AllUnbroken : (ms : List RawMessage) → AllPlain ms → AllUnbroken (file_lines ms)
file_lines-AllUnbroken [] h = tt
file_lines-AllUnbroken (m ∷ ms) h = (line-unbroken m h.0, file_lines-AllUnbroken ms h.1)

join_lines-AllScalar : (ms : List RawMessage) → AllPlain ms → AllScalar (join_lines (file_lines ms))
unfolding join_lines
join_lines-AllScalar [] h = tt
join_lines-AllScalar (m ∷ ms) h =
    AllScalar-append (to_line (from_raw m)) (b'\n' ∷ join_lines (file_lines ms))
      (line-AllScalar m h.0) (inl (ground arith), join_lines-AllScalar ms h.1)

module _ (accepts : Row → Bool) (device : Text) where
  rebuild_line-stamped :
      (acc : MonthDb × ℕ) (dt : Datetime) (t : Text)
      → IsDatetime dt
      → rebuild_line accepts device acc (format_receipt_time dt ++ b' ' ∷ t)
        ≡ try_insert accepts acc (row_of_line device (format_receipt_time dt) t)
  unfolding rebuild_line format_receipt_time
  rebuild_line-stamped acc dt t h = ap (insert_partitioned accepts device acc) (
      partition_space-append (format_receipt_time dt) t
        (stamp-no_space (format_receipt_time dt) (format-IsStamp dt h)))

  rebuild_line-plain :
      (acc : MonthDb × ℕ) (m : RawMessage) (p : IsPlain m)
      → rebuild_line accepts device acc (to_line (from_raw m))
        ≡ try_insert accepts acc (live_row device m)
  rebuild_line-plain acc m p =
      ap (rebuild_line accepts device acc) (to_line-plain m p)
      ∙ rebuild_line-stamped acc m.receipt_time p.text p.time
      ∙ ap (try_insert accepts acc) (row_of_line-plain device m p)

  rebuild_lines-plain :
      (acc : MonthDb × ℕ) (ms : List RawMessage)
      → AllPlain ms
      → rebuild_lines accepts device acc (file_lines ms)
        ≡ insert_rows accepts acc (map (live_row device) ms)
  unfolding rebuild_lines insert_rows
  rebuild_lines-plain acc [] h = refl
  rebuild_lines-plain acc (m ∷ ms) h =
      ap (λ r. rebuild_lines accepts device r (file_lines ms)) (rebuild_line-plain acc m h.0)
      ∙ rebuild_lines-plain (try_insert accepts acc (live_row device m)) ms h.1

  -- For messages whose bytes are the UTF-8 form of a text without line breaks, rebuilding the file
  -- that holds their lines inserts the rows that the live indexer inserts for them, in the same order
  -- and with the same count, but for the source address, which is the name of the directory.
  pub rebuild_file-live :
      (db : MonthDb) (ms : List RawMessage)
      → AllPlain ms
      → rebuild_file accepts db (encode (join_lines (file_lines ms))) device
        ≡ insert_rows accepts (db, 0) (map (live_row device) ms)
  unfolding rebuild_file
  rebuild_file-live db ms h =
      ap (λ t. rebuild_lines accepts device (db, 0) (split_lines (universal_newlines t)))
        (decode-encode (join_lines (file_lines ms)) (join_lines-AllScalar ms h))
      ∙ ap (λ t. rebuild_lines accepts device (db, 0) (split_lines t))
          (universal_newlines-join_lines (file_lines ms) (file_lines-AllUnbroken ms h))
      ∙ ap (rebuild_lines accepts device (db, 0))
          (split_lines-join_lines (file_lines ms) (file_lines-AllUnbroken ms h))
      ∙ rebuild_lines-plain (db, 0) ms h
