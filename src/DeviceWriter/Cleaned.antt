-- ===== src/DeviceWriter/Cleaned.antt =====
-- A write of sylo/receiver/device_writer.py, on what the files hold once their tails are clean.
use sylo.Base.{
  ◌≡◌, refl, sym, ap, ◌∙◌, inl, inr, Bool-cases, Bool, true, false, not, ◌||◌, List, [], ◌∷◌, ◌++◌,
  append_assoc, map, some, arith, if◌then◌else◌, if_elim, keep, drop,
}
use mathlib.Core.List.{append_cancel_left, append_cancel_right}
use sylo.Text.{Bytes, Text, text_eq, text_eq_iff, codes}
use sylo.Text.Utf8.{encode}
use sylo.Envelope.{MessageEnvelope, to_line}
use sylo.Dict.{Dict, get, set, get-set}
use sylo.Rebuild.Lines.{join_lines}
use sylo.Groups.{group_from, add_to_group, in_group}
use sylo.DeviceWriter.{
  DeviceWriter, ensure_clean_tail, sanitize_device_key, or_empty, write_sync, path_for, member,
  WriteOutcome, completes, leaves_untouched, leaves, on_outcome, write_path, write_day, write_days,
  day_of,
}
use sylo.DeviceWriter.Whole.{encode-append, join_newline-newline}

-- What a file holds once its tail is clean.
unfoldable pub clean_text : DeviceWriter → Text → Bytes
clean_text w path =
    let f = or_empty (get path w.files) in
    if member path w.sanitized_paths then f else ensure_clean_tail f

-- The lines of a day.
unfoldable pub lines_for : Text → List MessageEnvelope → List Text
lines_for day es = map to_line (keep (in_group day_of day) es)

pub lines_for-append :
    (day : Text) (xs ys : List MessageEnvelope)
    → lines_for day (xs ++ ys) ≡ lines_for day xs ++ lines_for day ys
unfolding lines_for
lines_for-append day [] ys = refl
lines_for-append day (x ∷ xs) ys = ground (arith, lines_for-append day xs ys)

join_lines-append : (xs ys : List Text) → join_lines (xs ++ ys) ≡ join_lines xs ++ join_lines ys
unfolding join_lines
join_lines-append [] ys = refl
join_lines-append (x ∷ xs) ys =
    ap (λ t. x ++ b'\n' ∷ t) (join_lines-append xs ys)
    ∙ sym (append_assoc x (b'\n' ∷ join_lines xs) (join_lines ys))

-- The bytes of some lines.
unfoldable pub written : List Text → Bytes
written ls = encode (join_lines ls)

pub written-append : (xs ys : List Text) → written (xs ++ ys) ≡ written xs ++ written ys
unfolding written
written-append xs ys =
    ap encode (join_lines-append xs ys) ∙ encode-append (join_lines xs) (join_lines ys)

pub written-nil : written [] ≡ []
unfolding written join_lines encode
written-nil = refl

module _ (disk_ok : Text → Bool) where
  pub clean_text-write_path :
      (w : DeviceWriter) (path p l : Text) (ls : List Text)
      → clean_text (write_path disk_ok w path (l ∷ ls)) p
        ≡ (if text_eq path p then clean_text w path ++ written (l ∷ ls) else clean_text w p)
  unfolding clean_text member written write_sync
  clean_text-write_path w path p l ls =
      rw (get-set p path new w.files)
        (by_path (text_eq path p) ∙ ap (λ f. if text_eq path p then f else clean_text w p) appended)
    where
      old : Bytes
      old = or_empty (get path w.files)

      new : Bytes
      new = write_sync old (l ∷ ls) (not (member path w.sanitized_paths))

      by_path :
          (same : Bool)
          → (if same || member p w.sanitized_paths
              then or_empty (if same then some new else get p w.files)
              else ensure_clean_tail (or_empty (if same then some new else get p w.files)))
            ≡ (if same then new else clean_text w p)
      by_path true = refl
      by_path false = refl

      by_tail :
          (known : Bool)
          → (if not known then ensure_clean_tail old else old) ++ encode (join_lines (l ∷ ls))
            ≡ (if known then old else ensure_clean_tail old) ++ written (l ∷ ls)
      by_tail true = refl
      by_tail false = refl

      appended : new ≡ clean_text w path ++ written (l ∷ ls)
      appended =
          ap
            (λ t.
              (if not (member path w.sanitized_paths) then ensure_clean_tail old else old)
              ++ encode t)
            (join_newline-newline l ls)
          ∙ by_tail (member path w.sanitized_paths)

  pub device_key-write_days :
      (d : Dict (List MessageEnvelope)) (w : DeviceWriter)
      → (write_days disk_ok w d).device_key ≡ w.device_key
  unfolding write_days write_day
  device_key-write_days [] w = refl
  device_key-write_days ((day, es) ∷ d) w =
      device_key-write_days d (write_day disk_ok w day es)
      ∙ if_elim (λ (v : DeviceWriter). v.device_key ≡ w.device_key)
          (disk_ok (path_for w.device_key day)) refl
          (by_outcome (path_for w.device_key day) (map to_line es) (w.config.outcome _ _ _))
    where
      by_outcome :
          (path : Text) (lines : List Text) (o : WriteOutcome)
          → (on_outcome disk_ok w path lines o).device_key ≡ w.device_key
      by_outcome path lines completes = refl
      by_outcome path lines leaves_untouched = refl
      by_outcome path lines (leaves rest) = refl

module _ (disk_ok : Text → Bool) where
  pub queue-write_days :
      (d : Dict (List MessageEnvelope)) (w : DeviceWriter)
      → (write_days disk_ok w d).queue ≡ w.queue
  unfolding write_days write_day
  queue-write_days [] w = refl
  queue-write_days ((day, es) ∷ d) w =
      queue-write_days d (write_day disk_ok w day es)
      ∙ if_elim (λ (v : DeviceWriter). v.queue ≡ w.queue) (disk_ok (path_for w.device_key day)) refl
          (by_outcome (path_for w.device_key day) (map to_line es) (w.config.outcome _ _ _))
    where
      by_outcome :
          (path : Text) (lines : List Text) (o : WriteOutcome)
          → (on_outcome disk_ok w path lines o).queue ≡ w.queue
      by_outcome path lines completes = refl
      by_outcome path lines leaves_untouched = refl
      by_outcome path lines (leaves rest) = refl

pub path_for-same : (key day d : Text) → text_eq (path_for key d) (path_for key day) ≡ text_eq d day
unfolding path_for
path_for-same key day d =
    same (text_eq (path_for key d) (path_for key day)) (text_eq d day) forth back
  where
    same : (b c : Bool) → (b ≡ true → c ≡ true) → (c ≡ true → b ≡ true) → b ≡ c
    same b c f g = ground arith

    forth : text_eq (path_for key d) (path_for key day) ≡ true → text_eq d day ≡ true
    forth h = (text_eq_iff d day).1 (
        ap (drop 1) (
          append_cancel_left (sanitize_device_key key) (b'/' ∷ d) (b'/' ∷ day) (
            append_cancel_right (sanitize_device_key key ++ b'/' ∷ d)
              (sanitize_device_key key ++ b'/' ∷ day) (codes ".log")
              ((text_eq_iff (path_for key d) (path_for key day)).0 h))))

    back : text_eq d day ≡ true → text_eq (path_for key d) (path_for key day) ≡ true
    back h =
        (text_eq_iff (path_for key d) (path_for key day)).1
          (ap (path_for key) ((text_eq_iff d day).0 h))

-- Every group has a message.
abbrev pub IsFilled : Dict (List MessageEnvelope) → Type 0
IsFilled [] = Unit
IsFilled ((day, []) ∷ d) = ⊥
IsFilled ((day, e ∷ es) ∷ d) = IsFilled d

IsFilled-set :
    (day : Text) (xs : List MessageEnvelope) (e : MessageEnvelope) (d : Dict (List MessageEnvelope))
    → IsFilled d
    → IsFilled (set day (xs ++ e ∷ []) d)
unfolding set
IsFilled-set day [] e [] h = tt
IsFilled-set day (x ∷ xs) e [] h = tt
IsFilled-set day xs e ((k, []) ∷ d) h = absurd h
IsFilled-set day xs e ((k, y ∷ ys) ∷ d) h = elim (Bool-cases (text_eq k day)) [
  | inl same ↦ rw same (filled xs)
  | inr other ↦ rw other (IsFilled-set day xs e d h)
]
  where
    filled : (zs : List MessageEnvelope) → IsFilled ((k, zs ++ e ∷ []) ∷ d)
    filled [] = h
    filled (z ∷ zs) = h

pub IsFilled-group_from :
    (es : List MessageEnvelope) (d : Dict (List MessageEnvelope))
    → IsFilled d
    → IsFilled (group_from day_of d es)
unfolding group_from
IsFilled-group_from [] d h = h
IsFilled-group_from (e ∷ es) d h =
    IsFilled-group_from es (add_to_group day_of e d) (IsFilled-set (day_of e) _ e d h)
