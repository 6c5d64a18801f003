-- ===== src/DeviceWriter/Recorded.antt =====
-- What a flush of sylo/receiver/device_writer.py writes: the lines of the buffer, each behind those of
-- its day.
use sylo.Base.{
  ℕ, ◌≡◌, refl, sym, ap, ◌∙◌, ◌⊎◌, inl, inr, Bool-cases, Bool, true, false, List, [], ◌∷◌, ◌++◌,
  append-nil, map, some, if◌then◌else◌,
}
use sylo.Text.{Bytes, Text, text_eq, text_eq_iff}
use sylo.Envelope.{MessageEnvelope, to_line}
use sylo.Dict.{Dict, get}
use sylo.Groups.{group_from, get-group_from, or_nil, Distinct, Distinct-group_from}
use sylo.DeviceWriter.{DeviceWriter, path_for, write_day, write_days, flush_lines, day_of}
use sylo.DeviceWriter.Cleaned.{
  clean_text, lines_for, written, written-nil, clean_text-write_path, path_for-same, IsFilled,
  IsFilled-group_from,
}

-- What the file of a day holds, once its tail is clean.
abbrev pub day_text : DeviceWriter → Text → Bytes
day_text w day = clean_text w (path_for w.device_key day)

-- The disk refuses no write.
module _ (disk_ok : Text → Bool) (ok : (path : Text) → disk_ok path ≡ true) where
  day_text-write_day :
      (w : DeviceWriter) (d day : Text) (e : MessageEnvelope) (es : List MessageEnvelope)
      → day_text (write_day disk_ok w d (e ∷ es)) day
        ≡ (if text_eq d day then day_text w d ++ written (map to_line (e ∷ es)) else day_text w day)
  unfolding write_day
  day_text-write_day w d day e es = rw (ok (path_for w.device_key d)) (
      clean_text-write_path disk_ok w (path_for w.device_key d) (path_for w.device_key day)
        (to_line e) (map to_line es)
      ∙ ap (λ b. if b then day_text w d ++ written (map to_line (e ∷ es)) else day_text w day)
          (path_for-same w.device_key day d))

  day_text-write_days :
      (d : Dict (List MessageEnvelope)) (w : DeviceWriter) (day : Text)
      → Distinct d
      → IsFilled d
      → day_text (write_days disk_ok w d) day
        ≡ day_text w day ++ written (map to_line (or_nil (get day d)))
  unfolding write_days get
  day_text-write_days [] w day h k =
      sym (append-nil (day_text w day)) ∙ ap (λ u. day_text w day ++ u) (sym written-nil)
  day_text-write_days ((k, []) ∷ d) w day h filled = absurd filled
  day_text-write_days ((k, e ∷ es) ∷ d) w day h filled =
      day_text-write_days d (write_day disk_ok w k (e ∷ es)) day h.1 filled
      ∙ ap (λ f. f ++ written (map to_line (or_nil (get day d)))) (day_text-write_day w k day e es)
      ∙ by_day (Bool-cases (text_eq k day))
    where
      by_day :
          ((text_eq k day ≡ true) ⊎ (text_eq k day ≡ false))
          → (if text_eq k day
                then day_text w k ++ written (map to_line (e ∷ es))
                else day_text w day)
              ++ written (map to_line (or_nil (get day d)))
            ≡ day_text w day
              ++ written (map to_line (or_nil (if text_eq k day then some (e ∷ es) else get day d)))
      by_day (inl same) =
          let same_day : k ≡ day = (text_eq_iff k day).0 same in
          rw same (
            ap
              (λ o.
                (day_text w k ++ written (map to_line (e ∷ es)))
                ++ written (map to_line (or_nil o)))
              (ap (λ j. get j d) (sym same_day) ∙ h.0)
            ∙ ap (λ u. (day_text w k ++ written (map to_line (e ∷ es))) ++ u) written-nil
            ∙ append-nil _
            ∙ ap (λ j. day_text w j ++ written (map to_line (e ∷ es))) same_day)
      by_day (inr other) = rw other refl

  -- A flush writes the lines of the buffer behind those of their days.
  pub day_text-flush_lines :
      (w : DeviceWriter) (force : Bool) (now later : ℕ) (day : Text)
      → day_text (flush_lines disk_ok w force now later) day
        ≡ day_text w day ++ written (lines_for day w.buffer)
  unfolding flush_lines lines_for clean_text get
  day_text-flush_lines w force now later day =
      day_text-write_days (group_from day_of [] w.buffer) w day
        (Distinct-group_from day_of w.buffer [] tt) (IsFilled-group_from w.buffer [] tt)
      ∙ ap (λ es. day_text w day ++ written (map to_line es))
          (get-group_from day_of day w.buffer [])
