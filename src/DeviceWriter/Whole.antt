-- ===== src/DeviceWriter/Whole.antt =====
-- One write of sylo/receiver/device_writer.py to a file whose last line may be torn.
use sylo.Base.{
  ◌≡◌, refl, sym, ap, ◌∙◌, ◌⊎◌, inl, inr, Bool-cases, Bool, true, not, List, [], ◌∷◌, ◌++◌,
  append_assoc, some, if◌then◌else◌,
}
use sylo.Text.{Bytes, Text}
use sylo.Text.Utf8.{encode, encode_one}
use sylo.Dict.{get, get-set, text_eq_refl}
use sylo.Rebuild.Lines.{join_lines}
use sylo.DeviceWriter.{
  DeviceWriter, ends_line, ensure_clean_tail, join_newline, or_empty, write_sync, member,
  write_path,
}

ends_line-newline : (f : Bytes) → ends_line (f ++ b'\n' ∷ []) ≡ true
unfolding ends_line
ends_line-newline [] = refl
ends_line-newline (c ∷ []) = refl
ends_line-newline (c ∷ d ∷ cs) = ends_line-newline (d ∷ cs)

pub encode-append : (s t : Text) → encode (s ++ t) ≡ encode s ++ encode t
unfolding encode
encode-append [] t = refl
encode-append (c ∷ cs) t =
    ap (λ u. encode_one c ++ u) (encode-append cs t)
    ∙ sym (append_assoc (encode_one c) (encode cs) (encode t))

encode-newline : encode (b'\n' ∷ []) ≡ b'\n' ∷ []
unfolding encode encode_one
encode-newline = refl

-- What a write appends is whole lines: the file ends in a newline behind it.
ends_line-write_sync :
    (f : Bytes) (lines : List Text) (s : Bool) → ends_line (write_sync f lines s) ≡ true
unfolding write_sync
ends_line-write_sync f lines s =
    ap (λ u. ends_line (before ++ u))
      (encode-append (join_newline lines) (b'\n' ∷ [])
        ∙ ap (λ u. encode (join_newline lines) ++ u) encode-newline)
    ∙ ap ends_line (sym (append_assoc before (encode (join_newline lines)) (b'\n' ∷ [])))
    ∙ ends_line-newline (before ++ encode (join_newline lines))
  where
    before : Bytes
    before = if s then ensure_clean_tail f else f

pub join_newline-newline :
    (l : Text) (ls : List Text) → join_newline (l ∷ ls) ++ b'\n' ∷ [] ≡ join_lines (l ∷ ls)
unfolding join_newline join_lines
join_newline-newline l [] = refl
join_newline-newline l (k ∷ ls) =
    append_assoc l (b'\n' ∷ join_newline (k ∷ ls)) (b'\n' ∷ [])
    ∙ ap (λ t. l ++ b'\n' ∷ t) (join_newline-newline k ls)

-- The files that the process has written to end in a newline.
pub record IsWhole (w : DeviceWriter) : Type 0 where
  pub whole :
      (path : Text)
      → member path w.sanitized_paths ≡ true
      → ends_line (or_empty (get path w.files)) ≡ true

module _ (disk_ok : Text → Bool) where
  -- If the files that the process has written to end in a newline, a write to a file appends the
  -- lines, each with its newline, to whole lines: to what the file holds or, where its last line was
  -- torn, to that with a newline behind it.
  pub write_path-separate :
      (w : DeviceWriter) (path l : Text) (ls : List Text)
      → IsWhole w
      → (g : Bytes) × (ends_line g ≡ true)
        × ((g ≡ or_empty (get path w.files)) ⊎ (g ≡ or_empty (get path w.files) ++ b'\n' ∷ []))
        × (get path (write_path disk_ok w path (l ∷ ls)).files
            ≡ some (g ++ encode (join_lines (l ∷ ls))))
  unfolding write_sync ensure_clean_tail
  write_path-separate w path l ls h = elim (Bool-cases (member path w.sanitized_paths)) [
    | inl known ↦ (old, h.whole path known, inl refl, written old (rw known refl))
    | inr new ↦ elim (Bool-cases (ends_line old)) [
      | inl whole ↦ (old, whole, inl refl, written old (rw new (rw whole refl)))
      | inr torn ↦ (
        old ++ b'\n' ∷ [],
        ends_line-newline old,
        inr refl,
        written (old ++ b'\n' ∷ []) (rw new (rw torn refl)),
      )
    ]
  ]
    where
      old : Bytes
      old = or_empty (get path w.files)

      sanitize : Bool
      sanitize = not (member path w.sanitized_paths)

      written :
          (g : Bytes)
          → (if sanitize then ensure_clean_tail old else old) ≡ g
          → get path (write_path disk_ok w path (l ∷ ls)).files
            ≡ some (g ++ encode (join_lines (l ∷ ls)))
      written g k =
          get-set path path (write_sync old (l ∷ ls) sanitize) w.files
          ∙ rw (text_eq_refl path) (
              ap some (
                ap (λ u. u ++ encode (join_newline (l ∷ ls) ++ b'\n' ∷ [])) k
                ∙ ap (λ t. g ++ encode t) (join_newline-newline l ls)))
