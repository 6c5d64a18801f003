-- ===== src/Parser/Outcome.antt =====
-- What `parse_syslog` of sylo/parser.py returns for any bytes at all.
use sylo.Base.{ℕ, ◌≤◌, ◌≡◌, refl, ap, ◌∙◌, true, [], ◌∷◌, Option, none, some}
use sylo.Text.{Bytes}
use sylo.Parser.Patterns.{match_5424, match_3164, match_tag, Header5424}
use sylo.Parser.Priority.{split_pri-Splits, Splits, split, whole}
use sylo.Parser.{ParsedFields, Pri, of_3164, try_5424, try_3164, inner_parse_syslog, parse_syslog}

-- Whatever the bytes, `_parse_syslog` returns: the handler in `parse_syslog` is never reached.
pub inner_parse_syslog-total : (raw : Bytes) → inner_parse_syslog raw ≡ some (parse_syslog raw)
unfolding inner_parse_syslog parse_syslog
inner_parse_syslog-total [] = refl
inner_parse_syslog-total (c ∷ cs) = let (p, e, _) = split_pri-Splits (c ∷ cs) in rw e

-- Facility and severity come together: both are absent and the message is malformed, or the
-- facility is at most 23 and the severity at most 7.
pub data Ranged (fields : ParsedFields) : Type 0 where
  absent : fields.facility ≡ none → fields.severity ≡ none → fields.malformed ≡ true → Ranged fields
  present :
      (facility severity : ℕ)
      → fields.facility ≡ some facility
      → fields.severity ≡ some severity
      → facility ≤ 23
      → severity ≤ 7
      → Ranged fields

-- The fields that come from the priority.
abbrev Carries : Pri → ParsedFields → Type 0
Carries p fields =
    (fields.facility ≡ p.facility)
    × (fields.severity ≡ p.severity)
    × (p.facility ≡ none → fields.malformed ≡ true)

of_3164-Carries :
    (p : Pri) (host remainder : Bytes) (m : Option (Bytes × Bytes))
    → Carries p (of_3164 p host remainder m)
of_3164-Carries p host remainder none = (refl, refl, λ e. rw e)
of_3164-Carries p host remainder (some (tag, msg)) = (refl, refl, λ e. rw e)

try_3164-Carries : (p : Pri) (m : Option (Bytes × Bytes)) → Carries p (try_3164 p m)
try_3164-Carries p none = (refl, refl, λ e. refl)
try_3164-Carries p (some (host, remainder)) = of_3164-Carries p host remainder (match_tag remainder)

try_5424-Carries : (p : Pri) (m : Option Header5424) → Carries p (try_5424 p m)
try_5424-Carries p (some m) = (refl, refl, λ e. rw e)
try_5424-Carries p none = try_3164-Carries p (match_3164 p.rest)

Carries-Ranged :
    {raw : Bytes} {p : Pri} {fields : ParsedFields}
    → Splits raw p
    → Carries p fields
    → Ranged fields
Carries-Ranged (whole e) c =
    absent (c.0 ∙ ap (λ (q : Pri). q.facility) e) (c.1 ∙ ap (λ (q : Pri). q.severity) e)
      (c.2 (ap (λ (q : Pri). q.facility) e))
Carries-Ranged (split _ _ f s _ _ _ _ hf hs e) c =
    present f s (c.0 ∙ ap (λ (q : Pri). q.facility) e) (c.1 ∙ ap (λ (q : Pri). q.severity) e) hf hs

-- Every result of `parse_syslog`, on any bytes, has its facility and severity in range, or neither
-- and the malformed flag.
pub parse_syslog-Ranged : (raw : Bytes) → Ranged (parse_syslog raw)
parse_syslog-Ranged [] = unfold parse_syslog inner_parse_syslog in absent refl refl refl
parse_syslog-Ranged (c ∷ cs) =
    let (p, e, how) = split_pri-Splits (c ∷ cs) in
    unfold parse_syslog inner_parse_syslog in
    rw e (Carries-Ranged how (try_5424-Carries p (match_5424 p.rest)))
