-- ===== src/Parser/Runs.antt =====
-- The matches of sylo/parser.py's patterns on longest runs, and what `_parse_syslog` does behind a
-- valid priority.
use sylo.Base.{
  ℕ, zero, suc, ◌≤◌, ◌≡◌, ◌≢◌, refl, ap, Bool, true, false, [], ◌∷◌, ◌++◌, some, arith, all, length,
}
use sylo.Text.{Bytes}
use sylo.Parser.Patterns.{nonempty, is_graph, span, span_max, field, match_5424}
use sylo.Parser.Priority.{render_pri, split_pri-render}
use sylo.Parser.{Pri, try_5424, or_malformed, split_pri, inner_parse_syslog, parse_syslog}

-- A longest run ends at the first byte outside the class.
pub span-append :
    (p : ℕ → Bool) (run : Bytes) (c : ℕ) (rest : Bytes)
    → all p run ≡ true
    → p c ≡ false
    → span p (run ++ c ∷ rest) ≡ (run, c ∷ rest)
unfolding span
span-append p [] c rest h k = rw k
span-append p (d ∷ run) c rest h k = ground (arith, span-append p run c rest)

pub span_max-append :
    (p : ℕ → Bool) (n : ℕ) (run : Bytes) (c : ℕ) (rest : Bytes)
    → length run ≤ n
    → all p run ≡ true
    → p c ≡ false
    → span_max p n (run ++ c ∷ rest) ≡ (run, c ∷ rest)
unfolding span_max
span_max-append p zero [] c rest l h k = refl
span_max-append p zero (d ∷ run) c rest l h k = absurd (omega arith)
span_max-append p (suc n) [] c rest l h k = rw k
span_max-append p (suc n) (d ∷ run) c rest l h k =
    ground (arith, span_max-append p n run c rest (omega arith))

-- A run of bytes that is neither empty nor broken by white space.
pub record IsField (run : Bytes) : Type 0 where
  pub graph : all is_graph run ≡ true
  pub filled : run ≢ []

pub field-append : (run rest : Bytes) → IsField run → field (run ++ b' ' ∷ rest) ≡ some (run, rest)
field-append [] rest h = absurd (h.filled refl)
field-append (c ∷ run) rest h =
    unfold field in rw (span-append is_graph (c ∷ run) b' ' rest h.graph refl)

pub nonempty-of : (run rest : Bytes) → run ≢ [] → nonempty (run, rest) ≡ some (run, rest)
nonempty-of [] rest h = absurd (h refl)
nonempty-of (c ∷ run) rest h = refl

render_pri-ne-nil : (f s : ℕ) (rest : Bytes) → render_pri f s ++ rest ≢ []
unfolding render_pri
render_pri-ne-nil f s rest e = cc

-- What `_parse_syslog` does once the priority is known.
pub inner_parse_syslog-split :
    (raw : Bytes) (p : Pri)
    → raw ≢ []
    → split_pri raw ≡ some p
    → inner_parse_syslog raw ≡ some (try_5424 p (match_5424 p.rest))
unfolding inner_parse_syslog
inner_parse_syslog-split [] p ne e = absurd (ne refl)
inner_parse_syslog-split (c ∷ cs) p ne e = rw e

-- Behind a valid priority the headers decide.
pub of_priority :
    (f s : ℕ) (rest : Bytes)
    → f ≤ 23
    → s ≤ 7
    → let p : Pri = record { facility = some f; severity = some s; rest = rest } in
      parse_syslog (render_pri f s ++ rest) ≡ try_5424 p (match_5424 rest)
unfolding parse_syslog
of_priority f s rest hf hs =
    ap (or_malformed _)
      (inner_parse_syslog-split _ _ (render_pri-ne-nil f s rest) (split_pri-render f s rest hf hs))
