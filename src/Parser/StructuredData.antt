-- ===== src/Parser/StructuredData.antt =====
-- `_split_structured_data` of sylo/parser.py, against the grammar of RFC 5424 section 6.3.
use sylo.Base.{
  ℕ, zero, suc, ◌≤◌, ◌<◌, ◌≡◌, refl, sym, ap, ◌∙◌, inl, inr, Bool, true, not, ◌||◌, List, [], ◌∷◌,
  ◌++◌, append_assoc, Option, none, some, arith, ◌==◌, if◌then◌else◌, all, length, length-append,
  Bool-cases, >>=-eq-some,
}
use sylo.Text.{Bytes}
use sylo.Parser.{
  Quotes, outside, inside, escaped, scan_element, scan_elements, drop_space, fuel, or_all,
  split_structured_data,
}

-- One SD-PARAM; the value may hold any bytes.
pub record Param : Type 0 where
  pub name : Bytes
  pub value : Bytes

-- One SD-ELEMENT.
pub record Element : Type 0 where
  pub id : Bytes
  pub params : List Param

-- In a PARAM-VALUE the quote, the backslash and the closing bracket are escaped.
abbrev needs_escape : ℕ → Bool
needs_escape c = c == b'"' || c == b'\\' || c == b']'

unfoldable pub escape : Bytes → Bytes
escape [] = []
escape (c ∷ cs) = if needs_escape c then b'\\' ∷ c ∷ escape cs else c ∷ escape cs

unfoldable pub render_params : List Param → Bytes → Bytes
render_params [] rest = rest
render_params (p ∷ ps) rest =
    b' ' ∷ (p.name ++ b'=' ∷ b'"' ∷ (escape p.value ++ b'"' ∷ render_params ps rest))

unfoldable pub render_elements : List Element → Bytes → Bytes
render_elements [] rest = rest
render_elements (e ∷ es) rest =
    b'[' ∷ (e.id ++ render_params e.params (b']' ∷ render_elements es rest))

-- An SD-NAME has no quote and no closing bracket.
abbrev is_name_byte : ℕ → Bool
is_name_byte c = not (c == b'"' || c == b']')

abbrev pub AllNamed : List Param → Type 0
AllNamed [] = Unit
AllNamed (p ∷ ps) = (all is_name_byte p.name ≡ true) × AllNamed ps

abbrev pub WellFormed : List Element → Type 0
WellFormed [] = Unit
WellFormed (e ∷ es) = (all is_name_byte e.id ≡ true) × AllNamed e.params × WellFormed es

scan-name :
    (name rest : Bytes)
    → all is_name_byte name ≡ true
    → scan_element outside (name ++ rest) ≡ scan_element outside rest
unfolding scan_element
scan-name [] rest h = refl
scan-name (c ∷ cs) rest h = ground (arith, scan-name cs rest)

scan-escape : (v rest : Bytes) → scan_element inside (escape v ++ rest) ≡ scan_element inside rest
unfolding scan_element escape
scan-escape [] rest = refl
scan-escape (c ∷ cs) rest = ground (arith, scan-escape cs rest)

scan-params :
    (ps : List Param) (rest : Bytes)
    → AllNamed ps
    → scan_element outside (render_params ps (b']' ∷ rest)) ≡ some rest
unfolding scan_element render_params
scan-params [] rest h = refl
scan-params (p ∷ ps) rest h =
    scan-name p.name (b'=' ∷ b'"' ∷ (escape p.value ++ b'"' ∷ render_params ps (b']' ∷ rest))) h.0
    ∙ scan-escape p.value (b'"' ∷ render_params ps (b']' ∷ rest))
    ∙ scan-params ps rest h.1

-- A rendered element is scanned to its end.
scan_elements-cons :
    (n : ℕ) (e : Element) (rest : Bytes)
    → all is_name_byte e.id ≡ true
    → AllNamed e.params
    → scan_elements (suc n) (b'[' ∷ (e.id ++ render_params e.params (b']' ∷ rest)))
      ≡ scan_elements n rest
unfolding scan_elements
scan_elements-cons n e rest h k =
    rw (scan-name e.id (render_params e.params (b']' ∷ rest)) h, scan-params e.params rest k)

length-render_params :
    (ps : List Param) (rest : Bytes) → length rest ≤ length (render_params ps rest)
unfolding render_params
length-render_params [] rest = omega arith
length-render_params (p ∷ ps) rest = omega (
  arith,
  length-append p.name (b'=' ∷ b'"' ∷ (escape p.value ++ b'"' ∷ render_params ps rest)),
  length-append (escape p.value) (b'"' ∷ render_params ps rest),
  length-render_params ps rest,
)

length-render_elements :
    (es : List Element) (rest : Bytes) → length es ≤ length (render_elements es rest)
unfolding render_elements
length-render_elements [] rest = omega arith
length-render_elements (e ∷ es) rest = omega (
  arith,
  length-append e.id (render_params e.params (b']' ∷ render_elements es rest)),
  length-render_params e.params (b']' ∷ render_elements es rest),
  length-render_elements es rest,
)

-- Behind the rendered elements the outer loop ends, where no element follows.
scan_elements-render :
    (n : ℕ) (es : List Element) (rest : Bytes)
    → ((k : ℕ) → scan_elements (suc k) rest ≡ some rest)
    → WellFormed es
    → length es < n
    → scan_elements n (render_elements es rest) ≡ some rest
unfolding render_elements
scan_elements-render zero es rest ends h k = absurd (omega arith)
scan_elements-render (suc n) [] rest ends h k = ends n
scan_elements-render (suc n) (e ∷ es) rest ends h k =
    scan_elements-cons n e (render_elements es rest) h.0 h.1
    ∙ scan_elements-render n es rest ends h.2 (omega arith)

fuel-length : (cs : Bytes) → fuel cs ≡ suc (length cs)
fuel-length [] = refl
fuel-length (c ∷ cs) = ap suc (fuel-length cs)

pub split-elements :
    (e : Element) (es : List Element) (rest : Bytes)
    → ((k : ℕ) → scan_elements (suc k) rest ≡ some rest)
    → WellFormed (e ∷ es)
    → split_structured_data (render_elements (e ∷ es) rest) ≡ drop_space rest
unfolding split_structured_data render_elements
split-elements e es rest ends h =
    let all_bytes = render_elements (e ∷ es) rest in
    ap (or_all all_bytes) (
      scan_elements-render (fuel all_bytes) (e ∷ es) rest ends h
        (omega (arith, fuel-length all_bytes, length-render_elements (e ∷ es) rest)))

-- Whatever ids, names and values the elements have, quoted and escaped by the rules, the split
-- returns exactly the message behind them.
pub split_structured_data-render :
    (e : Element) (es : List Element) (message : Bytes)
    → WellFormed (e ∷ es)
    → split_structured_data (render_elements (e ∷ es) (b' ' ∷ message)) ≡ message
unfolding drop_space scan_elements
split_structured_data-render e es message h = split-elements e es (b' ' ∷ message) (λ k. refl) h

-- What the scans leave is the end of what they read.
scan_element-suffix :
    (q : Quotes) (cs rest : Bytes)
    → scan_element q cs ≡ some rest
    → (read : Bytes) × (cs ≡ read ++ rest)
unfolding scan_element
scan_element-suffix outside [] rest h = cc
scan_element-suffix inside [] rest h = cc
scan_element-suffix escaped [] rest h = cc
scan_element-suffix escaped (c ∷ cs) rest h =
    let (read, e) = scan_element-suffix inside cs rest h in (c ∷ read, ap (◌∷◌ c) e)
scan_element-suffix inside (c ∷ cs) rest h =
    let (read, e) = scan_element-suffix _ cs rest h in (c ∷ read, ap (◌∷◌ c) e)
scan_element-suffix outside (c ∷ cs) rest h = elim (Bool-cases (c == b']')) [
  | inl closing ↦ (c ∷ [], ground arith)
  | inr other ↦
      let (read, e) =
        scan_element-suffix (if c == b'"' then inside else outside) cs rest (rw other at h) in
      (c ∷ read, ap (◌∷◌ c) e)
]

abbrev IsSuffix : Bytes → Bytes → Type 0
IsSuffix rest cs = (read : Bytes) × (cs ≡ read ++ rest)

scan_elements-suffix : (n : ℕ) (cs rest : Bytes) → scan_elements n cs ≡ some rest → IsSuffix rest cs
unfolding scan_elements
scan_elements-suffix zero cs rest h = ([], ground arith)
scan_elements-suffix (suc n) [] rest h = ([], ground arith)
scan_elements-suffix (suc n) (c ∷ cs) rest h = elim (Bool-cases (c == b'[')) [
  | inl bracket ↦
      let (mid, closed, later) =
        >>=-eq-some (scan_element outside cs) (scan_elements n) (rw bracket at h) in
      let (first, e) = scan_element-suffix outside cs mid closed in
      let (second, f) = scan_elements-suffix n mid rest later in
      (
        c ∷ (first ++ second),
        ap (◌∷◌ c) (e ∙ ap (◌++◌ first) f ∙ sym (append_assoc first second rest)),
      )
  | inr other ↦ ([], ground arith)
]

drop_space-suffix : (cs : Bytes) → IsSuffix (drop_space cs) cs
unfolding drop_space
drop_space-suffix [] = ([], refl)
drop_space-suffix (c ∷ cs) = elim (Bool-cases (c == b' ')) [
  | inl space ↦ (c ∷ [], rw space)
  | inr other ↦ ([], rw other)
]

-- Nothing is invented: the result is always the end of the bytes given, and all of them where the
-- structured data is not well formed or not terminated.
pub split_structured_data-suffix : (cs : Bytes) → IsSuffix (split_structured_data cs) cs
unfolding split_structured_data
split_structured_data-suffix [] = ([], refl)
split_structured_data-suffix (c ∷ cs) = elim (Bool-cases (c == b'-')) [
  | inl nil ↦ let (read, e) = drop_space-suffix cs in (c ∷ read, rw nil (ap (◌∷◌ c) e))
  | inr more ↦ elim (Bool-cases (c == b'[')) [
    | inr plain ↦ ([], rw (more, plain))
    | inl bracket ↦ rw (more, bracket) (of_scan (scan_elements (fuel (c ∷ cs)) (c ∷ cs)) refl)
  ]
]
  where
    of_scan :
        (o : Option Bytes)
        → scan_elements (fuel (c ∷ cs)) (c ∷ cs) ≡ o
        → IsSuffix (or_all (c ∷ cs) o) (c ∷ cs)
    of_scan none e = ([], refl)
    of_scan (some rest) e =
        let (first, f) = scan_elements-suffix (fuel (c ∷ cs)) (c ∷ cs) rest e in
        let (second, g) = drop_space-suffix rest in
        (first ++ second, f ∙ ap (◌++◌ first) g ∙ sym (append_assoc first second (drop_space rest)))
