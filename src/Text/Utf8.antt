-- ===== src/Text/Utf8.antt =====
-- `bytes.decode("utf-8", errors="replace")` and `str.encode("utf-8")`. A malformed sequence is
-- replaced by one U+FFFD for its longest well-formed beginning, as CPython does.
use sylo.Base.{
  ℕ, zero, suc, ◌+◌, ◌-◌, ◌*◌, ◌/◌, ◌%◌, ◌<◌, ◌≤◌, ◌≡◌, refl, sym, ap, ◌∙◌, ◌⊎◌, inl, inr, ◌&&◌,
  List, [], ◌∷◌, ◌++◌, append-nil, append_assoc, arith, ◌==◌, ltb, leb, if◌then◌else◌,
}

-- What has been read of a sequence: nothing, or a value with the number of continuation bytes still
-- to come (less one) and the bounds of the next.
pub data Partial : Type 0 where
  idle : Partial
  more : ℕ → ℕ → ℕ → ℕ → Partial

abbrev pub replacement : ℕ
replacement = 0xfffd

-- A byte that begins a sequence: what it emits, and what then is pending.
unfoldable pub start : ℕ → List ℕ × Partial
start c =
    if ltb c 0x80
    then (c ∷ [], idle)
    else if ltb c 0xc2
    then (replacement ∷ [], idle)
    else if ltb c 0xe0
    then ([], more (c - 0xc0) 0 0x80 0xbf)
    else if ltb c 0xf0
    then (
      [],
      more (c - 0xe0) 1 (if c == 0xe0 then 0xa0 else 0x80) (if c == 0xed then 0x9f else 0xbf),
    )
    else if ltb c 0xf5
    then (
      [],
      more (c - 0xf0) 2 (if c == 0xf0 then 0x90 else 0x80) (if c == 0xf4 then 0x8f else 0xbf),
    )
    else (replacement ∷ [], idle)

-- A continuation byte in its bounds.
abbrev extend : ℕ → ℕ → List ℕ × Partial
extend v zero = (v ∷ [], idle)
extend v (suc n) = ([], more v n 0x80 0xbf)

unfoldable pub feed : Partial → ℕ → List ℕ × Partial
unfolding start
feed idle c = start c
feed (more v n lo hi) c =
    if leb lo c && leb c hi
    then extend (v * 64 + (c - 0x80)) n
    else (replacement ∷ (start c).0, (start c).1)

unfoldable pub decode_from : Partial → List ℕ → List ℕ
unfolding feed
decode_from idle [] = []
decode_from (more v n lo hi) [] = replacement ∷ []
decode_from p (c ∷ cs) = let (out, q) = feed p c in out ++ decode_from q cs

unfoldable pub decode : List ℕ → List ℕ
unfolding decode_from
decode = decode_from idle

-- One code point in its shortest form.
unfoldable pub encode_one : ℕ → List ℕ
encode_one c =
    if ltb c 0x80
    then c ∷ []
    else if ltb c 0x800
    then (0xc0 + c / 64) ∷ (0x80 + c % 64) ∷ []
    else if ltb c 0x10000
    then (0xe0 + c / 4096) ∷ (0x80 + c / 64 % 64) ∷ (0x80 + c % 64) ∷ []
    else (0xf0 + c / 262144) ∷ (0x80 + c / 4096 % 64) ∷ (0x80 + c / 64 % 64) ∷ (0x80 + c % 64) ∷ []

unfoldable pub encode : List ℕ → List ℕ
unfolding encode_one
encode [] = []
encode (c ∷ cs) = encode_one c ++ encode cs

-- A Unicode scalar value: a code point that is no surrogate.
abbrev pub IsScalar : ℕ → Type 0
IsScalar c = (c < 0xd800) ⊎ ((0xe000 ≤ c) × (c < 0x110000))

abbrev pub AllScalar : List ℕ → Type 0
AllScalar [] = Unit
AllScalar (c ∷ cs) = IsScalar c × AllScalar cs

module _ (c : ℕ) where
  start_two : 0xc2 ≤ c → c < 0xe0 → start c ≡ ([], more (c - 0xc0) 0 0x80 0xbf)
  unfolding start
  start_two h k = ground arith

  start_three :
      (lo hi : ℕ)
      → 0xe0 ≤ c
      → c < 0xf0
      → lo ≡ (if c == 0xe0 then 0xa0 else 0x80)
      → hi ≡ (if c == 0xed then 0x9f else 0xbf)
      → start c ≡ ([], more (c - 0xe0) 1 lo hi)
  unfolding start
  start_three lo hi h k p q = ground arith

  start_four :
      (lo hi : ℕ)
      → 0xf0 ≤ c
      → c < 0xf5
      → lo ≡ (if c == 0xf0 then 0x90 else 0x80)
      → hi ≡ (if c == 0xf4 then 0x8f else 0xbf)
      → start c ≡ ([], more (c - 0xf0) 2 lo hi)
  unfolding start
  start_four lo hi h k p q = ground arith

  feed-more :
      (v n lo hi : ℕ) → lo ≤ c → c ≤ hi → feed (more v n lo hi) c ≡ extend (v * 64 + (c - 0x80)) n
  unfolding feed
  feed-more v n lo hi h k = ground arith

-- One byte of a sequence, with what it emits.
decode_from-cons :
    (p : Partial) (c : ℕ) (cs : List ℕ)
    → decode_from p (c ∷ cs) ≡ (feed p c).0 ++ decode_from (feed p c).1 cs
unfolding decode_from
decode_from-cons idle c cs = refl
decode_from-cons (more v n lo hi) c cs = refl

feed-idle : (c : ℕ) → feed idle c ≡ start c
unfolding feed
feed-idle c = refl

-- A last continuation byte, and one before it.
decode_last :
    (v lo hi c : ℕ) (rest : List ℕ)
    → lo ≤ c
    → c ≤ hi
    → decode_from (more v 0 lo hi) (c ∷ rest) ≡ (v * 64 + (c - 0x80)) ∷ decode_from idle rest
decode_last v lo hi c rest h k = rw (decode_from-cons, feed-more c v 0 lo hi h k)

decode_inner :
    (v n lo hi c : ℕ) (rest : List ℕ)
    → lo ≤ c
    → c ≤ hi
    → decode_from (more v (suc n) lo hi) (c ∷ rest)
      ≡ decode_from (more (v * 64 + (c - 0x80)) n 0x80 0xbf) rest
decode_inner v n lo hi c rest h k = rw (decode_from-cons, feed-more c v (suc n) lo hi h k)

decode_lead :
    (c v n lo hi : ℕ) (rest : List ℕ)
    → start c ≡ ([], more v n lo hi)
    → decode_from idle (c ∷ rest) ≡ decode_from (more v n lo hi) rest
decode_lead c v n lo hi rest e = rw (decode_from-cons, feed-idle, e)

decode_two :
    (c : ℕ) (rest : List ℕ)
    → 0x80 ≤ c
    → c < 0x800
    → decode_from idle ((0xc0 + c / 64) ∷ (0x80 + c % 64) ∷ rest) ≡ c ∷ decode_from idle rest
decode_two c rest h k =
    decode_lead _ _ _ _ _ _ (start_two _ (omega arith) (omega arith))
    ∙ decode_last _ _ _ _ rest (omega arith) (omega arith)
    ∙ ap (λ d. d ∷ decode_from idle rest) (omega arith)

-- The bounds of the second byte are those of a shortest form that is no surrogate.
second_of_three :
    (c : ℕ)
    → 0x800 ≤ c
    → c < 0x10000
    → IsScalar c
    → ((if (0xe0 + c / 4096) == 0xe0 then 0xa0 else 0x80) ≤ 0x80 + c / 64 % 64)
      × (0x80 + c / 64 % 64 ≤ (if (0xe0 + c / 4096) == 0xed then 0x9f else 0xbf))
second_of_three c h k s = ground arith

second_of_four :
    (c : ℕ)
    → 0x10000 ≤ c
    → c < 0x110000
    → ((if (0xf0 + c / 262144) == 0xf0 then 0x90 else 0x80) ≤ 0x80 + c / 4096 % 64)
      × (0x80 + c / 4096 % 64 ≤ (if (0xf0 + c / 262144) == 0xf4 then 0x8f else 0xbf))
second_of_four c h k = ground arith

decode_three :
    (c : ℕ) (rest : List ℕ)
    → 0x800 ≤ c
    → c < 0x10000
    → IsScalar c
    → decode_from idle ((0xe0 + c / 4096) ∷ (0x80 + c / 64 % 64) ∷ (0x80 + c % 64) ∷ rest)
      ≡ c ∷ decode_from idle rest
decode_three c rest h k s =
    let bounds = second_of_three c h k s in
    decode_lead _ _ _ _ _ _ (start_three _ _ _ (omega arith) (omega arith) refl refl)
    ∙ decode_inner _ 0 _ _ _ _ bounds.0 bounds.1
    ∙ decode_last _ _ _ _ rest (omega arith) (omega arith)
    ∙ ap (λ d. d ∷ decode_from idle rest) (omega arith)

decode_four :
    (c : ℕ) (rest : List ℕ)
    → 0x10000 ≤ c
    → c < 0x110000
    → decode_from idle (
        (0xf0 + c / 262144)
        ∷ (0x80 + c / 4096 % 64)
        ∷ (0x80 + c / 64 % 64)
        ∷ (0x80 + c % 64)
        ∷ rest)
      ≡ c ∷ decode_from idle rest
decode_four c rest h k =
    let bounds = second_of_four c h k in
    decode_lead _ _ _ _ _ _ (start_four _ _ _ (omega arith) (omega arith) refl refl)
    ∙ decode_inner _ 1 _ _ _ _ bounds.0 bounds.1
    ∙ decode_inner _ 0 _ _ _ _ (omega arith) (omega arith)
    ∙ decode_last _ _ _ _ rest (omega arith) (omega arith)
    ∙ ap (λ d. d ∷ decode_from idle rest) (omega arith)

-- By the length of the shortest form.
size_cases :
    (c : ℕ)
    → IsScalar c
    → (c < 0x80)
      ⊎ ((0x80 ≤ c) × (c < 0x800))
      ⊎ ((0x800 ≤ c) × (c < 0x10000))
      ⊎ ((0x10000 ≤ c) × (c < 0x110000))
size_cases c s = grind arith

pub decode_from-encode_one :
    (c : ℕ) (rest : List ℕ)
    → IsScalar c
    → decode_from idle (encode_one c ++ rest) ≡ c ∷ decode_from idle rest
decode_from-encode_one c rest s = elim (size_cases c s) [
  | inl h ↦ unfold encode_one decode_from feed start in ground arith
  | inr (inl (h, k)) ↦ unfold encode_one in ground (arith, decode_two c rest h k)
  | inr (inr (inl (h, k))) ↦ unfold encode_one in ground (arith, decode_three c rest h k s)
  | inr (inr (inr (h, k))) ↦ unfold encode_one in ground (arith, decode_four c rest h k)
]

pub decode_from-encode :
    (cs rest : List ℕ)
    → AllScalar cs
    → decode_from idle (encode cs ++ rest) ≡ cs ++ decode_from idle rest
unfolding encode
decode_from-encode [] rest h = refl
decode_from-encode (c ∷ cs) rest h =
    rw append_assoc (
      decode_from-encode_one c (encode cs ++ rest) h.0
      ∙ ap (◌∷◌ c) (decode_from-encode cs rest h.1))

-- Decoding what was encoded gives the text back.
pub decode-encode : (cs : List ℕ) → AllScalar cs → decode (encode cs) ≡ cs
unfolding decode
decode-encode cs h =
    ap (decode_from idle) (sym (append-nil (encode cs)))
    ∙ decode_from-encode cs [] h
    ∙ append-nil cs
