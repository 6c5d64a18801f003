-- ===== src/Retention/Gone.antt =====
-- What the deletions of sylo/retention/core.py leave of the files that they name: nothing.
use sylo.Base.{
  ℕ, ◌+◌, ◌≡◌, refl, sym, ap, ◌∙◌, Bool, true, false, not, ◌&&◌, Bool-cases, inl, inr, List, [],
  ◌∷◌, Option, none, some, ◌>>=◌, >>=-eq-some, arith, if◌then◌else◌, if_elim, keep, has,
}
use sylo.Text.{Text, text_eq, text_eq_iff}
use sylo.Dict.{text_eq_refl}
use sylo.Retention.Delete.{exists, unlink, unlink_each}

has-unlink :
    (p : Text → Bool) (name : Text) (files : List Text)
    → has p files ≡ false
    → has p (unlink name files) ≡ false
unfolding unlink
has-unlink p name [] h = refl
has-unlink p name (n ∷ ns) h =
    let rest : has p (unlink name ns) ≡ false = has-unlink p name ns (ground arith) in
    if_elim (λ fs. has p fs ≡ false) (text_eq n name) rest (ground arith)

-- What is not there does not come back.
pub has-unlink_each :
    (p locked : Text → Bool) (names files : List Text)
    → has p files ≡ false
    → has p (unlink_each locked names files).0 ≡ false
unfolding unlink_each
has-unlink_each p locked [] files h = h
has-unlink_each p locked (name ∷ names) files h = elim (Bool-cases (exists name files)) [
  | inr missing ↦ rw missing (has-unlink_each p locked names files h)
  | inl there ↦ elim (Bool-cases (locked name)) [
    | inl stuck ↦ rw (there, stuck) h
    | inr free ↦
        rw (there, free)
          (has-unlink_each p locked names (unlink name files) (has-unlink p name files h))
  ]
]

exists-has : (name : Text) (files : List Text) → has (λ n. text_eq name n) files ≡ exists name files
unfolding exists
exists-has name [] = refl
exists-has name (n ∷ ns) =
    ground (arith, exists-has name ns, text_eq_iff n name, text_eq_iff name n)

exists-unlink : (name : Text) (files : List Text) → exists name (unlink name files) ≡ false
unfolding exists unlink
exists-unlink name [] = refl
exists-unlink name (n ∷ ns) = ground (arith, exists-unlink name ns)

has-false : (files : List Text) → has (λ n. exists n []) files ≡ false
unfolding exists
has-false [] = refl
has-false (n ∷ ns) = has-false ns

has-cons :
    (name : Text) (names files : List Text)
    → exists name files ≡ false
    → has (λ n. exists n names) files ≡ false
    → has (λ n. exists n (name ∷ names)) files ≡ false
unfolding exists
has-cons name names [] h k = refl
has-cons name names (n ∷ ns) h k =
    let other : text_eq name n ≡ false = ground (arith, text_eq_iff n name, text_eq_iff name n) in
    let free : exists n names ≡ false = ground arith in
    rw (other, free) (has-cons name names ns (ground arith) (ground arith))

exists-unlink_each :
    (locked : Text → Bool) (name : Text) (names files : List Text)
    → exists name files ≡ false
    → exists name (unlink_each locked names files).0 ≡ false
exists-unlink_each locked name names files h =
    sym (exists-has name (unlink_each locked names files).0)
    ∙ has-unlink_each (λ n. text_eq name n) locked names files (exists-has name files ∙ h)

-- When all of them could be unlinked, none of the names is there.
pub unlink_each-gone :
    (locked : Text → Bool) (names files : List Text) (k : ℕ)
    → (unlink_each locked names files).1 ≡ some k
    → has (λ n. exists n names) (unlink_each locked names files).0 ≡ false
unfolding unlink_each
unlink_each-gone locked [] files k h = has-false files
unlink_each-gone locked (name ∷ names) files k h = elim (Bool-cases (exists name files)) [
  | inr missing ↦ rw missing (
      has-cons name names skipped.0 (exists-unlink_each locked name names files missing) (
        unlink_each-gone locked names files k
          (sym (ap (λ b. (if not b then skipped else unlinked).1) missing) ∙ h)))
  | inl there ↦ elim (Bool-cases (locked name)) [
    | inl stuck ↦
        let e : kept.1 ≡ some k =
          sym (
            ap (λ b. (if not b then skipped else unlinked).1) there
            ∙ ap (λ b. (if b then kept else removed).1) stuck)
          ∙ h in
        cc
    | inr free ↦
        let (d, counted, e) =
          >>=-eq-some after.1 (λ n. some (n + 1))
            (sym (
                ap (λ b. (if not b then skipped else unlinked).1) there
                ∙ ap (λ b. (if b then kept else removed).1) free)
              ∙ h) in
        rw (there, free)
          (has-cons name names after.0
            (exists-unlink_each locked name names (unlink name files) (exists-unlink name files))
            (unlink_each-gone locked names (unlink name files) d counted))
  ]
]
  where
    skipped : List Text × Option ℕ
    skipped = unlink_each locked names files

    after : List Text × Option ℕ
    after = unlink_each locked names (unlink name files)

    kept : List Text × Option ℕ
    kept = (files, none)

    removed : List Text × Option ℕ
    removed = (after.0, after.1 >>= (λ n. some (n + 1)))

    unlinked : List Text × Option ℕ
    unlinked = if locked name then kept else removed

covered_cons :
    (q : Text → Bool) (z : Text) (ys files : List Text)
    → has (λ n. q n && not (exists n ys)) files ≡ false
    → has (λ n. q n && not (exists n (z ∷ ys))) files ≡ false
unfolding exists
covered_cons q z ys [] h = refl
covered_cons q z ys (n ∷ ns) h =
    let later : has (λ n. q n && not (exists n (z ∷ ys))) ns ≡ false =
      covered_cons q z ys ns (ground arith) in
    let here : (q n && not (if text_eq z n then true else exists n ys)) ≡ false = ground arith in
    rw here later

covered :
    (q : Text → Bool) (files : List Text)
    → has (λ n. q n && not (exists n (keep q files))) files ≡ false
unfolding exists
covered q [] = refl
covered q (n ∷ ns) = elim (Bool-cases (q n)) [
  | inl passed ↦
      kept (n ∷ keep q ns) (rw passed refl)
        (rw (passed, text_eq_refl n) (covered_cons q n (keep q ns) ns (covered q ns)))
  | inr failed ↦ kept (keep q ns) (rw failed refl) (rw failed (covered q ns))
]
  where
    kept :
        (names : List Text)
        → keep q (n ∷ ns) ≡ names
        → has (λ m. q m && not (exists m names)) (n ∷ ns) ≡ false
        → has (λ m. q m && not (exists m (keep q (n ∷ ns)))) (n ∷ ns) ≡ false
    kept names e h = ap (λ ms. has (λ m. q m && not (exists m ms)) (n ∷ ns)) e ∙ h

has_covered :
    (p q : Text → Bool) (files : List Text)
    → has p files ≡ false
    → has (λ n. q n && not (p n)) files ≡ false
    → has q files ≡ false
has_covered p q [] h k = refl
has_covered p q (n ∷ ns) h k =
    let later : has q ns ≡ false = has_covered p q ns (ground arith) (ground arith) in
    let here : q n ≡ false = ground arith in rw here later

-- When all the files that pass a test could be unlinked, no file passes it.
pub unlink_each-keep_gone :
    (locked q : Text → Bool) (files : List Text) (k : ℕ)
    → (unlink_each locked (keep q files) files).1 ≡ some k
    → has q (unlink_each locked (keep q files) files).0 ≡ false
unlink_each-keep_gone locked q files k h =
    has_covered (λ n. exists n (keep q files)) q (unlink_each locked (keep q files) files).0
      (unlink_each-gone locked (keep q files) files k h)
      (has-unlink_each (λ n. q n && not (exists n (keep q files))) locked (keep q files) files
        (covered q files))
