-- ===== src/AppDb/Tables.antt =====
-- The tables of sylo/webapp/appdb.py keep their keys under each statement, and what each statement
-- does to the number of active administrators.
use sylo.Base.{
  ℕ, ◌+◌, ◌≡◌, refl, Bool, true, false, not, ◌||◌, inl, inr, List, [], ◌∷◌, ◌++◌, map, some, arith,
  if◌then◌else◌, find, keep, count, has, Bool-cases,
}
use sylo.AppDb.{AppDb, User, SessionRow, named, with_id, of_user, with_token, is_active_admin}

-- No two rows agree under a test.
abbrev pub Unique : {A : Type 0} → (A → A → Bool) → List A → Type 0
Unique same [] = Unit
Unique same (x ∷ xs) = (has (same x) xs ≡ false) × Unique same xs

abbrev pub same_id : User → User → Bool
same_id u = with_id u.id

abbrev pub same_name : User → User → Bool
same_name u = named u.username

abbrev pub same_token : SessionRow → SessionRow → Bool
same_token s = with_token s.token

-- Every session belongs to a user that is there.
abbrev pub Owned : List User → List SessionRow → Type 0
Owned us [] = Unit
Owned us (s ∷ ss) = (has (with_id s.user_id) us ≡ true) × Owned us ss

-- The primary keys, the unique user names and the foreign key.
pub record Keyed (db : AppDb) : Type 0 where
  pub ids : Unique same_id db.users
  pub names : Unique same_name db.users
  pub tokens : Unique same_token db.sessions
  pub owners : Owned db.users db.sessions

-- The updates of one column, which leave the keys alone.
abbrev pub deactivate : ℕ → User → User
deactivate id u = if with_id id u then record u { is_active = false } else u

map-absent : (id : ℕ) (us : List User) → has (with_id id) us ≡ false → map (deactivate id) us ≡ us
map-absent id [] h = refl
map-absent id (u ∷ us) h = ground (arith, map-absent id us)

-- Deactivating a user lowers the number of active administrators by one if it was one of them, and
-- not otherwise.
pub count-deactivate :
    (id : ℕ) (us : List User) (u : User)
    → Unique same_id us
    → find (with_id id) us ≡ some u
    → count is_active_admin (map (deactivate id) us) + (if is_active_admin u then 1 else 0)
      ≡ count is_active_admin us
count-deactivate id [] u k h = cc
count-deactivate id (v ∷ us) u k h = elim (Bool-cases (with_id id v)) [
  | inl here ↦ ground (arith, map-absent id us)
  | inr later ↦ ground (arith, count-deactivate id us u)
]

module _ {A : Type 0} where
  pub has-append : (p : A → Bool) (xs : List A) (x : A) → has p (xs ++ x ∷ []) ≡ (has p xs || p x)
  has-append p [] x = ground arith
  has-append p (y ∷ xs) x = ground (arith, has-append p xs x)

  pub has-map :
      (p : A → Bool) (f : A → A) (xs : List A)
      → ((x : A) → p (f x) ≡ p x)
      → has p (map f xs) ≡ has p xs
  has-map p f [] h = refl
  has-map p f (x ∷ xs) h = ground (arith, has-map p f xs h, h x)

  -- Rows that pass no longer pass for having been dropped only if the test said so.
  has-keep-false : (p q : A → Bool) (xs : List A) → has p xs ≡ false → has p (keep q xs) ≡ false
  has-keep-false p q [] h = refl
  has-keep-false p q (x ∷ xs) h = ground (arith, has-keep-false p q xs)

  pub has-keep-true :
      (p q : A → Bool) (xs : List A)
      → ((x : A) → p x ≡ true → q x ≡ true)
      → has p xs ≡ true
      → has p (keep q xs) ≡ true
  has-keep-true p q [] h k = k
  has-keep-true p q (x ∷ xs) h k = ground (arith, has-keep-true p q xs h, h x)

  pub Unique-append :
      (same : A → A → Bool) (xs : List A) (x : A)
      → has (λ y. same y x) xs ≡ false
      → Unique same xs
      → Unique same (xs ++ x ∷ [])
  Unique-append same [] x h k = (refl, tt)
  Unique-append same (y ∷ xs) x h k =
      (ground (arith, has-append (same y) xs x), Unique-append same xs x (ground arith) k.1)

  pub Unique-map :
      (same : A → A → Bool) (f : A → A) (xs : List A)
      → ((x y : A) → same (f x) (f y) ≡ same x y)
      → Unique same xs
      → Unique same (map f xs)
  Unique-map same f [] h k = tt
  Unique-map same f (x ∷ xs) h k = (has-same x xs k.0, Unique-map same f xs h k.1)
    where
      has-same :
          (x : A) (ys : List A) → has (same x) ys ≡ false → has (same (f x)) (map f ys) ≡ false
      has-same x [] e = refl
      has-same x (y ∷ ys) e = ground (arith, has-same x ys, h x y)

  pub Unique-keep :
      (same : A → A → Bool) (q : A → Bool) (xs : List A) → Unique same xs → Unique same (keep q xs)
  Unique-keep same q [] k = tt
  Unique-keep same q (x ∷ xs) k = elim (Bool-cases (q x)) [
    | inl kept ↦ rw kept (has-keep-false (same x) q xs k.0, Unique-keep same q xs k.1)
    | inr dropped ↦ rw dropped (Unique-keep same q xs k.1)
  ]

module _ (us vs : List User)
    (more : (j : ℕ) → has (with_id j) us ≡ true → has (with_id j) vs ≡ true) where
  pub Owned-mono : (ss : List SessionRow) → Owned us ss → Owned vs ss
  Owned-mono [] h = tt
  Owned-mono (s ∷ ss) h = (more s.user_id h.0, Owned-mono ss h.1)

pub Owned-append :
    (us : List User) (ss : List SessionRow) (s : SessionRow)
    → has (with_id s.user_id) us ≡ true
    → Owned us ss
    → Owned us (ss ++ s ∷ [])
Owned-append us [] s h k = (h, tt)
Owned-append us (t ∷ ss) s h k = (k.0, Owned-append us ss s h k.1)

pub Owned-keep :
    (us : List User) (q : SessionRow → Bool) (ss : List SessionRow)
    → Owned us ss
    → Owned us (keep q ss)
Owned-keep us q [] h = tt
Owned-keep us q (s ∷ ss) h = elim (Bool-cases (q s)) [
  | inl kept ↦ rw kept (h.0, Owned-keep us q ss h.1)
  | inr dropped ↦ rw dropped (Owned-keep us q ss h.1)
]

-- With the sessions of one user gone, that user can go.
pub Owned-delete :
    (id : ℕ) (us : List User) (ss : List SessionRow)
    → Owned us ss
    → Owned (keep (λ u. not (with_id id u)) us) (keep (λ s. not (of_user id s)) ss)
Owned-delete id us [] h = tt
Owned-delete id us (s ∷ ss) h = elim (Bool-cases (of_user id s)) [
  | inl own ↦ rw own (Owned-delete id us ss h.1)
  | inr other ↦ rw other (
    has-keep-true (with_id s.user_id) (λ u. not (with_id id u)) us (λ u e. ground arith) h.0,
    Owned-delete id us ss h.1,
  )
]
