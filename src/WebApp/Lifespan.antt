-- ===== src/WebApp/Lifespan.antt =====
-- The first and the later starts of the application (sylo/webapp/app.py, sylo/webapp/auth.py).
use sylo.Base.{
  ℕ, ◌<◌, ◌≡◌, refl, sym, ap, ◌∙◌, true, [], ◌∷◌, Option, none, some, ◌>>=◌, arith, ltb,
  length-append,
}
use sylo.Text.{Bytes, Text}
use sylo.AppDb.{AppDb, new_user, init_db, count_users, create_user, admin}
use sylo.Auth.{Bcrypt, hash_password, initial_or, ensure_default_admin, authenticate}
use sylo.Auth.Lifecycle.{authenticate-create_user}
use sylo.WebApp.{lifespan}

count_users-init_db : (db : AppDb) → count_users (init_db db) ≡ count_users db
unfolding count_users init_db
count_users-init_db db = ground arith

count_users-create_user :
    (db db' : AppDb) (username hash role : Text) (now id : ℕ)
    → create_user db username hash role now ≡ some (id, db')
    → 0 < count_users db'
unfolding create_user count_users
count_users-create_user db db' username hash role now id h =
    ground (arith, length-append db.users (new_user db.users username hash role now ∷ []))

-- The password that the first administrator gets, and the one that is logged: the configured one,
-- which is not logged, or, where none or an empty one is configured, the random token.
abbrev pub IsInitial : Text → Option Text → Text → Option Text → Type 0
IsInitial token none password logged = (password ≡ token) × (logged ≡ some token)
IsInitial token (some []) password logged = (password ≡ token) × (logged ≡ some token)
IsInitial token (some (c ∷ cs)) password logged = (password ≡ c ∷ cs) × (logged ≡ none)

initial_or_lem :
    (bcrypt : Bcrypt) (token : Text) (initial : Option Text) {password : Text}
    {logged : Option Text}
    → IsInitial token initial password logged
    → ((initial_or bcrypt initial token).0 ≡ password)
      × ((initial_or bcrypt initial token).1 ≡ logged)
initial_or_lem bcrypt token none (p, l) = (sym p, sym l)
initial_or_lem bcrypt token (some []) (p, l) = (sym p, sym l)
initial_or_lem bcrypt token (some (c ∷ cs)) (p, l) = (sym p, sym l)

abbrev with_password : Option Text → Option (ℕ × AppDb) → Option (Option Text × AppDb)
with_password logged o = do (_, made) ← o; some (logged, made)

-- The two steps of the bootstrap, where neither raises.
created :
    (logged : Option Text) (o : Option (ℕ × AppDb)) {generated : Option Text} {db' : AppDb}
    → with_password logged o ≡ some (generated, db')
    → (id : ℕ) × (o ≡ some (id, db')) × (generated ≡ logged)
created logged none h = cc
created logged (some (id, made)) h = (id, ground arith, ground arith)

hashed :
    (logged : Option Text) (hash : Option Text) (create : Text → Option (ℕ × AppDb))
    {generated : Option Text} {db' : AppDb}
    → (hash >>= λ h. with_password logged (create h)) ≡ some (generated, db')
    → (t : Text) × (id : ℕ) × (hash ≡ some t) × (create t ≡ some (id, db')) × (generated ≡ logged)
hashed logged none create h = cc
hashed logged (some t) create h =
    let (id, made, same) = created logged (create t) h in (t, id, refl, made, same)

module _ (bcrypt : Bcrypt) (db db' : AppDb) (initial generated : Option Text) (token : Text)
    (salt : Bytes) (now : ℕ)
    (started : lifespan bcrypt db initial token salt now ≡ some (generated, db'))
    (no_users : count_users db ≡ 0) where
  first_start :
      (hash : Text) × (id : ℕ) × (hash_password bcrypt (initial_or bcrypt initial token).0 salt
        ≡ some hash)
      × (create_user (init_db db) admin hash admin now ≡ some (id, db'))
      × (generated ≡ (initial_or bcrypt initial token).1)
  unfolding lifespan ensure_default_admin
  first_start =
      hashed (initial_or bcrypt initial token).1
        (hash_password bcrypt (initial_or bcrypt initial token).0 salt)
        (λ h. create_user (init_db db) admin h admin now)
        (rw (count_users-init_db db ∙ no_users) at started)

  -- If the application starts over a database without users, the administrator can then log in with
  -- the configured password, and none is logged, or, where none or an empty one is configured, with
  -- the random token, and that is logged; and a later start, whatever password it is given, adds no
  -- user and logs none.
  pub lifespan-admin :
      (password : Text) (logged : Option Text) (other : Bytes) (initial' : Option Text)
      (token' : Text) (salt' : Bytes) (later : ℕ)
      → IsInitial token initial password logged
      → ((id : ℕ) × (authenticate bcrypt db' admin password other ≡ some (some id)))
        × (generated ≡ logged)
        × (lifespan bcrypt db' initial' token' salt' later ≡ some (none, init_db db'))
  unfolding lifespan ensure_default_admin
  lifespan-admin password logged other initial' token' salt' later initially =
      let (hash, id, hashed_to, made, shown) = first_start in
      let (same, same_logged) = initial_or_lem bcrypt token initial initially in
      (
        (
          id,
          authenticate-create_user bcrypt (init_db db) db' id admin password admin hash salt other
              now (ap (λ p. hash_password bcrypt p salt) (sym same) ∙ hashed_to) made,
        ),
        shown ∙ same_logged,
        rw
            (ltb_of (count_users (init_db db')) (
              omega (
                arith,
                count_users-init_db db',
                count_users-create_user (init_db db) db' admin hash admin now id made,
              )))
            refl,
      )
    where
      ltb_of : (n : ℕ) → 0 < n → ltb 0 n ≡ true
      ltb_of n h = ground arith
