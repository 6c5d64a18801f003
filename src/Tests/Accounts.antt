-- ===== src/Tests/Accounts.antt =====
-- A database with one administrator, one viewer and a session, and a rate limiter, for the accounts
-- of sylo/webapp.
use sylo.Base.{
  ℕ, ◌+◌, ◌≡◌, ◌≢◌, inl, inr, refl, ap, true, false, List, [], ◌∷◌, Option, some, arith, ltb, none,
  ◌++◌,
}
use sylo.Text.{Bytes, Text, text_eq, text_eq_iff, codes}
use sylo.Text.Utf8.{decode, encode, encode_one}
use sylo.Dict.{get, text_eq_refl}
use sylo.AppDb
use sylo.AppDb.{AppDb, User, SessionRow, admin, viewer}
use sylo.Auth
use sylo.Auth.{
  Bcrypt, Session, hash_password, ensure_default_admin, authenticate, authenticate_row, get_session,
}
use sylo.Auth.Created.{get_session-create_session}
use sylo.Auth.Lifecycle.{IsLive, get_session-IsLive}
use sylo.UserRoutes.{Request, deactivates, deletes, serve}
use sylo.UserRoutes.Managed.{IsManaged}
use sylo.UserRoutes.Invariant.{serve-IsManaged}
use sylo.RateLimiter.{LoginRateLimiter, is_locked}
use sylo.LoginRoutes.{Login, submit_all}
use sylo.LoginRoutes.Guessing.{EachRefused, login_submit-guessed}
use sylo.WebApp.{lifespan}
use sylo.WebApp.Lifespan.{lifespan-admin}
use sylo.RateLimiter.Lockout.{failures, held, failures-lock, failures-no_lock}

-- A bcrypt that accepts the hash it makes.
abbrev hash : Bytes
hash = codes "$2b$"

ascii_hash : encode (decode hash) ≡ hash
unfolding encode encode_one decode
ascii_hash = refl

accepted : some (text_eq hash hash) ≡ some true
accepted = ap some (text_eq_refl hash)

abbrev bcrypt : Bcrypt
bcrypt = record {
  hashpw = λ p s. some hash;
  checkpw = λ p h. some (text_eq h hash);
  hash_text = λ p s h e. cc (e, ascii_hash);
  check_hash = λ p s h e. cc (e, accepted);
}

abbrev root : User
root = record {
  id = 1;
  username = codes "root";
  password_hash = hash;
  role = admin;
  is_active = true;
  created_at = 0;
}

abbrev guest : User
guest = record {
  id = 2;
  username = codes "guest";
  password_hash = hash;
  role = viewer;
  is_active = true;
  created_at = 0;
}

abbrev row : SessionRow
row = record {
  token = codes "t";
  user_id = 1;
  csrf_token = codes "c";
  created_at = 0;
  expires_at = 100;
}

abbrev db : AppDb
db = record { users = root ∷ guest ∷ []; sessions = row ∷ []; settings = [] }

db-IsManaged : IsManaged db
unfolding AppDb.count_active_admins text_eq
db-IsManaged = record {
  keyed = record {
    ids = (refl, (refl, tt));
    names = (refl, (refl, tt));
    tokens = (refl, tt);
    owners = (refl, tt);
  };
  managed = omega arith;
}

abbrev requests : List (Option Text × ℕ × Request)
requests =
    (some (codes "t"), 5, deactivates 1 (codes "c"))
    ∷ (some (codes "t"), 6, deactivates 2 (codes "c"))
    ∷ (some (codes "t"), 7, deletes 2 (codes "c"))
    ∷ []

serve-IsManaged_example : IsManaged (serve bcrypt [] requests db)
serve-IsManaged_example = serve-IsManaged bcrypt [] requests db db-IsManaged

abbrev session : Session
session = record {
  token = codes "t";
  user_id = 1;
  username = codes "root";
  csrf_token = codes "c";
  role = admin;
}

session_found : (get_session db (some (codes "t")) 5).0 ≡ some session
unfolding get_session AppDb.get_session AppDb.get_user_by_id text_eq
session_found = refl

get_session-IsLive_example : IsLive db 5 session × ((get_session db (some (codes "t")) 5).1 ≡ db)
get_session-IsLive_example = get_session-IsLive db (codes "t") 5 session session_found

session_kept :
    (get_session (AppDb.set_user_active db 2 false) (some (codes "t")) 5).0 ≡ some session
unfolding get_session AppDb.get_session AppDb.get_user_by_id AppDb.set_user_active text_eq
session_kept = refl

abbrev alice : User
alice = AppDb.new_user db.users (codes "alice") (decode hash) viewer 9

abbrev db_alice : AppDb
db_alice = record db { users = root ∷ guest ∷ alice ∷ [] }

alice_hash : hash_password bcrypt (codes "pw") [] ≡ some (decode hash)
unfolding hash_password
alice_hash = refl

alice_made : AppDb.create_user db (codes "alice") (decode hash) viewer 9 ≡ some (3, db_alice)
unfolding AppDb.create_user AppDb.next_id text_eq
alice_made = refl

abbrev limiter : LoginRateLimiter
limiter = record {
  max_attempts = 3;
  window_seconds = 300;
  lockout_seconds = 900;
  attempts = [];
  locked_until = [];
}

nothing_held : held limiter (codes "a") ≡ []
unfolding held get
nothing_held = refl

failures-lock_example :
    (is_locked (failures limiter (codes "a") (1 ∷ 2 ∷ 3 ∷ [])) (codes "a") 500).0
    ≡ ltb 500 (3 + 900)
failures-lock_example =
    failures-lock limiter (codes "a") [] (1 ∷ 2 ∷ []) 3 500 nothing_held
      (tt, ((omega arith, tt), ((omega arith, (omega arith, tt)), tt))) refl

failures-no_lock_example :
    (is_locked (failures limiter (codes "a") (1 ∷ 2 ∷ [])) (codes "a") 5).0 ≡ false
unfolding get
failures-no_lock_example =
    failures-no_lock limiter (codes "a") (1 ∷ 2 ∷ []) 5 refl (unfold held in omega arith)

abbrev first_of : Text → ℕ
first_of [] = 0
first_of (c ∷ cs) = c

differ : codes "a" ≢ codes "b"
differ h = omega (arith, ap first_of h)

abbrev guess_at : ℕ → Login
guess_at t = record {
  ip = codes "a";
  username = codes "nobody";
  password = codes "pw";
  next = none;
  salt = [];
  token = codes "new";
  csrf_token = codes "d";
  checked = t;
  failed = t;
  now = t;
}

guess_wrong : authenticate bcrypt db (codes "nobody") (codes "pw") [] ≡ some none
unfolding authenticate authenticate_row AppDb.get_user_by_username text_eq
guess_wrong = refl

abbrev guesses : List Login
guesses = guess_at 1 ∷ guess_at 2 ∷ []

nothing_locked : get (codes "a") limiter.locked_until ≡ none
unfolding get
nothing_locked = refl

abbrev tried_again : List Login
tried_again = guess_at 400 ∷ record (guess_at 450) { ip = codes "b" } ∷ guess_at 500 ∷ []

other_client : codes "b" ≢ codes "a"
unfolding text_eq
other_client h = let same = (text_eq_iff (codes "b") (codes "a")).1 h in cc

login_submit-guessed_example :
    let (l', db') = submit_all bcrypt [] 60 (guesses ++ guess_at 3 ∷ []) limiter db in
    (db' ≡ db) × EachRefused bcrypt [] 60 db (codes "a") tried_again l' db'
login_submit-guessed_example =
    login_submit-guessed bcrypt [] 60 db (codes "a") limiter guesses (guess_at 3) tried_again
      nothing_locked nothing_held
      ((refl, guess_wrong, (refl, guess_wrong, (refl, guess_wrong, tt))))
      (tt, ((omega arith, tt), ((omega arith, (omega arith, tt)), tt))) refl
      (inr (omega arith), (inl other_client, (inr (omega arith), tt)))

abbrev session_new : Session
session_new = record session { token = codes "n"; csrf_token = codes "d" }

abbrev db_session : AppDb
db_session = record db {
  sessions = row ∷ AppDb.new_session (codes "n") 1 (codes "d") (10 + 60) 10 ∷ [];
}

session_made :
    Auth.create_session db 60 1 (codes "n") (codes "d") 10 ≡ some (session_new, db_session)
unfolding Auth.create_session AppDb.create_session AppDb.get_user_by_id text_eq
session_made = refl

root_found : AppDb.get_user_by_id db 1 ≡ some root
unfolding AppDb.get_user_by_id
root_found = refl

get_session-create_session_example :
    get_session db_session (some (codes "n")) 20 ≡ (some session_new, db_session)
get_session-create_session_example =
    get_session-create_session db 60 1 b'n' [] (codes "d") 10 root db_session 20 session_new
      session_made root_found refl (omega arith)

abbrev first_admin : User
first_admin = AppDb.new_user [] admin (decode hash) admin 9

abbrev first_db : AppDb
first_db = record {
  users = first_admin ∷ [];
  sessions = [];
  settings = (AppDb.retention_days_key, AppDb.default_retention) ∷ [];
}

first_started :
    lifespan bcrypt AppDb.no_db none (codes "tok") [] 9 ≡ some (some (codes "tok"), first_db)
unfolding lifespan ensure_default_admin hash_password AppDb.init_db AppDb.create_user
    AppDb.count_users AppDb.next_id text_eq
first_started = refl

lifespan-admin_example :
    ((id : ℕ) × (authenticate bcrypt first_db admin (codes "tok") [] ≡ some (some id)))
    × (some (codes "tok") ≡ some (codes "tok"))
    × (lifespan bcrypt first_db (some (codes "new")) (codes "other") [] 99
        ≡ some (none, AppDb.init_db first_db))
unfolding AppDb.count_users
lifespan-admin_example =
    lifespan-admin bcrypt AppDb.no_db first_db none (some (codes "tok")) (codes "tok") [] 9
      first_started refl (codes "tok") (some (codes "tok")) [] (some (codes "new")) (codes "other")
      [] 99 (refl, refl)
