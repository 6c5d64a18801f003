-- ===== src/AppDb/Keys.antt =====
-- Every statement of sylo/webapp/appdb.py that writes keeps the keys of the tables.
use sylo.Base.{
  ℕ, ◌≤◌, ◌≡◌, refl, subst, ◌∙◌, Bool, true, false, inl, inr, List, [], ◌∷◌, ◌++◌, map, some, arith,
  ◌==◌, keep, has, Bool-cases,
}
use sylo.Text.{Text, text_eq, text_eq_iff}
use sylo.AppDb.Tables.{
  Keyed, same_id, same_name, same_token, has-append, has-map, Unique-append, Unique-map,
  Unique-keep, Owned-mono, Owned-keep, Owned-append, Owned-delete,
}
use sylo.AppDb.{
  AppDb, User, SessionRow, named, with_id, with_token, next_id, new_user, new_session, create_user,
  set_user_password, set_user_active, delete_sessions_for_user, delete_user, create_session,
  delete_session, purge_expired_sessions,
}

-- The id of a new row is larger than every id of the table.
next_id-fresh : (us : List User) (n : ℕ) → next_id us ≤ n → has (λ u. u.id == n) us ≡ false
unfolding next_id
next_id-fresh [] n h = refl
next_id-fresh (u ∷ us) n h = ground (arith, next_id-fresh us n)

fresh_ids :
    (us : List User) (n : ℕ) → has (λ u. u.id == n) us ≡ false → has (λ u. n == u.id) us ≡ false
fresh_ids [] n h = refl
fresh_ids (u ∷ us) n h = ground (arith, fresh_ids us n)

fresh_names :
    (us : List User) (name : Text)
    → has (named name) us ≡ false
    → has (λ u. text_eq name u.username) us ≡ false
fresh_names [] name h = refl
fresh_names (u ∷ us) name h =
    ground (arith, fresh_names us name, text_eq_iff u.username name, text_eq_iff name u.username)

fresh_tokens :
    (ss : List SessionRow) (token : Text)
    → has (with_token token) ss ≡ false
    → has (λ s. text_eq token s.token) ss ≡ false
fresh_tokens [] token h = refl
fresh_tokens (s ∷ ss) token h =
    ground (arith, fresh_tokens ss token, text_eq_iff s.token token, text_eq_iff token s.token)

pub create_user-Keyed :
    (db db' : AppDb) (id : ℕ) (username hash role : Text) (now : ℕ)
    → create_user db username hash role now ≡ some (id, db')
    → Keyed db
    → Keyed db'
unfolding create_user
create_user-Keyed db db' id username hash role now h k =
    elim (Bool-cases (has (named username) db.users)) [
      | inl taken ↦ cc (rw taken at h)
      | inr free ↦ subst Keyed (ground arith) (added free)
    ]
  where
    u : User
    u = new_user db.users username hash role now

    added : has (named username) db.users ≡ false → Keyed (record db { users = db.users ++ u ∷ [] })
    added free = record {
      ids =
          Unique-append same_id db.users u
            (fresh_ids db.users _ (next_id-fresh db.users _ (omega arith))) k.ids;
      names = Unique-append same_name db.users u (fresh_names db.users username free) k.names;
      tokens = k.tokens;
      owners =
          Owned-mono db.users (db.users ++ u ∷ [])
            (λ j e. ground (arith, has-append (with_id j) db.users u)) db.sessions k.owners;
    }

-- An update of a column that is no key.
update-Keyed :
    (f : User → User) (db : AppDb)
    → ((u : User) → (f u).id ≡ u.id)
    → ((u : User) → (f u).username ≡ u.username)
    → Keyed db
    → Keyed (record db { users = map f db.users })
update-Keyed f db hid hname k = record {
  ids = Unique-map same_id f db.users (λ u v. ground (arith, hid u, hid v)) k.ids;
  names = Unique-map same_name f db.users (λ u v. ground (arith, hname u, hname v)) k.names;
  tokens = k.tokens;
  owners =
      Owned-mono db.users (map f db.users)
        (λ j e. has-map (with_id j) f db.users (λ u. ground (arith, hid u)) ∙ e) db.sessions
        k.owners;
}

module _ (db : AppDb) (k : Keyed db) where
  pub set_user_password-Keyed : (id : ℕ) (hash : Text) → Keyed (set_user_password db id hash)
  unfolding set_user_password
  set_user_password-Keyed id hash = update-Keyed _ db (λ u. ground arith) (λ u. ground arith) k

  pub set_user_active-Keyed : (id : ℕ) (active : Bool) → Keyed (set_user_active db id active)
  unfolding set_user_active
  set_user_active-Keyed id active = update-Keyed _ db (λ u. ground arith) (λ u. ground arith) k

  keep-Keyed : (q : SessionRow → Bool) → Keyed (record db { sessions = keep q db.sessions })
  keep-Keyed q = record {
    ids = k.ids;
    names = k.names;
    tokens = Unique-keep same_token q db.sessions k.tokens;
    owners = Owned-keep db.users q db.sessions k.owners;
  }

  pub delete_sessions_for_user-Keyed : (id : ℕ) → Keyed (delete_sessions_for_user db id)
  unfolding delete_sessions_for_user
  delete_sessions_for_user-Keyed id = keep-Keyed _

  pub delete_session-Keyed : (token : Text) → Keyed (delete_session db token)
  unfolding delete_session
  delete_session-Keyed token = keep-Keyed _

  pub purge_expired_sessions-Keyed : (now : ℕ) → Keyed (purge_expired_sessions db now)
  unfolding purge_expired_sessions
  purge_expired_sessions-Keyed now = keep-Keyed _

  pub delete_user-Keyed : (id : ℕ) → Keyed (delete_user db id)
  unfolding delete_user
  delete_user-Keyed id = record {
    ids = Unique-keep same_id _ db.users k.ids;
    names = Unique-keep same_name _ db.users k.names;
    tokens = Unique-keep same_token _ db.sessions k.tokens;
    owners = Owned-delete id db.users db.sessions k.owners;
  }

  pub create_session-Keyed :
      (db' : AppDb) (token : Text) (user_id : ℕ) (csrf_token : Text) (expires_at now : ℕ)
      → create_session db token user_id csrf_token expires_at now ≡ some db'
      → Keyed db'
  unfolding create_session
  create_session-Keyed db' token user_id csrf_token expires_at now h =
      elim (Bool-cases (has (with_token token) db.sessions)) [
        | inl taken ↦ cc (rw taken at h)
        | inr free ↦ elim (Bool-cases (has (with_id user_id) db.users)) [
          | inr nobody ↦ cc (rw (free, nobody) at h)
          | inl owner ↦ subst Keyed (ground arith) (added free owner)
        ]
      ]
    where
      s : SessionRow
      s = new_session token user_id csrf_token expires_at now

      added :
          has (with_token token) db.sessions ≡ false
          → has (with_id user_id) db.users ≡ true
          → Keyed (record db { sessions = db.sessions ++ s ∷ [] })
      added free owner = record {
        ids = k.ids;
        names = k.names;
        tokens =
            Unique-append same_token db.sessions s (fresh_tokens db.sessions token free) k.tokens;
        owners = Owned-append db.users db.sessions s owner k.owners;
      }
