-- ===== src/RateLimiter/Lockout.antt =====
-- When `LoginRateLimiter` of sylo/webapp/auth.py locks a client out, and when it does not.
use sylo.Base.{
  ℕ, ◌+◌, ◌≤◌, ◌<◌, ◌≡◌, ◌≢◌, refl, ap, ◌∙◌, true, false, List, [], ◌∷◌, ◌++◌, Option, none, some,
  arith, ltb, leb, length, length-append, keep,
}
use sylo.Text.{Text, text_eq_iff}
use sylo.Dict.{Dict, get, set, dict_laws, get-set, get-pop}
use sylo.RateLimiter.{
  LoginRateLimiter, locked_at, is_locked, or_empty, recent, record_failure, record_success,
}

-- The attempts that are held against a client.
unfoldable pub held : LoginRateLimiter → Text → List ℕ
held l key = or_empty (get key l.attempts)

-- Failures one after the other, at these times.
unfoldable pub failures : LoginRateLimiter → Text → List ℕ → LoginRateLimiter
failures l key [] = l
failures l key (t ∷ ts) = failures (record_failure l key t) key ts

-- Every time of the list, with the window added, lies behind `limit`.
abbrev pub AllSoon : ℕ → ℕ → List ℕ → Type 0
AllSoon window now [] = Unit
AllSoon window now (t ∷ ts) = (now < t + window) × AllSoon window now ts

-- Every time of the list is within the window of each earlier one.
abbrev pub Within : ℕ → List ℕ → List ℕ → Type 0
Within window earlier [] = Unit
Within window earlier (t ∷ ts) = AllSoon window t earlier × Within window (earlier ++ t ∷ []) ts

keep-AllSoon :
    (window now : ℕ) (ts : List ℕ)
    → AllSoon window now ts
    → keep (λ t. ltb now (t + window)) ts ≡ ts
keep-AllSoon window now [] h = refl
keep-AllSoon window now (t ∷ ts) h = ground (arith, keep-AllSoon window now ts)

length-keep-le :
    (window now : ℕ) (ts : List ℕ) → length (keep (λ t. ltb now (t + window)) ts) ≤ length ts
length-keep-le window now [] = omega arith
length-keep-le window now (t ∷ ts) = ground (arith, length-keep-le window now ts)

module _ (l : LoginRateLimiter) (key : Text) (now : ℕ) where
  -- A failure that does not reach the limit is kept, and locks nobody out.
  pub failure_below :
      leb l.max_attempts (length (recent l key now)) ≡ false
      → record_failure l key now ≡ record l { attempts = set key (recent l key now) l.attempts }
  unfolding record_failure
  failure_below h = rw h

  -- The failure that reaches the limit locks the client out.
  failure_at_limit :
      leb l.max_attempts (length (recent l key now)) ≡ true
      → record_failure l key now ≡ record l {
        locked_until = set key (now + l.lockout_seconds) l.locked_until;
        attempts = set key [] l.attempts;
      }
  unfolding record_failure
  failure_at_limit h = rw h

  recent-held :
      AllSoon l.window_seconds now (held l key) → recent l key now ≡ held l key ++ now ∷ []
  unfolding held
  recent-held h = ap (λ ts. ts ++ now ∷ []) (keep-AllSoon l.window_seconds now _ h)

  pub length-recent-le : length (recent l key now) ≤ length (held l key) + 1
  unfolding held
  length-recent-le = omega (
    arith,
    length-append (keep (λ t. ltb now (t + l.window_seconds)) (or_empty (get key l.attempts)))
        (now ∷ []),
    length-keep-le l.window_seconds now (or_empty (get key l.attempts)),
  )

  pub held-set : (ts : List ℕ) → held (record l { attempts = set key ts l.attempts }) key ≡ ts
  unfolding held
  held-set ts = simp dict_laws

  is_locked-set :
      (until : ℕ) (d : Dict (List ℕ))
      → (is_locked
          (record l { locked_until = set key until l.locked_until; attempts = d })
          key
          now).0
        ≡ ltb now until
  unfolding is_locked
  is_locked-set until d = simp dict_laws (ground arith)

pub record_failure_others :
    (l : LoginRateLimiter) (key other : Text) (t now : ℕ)
    → key ≢ other
    → (is_locked (record_failure l key t) other now).0 ≡ (is_locked l other now).0
unfolding record_failure is_locked
record_failure_others l key other t now ne =
    ground (arith, get-set other key (t + l.lockout_seconds) l.locked_until, text_eq_iff key other)

pub record_success_others :
    (l : LoginRateLimiter) (key other : Text) (now : ℕ)
    → key ≢ other
    → (is_locked (record_success l key) other now).0 ≡ (is_locked l other now).0
unfolding record_success is_locked
record_success_others l key other now ne =
    ground (arith, get-pop other key l.locked_until, text_eq_iff key other)

-- A check of one client's lock leaves every other client's lock as it was.
pub is_locked_others :
    (l : LoginRateLimiter) (key other : Text) (t now : ℕ)
    → key ≢ other
    → (is_locked (is_locked l key t).1 other now).0 ≡ (is_locked l other now).0
unfolding is_locked
is_locked_others l key other t now ne = by_entry (get key l.locked_until)
  where
    by_entry :
        (o : Option ℕ) → (is_locked (locked_at l key t o).1 other now).0 ≡ (is_locked l other now).0
    by_entry none = refl
    by_entry (some until) = ground (arith, get-pop other key l.locked_until, text_eq_iff key other)

-- A check that finds the lock leaves everything as it was.
pub is_locked_same :
    (l : LoginRateLimiter) (key : Text) (now : ℕ)
    → (is_locked l key now).0 ≡ true
    → is_locked l key now ≡ (true, l)
unfolding is_locked
is_locked_same l key now h = by_entry (get key l.locked_until) h
  where
    by_entry : (o : Option ℕ) → (locked_at l key now o).0 ≡ true → locked_at l key now o ≡ (true, l)
    by_entry none h = cc
    by_entry (some until) h = ground arith

recent-eq :
    (l : LoginRateLimiter) (key : Text) (now : ℕ) (earlier : List ℕ)
    → held l key ≡ earlier
    → AllSoon l.window_seconds now earlier
    → recent l key now ≡ earlier ++ now ∷ []
recent-eq l key now earlier h soon = recent-held l key now (rw h soon) ∙ ap (λ ts. ts ++ now ∷ []) h

-- Failures of one client, each within the window of every earlier one, those held against it
-- included, lock it out with the one that makes the number of attempts allowed, for exactly the
-- lockout time from that failure on.
pub failures-lock :
    (l : LoginRateLimiter) (key : Text) (earlier ts : List ℕ) (last now : ℕ)
    → held l key ≡ earlier
    → Within l.window_seconds earlier (ts ++ last ∷ [])
    → length earlier + length ts + 1 ≡ l.max_attempts
    → (is_locked (failures l key (ts ++ last ∷ [])) key now).0 ≡ ltb now (last + l.lockout_seconds)
unfolding failures
failures-lock l key earlier [] last now h w n =
    let e = recent-eq l key last earlier h w.0 in
    let reached : leb l.max_attempts (length (recent l key last)) ≡ true =
      rw e (ground (arith, length-append earlier (last ∷ []))) in
    ap (λ m. (is_locked m key now).0) (failure_at_limit l key last reached)
    ∙ is_locked-set l key now (last + l.lockout_seconds) _
failures-lock l key earlier (t ∷ ts) last now h w n =
    let e = recent-eq l key t earlier h w.0 in
    let below : leb l.max_attempts (length (recent l key t)) ≡ false =
      rw e (ground (arith, length-append earlier (t ∷ []))) in
    ap (λ m. (is_locked (failures m key (ts ++ last ∷ [])) key now).0) (failure_below l key t below)
    ∙ failures-lock (record l { attempts = set key (recent l key t) l.attempts }) key
        (earlier ++ t ∷ []) ts last now (held-set l key t (recent l key t) ∙ e) w.1
        (omega (arith, length-append earlier (t ∷ [])))

-- A client with no lock and fewer failures than the attempts allowed, those held against it
-- included, is not locked out, however close together they are.
pub failures-no_lock :
    (l : LoginRateLimiter) (key : Text) (ts : List ℕ) (now : ℕ)
    → get key l.locked_until ≡ none
    → length (held l key) + length ts < l.max_attempts
    → (is_locked (failures l key ts) key now).0 ≡ false
unfolding failures
failures-no_lock l key [] now h n = unfold is_locked in rw h
failures-no_lock l key (t ∷ ts) now h n =
    let below : leb l.max_attempts (length (recent l key t)) ≡ false =
      ground (arith, length-recent-le l key t) in
    ap (λ m. (is_locked (failures m key ts) key now).0) (failure_below l key t below)
    ∙ failures-no_lock (record l { attempts = set key (recent l key t) l.attempts }) key ts now h
        (omega (arith, ap length (held-set l key t (recent l key t)), length-recent-le l key t))

-- Failures of one client leave every other client as it was.
pub failures-others :
    (l : LoginRateLimiter) (key other : Text) (ts : List ℕ) (now : ℕ)
    → key ≢ other
    → (is_locked (failures l key ts) other now).0 ≡ (is_locked l other now).0
unfolding failures
failures-others l key other [] now ne = refl
failures-others l key other (t ∷ ts) now ne =
    failures-others (record_failure l key t) key other ts now ne
    ∙ record_failure_others l key other t now ne
