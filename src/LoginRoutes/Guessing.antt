-- ===== src/LoginRoutes/Guessing.antt =====
-- Guessing passwords at the login of sylo/webapp/routes/auth.py.
use sylo.Base.{
  ℕ, suc, ◌+◌, ◌≤◌, ◌⊎◌, inl, inr, Bool-cases, ◌<◌, ◌≡◌, ◌≢◌, refl, sym, ap, ◌∙◌, Bool, true, false,
  List, [], ◌∷◌, ◌++◌, map, Option, none, some, arith, leb, length, length-append,
}
use sylo.Text.{Text, text_eq, text_eq_iff}
use sylo.Dict.{get, set}
use sylo.AppDb.{AppDb}
use sylo.Auth.{Bcrypt, Session, authenticate}
use sylo.Deps.{error_page, bad_login, too_many_attempts}
use sylo.RateLimiter.{LoginRateLimiter, is_locked, recent, record_failure, record_success}
use sylo.RateLimiter.Lockout.{
  held, failures, Within, failures-lock, failure_below, held-set, length-recent-le,
  record_failure_others, record_success_others, is_locked_others, is_locked_same,
}
use sylo.LoginRoutes.{Login, logged_in, on_verdict, unless_locked, login_submit, submit_all}

abbrev pub failed_at : Login → ℕ
failed_at form = form.failed

same_or_other : (s t : Text) → (s ≡ t) ⊎ (s ≢ t)
same_or_other s t = elim (Bool-cases (text_eq s t)) [
  | inl same ↦ inl ((text_eq_iff s t).0 same)
  | inr other ↦ inr (λ h. let same = (text_eq_iff s t).1 h in cc)
]

module _ (bcrypt : Bcrypt) (prefix : Text) (ttl : ℕ) (db : AppDb) (ip : Text) where
  -- Forms of one client with names and passwords that do not fit.
  abbrev pub AllWrong : List Login → Type 0
  AllWrong [] = Unit
  AllWrong (form ∷ forms) =
      (form.ip ≡ ip)
      × (authenticate bcrypt db form.username form.password form.salt ≡ some none)
      × AllWrong forms

  login_submit-wrong :
      (form : Login) (l : LoginRateLimiter)
      → form.ip ≡ ip
      → authenticate bcrypt db form.username form.password form.salt ≡ some none
      → get ip l.locked_until ≡ none
      → login_submit bcrypt prefix ttl form l db
        ≡ (error_page 401 bad_login, record_failure l ip form.failed, db)
  unfolding login_submit is_locked
  login_submit-wrong form l same wrong free = rw same (rw free (rw wrong refl))

  -- As long as no failure but the last can reach the limit, each form is recorded as a failure.
  submit_all-failures :
      (forms : List Login) (l : LoginRateLimiter)
      → AllWrong forms
      → get ip l.locked_until ≡ none
      → length (held l ip) + length forms ≤ l.max_attempts
      → submit_all bcrypt prefix ttl forms l db ≡ (failures l ip (map failed_at forms), db)
  unfolding submit_all failures
  submit_all-failures [] l w free n = refl
  submit_all-failures (form ∷ []) l w free n = rw (login_submit-wrong form l w.0 w.1 free) refl
  submit_all-failures (form ∷ next ∷ forms) l w free n =
      let below : leb l.max_attempts (length (recent l ip form.failed)) ≡ false =
        ground (arith, length-recent-le l ip form.failed) in
      let kept = failure_below l ip form.failed below in
      rw (login_submit-wrong form l w.0 w.1 free) (
        ap (λ m. submit_all bcrypt prefix ttl (next ∷ forms) m db) kept
        ∙ submit_all-failures (next ∷ forms)
            (record l { attempts = set ip (recent l ip form.failed) l.attempts }) w.2 free
            (omega (
              arith,
              ap length (held-set l ip form.failed (recent l ip form.failed)),
              length-recent-le l ip form.failed,
            ))
        ∙ ap (λ m. (failures m ip (map failed_at (next ∷ forms)), db)) (sym kept))

  -- The forms of other clients, and forms before a time.
  abbrev pub EachEarly : ℕ → List Login → Type 0
  EachEarly until [] = Unit
  EachEarly until (form ∷ forms) = ((form.ip ≢ ip) ⊎ (form.checked < until)) × EachEarly until forms

  -- The forms of the client are refused, and change neither the limiter nor the database; each form
  -- meets what those before it left.
  abbrev pub EachRefused : List Login → LoginRateLimiter → AppDb → Type 0
  EachRefused [] l d = Unit
  EachRefused (form ∷ forms) l d =
      ((form.ip ≢ ip)
        ⊎ (login_submit bcrypt prefix ttl form l d ≡ (error_page 429 too_many_attempts, l, d)))
      × EachRefused forms (login_submit bcrypt prefix ttl form l d).1
          (login_submit bcrypt prefix ttl form l d).2

  abbrev LockedUntil : ℕ → LoginRateLimiter → Type 0
  LockedUntil until l = (now : ℕ) → now < until → (is_locked l ip now).0 ≡ true

  login_submit-locked :
      (form : Login) (l : LoginRateLimiter) (d : AppDb)
      → form.ip ≡ ip
      → (is_locked l ip form.checked).0 ≡ true
      → login_submit bcrypt prefix ttl form l d ≡ (error_page 429 too_many_attempts, l, d)
  unfolding login_submit
  login_submit-locked form l d same locked =
      rw same (rw (is_locked_same l ip form.checked locked) refl)

  -- The form of another client leaves this one locked.
  login_submit-others :
      (form : Login) (l : LoginRateLimiter) (d : AppDb) (now : ℕ)
      → form.ip ≢ ip
      → (is_locked (login_submit bcrypt prefix ttl form l d).1 ip now).0 ≡ (is_locked l ip now).0
  unfolding login_submit
  login_submit-others form l d now ne =
      by_check (is_locked l form.ip form.checked)
      ∙ is_locked_others l form.ip ip form.checked now ne
    where
      by_session :
          (m : LoginRateLimiter) (o : Option (Session × AppDb))
          → (logged_in bcrypt prefix ttl form m d o).1 ≡ m
      by_session m none = refl
      by_session m (some (session, d')) = refl

      by_verdict :
          (m : LoginRateLimiter) (v : Option (Option ℕ))
          → (is_locked (on_verdict bcrypt prefix ttl form m d v).1 ip now).0
            ≡ (is_locked m ip now).0
      by_verdict m none = refl
      by_verdict m (some none) = record_failure_others m form.ip ip form.failed now ne
      by_verdict m (some (some id)) =
          ap (λ k. (is_locked k ip now).0) (by_session (record_success m form.ip) _)
          ∙ record_success_others m form.ip ip now ne

      by_check :
          (checked : Bool × LoginRateLimiter)
          → (is_locked (unless_locked bcrypt prefix ttl form d checked).1 ip now).0
            ≡ (is_locked checked.1 ip now).0
      by_check (true, m) = refl
      by_check (false, m) =
          by_verdict m (authenticate bcrypt d form.username form.password form.salt)

  locked-EachRefused :
      (until : ℕ) (forms : List Login) (l : LoginRateLimiter) (d : AppDb)
      → LockedUntil until l
      → EachEarly until forms
      → EachRefused forms l d
  locked-EachRefused until [] l d locked early = tt
  locked-EachRefused until (form ∷ forms) l d locked early = elim (same_or_other form.ip ip) [
    | inl same ↦ elim early.0 [
      | inl other ↦ absurd (other same)
      | inr soon ↦
          let refused = login_submit-locked form l d same (locked form.checked soon) in
          (inr refused, rw refused (locked-EachRefused until forms l d locked early.1))
    ]
    | inr other ↦ (
      inl other,
      locked-EachRefused until forms (login_submit bcrypt prefix ttl form l d).1
          (login_submit bcrypt prefix ttl form l d).2
          (λ now h. login_submit-others form l d now other ∙ locked now h) early.1,
    )
  ]

  -- A client that had no failure and no lock before sends, one after the other, as many forms with
  -- wrong credentials as attempts are allowed, each within the window of every earlier one: the
  -- database stays as it was, and of any forms that follow, of whatever clients, each of this client
  -- that is checked before the lockout time from the last failure is over is answered with status
  -- 429, the right password included, and changes neither the limiter nor the database.
  pub login_submit-guessed :
      (l : LoginRateLimiter) (guesses : List Login) (last : Login) (later : List Login)
      → get ip l.locked_until ≡ none
      → held l ip ≡ []
      → AllWrong (guesses ++ last ∷ [])
      → Within l.window_seconds [] (map failed_at guesses ++ last.failed ∷ [])
      → length guesses + 1 ≡ l.max_attempts
      → EachEarly (last.failed + l.lockout_seconds) later
      → let (l', db') = submit_all bcrypt prefix ttl (guesses ++ last ∷ []) l db in
        (db' ≡ db) × EachRefused later l' db'
  login_submit-guessed l guesses last later free none_held wrong within n early =
      rw guessed (refl, locked-EachRefused _ later (failures l ip times) db locked early)
    where
      times : List ℕ
      times = map failed_at guesses ++ last.failed ∷ []

      times_of :
          (gs : List Login) → map failed_at (gs ++ last ∷ []) ≡ map failed_at gs ++ last.failed ∷ []
      times_of [] = refl
      times_of (g ∷ gs) = ap (◌∷◌ g.failed) (times_of gs)

      length_times : (gs : List Login) → length (map failed_at gs) ≡ length gs
      length_times [] = refl
      length_times (g ∷ gs) = ap suc (length_times gs)

      guessed : submit_all bcrypt prefix ttl (guesses ++ last ∷ []) l db ≡ (failures l ip times, db)
      guessed =
          submit_all-failures (guesses ++ last ∷ []) l wrong free
            (omega (arith, ap length none_held, n, length-append guesses (last ∷ [])))
          ∙ ap (λ ts. (failures l ip ts, db)) (times_of guesses)

      locked : LockedUntil (last.failed + l.lockout_seconds) (failures l ip times)
      locked now soon =
          failures-lock l ip [] (map failed_at guesses) last.failed now none_held within
            (omega (arith, length_times guesses, n))
          ∙ ground (arith, soon)
