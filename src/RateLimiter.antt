-- ===== src/RateLimiter.antt =====
-- `LoginRateLimiter` of sylo/webapp/auth.py. The lock serialises the methods, so each is one step.
-- `time.monotonic()` is an argument, in any unit in which the three settings are given too.
pub mod Lockout
use sylo.Base.{
  ℕ, ◌+◌, Bool, true, false, List, [], ◌∷◌, ◌++◌, Option, none, some, ltb, leb, if◌then◌else◌,
  length, keep,
}
use sylo.Text.{Text}
use sylo.Dict.{Dict, get, set, pop}

pub record LoginRateLimiter : Type 0 where
  pub max_attempts : ℕ
  pub window_seconds : ℕ
  pub lockout_seconds : ℕ
  pub attempts : Dict (List ℕ)
  pub locked_until : Dict ℕ

unfoldable pub new_limiter : ℕ → ℕ → ℕ → LoginRateLimiter
new_limiter max window lockout = record {
  max_attempts = max;
  window_seconds = window;
  lockout_seconds = lockout;
  attempts = [];
  locked_until = [];
}

abbrev pub locked_at : LoginRateLimiter → Text → ℕ → Option ℕ → Bool × LoginRateLimiter
locked_at l key now none = (false, l)
locked_at l key now (some until) =
    if leb until now then (false, record l { locked_until = pop key l.locked_until }) else (true, l)

unfoldable pub is_locked : LoginRateLimiter → Text → ℕ → Bool × LoginRateLimiter
is_locked l key now = locked_at l key now (get key l.locked_until)

abbrev pub or_empty : Option (List ℕ) → List ℕ
or_empty none = []
or_empty (some ts) = ts

-- The attempts of the window, with the new one behind them. `now - t < window`.
abbrev pub recent : LoginRateLimiter → Text → ℕ → List ℕ
recent l key now =
    keep (λ t. ltb now (t + l.window_seconds)) (or_empty (get key l.attempts)) ++ now ∷ []

unfoldable pub record_failure : LoginRateLimiter → Text → ℕ → LoginRateLimiter
record_failure l key now =
    if leb l.max_attempts (length (recent l key now))
    then record l {
      locked_until = set key (now + l.lockout_seconds) l.locked_until;
      attempts = set key [] l.attempts;
    }
    else record l { attempts = set key (recent l key now) l.attempts }

unfoldable pub record_success : LoginRateLimiter → Text → LoginRateLimiter
record_success l key = record l {
  attempts = pop key l.attempts;
  locked_until = pop key l.locked_until;
}
