-- ===== src/Health/Since.antt =====
-- What a page of the web application shows of a receiver that fails and retries
-- (sylo/receiver/health.py and sylo/webapp/receiver_health.py).
use sylo.Base.{
  ℕ, ◌+◌, ◌≤◌, ◌≡◌, refl, ap, ◌∙◌, Bool, true, false, List, [], ◌∷◌, ◌++◌, Option, some, arith, ltb,
}
use sylo.Text.{Text, text_eq, codes}
use sylo.Dict.{text_eq_refl}
use sylo.Health.{
  ReceiverHealth, write_status, mark_failed, is_last, unhealthy, stale_after, read_receiver_health,
}

-- One attempt: when it failed, when the status was written, and whether it could be.
abbrev pub Attempt : Type 0
Attempt = ℕ × ℕ × Bool

-- Attempts that fail with one error.
unfoldable pub retries : ReceiverHealth → Text → List Attempt → ReceiverHealth
retries h error [] = h
retries h error ((now, written, ok) ∷ rest) =
    retries (mark_failed h error now written ok) error rest

-- A health that is failing with an error, from a time on.
abbrev Failing : Text → ℕ → ReceiverHealth → Type 0
Failing error since h = (h.last_error ≡ some error) × (h.error_since ≡ some since)

write_status-keeps :
    (h : ReceiverHealth) (state : Text) (error : Option Text) (now : ℕ) (ok : Bool)
    → ((write_status h state error now ok).last_error ≡ h.last_error)
      × ((write_status h state error now ok).error_since ≡ h.error_since)
unfolding write_status
write_status-keeps h state error now true = (refl, refl)
write_status-keeps h state error now false = (refl, refl)

module _ (h : ReceiverHealth) (error : Text) (now written : ℕ) (ok : Bool) where
  -- A failure that is not the last one starts its own time.
  mark_failed-first :
      is_last h.last_error error ≡ false → Failing error now (mark_failed h error now written ok)
  unfolding mark_failed
  mark_failed-first k = rw k (write_status-keeps _ (codes "error") (some error) written ok)

  -- The last one again changes the file only.
  mark_failed-again :
      (since : ℕ)
      → Failing error since h
      → mark_failed h error now written ok ≡ write_status h (codes "error") (some error) written ok
  unfolding mark_failed
  mark_failed-again since k = rw k.0 (rw (text_eq_refl error) refl)

  again-Failing :
      (since : ℕ) → Failing error since h → Failing error since (mark_failed h error now written ok)
  again-Failing since k =
      let kept = write_status-keeps h (codes "error") (some error) written ok in
      rw (mark_failed-again since k) (kept.0 ∙ k.0, kept.1 ∙ k.1)

retries-Failing :
    (attempts : List Attempt) (h : ReceiverHealth) (error : Text) (since : ℕ)
    → Failing error since h
    → Failing error since (retries h error attempts)
unfolding retries
retries-Failing [] h error since k = k
retries-Failing ((now, written, ok) ∷ rest) h error since k =
    retries-Failing rest (mark_failed h error now written ok) error since
      (again-Failing h error now written ok since k)

-- A status that was written at most a minute ago says since when.
read-Failing :
    (h : ReceiverHealth) (c : ℕ) (cs : Text) (since now written at : ℕ)
    → Failing (c ∷ cs) since h
    → at ≤ written + stale_after
    → read_receiver_health (mark_failed h (c ∷ cs) now written true).file at
      ≡ unhealthy (codes "Recording is not active: " ++ c ∷ cs) (some since)
unfolding write_status read_receiver_health text_eq
read-Failing h c cs since now written at k l =
    ap (λ g. read_receiver_health g.file at) (mark_failed-again h (c ∷ cs) now written true since k)
    ∙ rw fresh (rw k.1 refl)
  where
    fresh : ltb (written + stale_after) at ≡ false
    fresh = ground arith

-- A receiver that fails with an error that has a text and is not its last one, and goes on failing
-- with it, however often and whether or not the status could be written in between, is shown, until a
-- minute after the last status, as failing with that error since the first of these attempts.
pub read_receiver_health-retries :
    (h : ReceiverHealth) (c : ℕ) (cs : Text) (first : Attempt) (more : List Attempt)
    (now written at : ℕ)
    → is_last h.last_error (c ∷ cs) ≡ false
    → at ≤ written + stale_after
    → read_receiver_health
        (mark_failed (retries h (c ∷ cs) (first ∷ more)) (c ∷ cs) now written true).file
        at
      ≡ unhealthy (codes "Recording is not active: " ++ c ∷ cs) (some first.0)
unfolding retries
read_receiver_health-retries h c cs (t, u, ok) more now written at k l =
    read-Failing (retries (mark_failed h (c ∷ cs) t u ok) (c ∷ cs) more) c cs t now written at
      (retries-Failing more (mark_failed h (c ∷ cs) t u ok) (c ∷ cs) t
        (mark_failed-first h (c ∷ cs) t u ok k))
      l
