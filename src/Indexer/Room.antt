-- ===== src/Indexer/Room.antt =====
-- When the queue of sylo/indexer/core.py admits all that arrives.
use sylo.Base.{
  ℕ, suc, ◌+◌, ◌≤◌, ◌≡◌, refl, ap, ◌∙◌, ◌⊎◌, inl, inr, Bool, true, false, List, [], ◌∷◌, ◌++◌,
  arith, length, length-append, if◌then◌else◌,
}
use sylo.Text.{Text}
use sylo.Envelope.{MessageEnvelope}
use sylo.Schema.{Row}
use sylo.Indexer.{Indexer, Event, arrives, turns, stops, is_full, admit, enqueue, turn, step}
use sylo.Indexer.Bounds.{Shrinks, turn-Shrinks}
use sylo.Indexer.Delivery.{admitted, admitted_all}

unfoldable pub arrived : List Event → List MessageEnvelope
arrived [] = []
arrived (arrives e ∷ es) = e ∷ arrived es
arrived (turns ∷ es) = arrived es
arrived (stops ∷ es) = arrived es

-- The queue has no limit, or there is room for so many envelopes more.
abbrev pub HasRoom : Indexer → ℕ → Type 0
HasRoom ix n = (ix.config.queue_hard_limit ≡ 0) ⊎ (length ix.queue + n ≤ ix.config.queue_hard_limit)

not_full : (limit size n : ℕ) → (limit ≡ 0) ⊎ (size + suc n ≤ limit) → is_full limit size ≡ false
not_full limit size n (inl h) = ground arith
not_full limit size n (inr h) = ground arith

enqueue-HasRoom :
    (ix : Indexer) (e : MessageEnvelope) (n : ℕ) → HasRoom ix (suc n) → HasRoom (enqueue ix e) n
unfolding enqueue
enqueue-HasRoom ix e n h =
    by_room (is_full ix.config.queue_hard_limit (length ix.queue))
      (not_full ix.config.queue_hard_limit (length ix.queue) n h) h
  where
    by_room : (full : Bool) → full ≡ false → HasRoom ix (suc n) → HasRoom (admit ix e full) n
    by_room true f k = absurd (cc f)
    by_room false f (inl k) = inl k
    by_room false f (inr k) = inr (omega (arith, k, length-append ix.queue (e ∷ [])))

Shrinks-HasRoom : (ix j : Indexer) (n : ℕ) → Shrinks ix j → HasRoom ix n → HasRoom j n
Shrinks-HasRoom ix j n s (inl h) = inl (ap (λ c. c.queue_hard_limit) s.0 ∙ h)
Shrinks-HasRoom ix j n s (inr h) = inr (omega (arith, h, s.1, ap (λ c. c.queue_hard_limit) s.0))

module _ (accepts : Row → Bool) (batch_ok : Text → Bool)
    (ok : (month : Text) → batch_ok month ≡ true) where
  pub admitted_all-HasRoom :
      (es : List Event) (ix : Indexer)
      → HasRoom ix (length (arrived es))
      → admitted_all accepts batch_ok ok ix es ≡ arrived es
  unfolding admitted_all admitted arrived step
  admitted_all-HasRoom [] ix h = refl
  admitted_all-HasRoom (arrives e ∷ es) ix h =
      ap
        (λ full.
          (if full then [] else e ∷ []) ++ admitted_all accepts batch_ok ok (enqueue ix e) es)
        (not_full ix.config.queue_hard_limit (length ix.queue) (length (arrived es)) h)
      ∙ ap (λ xs. e ∷ xs)
          (admitted_all-HasRoom es (enqueue ix e) (enqueue-HasRoom ix e (length (arrived es)) h))
  admitted_all-HasRoom (turns ∷ es) ix h = admitted_all-HasRoom es (turn accepts batch_ok ix) (
      Shrinks-HasRoom ix (turn accepts batch_ok ix) (length (arrived es))
        (turn-Shrinks accepts batch_ok ix) h)
  admitted_all-HasRoom (stops ∷ es) ix h = admitted_all-HasRoom es (record ix { stopping = true }) h
