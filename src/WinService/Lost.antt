-- ===== src/WinService/Lost.antt =====
-- Which requests to stop the receiver's service (sylo/receiver/winservice.py) end its run.
use sylo.Base.{
  ℕ, zero, suc, ◌≡◌, refl, sym, subst, ap, ◌∙◌, Bool, true, false, ◌||◌, none, some, arith, ltb,
}
use sylo.WinService.{
  EventLoop, no_loop, open_loop, closed_loop, Service, new_service, svc_stop, signal_stop, requests,
  svc_do_run,
}

-- Without a stop event a request changes neither it nor the loop.
signal_stop-unheard :
    (s : Service) (l : EventLoop)
    → s.stop_event ≡ none
    → ((signal_stop s l none).stop_event ≡ none) × ((signal_stop s l none).loop ≡ s.loop)
signal_stop-unheard s no_loop h = (h, refl)
signal_stop-unheard s open_loop h = (h, refl)
signal_stop-unheard s closed_loop h = (h, refl)

svc_stop-unheard :
    (s : Service)
    → s.stop_event ≡ none
    → ((svc_stop s).stop_event ≡ none) × ((svc_stop s).loop ≡ s.loop)
unfolding svc_stop
svc_stop-unheard s h =
    subst
      (λ o.
        ((signal_stop asked s.loop o).stop_event ≡ none)
        × ((signal_stop asked s.loop o).loop ≡ s.loop))
      (sym h) (signal_stop-unheard asked s.loop h)
  where
    asked : Service
    asked = record s { stop_pending = true }

requests-unheard :
    (n : ℕ) (s : Service)
    → s.stop_event ≡ none
    → ((requests n s).stop_event ≡ none) × ((requests n s).loop ≡ s.loop)
unfolding requests
requests-unheard zero s h = (h, refl)
requests-unheard (suc n) s h =
    let one = svc_stop-unheard s h in
    let rest = requests-unheard n (svc_stop s) one.0 in (rest.0, rest.1 ∙ one.1)

-- With an open loop and a stop event a request sets it.
svc_stop-heard :
    (s : Service) (b : Bool)
    → s.loop ≡ open_loop
    → s.stop_event ≡ some b
    → ((svc_stop s).stop_event ≡ some true) × ((svc_stop s).loop ≡ open_loop)
unfolding svc_stop
svc_stop-heard s b h k =
    subst
      (λ l.
        ((signal_stop asked l s.stop_event).stop_event ≡ some true)
        × ((signal_stop asked l s.stop_event).loop ≡ open_loop))
      (sym h)
      (subst
        (λ o.
          ((signal_stop asked open_loop o).stop_event ≡ some true)
          × ((signal_stop asked open_loop o).loop ≡ open_loop))
        (sym k) (refl, h))
  where
    asked : Service
    asked = record s { stop_pending = true }

requests-heard :
    (n : ℕ) (s : Service) (b : Bool)
    → s.loop ≡ open_loop
    → s.stop_event ≡ some b
    → (requests n s).stop_event ≡ some (b || ltb 0 n)
unfolding requests
requests-heard zero s b h k = k ∙ ap some (unset b)
  where
    unset : (c : Bool) → c ≡ (c || ltb 0 0)
    unset true = refl
    unset false = refl
requests-heard (suc n) s b h k =
    let one = svc_stop-heard s b h k in
    requests-heard n (svc_stop s) true one.1 one.0 ∙ ap some (set b)
  where
    set : (c : Bool) → true ≡ (c || ltb 0 (suc n))
    set true = refl
    set false = ground arith

-- The stop event of the service is set when, and only when, a request to stop comes after it was
-- made: requests that come before, even after the loop was made, never end the run.
pub svc_do_run-stop_event :
    (early later during : ℕ)
    → (svc_do_run early later during new_service).stop_event ≡ some (ltb 0 during)
unfolding svc_do_run
svc_do_run-stop_event early later during =
    requests-heard during _ false
      (requests-unheard later (record (requests early new_service) { loop = open_loop })
        (requests-unheard early new_service refl).0).1
      refl
