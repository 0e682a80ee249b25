-- ===== src/Page/Resizing/Settled.antt =====
-- That the height of the list is set in the end, whatever the window's events were before:
-- evaluation/src/site/resources/analysis/scripts/main.js.
use shabdiz.Prelude.{ℕ, zero, suc, ◌+◌, ◌≤◌, ◌≡◌, refl, inl, ◌==◌, true, List, [], ◌∷◌, ◌++◌, arith}
use shabdiz.Page.Resizing.{
  Window, opened, reschedule, run_handlers, window_resized, timer_fires, Happening, resizing,
  firing, happen, resizings, IsDebounced, cleared, reschedule-IsDebounced, happen_lem,
}

happen-append :
    (hs ks : List Happening) (w : Window) → happen (hs ++ ks) w ≡ happen ks (happen hs w)
unfolding happen
happen-append [] ks w = refl
happen-append (resizing ∷ hs) ks w = happen-append hs ks (window_resized w)
happen-append (firing id ∷ hs) ks w = happen-append hs ks (timer_fires id w)

-- Behind one handler or more, just the timer of the last one is set.
run_handlers-timers :
    (n : ℕ) (w : Window) → IsDebounced w → (id : ℕ) × ((run_handlers (suc n) w).timers ≡ id ∷ [])
unfolding run_handlers
run_handlers-timers zero w d =
    unfold reschedule in (w.next_timer, rw (cleared w.resize_evt w.timers d) refl)
run_handlers-timers (suc n) w d = run_handlers-timers n (reschedule w) (reschedule-IsDebounced w d)

fires :
    (id : ℕ) (w : Window)
    → w.timers ≡ id ∷ []
    → ((timer_fires id w).timers ≡ []) × ((timer_fires id w).resized ≡ w.resized + 1)
unfolding timer_fires
fires id w e = let same : (id == id) ≡ true = ground arith in rw (e, same) (refl, refl)

some_handlers :
    (n : ℕ) (w : Window) → IsDebounced w → 1 ≤ n → (id : ℕ) × ((run_handlers n w).timers ≡ id ∷ [])
some_handlers zero w d many = absurd (omega arith)
some_handlers (suc n) w d many = run_handlers-timers n w d

resized_timers :
    (w : Window) → IsDebounced w → 1 ≤ w.handlers → (id : ℕ) × ((window_resized w).timers ≡ id ∷ [])
unfolding window_resized
resized_timers w d many = some_handlers w.handlers w d many

-- Whatever has happened, the second and every later event of the window leaves just one timer, and
-- when that runs out, the height is set once more and no timer is left.
pub happen-settled :
    (hs : List Happening)
    → 1 ≤ resizings hs
    → (id : ℕ) × ((happen (hs ++ resizing ∷ []) opened).timers ≡ id ∷ [])
      × ((happen (hs ++ resizing ∷ firing id ∷ []) opened).timers ≡ [])
      × ((happen (hs ++ resizing ∷ firing id ∷ []) opened).resized
          ≡ (happen (hs ++ resizing ∷ []) opened).resized + 1)
unfolding happen
happen-settled hs many =
    let (d, n) = happen_lem hs opened (inl refl) in
    let (id, t) = resized_timers (happen hs opened) d (omega arith) in
    let (a, b) = fires id (window_resized (happen hs opened)) t in
    (
      id,
      rw (happen-append hs (resizing ∷ []) opened) t,
      rw (happen-append hs (resizing ∷ firing id ∷ []) opened) a,
      rw
          (
            happen-append hs (resizing ∷ []) opened,
            happen-append hs (resizing ∷ firing id ∷ []) opened,
          )
          b,
    )
