-- ===== src/Page/Resizing.antt =====
-- evaluation/src/site/resources/analysis/scripts/main.js: the handlers of the window's `resize` and
-- the timer that they share. The first handler adds one more handler at each event, and each of
-- those clears the timer and sets it again.
pub mod Settled
use shabdiz.Prelude.{
  ℕ, zero, suc, ◌+◌, ◌≤◌, ◌≡◌, refl, ◌==◌, not, List, [], ◌∷◌, ◌++◌, Option, none, some, select,
  length, arith, if◌then◌else◌, ◌∙◌, ◌⊎◌, inl, inr, any, Bool-cases, if-keeps,
}

-- The number of added handlers, `window.resizeEvt`, the timers that are set, the number of the next
-- timer, and how often the list's height has been set.
pub record Window : Type 0 where
  pub handlers : ℕ
  pub resize_evt : Option ℕ
  pub timers : List ℕ
  pub next_timer : ℕ
  pub resized : ℕ

abbrev pub opened : Window
opened = record { handlers = 0; resize_evt = none; timers = []; next_timer = 1; resized = 0 }

abbrev clear_timeout : Option ℕ → List ℕ → List ℕ
clear_timeout none timers = timers
clear_timeout (some id) timers = select (λ t. not (t == id)) timers

-- One added handler.
unfoldable pub reschedule : Window → Window
reschedule w = record w {
  resize_evt = some w.next_timer;
  timers = clear_timeout w.resize_evt w.timers ++ w.next_timer ∷ [];
  next_timer = w.next_timer + 1;
}

-- That many added handlers, one after the other.
unfoldable pub run_handlers : ℕ → Window → Window
unfolding reschedule
run_handlers zero w = w
run_handlers (suc n) w = run_handlers n (reschedule w)

-- An event of the window: the handlers that it has are run, the first of which adds one.
unfoldable pub window_resized : Window → Window
unfolding run_handlers
window_resized w = record (run_handlers w.handlers w) { handlers = w.handlers + 1 }

-- A timer runs out, if it is set.
unfoldable pub timer_fires : ℕ → Window → Window
timer_fires id w =
    if any (λ t. t == id) w.timers
    then record w { timers = select (λ t. not (t == id)) w.timers; resized = w.resized + 1 }
    else w

pub data Happening : Type 0 where
  resizing : Happening
  firing : ℕ → Happening

unfoldable pub happen : List Happening → Window → Window
unfolding window_resized timer_fires
happen [] w = w
happen (resizing ∷ rest) w = happen rest (window_resized w)
happen (firing id ∷ rest) w = happen rest (timer_fires id w)

-- The events of the window among what happened.
abbrev pub resizings : List Happening → ℕ
resizings [] = 0
resizings (resizing ∷ rest) = suc (resizings rest)
resizings (firing id ∷ rest) = resizings rest

-- No timer is set but the one that `window.resizeEvt` names.
abbrev pub IsDebounced : Window → Type 0
IsDebounced w = (w.timers ≡ []) ⊎ ((id : ℕ) × (w.resize_evt ≡ some id) × (w.timers ≡ id ∷ []))

pub cleared :
    (o : Option ℕ) (ts : List ℕ)
    → (ts ≡ []) ⊎ ((id : ℕ) × (o ≡ some id) × (ts ≡ id ∷ []))
    → clear_timeout o ts ≡ []
cleared none ts (inl e) = e
cleared (some id) ts (inl e) = rw e refl
cleared o ts (inr (id, a, b)) = rw (a, b) (ground arith)

pub reschedule-IsDebounced : (w : Window) → IsDebounced w → IsDebounced (reschedule w)
unfolding reschedule
reschedule-IsDebounced w d = inr (w.next_timer, refl, rw (cleared w.resize_evt w.timers d) refl)

run_handlers-IsDebounced : (n : ℕ) (w : Window) → IsDebounced w → IsDebounced (run_handlers n w)
unfolding run_handlers
run_handlers-IsDebounced zero w d = d
run_handlers-IsDebounced (suc n) w d =
    run_handlers-IsDebounced n (reschedule w) (reschedule-IsDebounced w d)

fired :
    (id : ℕ) (o : Option ℕ) (ts : List ℕ)
    → (ts ≡ []) ⊎ ((k : ℕ) × (o ≡ some k) × (ts ≡ k ∷ []))
    → (select (λ t. not (t == id)) ts ≡ [])
      ⊎ ((k : ℕ) × (o ≡ some k) × (select (λ t. not (t == id)) ts ≡ k ∷ []))
fired id o ts (inl e) = rw e (inl refl)
fired id o ts (inr (k, a, b)) = elim (Bool-cases (k == id)) [
  | inl e ↦ inl (rw (b, e) refl)
  | inr e ↦ inr (k, a, rw (b, e) refl)
]

timer_fires-IsDebounced : (id : ℕ) (w : Window) → IsDebounced w → IsDebounced (timer_fires id w)
unfolding timer_fires
timer_fires-IsDebounced id w d =
    if-keeps IsDebounced (any (λ t. t == id) w.timers) (fired id w.resize_evt w.timers d) d

timer_fires-handlers : (id : ℕ) (w : Window) → (timer_fires id w).handlers ≡ w.handlers
unfolding timer_fires
timer_fires-handlers id w = elim (Bool-cases (any (λ t. t == id) w.timers)) [
  | inl e ↦ rw (e) refl
  | inr e ↦ rw (e) refl
]

pub happen_lem :
    (hs : List Happening) (w : Window)
    → IsDebounced w
    → IsDebounced (happen hs w) × ((happen hs w).handlers ≡ w.handlers + resizings hs)
unfolding happen window_resized
happen_lem [] w d = (d, omega arith)
happen_lem (resizing ∷ rest) w d =
    let (e, n) = happen_lem rest (window_resized w) (run_handlers-IsDebounced w.handlers w d) in
    (e, omega arith)
happen_lem (firing id ∷ rest) w d =
    let (e, n) = happen_lem rest (timer_fires id w) (timer_fires-IsDebounced id w d) in
    (e, n ∙ rw (timer_fires-handlers id w) refl)

-- Whatever has happened since the page was opened, at most one timer is set, and there is an added
-- handler for every event of the window.
pub happen-debounced :
    (hs : List Happening)
    → (length (happen hs opened).timers ≤ 1) × ((happen hs opened).handlers ≡ resizings hs)
happen-debounced hs =
    let (d, n) = happen_lem hs opened (inl refl) in
    (elim d [ inl e ↦ rw e (omega arith) | inr (id, a, b) ↦ rw b (omega arith) ], n ∙ (omega arith))
