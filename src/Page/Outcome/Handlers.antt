-- ===== src/Page/Outcome/Handlers.antt =====
-- Every handler of evaluation/src/site/resources/analysis/scripts/action.js, and main.js, ends with
-- `update`: what the page shows where they return.
use shabdiz.Prelude.{◌≡◌, refl}
use shabdiz.Prelude.Result.{Result, ok, err}
use shabdiz.Text.{Text}
use shabdiz.Value.{Host}
use shabdiz.Value.Extend.{IsDeepExtend}
use shabdiz.Query.Matches.{Scenario}
use shabdiz.Page.{
  Page, Step, Done, emit, bind_resize, ◌>>=◌, after_result, update, init, start, metric_clicked,
  filter_checked, data_type_changed,
}
use shabdiz.Page.Sound.{Event, metric_click, filter_check, data_type_change, handle}
use shabdiz.Page.Outcome.Current.{IsCurrent, update-IsCurrent, emit-IsCurrent}

module _ (h : Host Scenario) where
  -- Where it returns, the page is current.
  record IsClosing (m : Step Done) : Type 0 where
    ends : (p : Page) {u : Done} → (m p).1 ≡ ok u → IsCurrent h (m p).0

  after_result-IsCurrent :
      {A : Type 0} (f : A → Step Done)
      → ((a : A) → IsClosing (f a))
      → (p : Page) (r : Result A) {u : Done} → (after_result f p r).1 ≡ ok u
      → IsCurrent h (after_result f p r).0
  after_result-IsCurrent f close p (ok a) made = (close a).ends p made
  after_result-IsCurrent f close p (err e) made = cc

  then :
      {A : Type 0} (m : Step A) {f : A → Step Done}
      → ((a : A) → IsClosing (f a))
      → IsClosing (m >>= f)
  unfolding ◌>>=◌
  then m {f} close = record { ends = λ p. after_result-IsCurrent f close (m p).0 (m p).1 }

  module _ (d : IsDeepExtend (h.deep_extend)) where
    update-IsClosing : IsClosing (update h)
    update-IsClosing = record { ends = update-IsCurrent h d }

    -- With a `$.extend` as jQuery documents it, a handler that returns leaves a page that is
    -- current, whatever the page was before: the chosen metric and the matching scenarios are
    -- stored, the chart of them was drawn last, the title is the metric's name, whose entry was
    -- marked last, the boxes of the selected indices have been checked, and the address is the
    -- query's.
    pub handle-IsCurrent :
        (e : Event) (p : Page) {u : Done} → (handle h e p).1 ≡ ok u → IsCurrent h (handle h e p).0
    unfolding metric_clicked filter_checked data_type_changed
    handle-IsCurrent (metric_click index) p = (then _ (λ u. update-IsClosing)).ends p
    handle-IsCurrent (filter_check checked index k) p = (then _ (λ u. update-IsClosing)).ends p
    handle-IsCurrent (data_type_change value) p = (then _ (λ u. update-IsClosing)).ends p

    init-IsClosing : (hash : Text) → IsClosing (init h hash)
    unfolding init
    init-IsClosing hash = then _ (λ a. then _ (λ b. then _ (λ c. update-IsClosing)))

    -- What a page shows stays when the handler of the window's `resize` is bound.
    bound-IsClosing : {m : Step Done} → IsClosing m → IsClosing (m >>= λ u. emit bind_resize)
    unfolding ◌>>=◌
    bound-IsClosing {m} closes = record {
      ends = λ p. by_result (m p).0 (m p).1 (λ u. closes.ends p);
    }
      where
        by_result :
            (q : Page) (r : Result Done) {u : Done}
            → ((v : Done) → r ≡ ok v → IsCurrent h q)
            → (after_result (λ v. emit bind_resize) q r).1 ≡ ok u
            → IsCurrent h (after_result (λ v. emit bind_resize) q r).0
        by_result q (ok u) current made = emit-IsCurrent h q (current u refl)
        by_result q (err e) current made = cc

    -- Where the page opens without an error, it is current.
    pub start-IsCurrent :
        (hash : Text) (p : Page) {u : Done}
        → (start h hash p).1 ≡ ok u
        → IsCurrent h (start h hash p).0
    unfolding start
    start-IsCurrent hash p =
        (then _ (λ a. then _ (λ b. then _ (λ c. then _ (λ e. then _ (λ f.
            then _
              (λ g. then _ (λ i. then _ (λ j. bound-IsClosing (init-IsClosing hash)))))))))).ends
          p
