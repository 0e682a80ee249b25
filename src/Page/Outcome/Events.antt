-- ===== src/Page/Outcome/Events.antt =====
-- Where the handlers of evaluation/src/site/resources/analysis/scripts/action.js throw.
use shabdiz.Prelude.{◌≡◌, sym, ap, ◌∙◌, Bool, List}
use shabdiz.Prelude.Result.{is_error}
use shabdiz.Text.{Text}
use shabdiz.Query.{Query}
use shabdiz.Scope.Points.{Metric}
use shabdiz.Value.{Host}
use shabdiz.Value.Extend.{IsDeepExtend}
use shabdiz.Value.Sort.{IsSort}
use shabdiz.Query.Matches.{Scenario}
use shabdiz.Page.{Page, ◌>>=◌, update, metric_clicked, filter_checked, data_type_changed}
use shabdiz.Page.Updates.{address-update}
use shabdiz.Page.Sound.{Event, metric_click, filter_check, data_type_change, handle}
use shabdiz.Page.Outcome.Throws.{lacks_update, update-is_error}
use shabdiz.Page.Outcome.Reopen.{update-tables}

module _ (h : Host Scenario) (d : IsDeepExtend (h.deep_extend)) (sorts : IsSort (h.sort)) where
  -- What makes `update` throw is still there behind it.
  lacks_update-update : (p : Page) → lacks_update h (update h p).0 ≡ lacks_update h p
  lacks_update-update p =
      let (query, kind, text) = address-update h p in
      let (metrics, scenarios) = update-tables h p in
      let left = (update h p).0 in
      ap (λ q. lacks_of left.metrics left.scenarios q left.data_type) query
      ∙ ap (lacks_of left.metrics left.scenarios p.query) kind
      ∙ ap (λ ms. lacks_of ms left.scenarios p.query p.data_type) metrics
      ∙ ap (λ ss. lacks_of p.metrics ss p.query p.data_type) scenarios
    where
      lacks_of : List Metric → List Scenario → Query → Text → Bool
      lacks_of ms ss q t =
          lacks_update h (record p { metrics = ms; scenarios = ss; query = q; data_type = t })

  update-left : (p : Page) → is_error (update h p).1 ≡ lacks_update h (update h p).0
  update-left p = update-is_error h d sorts p ∙ sym (lacks_update-update p)

  -- With `$.extend` as it is documented and a sort that rearranges: whatever the page was, a handler
  -- throws exactly where the page that it leaves has a metric out of range, scenarios that cannot be
  -- matched, a metric with a name that objects inherit, or matching scenarios whose chart cannot be
  -- made; else it returns.
  pub handle-is_error :
      (e : Event) (p : Page) → is_error (handle h e p).1 ≡ lacks_update h (handle h e p).0
  unfolding metric_clicked filter_checked data_type_changed ◌>>=◌
  handle-is_error (metric_click index) p = update-left _
  handle-is_error (filter_check checked index k) p = update-left _
  handle-is_error (data_type_change value) p = update-left _
