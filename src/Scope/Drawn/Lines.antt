-- ===== src/Scope/Drawn/Lines.antt =====
-- The lines over time in the chart that `renderer` of
-- evaluation/src/site/resources/analysis/scripts/scope.js draws.
use shabdiz.Prelude.{◌≡◌, sym, ap, ◌∙◌, List}
use shabdiz.Prelude.Result.{ok, ok-inj, ok_parts}
use shabdiz.Text.{codes}
use shabdiz.Value.{arr, Fields, Host}
use shabdiz.Value.Extend.{IsDeepExtend, as_array}
use shabdiz.Value.Paths.{at_path}
use shabdiz.Value.Paths.Outline.{outline, Alike}
use shabdiz.Metrics.{theme_of}
use shabdiz.Query.Matches.{Scenario}
use shabdiz.Scope.Points.{Metric}
use shabdiz.Scope.Series.{over_time, flattened, objects}
use shabdiz.Scope.Series.Linked.{Unlinked, over_time-Unlinked}
use shabdiz.Scope.{chart_config, renderer, Rendering}
use shabdiz.Scope.Configured.{name_of}
use shabdiz.Scope.Drawn.Blank.{series_of}
use shabdiz.Scope.Drawn.{renderer-series}

module _ (h : Host Scenario) (d : IsDeepExtend (h.deep_extend)) where
  -- With `$.extend` as it is documented: where `renderer` draws a chart over time, the chart has
  -- the pairs of series of the matching scenarios in their order, and no others. Both of a pair
  -- are named after the scenario's churn and coloured by its place; the range is linked to the
  -- scenario's name, but the line has no id; and they hold a point and an interval for each row of
  -- the scenario's file, in the order of the rows.
  pub renderer-Unlinked :
      (metric : Metric) (found : List Scenario) {shown : Rendering}
      → renderer h metric found (codes "overtime") ≡ ok shown
      → (pairs : List (Fields × Fields)) × Unlinked h
          (theme_of h (name_of metric))
          metric
          0
          found
          pairs
        × Alike (series_of shown.chart) (arr (objects (flattened pairs)))
  unfolding chart_config
  renderer-Unlinked metric found returned =
      let (config, made, same) = renderer-series h d metric found (codes "overtime") returned in
      let (pairs, a, b) =
        ok_parts (over_time h (theme_of h (name_of metric)) metric 0 found) _ made in
      (
        pairs,
        over_time-Unlinked h _ metric 0 found a,
        λ path.
            same path ∙ ap (λ v. outline (at_path path (as_array (series_of v)))) (sym (ok-inj b)),
      )
