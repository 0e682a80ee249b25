-- ===== src/Scope/Drawn/Complete.antt =====
-- That no matching scenario is missing in the chart over groups that `renderer` of
-- evaluation/src/site/resources/analysis/scripts/scope.js draws.
use mathlib.Core.List.{Perm, flat_map}
use shabdiz.Prelude.{◌≡◌, ◌≢◌, sym, subst, ◌∙◌, List, [], none, map}
use shabdiz.Prelude.Result.{ok, ok-inj}
use shabdiz.Text.{Text}
use shabdiz.Util.Groups.{Groups, group_by, object_keys}
use shabdiz.Value.{Value, arr, Fields, Host}
use shabdiz.Value.Extend.{IsDeepExtend}
use shabdiz.Value.Sort.{IsSort}
use shabdiz.Value.Paths.Outline.{Alike}
use shabdiz.Metrics.{theme_of}
use shabdiz.Query.Matches.{Scenario}
use shabdiz.Scope.Points.{Metric}
use shabdiz.Scope.Series.{Pass, traverse, objects}
use shabdiz.Scope.Series.Linked.{data_of, Linked, grouped-Linked}
use shabdiz.Scope.Series.Complete.{summary_of, grouped-perm}
use shabdiz.Scope.{renderer, Rendering}
use shabdiz.Scope.Configured.{name_of}
use shabdiz.Scope.Drawn.{passes}
use shabdiz.Scope.Drawn.Blank.{series_of}
use shabdiz.Scope.Drawn.Turns.{InTurn, renderer-InTurn}

module _ (h : Host Scenario) (themm : Value) (metric : Metric) (found : List Scenario)
    (groups : Groups Scenario) where
  -- In a loop there is a pair of series for each key of the groups, named, linked and coloured by
  -- the key, and together they hold the points of all scenarios and their intervals, each once.
  abbrev pub CompleteSeries : Pass → List (Fields × Fields) → Type 0
  CompleteSeries pass pairs =
      Linked pass 0 (object_keys groups) pairs
      × ((made : List (Value × Value)) × (traverse (summary_of h themm metric pass) found ≡ ok made)
          × Perm (flat_map (λ p. data_of p.0) pairs) (map (λ y. y.0) made)
          × Perm (flat_map (λ p. data_of p.1) pairs) (map (λ y. y.1) made))

module _ (h : Host Scenario) (d : IsDeepExtend (h.deep_extend)) (sorts : IsSort (h.sort)) where
  -- With `$.extend` as it is documented and a sort that rearranges: where `renderer` draws a chart
  -- over groups, the chart has the series of the loops of its kind of data, one behind the other.
  -- In each loop there is a pair of series for each group in the order of `Object.keys`, named
  -- after its key, the error bars linked to the id of the points and both coloured by the place
  -- behind the loop's shift; every matching scenario has given one point and one interval, and the
  -- series of all groups together hold these points and these intervals, each as often as they
  -- were given.
  pub renderer-CompleteSeries :
      (metric : Metric) (found : List Scenario) (data_type : Text) {shown : Rendering}
      → passes data_type ≢ []
      → renderer h metric found data_type ≡ ok shown
      → (groups : Groups Scenario) × (series : List Fields) × (group_by
            (λ match. match.peer_configuration)
            none
            found
          ≡ ok groups)
        × InTurn
            (CompleteSeries h (theme_of h (name_of metric)) metric found groups)
            (passes data_type)
            series
        × Alike (series_of shown.chart) (arr (objects series))
  renderer-CompleteSeries metric found data_type grouping returned =
      let themm = theme_of h (name_of metric) in
      renderer-InTurn h d metric found data_type (CompleteSeries h themm metric found)
        (λ groups g pass pairs once a.
          let (one, made, linked) = grouped-Linked h themm metric pass found a in
          (
            subst (λ gs. Linked pass 0 (object_keys gs) pairs) (ok-inj (sym made ∙ g)) linked,
            grouped-perm h themm metric pass sorts found a,
          ))
        grouping returned
