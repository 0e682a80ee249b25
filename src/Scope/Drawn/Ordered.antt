-- ===== src/Scope/Drawn/Ordered.antt =====
-- The order of the points in the chart that `renderer` of
-- evaluation/src/site/resources/analysis/scripts/scope.js draws.
use shabdiz.Prelude.{◌≡◌, ◌≢◌, sym, subst, ◌∙◌, true, List, [], none, all}
use shabdiz.Prelude.Result.{ok, ok-inj}
use shabdiz.Text.{Text}
use shabdiz.Util.Alphanum.Total.{is_ranked}
use shabdiz.Util.Groups.{Groups, group_by, object_keys}
use shabdiz.Value.{Value, arr, Fields, Host}
use shabdiz.Value.Extend.{IsDeepExtend}
use shabdiz.Value.Sort.{IsSort, IsOrderedSort}
use shabdiz.Value.Paths.Outline.{Alike}
use shabdiz.Metrics.{theme_of}
use shabdiz.Query.Matches.{Scenario}
use shabdiz.Scope.Points.{Metric}
use shabdiz.Scope.Series.{Pass, grouped, objects}
use shabdiz.Scope.Series.Linked.{Linked, grouped-Linked}
use shabdiz.Scope.Series.Ordered.{churn_of, AscendingPairs, grouped-AscendingPairs}
use shabdiz.Scope.{renderer, Rendering}
use shabdiz.Scope.Configured.{name_of}
use shabdiz.Scope.Drawn.Blank.{series_of}
use shabdiz.Scope.Drawn.{passes}
use shabdiz.Scope.Drawn.Turns.{InTurn, IsSorting, renderer-InTurn}

module _ (h : Host Scenario) (themm : Value) (metric : Metric) (groups : Groups Scenario) where
  -- In a loop there is a pair of series for each key of the groups, named, linked and coloured by
  -- the key, and with the points of the group's members and their intervals in an order that
  -- ascends by the churn.
  abbrev pub OrderedSeries : Pass → List (Fields × Fields) → Type 0
  OrderedSeries pass pairs =
      Linked pass 0 (object_keys groups) pairs
      × AscendingPairs h themm metric pass groups (object_keys groups) pairs

  grouped-OrderedSeries :
      (sorts : IsSort (h.sort)) (orders : IsOrderedSort (h.sort)) (found : List Scenario)
      → all (is_ranked churn_of) found ≡ true
      → group_by (λ match. match.peer_configuration) none found ≡ ok groups
      → (pass : Pass) {pairs : List (Fields × Fields)} → IsSorting pass
      → grouped h themm metric pass found ≡ ok pairs
      → OrderedSeries pass pairs
  grouped-OrderedSeries sorts orders found ranked g pass {pairs} (n, once) a =
      let (one, made, linked) = grouped-Linked h themm metric pass found a in
      let (two, again, ordered) =
        grouped-AscendingPairs h themm metric pass sorts orders n found once ranked a in
      (
        subst (λ gs. Linked pass 0 (object_keys gs) pairs) (ok-inj (sym made ∙ g)) linked,
        subst (λ gs. AscendingPairs h themm metric pass gs (object_keys gs) pairs)
            (ok-inj (sym again ∙ g)) ordered,
      )

module _ (h : Host Scenario) (d : IsDeepExtend (h.deep_extend)) (sorts : IsSort (h.sort))
    (orders : IsOrderedSort (h.sort)) where
  -- With `$.extend` as it is documented, and a sort that rearranges and that orders by a consistent
  -- comparator: where `renderer` draws a chart over groups, and no churn of a matching scenario is
  -- `Light` or, with the digit of its rank in front, has a numeric chunk that is not a whole number
  -- below 2 ^ 53 without leading zeros or another chunk that `Number` reads as a number, the chart
  -- has the series of the loops of its kind of data, one behind the other. In each loop there is a
  -- pair of series for each group in the order of `Object.keys`, named, linked and coloured by its
  -- key and its place, with one point and one interval of each of its members in an order that
  -- ascends by the churn.
  pub renderer-OrderedSeries :
      (metric : Metric) (found : List Scenario) (data_type : Text) {shown : Rendering}
      → passes data_type ≢ []
      → all (is_ranked churn_of) found ≡ true
      → renderer h metric found data_type ≡ ok shown
      → (groups : Groups Scenario) × (series : List Fields) × (group_by
            (λ match. match.peer_configuration)
            none
            found
          ≡ ok groups)
        × InTurn
            (OrderedSeries h (theme_of h (name_of metric)) metric groups)
            (passes data_type)
            series
        × Alike (series_of shown.chart) (arr (objects series))
  renderer-OrderedSeries metric found data_type grouping ranked returned =
      renderer-InTurn h d metric found data_type
        (OrderedSeries h (theme_of h (name_of metric)) metric)
        (λ groups g pass pairs once a.
          grouped-OrderedSeries h _ metric groups sorts orders found ranked g pass once a)
        grouping returned
