-- ===== src/Tests/Sorting.antt =====
-- Runs of what is proved of the sorted series and of sessions that end with them.
use mathlib.Core.List.{flat_map}
use shabdiz.Prelude.{◌≡◌, ◌≢◌, refl, true, false, List, [], ◌∷◌, none, some, sym, ◌∙◌, ap, all}
use shabdiz.Prelude.Result.{ok}
use shabdiz.Text.{codes, trim}
use shabdiz.Value.{undefined, arr, Fields}
use shabdiz.Util.Alphanum.{chunkify, chunk_number, rank_left}
use shabdiz.Util.Alphanum.Total.{is_ranked}
use shabdiz.Util.Groups.{Groups, group_by, object_keys}
use shabdiz.Text.Number.{scan, show_ℕ}
use shabdiz.Query.Matches.{Scenario}
use shabdiz.Theme.{extend}
use shabdiz.Metrics.{theme_of}
use shabdiz.Value.Paths.Outline.{Alike}
use shabdiz.Scope.{renderer, Rendering}
use shabdiz.Scope.Configured.{name_of}
use shabdiz.Scope.Drawn.{passes}
use shabdiz.Scope.Drawn.Blank.{series_of}
use shabdiz.Scope.Drawn.Turns.{InTurn}
use shabdiz.Scope.Drawn.Ordered.{OrderedSeries, renderer-OrderedSeries}
use shabdiz.Scope.Series.{grouped, objects}
use shabdiz.Scope.Series.Ordered.{churn_of}
use shabdiz.Prelude.Int.{pos}
use shabdiz.Text.Number.{int}
use shabdiz.Util.Arrays.{add_if_absent}
use shabdiz.Util.Groups.{is_inherited}
use shabdiz.Query.{
  churn, workload, peer_configuration, experiment_duration, training_duration, clustering_algorithm,
  feedback_enabled, decode,
}
use shabdiz.Query.Matches.{matches, labels}
use shabdiz.Scope.Series.{over_time}
use shabdiz.Page.{
  Page, ◌>>=◌, render, update, start, metric_clicked, filter_checked, data_type_changed,
}
use shabdiz.Page.Updates.{address-update}
use shabdiz.Page.Sound.{Event, filter_check, data_type_change, handle}
use shabdiz.Page.Spec.{run, view, intended, all_intended}
use shabdiz.Page.Loading.{loaded, session, nothing_selected}
use shabdiz.Page.Outcome.Throws.{lacks_update}
use shabdiz.Page.Charted.{ShowsGroups, session-ShowsGroups}
use shabdiz.Tests.Inserting.{sorting_host, sorting_host-IsSort, sorting_host-IsOrderedSort}
use shabdiz.Tests.Hosts.{deep-IsDeepExtend, metric, scenario, returned}

abbrev unsorted : List Scenario
unsorted = scenario (codes "Medium") ∷ scenario (codes "Heavy") ∷ []

unsorted_ranked : all (is_ranked churn_of) unsorted ≡ true
unfolding rank_left chunkify chunk_number scan show_ℕ trim
unsorted_ranked = refl

abbrev shown : Rendering
shown =
    returned (record { main_title = some undefined; chart = undefined })
      (renderer sorting_host metric unsorted (codes "batraining"))

unsorted_returns : renderer sorting_host metric unsorted (codes "batraining") ≡ ok shown
unfolding renderer grouped group_by object_keys scan trim theme_of extend
unsorted_returns = refl

renderer-OrderedSeries_example :
    (groups : Groups Scenario) × (series : List Fields) × (group_by
        (λ match. match.peer_configuration)
        none
        unsorted
      ≡ ok groups)
    × InTurn
        (OrderedSeries sorting_host (theme_of sorting_host (name_of metric)) metric groups)
        (passes (codes "batraining"))
        series
    × Alike (series_of shown.chart) (arr (objects series))
renderer-OrderedSeries_example =
    renderer-OrderedSeries sorting_host deep-IsDeepExtend sorting_host-IsSort
      sorting_host-IsOrderedSort metric unsorted (codes "batraining") (λ e. cc) unsorted_ranked
      unsorted_returns

loaded_ranked : all (is_ranked churn_of) (loaded sorting_host).scenarios ≡ true
unfolding rank_left chunkify chunk_number scan show_ℕ trim loaded
loaded_ranked = refl

-- Every label is selected.
abbrev clicks : List Event
clicks =
    filter_check true (int (pos 1)) churn
    ∷ filter_check true (int (pos 0)) churn
    ∷ filter_check true (int (pos 0)) workload
    ∷ filter_check true (int (pos 0)) peer_configuration
    ∷ filter_check true (int (pos 0)) experiment_duration
    ∷ filter_check true (int (pos 0)) training_duration
    ∷ filter_check true (int (pos 0)) clustering_algorithm
    ∷ filter_check true (int (pos 0)) feedback_enabled
    ∷ []

abbrev last_click : Event
last_click = data_type_change (codes "batraining")

abbrev left : Page
left = (handle sorting_host last_click (session sorting_host (codes " ") clicks)).0

left_complete : lacks_update sorting_host left ≡ false
unfolding run start metric_clicked filter_checked data_type_changed update matches labels group_by
    object_keys scan decode loaded renderer over_time grouped theme_of extend render show_ℕ trim
    ◌>>=◌ is_inherited add_if_absent flat_map
left_complete = refl

left_data_type : left.data_type ≡ codes "batraining"
unfolding data_type_changed ◌>>=◌
left_data_type = (address-update sorting_host _).1

batraining_passes : passes (codes "batraining") ≢ []
batraining_passes e = cc

left_passes : passes left.data_type ≢ []
left_passes e = batraining_passes (ap passes (sym left_data_type) ∙ e)

session-ShowsGroups_example :
    ((handle sorting_host last_click (session sorting_host (codes " ") clicks)).1 ≡ ok tt)
    × (view left ≡ intended last_click (all_intended clicks nothing_selected))
    × ShowsGroups sorting_host left (loaded sorting_host).metrics (loaded sorting_host).scenarios
unfolding trim
session-ShowsGroups_example =
    session-ShowsGroups sorting_host deep-IsDeepExtend sorting_host-IsSort
      sorting_host-IsOrderedSort (codes " ") clicks last_click refl left_complete left_passes
      loaded_ranked
