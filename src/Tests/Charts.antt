-- ===== src/Tests/Charts.antt =====
-- Runs of what is proved of charts and their series.
use shabdiz.Prelude.{◌≡◌, ◌≢◌, refl, List, [], none, some}
use shabdiz.Prelude.Result.{ok}
use shabdiz.Text.{codes}
use shabdiz.Value.{Value, undefined, arr, Fields}
use shabdiz.Value.Extend.{as_array}
use shabdiz.Value.Paths.Outline.{Alike}
use shabdiz.Scope.Configured.{name_of}
use shabdiz.Scope.Drawn.{passes, renderer-series}
use shabdiz.Scope.Drawn.Turns.{InTurn}
use shabdiz.Scope.Drawn.Complete.{CompleteSeries, renderer-CompleteSeries}
use shabdiz.Scope.Drawn.Blank.{series_of}
use shabdiz.Scope.Drawn.Lines.{renderer-Unlinked}
use shabdiz.Text.Number.{scan}
use shabdiz.Theme.{extend}
use shabdiz.Metrics.{theme_of}
use shabdiz.Util.Groups.{Groups, group_by, object_keys, is_inherited}
use shabdiz.Query.Matches.{Scenario}
use shabdiz.Scope.{chart_config, renderer, Rendering}
use shabdiz.Scope.Series.{over_time, grouped, flattened, objects}
use shabdiz.Scope.Series.Linked.{Unlinked}
use shabdiz.Scope.Title.{renderer-main_title}
use shabdiz.Tests.Hosts.{host, deep-IsDeepExtend, host-IsSort, metric, scenarios, returned}

abbrev lines : Rendering
lines =
    returned (record { main_title = some undefined; chart = undefined })
      (renderer host metric scenarios (codes "overtime"))

lines_return : renderer host metric scenarios (codes "overtime") ≡ ok lines
unfolding renderer over_time is_inherited theme_of extend
lines_return = refl

renderer-Unlinked_example :
    (pairs : List (Fields × Fields)) × Unlinked host
      (theme_of host (name_of metric))
      metric
      0
      scenarios
      pairs
    × Alike (series_of lines.chart) (arr (objects (flattened pairs)))
renderer-Unlinked_example = renderer-Unlinked host deep-IsDeepExtend metric scenarios lines_return

abbrev shown : Rendering
shown =
    returned (record { main_title = some undefined; chart = undefined })
      (renderer host metric scenarios (codes "batraining"))

renderer_returns : renderer host metric scenarios (codes "batraining") ≡ ok shown
unfolding renderer grouped group_by object_keys scan theme_of extend
renderer_returns = refl

renderer-main_title_example : shown.main_title ≡ none
renderer-main_title_example =
    renderer-main_title host deep-IsDeepExtend metric scenarios (codes "batraining")
      renderer_returns

renderer-series_example :
    (config : Value) × (chart_config host
        (theme_of host (name_of metric))
        metric
        scenarios
        (codes "batraining")
      ≡ ok config)
    × Alike (series_of shown.chart) (as_array (series_of config))
renderer-series_example =
    renderer-series host deep-IsDeepExtend metric scenarios (codes "batraining") renderer_returns

batraining_passes : passes (codes "batraining") ≢ []
batraining_passes e = cc

renderer-CompleteSeries_example :
    (groups : Groups Scenario) × (series : List Fields) × (group_by
        (λ match. match.peer_configuration)
        none
        scenarios
      ≡ ok groups)
    × InTurn
        (CompleteSeries host (theme_of host (name_of metric)) metric scenarios groups)
        (passes (codes "batraining"))
        series
    × Alike (series_of shown.chart) (arr (objects series))
renderer-CompleteSeries_example =
    renderer-CompleteSeries host deep-IsDeepExtend host-IsSort metric scenarios (codes "batraining")
      batraining_passes renderer_returns
