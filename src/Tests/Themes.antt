-- ===== src/Tests/Themes.antt =====
-- Runs of what is proved of the themes of metrics.
use shabdiz.Prelude.{◌≡◌, refl, none, List, [], ◌∷◌}
use shabdiz.Text.{codes}
use shabdiz.Prelude.Result.{ok}
use shabdiz.Value.{Value, undefined, str, num}
use shabdiz.Value.Paths.{Step, at_key, at_index, at_path, overridden}
use shabdiz.Util.Groups.{is_inherited}
use shabdiz.Theme.{theme, extend}
use shabdiz.Metrics.{theme_of}
use shabdiz.Metrics.Override.{custom_of, theme_of-overridden}
use shabdiz.Scope.Points.{converted}
use shabdiz.Scope.Returns.Conversions.{conversion, convert_by, converted-custom_of}
use shabdiz.Scope.{chart_config, renderer, Rendering}
use shabdiz.Scope.Series.{over_time}
use shabdiz.Scope.Configured.{name_of, cascade, renderer-cascade, IsTheme, theme_of-IsTheme}
use shabdiz.Tests.Hosts.{host, deep-IsDeepExtend, metric, scenarios, returned}

-- The title of the value axis, which the metric sets, and the colour of its text, which it does not.
abbrev axis_title : List Step
axis_title = at_key (codes "yAxis") ∷ at_key (codes "title") ∷ at_key (codes "text") ∷ []

abbrev axis_colour : List Step
axis_colour =
    at_key (codes "yAxis")
    ∷ at_key (codes "labels")
    ∷ at_key (codes "style")
    ∷ at_key (codes "color")
    ∷ []

theme_of-overridden_example :
    at_path axis_title (theme_of host (codes "join_failure_rate"))
    ≡ overridden axis_title (theme host) (custom_of host (codes "join_failure_rate"))
unfolding is_inherited
theme_of-overridden_example =
    theme_of-overridden host deep-IsDeepExtend (codes "join_failure_rate") axis_title refl refl refl

colour_kept :
    overridden axis_colour (theme host) (custom_of host (codes "join_failure_rate"))
    ≡ str (codes "black")
colour_kept = refl

converted-custom_of_example :
    converted host (theme_of host (codes "lookup_correctness_ratio")) (num 7)
    ≡ convert_by host
        (at_path conversion (custom_of host (codes "lookup_correctness_ratio")))
        (num 7)
unfolding is_inherited
converted-custom_of_example =
    converted-custom_of host deep-IsDeepExtend (codes "lookup_correctness_ratio") (num 7) refl

-- The name of the first line over time.
abbrev first_name : List Step
first_name = at_key (codes "series") ∷ at_index 0 ∷ at_key (codes "name") ∷ []

abbrev config : Value
config =
    returned undefined
      (chart_config host (theme_of host (name_of metric)) metric scenarios (codes "overtime"))

config_returns :
    chart_config host (theme_of host (name_of metric)) metric scenarios (codes "overtime")
    ≡ ok config
unfolding chart_config is_inherited over_time theme_of extend
config_returns = refl

abbrev shown : Rendering
shown =
    returned (record { main_title = none; chart = undefined })
      (renderer host metric scenarios (codes "overtime"))

renderer_returns : renderer host metric scenarios (codes "overtime") ≡ ok shown
unfolding renderer theme_of extend is_inherited over_time
renderer_returns = refl

renderer-cascade_example :
    at_path first_name shown.chart ≡ cascade host deep-IsDeepExtend first_name metric config
unfolding chart_config over_time theme_of is_inherited extend
renderer-cascade_example =
    renderer-cascade host deep-IsDeepExtend first_name metric scenarios (codes "overtime")
      config_returns renderer_returns refl refl refl

theme_of-IsTheme_example : IsTheme (theme_of host (codes "lookup_correctness_ratio"))
unfolding is_inherited
theme_of-IsTheme_example =
    theme_of-IsTheme host deep-IsDeepExtend (codes "lookup_correctness_ratio") refl
