-- ===== src/Scope.antt =====
-- evaluation/src/site/resources/analysis/scripts/scope.js: `renderer`, which builds the chart of the
-- matching scenarios.
pub mod Points
pub mod Series
pub mod Title
pub mod Returns
pub mod Configured
pub mod Drawn
use shabdiz.Prelude.{
  ◌+◌, Bool, true, false, ◌||◌, List, [], ◌++◌, Option, none, some, if◌then◌else◌,
}
use shabdiz.Prelude.Result.{Result, ok, err, type_error, ◌>>=◌}
use shabdiz.Text.{Text, codes, eq_text}
use shabdiz.Util.Groups.{property_key}
use shabdiz.Util.Strings.{replace, to_title_case}
use shabdiz.Value.{
  Value, undefined, str, fn, arr, obj, Fields, end, field, read_property, is_nullish, extend_theme,
  Host,
}
use shabdiz.Theme.{extend}
use shabdiz.Metrics.{theme_of}
use shabdiz.Query.Matches.{Scenario}
use Points.{Metric}
use Series.{Pass, over_time, grouped, flattened, objects, file_suffix}

-- `group_by`.
abbrev grouping : Text
grouping = codes "churn"

-- The title of the category axis.
unfoldable pub axis_title : Text
unfolding replace to_title_case
axis_title =
    to_title_case (replace (codes "_") (codes " ") grouping)
    ++ (if eq_text grouping (codes "training_duration") then codes " (Hours)" else [])

-- The configuration of a scatter chart over categories.
unfoldable pub scatter : List Fields → Value
unfolding axis_title
scatter series = obj (
    field (codes "chart") (obj (field (codes "type") (str (codes "scatter")) end)) (
      field (codes "xAxis")
        (obj (
          field (codes "type") (str (codes "category"))
            (field (codes "title") (obj (field (codes "text") (str axis_title) end)) end)))
        (field (codes "series") (arr (objects series)) end)))

-- What the renderer shows: the text that it sets as the page's title, if any, and the chart.
pub record Rendering : Type 0 where
  pub main_title : Option Value
  pub chart : Value

-- The loop of a chart of one kind of data, and the two loops of a chart of two.
abbrev pub one_kind : Text → Pass
one_kind data_type = record {
  suffix = file_suffix data_type;
  name_suffix = [];
  id_suffix = [];
  shift = 0;
  sorts = 1;
}

abbrev pub during : Pass
during = record {
  suffix = codes "_overall_before_training.csv";
  name_suffix = codes " During Training";
  id_suffix = [];
  shift = 0;
  sorts = 1;
}

abbrev pub after : Pass
after = record {
  suffix = codes "_overall_after_training.csv";
  name_suffix = codes " After Training";
  id_suffix = codes "2";
  shift = 2;
  sorts = 2;
}

module _ (h : Host Scenario) where
  -- The chart of both kinds of data, during and after the training.
  unfoldable pub both_kinds : Value → Metric → List Scenario → Result Value
  unfolding scatter
  both_kinds themm metric matches = do
    before ← grouped h themm metric during matches
    after_it ← grouped h themm metric after matches
    ok (scatter (flattened before ++ flattened after_it))

  -- `chart_config`, for the kind of data that is chosen; `undefined` for any other kind.
  unfoldable pub chart_config : Value → Metric → List Scenario → Text → Result Value
  unfolding scatter both_kinds
  chart_config themm metric matches data_type =
      if eq_text data_type (codes "overtime")
      then (do
        series ← over_time h themm metric 0 matches
        ok (obj (field (codes "series") (arr (objects (flattened series))) end)))
      else if eq_text data_type (codes "overall")
          || eq_text data_type (codes "btraining")
          || eq_text data_type (codes "atraining")
      then (do
        series ← grouped h themm metric (one_kind data_type) matches
        ok (scatter (flattened series)))
      else if eq_text data_type (codes "batraining")
      then both_kinds themm metric matches
      else ok undefined

  -- `themm.extend(chart_config)`.
  abbrev pub call_extend : Value → Value → Value → Result Value
  call_extend (fn extend_theme) themm config = ok (extend h themm config)
  call_extend _ themm config = err type_error

  -- `extend.title != undefined && extend.title.text != null`.
  unfoldable pub shows_title : Value → Result Bool
  shows_title title = if is_nullish title then ok false else (do
    text ← read_property (codes "text") title
    ok (if is_nullish text then false else true))

  unfoldable pub renderer : Metric → List Scenario → Text → Result Rendering
  unfolding chart_config shows_title
  renderer metric matches data_type =
      let themm = theme_of h (property_key metric.name) in
      do
        config ← chart_config themm metric matches data_type
        method ← read_property (codes "extend") themm
        extended ← call_extend method themm config
        title ← read_property (codes "title") extended
        shown ← shows_title title
        ok (record { main_title = if shown then some title else none; chart = extended })
