-- ===== src/Scope/Title.antt =====
-- The page's title in evaluation/src/site/resources/analysis/scripts/scope.js: whether the branch
-- that sets it from the chart is ever taken.
pub mod Themes
pub mod Methods
use shabdiz.Prelude.{
  Option, ◌≡◌, refl, sym, ◌||◌, ◌∙◌, inl, inr, Bool, true, false, List, none, some, if◌then◌else◌,
  Bool-cases,
}
use shabdiz.Metrics.Kept.{theme_of_inherited}
use shabdiz.Prelude.Result.{Result, err, type_error, bind-eq, ok-inj, ok, ◌>>=◌, ok_parts}
use shabdiz.Text.{Text, codes, eq_text}
use shabdiz.Util.Groups.{is_inherited, property_key}
use shabdiz.Value.{
  Value, undefined, fn, arr, obj, Fields, end, field, get, Host, extend_theme, read_property,
}
use shabdiz.Value.Extend.{IsDeepExtend}
use shabdiz.Theme.{extend}
use shabdiz.Metrics.{theme_of}
use shabdiz.Query.Matches.{Scenario}
use shabdiz.Scope.Points.{Metric}
use shabdiz.Scope.Series.{over_time, grouped, flattened, objects}
use shabdiz.Scope.{
  both_kinds, scatter, one_kind, during, after, chart_config, call_extend, shows_title, renderer,
  Rendering,
}
use Methods.{IsExtensible, theme_of-IsExtensible}
use Themes.{IsSilent, IsTitled, IsChild, theme-IsTitled, theme_of-IsTitled}

module _ (h : Host Scenario) (d : IsDeepExtend (h.deep_extend)) where
  shows_title-IsSilent : (v : Value) → IsSilent v → shows_title h v ≡ ok false
  unfolding shows_title
  shows_title-IsSilent v (inl (t, e)) = rw e refl
  shows_title-IsSilent v (inr (g, e, n)) = rw (e, n) refl

  -- The configuration of a chart in the theme of its metric, and what is shown of it.
  abbrev pub config_of : Metric → List Scenario → Text → Result Value
  config_of metric = chart_config h (theme_of h (property_key metric.name)) metric

  abbrev pub drawing : Metric → Value → Rendering
  drawing metric config = record {
    main_title = none;
    chart = extend h (theme_of h (property_key metric.name)) config;
  }

  scatter-IsChild : (series : List Fields) → IsChild (scatter series)
  unfolding scatter
  scatter-IsChild series = inr (_, refl, inl refl)

  both_kinds-IsChild :
      (themm : Value) (metric : Metric) (found : List Scenario) {config : Value}
      → both_kinds h themm metric found ≡ ok config
      → IsChild config
  unfolding both_kinds
  both_kinds-IsChild themm metric found e =
      let (x, u, v) = ok_parts (grouped h themm metric during found) _ e in
      let (y, s, t) = ok_parts (grouped h themm metric after found) _ v in
      rw (← ok-inj t) (scatter-IsChild _)

  -- No chart has a title of its own.
  pub chart_config-IsChild :
      (themm : Value) (metric : Metric) (found : List Scenario) (data_type : Text) {config : Value}
      → chart_config h themm metric found data_type ≡ ok config
      → IsChild config
  unfolding chart_config
  chart_config-IsChild themm metric found data_type {config} =
      by_kind (eq_text data_type (codes "overtime"))
        (eq_text data_type (codes "overall")
          || eq_text data_type (codes "btraining")
          || eq_text data_type (codes "atraining"))
        (eq_text data_type (codes "batraining"))
    where
      by_kind :
          (a b c : Bool)
          → (if a
              then (over_time h themm metric 0 found >>= λ series.
                  ok (obj (field (codes "series") (arr (objects (flattened series))) end)))
              else if b
              then (grouped h themm metric (one_kind data_type) found >>= λ series.
                  ok (scatter (flattened series)))
              else if c
              then both_kinds h themm metric found
              else ok undefined)
            ≡ ok config
          → IsChild config
      by_kind true b c e =
          let (series, u, v) = ok_parts (over_time h themm metric 0 found) _ e in
          rw (← ok-inj v) (inr (_, refl, inl refl))
      by_kind false true c e =
          let (series, u, v) = ok_parts (grouped h themm metric (one_kind data_type) found) _ e in
          rw (← ok-inj v) (scatter-IsChild _)
      by_kind false false true e = both_kinds-IsChild themm metric found e
      by_kind false false false e = inl (sym (ok-inj e))

  abbrev rendering : Option Value → Value → Rendering
  rendering title chart = record { main_title = title; chart = chart }

  -- The last lines of `renderer`: the theme's method is called, and the title is left alone.
  finish_lem :
      (themm config : Value)
      → IsTitled themm
      → IsExtensible themm
      → IsChild config
      → (read_property (codes "extend") themm >>= λ method.
          call_extend h method themm config >>= λ extended.
          read_property (codes "title") extended >>= λ title. shows_title h title >>= λ shown.
          ok (rendering (if shown then some title else none) extended))
        ≡ ok (rendering none (extend h themm config))
  finish_lem themm config t (f, u, e) c =
      let (g, v, s) = theme-IsTitled h d themm config t c in
      let has_method : read_property (codes "extend") themm ≡ ok (fn extend_theme) =
        rw (u, e) refl in
      let has_title : read_property (codes "title") (extend h themm config)
          ≡ ok (get (codes "title") g) =
        rw v refl in
      rw (has_method, has_title, shows_title-IsSilent (get (codes "title") g) s) refl

  -- `renderer` throws for a metric whose name every object inherits, and else where the chart does;
  -- the chart that it draws is the theme extended by the configuration.
  pub renderer_lem :
      (metric : Metric) (found : List Scenario) (data_type : Text)
      → renderer h metric found data_type ≡ (
          if is_inherited (property_key metric.name)
          then (config_of metric found data_type >>= λ config. err type_error)
          else (config_of metric found data_type >>= λ config. ok (drawing metric config)))
  unfolding renderer
  renderer_lem metric found data_type =
      elim (Bool-cases (is_inherited (property_key metric.name))) [
        | inl e ↦ rw (e, theme_of_inherited h _ e) refl
        | inr e ↦ rw e (
            bind-eq (config_of metric found data_type) _ _ (λ config made.
              finish_lem _ config (theme_of-IsTitled h d _ e) (theme_of-IsExtensible h d _ e)
                (chart_config-IsChild _ metric found data_type made)))
      ]

  drawn_title :
      (inherited : Bool) (metric : Metric) (found : List Scenario) (data_type : Text)
      {r : Rendering}
      → (if inherited
          then (config_of metric found data_type >>= λ config. err type_error)
          else (config_of metric found data_type >>= λ config. ok (drawing metric config)))
        ≡ ok r
      → r.main_title ≡ none
  drawn_title true metric found data_type e =
      let (config, a, b) = ok_parts (config_of metric found data_type) _ e in cc
  drawn_title false metric found data_type e =
      let (config, a, b) = ok_parts (config_of metric found data_type) _ e in rw (← ok-inj b) refl

  -- With a `$.extend` as jQuery documents it, `renderer` never sets the page's title from the chart.
  pub renderer-main_title :
      (metric : Metric) (found : List Scenario) (data_type : Text) {r : Rendering}
      → renderer h metric found data_type ≡ ok r
      → r.main_title ≡ none
  renderer-main_title metric found data_type e =
      drawn_title (is_inherited (property_key metric.name)) metric found data_type
        (sym (renderer_lem metric found data_type) ∙ e)
