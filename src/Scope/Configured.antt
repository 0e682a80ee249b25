-- ===== src/Scope/Configured.antt =====
-- What stands in a chart that `renderer` of
-- evaluation/src/site/resources/analysis/scripts/scope.js draws: the theme of all charts, the
-- customisation of the metric and the configuration of the chart.
use shabdiz.Prelude.{◌≡◌, refl, sym, ap, ◌∙◌, inl, inr, Bool, true, false, List, if◌then◌else◌}
use shabdiz.Prelude.Result.{Result, ok, err, type_error, ok-inj, ok_parts, ◌>>=◌}
use shabdiz.Text.{Text}
use shabdiz.Util.Groups.{is_inherited, property_key}
use shabdiz.Value.{Value, obj, Fields, Host}
use shabdiz.Value.Extend.{IsDeepExtend}
use shabdiz.Value.Paths.{
  Step, at_path, leaves_alone, leaves_alone_undefined, is_settled, overridden,
}
use shabdiz.Theme.{theme, extend}
use shabdiz.Metrics.{theme_of}
use shabdiz.Metrics.Override.{
  custom_of, theme_of-overridden, theme_of-is_settled, at_path-extend, at_path-extend_undefined,
}
use shabdiz.Query.Matches.{Scenario}
use shabdiz.Scope.Points.{Metric}
use shabdiz.Scope.{chart_config, renderer, Rendering}
use shabdiz.Scope.Title.{config_of, drawing, renderer_lem, chart_config-IsChild}
use shabdiz.Scope.Title.Themes.{IsChild, IsTitled, theme_of-IsTitled}
use shabdiz.Scope.Title.Methods.{IsExtensible, theme_of-IsExtensible}
use shabdiz.Scope.Returns.Tables.{IsConverting, theme_of-IsConverting}

abbrev pub name_of : Metric → Text
name_of metric = property_key metric.name

-- What `renderer` reads of a theme: the method that extends it, a table that has a function at `y`
-- that converts or nothing, and a title that is a text or an object with a `null` text.
pub record IsTheme (v : Value) : Type 0 where
  pub extensible : IsExtensible v
  pub converting : IsConverting v
  pub titled : IsTitled v

module _ (h : Host Scenario) (d : IsDeepExtend (h.deep_extend)) where
  -- With `$.extend` as it is documented, the theme of every metric whose name objects do not
  -- inherit is an object that has the method `extend` of all themes, an object `convert` with a
  -- function that converts or `undefined` at `y`, and a title that is a text or an object with a
  -- `null` text.
  pub theme_of-IsTheme : (name : Text) → is_inherited name ≡ false → IsTheme (theme_of h name)
  theme_of-IsTheme name new = record {
    extensible = theme_of-IsExtensible h d name new;
    converting = theme_of-IsConverting h d name new;
    titled = theme_of-IsTitled h d name new;
  }

  at_path-chart :
      (path : List Step) (t : Fields) (config : Value)
      → IsChild config
      → is_settled path (obj t) ≡ true
      → is_settled path config ≡ true
      → at_path path (extend h (obj t) config) ≡ overridden path (obj t) config
  at_path-chart path t config (inl u) e g =
      rw (u, leaves_alone_undefined path) (at_path-extend_undefined h d path t e)
  at_path-chart path t config (inr (f, u, q)) e g =
      rw u (at_path-extend h d path t f e (ap (is_settled path) (sym u) ∙ g))

  -- What the chart of a metric has at a path: the configuration before the customisation of the
  -- metric before the theme of all charts.
  abbrev pub cascade : List Step → Metric → Value → Value
  cascade path metric config =
      if leaves_alone path config
      then overridden path (theme h) (custom_of h (name_of metric))
      else at_path path config

  drawn_parts :
      (inherited : Bool) (metric : Metric) (made : Result Value) {shown : Rendering}
      → is_inherited (name_of metric) ≡ inherited
      → (if inherited
          then (made >>= λ config. err type_error)
          else (made >>= λ config. ok (drawing h d metric config)))
        ≡ ok shown
      → (config : Value) × (made ≡ ok config)
        × (is_inherited (name_of metric) ≡ false)
        × (shown ≡ drawing h d metric config)
  drawn_parts true metric made e s = let (config, a, b) = ok_parts made _ s in cc
  drawn_parts false metric made e s =
      let (config, a, b) = ok_parts made _ s in (config, a, e, sym (ok-inj b))

  -- Where `renderer` returns, its chart is the theme of the metric extended by the configuration.
  pub renderer-drawing :
      (metric : Metric) (found : List Scenario) (data_type : Text) {shown : Rendering}
      → renderer h metric found data_type ≡ ok shown
      → (config : Value) × (config_of h d metric found data_type ≡ ok config)
        × (is_inherited (name_of metric) ≡ false)
        × (shown ≡ drawing h d metric config)
  renderer-drawing metric found data_type returned =
      drawn_parts _ metric (config_of h d metric found data_type) refl
        (sym (renderer_lem h d metric found data_type) ∙ returned)

  -- With `$.extend` as it is documented: where `renderer` returns, its chart has at each path what
  -- the configuration has there, else what the customisation of the metric has, else what the theme
  -- of all charts has, if at that path each of the three has a leaf (a text, a number, a Boolean, a
  -- function or `null`) or leaves all alone.
  pub renderer-cascade :
      (path : List Step) (metric : Metric) (found : List Scenario) (data_type : Text)
      {config : Value} {shown : Rendering}
      → chart_config h (theme_of h (name_of metric)) metric found data_type ≡ ok config
      → renderer h metric found data_type ≡ ok shown
      → is_settled path (theme h) ≡ true
      → is_settled path (custom_of h (name_of metric)) ≡ true
      → is_settled path config ≡ true
      → at_path path shown.chart ≡ cascade path metric config
  renderer-cascade path metric found data_type {config} {shown} made returned base custom own =
      let (other, first, new, drawn_other) = renderer-drawing metric found data_type returned in
      let drawn : shown ≡ drawing h d metric config =
        drawn_other ∙ ap (drawing h d metric) (ok-inj (sym first ∙ made)) in
      let (t, is_theme, titled) = theme_of-IsTitled h d (name_of metric) new in
      let child = chart_config-IsChild h d _ metric found data_type made in
      let settled = theme_of-is_settled h d (name_of metric) path new base custom in
      ap (λ s. at_path path s.chart) drawn
      ∙ ap (λ v. at_path path (extend h v config)) is_theme
      ∙ at_path-chart path t config child (ap (is_settled path) (sym is_theme) ∙ settled) own
      ∙ ap (λ v. overridden path v config) (sym is_theme)
      ∙ ap (λ v. if leaves_alone path config then v else at_path path config)
          (theme_of-overridden h d (name_of metric) path new base custom)
