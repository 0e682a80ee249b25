-- ===== src/Scope/Drawn.antt =====
-- The series of the chart that `renderer` of evaluation/src/site/resources/analysis/scripts/scope.js
-- draws, from the groups of the matching scenarios through `extend` of theme.js.
pub mod Blank
pub mod Turns
pub mod Complete
pub mod Ordered
pub mod Lines
use shabdiz.Prelude.{
  ◌≡◌, ◌⊎◌, refl, sym, ap, ◌∙◌, inl, inr, Bool, true, false, ◌||◌, List, [], ◌∷◌, ◌++◌,
  if◌then◌else◌, append-nil,
}
use shabdiz.Prelude.Result.{ok, ok-inj, ok_parts, ◌>>=◌}
use shabdiz.Text.{Text, codes, eq_text}
use shabdiz.Value.{Value, undefined, arr, obj, Fields, end, field, Host}
use shabdiz.Value.Extend.{IsDeepExtend, as_array}
use shabdiz.Value.Paths.{at_path}
use shabdiz.Value.Paths.Outline.{outline, Alike}
use shabdiz.Metrics.{theme_of}
use shabdiz.Metrics.Kept.{MayHave}
use shabdiz.Query.Matches.{Scenario}
use shabdiz.Scope.Points.{Metric}
use shabdiz.Scope.Series.{Pass, traverse, over_time, grouped, flattened, objects}
use shabdiz.Scope.{one_kind, during, after, scatter, both_kinds, chart_config, renderer, Rendering}
use shabdiz.Scope.Configured.{name_of, renderer-drawing}
use Blank.{series, IsArray, series_of, theme_of-IsBlank, extend-series}

-- The loops over the groups for a kind of data.
abbrev pub passes : Text → List Pass
passes data_type =
    if eq_text data_type (codes "overtime")
    then []
    else if eq_text data_type (codes "overall")
        || eq_text data_type (codes "btraining")
        || eq_text data_type (codes "atraining")
    then one_kind data_type ∷ []
    else if eq_text data_type (codes "batraining")
    then during ∷ after ∷ []
    else []

-- The series of loops one behind the other.
abbrev pub all_series : List (List (Fields × Fields)) → List Fields
all_series [] = []
all_series (pairs ∷ runs) = flattened pairs ++ all_series runs

module _ (h : Host Scenario) where
  module _ (themm : Value) (metric : Metric) (found : List Scenario) where
    -- A chart over groups has the series of its passes; any other has series, or is `undefined`.
    abbrev pub IsMade : Value → List Pass → Type 0
    IsMade config passes =
        ((passes ≡ []) × MayHave series IsArray config)
        ⊎ ((runs : List (List (Fields × Fields))) × (traverse
                (λ pass. grouped h themm metric pass found) passes
              ≡ ok runs)
            × (config ≡ scatter (all_series runs)))

    both_kinds-IsMade :
        {config : Value}
        → both_kinds h themm metric found ≡ ok config
        → IsMade config (during ∷ after ∷ [])
    unfolding both_kinds
    both_kinds-IsMade made =
        let (x, u, v) = ok_parts (grouped h themm metric during found) _ made in
        let (y, s, t) = ok_parts (grouped h themm metric after found) _ v in
        rw (u, s)
          (inr (
            x ∷ y ∷ [],
            refl,
            sym (ok-inj t)
                ∙ ap (λ zs. scatter (flattened x ++ zs)) (sym (append-nil (flattened y))),
          ))

    pub chart_config-IsMade :
        (data_type : Text) {config : Value}
        → chart_config h themm metric found data_type ≡ ok config
        → IsMade config (passes data_type)
    unfolding chart_config
    chart_config-IsMade data_type {config} =
        by_kind (eq_text data_type (codes "overtime"))
          (eq_text data_type (codes "overall")
            || eq_text data_type (codes "btraining")
            || eq_text data_type (codes "atraining"))
          (eq_text data_type (codes "batraining"))
      where
        by_kind :
            (a b c : Bool)
            → (if a
                then (over_time h themm metric 0 found >>= λ lines.
                    ok (obj (field (codes "series") (arr (objects (flattened lines))) end)))
                else if b
                then (grouped h themm metric (one_kind data_type) found >>= λ pairs.
                    ok (scatter (flattened pairs)))
                else if c
                then both_kinds h themm metric found
                else ok undefined)
              ≡ ok config
            → IsMade config (
                if a
                then []
                else if b
                then one_kind data_type ∷ []
                else if c
                then during ∷ after ∷ []
                else [])
        by_kind true b c e =
            let (lines, u, v) = ok_parts (over_time h themm metric 0 found) _ e in
            rw (← ok-inj v) (inl (refl, inr (_, refl, (_, refl))))
        by_kind false true c e =
            let (pairs, u, v) = ok_parts (grouped h themm metric (one_kind data_type) found) _ e in
            rw u (
              inr (
                pairs ∷ [],
                refl,
                sym (ok-inj v) ∙ ap scatter (sym (append-nil (flattened pairs))),
              ))
        by_kind false false true e = both_kinds-IsMade e
        by_kind false false false e = inl (refl, inl (sym (ok-inj e)))

    -- The series of a chart are an array.
    IsMade-IsArray :
        {passes : List Pass} {config : Value} → IsMade config passes → MayHave series IsArray config
    unfolding scatter
    IsMade-IsArray (inl (e, a)) = a
    IsMade-IsArray (inr (runs, e, a)) = rw a (inr (_, refl, (_, refl)))

  module _ (d : IsDeepExtend (h.deep_extend)) where
    -- With `$.extend` as it is documented: where `renderer` returns, whatever the kind of data, the
    -- series of its chart are those of the configuration, or none where that is `undefined`: at each
    -- path there is the same leaf in both, an object in both, an array in both, or `undefined` in
    -- both.
    pub renderer-series :
        (metric : Metric) (found : List Scenario) (data_type : Text) {shown : Rendering}
        → renderer h metric found data_type ≡ ok shown
        → (config : Value) × (chart_config h (theme_of h (name_of metric)) metric found data_type
            ≡ ok config)
          × Alike (series_of shown.chart) (as_array (series_of config))
    renderer-series metric found data_type returned =
        let (config, made, new, drawn) = renderer-drawing h d metric found data_type returned in
        let same =
          extend-series h d _ config (theme_of-IsBlank h d (name_of metric) new)
            (IsMade-IsArray _ metric found (chart_config-IsMade _ metric found data_type made)) in
        (
          config,
          made,
          λ path. ap (λ s. outline (at_path path (series_of s.chart))) drawn ∙ same path,
        )
