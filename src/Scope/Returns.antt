-- ===== src/Scope/Returns.antt =====
-- Which charts evaluation/src/site/resources/analysis/scripts/scope.js can draw: where `renderer`
-- returns, and where it throws.
pub mod Tables
pub mod Conversions
pub mod Loops
use shabdiz.Prelude.Result.{is_error, is_error-after, is_error-bind}
use shabdiz.Prelude.{
  ◌≡◌, refl, ◌∙◌, Bool, false, ◌||◌, List, any, if◌then◌else◌, Bool-cases, inl, inr, arith,
}
use shabdiz.Text.{Text, codes, eq_text}
use shabdiz.Util.Groups.{property_key, is_inherited}
use shabdiz.Value.{Value, Host}
use shabdiz.Value.Extend.{IsDeepExtend}
use shabdiz.Value.Sort.{IsSort}
use shabdiz.Query.Matches.{Scenario}
use shabdiz.Scope.Points.{Metric}
use shabdiz.Scope.Series.{file_suffix, over_time, grouped}
use shabdiz.Scope.{one_kind, during, after, both_kinds, chart_config, renderer}
use shabdiz.Scope.Title.{renderer_lem, config_of}
use Tables.{IsConverting, theme_of-IsConverting}
use Loops.{lacks, over_time-is_error, grouped-is_error}

-- What groups the scenarios by a name that objects inherit.
abbrev pub groups_inherited : List Scenario → Bool
groups_inherited = any (λ match. is_inherited (property_key match.peer_configuration))

-- Where the chart of a kind of data cannot be made.
abbrev pub lacks_chart : Host Scenario → Metric → Text → List Scenario → Bool
lacks_chart h metric data_type found =
    if eq_text data_type (codes "overtime")
    then false
    else if eq_text data_type (codes "overall")
        || eq_text data_type (codes "btraining")
        || eq_text data_type (codes "atraining")
    then groups_inherited found || any (lacks h metric (file_suffix data_type)) found
    else if eq_text data_type (codes "batraining")
    then groups_inherited found
      || any (lacks h metric (codes "_overall_before_training.csv")) found
      || any (lacks h metric (codes "_overall_after_training.csv")) found
    else false

module _ (h : Host Scenario) (d : IsDeepExtend (h.deep_extend)) (sorts : IsSort (h.sort)) where
  module _ (themm : Value) (table : IsConverting themm) (metric : Metric)
      (found : List Scenario) where
    both_kinds-is_error : is_error (both_kinds h themm metric found) ≡ (
        groups_inherited found
        || any (lacks h metric (codes "_overall_before_training.csv")) found
        || any (lacks h metric (codes "_overall_after_training.csv")) found)
    unfolding both_kinds
    both_kinds-is_error =
        is_error-bind (grouped h themm metric during found) _
          (λ before e. is_error-bind (grouped h themm metric after found) _ (λ after_it k. refl))
        ∙ rw
            (
              grouped-is_error h themm table d sorts metric during found,
              grouped-is_error h themm table d sorts metric after found,
            )
            (ground arith)

    chart_config-is_error :
        (data_type : Text)
        → is_error (chart_config h themm metric found data_type)
          ≡ lacks_chart h metric data_type found
    unfolding chart_config
    chart_config-is_error data_type = elim (Bool-cases (eq_text data_type (codes "overtime"))) [
      | inl a ↦ rw a (
          is_error-after (over_time h themm metric 0 found) _
            (over_time-is_error h themm table d metric 0 found) (λ series. refl))
      | inr a ↦
          elim (Bool-cases (
            eq_text data_type (codes "overall")
            || eq_text data_type (codes "btraining")
            || eq_text data_type (codes "atraining"))) [
              | inl b ↦
                  rw (a, b)
                    (is_error-bind (grouped h themm metric (one_kind data_type) found) _
                        (λ series e. refl)
                      ∙ rw
                          (grouped-is_error h themm table d sorts metric (one_kind data_type) found)
                          (ground arith))
              | inr b ↦ elim (Bool-cases (eq_text data_type (codes "batraining"))) [
                | inl c ↦ rw (a, b, c) both_kinds-is_error
                | inr c ↦ rw (a, b, c) refl
              ]
            ]
    ]

  -- With a `$.extend` as jQuery documents it and a sort that rearranges, `renderer` throws exactly
  -- where the metric has a name that objects inherit, or the chart cannot be made: over time it
  -- always can, and over groups unless a peer configuration is such a name or a matching scenario
  -- has no churn or no row in a file that the kind of data reads.
  pub renderer-is_error :
      (metric : Metric) (found : List Scenario) (data_type : Text)
      → is_error (renderer h metric found data_type)
        ≡ (is_inherited (property_key metric.name) || lacks_chart h metric data_type found)
  renderer-is_error metric found data_type =
      elim (Bool-cases (is_inherited (property_key metric.name))) [
        | inl e ↦
            rw (renderer_lem h d metric found data_type, e)
              (is_error-bind (config_of h d metric found data_type) _ (λ c k. refl) ∙ ground arith)
        | inr e ↦
            rw (renderer_lem h d metric found data_type, e)
              (is_error-bind (config_of h d metric found data_type) _ (λ c k. refl)
                ∙ rw
                    (chart_config-is_error _
                      (theme_of-IsConverting h d (property_key metric.name) e) metric found
                      data_type)
                    (ground arith))
      ]
