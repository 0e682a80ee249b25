-- ===== src/Scope/Returns/Conversions.antt =====
-- The conversion that a chart of evaluation/src/site/resources/analysis/scripts/scope.js applies:
-- from the customisation in metric_themes.js through `extend` of theme.js to the values of a row.
use shabdiz.Prelude.{
  ℕ, ◌≡◌, refl, ap, ◌∙◌, inl, inr, Bool, true, false, List, [], ◌∷◌, Bool-cases, arith,
}
use shabdiz.Prelude.Int.{pos}
use shabdiz.Prelude.Result.{Result, ok}
use shabdiz.Text.{Text, codes, eq_text}
use shabdiz.Util.Groups.{is_inherited}
use shabdiz.Value.{Value, undefined, fn, Fields, end, field, get, Host}
use shabdiz.Value.Extend.{IsDeepExtend}
use shabdiz.Value.Paths.{Step, at_key, at_path, is_settled}
use shabdiz.Metrics.{customisations, theme_of}
use shabdiz.Metrics.Kept.{all_fields}
use shabdiz.Metrics.Override.{custom_of, overridden-copy, theme_of-overridden}
use shabdiz.Theme.{theme}
use shabdiz.Query.Matches.{Scenario}
use shabdiz.Scope.Points.{convert, converted}
use shabdiz.Scope.Returns.Tables.{IsConverting, theme_of-IsConverting}

-- Where a theme has its conversion.
abbrev pub conversion : List Step
conversion = at_key (codes "convert") ∷ at_key (codes "y") ∷ []

get-all_fields :
    (test : Value → Bool) (name : Text) (f : Fields)
    → test undefined ≡ true
    → all_fields test f ≡ true
    → test (get name f) ≡ true
get-all_fields test name end u a = u
get-all_fields test name (field k v rest) u a = elim (Bool-cases (eq_text k name)) [
  | inl e ↦ rw e (ground arith)
  | inr e ↦ rw e (get-all_fields test name rest u (ground arith))
]

customisations-settled : (n : ℕ → ℕ) → all_fields (is_settled conversion) (customisations n) ≡ true
customisations-settled n = refl

module _ (h : Host Scenario) where
  -- A function converts; nothing leaves the value as it is.
  abbrev pub convert_by : Value → Value → Result Value
  convert_by (fn f) v = convert h f v
  convert_by _ v = ok v

  module _ (d : IsDeepExtend (h.deep_extend)) where
    converted-at_path :
        (themm v : Value)
        → IsConverting themm
        → converted h themm v ≡ convert_by (at_path conversion themm) v
    unfolding converted
    converted-at_path themm v (f, a, (g, b, inl c)) = rw (a, b, c) refl
    converted-at_path themm v (f, a, (g, b, inr (y, c, good))) = rw (a, b, c) refl

    -- With `$.extend` as it is documented: the chart of a metric whose name objects do not inherit
    -- converts a value with the function that the metric's customisation has at `convert.y`, and
    -- keeps it where the customisation has none or the metric has no customisation.
    pub converted-custom_of :
        (name : Text) (v : Value)
        → is_inherited name ≡ false
        → converted h (theme_of h name) v ≡ convert_by (at_path conversion (custom_of h name)) v
    converted-custom_of name v own =
        let settled =
          get-all_fields (is_settled conversion) name (customisations (λ n. h.decimal (pos n) 0))
            refl (customisations-settled (λ n. h.decimal (pos n) 0)) in
        converted-at_path (theme_of h name) v (theme_of-IsConverting h d name own)
        ∙ ap (λ w. convert_by w v)
            (theme_of-overridden h d name conversion own refl settled
              ∙ overridden-copy h d conversion (theme h) (custom_of h name) (λ u. refl))
