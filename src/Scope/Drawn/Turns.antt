-- ===== src/Scope/Drawn/Turns.antt =====
-- The loops over the groups of `renderer` in
-- evaluation/src/site/resources/analysis/scripts/scope.js, one behind the other, in the chart that
-- is drawn.
use shabdiz.Prelude.{
  ℕ, suc, ◌≡◌, ◌≢◌, refl, ap, ◌∙◌, inl, inr, Bool, true, false, ◌||◌, if◌then◌else◌, List, [], ◌∷◌,
  ◌++◌, none,
}
use shabdiz.Prelude.Result.{ok, ok-inj, ok_parts}
use shabdiz.Text.{Text, codes, eq_text}
use shabdiz.Util.Groups.{Groups, group_by}
use shabdiz.Value.{Value, arr, Fields, Host}
use shabdiz.Value.Extend.{IsDeepExtend, as_array}
use shabdiz.Value.Paths.{at_path}
use shabdiz.Value.Paths.Outline.{outline, Alike}
use shabdiz.Metrics.{theme_of}
use shabdiz.Query.Matches.{Scenario}
use shabdiz.Scope.Points.{Metric}
use shabdiz.Scope.Series.{Pass, traverse, grouped, flattened, objects}
use shabdiz.Scope.Series.Linked.{grouped-Linked}
use shabdiz.Scope.{one_kind, during, after, scatter, renderer, Rendering}
use shabdiz.Scope.Configured.{name_of}
use shabdiz.Scope.Drawn.Blank.{series_of}
use shabdiz.Scope.Drawn.{passes, all_series, chart_config-IsMade, renderer-series}

-- The series are those of loops, one behind the other, each of which is so.
abbrev pub InTurn : (Pass → List (Fields × Fields) → Type 0) → List Pass → List Fields → Type 0
InTurn P [] series = series ≡ []
InTurn P (pass ∷ rest) series =
    (pairs : List (Fields × Fields)) × (more : List Fields) × (series ≡ flattened pairs ++ more)
    × P pass pairs
    × InTurn P rest more

-- The loop reads groups that have been sorted.
abbrev pub IsSorting : Pass → Type 0
IsSorting pass = (n : ℕ) × (pass.sorts ≡ suc n)

abbrev Sorting : List Pass → Type 0
Sorting [] = Unit
Sorting (pass ∷ rest) = IsSorting pass × Sorting rest

passes-Sorting : (data_type : Text) → Sorting (passes data_type)
passes-Sorting data_type =
    by_kind (eq_text data_type (codes "overtime"))
      (eq_text data_type (codes "overall")
        || eq_text data_type (codes "btraining")
        || eq_text data_type (codes "atraining"))
      (eq_text data_type (codes "batraining"))
  where
    by_kind :
        (a b c : Bool)
        → Sorting (
            if a
            then []
            else if b
            then one_kind data_type ∷ []
            else if c
            then during ∷ after ∷ []
            else [])
    by_kind true b c = tt
    by_kind false true c = ((0, refl), tt)
    by_kind false false true = ((0, refl), ((1, refl), tt))
    by_kind false false false = tt

module _ (h : Host Scenario) (themm : Value) (metric : Metric) (found : List Scenario) where
  -- What groups the scenarios.
  abbrev pub IsGrouping : Groups Scenario → Type 0
  IsGrouping groups = group_by (λ match. match.peer_configuration) none found ≡ ok groups

  -- Where a loop over the groups returns, the scenarios have been grouped.
  traverse-IsGrouping :
      (ps : List Pass) {runs : List (List (Fields × Fields))}
      → ps ≢ []
      → traverse (λ pass. grouped h themm metric pass found) ps ≡ ok runs
      → (groups : Groups Scenario) × IsGrouping groups
  traverse-IsGrouping [] some_pass e = absurd (some_pass refl)
  traverse-IsGrouping (pass ∷ rest) some_pass e =
      let (pairs, a, b) = ok_parts (grouped h themm metric pass found) _ e in
      let (groups, made, linked) = grouped-Linked h themm metric pass found a in (groups, made)

  -- What holds of every loop that returns.
  abbrev pub IsHeld : (Pass → List (Fields × Fields) → Type 0) → Type 0
  IsHeld P =
      (pass : Pass) (pairs : List (Fields × Fields))
      → IsSorting pass
      → grouped h themm metric pass found ≡ ok pairs
      → P pass pairs

  traverse-InTurn :
      (P : Pass → List (Fields × Fields) → Type 0)
      → IsHeld P
      → (ps : List Pass) → Sorting ps
      → {runs : List (List (Fields × Fields))}
      → traverse (λ pass. grouped h themm metric pass found) ps ≡ ok runs
      → InTurn P ps (all_series runs)
  traverse-InTurn P held [] often e = rw (← ok-inj e) refl
  traverse-InTurn P held (pass ∷ rest) (once, often) e =
      let (pairs, a, b) = ok_parts (grouped h themm metric pass found) _ e in
      let (runs, c, k) = ok_parts (traverse (λ p. grouped h themm metric p found) rest) _ b in
      rw (← ok-inj k)
        (pairs, all_series runs, refl, held pass pairs once a, traverse-InTurn P held rest often c)

module _ (h : Host Scenario) (d : IsDeepExtend (h.deep_extend)) where
  -- The chart over groups that `renderer` draws has the series of its loops, one behind the other,
  -- each of which is as every loop that returns.
  pub renderer-InTurn :
      (metric : Metric) (found : List Scenario) (data_type : Text)
      (P : Groups Scenario → Pass → List (Fields × Fields) → Type 0) {shown : Rendering}
      → ((groups : Groups Scenario)
          → IsGrouping h (theme_of h (name_of metric)) metric found groups
          → IsHeld h (theme_of h (name_of metric)) metric found (P groups))
      → passes data_type ≢ []
      → renderer h metric found data_type ≡ ok shown
      → (groups : Groups Scenario) × (series : List Fields) × (group_by
            (λ match. match.peer_configuration)
            none
            found
          ≡ ok groups)
        × InTurn (P groups) (passes data_type) series
        × Alike (series_of shown.chart) (arr (objects series))
  unfolding scatter
  renderer-InTurn metric found data_type P held grouping returned =
      let (config, made, same) = renderer-series h d metric found data_type returned in
      elim (chart_config-IsMade h _ metric found data_type made) [
        | inl (no_pass, child) ↦ absurd (grouping no_pass)
        | inr (runs, e, scattered) ↦
            let (groups, g) = traverse-IsGrouping h _ metric found (passes data_type) grouping e in
            (
              groups,
              all_series runs,
              g,
              traverse-InTurn h _ metric found (P groups) (held groups g) (passes data_type)
                  (passes-Sorting data_type) e,
              λ path.
                  same path ∙ ap (λ v. outline (at_path path (as_array (series_of v)))) scattered,
            )
      ]
