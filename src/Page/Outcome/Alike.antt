-- ===== src/Page/Outcome/Alike.antt =====
-- What pages with the same query, kind of data and tables have in common, where `update` of
-- evaluation/src/site/resources/analysis/scripts/query.js has returned.
use shabdiz.Prelude.{◌≡◌, refl, sym, ◌∙◌, ap, Bool, true, false, List, some, if◌then◌else◌}
use shabdiz.Prelude.Result.{ok, err, type_error, ok-inj}
use shabdiz.Value.{Host}
use shabdiz.Value.Extend.{IsDeepExtend}
use shabdiz.Value.Sort.{IsSort}
use shabdiz.Query.{Query}
use shabdiz.Query.Matches.{Scenario, at, matches}
use shabdiz.Query.Matches.Reference.{fails, matches-reference, reference}
use shabdiz.Scope.{renderer}
use shabdiz.Scope.Series.{text_value}
use shabdiz.Scope.Returns.{renderer-is_error}
use shabdiz.Page.{Page}
use shabdiz.Page.Outcome.Throws.{lacks_update}
use shabdiz.Page.Outcome.Current.{IsCurrent, last_set, chart_of, title_of}

matched-reference :
    (q : Query) (scenarios : List Scenario) {found : List Scenario}
    → matches q scenarios ≡ ok found
    → (fails q scenarios ≡ false) × (reference q scenarios ≡ found)
matched-reference q scenarios {found} e =
    by_cases (fails q scenarios) (sym (matches-reference q scenarios) ∙ e)
  where
    by_cases :
        (b : Bool)
        → (if b then err type_error else ok (reference q scenarios)) ≡ ok found
        → (b ≡ false) × (reference q scenarios ≡ found)
    by_cases true k = cc
    by_cases false k = (refl, ok-inj k)

-- Pages with the same query, kind of data and tables.
pub record IsAlike (p q : Page) : Type 0 where
  pub same_query : p.query ≡ q.query
  pub same_data_type : p.data_type ≡ q.data_type
  pub same_metrics : p.metrics ≡ q.metrics
  pub same_scenarios : p.scenarios ≡ q.scenarios

module _ (h : Host Scenario) where
  pub lacks_update-IsAlike : (p q : Page) → IsAlike p q → lacks_update h p ≡ lacks_update h q
  lacks_update-IsAlike p q a = λ i. lacks_update h (record p {
    query = a.same_query i;
    data_type = a.same_data_type i;
    metrics = a.same_metrics i;
    scenarios = a.same_scenarios i;
  })

  -- What a current page shows is settled by its query, its kind of data and its tables.
  pub same_shown :
      (p q : Page)
      → IsAlike p q
      → IsCurrent h p
      → IsCurrent h q
      → (p.matches ≡ q.matches)
        × (last_set chart_of p.effects ≡ last_set chart_of q.effects)
        × (last_set title_of p.effects ≡ last_set title_of q.effects)
  same_shown p q a c d =
      let same_some : some c.shown ≡ some d.shown =
        sym c.chosen ∙ (λ i. at (a.same_metrics i) ((a.same_query i).metric)) ∙ d.chosen in
      let metrics : c.shown ≡ d.shown = cc in
      let found : p.matches ≡ q.matches =
        ok-inj (sym c.matched ∙ (λ i. matches (a.same_query i) (a.same_scenarios i)) ∙ d.matched) in
      let drawings : c.rendering ≡ d.rendering = ok-inj (
        sym c.rendered
        ∙ (λ i. renderer h (metrics i) (found i) (a.same_data_type i))
        ∙ d.rendered) in
      (
        found,
        c.drawn ∙ ap (λ r. some r.chart) drawings ∙ sym d.drawn,
        c.titled ∙ ap (λ m. some (text_value m.name)) metrics ∙ sym d.titled,
      )

  module _ (d : IsDeepExtend (h.deep_extend)) (sorts : IsSort (h.sort)) where
    pub IsCurrent-lacks_update : (p : Page) → IsCurrent h p → lacks_update h p ≡ false
    IsCurrent-lacks_update p c =
        let (passes, found) = matched-reference p.query p.scenarios c.matched in
        rw (lacks_update, c.chosen, passes, found)
          (sym (renderer-is_error h d sorts c.shown p.matches p.data_type) ∙ rw c.rendered refl)
