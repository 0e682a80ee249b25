-- ===== src/Page/Outcome/Throws.antt =====
-- Where `update` of evaluation/src/site/resources/analysis/scripts/query.js throws: in itself, in
-- `matches` or in the renderer of scope.js.
use shabdiz.Prelude.{
  ◌≡◌, refl, ◌∙◌, Bool, true, ◌||◌, List, Option, none, some, Bool-cases, inl, inr,
}
use shabdiz.Prelude.Result.{Result, ok, err, is_error}
use shabdiz.Value.{Host}
use shabdiz.Value.Extend.{IsDeepExtend}
use shabdiz.Value.Sort.{IsSort}
use shabdiz.Util.Groups.{property_key, is_inherited}
use shabdiz.Query.Matches.{Scenario, at, matches}
use shabdiz.Query.Matches.Reference.{fails, reference, matches-reference}
use shabdiz.Scope.{Rendering}
use shabdiz.Scope.Points.{Metric}
use shabdiz.Scope.Returns.{lacks_chart, renderer-is_error}
use shabdiz.Page.{Page, update}
use shabdiz.Page.Outcome.{chosen, found_all, drawn, hashed, update-chosen}

-- Where the page has no chart for a metric: the metric is out of range, the scenarios cannot be
-- matched, or the renderer cannot draw them.
abbrev pub lacks_update : Host Scenario → Page → Bool
lacks_update h p = elim (at p.metrics p.query.metric) [
  | none ↦ true
  | some m ↦
      fails p.query p.scenarios
      || is_inherited (property_key m.name)
      || lacks_chart h m p.data_type (reference p.query p.scenarios)
]

module _ (h : Host Scenario) where
  drawn-is_error :
      (p : Page) (m : Metric) (found : List Scenario) (r : Result Rendering)
      → is_error (drawn h p m found r).1 ≡ is_error r
  drawn-is_error p m found (ok r) = refl
  drawn-is_error p m found (err e) = refl

  module _ (d : IsDeepExtend (h.deep_extend)) (sorts : IsSort (h.sort)) where
    found_all-is_error :
        (p : Page) (m : Metric)
        → is_error (found_all h p m (matches p.query p.scenarios)).1 ≡ (
            fails p.query p.scenarios
            || is_inherited (property_key m.name)
            || lacks_chart h m p.data_type (reference p.query p.scenarios))
    found_all-is_error p m = elim (Bool-cases (fails p.query p.scenarios)) [
      | inl e ↦ rw (matches-reference p.query p.scenarios, e) refl
      | inr e ↦
          rw (matches-reference p.query p.scenarios, e)
            (drawn-is_error p m (reference p.query p.scenarios) _
              ∙ renderer-is_error h d sorts m (reference p.query p.scenarios) p.data_type)
    ]

    chosen-is_error :
        (p : Page) (o : Option Metric)
        → at p.metrics p.query.metric ≡ o
        → is_error (chosen h (hashed p) o).1 ≡ lacks_update h p
    chosen-is_error p none e = rw (lacks_update, e) refl
    chosen-is_error p (some m) e = rw (lacks_update, e) (found_all-is_error (hashed p) m)

    -- With a `$.extend` as jQuery documents it and a sort that rearranges, `update` throws exactly
    -- where the metric is out of range, `matches` throws, the metric has a name that objects
    -- inherit, or the chart of the matching scenarios cannot be made; else it returns.
    pub update-is_error : (p : Page) → is_error (update h p).1 ≡ lacks_update h p
    update-is_error p = rw (update-chosen h p) (chosen-is_error p _ refl)
