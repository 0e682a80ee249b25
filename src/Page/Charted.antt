-- ===== src/Page/Charted.antt =====
-- From the user's clicks to the chart: the events of action.js, `matches` of query.js and `renderer`
-- of scope.js in evaluation/src/site/resources/analysis/scripts, one behind the other.
use shabdiz.Prelude.{
  ◌≡◌, ◌≢◌, sym, ap, subst, ◌∙◌, Bool, true, false, ◌&&◌, List, [], ◌∷◌, none, some, all,
  if◌then◌else◌,
}
use shabdiz.Prelude.Result.{returns, ok, err, type_error}
use shabdiz.Text.{Text, eq_text, trim}
use shabdiz.Util.Alphanum.Total.{is_ranked}
use shabdiz.Util.Groups.{Groups, group_by}
use shabdiz.Value.{Value, arr, Fields, Host}
use shabdiz.Value.Extend.{IsDeepExtend}
use shabdiz.Value.Sort.{IsSort, IsOrderedSort}
use shabdiz.Value.Paths.Outline.{Alike}
use shabdiz.Prelude.Perms.{all-flat_map-select}
use shabdiz.Metrics.{theme_of}
use shabdiz.Query.{Query}
use shabdiz.Query.Matches.{Scenario, at}
use shabdiz.Query.Matches.Reference.{
  having_churn, fails, passes as filters, reference, matches-reference,
}
use shabdiz.Scope.Points.{Metric}
use shabdiz.Scope.Series.{objects}
use shabdiz.Scope.Series.Ordered.{churn_of}
use shabdiz.Scope.Configured.{name_of}
use shabdiz.Scope.Drawn.{passes}
use shabdiz.Scope.Drawn.Blank.{series_of}
use shabdiz.Scope.Drawn.Turns.{InTurn}
use shabdiz.Scope.Drawn.Ordered.{OrderedSeries, renderer-OrderedSeries}
use shabdiz.Page.{Page, start}
use shabdiz.Page.Sound.{Event, handle}
use shabdiz.Page.Spec.{run, view, intended, all_intended, run-intended}
use shabdiz.Page.Loading.{loaded, session, nothing_selected, session-intended, opened-IsFresh}
use shabdiz.Page.Outcome.Current.{last_set, chart_of, IsCurrent}
use shabdiz.Page.Outcome.Handlers.{handle-IsCurrent}
use shabdiz.Page.Outcome.Throws.{lacks_update}
use shabdiz.Page.Outcome.Events.{handle-is_error}
use shabdiz.Page.Bookmark.{handle-tables, run-tables}

-- What `matches` returns is what its description says.
returned-reference :
    (q : Query) (scenarios : List Scenario) (blocked : Bool) {found : List Scenario}
    → (if blocked then err type_error else ok (reference q scenarios)) ≡ ok found
    → found ≡ reference q scenarios
returned-reference q scenarios true e = cc
returned-reference q scenarios false e = cc

reference-ranked :
    (q : Query) (scenarios : List Scenario)
    → all (is_ranked churn_of) scenarios ≡ true
    → all (is_ranked churn_of) (reference q scenarios) ≡ true
reference-ranked q scenarios =
    all-flat_map-select (is_ranked churn_of)
      (λ s e. having_churn scenarios s e && filters q scenarios e) scenarios q.churn

module _ (h : Host Scenario) where
  -- The chart drawn last is that of the chosen metric, and has the ordered series of the groups of
  -- the scenarios of a table that the selections leave.
  pub record ShowsGroups (p : Page) (metrics : List Metric) (scenarios : List Scenario)
      : Type 0 where
    pub shown : Metric
    pub chart : Value
    pub groups : Groups Scenario
    pub series : List Fields
    pub chosen : at metrics p.query.metric ≡ some shown
    pub drawn : last_set chart_of p.effects ≡ some chart
    pub formed :
        group_by (λ match. match.peer_configuration) none (reference p.query scenarios) ≡ ok groups
    pub ordered :
        InTurn
          (OrderedSeries h (theme_of h (name_of shown)) shown groups)
          (passes p.data_type)
          series
    pub alike : Alike (series_of chart) (arr (objects series))

  module _ (d : IsDeepExtend (h.deep_extend)) (sorts : IsSort (h.sort))
      (orders : IsOrderedSort (h.sort)) where
    IsCurrent-ShowsGroups :
        (p : Page)
        → IsCurrent h p
        → passes p.data_type ≢ []
        → all (is_ranked churn_of) p.scenarios ≡ true
        → ShowsGroups p p.metrics p.scenarios
    IsCurrent-ShowsGroups p c grouping ranked =
        let found : p.matches ≡ reference p.query p.scenarios =
          returned-reference p.query p.scenarios (fails p.query p.scenarios)
            (sym (matches-reference p.query p.scenarios) ∙ c.matched) in
        let (groups, series, made, ordered, alike) =
          renderer-OrderedSeries h d sorts orders c.shown p.matches p.data_type grouping
            (ap (all (is_ranked churn_of)) found ∙ reference-ranked p.query p.scenarios ranked)
            c.rendered in
        record {
          shown = c.shown;
          chart = c.rendering.chart;
          groups = groups;
          series = series;
          chosen = c.chosen;
          drawn = c.drawn;
          formed = ap (group_by (λ match. match.peer_configuration) none) (sym found) ∙ made;
          ordered = ordered;
          alike = alike;
        }

    -- With `$.extend` as it is documented, and a sort that rearranges and that orders by a
    -- consistent comparator: the page is loaded, opened at a blank address, and goes through any
    -- events, whether or not their handlers throw, and one more event. If the page that this
    -- leaves has a metric that is in range and has no name that objects inherit, its scenarios can
    -- be matched and their chart can be made, the chosen kind of data has charts over groups, and
    -- no churn in the table of scenarios is `Light` or, with the digit of its rank in front, has a
    -- numeric chunk that is not a whole number below 2 ^ 53 without leading zeros or another chunk
    -- that `Number` reads as a number: the last handler has returned; the page has the metric, the
    -- kind of data and the sets of selected indices that all these events intend; and the chart
    -- drawn last is that of this metric and has, for each loop of the kind of data and each group
    -- of the scenarios that the selections leave, one pair of series, named, linked and coloured
    -- by the group, with the points and the intervals of the members of the group in an order that
    -- ascends by the churn.
    pub session-ShowsGroups :
        (hash : Text) (es : List Event) (e : Event)
        → eq_text (trim hash) [] ≡ true
        → lacks_update h (handle h e (session h hash es)).0 ≡ false
        → passes (handle h e (session h hash es)).0.data_type ≢ []
        → all (is_ranked churn_of) (loaded h).scenarios ≡ true
        → ((handle h e (session h hash es)).1 ≡ ok tt)
          × (view (handle h e (session h hash es)).0
              ≡ intended e (all_intended es nothing_selected))
          × ShowsGroups (handle h e (session h hash es)).0 (loaded h).metrics (loaded h).scenarios
    unfolding run
    session-ShowsGroups hash es e blank complete grouping ranked =
        let opened = (start h hash (loaded h)).0 in
        let fresh = opened-IsFresh h hash blank in
        let before = session h hash es in
        let p = (handle h e before).0 in
        let (u, made) = returns (handle-is_error h d sorts e before ∙ complete) in
        let (led, tidy) = session-intended h hash blank es in
        let (seen, tidy_still) = run-intended h (e ∷ []) before tidy in
        let (m, s) = handle-tables h e before in
        let (n, t) = run-tables h es opened in
        let scenarios : p.scenarios ≡ (loaded h).scenarios = s ∙ t ∙ fresh.scenarios in
        let metrics : p.metrics ≡ (loaded h).metrics = m ∙ n ∙ fresh.metrics in
        let shows =
          IsCurrent-ShowsGroups p (handle-IsCurrent h d e before made) grouping
            (ap (all (is_ranked churn_of)) scenarios ∙ ranked) in
        (
          made,
          seen ∙ ap (intended e) led,
          subst (λ ms. ShowsGroups p ms (loaded h).scenarios) metrics
              (subst (ShowsGroups p p.metrics) scenarios shows),
        )
