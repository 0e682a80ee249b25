-- ===== src/Page/Loading.antt =====
-- evaluation/src/site/resources/analysis/scripts/scope.js, query.js and main.js: the page as it is
-- before anything happens, and a session from there.
use shabdiz.Prelude.{◌≡◌, refl, ◌∙◌, ap, true, false, List, [], ◌++◌, Option, none, map}
use shabdiz.Prelude.Result.{Result, ok, err}
use shabdiz.Text.{Text, codes, eq_text, trim}
use shabdiz.Text.Number.{int}
use shabdiz.Prelude.Int.{pos}
use shabdiz.Value.{Host}
use shabdiz.Util.Files.{read, results_path}
use shabdiz.Query.{
  Dimension, churn, workload, peer_configuration, experiment_duration, training_duration,
  clustering_algorithm, feedback_enabled, initial,
}
use shabdiz.Query.Reload.{decode-blank}
use shabdiz.Query.Matches.{Scenario, labels, selection}
use shabdiz.Scope.Points.{Metric}
use shabdiz.Page.{
  Page, Step, Done, ◌>>=◌, after_result, emit, show_filters, fill_filters, update, init, start,
}
use shabdiz.Page.Updates.{address-update}
use shabdiz.Page.Outcome.Reopen.{update-tables}
use shabdiz.Page.Sound.{Event}
use shabdiz.Page.Spec.{View, View-ext, view, run, all_intended, IsTidy, run-intended}

-- A row of `metrics.csv`.
abbrev metric_row : (Text → Option Text) → Metric
metric_row row = record { name = row (codes "name"); type = row (codes "type") }

-- A row of `scenarios.csv`.
abbrev scenario_row : (Text → Option Text) → Scenario
scenario_row row = record {
  name = row (codes "name");
  churn = row (codes "churn");
  workload = row (codes "workload");
  peer_configuration = row (codes "peer_configuration");
  experiment_duration = row (codes "experiment_duration");
  training_duration = row (codes "training_duration");
  clustering_algorithm = row (codes "clustering_algorithm");
  feedback_enabled = row (codes "feedback_enabled");
}

-- What the modules hold when they have been loaded.
unfoldable pub loaded : Host Scenario → Page
unfolding read
loaded h = record {
  metrics = map metric_row (h.table (read h.fetch (results_path ++ codes "metrics.csv")));
  scenarios = map scenario_row (h.table (read h.fetch (results_path ++ codes "scenarios.csv")));
  query = initial;
  data_type = codes "overtime";
  metric = none;
  matches = [];
  effects = [];
}

-- The first metric over time, and nothing selected, for the tables that were loaded.
pub record IsFresh (h : Host Scenario) (p : Page) : Type 0 where
  pub query : p.query ≡ initial
  pub data_type : p.data_type ≡ codes "overtime"
  pub metrics : p.metrics ≡ (loaded h).metrics
  pub scenarios : p.scenarios ≡ (loaded h).scenarios

loaded-IsFresh : (h : Host Scenario) → IsFresh h (loaded h)
unfolding loaded
loaded-IsFresh h = record { query = refl; data_type = refl; metrics = refl; scenarios = refl }

selection-initial : (d : Dimension) → selection d initial ≡ []
selection-initial churn = refl
selection-initial workload = refl
selection-initial peer_configuration = refl
selection-initial experiment_duration = refl
selection-initial training_duration = refl
selection-initial clustering_algorithm = refl
selection-initial feedback_enabled = refl

-- What a session begins with.
abbrev pub nothing_selected : View
nothing_selected = record {
  metric = int (pos 0);
  data_type = codes "overtime";
  selected = λ d n. false;
}

view-IsFresh : {h : Host Scenario} (p : Page) → IsFresh h p → view p ≡ nothing_selected
view-IsFresh p e =
    View-ext _ _ (ap (λ q. q.metric) e.query) e.data_type
      (λ d n. rw (e.query, selection-initial d) refl)

IsFresh-IsTidy : {h : Host Scenario} (p : Page) → IsFresh h p → IsTidy p
IsFresh-IsTidy p e = record { distinct = λ d. rw (e.query, selection-initial d) tt }

module _ (h : Host Scenario) where
  -- A step that leaves a fresh page fresh, also where it throws.
  record StaysFresh {A : Type 0} (m : Step A) : Type 0 where
    stays : (p : Page) → IsFresh h p → IsFresh h (m p).0

  after_result-IsFresh :
      {A B : Type 0} (f : A → Step B) (p : Page) (r : Result A)
      → ((a : A) → StaysFresh (f a))
      → IsFresh h p
      → IsFresh h (after_result f p r).0
  after_result-IsFresh f p (ok a) fs e = (fs a).stays p e
  after_result-IsFresh f p (err x) fs e = e

  then :
      {A B : Type 0} {m : Step A} {f : A → Step B}
      → StaysFresh m
      → ((a : A) → StaysFresh (f a))
      → StaysFresh (m >>= f)
  unfolding ◌>>=◌
  then {A} {B} {m} {f} first next = record {
    stays = λ p e. after_result-IsFresh f (m p).0 (m p).1 next (first.stays p e);
  }

  -- A page with the same query, kind of data and tables.
  abbrev IsSame : Page → Page → Type 0
  IsSame q p =
      (q.query ≡ p.query)
      × (q.data_type ≡ p.data_type)
      × (q.metrics ≡ p.metrics)
      × (q.scenarios ≡ p.scenarios)

  same-IsFresh : (q p : Page) → IsSame q p → IsFresh h p → IsFresh h q
  same-IsFresh q p (a, b, c, d) e = record {
    query = a ∙ e.query;
    data_type = b ∙ e.data_type;
    metrics = c ∙ e.metrics;
    scenarios = d ∙ e.scenarios;
  }

  keeps-StaysFresh : {A : Type 0} (m : Step A) → ((p : Page) → IsSame (m p).0 p) → StaysFresh m
  keeps-StaysFresh m keeps = record { stays = λ p e. same-IsFresh (m p).0 p (keeps p) e }

  update-StaysFresh : StaysFresh (update h)
  update-StaysFresh = keeps-StaysFresh (update h) (λ p.
      let (q, kind, a) = address-update h p in let (m, s) = update-tables h p in (q, kind, m, s))

  filled :
      (d : Dimension) (p : Page) (r : Result (List Text))
      → IsSame (after_result (λ keys. emit (show_filters d keys)) p r).0 p
  filled d p (ok keys) = (refl, refl, refl, refl)
  filled d p (err e) = (refl, refl, refl, refl)

  fill :
      (d : Dimension) {next : Step Done}
      → StaysFresh next
      → StaysFresh (fill_filters h d >>= λ u. next)
  unfolding ◌>>=◌
  fill d next =
      then (keeps-StaysFresh (fill_filters h d) (λ p. filled d p (labels d p.scenarios)))
        (λ u. next)

  -- The page is loaded and opened at an address; then comes any sequence of events.
  abbrev pub session : Text → List Event → Page
  session hash es = run h es (start h hash (loaded h)).0

  module _ (hash : Text) (blank : eq_text (trim hash) [] ≡ true) where
    init-StaysFresh : StaysFresh (init h hash)
    unfolding init ◌>>=◌
    init-StaysFresh = record {
      stays = λ p e.
          let d = decode-blank hash (p.query, p.data_type) blank in
          update-StaysFresh.stays _ (record {
            query = ap (λ st. st.0) d;
            data_type = ap (λ st. st.1) d ∙ e.data_type;
            metrics = e.metrics;
            scenarios = e.scenarios;
          });
    }

    start-StaysFresh : StaysFresh (start h hash)
    unfolding start
    start-StaysFresh = then (keeps-StaysFresh _ (λ p. (refl, refl, refl, refl))) (λ u. fill churn (
        fill workload (
          fill peer_configuration (
            fill experiment_duration (
              fill training_duration (
                fill clustering_algorithm (
                  fill feedback_enabled (
                    then init-StaysFresh
                      (λ v. keeps-StaysFresh _ (λ p. (refl, refl, refl, refl)))))))))))

    pub opened-IsFresh : IsFresh h (start h hash (loaded h)).0
    opened-IsFresh = start-StaysFresh.stays (loaded h) (loaded-IsFresh h)

    -- Whatever handlers throw, and whatever the tables are: from a page that is loaded and opened at
    -- a blank address, any sequence of events leads to the metric, the kind of data and the sets of
    -- selected indices that the events intend, beginning with the first metric, the data over time
    -- and nothing selected; and no index is selected twice.
    pub session-intended :
        (es : List Event)
        → (view (session hash es) ≡ all_intended es nothing_selected) × IsTidy (session hash es)
    session-intended es =
        let opened = (start h hash (loaded h)).0 in
        let fresh = opened-IsFresh in
        let (led, tidy) = run-intended h es opened (IsFresh-IsTidy opened fresh) in
        (led ∙ ap (all_intended es) (view-IsFresh opened fresh), tidy)
