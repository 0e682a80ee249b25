-- ===== src/Page.antt =====
-- The state of the page and what its events do to it: `init` and `update` of
-- evaluation/src/site/resources/analysis/scripts/query.js, the handlers of action.js, and the
-- start in main.js. What is done to the document is a list of effects, oldest first.
pub mod Sound
pub mod Updates
pub mod Outcome
pub mod Spec
pub mod Restore
pub mod Resizing
pub mod Modules
pub mod Loading
pub mod Bookmark
pub mod Charted
use shabdiz.Prelude.{Bool, List, [], ◌∷◌, ◌++◌, Option, none, some, if◌then◌else◌, map}
use shabdiz.Prelude.Result.{Result, ok, err, type_error}
use shabdiz.Text.{Text, codes}
use shabdiz.Text.Number.{Number, show, strict_eq}
use shabdiz.Util.Arrays.{add_if_absent, remove_if_exists}
use shabdiz.Value.{Value, Host}
use shabdiz.Query.{
  Query, Dimension, churn, workload, peer_configuration, experiment_duration, training_duration,
  clustering_algorithm, feedback_enabled, encode, decode,
}
use shabdiz.Query.Matches.{Scenario, selection, at, labels, matches}
use shabdiz.Scope.{renderer, Rendering}
use shabdiz.Scope.Points.{Metric}
use shabdiz.Scope.Series.{text_value}

pub data Effect : Type 0 where
  set_hash : Text → Effect
  set_text : Text → Value → Effect
  remove_class : Text → Text → Effect
  add_class : Text → Text → Effect
  add_class_of_parent : Text → Text → Effect
  check : Text → Effect
  show_filters : Dimension → List Text → Effect
  show_metrics : List Metric → Effect
  draw : Value → Effect
  resize : Text → Effect
  bind_resize : Effect

-- `query`, and of `scope` what changes; `metrics` and `scenarios` are the tables that were read.
pub record Page : Type 0 where
  pub metrics : List Metric
  pub scenarios : List Scenario
  pub query : Query
  pub data_type : Text
  pub metric : Option Metric
  pub matches : List Scenario
  pub effects : List Effect

-- A step changes the page also where it throws.
abbrev pub Step : Type 0 → Type 0
Step A = Page → Page × Result A

abbrev pub return : {A : Type 0} → A → Step A
return a p = (p, ok a)

-- What follows a step that threw is not done.
abbrev pub after_result : {A B : Type 0} → (A → Step B) → Page → Result A → Page × Result B
after_result f p (ok a) = f a p
after_result f p (err e) = (p, err e)

infixl 5 ◌>>=◌ ◌>>◌
unfoldable pub ◌>>=◌ : {A B : Type 0} → Step A → (A → Step B) → Step B
◌>>=◌ m f p = after_result f (m p).0 (m p).1

abbrev pub ◌>>◌ : {A B : Type 0} → Step A → Step B → Step B
m >> k = m >>= λ _. k

abbrev pub Done : Type 0
Done = Unit {0}

abbrev pub emit : Effect → Step Done
emit e p = (record p { effects = p.effects ++ e ∷ [] }, ok tt)

-- The button of a kind of data.
abbrev radio : Text → Text
radio data_type = codes "#data_type_chooser input:radio[value='" ++ (data_type ++ codes "']")

abbrev pub prefix : Dimension → Text
prefix churn = codes "#churn_"
prefix workload = codes "#workload_"
prefix peer_configuration = codes "#peer_configuration_"
prefix experiment_duration = codes "#experiment_duration_"
prefix training_duration = codes "#training_duration_"
prefix clustering_algorithm = codes "#clustering_algorithm_"
prefix feedback_enabled = codes "#feedback_enabled_"

-- One of the seven loops that check the boxes.
abbrev pub check_boxes : Dimension → Step Done
check_boxes d p = (
  record p { effects = p.effects ++ map (λ s. check (prefix d ++ show s)) (selection d p.query) },
  ok tt,
)

abbrev pub from_option : {A : Type 0} → Option A → Result A
from_option none = err type_error
from_option (some a) = ok a

-- `scope.metrics[this.metric]`, of which a property is read.
abbrev pub chosen_metric : Step Metric
chosen_metric p = (p, from_option (at p.metrics p.query.metric))

abbrev pub store : Metric → List Scenario → Step Done
store m found p = (record p { metric = some m; matches = found }, ok tt)

abbrev pub show_title : Option Value → Step Done
show_title none = return tt
show_title (some title) = emit (set_text (codes "#main_title") title)

-- `query[d] = xs`.
abbrev pub with_selection : Dimension → List Number → Query → Query
with_selection churn xs q = record q { churn = xs }
with_selection workload xs q = record q { workload = xs }
with_selection peer_configuration xs q = record q { peer_configuration = xs }
with_selection experiment_duration xs q = record q { experiment_duration = xs }
with_selection training_duration xs q = record q { training_duration = xs }
with_selection clustering_algorithm xs q = record q { clustering_algorithm = xs }
with_selection feedback_enabled xs q = record q { feedback_enabled = xs }

module _ (h : Host Scenario) where
  abbrev pub call_renderer : Metric → List Scenario → Step Rendering
  call_renderer m found p = (p, renderer h m found p.data_type)

  -- `scope.renderer()`, on what was stored.
  unfoldable pub render : Metric → List Scenario → Step Done
  render m found = do r ← call_renderer m found; show_title r.main_title; emit (draw r.chart)

  abbrev pub find_matches : Step (List Scenario)
  find_matches p = (p, matches p.query p.scenarios)

  -- `update` behind its first line.
  unfoldable pub refresh : Step Done
  refresh = do
    m ← chosen_metric
    emit (set_text (codes "#main_title") (text_value m.name))
    emit (remove_class (codes "#chart_list .active") (codes "active"))
    λ p. emit (add_class (codes "#metric_" ++ show p.query.metric) (codes "active")) p
    check_boxes churn
    check_boxes workload
    check_boxes peer_configuration
    check_boxes experiment_duration
    check_boxes training_duration
    check_boxes clustering_algorithm
    check_boxes feedback_enabled
    found ← find_matches
    store m found
    render m found
    emit (resize (codes "chart_list"))

  unfoldable pub update : Step Done
  unfolding refresh
  update = do λ p. emit (set_hash (encode p.query p.data_type)) p; refresh

  -- `init`, where the address holds the text behind `#`.
  unfoldable pub init : Text → Step Done
  init hash = do
    λ p.
        (let (q, t) = decode (some hash) (p.query, p.data_type) in
          (record p { query = q; data_type = t }, ok tt))
    emit (remove_class (codes "#data_type_chooser label") (codes "active"))
    λ p. emit (add_class_of_parent (radio p.data_type) (codes "active")) p
    update

  -- `metricClicked` of action.js.
  unfoldable pub metric_clicked : Number → Step Done
  metric_clicked index = do
    λ p. (record p { query = record (p.query) { metric = index } }, ok tt)
    update

  -- `filterChecked` of action.js: the array of the property is changed in place.
  unfoldable pub filter_checked : Bool → Number → Dimension → Step Done
  filter_checked checked index d = do
    λ p. (
      record p {
        query =
            with_selection d
              (if checked
                then (add_if_absent strict_eq index (selection d p.query)).0
                else (remove_if_exists strict_eq index (selection d p.query)).0)
              p.query;
      },
      ok tt,
    )
    update

  -- The handler of the data type's buttons in action.js.
  unfoldable pub data_type_changed : Text → Step Done
  data_type_changed value = do λ p. (record p { data_type = value }, ok tt); update

  -- The list of filters of one property, as main.js makes it.
  abbrev pub fill_filters : Dimension → Step Done
  fill_filters d = do keys ← λ p. (p, labels d p.scenarios); emit (show_filters d keys)

  -- main.js: the list of metrics, the seven lists of filters, `query.init`, and the handler of the
  -- window's `resize`, which is bound last.
  unfoldable pub start : Text → Step Done
  unfolding init
  start hash = do
    λ p. emit (show_metrics p.metrics) p
    fill_filters churn
    fill_filters workload
    fill_filters peer_configuration
    fill_filters experiment_duration
    fill_filters training_duration
    fill_filters clustering_algorithm
    fill_filters feedback_enabled
    init hash
    emit bind_resize
