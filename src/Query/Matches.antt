-- ===== src/Query/Matches.antt =====
-- evaluation/src/site/resources/analysis/scripts/query.js: `matches`, the scenarios that the
-- selections of the page leave.
pub mod Reference
use shabdiz.Prelude.{
  Bool, true, false, List, [], ◌∷◌, ◌++◌, Option, none, some, get_elem?, any, select,
}
use shabdiz.Prelude.Int.{pos}
use shabdiz.Prelude.Result.{Result, ok, err, type_error, ◌>>=◌}
use shabdiz.Text.{Text, eq_text}
use shabdiz.Text.Number.{Number, int}
use shabdiz.Util.Groups.{Groups, property_key, group_by, object_keys, own}
use shabdiz.Query.{
  Query, Dimension, churn, workload, peer_configuration, experiment_duration, training_duration,
  clustering_algorithm, feedback_enabled,
}

-- A row of `scenarios.csv`; a column that is missing is `undefined`.
pub record Scenario : Type 0 where
  pub name : Option Text
  pub churn : Option Text
  pub workload : Option Text
  pub peer_configuration : Option Text
  pub experiment_duration : Option Text
  pub training_duration : Option Text
  pub clustering_algorithm : Option Text
  pub feedback_enabled : Option Text

-- `element[property_name]`.
abbrev pub property : Dimension → Scenario → Option Text
property churn e = e.churn
property workload e = e.workload
property peer_configuration e = e.peer_configuration
property experiment_duration e = e.experiment_duration
property training_duration e = e.training_duration
property clustering_algorithm e = e.clustering_algorithm
property feedback_enabled e = e.feedback_enabled

-- `query[property]`.
abbrev pub selection : Dimension → Query → List Number
selection churn q = q.churn
selection workload q = q.workload
selection peer_configuration q = q.peer_configuration
selection experiment_duration q = q.experiment_duration
selection training_duration q = q.training_duration
selection clustering_algorithm q = q.clustering_algorithm
selection feedback_enabled q = q.feedback_enabled

-- `array[index]`.
abbrev pub at : {A : Type 0} → List A → Number → Option A
at array (int (pos n)) = get_elem? array n
at array _ = none

-- `==` on texts, either of which may be `undefined`.
abbrev pub loosely_equal : Option Text → Option Text → Bool
loosely_equal none none = true
loosely_equal none (some t) = false
loosely_equal (some s) none = false
loosely_equal (some s) (some t) = eq_text s t

-- `Object.keys(scope.scenarios.groupBy(d))`.
unfoldable pub labels : Dimension → List Scenario → Result (List Text)
labels d scenarios = do groups ← group_by (property d) none scenarios; ok (object_keys groups)

-- The group of a selection; reading `forEach` of a missing group throws.
abbrev pub group_at : Groups Scenario → Option Text → Result (List Scenario)
group_at groups key = elim (own (property_key key) groups) [
  | none ↦ err type_error
  | some xs ↦ ok xs
]

-- The loop over `this.churn`.
pub pick : List Scenario → List Text → List Number → Result (List Scenario)
pick scenarios churn_keys [] = ok []
pick scenarios churn_keys (selected ∷ rest) =
    let others = pick scenarios churn_keys rest in
    do
      groups ← group_by (property churn) none scenarios
      elements ← group_at groups (at churn_keys selected)
      more ← others
      ok (elements ++ more)

-- One of the six filters.
abbrev pub narrow : Dimension → List Text → Query → List Scenario → List Scenario
narrow d keys q =
    select (λ element. any (λ s. loosely_equal (property d element) (at keys s)) (selection d q))

unfoldable pub matches : Query → List Scenario → Result (List Scenario)
unfolding labels pick
matches q scenarios = do
  churn_keys ← labels churn scenarios
  workload_keys ← labels workload scenarios
  peer_configuration_keys ← labels peer_configuration scenarios
  experiment_duration_keys ← labels experiment_duration scenarios
  training_duration_keys ← labels training_duration scenarios
  clustering_algorithm_keys ← labels clustering_algorithm scenarios
  feedback_enabled_keys ← labels feedback_enabled scenarios
  m₀ ← pick scenarios churn_keys q.churn
  let m₁ = narrow workload workload_keys q m₀
  let m₂ = narrow peer_configuration peer_configuration_keys q m₁
  let m₃ = narrow experiment_duration experiment_duration_keys q m₂
  let m₄ = narrow training_duration training_duration_keys q m₃
  let m₅ = narrow clustering_algorithm clustering_algorithm_keys q m₄
  ok (narrow feedback_enabled feedback_enabled_keys q m₅)
