-- ===== src/Query/Matches/Reference.antt =====
-- `matches` against a direct description of its result and of when it throws.
use mathlib.Core.List.{flat_map}
use shabdiz.Prelude.{
  ◌≡◌, refl, Bool, true, false, not, ◌&&◌, ◌||◌, List, [], ◌∷◌, ◌++◌, Option, none, arith,
  if◌then◌else◌, any, select, select-append, select-select, Bool-cases, inl, inr,
}
use shabdiz.Prelude.Result.{Result, ok, err, type_error, ◌>>=◌}
use shabdiz.Text.{Text, eq_text}
use shabdiz.Text.Number.{Number}
use shabdiz.Util.Groups.{property_key, object_keys, is_inherited}
use shabdiz.Util.Groups.Laws.{group_all, group_by-group_all, own-group_all_new}
use shabdiz.Query.{
  Query, Dimension, churn, workload, peer_configuration, experiment_duration, training_duration,
  clustering_algorithm, feedback_enabled,
}
use shabdiz.Query.Matches.{
  Scenario, property, selection, at, loosely_equal, labels, group_at, pick, narrow, matches,
}

abbrev pub key : Dimension → Scenario → Text
key d e = property_key (property d e)

-- The labels of a dimension, as the page lists them.
abbrev pub label_list : Dimension → List Scenario → List Text
label_list d scenarios = object_keys (group_all (key d) scenarios [])

-- Some scenario has a name that every object inherits for its value of the dimension.
abbrev pub is_blocked : Dimension → List Scenario → Bool
is_blocked d = any (λ e. is_inherited (key d e))

pub labels_lem :
    (d : Dimension) (scenarios : List Scenario)
    → labels d scenarios
      ≡ (if is_blocked d scenarios then err type_error else ok (label_list d scenarios))
unfolding labels
labels_lem d scenarios = rw (group_by-group_all (property d) none scenarios) (ground arith)

-- The scenarios whose churn is the label at the selection.
abbrev pub having_churn : List Scenario → Number → Scenario → Bool
having_churn scenarios s e =
    eq_text (key churn e) (property_key (at (label_list churn scenarios) s))

-- No scenario has the churn that a selection asks for.
abbrev pub is_missing : List Scenario → Number → Bool
is_missing scenarios s = not (any (having_churn scenarios s) scenarios)

group_at_lem :
    (scenarios : List Scenario) (s : Number)
    → group_at (group_all (key churn) scenarios []) (at (label_list churn scenarios) s) ≡ (
        if is_missing scenarios s
        then err type_error
        else ok (select (having_churn scenarios s) scenarios))
group_at_lem scenarios s =
    rw
      (
        own-group_all_new (key churn) (property_key (at (label_list churn scenarios) s)) scenarios,
        group_at,
      )
      (ground arith)

pick_lem :
    (scenarios : List Scenario) (sels : List Number)
    → is_blocked churn scenarios ≡ false
    → pick scenarios (label_list churn scenarios) sels ≡ (
        if any (is_missing scenarios) sels
        then err type_error
        else ok (flat_map (λ s. select (having_churn scenarios s) scenarios) sels))
unfolding pick flat_map
pick_lem scenarios [] h = refl
pick_lem scenarios (s ∷ sels) h =
    rw
      (
        group_by-group_all (property churn) none scenarios,
        h,
        group_at_lem scenarios s,
        pick_lem scenarios sels h,
      )
      (elim (Bool-cases (is_missing scenarios s)) [
        | inl e ↦ rw e
        | inr e ↦ rw e (after (any (is_missing scenarios) sels) _ _)
      ])
  where
    after :
        (b : Bool) (xs ys : List Scenario)
        → ((if b then err type_error else ok xs) >>= λ more. ok (ys ++ more))
          ≡ (if b then err type_error else ok (ys ++ xs))
    after true xs ys = refl
    after false xs ys = refl

-- The label of a dimension that a selection stands for.
abbrev pub label_at : Dimension → List Scenario → Number → Option Text
label_at d scenarios s = at (label_list d scenarios) s

-- The element has one of the selected labels for the dimension.
abbrev pub is_chosen : Dimension → Query → List Scenario → Scenario → Bool
is_chosen d q scenarios e =
    any (λ s. loosely_equal (property d e) (label_at d scenarios s)) (selection d q)

-- The element passes all six filters.
abbrev pub passes : Query → List Scenario → Scenario → Bool
passes q scenarios e =
    is_chosen workload q scenarios e
    && is_chosen peer_configuration q scenarios e
    && is_chosen experiment_duration q scenarios e
    && is_chosen training_duration q scenarios e
    && is_chosen clustering_algorithm q scenarios e
    && is_chosen feedback_enabled q scenarios e

-- Some dimension has an inherited name for a value, or some selected churn has no scenario.
abbrev pub fails : Query → List Scenario → Bool
fails q scenarios =
    is_blocked churn scenarios
    || (is_blocked workload scenarios
        || (is_blocked peer_configuration scenarios
            || (is_blocked experiment_duration scenarios
                || (is_blocked training_duration scenarios
                    || (is_blocked clustering_algorithm scenarios
                        || (is_blocked feedback_enabled scenarios
                            || any (is_missing scenarios) q.churn))))))

-- For each selected churn in turn, the scenarios with that churn that pass all filters.
abbrev pub reference : Query → List Scenario → List Scenario
reference q scenarios =
    flat_map (λ s. select (λ e. having_churn scenarios s e && passes q scenarios e) scenarios)
      q.churn

select-flat_map :
    {A B : Type 0} (p : A → Bool) (f : B → A → Bool) (xs : List A) (ss : List B)
    → select p (flat_map (λ s. select (f s) xs) ss)
      ≡ flat_map (λ s. select (λ x. f s x && p x) xs) ss
unfolding flat_map
select-flat_map p f xs [] = refl
select-flat_map p f xs (s ∷ ss) =
    rw (select-append p, select-select p (f s) xs, select-flat_map p f xs ss)

narrow_all :
    (q : Query) (scenarios : List Scenario)
    → narrow feedback_enabled (label_list feedback_enabled scenarios) q (
        narrow clustering_algorithm (label_list clustering_algorithm scenarios) q (
          narrow training_duration (label_list training_duration scenarios) q (
            narrow experiment_duration (label_list experiment_duration scenarios) q (
              narrow peer_configuration (label_list peer_configuration scenarios) q (
                narrow workload
                  (label_list workload scenarios)
                  q
                  (flat_map (λ s. select (having_churn scenarios s) scenarios) q.churn))))))
      ≡ reference q scenarios
narrow_all q scenarios =
    simp select-select
      (select-flat_map (passes q scenarios) (having_churn scenarios) scenarios q.churn)

filter_all :
    (q : Query) (scenarios : List Scenario)
    → is_blocked churn scenarios ≡ false
    → (pick scenarios (label_list churn scenarios) q.churn >>= λ m. ok (
        narrow feedback_enabled (label_list feedback_enabled scenarios) q (
          narrow clustering_algorithm (label_list clustering_algorithm scenarios) q (
            narrow training_duration (label_list training_duration scenarios) q (
              narrow experiment_duration (label_list experiment_duration scenarios) q (
                narrow peer_configuration
                  (label_list peer_configuration scenarios)
                  q
                  (narrow workload (label_list workload scenarios) q m)))))))
      ≡ (if any (is_missing scenarios) q.churn then err type_error else ok (reference q scenarios))
filter_all q scenarios h =
    rw (pick_lem scenarios q.churn h, ← narrow_all q scenarios)
      (elim (Bool-cases (any (is_missing scenarios) q.churn)) [ inl e ↦ rw e | inr e ↦ rw e ])

-- A list of labels that may not be made, before what may throw for another reason.
labels-then :
    (d : Dimension) (scenarios : List Scenario) (f : List Text → Result (List Scenario)) (b : Bool)
    (found : List Scenario)
    → (is_blocked d scenarios ≡ false
        → f (label_list d scenarios) ≡ (if b then err type_error else ok found))
    → (labels d scenarios >>= f)
      ≡ (if is_blocked d scenarios || b then err type_error else ok found)
labels-then d scenarios f b found next = elim (Bool-cases (is_blocked d scenarios)) [
  | inl e ↦ rw (labels_lem d scenarios, e) refl
  | inr e ↦ rw (labels_lem d scenarios, e) (next e)
]

-- `matches` throws exactly where some scenario's value for one of the seven properties is a name
-- that every object inherits, or some selected churn has no scenario; else it returns, for each
-- selected churn in turn, the scenarios with that churn that pass the six other filters, in order.
pub matches-reference :
    (q : Query) (scenarios : List Scenario)
    → matches q scenarios
      ≡ (if fails q scenarios then err type_error else ok (reference q scenarios))
unfolding matches
matches-reference q scenarios = labels-then churn scenarios _ _ _ (λ churns.
    labels-then workload scenarios _ _ _ (λ a. labels-then peer_configuration scenarios _ _ _ (λ b.
      labels-then experiment_duration scenarios _ _ _ (λ c.
        labels-then training_duration scenarios _ _ _ (λ d.
          labels-then clustering_algorithm scenarios _ _ _ (λ e.
            labels-then feedback_enabled scenarios _ _ _ (λ f. filter_all q scenarios churns)))))))
