-- ===== src/Scope/Series.antt =====
-- evaluation/src/site/resources/analysis/scripts/scope.js: the series that `renderer` makes, in
-- pairs of a line or points and their intervals.
pub mod Linked
pub mod Complete
pub mod Ordered
use shabdiz.Prelude.{ℕ, zero, suc, ◌+◌, List, [], ◌∷◌, ◌++◌, Option, none, some, if◌then◌else◌}
use shabdiz.Prelude.Int.{pos}
use shabdiz.Prelude.Result.{Result, ok, ◌>>=◌}
use shabdiz.Text.{Text, codes, eq_text}
use shabdiz.Util.Alphanum.{compare_by}
use shabdiz.Util.Files.{analysis_path, read}
use shabdiz.Util.Groups.{Groups, property_key, group_by, object_keys, own}
use shabdiz.Value.{
  Value, undefined, num, str, arr, obj, Items, nil, cons, Fields, end, field, items, Host,
}
use shabdiz.Theme.{colour}
use shabdiz.Query.Matches.{Scenario}
use shabdiz.Scope.Points.{Metric, mean_point, interval_point, summary}

-- A loop that may throw.
abbrev pub traverse : {A B : Type 0} → (A → Result B) → List A → Result (List B)
traverse f [] = ok []
traverse f (x ∷ xs) = do y ← f x; ys ← traverse f xs; ok (y ∷ ys)

-- A property that may be `undefined`, as a value.
abbrev pub text_value : Option Text → Value
text_value none = undefined
text_value (some t) = str t

abbrev pub flattened : List (Fields × Fields) → List Fields
flattened [] = []
flattened ((line, intervals) ∷ rest) = line ∷ intervals ∷ flattened rest

abbrev pub objects : List Fields → Items
objects [] = nil
objects (f ∷ rest) = cons (obj f) (objects rest)

abbrev firsts : List (Value × Value) → List Value
firsts [] = []
firsts ((p, i) ∷ rest) = p ∷ firsts rest

abbrev seconds : List (Value × Value) → List Value
seconds [] = []
seconds ((p, i) ∷ rest) = i ∷ seconds rest

-- The file of a kind of data.
abbrev pub file_suffix : Text → Text
file_suffix data_type =
    codes "_overall"
    ++ ((if eq_text data_type (codes "btraining")
          then codes "_before_training"
          else if eq_text data_type (codes "atraining")
          then codes "_after_training"
          else [])
        ++ codes ".csv")

-- One loop over the groups: the file of its data, what it adds to names and to ids, its shift of the
-- colours, and how often the groups have been sorted when it reads them.
pub record Pass : Type 0 where
  pub suffix : Text
  pub name_suffix : Text
  pub id_suffix : Text
  pub shift : ℕ
  pub sorts : ℕ

module _ (h : Host Scenario) (themm : Value) (metric : Metric) where
  -- The rows of a file of a scenario.
  abbrev pub rows : Scenario → Text → List Fields
  rows match suffix =
      h.csv (
        read h.fetch (analysis_path (property_key match.name) (property_key metric.name ++ suffix)))

  abbrev whole : ℕ → Value
  whole n = num (h.decimal (pos n) 0)

  -- Over time: the line of a scenario and the range of its intervals.
  unfoldable pub over_time_pair : ℕ → Scenario → Result (Fields × Fields)
  unfolding mean_point interval_point read analysis_path
  over_time_pair index match = do
    means ← traverse (mean_point h themm metric) (rows match (codes "_over_time.csv"))
    intervals ← traverse (interval_point h themm metric) (rows match (codes "_over_time.csv"))
    ok (
      field (codes "name") (text_value match.churn) (
          field (codes "data") (arr (items means)) (
            field (codes "zIndex") (whole 1)
              (field (codes "lineWidth") (whole 1) (field (codes "color") (colour index) end)))),
      field (codes "name") (text_value match.churn) (
          field (codes "type") (str (codes "arearange")) (
            field (codes "data") (arr (items intervals)) (
              field (codes "fillOpacity") (num (h.decimal (pos 3) 1)) (
                field (codes "zIndex") (whole 0) (
                  field (codes "lineWidth") (whole 0) (
                    field (codes "linkedTo") (text_value match.name)
                      (field (codes "color") (colour index) end))))))),
    )

  unfoldable pub over_time : ℕ → List Scenario → Result (List (Fields × Fields))
  unfolding over_time_pair
  over_time index [] = ok []
  over_time index (match ∷ rest) = do
    pair ← over_time_pair index match
    pairs ← over_time (index + 1) rest
    ok (pair ∷ pairs)

  -- The array after so many calls of `sortBy('churn')`, each of which sorts it in place.
  abbrev pub sorted : ℕ → List Scenario → List Scenario
  sorted zero xs = xs
  sorted (suc n) xs = h.sort (compare_by (λ match. match.churn)) (sorted n xs)

  -- One group: its points and error bars.
  unfoldable pub group_pair : Pass → ℕ → Text → List Scenario → Result (Fields × Fields)
  unfolding summary compare_by read analysis_path
  group_pair pass index key matches_by = do
    points ←
        traverse (λ match. summary h themm match.churn (rows match pass.suffix))
          (sorted pass.sorts matches_by)
    ok (
      field (codes "name") (str (key ++ pass.name_suffix)) (
          field (codes "id") (str (key ++ pass.id_suffix)) (
            field (codes "data") (arr (items (firsts points))) (
              field (codes "lineWidth") (whole 1) (
                field (codes "color") (colour (index + pass.shift))
                  (field (codes "dashStyle") (str (codes "dot")) end))))),
      field (codes "type") (str (codes "errorbar")) (
          field (codes "data") (arr (items (seconds points))) (
            field (codes "linkedTo") (str (key ++ pass.id_suffix))
              (field (codes "color") (colour (index + pass.shift)) end))),
    )

  abbrev pub members : Text → Groups Scenario → List Scenario
  members key groups = elim (own key groups) [ none ↦ [] | some xs ↦ xs ]

  unfoldable pub group_pairs :
      Pass → ℕ → Groups Scenario → List Text → Result (List (Fields × Fields))
  unfolding group_pair
  group_pairs pass index groups [] = ok []
  group_pairs pass index groups (key ∷ keys) = do
    pair ← group_pair pass index key (members key groups)
    pairs ← group_pairs pass (index + 1) groups keys
    ok (pair ∷ pairs)

  -- The loop over the groups by peer configuration.
  unfoldable pub grouped : Pass → List Scenario → Result (List (Fields × Fields))
  unfolding group_pairs
  grouped pass matches = do
    groups ← group_by (λ match. match.peer_configuration) none matches
    group_pairs pass 0 groups (object_keys groups)
