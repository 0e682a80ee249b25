-- ===== src/Scope/Series/Linked.antt =====
-- How the series of a chart of evaluation/src/site/resources/analysis/scripts/scope.js belong
-- together: names, colours and links between points and their intervals.
use shabdiz.Prelude.{sym, ap, ◌∙◌, ℕ, ◌+◌, ◌≡◌, refl, List, [], ◌∷◌, ◌++◌, none}
use shabdiz.Prelude.Result.{ok, ok-inj, ok_parts}
use shabdiz.Text.{Text, codes}
use shabdiz.Util.Groups.{Groups, group_by, object_keys}
use shabdiz.Value.{Value, arr, Items, nil, cons, items, undefined, str, Fields, get, Host}
use shabdiz.Theme.{colour}
use shabdiz.Query.Matches.{Scenario}
use shabdiz.Scope.Points.{Metric, mean_point, interval_point, summary}
use shabdiz.Scope.Series.{
  Pass, over_time, over_time_pair, traverse, rows, sorted, text_value, group_pair, group_pairs,
  grouped, members,
}

abbrev list_of : Items → List Value
list_of nil = []
list_of (cons v vs) = v ∷ list_of vs

pub list_of-items : (vs : List Value) → list_of (items vs) ≡ vs
list_of-items [] = refl
list_of-items (v ∷ vs) = rw (list_of-items vs)

-- The points of a series.
abbrev pub data_of : Fields → List Value
data_of series = elim (get (codes "data") series) [ arr vs ↦ list_of vs | _ ↦ [] ]

-- The line is named after the key, the intervals are linked to the line's id, and both have the
-- colour of the place.
abbrev pub IsLinked : Pass → ℕ → Text → Fields × Fields → Type 0
IsLinked pass i key pair =
    (get (codes "name") pair.0 ≡ str (key ++ pass.name_suffix))
    × (get (codes "linkedTo") pair.1 ≡ get (codes "id") pair.0)
    × (get (codes "color") pair.0 ≡ colour (i + pass.shift))
    × (get (codes "color") pair.1 ≡ get (codes "color") pair.0)

-- One such pair for each key, in their order, from a place on.
abbrev pub Linked : Pass → ℕ → List Text → List (Fields × Fields) → Type 0
Linked pass i [] [] = Unit
Linked pass i [] (pair ∷ pairs) = ⊥
Linked pass i (key ∷ keys) [] = ⊥
Linked pass i (key ∷ keys) (pair ∷ pairs) =
    IsLinked pass i key pair × Linked pass (i + 1) keys pairs

module _ (h : Host Scenario) (themm : Value) (metric : Metric) where
  abbrev over_time_rows : Scenario → List Fields
  over_time_rows match = rows h themm metric match (codes "_over_time.csv")

  -- Over time, one pair for each scenario: both named after its churn and coloured by its place, the
  -- intervals linked to the scenario's name, and the line without an id; a point and an interval for
  -- each row of the scenario's file, in their order.
  abbrev pub IsUnlinked : ℕ → Scenario → Fields × Fields → Type 0
  IsUnlinked i match pair =
      (get (codes "name") pair.0 ≡ text_value match.churn)
      × (get (codes "id") pair.0 ≡ undefined)
      × (get (codes "linkedTo") pair.1 ≡ text_value match.name)
      × (get (codes "color") pair.0 ≡ colour i)
      × (get (codes "color") pair.1 ≡ colour i)
      × (traverse (mean_point h themm metric) (over_time_rows match) ≡ ok (data_of pair.0))
      × (traverse (interval_point h themm metric) (over_time_rows match) ≡ ok (data_of pair.1))

  abbrev pub Unlinked : ℕ → List Scenario → List (Fields × Fields) → Type 0
  Unlinked i [] [] = Unit
  Unlinked i [] (pair ∷ pairs) = ⊥
  Unlinked i (match ∷ rest) [] = ⊥
  Unlinked i (match ∷ rest) (pair ∷ pairs) = IsUnlinked i match pair × Unlinked (i + 1) rest pairs

  group_pair-IsLinked :
      (pass : Pass) (i : ℕ) (key : Text) (found : List Scenario) {pair : Fields × Fields}
      → group_pair h themm metric pass i key found ≡ ok pair
      → IsLinked pass i key pair
  unfolding group_pair
  group_pair-IsLinked pass i key found e =
      let (points, u, v) =
        ok_parts
          (traverse (λ match. summary h themm match.churn (rows h themm metric match pass.suffix))
            (sorted h themm metric pass.sorts found))
          _ e in
      rw (← ok-inj v) (refl, refl, refl, refl)

  group_pairs-Linked :
      (pass : Pass) (i : ℕ) (groups : Groups Scenario) (keys : List Text)
      {pairs : List (Fields × Fields)}
      → group_pairs h themm metric pass i groups keys ≡ ok pairs
      → Linked pass i keys pairs
  unfolding group_pairs
  group_pairs-Linked pass i groups [] e = rw (← ok-inj e) tt
  group_pairs-Linked pass i groups (key ∷ keys) {pairs} e =
      let (pair, a, b) =
        ok_parts (group_pair h themm metric pass i key (members h themm metric key groups)) _ e in
      let (more, c, d) = ok_parts (group_pairs h themm metric pass (i + 1) groups keys) _ b in
      rw (← ok-inj d)
        (group_pair-IsLinked pass i key _ a, group_pairs-Linked pass (i + 1) groups keys c)

  -- Where the loop over the groups returns, its pairs are those of the keys of the groups by peer
  -- configuration, in the order of `Object.keys`: each line is named after its key, its error bars
  -- are linked to its id, and both have the colour of the key's place behind the loop's shift.
  pub grouped-Linked :
      (pass : Pass) (found : List Scenario) {pairs : List (Fields × Fields)}
      → grouped h themm metric pass found ≡ ok pairs
      → (groups : Groups Scenario) × (group_by (λ match. match.peer_configuration) none found
          ≡ ok groups)
        × Linked pass 0 (object_keys groups) pairs
  unfolding grouped
  grouped-Linked pass found e =
      let (groups, a, b) = ok_parts (group_by (λ match. match.peer_configuration) none found) _ e in
      (groups, a, group_pairs-Linked pass 0 groups (object_keys groups) b)

  over_time_pair-IsUnlinked :
      (i : ℕ) (match : Scenario) {pair : Fields × Fields}
      → over_time_pair h themm metric i match ≡ ok pair
      → IsUnlinked i match pair
  unfolding over_time_pair
  over_time_pair-IsUnlinked i match e =
      let (means, a, b) =
        ok_parts
          (traverse (mean_point h themm metric)
            (rows h themm metric match (codes "_over_time.csv")))
          _ e in
      let (intervals, c, d) =
        ok_parts
          (traverse (interval_point h themm metric)
            (rows h themm metric match (codes "_over_time.csv")))
          _ b in
      rw (← ok-inj d) (
        refl,
        refl,
        refl,
        refl,
        refl,
        a ∙ ap ok (sym (list_of-items means)),
        c ∙ ap ok (sym (list_of-items intervals)),
      )

  -- Where the loop over the scenarios returns, it has made a pair for each of them in their order,
  -- both named after its churn and coloured by its place; the range is linked to the scenario's
  -- name, and the line has no id; and they hold a point and an interval for each row of the
  -- scenario's file, in the order of the rows.
  pub over_time-Unlinked :
      (i : ℕ) (found : List Scenario) {pairs : List (Fields × Fields)}
      → over_time h themm metric i found ≡ ok pairs
      → Unlinked i found pairs
  unfolding over_time
  over_time-Unlinked i [] e = rw (← ok-inj e) tt
  over_time-Unlinked i (match ∷ rest) e =
      let (pair, a, b) = ok_parts (over_time_pair h themm metric i match) _ e in
      let (more, c, d) = ok_parts (over_time h themm metric (i + 1) rest) _ b in
      rw (← ok-inj d) (over_time_pair-IsUnlinked i match a, over_time-Unlinked (i + 1) rest c)
