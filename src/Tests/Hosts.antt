-- ===== src/Tests/Hosts.antt =====
-- A page with two scenarios and one metric, and a host whose `$.extend` merges deeply.
use shabdiz.Prelude.{
  ℕ, zero, suc, ◌≡◌, refl, ◌-◌, ◌*◌, List, [], ◌∷◌, none, some, Bool-cases, inl, inr,
}
use shabdiz.Text.{Text, codes, eq_text, eq_text→eq}
use shabdiz.Value.{
  Value, undefined, null, bool, num, str, fn, arr, obj, Items, nil, cons, Fields, end, field, get,
  Host,
}
use mathlib.Core.List.Perm
use shabdiz.Value.Sort.{IsSort}
use shabdiz.Value.Extend.{IsDeepExtend, merged, fields_of, items_of, item}
use shabdiz.Query.{initial, Query}
use shabdiz.Prelude.Int.{pos}
use shabdiz.Text.Number.{int}
use shabdiz.Query.Matches.{Scenario}
use shabdiz.Scope.Points.{Metric}
use shabdiz.Page.{Page}
use shabdiz.Prelude.Result.{Result, ok, err}

-- Objects are merged property by property, a later source in front.
abbrev mutual
  pub deep : Value → Value → Value
  deep old undefined = old
  deep old null = null
  deep old (bool b) = bool b
  deep old (num n) = num n
  deep old (str t) = str t
  deep old (fn f) = fn f
  deep old (arr xs) = arr (deep_items (items_of old) xs)
  deep old (obj new) = obj (deep_fields (fields_of old) new)

  deep_fields : Fields → Fields → Fields
  deep_fields t end = t
  deep_fields t (field k v rest) = field k (deep (get k t) v) (deep_fields t rest)

  -- Element by element, and what the target has behind the end of the source.
  deep_items : Items → Items → Items
  deep_items xs nil = xs
  deep_items nil (cons w ws) = cons (deep undefined w) (deep_items nil ws)
  deep_items (cons v vs) (cons w ws) = cons (deep v w) (deep_items vs ws)

deep_lem : (old new : Value) → deep old new ≡ merged deep old new
deep_lem old undefined = refl
deep_lem old null = refl
deep_lem old (bool b) = refl
deep_lem old (num n) = refl
deep_lem old (str t) = refl
deep_lem old (fn f) = refl
deep_lem old (arr xs) = refl
deep_lem old (obj new) = refl

get-deep_fields :
    (key : Text) (t s : Fields) → get key (deep_fields t s) ≡ merged deep (get key t) (get key s)
get-deep_fields key t end = refl
get-deep_fields key t (field k v rest) = elim (Bool-cases (eq_text k key)) [
  | inl e ↦ rw (e, eq_text→eq k key e) (deep_lem (get key t) v)
  | inr e ↦ rw e (get-deep_fields key t rest)
]

item-deep_items :
    (i : ℕ) (xs ys : Items) → item i (deep_items xs ys) ≡ merged deep (item i xs) (item i ys)
item-deep_items i xs nil = refl
item-deep_items zero nil (cons w ws) = deep_lem undefined w
item-deep_items (suc i) nil (cons w ws) = item-deep_items i nil ws
item-deep_items zero (cons v vs) (cons w ws) = deep_lem v w
item-deep_items (suc i) (cons v vs) (cons w ws) = item-deep_items i vs ws

pub deep-IsDeepExtend : IsDeepExtend deep
deep-IsDeepExtend = record {
  skip = λ target. refl;
  merge = λ t s. (deep_fields t s, refl, λ key. get-deep_fields key t s);
  merge_items = λ xs ys. (deep_items xs ys, refl, λ i. item-deep_items i xs ys);
}

-- The first row of every file.
abbrev row : Fields
row =
    field (codes "mean") (num 5)
      (field (codes "ci_lower") (num 4) (field (codes "ci_upper") (num 6) end))

abbrev pub host : Host Scenario
host = record {
  decimal = λ m k. 1;
  sub = λ x y. x - y;
  mul = λ x y. x * y;
  div = λ x y. x;
  to_number = λ v. 2;
  deep_extend = deep;
  csv = λ t. row ∷ [];
  table = λ t. (λ name. some name) ∷ [];
  fetch = λ url. (200, []);
  sort = λ compare xs. xs;
}

abbrev pub scenario : Text → Scenario
scenario churn = record {
  name = some (codes "run");
  churn = some churn;
  workload = some (codes "Light");
  peer_configuration = some (codes "BS");
  experiment_duration = some (codes "4 hrs");
  training_duration = some (codes "2");
  clustering_algorithm = some (codes "Perfect");
  feedback_enabled = some (codes "true");
}

abbrev pub metric : Metric
metric = record { name = some (codes "join_failure_rate"); type = some (codes "Rate") }

abbrev pub scenarios : List Scenario
scenarios = scenario (codes "Heavy") ∷ scenario (codes "Medium") ∷ []

abbrev pub page : Page
page = record {
  metrics = metric ∷ [];
  scenarios = scenarios;
  query = initial;
  data_type = codes "overtime";
  metric = none;
  matches = [];
  effects = [];
}

pub host-IsSort : IsSort (host.sort)
host-IsSort = record { perm = λ compare xs. Perm.refl xs }

-- The first label of every property is selected.
abbrev pub first_of_all : Query
first_of_all = record {
  metric = int (pos 0);
  churn = int (pos 0) ∷ [];
  workload = int (pos 0) ∷ [];
  peer_configuration = int (pos 0) ∷ [];
  experiment_duration = int (pos 0) ∷ [];
  training_duration = int (pos 0) ∷ [];
  clustering_algorithm = int (pos 0) ∷ [];
  feedback_enabled = int (pos 0) ∷ [];
}

-- What a run returned.
abbrev pub returned : {A : Type 0} → A → Result A → A
returned other (ok a) = a
returned other (err e) = other
