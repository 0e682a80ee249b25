-- ===== src/Tests/Windows.antt =====
-- Runs of what is proved of units, workloads, distances and the window.
use shabdiz.Prelude.{
  ℕ, ◌≡◌, ◌||◌, true, false, inl, inr, ◌≤◌, ◌<◌, ◌+◌, ◌-◌, ◌*◌, refl, ◌==◌, List, [], ◌∷◌, ◌++◌,
  none, some, All, length, arith,
}
use shabdiz.Prelude.Result.{ok, err, thrown, is_error}
use shabdiz.Text.{Text, codes, Lacks}
use shabdiz.Text.Number.{show_ℕ}
use shabdiz.Text.Number.Laws.{IsDigit, show_ℕ-IsDigit}
use shabdiz.Util.Convert.Laws.{hours, lasting, duration_to_string-inj}
use shabdiz.Util.Convert.{
  Intervals, Maintenance, Printing, workload_to_string, churn_to_string, maintenance_to_string,
  duration_to_string,
}
use shabdiz.Util.Convert.Fields.{lacks_duration, lacks_cycle, texts_throw}
use shabdiz.Util.Distance.{Doubles, euclidean_distance}
use shabdiz.Page.Resizing.Settled.{happen-settled}
use shabdiz.Page.Modules.{place, dependencies-first}
use shabdiz.Page.Resizing.{Happening, resizing, firing, happen, opened, resizings, happen-debounced}

abbrev printing : Printing
printing = record {
  whole = λ n. n;
  same = λ m n. m == n;
  number = show_ℕ;
  intervals = λ i. [];
  maintenance = λ m. [];
}

-- A constant interval without end.
abbrev endless : Intervals
endless = record {
  name = some (codes "ConstantIntervalGenerator");
  min_mean = none;
  max_mean = none;
  cycle_length = none;
  mean = none;
  constant_interval =
      some (record { time_unit = some (codes "nanoseconds"); length = some 9223372036854775807 });
}

endless_shown : workload_to_string printing (some endless) ≡ ok (codes "None")
unfolding workload_to_string
endless_shown = refl

-- Exponential intervals of which the mean has no unit, and a maintenance without a scenario.
abbrev unitless : Intervals
unitless = record {
  name = some (codes "FixedExponentialInterval");
  min_mean = none;
  max_mean = none;
  cycle_length = none;
  mean = some (record { time_unit = none; length = some 3 });
  constant_interval = none;
}

abbrev evolving : Maintenance
evolving = record {
  name = some (codes "EvolutionaryMaintenance");
  strategy = none;
  population_size = some 10;
  elite_count = some 2;
  mutation_probability = some 1;
  evolution_cycle_length = some 5;
  evolution_cycle_length_unit = some (codes "minutes");
  clusterer_name = some (codes "PFClustClusterer");
}

texts_throw_example :
    (is_error (workload_to_string printing (some endless)) ≡ lacks_duration (some endless))
    × (is_error (churn_to_string printing (some endless) (some unitless))
        ≡ (lacks_duration (some endless) || lacks_duration (some unitless)))
    × (is_error (maintenance_to_string printing evolving none) ≡ lacks_cycle evolving none)
texts_throw_example =
    texts_throw printing (some endless) (some endless) (some unitless) evolving none

lacking :
    (lacks_duration (some endless) ≡ false)
    × (lacks_duration (some unitless) ≡ true)
    × (lacks_cycle evolving none ≡ true)
lacking = (refl, refl, refl)

digits_lack_space : (s : Text) → All IsDigit s → Lacks b' ' s
digits_lack_space [] h = tt
digits_lack_space (c ∷ s) (hc, hs) = (omega arith, digits_lack_space s hs)

three_hours :
    duration_to_string printing (lasting (codes "hours") 3)
    ≡ duration_to_string printing (lasting (codes "Hours") 3)
unfolding duration_to_string
three_hours = refl

duration_to_string-inj_example : (show_ℕ 3 ≡ show_ℕ 3) × (hours ≡ hours)
duration_to_string-inj_example =
    duration_to_string-inj printing (codes "hours") (codes "Hours") 3 3 hours hours
      (λ k. digits_lack_space (show_ℕ k) (show_ℕ-IsDigit k)) refl refl refl refl three_hours

-- The distance throws for points of unequal lengths.
abbrev doubles : Doubles
doubles = record {
  zero = 0;
  add = λ x y. x + y;
  sub = λ x y. x - y;
  mul = λ x y. x * y;
  sqrt = λ x. x;
}

unequal_throws :
    euclidean_distance doubles (3 ∷ []) (0 ∷ 8 ∷ []) ≡ err (thrown (codes "unequal pint lengths"))
unfolding euclidean_distance
unequal_throws = refl

-- Three events of the window, and the timer of the second handler.
abbrev happened : List Happening
happened = resizing ∷ resizing ∷ firing 1 ∷ resizing ∷ []

happen-debounced_example :
    (length (happen happened opened).timers ≤ 1)
    × ((happen happened opened).handlers ≡ resizings happened)
happen-debounced_example = happen-debounced happened

happen-settled_example :
    (id : ℕ) × ((happen (happened ++ resizing ∷ []) opened).timers ≡ id ∷ [])
    × ((happen (happened ++ resizing ∷ firing id ∷ []) opened).timers ≡ [])
    × ((happen (happened ++ resizing ∷ firing id ∷ []) opened).resized
        ≡ (happen (happened ++ resizing ∷ []) opened).resized + 1)
happen-settled_example = happen-settled happened (omega arith)

dependencies-first_example : place (codes "highcharts") < place (codes "highcharts_csv")
dependencies-first_example =
    dependencies-first (codes "highcharts_csv") (codes "highcharts") (inr (inl refl))
