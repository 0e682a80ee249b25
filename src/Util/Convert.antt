-- ===== src/Util/Convert.antt =====
-- evaluation/src/site/resources/analysis/scripts/util.js: the texts of `convert` for durations,
-- intervals, workloads, churns and maintenances, as JSON gives them. A missing field is `none`.
pub mod Laws
pub mod Fields
use shabdiz.Prelude.{ℕ, Bool, false, [], ◌∷◌, ◌++◌, Option, none, some, if◌then◌else◌, map, any}
use shabdiz.Prelude.Result.{Result, ok, err, type_error, ◌>>=◌}
use shabdiz.Text.{Text, codes, eq_text}
use shabdiz.Util.Strings.{contains, to_upper}

-- `switch (time_unit)`.
unfoldable pub time_unit_to_short_time_unit : Text → Text
time_unit_to_short_time_unit time_unit =
    if eq_text time_unit (codes "NANOSECONDS")
    then codes "ns"
    else if eq_text time_unit (codes "MICROSECONDS")
    then codes "micros"
    else if eq_text time_unit (codes "MILLISECONDS")
    then codes "ms"
    else if eq_text time_unit (codes "SECONDS")
    then codes "s"
    else if eq_text time_unit (codes "MINUTES")
    then codes "mins"
    else if eq_text time_unit (codes "HOURS")
    then codes "hrs"
    else if eq_text time_unit (codes "DAYS")
    then codes "days"
    else time_unit

-- A number is the bit pattern of its double.
pub record Duration : Type 0 where
  pub time_unit : Option Text
  pub length : Option ℕ

pub record Intervals : Type 0 where
  pub name : Option Text
  pub min_mean : Option Duration
  pub max_mean : Option Duration
  pub cycle_length : Option Duration
  pub mean : Option Duration
  pub constant_interval : Option Duration

pub record Maintenance : Type 0 where
  pub name : Option Text
  pub strategy : Option (Option Text)
  pub population_size : Option ℕ
  pub elite_count : Option ℕ
  pub mutation_probability : Option ℕ
  pub evolution_cycle_length : Option ℕ
  pub evolution_cycle_length_unit : Option Text
  pub clusterer_name : Option Text

-- What the functions take from the language: the double of a whole number, `==` of doubles, how a
-- double is printed, and `JSON.stringify`.
pub record Printing : Type 0 where
  pub whole : ℕ → ℕ
  pub same : ℕ → ℕ → Bool
  pub number : ℕ → Text
  pub intervals : Intervals → Text
  pub maintenance : Maintenance → Text

-- `name == text`.
abbrev pub is_named : Option Text → Text → Bool
is_named none t = false
is_named (some s) t = eq_text s t

-- What is read of a field that may be missing, of which a property is read.
abbrev pub given : {A : Type 0} → Option A → Result A
given none = err type_error
given (some a) = ok a

-- A name of a scenario of one of the batches 4 to 9: what the regular expression finds.
unfoldable pub is_later_batch : Text → Bool
unfolding contains
is_later_batch name =
    any (λ digit. contains name (codes "scenario_batch" ++ digit ∷ b'_' ∷ []))
      (b'4' ∷ b'5' ∷ b'6' ∷ b'7' ∷ b'8' ∷ b'9' ∷ [])

module _ (p : Printing) where
  -- A number that may be missing, as the operator `+` puts it into a text.
  abbrev shown : Option ℕ → Text
  shown none = codes "undefined"
  shown (some n) = p.number n

  abbrev equals : Option ℕ → ℕ → Bool
  equals none m = false
  equals (some n) m = p.same n (p.whole m)

  unfoldable pub duration_to_string : Duration → Result Text
  unfolding time_unit_to_short_time_unit
  duration_to_string duration = do
    time_unit ← given duration.time_unit
    ok (
        if equals duration.length 9223372036854775807
        then codes "Infinite"
        else if equals duration.length 0
        then codes "None"
        else shown duration.length
          ++ (codes " " ++ time_unit_to_short_time_unit (map to_upper time_unit)))

  -- The call on a field that may be missing.
  abbrev pub duration_of : Option Duration → Result Text
  duration_of d = do duration ← given d; duration_to_string duration

  unfoldable pub intervals_to_string : Intervals → Result Text
  unfolding duration_to_string
  intervals_to_string i =
      if is_named i.name (codes "OscillatingExponentialInterval")
      then (do
        least ← duration_of i.min_mean
        most ← duration_of i.max_mean
        cycle ← duration_of i.cycle_length
        ok (
            codes "Oscillating Exponential(min: "
            ++ (least
                ++ (codes ", max: " ++ (most ++ (codes ", cycle: " ++ (cycle ++ codes ")")))))))
      else if is_named i.name (codes "FixedExponentialInterval")
      then (do mean ← duration_of i.mean; ok (codes "Exponential(mean: " ++ (mean ++ codes ")")))
      else if is_named i.name (codes "ConstantIntervalGenerator")
      then duration_of i.constant_interval
      else ok (p.intervals i)

  -- `workloadToString`, on `workload.intervals`.
  unfoldable pub workload_to_string : Option Intervals → Result Text
  unfolding intervals_to_string
  workload_to_string field = do
    i ← given field
    intervals ← intervals_to_string i
    ok (if eq_text intervals (codes "Infinite") then codes "None" else intervals)

  -- `churnToString`, on `churn.sessionLength` and `churn.downtime`.
  unfoldable pub churn_to_string : Option Intervals → Option Intervals → Result Text
  unfolding intervals_to_string
  churn_to_string session_length downtime = do
    s ← given session_length
    session ← intervals_to_string s
    d ← given downtime
    down ← intervals_to_string d
    ok (codes "session length: " ++ (session ++ (codes ", down time: " ++ down)))

  abbrev pub cycle_of : Maintenance → Duration
  cycle_of m = record {
    time_unit = m.evolution_cycle_length_unit;
    length = m.evolution_cycle_length;
  }

  -- The clusterer of an evolutionary maintenance; the scenario's name is read for one clusterer.
  unfoldable pub clusterer : Option Text → Option Text → Result Text
  unfolding is_later_batch
  clusterer none scenario_name = ok (codes "None[small-space]")
  clusterer (some c) scenario_name =
      if eq_text c (codes "PFClustClusterer")
      then (do
        name ← given scenario_name
        ok (if is_later_batch name then c ++ codes "Optimised" else c))
      else ok c

  abbrev or_old : Option Text → Text
  or_old none = codes "OLD"
  or_old (some c) = c

  -- The name of a strategy may be missing; so may the scenario or its name.
  unfoldable pub maintenance_to_string : Maintenance → Option Text → Result (Option Text)
  unfolding duration_to_string clusterer
  maintenance_to_string m scenario_name =
      if is_named m.name (codes "Maintenance")
      then ok (elim m.strategy [ none ↦ some (codes "None") | some name ↦ name ])
      else if is_named m.name (codes "EvolutionaryMaintenance")
      then (do
        trial ← duration_to_string (cycle_of m)
        c ← clusterer m.clusterer_name scenario_name
        ok (
            some (
              codes "Evolutionary(population size: "
              ++ (shown m.population_size
                  ++ (codes ", elite count: "
                      ++ (shown m.elite_count
                          ++ (codes ", mutation prob.: "
                              ++ (shown m.mutation_probability
                                  ++ (codes ", trial length: "
                                      ++ (trial
                                          ++ (codes ", clusterer: " ++ (c ++ codes ")"))))))))))))
      else if is_named m.name (codes "RandomMaintenance")
      then (do
        trial ← duration_to_string (cycle_of m)
        ok (
            some (
              codes "RandomSearch(population size: "
              ++ (shown m.population_size
                  ++ (codes ", trial length: "
                      ++ (trial
                          ++ (codes ", clusterer: " ++ (or_old m.clusterer_name ++ codes ")"))))))))
      else ok (some (p.maintenance m))
