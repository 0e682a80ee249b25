-- ===== src/Util/Convert/Fields.antt =====
-- Which fields the texts of `convert` in evaluation/src/site/resources/analysis/scripts/util.js
-- cannot do without.
use shabdiz.Prelude.{
  ◌≡◌, refl, ◌∙◌, Bool, true, false, ◌&&◌, ◌||◌, List, [], ◌∷◌, Option, none, some, any,
  Option-cases, if◌then◌else◌, Bool-cases, inl, inr, arith,
}
use shabdiz.Prelude.Result.{ok, ◌>>=◌, is_error, is_error-bind}
use shabdiz.Text.{Text, codes}
use shabdiz.Util.Convert.{
  given, duration_of, Duration, Intervals, Maintenance, Printing, duration_to_string,
  intervals_to_string, workload_to_string, churn_to_string, clusterer, maintenance_to_string,
  is_named, cycle_of,
}

-- A field that is missing.
abbrev pub is_missing : {A : Type 0} → Option A → Bool
is_missing none = true
is_missing (some a) = false

-- A duration that is missing, or that has no unit.
abbrev pub lacks_unit : Option Duration → Bool
lacks_unit none = true
lacks_unit (some d) = is_missing d.time_unit

-- The durations that the text of intervals with this name shows.
abbrev pub durations : Intervals → List (Option Duration)
durations i =
    if is_named i.name (codes "OscillatingExponentialInterval")
    then i.min_mean ∷ i.max_mean ∷ i.cycle_length ∷ []
    else if is_named i.name (codes "FixedExponentialInterval")
    then i.mean ∷ []
    else if is_named i.name (codes "ConstantIntervalGenerator")
    then i.constant_interval ∷ []
    else []

-- Intervals that are missing, or a duration of theirs.
abbrev pub lacks_duration : Option Intervals → Bool
lacks_duration none = true
lacks_duration (some i) = any lacks_unit (durations i)

-- A maintenance of a kind whose text shows its cycle has no unit for it, or a scenario without a
-- name is asked for it by its clusterer.
abbrev pub lacks_cycle : Maintenance → Option Text → Bool
lacks_cycle m scenario_name =
    if is_named m.name (codes "Maintenance")
    then false
    else if is_named m.name (codes "EvolutionaryMaintenance")
    then is_missing m.evolution_cycle_length_unit
      || (is_named m.clusterer_name (codes "PFClustClusterer") && is_missing scenario_name)
    else is_named m.name (codes "RandomMaintenance") && is_missing m.evolution_cycle_length_unit

module _ (p : Printing) where
  duration_to_string-is_error :
      (d : Duration) → is_error (duration_to_string p d) ≡ is_missing d.time_unit
  unfolding duration_to_string
  duration_to_string-is_error d = elim (Option-cases d.time_unit) [
    | inl e ↦ rw e refl
    | inr (t, e) ↦ rw e refl
  ]

  duration_of-is_error : (d : Option Duration) → is_error (duration_of p d) ≡ lacks_unit d
  duration_of-is_error none = refl
  duration_of-is_error (some d) = duration_to_string-is_error d

  -- The texts of these durations, one behind the other.
  oscillating :
      (a b c : Option Duration) (f : Text → Text → Text → Text)
      → is_error
          (duration_of p a >>= λ x. duration_of p b >>= λ y. duration_of p c >>= λ z. ok (f x y z))
        ≡ any lacks_unit (a ∷ b ∷ c ∷ [])
  oscillating a b c f =
      is_error-bind (duration_of p a) _ (λ x e.
        is_error-bind (duration_of p b) _ (λ y g. is_error-bind (duration_of p c) _ (λ z k. refl)))
      ∙ rw (duration_of-is_error a, duration_of-is_error b, duration_of-is_error c) refl

  intervals_to_string-is_error :
      (i : Intervals) → is_error (intervals_to_string p i) ≡ any lacks_unit (durations i)
  unfolding intervals_to_string
  intervals_to_string-is_error i =
      elim (Bool-cases (is_named i.name (codes "OscillatingExponentialInterval"))) [
        | inl a ↦ rw a (oscillating i.min_mean i.max_mean i.cycle_length _)
        | inr a ↦ elim (Bool-cases (is_named i.name (codes "FixedExponentialInterval"))) [
          | inl b ↦
              rw (a, b)
                (is_error-bind (duration_of p i.mean) _ (λ x e. refl)
                  ∙ rw (duration_of-is_error i.mean) refl)
          | inr b ↦ elim (Bool-cases (is_named i.name (codes "ConstantIntervalGenerator"))) [
            | inl c ↦ rw (a, b, c) (duration_of-is_error i.constant_interval ∙ ground arith)
            | inr c ↦ rw (a, b, c) refl
          ]
        ]
      ]

  intervals_of-is_error :
      (i : Option Intervals) → is_error (given i >>= intervals_to_string p) ≡ lacks_duration i
  intervals_of-is_error none = refl
  intervals_of-is_error (some i) = intervals_to_string-is_error i

  churn_to_string-is_error :
      (session_length downtime : Option Intervals)
      → is_error (churn_to_string p session_length downtime)
        ≡ (lacks_duration session_length || lacks_duration downtime)
  unfolding churn_to_string
  churn_to_string-is_error none downtime = refl
  churn_to_string-is_error (some s) none =
      is_error-bind (intervals_to_string p s) _ (λ x e. refl)
      ∙ rw (intervals_to_string-is_error s) refl
  churn_to_string-is_error (some s) (some t) =
      is_error-bind (intervals_to_string p s) _
        (λ x e. is_error-bind (intervals_to_string p t) _ (λ y g. refl))
      ∙ rw (intervals_to_string-is_error s, intervals_to_string-is_error t) (ground arith)

  clusterer-is_error :
      (c scenario_name : Option Text)
      → is_error (clusterer p c scenario_name)
        ≡ (is_named c (codes "PFClustClusterer") && is_missing scenario_name)
  unfolding clusterer
  clusterer-is_error none scenario_name = refl
  clusterer-is_error (some c) none = ground arith
  clusterer-is_error (some c) (some name) = ground arith

  maintenance_to_string-is_error :
      (m : Maintenance) (scenario_name : Option Text)
      → is_error (maintenance_to_string p m scenario_name) ≡ lacks_cycle m scenario_name
  unfolding maintenance_to_string
  maintenance_to_string-is_error m scenario_name =
      elim (Bool-cases (is_named m.name (codes "Maintenance"))) [
        | inl a ↦ rw a refl
        | inr a ↦ elim (Bool-cases (is_named m.name (codes "EvolutionaryMaintenance"))) [
          | inl b ↦
              rw (a, b)
                (is_error-bind (duration_to_string p (cycle_of p m)) _ (λ x e.
                    is_error-bind (clusterer p m.clusterer_name scenario_name) _ (λ y g. refl))
                  ∙ rw
                      (
                        duration_to_string-is_error (cycle_of p m),
                        clusterer-is_error m.clusterer_name scenario_name,
                      )
                      (ground arith))
          | inr b ↦ elim (Bool-cases (is_named m.name (codes "RandomMaintenance"))) [
            | inl c ↦
                rw (a, b, c)
                  (is_error-bind (duration_to_string p (cycle_of p m)) _ (λ x e. refl)
                    ∙ rw (duration_to_string-is_error (cycle_of p m)) (ground arith))
            | inr c ↦ rw (a, b, c) refl
          ]
        ]
      ]

  workload_to_string-is_error :
      (i : Option Intervals) → is_error (workload_to_string p i) ≡ lacks_duration i
  unfolding workload_to_string
  workload_to_string-is_error none = refl
  workload_to_string-is_error (some i) =
      is_error-bind (intervals_to_string p i) _ (λ x e. refl)
      ∙ rw (intervals_to_string-is_error i) (ground arith)

  -- Which missing fields make the texts throw: that of a workload, where its intervals are missing
  -- or one of the durations that their text shows, by the name of the intervals, is missing or has
  -- no unit; that of a churn, where this is so of the session length or of the downtime; that of a
  -- maintenance, where it is evolutionary and its cycle has no unit, or its clusterer is
  -- `PFClustClusterer` and the scenario has no name, or where it is random and its cycle has no
  -- unit. They throw in no other case.
  pub texts_throw :
      (intervals session_length downtime : Option Intervals) (m : Maintenance)
      (scenario_name : Option Text)
      → (is_error (workload_to_string p intervals) ≡ lacks_duration intervals)
        × (is_error (churn_to_string p session_length downtime)
            ≡ (lacks_duration session_length || lacks_duration downtime))
        × (is_error (maintenance_to_string p m scenario_name) ≡ lacks_cycle m scenario_name)
  texts_throw intervals session_length downtime m scenario_name = (
    workload_to_string-is_error intervals,
    churn_to_string-is_error session_length downtime,
    maintenance_to_string-is_error m scenario_name,
  )
