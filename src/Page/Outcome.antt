-- ===== src/Page/Outcome.antt =====
-- What `update` of evaluation/src/site/resources/analysis/scripts/query.js does on every branch:
-- what it stores, what it shows, in which order, and where it throws.
pub mod Throws
pub mod Current
pub mod Handlers
pub mod Start
pub mod Alike
pub mod Reopen
pub mod Events
use shabdiz.Prelude.{
  ◌≡◌, refl, List, [], ◌∷◌, ◌++◌, Option, none, some, map, append_assoc, Option-cases, inl, inr,
}
use shabdiz.Prelude.Result.{Result, ok, err, type_error}
use shabdiz.Text.{codes}
use shabdiz.Text.Number.{show}
use shabdiz.Value.{Value, Host}
use shabdiz.Scope.{renderer, Rendering}
use shabdiz.Scope.Points.{Metric}
use shabdiz.Scope.Series.{text_value}
use shabdiz.Query.{
  Dimension, churn, workload, peer_configuration, experiment_duration, training_duration,
  clustering_algorithm, feedback_enabled, encode,
}
use shabdiz.Query.Matches.{Scenario, selection, at, matches}
use shabdiz.Page.{
  Effect, set_hash, set_text, remove_class, add_class, check, draw, resize, Page, Done, ◌>>=◌,
  prefix, update, refresh, render,
}

-- The boxes of a property.
abbrev pub checks : Page → Dimension → List Effect
checks p d = map (λ s. check (prefix d ++ show s)) (selection d p.query)

abbrev pub boxes : Page → List Effect
boxes p =
    checks p churn
    ++ (checks p workload
        ++ (checks p peer_configuration
            ++ (checks p experiment_duration
                ++ (checks p training_duration
                    ++ (checks p clustering_algorithm ++ checks p feedback_enabled)))))

-- What is shown before the matches are looked for.
abbrev pub announced : Page → Metric → List Effect
announced p m =
    set_text (codes "#main_title") (text_value m.name)
    ∷ remove_class (codes "#chart_list .active") (codes "active")
    ∷ add_class (codes "#metric_" ++ show p.query.metric) (codes "active")
    ∷ boxes p

abbrev pub titled : Option Value → List Effect
titled none = []
titled (some title) = set_text (codes "#main_title") title ∷ []

abbrev pub hashed : Page → Page
hashed p = record p { effects = p.effects ++ set_hash (encode p.query p.data_type) ∷ [] }

module _ (h : Host Scenario) where
  abbrev pub drawn : Page → Metric → List Scenario → Result Rendering → Page × Result Done
  drawn p m found (err e) =
      (record p { metric = some m; matches = found; effects = p.effects ++ announced p m }, err e)
  drawn p m found (ok r) = (
    record p {
      metric = some m;
      matches = found;
      effects =
          p.effects
          ++ (announced p m
              ++ (titled r.main_title ++ draw r.chart ∷ resize (codes "chart_list") ∷ []));
    },
    ok tt,
  )

  abbrev pub found_all : Page → Metric → Result (List Scenario) → Page × Result Done
  found_all p m (err e) = (record p { effects = p.effects ++ announced p m }, err e)
  found_all p m (ok found) = drawn p m found (renderer h m found p.data_type)

  abbrev pub chosen : Page → Option Metric → Page × Result Done
  chosen p none = (p, err type_error)
  chosen p (some m) = found_all p m (matches p.query p.scenarios)

  module _ (p : Page) where
    by_rendering :
        (m : Metric) (found : List Scenario) (r : Result Rendering)
        → at p.metrics p.query.metric ≡ some m
        → matches p.query p.scenarios ≡ ok found
        → renderer h m found p.data_type ≡ r
        → update h p ≡ drawn (hashed p) m found r
    unfolding update refresh render ◌>>=◌
    by_rendering m found (err e) a b c = rw (a, b, c) (simp append_assoc)
    by_rendering m found (ok r) a b c = elim (Option-cases r.main_title) [
      | inl n ↦ rw (a, b, c, n) (simp append_assoc)
      | inr (t, n) ↦ rw (a, b, c, n) (simp append_assoc)
    ]

    by_matches :
        (m : Metric) (found : Result (List Scenario))
        → at p.metrics p.query.metric ≡ some m
        → matches p.query p.scenarios ≡ found
        → update h p ≡ found_all (hashed p) m found
    unfolding update refresh ◌>>=◌
    by_matches m (err e) a b = rw (a, b) (simp append_assoc)
    by_matches m (ok found) a b = by_rendering m found _ a b refl

    by_metric :
        (o : Option Metric) → at p.metrics p.query.metric ≡ o → update h p ≡ chosen (hashed p) o
    unfolding update refresh ◌>>=◌
    by_metric none a = rw a refl
    by_metric (some m) a = by_matches m _ a refl

  -- `update` does what `chosen` says, once it has written the address.
  pub update-chosen : (p : Page) → update h p ≡ chosen (hashed p) (at p.metrics p.query.metric)
  update-chosen p = by_metric p _ refl
