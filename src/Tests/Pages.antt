-- ===== src/Tests/Pages.antt =====
-- Runs of what is proved of the page and its renderer.
use shabdiz.Prelude.{◌≡◌, refl, ◌||◌, true, false, List, [], ◌∷◌}
use shabdiz.Prelude.Int.{pos}
use shabdiz.Prelude.Result.{ok, is_error}
use shabdiz.Text.{codes, trim}
use shabdiz.Text.Number.{scan, show_ℕ, int, strict_eq}
use shabdiz.Theme.{extend}
use shabdiz.Metrics.{theme_of}
use shabdiz.Util.Arrays.{Distinct}
use shabdiz.Util.Groups.{group_by, object_keys, property_key, is_inherited}
use shabdiz.Query.{
  Dimension, churn, workload, peer_configuration, experiment_duration, training_duration,
  clustering_algorithm, feedback_enabled,
}
use shabdiz.Query.Matches.{selection, matches}
use shabdiz.Scope.{renderer}
use shabdiz.Scope.Series.{grouped}
use shabdiz.Scope.Returns.{lacks_chart, renderer-is_error}
use shabdiz.Page.{Page, ◌>>=◌, render, update, data_type_changed}
use shabdiz.Page.Loading.{session, nothing_selected, session-intended}
use shabdiz.Page.Sound.{Event, metric_click, filter_check, data_type_change, handle}
use shabdiz.Page.Spec.{view, run, all_intended, IsTidy, run-intended}
use shabdiz.Page.Outcome.Throws.{lacks_update}
use shabdiz.Page.Outcome.Events.{handle-is_error}
use shabdiz.Page.Outcome.Current.{IsCurrent}
use shabdiz.Page.Outcome.Handlers.{handle-IsCurrent}
use shabdiz.Tests.Hosts.{
  host, deep-IsDeepExtend, host-IsSort, first_of_all, metric, page, scenarios,
}

abbrev selected : Page
selected = record page { query = first_of_all }

selected-Distinct : (d : Dimension) → Distinct strict_eq (selection d selected.query)
selected-Distinct churn = (refl, tt)
selected-Distinct workload = (refl, tt)
selected-Distinct peer_configuration = (refl, tt)
selected-Distinct experiment_duration = (refl, tt)
selected-Distinct training_duration = (refl, tt)
selected-Distinct clustering_algorithm = (refl, tt)
selected-Distinct feedback_enabled = (refl, tt)

selected-IsTidy : IsTidy selected
selected-IsTidy = record { distinct = selected-Distinct }

-- A box is checked, another one unchecked, and a kind of data chosen.
abbrev events : List Event
events =
    filter_check true (int (pos 1)) churn
    ∷ filter_check false (int (pos 0)) churn
    ∷ data_type_change (codes "overall")
    ∷ []

run-intended_example :
    (view (run host events selected) ≡ all_intended events (view selected))
    × IsTidy (run host events selected)
run-intended_example = run-intended host events selected selected-IsTidy

renderer-is_error_example : is_error (renderer host metric scenarios (codes "batraining")) ≡ (
    is_inherited (property_key metric.name)
    || lacks_chart host metric (codes "batraining") scenarios)
renderer-is_error_example =
    renderer-is_error host deep-IsDeepExtend host-IsSort metric scenarios (codes "batraining")

handle-is_error_example :
    is_error (handle host (metric_click (int (pos 7))) selected).1
    ≡ lacks_update host (handle host (metric_click (int (pos 7))) selected).0
handle-is_error_example =
    handle-is_error host deep-IsDeepExtend host-IsSort (metric_click (int (pos 7))) selected

abbrev chosen : Event
chosen = data_type_change (codes "batraining")

chosen_returns : (handle host chosen selected).1 ≡ ok tt
unfolding data_type_changed update matches renderer grouped group_by object_keys scan theme_of
    extend ◌>>=◌ render show_ℕ
chosen_returns = refl

handle-IsCurrent_example : IsCurrent host (handle host chosen selected).0
handle-IsCurrent_example = handle-IsCurrent host deep-IsDeepExtend chosen selected chosen_returns

-- The page behind that event, whose address is opened again.
abbrev left : Page
left = (handle host chosen selected).0

-- A metric is clicked, a box is checked and taken back, and another kind of data is chosen.
abbrev clicks : List Event
clicks =
    metric_click (int (pos 2))
    ∷ filter_check true (int (pos 1)) churn
    ∷ filter_check false (int (pos 1)) churn
    ∷ filter_check true (int (pos 0)) workload
    ∷ data_type_change (codes "overall")
    ∷ []

session-intended_example :
    (view (session host (codes " ") clicks) ≡ all_intended clicks nothing_selected)
    × IsTidy (session host (codes " ") clicks)
unfolding trim
session-intended_example = session-intended host (codes " ") refl clicks
