-- ===== src/Page/Sound.antt =====
-- Sequences of events: what the page holds can always be bookmarked.
pub mod Filters
use shabdiz.Prelude.{◌≡◌, Bool, true, false, List, some, All, if◌then◌else◌}
use shabdiz.Text.{Text, Lacks}
use shabdiz.Text.Number.{Number, strict_eq}
use shabdiz.Text.Number.Laws.{IsExact, IsIndex}
use shabdiz.Util.Arrays.{add_if_absent, remove_if_exists}
use shabdiz.Util.Arrays.Laws.{All-add_if_absent, All-remove_if_exists}
use shabdiz.Value.{Host}
use shabdiz.Query.{
  Query, Dimension, churn, workload, peer_configuration, experiment_duration, training_duration,
  clustering_algorithm, feedback_enabled, encode, decode,
}
use shabdiz.Query.Matches.{Scenario, selection}
use shabdiz.Query.RoundTrip.{IsEncodable, decode-encode}
use shabdiz.Query.Reload.{IsSound}
use shabdiz.Page.{
  Page, Step, Done, ◌>>=◌, update, metric_clicked, filter_checked, data_type_changed,
  with_selection,
}
use shabdiz.Page.Updates.{address, address-update}

-- What a user can do.
pub data Event : Type 0 where
  metric_click : Number → Event
  filter_check : Bool → Number → Dimension → Event
  data_type_change : Text → Event

abbrev pub handle : Host Scenario → Event → Step Done
handle h (metric_click index) = metric_clicked h index
handle h (filter_check checked index d) = filter_checked h checked index d
handle h (data_type_change value) = data_type_changed h value

-- The links of the metrics and the boxes of the filters have `NaN` or a whole number below 2 ^ 53 in
-- size, which is not negative for a box, and the values of the buttons have no underscore.
abbrev pub IsValidEvent : Event → Type 0
IsValidEvent (metric_click index) = IsExact index
IsValidEvent (filter_check checked index d) = IsIndex index
IsValidEvent (data_type_change value) = Lacks b'_' value

abbrev pub PageIsSound : Page → Type 0
PageIsSound p = IsSound (p.query, p.data_type)

selection-IsIndex : (d : Dimension) (q : Query) → IsEncodable q → All IsIndex (selection d q)
selection-IsIndex churn q v = v.churn
selection-IsIndex workload q v = v.workload
selection-IsIndex peer_configuration q v = v.peer_configuration
selection-IsIndex experiment_duration q v = v.experiment_duration
selection-IsIndex training_duration q v = v.training_duration
selection-IsIndex clustering_algorithm q v = v.clustering_algorithm
selection-IsIndex feedback_enabled q v = v.feedback_enabled

with_selection-IsEncodable :
    (d : Dimension) (xs : List Number) (q : Query)
    → All IsIndex xs
    → IsEncodable q
    → IsEncodable (with_selection d xs q)
with_selection-IsEncodable churn xs q h v = record {
  metric = v.metric;
  churn = h;
  workload = v.workload;
  peer_configuration = v.peer_configuration;
  experiment_duration = v.experiment_duration;
  training_duration = v.training_duration;
  clustering_algorithm = v.clustering_algorithm;
  feedback_enabled = v.feedback_enabled;
}
with_selection-IsEncodable workload xs q h v = record {
  metric = v.metric;
  churn = v.churn;
  workload = h;
  peer_configuration = v.peer_configuration;
  experiment_duration = v.experiment_duration;
  training_duration = v.training_duration;
  clustering_algorithm = v.clustering_algorithm;
  feedback_enabled = v.feedback_enabled;
}
with_selection-IsEncodable peer_configuration xs q h v = record {
  metric = v.metric;
  churn = v.churn;
  workload = v.workload;
  peer_configuration = h;
  experiment_duration = v.experiment_duration;
  training_duration = v.training_duration;
  clustering_algorithm = v.clustering_algorithm;
  feedback_enabled = v.feedback_enabled;
}
with_selection-IsEncodable experiment_duration xs q h v = record {
  metric = v.metric;
  churn = v.churn;
  workload = v.workload;
  peer_configuration = v.peer_configuration;
  experiment_duration = h;
  training_duration = v.training_duration;
  clustering_algorithm = v.clustering_algorithm;
  feedback_enabled = v.feedback_enabled;
}
with_selection-IsEncodable training_duration xs q h v = record {
  metric = v.metric;
  churn = v.churn;
  workload = v.workload;
  peer_configuration = v.peer_configuration;
  experiment_duration = v.experiment_duration;
  training_duration = h;
  clustering_algorithm = v.clustering_algorithm;
  feedback_enabled = v.feedback_enabled;
}
with_selection-IsEncodable clustering_algorithm xs q h v = record {
  metric = v.metric;
  churn = v.churn;
  workload = v.workload;
  peer_configuration = v.peer_configuration;
  experiment_duration = v.experiment_duration;
  training_duration = v.training_duration;
  clustering_algorithm = h;
  feedback_enabled = v.feedback_enabled;
}
with_selection-IsEncodable feedback_enabled xs q h v = record {
  metric = v.metric;
  churn = v.churn;
  workload = v.workload;
  peer_configuration = v.peer_configuration;
  experiment_duration = v.experiment_duration;
  training_duration = v.training_duration;
  clustering_algorithm = v.clustering_algorithm;
  feedback_enabled = h;
}

filtered-IsIndex :
    (checked : Bool) (index : Number) (xs : List Number)
    → IsIndex index
    → All IsIndex xs
    → All IsIndex (
        if checked
        then (add_if_absent strict_eq index xs).0
        else (remove_if_exists strict_eq index xs).0)
filtered-IsIndex true index xs hi h = All-add_if_absent strict_eq IsIndex index xs hi h
filtered-IsIndex false index xs hi h = All-remove_if_exists strict_eq IsIndex index xs h

-- Soundness, and an address that holds the query and the kind of data.
abbrev Bookmarked : Page → Type 0
Bookmarked p = PageIsSound p × (address p.effects ≡ some (encode p.query p.data_type))

update-Bookmarked : (h : Host Scenario) (p : Page) → PageIsSound p → Bookmarked (update h p).0
update-Bookmarked h p s = let (q, t, a) = address-update h p in (rw (q, t) s, rw (q, t) a)

pub handle-Bookmarked :
    (h : Host Scenario) (e : Event) (p : Page)
    → IsValidEvent e
    → PageIsSound p
    → Bookmarked (handle h e p).0
unfolding metric_clicked filter_checked data_type_changed ◌>>=◌
handle-Bookmarked h (metric_click index) p v s = update-Bookmarked h _ (record {
  query = record {
    metric = v;
    churn = s.query.churn;
    workload = s.query.workload;
    peer_configuration = s.query.peer_configuration;
    experiment_duration = s.query.experiment_duration;
    training_duration = s.query.training_duration;
    clustering_algorithm = s.query.clustering_algorithm;
    feedback_enabled = s.query.feedback_enabled;
  };
  data_type = s.data_type;
})
handle-Bookmarked h (filter_check checked index d) p v s = update-Bookmarked h _ (record {
  query =
      with_selection-IsEncodable d _ p.query
        (filtered-IsIndex checked index (selection d p.query) v
          (selection-IsIndex d p.query s.query))
        s.query;
  data_type = s.data_type;
})
handle-Bookmarked h (data_type_change value) p v s =
    update-Bookmarked h _ (record { query = s.query; data_type = v })

-- The pages that valid events lead to, whether or not a handler throws on the way.
pub data Reach (h : Host Scenario) (p : Page) : Page → Type 0 where
  here : Reach h p p
  next :
      {q r : Page} → Reach h p q → (e : Event) → IsValidEvent e → r ≡ (handle h e q).0 → Reach h p r

Reach-IsSound : (h : Host Scenario) {p q : Page} → PageIsSound p → Reach h p q → PageIsSound q
Reach-IsSound h s here = s
Reach-IsSound h s (next {q} {r} before e v eq) =
    rw eq (handle-Bookmarked h e q v (Reach-IsSound h s before)).0

-- A first page has a metric that is `NaN` or a whole number below 2 ^ 53 in size, selections that
-- hold `NaN` and whole numbers from 0 to below 2 ^ 53 only, and a kind of data without an
-- underscore. Behind any sequence of valid events from there (clicks on metrics and boxes whose
-- indices have the same bounds, and buttons whose values have no underscore), one more valid event
-- leaves in the address a text from which the page's selections, metric and kind of data are read
-- again, whatever the reader held before and whether or not a handler throws.
pub decode-address :
    (h : Host Scenario) {p q : Page} (e : Event) (before : Query × Text)
    → PageIsSound p
    → Reach h p q
    → IsValidEvent e
    → decode (address (handle h e q).0.effects) before
      ≡ ((handle h e q).0.query, (handle h e q).0.data_type)
decode-address h {p} {q} e before s r v =
    let (sound, a) = handle-Bookmarked h e q v (Reach-IsSound h s r) in
    rw a (decode-encode _ _ before sound.query sound.data_type)
