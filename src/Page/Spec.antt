-- ===== src/Page/Spec.antt =====
-- What the page promises of its query: a metric, a kind of data, and for every property a set of
-- selected indices, which the user's events change. The arrays, their order and the document are
-- forgotten.
use shabdiz.Prelude.{
  ℕ, ◌≡◌, refl, ◌∙◌, ap, Bool, true, false, not, ◌||◌, ◌&&◌, ◌==◌, List, [], ◌∷◌, if◌then◌else◌,
  arith, Bool-cases, inl, inr,
}
use shabdiz.Text.{Text}
use shabdiz.Text.Number.{Number, strict_eq}
use shabdiz.Util.Arrays.{contains, Distinct}
use shabdiz.Value.{Host}
use shabdiz.Query.{
  Dimension, churn, workload, peer_configuration, experiment_duration, training_duration,
  clustering_algorithm, feedback_enabled, Query,
}
use shabdiz.Query.Matches.{Scenario, selection}
use shabdiz.Page.{Page, ◌>>=◌, metric_clicked, filter_checked, data_type_changed, with_selection}
use shabdiz.Page.Updates.{address-update}
use shabdiz.Page.Sound.{Event, metric_click, filter_check, data_type_change, handle}
use shabdiz.Page.Sound.Filters.{filter_checked-contains}

pub record View : Type 0 where
  pub metric : Number
  pub data_type : Text
  pub selected : Dimension → Number → Bool

pub View-ext :
    (v w : View)
    → v.metric ≡ w.metric
    → v.data_type ≡ w.data_type
    → ((d : Dimension) (n : Number) → v.selected d n ≡ w.selected d n)
    → v ≡ w
View-ext v w a b c = λ i. record { metric = a i; data_type = b i; selected = λ d n. c d n i }

-- The place of a property in the address.
abbrev place : Dimension → ℕ
place churn = 1
place workload = 2
place peer_configuration = 3
place experiment_duration = 4
place training_duration = 5
place clustering_algorithm = 6
place feedback_enabled = 7

-- A checked box adds its index to the set of its property, an unchecked one takes it out.
abbrev pub toggled : Bool → Number → (Number → Bool) → Number → Bool
toggled true index set n = set n || strict_eq index n
toggled false index set n = set n && not (strict_eq index n)

-- What an event is to do.
abbrev pub intended : Event → View → View
intended (metric_click index) v = record v { metric = index }
intended (filter_check checked index d) v = record v {
  selected = λ e. if place d == place e then toggled checked index (v.selected e) else v.selected e;
}
intended (data_type_change value) v = record v { data_type = value }

abbrev pub all_intended : List Event → View → View
all_intended [] v = v
all_intended (e ∷ es) v = all_intended es (intended e v)

-- What a page shows of its query.
abbrev pub view : Page → View
view p = record {
  metric = p.query.metric;
  data_type = p.data_type;
  selected = λ d n. contains strict_eq n (selection d p.query);
}

-- The handlers, one event after the other; one that throws leaves the page as it is then.
unfoldable pub run : Host Scenario → List Event → Page → Page
run h [] p = p
run h (e ∷ es) p = run h es (handle h e p).0

-- No property has an index twice.
pub record IsTidy (p : Page) : Type 0 where
  pub distinct : (d : Dimension) → Distinct strict_eq (selection d p.query)

-- A property that is set is set, and the others are left.
selection-with_selection_ne :
    (d e : Dimension) (xs : List Number) (q : Query)
    → selection e (with_selection d xs q) ≡ (if place d == place e then xs else selection e q)
selection-with_selection_ne d e xs q = ground arith

place_inj : (d e : Dimension) → (place d == place e) ≡ true → d ≡ e
place_inj d e same = ground arith

metric-with_selection :
    (d : Dimension) (xs : List Number) (q : Query) → (with_selection d xs q).metric ≡ q.metric
metric-with_selection d xs q = ground arith

selection_metric :
    (d : Dimension) (index : Number) (q : Query)
    → selection d (record q { metric = index }) ≡ selection d q
selection_metric d index q = ground arith

module _ (h : Host Scenario) where
  other_selections :
      (checked : Bool) (index : Number) (d e : Dimension) (p : Page)
      → (place d == place e) ≡ false
      → selection e (filter_checked h checked index d p).0.query ≡ selection e p.query
  unfolding filter_checked ◌>>=◌
  other_selections checked index d e p n =
      rw ((address-update h _).0, selection-with_selection_ne, n) refl

  same_selection :
      (checked : Bool) (index n : Number) (d : Dimension) (p : Page)
      → IsTidy p
      → (contains strict_eq n (selection d (filter_checked h checked index d p).0.query)
          ≡ toggled checked index (λ k. contains strict_eq k (selection d p.query)) n)
        × Distinct strict_eq (selection d (filter_checked h checked index d p).0.query)
  same_selection true index n d p t = filter_checked-contains h true index n d p (t.distinct d)
  same_selection false index n d p t = filter_checked-contains h false index n d p (t.distinct d)

  checked-selected :
      (checked : Bool) (index n : Number) (d e : Dimension) (p : Page)
      → IsTidy p
      → (contains strict_eq n (selection e (filter_checked h checked index d p).0.query)
          ≡ (intended (filter_check checked index d) (view p)).selected e n)
        × Distinct strict_eq (selection e (filter_checked h checked index d p).0.query)
  checked-selected checked index n d e p t = elim (Bool-cases (place d == place e)) [
    | inl same ↦ rw (same, ← place_inj d e same) (same_selection checked index n d p t)
    | inr other ↦ rw (other, other_selections checked index d e p other) (refl, t.distinct e)
  ]

  handle-intended :
      (e : Event) (p : Page)
      → IsTidy p
      → (view (handle h e p).0 ≡ intended e (view p)) × IsTidy (handle h e p).0
  unfolding metric_clicked data_type_changed filter_checked ◌>>=◌
  handle-intended (metric_click index) p t =
      let changed : Page = record p { query = record (p.query) { metric = index } } in
      let (q, kind, a) = address-update h changed in
      (
        View-ext _ _ (ap (λ r. r.metric) q) kind (λ d n.
            ap (contains strict_eq n) (ap (selection d) q ∙ selection_metric d index p.query)),
        record { distinct = λ d. rw (q, selection_metric) (t.distinct d) },
      )
  handle-intended (data_type_change value) p t =
      let (q, kind, a) = address-update h (record p { data_type = value }) in
      (rw (q, kind) refl, record { distinct = λ d. rw q (t.distinct d) })
  handle-intended (filter_check checked index d) p t =
      let (q, kind, a) = address-update h _ in
      (
        View-ext _ _ (ap (λ r. r.metric) q ∙ metric-with_selection d _ p.query) kind
            (λ e n. (checked-selected checked index n d e p t).0),
        record { distinct = λ e. (checked-selected checked index index d e p t).1 },
      )

  -- Whatever handlers throw: from a page that has no index twice, a sequence of events leads to the
  -- metric, the kind of data and the sets of selected indices that the events intend, and again to a
  -- page that has no index twice.
  pub run-intended :
      (es : List Event) (p : Page)
      → IsTidy p
      → (view (run h es p) ≡ all_intended es (view p)) × IsTidy (run h es p)
  unfolding run
  run-intended [] p t = (refl, t)
  run-intended (e ∷ es) p t =
      let (now, tidy) = handle-intended e p t in
      let (later, kept) = run-intended es (handle h e p).0 tidy in
      (later ∙ ap (all_intended es) now, kept)
