-- ===== src/Page/Outcome/Reopen.antt =====
-- Bookmarks: a page that is opened at the address that another one has left
-- (evaluation/src/site/resources/analysis/scripts/query.js and main.js) shows the same.
use shabdiz.Prelude.{◌≡◌, refl, ◌∙◌, ap, List, Option, none, some}
use shabdiz.Prelude.Result.{returns, Result, ok, err}
use shabdiz.Text.{Text, Lacks}
use shabdiz.Value.{Host}
use shabdiz.Value.Extend.{IsDeepExtend}
use shabdiz.Value.Sort.{IsSort}
use shabdiz.Query.{
  Dimension, encode, churn, workload, peer_configuration, experiment_duration, training_duration,
  clustering_algorithm, feedback_enabled,
}
use shabdiz.Query.Matches.{Scenario, labels}
use shabdiz.Query.RoundTrip.{IsEncodable, decode-encode}
use shabdiz.Scope.{Rendering}
use shabdiz.Scope.Points.{Metric}
use shabdiz.Page.{
  emit, bind_resize, show_filters, Page, Step, Done, ◌>>=◌, after_result, fill_filters, update,
  init, start,
}
use shabdiz.Page.Updates.{address-update}
use shabdiz.Page.Outcome.{hashed, drawn, found_all, chosen, update-chosen}
use shabdiz.Page.Outcome.Current.{
  IsCurrent, last_set, chart_of, title_of, update-IsCurrent, emit-IsCurrent,
}
use shabdiz.Page.Outcome.Start.{opened_at, start-is_error}
use shabdiz.Page.Outcome.Alike.{IsAlike, lacks_update-IsAlike, same_shown, IsCurrent-lacks_update}

module _ (h : Host Scenario) where
  -- A page is opened at the address of another one.
  abbrev pub reopened : Page → Page → Page × Result Done
  reopened p = start h (encode p.query p.data_type)

  -- The tables are never changed.
  abbrev pub KeepsTables : {A : Type 0} → Page → Page × Result A → Type 0
  KeepsTables p r = (r.0.metrics ≡ p.metrics) × (r.0.scenarios ≡ p.scenarios)

  drawn-tables :
      (p : Page) (m : Metric) (found : List Scenario) (r : Result Rendering)
      → KeepsTables p (drawn h p m found r)
  drawn-tables p m found (ok r) = (refl, refl)
  drawn-tables p m found (err e) = (refl, refl)

  found_all-tables :
      (p : Page) (m : Metric) (found : Result (List Scenario))
      → KeepsTables p (found_all h p m found)
  found_all-tables p m (ok found) = drawn-tables p m found _
  found_all-tables p m (err e) = (refl, refl)

  chosen-tables : (p : Page) (o : Option Metric) → KeepsTables p (chosen h p o)
  chosen-tables p none = (refl, refl)
  chosen-tables p (some m) = found_all-tables p m _

  pub update-tables : (p : Page) → KeepsTables p (update h p)
  update-tables p = rw (update-chosen h p) (chosen-tables (hashed p) _)

  module _ (d : IsDeepExtend (h.deep_extend)) (sorts : IsSort (h.sort)) where
    -- A step that returns leaves a current page like another one.
    record IsOpening (target : Page) (k : Step Done) : Type 0 where
      ends :
          (p : Page)
          → p.metrics ≡ target.metrics
          → p.scenarios ≡ target.scenarios
          → {u : Done} → (k p).1 ≡ ok u
          → IsCurrent h (k p).0 × IsAlike (k p).0 target

    after_result-IsOpening :
        {A : Type 0} (target p : Page) (r : Result A) (f : A → Step Done)
        → ((a : A) → IsOpening target (f a))
        → p.metrics ≡ target.metrics
        → p.scenarios ≡ target.scenarios
        → {u : Done} → (after_result f p r).1 ≡ ok u
        → IsCurrent h (after_result f p r).0 × IsAlike (after_result f p r).0 target
    after_result-IsOpening target p (ok a) f opens m s made = (opens a).ends p m s made
    after_result-IsOpening target p (err e) f opens m s made = cc

    IsOpening-after :
        {A : Type 0} (target : Page) (m : Step A) {f : A → Step Done}
        → ((p : Page) → KeepsTables p (m p))
        → ((a : A) → IsOpening target (f a))
        → IsOpening target (m >>= f)
    unfolding ◌>>=◌
    IsOpening-after target m {f} keeps opens = record {
      ends = λ p a b {u} made.
          let (c, k) = keeps p in
          after_result-IsOpening target (m p).0 (m p).1 f opens (c ∙ a) (k ∙ b) made;
    }

    filled :
        (k : Dimension) (p : Page) (r : Result (List Text))
        → KeepsTables p (after_result (λ keys. emit (show_filters k keys)) p r)
    filled k p (ok keys) = (refl, refl)
    filled k p (err e) = (refl, refl)

    fill_filters-tables : (k : Dimension) (p : Page) → KeepsTables p (fill_filters h k p)
    unfolding ◌>>=◌
    fill_filters-tables k p = filled k p (labels k p.scenarios)

    module _ (target : Page) (v : IsEncodable target.query) (l : Lacks b'_' target.data_type) where
      init-IsOpening : IsOpening target (init h (encode target.query target.data_type))
      unfolding init ◌>>=◌
      init-IsOpening = record {
        ends = λ p a b {u} made.
            let e = decode-encode target.query target.data_type (p.query, p.data_type) v l in
            let (q, k, t) = address-update h _ in
            let (m, s) = update-tables _ in
            (
              update-IsCurrent h d _ made,
              record {
                same_query = q ∙ ap (λ st. st.0) e;
                same_data_type = k ∙ ap (λ st. st.1) e;
                same_metrics = m ∙ a;
                same_scenarios = s ∙ b;
              },
            );
      }

      -- Binding the handler of the window's `resize` changes nothing of this.
      bound-IsOpening :
          {m : Step Done} → IsOpening target m → IsOpening target (m >>= λ u. emit bind_resize)
      unfolding ◌>>=◌
      bound-IsOpening {m} opens = record {
        ends = λ p a b. by_result (m p).0 (m p).1 (λ u. opens.ends p a b);
      }
        where
          by_result :
              (q : Page) (r : Result Done) {u : Done}
              → ((v : Done) → r ≡ ok v → IsCurrent h q × IsAlike q target)
              → (after_result (λ v. emit bind_resize) q r).1 ≡ ok u
              → IsCurrent h (after_result (λ v. emit bind_resize) q r).0
                × IsAlike (after_result (λ v. emit bind_resize) q r).0 target
          by_result q (ok u) opened made =
              let (current, like) = opened u refl in
              (
                emit-IsCurrent h q current,
                record {
                  same_query = like.same_query;
                  same_data_type = like.same_data_type;
                  same_metrics = like.same_metrics;
                  same_scenarios = like.same_scenarios;
                },
              )
          by_result q (err e) opened made = cc

      fill :
          (k : Dimension) {next : Step Done}
          → IsOpening target next
          → IsOpening target (fill_filters h k >>= λ u. next)
      fill k opens = IsOpening-after target (fill_filters h k) (fill_filters-tables k) (λ u. opens)

      start-IsOpening : IsOpening target (start h (encode target.query target.data_type))
      unfolding start
      start-IsOpening =
          IsOpening-after target _ (λ p. (refl, refl))
            (λ u. fill churn (
              fill workload (
                fill peer_configuration (
                  fill experiment_duration (
                    fill training_duration (
                      fill clustering_algorithm
                        (fill feedback_enabled (bound-IsOpening init-IsOpening))))))))

    pub start-encode :
        (p q : Page)
        → IsCurrent h p
        → IsEncodable p.query
        → Lacks b'_' p.data_type
        → q.metrics ≡ p.metrics
        → q.scenarios ≡ p.scenarios
        → ((reopened p q).1 ≡ ok tt)
          × ((reopened p q).0.matches ≡ p.matches)
          × (last_set chart_of (reopened p q).0.effects ≡ last_set chart_of p.effects)
          × (last_set title_of (reopened p q).0.effects ≡ last_set title_of p.effects)
    start-encode p q c v l m s =
        let hash = encode p.query p.data_type in
        let e = decode-encode p.query p.data_type (q.query, q.data_type) v l in
        let alike : IsAlike (opened_at hash q) p = record {
          same_query = ap (λ st. st.0) e;
          same_data_type = ap (λ st. st.1) e;
          same_metrics = m;
          same_scenarios = s;
        } in
        let (u, made) = returns (
          start-is_error h d sorts hash q
          ∙ lacks_update-IsAlike h (opened_at hash q) p alike
          ∙ IsCurrent-lacks_update h d sorts p c) in
        let (current, like) = (start-IsOpening p v l).ends q m s made in
        let (found, chart, title) = same_shown h _ p like current c in (made, found, chart, title)
