-- ===== src/Page/Outcome/Current.antt =====
-- What a page shows after `update` of evaluation/src/site/resources/analysis/scripts/query.js, where
-- it returns.
use shabdiz.Prelude.{
  inr, In, append-In_left, append-In_right, map-In, ◌≡◌, refl, sym, ap, ◌∙◌, map, List, [], ◌∷◌,
  ◌++◌, Option, none, some, if◌then◌else◌, arith,
}
use shabdiz.Prelude.Result.{Result, ok, err, type_error}
use shabdiz.Text.{Text, codes, eq_text}
use shabdiz.Text.Number.{Number, show}
use shabdiz.Value.{Value, Host}
use shabdiz.Value.Extend.{IsDeepExtend}
use shabdiz.Query.Matches.{Scenario, at, matches, selection}
use shabdiz.Scope.{renderer, Rendering}
use shabdiz.Scope.Series.{text_value}
use shabdiz.Scope.Title.{renderer-main_title}
use shabdiz.Query.{
  churn, workload, peer_configuration, experiment_duration, training_duration, clustering_algorithm,
  feedback_enabled, Dimension, encode,
}
use shabdiz.Scope.Points.{Metric}
use shabdiz.Page.{
  add_class, bind_resize, emit, Effect, draw, set_text, check, prefix, Page, Done, update,
}
use shabdiz.Page.Updates.{address, address-append, address-update}
use shabdiz.Page.Outcome.{
  checks, announced, boxes, titled, hashed, drawn, found_all, chosen, update-chosen,
}

-- What the last effect of a kind has set.
abbrev pub last_set : {A : Type 0} → (Effect → Option A) → List Effect → Option A
last_set f [] = none
last_set f (e ∷ es) = elim (last_set f es) [ some a ↦ some a | none ↦ f e ]

last_set-append :
    {A : Type 0} (f : Effect → Option A) (es fs : List Effect)
    → last_set f (es ++ fs) ≡ (elim (last_set f fs) [ none ↦ last_set f es | some a ↦ some a ])
last_set-append f [] fs = ground arith
last_set-append f (e ∷ es) fs = ground (arith, last_set-append f es fs)

abbrev pub chart_of : Effect → Option Value
chart_of (draw v) = some v
chart_of _ = none

abbrev pub title_of : Effect → Option Value
title_of (set_text place v) = if eq_text place (codes "#main_title") then some v else none
title_of _ = none

abbrev pub active_of : Effect → Option Text
active_of (add_class place cls) = some place
active_of _ = none

-- The page shows the metric and the kind of data that are chosen, and the scenarios that match.
pub record IsCurrent (h : Host Scenario) (p : Page) : Type 0 where
  pub shown : Metric
  pub rendering : Rendering
  pub chosen : at p.metrics p.query.metric ≡ some shown
  pub stored : p.metric ≡ some shown
  pub matched : matches p.query p.scenarios ≡ ok p.matches
  pub rendered : renderer h shown p.matches p.data_type ≡ ok rendering
  pub titled : last_set title_of p.effects ≡ some (text_value shown.name)
  pub drawn : last_set chart_of p.effects ≡ some rendering.chart
  pub marked : last_set active_of p.effects ≡ some (codes "#metric_" ++ show p.query.metric)
  pub ticked :
      (k : Dimension) (s : Number)
      → In s (selection k p.query)
      → In (check (prefix k ++ show s)) p.effects
  pub addressed : address p.effects ≡ some (encode p.query p.data_type)

module _ {A : Type 0} (f : Effect → Option A) (skips : (t : Text) → f (check t) ≡ none) where
  last_set-map :
      (name : Number → Text) (ss : List Number) → last_set f (map (λ s. check (name s)) ss) ≡ none
  last_set-map name [] = refl
  last_set-map name (s ∷ ss) = rw (last_set-map name ss) (skips (name s))

  last_set-checks : (p : Page) (d : Dimension) → last_set f (checks p d) ≡ none
  last_set-checks p d = last_set-map (λ s. prefix d ++ show s) (selection d p.query)

  last_set-boxes : (p : Page) → last_set f (boxes p) ≡ none
  last_set-boxes p = simp (last_set-append f, last_set-checks p)

-- What is set behind what does not set it.
last_set-before :
    {A : Type 0} (f : Effect → Option A) (es fs : List Effect) {a : A}
    → last_set f fs ≡ some a
    → last_set f (es ++ fs) ≡ some a
last_set-before f es fs e = last_set-append f es fs ∙ rw e refl

title_of-announced :
    (p : Page) (m : Metric) → last_set title_of (announced p m) ≡ some (text_value m.name)
title_of-announced p m = rw (last_set, last_set-boxes title_of (λ t. refl) p) refl

active_of-announced :
    (p : Page) (m : Metric)
    → last_set active_of (announced p m) ≡ some (codes "#metric_" ++ show p.query.metric)
active_of-announced p m = rw (last_set, last_set-boxes active_of (λ t. refl) p) refl

-- The box of every selected index is among the boxes that are checked.
checks-In :
    (p : Page) (k : Dimension) (s : Number)
    → In s (selection k p.query)
    → In (check (prefix k ++ show s)) (checks p k)
checks-In p k s i = map-In (λ n. check (prefix k ++ show n)) s (selection k p.query) i

module _ (p : Page) (e : Effect) where
  here : (k : Dimension) (es : List Effect) → In e (checks p k) → In e (checks p k ++ es)
  here k es i = append-In_left e (checks p k) es i

  past : (k : Dimension) (es : List Effect) → In e es → In e (checks p k ++ es)
  past k es i = append-In_right e (checks p k) es i

  boxes-In : (k : Dimension) → In e (checks p k) → In e (boxes p)
  boxes-In churn i = here churn _ i
  boxes-In workload i = past churn _ (here workload _ i)
  boxes-In peer_configuration i = past churn _ (past workload _ (here peer_configuration _ i))
  boxes-In experiment_duration i =
      past churn _ (past workload _ (past peer_configuration _ (here experiment_duration _ i)))
  boxes-In training_duration i = past churn _ (
      past workload _
        (past peer_configuration _ (past experiment_duration _ (here training_duration _ i))))
  boxes-In clustering_algorithm i = past churn _ (
      past workload _ (
        past peer_configuration _
          (past experiment_duration _ (past training_duration _ (here clustering_algorithm _ i)))))
  boxes-In feedback_enabled i = past churn _ (
      past workload _ (
        past peer_configuration _
          (past experiment_duration _ (past training_duration _ (past clustering_algorithm _ i)))))

module _ (h : Host Scenario) (d : IsDeepExtend (h.deep_extend)) (p : Page) where
  drawn-IsCurrent :
      (m : Metric) (found : List Scenario) (r : Result Rendering) {u : Done}
      → at p.metrics p.query.metric ≡ some m
      → matches p.query p.scenarios ≡ ok found
      → renderer h m found p.data_type ≡ r
      → update h p ≡ drawn h (hashed p) m found r
      → (update h p).1 ≡ ok u
      → IsCurrent h (update h p).0
  drawn-IsCurrent m found (err e) {u} a b c same made =
      let no : err e ≡ ok u = ap (λ x. x.1) (sym same) ∙ made in cc
  drawn-IsCurrent m found (ok r) a b c same made =
      let no_title = renderer-main_title h d m found p.data_type c in
      let (q, kind, text) = address-update h p in
      rw same (record {
        shown = m;
        rendering = r;
        chosen = a;
        stored = refl;
        matched = b;
        rendered = c;
        titled =
            last_set-before title_of (hashed p).effects _
              (rw (no_title) (last_set-append title_of (announced p m) _ ∙ title_of-announced p m));
        drawn = last_set-before chart_of (hashed p).effects _ (
            last_set-before chart_of (announced p m) _
              (last_set-before chart_of (titled r.main_title) _ refl));
        marked =
            last_set-before active_of (hashed p).effects _
              (rw no_title (last_set-append active_of (announced p m) _ ∙ active_of-announced p m));
        ticked = λ k s i. append-In_right _ (hashed p).effects _ (
            append-In_left _ (announced p m) _
              (inr (inr (inr (boxes-In p _ k (checks-In p k s i))))));
        addressed = ap (λ x. address x.0.effects) (sym same) ∙ text;
      })

  found_all-IsCurrent :
      (m : Metric) (found : Result (List Scenario)) {u : Done}
      → at p.metrics p.query.metric ≡ some m
      → matches p.query p.scenarios ≡ found
      → update h p ≡ found_all h (hashed p) m found
      → (update h p).1 ≡ ok u
      → IsCurrent h (update h p).0
  found_all-IsCurrent m (err e) {u} a b same made =
      let no : err e ≡ ok u = ap (λ x. x.1) (sym same) ∙ made in cc
  found_all-IsCurrent m (ok found) a b same made = drawn-IsCurrent m found _ a b refl same made

  chosen-IsCurrent :
      (o : Option Metric) {u : Done}
      → at p.metrics p.query.metric ≡ o
      → update h p ≡ chosen h (hashed p) o
      → (update h p).1 ≡ ok u
      → IsCurrent h (update h p).0
  chosen-IsCurrent none {u} a same made =
      let no : err type_error ≡ ok u = ap (λ x. x.1) (sym same) ∙ made in cc
  chosen-IsCurrent (some m) a same made = found_all-IsCurrent m _ a refl same made

  pub update-IsCurrent : {u : Done} → (update h p).1 ≡ ok u → IsCurrent h (update h p).0
  update-IsCurrent = chosen-IsCurrent _ refl (update-chosen h p)

-- A page to which the handler of the window's `resize` is bound shows the same.
pub emit-IsCurrent :
    (h : Host Scenario) (p : Page) → IsCurrent h p → IsCurrent h (emit bind_resize p).0
emit-IsCurrent h p c = record {
  shown = c.shown;
  rendering = c.rendering;
  chosen = c.chosen;
  stored = c.stored;
  matched = c.matched;
  rendered = c.rendered;
  titled = last_set-append title_of p.effects (bind_resize ∷ []) ∙ c.titled;
  drawn = last_set-append chart_of p.effects (bind_resize ∷ []) ∙ c.drawn;
  marked = last_set-append active_of p.effects (bind_resize ∷ []) ∙ c.marked;
  ticked = λ k s i. append-In_left _ p.effects (bind_resize ∷ []) (c.ticked k s i);
  addressed = address-append p.effects (bind_resize ∷ []) ∙ c.addressed;
}
