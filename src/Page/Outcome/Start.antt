-- ===== src/Page/Outcome/Start.antt =====
-- Where the start in evaluation/src/site/resources/analysis/scripts/main.js throws.
use shabdiz.Prelude.{
  ◌≡◌, refl, ◌∙◌, Bool, true, List, Option-cases, some, Bool-cases, inl, inr, arith,
}
use shabdiz.Prelude.Result.{Result, ok, err, is_error}
use shabdiz.Text.{Text}
use shabdiz.Value.{Host}
use shabdiz.Value.Extend.{IsDeepExtend}
use shabdiz.Value.Sort.{IsSort}
use shabdiz.Query.{
  Dimension, churn, workload, peer_configuration, experiment_duration, training_duration,
  clustering_algorithm, feedback_enabled, Query, decode,
}
use shabdiz.Query.Matches.{Scenario, at}
use shabdiz.Query.Matches.Reference.{fails, is_blocked, labels_lem}
use shabdiz.Page.{
  Effect, bind_resize, emit, after_result, Page, Step, Done, ◌>>=◌, fill_filters, init, start,
}
use shabdiz.Page.Outcome.Throws.{lacks_update, update-is_error}

-- The page that holds what the address says.
abbrev pub opened_at : Text → Page → Page
opened_at hash p = record p {
  query = (decode (some hash) (p.query, p.data_type)).0;
  data_type = (decode (some hash) (p.query, p.data_type)).1;
}

abbrev with_effects : Page → List Effect → Page
with_effects p es = record p { effects = es }

module _ (h : Host Scenario) (p : Page) (b : Bool) where
  -- A step throws, or not, whatever was done before.
  record Throws (k : Step Done) : Type 0 where
    always : (es : List Effect) → is_error (k (with_effects p es)).1 ≡ b

  fill_filters-Throws :
      (d : Dimension) (k : Step Done)
      → (is_blocked d p.scenarios ≡ true → b ≡ true)
      → Throws k
      → Throws (fill_filters h d >>= λ u. k)
  unfolding ◌>>=◌
  fill_filters-Throws d k blocked t = record {
    always = λ es. elim (Bool-cases (is_blocked d p.scenarios)) [
      | inl e ↦ rw (labels_lem d p.scenarios, e) (rw (blocked e) refl)
      | inr e ↦ rw (labels_lem d p.scenarios, e) (t.always _)
    ];
  }

is_error-emit :
    (e : Effect) (p : Page) (r : Result Done)
    → is_error (after_result (λ u. emit e) p r).1 ≡ is_error r
is_error-emit e p (ok u) = refl
is_error-emit e p (err x) = refl

fails_blocked :
    (d : Dimension) (q : Query) (scenarios : List Scenario)
    → is_blocked d scenarios ≡ true
    → fails q scenarios ≡ true
fails_blocked d q scenarios e = ground arith

module _ (h : Host Scenario) where
  lacks_update_blocked :
      (d : Dimension) (p : Page) → is_blocked d p.scenarios ≡ true → lacks_update h p ≡ true
  lacks_update_blocked d p e = elim (Option-cases (at p.metrics p.query.metric)) [
    | inl a ↦ rw (lacks_update, a) refl
    | inr (m, a) ↦ rw (lacks_update, a, fails_blocked d p.query p.scenarios e) refl
  ]

  module _ (d : IsDeepExtend (h.deep_extend)) (sorts : IsSort (h.sort)) where
    init-Throws :
        (hash : Text) (p : Page) → Throws h p (lacks_update h (opened_at hash p)) (init h hash)
    unfolding init ◌>>=◌
    init-Throws hash p = record { always = λ es. update-is_error h d sorts _ }

    bound-Throws :
        (hash : Text) (p : Page)
        → Throws h p (lacks_update h (opened_at hash p)) (init h hash >>= λ u. emit bind_resize)
    unfolding ◌>>=◌
    bound-Throws hash p = record {
      always = λ es.
          is_error-emit bind_resize _ (init h hash (with_effects p es)).1
          ∙ (init-Throws hash p).always es;
    }

    module _ (hash : Text) (p : Page) where
      abbrev IsOpening : Step Done → Type 0
      IsOpening = Throws h p (lacks_update h (opened_at hash p))

      fills :
          (k : Dimension) (next : Step Done)
          → IsOpening next
          → IsOpening (fill_filters h k >>= λ u. next)
      fills k next = fill_filters-Throws h p _ k next (lacks_update_blocked k (opened_at hash p))

      pub start-is_error : is_error (start h hash p).1 ≡ lacks_update h (opened_at hash p)
      unfolding start ◌>>=◌
      start-is_error =
          (fills churn _ (
              fills workload _ (
                fills peer_configuration _ (
                  fills experiment_duration _ (
                    fills training_duration _ (
                      fills clustering_algorithm _
                        (fills feedback_enabled _ (bound-Throws hash p)))))))).always
            _
