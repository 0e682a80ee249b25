-- ===== src/Page/Updates.antt =====
-- What `update` keeps of the page, and what it leaves in the address.
use shabdiz.Prelude.{◌≡◌, refl, ◌∙◌, List, [], ◌∷◌, ◌++◌, Option, none, some, map, arith}
use shabdiz.Prelude.Result.{Result, ok, err}
use shabdiz.Text.{Text, codes}
use shabdiz.Text.Number.{Number, show}
use shabdiz.Value.{Value, Host}
use shabdiz.Scope.Points.{Metric}
use shabdiz.Query.{
  Dimension, churn, workload, peer_configuration, experiment_duration, training_duration,
  clustering_algorithm, feedback_enabled, encode,
}
use shabdiz.Query.Matches.{Scenario, selection}
use shabdiz.Page.{
  Effect, set_hash, check, Page, Step, ◌>>=◌, after_result, emit, check_boxes, add_class, set_text,
  update, refresh, draw, prefix, render, show_title,
}

-- The text that the address holds after some effects.
abbrev pub address : List Effect → Option Text
address [] = none
address (e ∷ es) = elim (address es) [
  | some t ↦ some t
  | none ↦ elim e [ set_hash t ↦ some t | _ ↦ none ]
]

pub address-append :
    (es fs : List Effect)
    → address (es ++ fs) ≡ (elim (address fs) [ none ↦ address es | some t ↦ some t ])
address-append [] fs = ground arith
address-append (e ∷ es) fs = ground (arith, address-append es fs)

-- A step that leaves the query, the data type and the address.
record IsQuiet {A : Type 0} (m : Step A) : Type 0 where
  keeps :
      (p : Page)
      → ((m p).0.query ≡ p.query)
        × ((m p).0.data_type ≡ p.data_type)
        × (address (m p).0.effects ≡ address p.effects)

after_result-quiet :
    {A B : Type 0} (f : A → Step B) (p : Page) (r : Result A)
    → ((a : A) → IsQuiet (f a))
    → ((after_result f p r).0.query ≡ p.query)
      × ((after_result f p r).0.data_type ≡ p.data_type)
      × (address (after_result f p r).0.effects ≡ address p.effects)
after_result-quiet f p (ok a) hf = (hf a).keeps p
after_result-quiet f p (err e) hf = (refl, refl, refl)

then :
    {A B : Type 0} {m : Step A} {f : A → Step B}
    → IsQuiet m
    → ((a : A) → IsQuiet (f a))
    → IsQuiet (m >>= f)
unfolding ◌>>=◌
then {A} {B} {m} {f} hm hf = record {
  keeps = λ p.
      let (a, b, c) = after_result-quiet f (m p).0 (m p).1 hf in
      let (x, y, z) = hm.keeps p in (a ∙ x, b ∙ y, c ∙ z);
}

address-checks : (f : Number → Text) (xs : List Number) → address (map (λ s. check (f s)) xs) ≡ none
address-checks f [] = refl
address-checks f (x ∷ xs) = rw (address-checks f xs)

check_boxes-quiet : (d : Dimension) → IsQuiet (check_boxes d)
check_boxes-quiet d = record {
  keeps = λ p. (
    refl,
    refl,
    address-append p.effects (map (λ s. check (prefix d ++ show s)) (selection d p.query))
        ∙ rw (address-checks (λ s. prefix d ++ show s) (selection d p.query)) refl,
  );
}

emit-quiet : (e : Effect) → address (e ∷ []) ≡ none → IsQuiet (emit e)
emit-quiet e h = record { keeps = λ p. (refl, refl, address-append p.effects (e ∷ []) ∙ rw h refl) }

show_title-quiet : (t : Option Value) → IsQuiet (show_title t)
show_title-quiet none = record { keeps = λ p. (refl, refl, refl) }
show_title-quiet (some t) = emit-quiet (set_text (codes "#main_title") t) refl

module _ (h : Host Scenario) where
  render-quiet : (m : Metric) (found : List Scenario) → IsQuiet (render h m found)
  unfolding render
  render-quiet m found =
      then (record { keeps = λ p. (refl, refl, refl) })
        (λ r. then (show_title-quiet r.main_title) (λ u. emit-quiet (draw r.chart) refl))

  refresh-quiet : IsQuiet (refresh h)
  unfolding refresh
  refresh-quiet =
      then (record { keeps = λ p. (refl, refl, refl) })
        (λ m. then (emit-quiet _ refl) (λ a. then (emit-quiet _ refl) (λ b.
          then
            (record {
              keeps = λ p.
                  (emit-quiet (add_class (codes "#metric_" ++ show p.query.metric) (codes "active"))
                      refl).keeps
                    p;
            })
            (λ c. then (check_boxes-quiet churn) (λ d. then (check_boxes-quiet workload) (λ e.
              then (check_boxes-quiet peer_configuration) (λ f.
                then (check_boxes-quiet experiment_duration) (λ g.
                  then (check_boxes-quiet training_duration) (λ i.
                    then (check_boxes-quiet clustering_algorithm) (λ j.
                      then (check_boxes-quiet feedback_enabled) (λ k.
                        then (record { keeps = λ p. (refl, refl, refl) })
                          (λ found.
                            then (record { keeps = λ p. (refl, refl, refl) })
                              (λ l.
                                then (render-quiet m found) (λ n. emit-quiet _ refl))))))))))))))

  -- Whether it returns or throws, `update` keeps the query and the kind of data, and leaves their
  -- encoding in the address.
  pub address-update :
      (p : Page)
      → ((update h p).0.query ≡ p.query)
        × ((update h p).0.data_type ≡ p.data_type)
        × (address (update h p).0.effects ≡ some (encode p.query p.data_type))
  unfolding update ◌>>=◌
  address-update p =
      let hashed : Page = (emit (set_hash (encode p.query p.data_type)) p).0 in
      let (a, b, c) = refresh-quiet.keeps hashed in
      (a, b, c ∙ address-append p.effects (set_hash (encode p.query p.data_type) ∷ []))
