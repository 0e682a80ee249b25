-- ===== src/Scope/Returns/Loops.antt =====
-- Where the loops of evaluation/src/site/resources/analysis/scripts/scope.js throw: over the rows,
-- the scenarios and the groups.
use mathlib.Core.List.{Perm}
use mathlib.Core.List.Perm
use shabdiz.Prelude.{
  ℕ, zero, suc, ◌+◌, ◌≡◌, refl, sym, ◌∙◌, Bool, true, false, ◌||◌, List, [], ◌∷◌, Option, none,
  some, any, arith,
}
use shabdiz.Prelude.Perms.{any-perm, any-flat_map}
use shabdiz.Prelude.Result.{returns, Result, is_error, is_error-after, is_error-bind}
use shabdiz.Text.{Text, codes}
use shabdiz.Util.Groups.{Groups, group_by, object_keys, property_key, is_inherited}
use shabdiz.Util.Groups.Laws.{group_by_throws}
use shabdiz.Util.Groups.Members.{group_by-perm, members_of}
use shabdiz.Value.{Value, undefined, Fields, Host}
use shabdiz.Value.Extend.{IsDeepExtend}
use shabdiz.Value.Sort.{IsSort}
use shabdiz.Query.Matches.{Scenario}
use shabdiz.Scope.Points.{Metric, converted, mean_point, interval_point, summary}
use shabdiz.Scope.Series.{
  Pass, traverse, rows, sorted, over_time_pair, over_time, group_pair, group_pairs, grouped,
}
use shabdiz.Scope.Returns.Tables.{IsConverting, converted-returns}

pub is_error-traverse :
    {A B : Type 0} (f : A → Result B) (fails : A → Bool)
    → ((x : A) → is_error (f x) ≡ fails x)
    → (xs : List A) → is_error (traverse f xs) ≡ any fails xs
is_error-traverse f fails each [] = refl
is_error-traverse f fails each (x ∷ xs) =
    is_error-bind (f x) _ (λ y e. is_error-bind (traverse f xs) _ (λ ys h. refl))
    ∙ rw (each x, is_error-traverse f fails each xs) (ground arith)

any-never : {A : Type 0} (xs : List A) → any (λ x. false) xs ≡ false
any-never [] = refl
any-never (x ∷ xs) = any-never xs

-- A loop that never throws.
is_error-traverse-never :
    {A B : Type 0} (f : A → Result B)
    → ((x : A) → is_error (f x) ≡ false)
    → (xs : List A) → is_error (traverse f xs) ≡ false
is_error-traverse-never f each xs = is_error-traverse f (λ x. false) each xs ∙ any-never xs

-- No first row in a file, or no churn to name its point.
abbrev pub lacks_point : List Fields → Option Text → Bool
lacks_point [] churn = true
lacks_point (row ∷ rows) none = true
lacks_point (row ∷ rows) (some t) = false

-- A scenario has no point in a chart over groups.
abbrev pub lacks : Host Scenario → Metric → Text → Scenario → Bool
lacks h metric suffix match = lacks_point (rows h undefined metric match suffix) match.churn

-- Sorting any number of times rearranges.
pub sorted-perm :
    (h : Host Scenario) (themm : Value) (metric : Metric)
    → IsSort (h.sort)
    → (n : ℕ) (xs : List Scenario) → Perm (sorted h themm metric n xs) xs
sorted-perm h themm metric sorts zero xs = Perm.refl xs
sorted-perm h themm metric sorts (suc n) xs =
    Perm.trans (sorts.perm _ _) (sorted-perm h themm metric sorts n xs)

module _ (h : Host Scenario) (themm : Value) (table : IsConverting themm)
    (d : IsDeepExtend (h.deep_extend)) where
  converted-is_error : (v : Value) → is_error (converted h themm v) ≡ false
  converted-is_error v = let (w, e) = converted-returns h d themm v table in rw e refl

  mean_point-is_error :
      (metric : Metric) (row : Fields) → is_error (mean_point h themm metric row) ≡ false
  unfolding mean_point
  mean_point-is_error metric row = is_error-after _ _ (converted-is_error _) (λ y. refl)

  interval_point-is_error :
      (metric : Metric) (row : Fields) → is_error (interval_point h themm metric row) ≡ false
  unfolding interval_point
  interval_point-is_error metric row =
      is_error-after _ _ (converted-is_error _)
        (λ lower. is_error-after _ _ (converted-is_error _) (λ upper. refl))

  summary-is_error :
      (churn : Option Text) (found : List Fields)
      → is_error (summary h themm churn found) ≡ lacks_point found churn
  unfolding summary
  summary-is_error churn [] = refl
  summary-is_error none (row ∷ rest) = is_error-after _ _ (converted-is_error _) (λ y.
      is_error-after _ _ (converted-is_error _)
        (λ lower. is_error-after _ _ (converted-is_error _) (λ upper. refl)))
  summary-is_error (some t) (row ∷ rest) = is_error-after _ _ (converted-is_error _) (λ y.
      is_error-after _ _ (converted-is_error _)
        (λ lower. is_error-after _ _ (converted-is_error _) (λ upper. refl)))

  over_time_pair-is_error :
      (metric : Metric) (i : ℕ) (match : Scenario)
      → is_error (over_time_pair h themm metric i match) ≡ false
  unfolding over_time_pair
  over_time_pair-is_error metric i match =
      let found = rows h themm metric match (codes "_over_time.csv") in
      let (means, m) = returns (is_error-traverse-never _ (mean_point-is_error metric) found) in
      let (ranges, r) =
        returns (is_error-traverse-never _ (interval_point-is_error metric) found) in
      rw (m, r) refl

  pub over_time-is_error :
      (metric : Metric) (i : ℕ) (found : List Scenario)
      → is_error (over_time h themm metric i found) ≡ false
  unfolding over_time
  over_time-is_error metric i [] = refl
  over_time-is_error metric i (match ∷ rest) =
      is_error-after (over_time_pair h themm metric i match) _
        (over_time_pair-is_error metric i match)
        (λ pair. is_error-after _ _ (over_time-is_error metric (i + 1) rest) (λ pairs. refl))

  module _ (sorts : IsSort (h.sort)) (metric : Metric) (pass : Pass) where
    group_pair-is_error :
        (i : ℕ) (key : Text) (found : List Scenario)
        → is_error (group_pair h themm metric pass i key found)
          ≡ any (lacks h metric pass.suffix) found
    unfolding group_pair
    group_pair-is_error i key found =
        is_error-bind
          (traverse (λ match. summary h themm match.churn (rows h themm metric match pass.suffix))
            (sorted h themm metric pass.sorts found))
          _ (λ points e. refl)
        ∙ rw
            (
              is_error-traverse _ (lacks h metric pass.suffix)
                  (λ match. summary-is_error match.churn _)
                  (sorted h themm metric pass.sorts found),
              any-perm (lacks h metric pass.suffix)
                  (sorted-perm h themm metric sorts pass.sorts found),
            )
            (ground arith)

    group_pairs-is_error :
        (i : ℕ) (groups : Groups Scenario) (keys : List Text)
        → is_error (group_pairs h themm metric pass i groups keys)
          ≡ any (λ key. any (lacks h metric pass.suffix) (members_of groups key)) keys
    unfolding group_pairs
    group_pairs-is_error i groups [] = refl
    group_pairs-is_error i groups (key ∷ keys) =
        is_error-bind (group_pair h themm metric pass i key (members_of groups key)) _ (λ pair e.
          is_error-bind (group_pairs h themm metric pass (i + 1) groups keys) _ (λ pairs k. refl))
        ∙ rw
            (
              group_pair-is_error i key (members_of groups key),
              group_pairs-is_error (i + 1) groups keys,
            )
            (ground arith)

    -- A loop over the groups throws where a peer configuration is a name that objects inherit, and
    -- where a scenario has no point.
    pub grouped-is_error :
        (found : List Scenario)
        → is_error (grouped h themm metric pass found) ≡ (
            any (λ match. is_inherited (property_key match.peer_configuration)) found
            || any (lacks h metric pass.suffix) found)
    unfolding grouped
    grouped-is_error found =
        is_error-bind (group_by (λ match. match.peer_configuration) none found) _ (λ groups e.
          group_pairs-is_error 0 groups (object_keys groups)
          ∙ sym (any-flat_map (lacks h metric pass.suffix) (members_of groups) (object_keys groups))
          ∙ any-perm (lacks h metric pass.suffix)
              (group_by-perm (λ match. match.peer_configuration) none found e))
        ∙ rw (group_by_throws (λ match. match.peer_configuration) none found) refl
