-- ===== src/Scope/Series/Ordered.antt =====
-- The order of the points of a chart over groups of
-- evaluation/src/site/resources/analysis/scripts/scope.js: what `sortBy('churn')` is called for.
use mathlib.Core.List.{Perm, flat_map}
use shabdiz.Prelude.{
  ℕ, suc, ◌+◌, ◌≡◌, sym, ◌∙◌, Bool, true, ◌&&◌, arith, List, [], ◌∷◌, Option, none, map, all,
}
use shabdiz.Prelude.Perms.{all-perm, all-append, All-all}
use shabdiz.Prelude.Result.{ok, ok-inj, ok_parts}
use shabdiz.Text.{Text}
use shabdiz.Util.Alphanum.{compare_by}
use shabdiz.Util.Alphanum.Total.{is_ranked, IsRanked, compare_by-IsConsistent}
use shabdiz.Util.Groups.{Groups, group_by, object_keys}
use shabdiz.Util.Groups.Members.{group_by-perm, members_of}
use shabdiz.Value.{Value, Fields, Host}
use shabdiz.Value.Sort.{IsSort, IsOrderedSort, Ascending}
use shabdiz.Query.Matches.{Scenario}
use shabdiz.Scope.Points.{Metric}
use shabdiz.Scope.Series.{Pass, traverse, sorted, firsts, seconds, group_pair, group_pairs, grouped}
use shabdiz.Scope.Series.Linked.{data_of, list_of-items}
use shabdiz.Scope.Series.Complete.{summary_of, firsts_lem, seconds_lem}
use shabdiz.Scope.Returns.Loops.{sorted-perm}

and_parts : {x y : Bool} → (x && y) ≡ true → (x ≡ true) × (y ≡ true)
and_parts e = (ground arith, ground arith)

abbrev pub churn_of : Scenario → Option Text
churn_of match = match.churn

module _ (h : Host Scenario) (themm : Value) (metric : Metric) (pass : Pass) where
  -- The points of a line, and their intervals, are those of the members of a group in an order that
  -- ascends by the churn.
  pub record IsAscendingPair (found : List Scenario) (pair : Fields × Fields) : Type 0 where
    pub order : List Scenario
    pub perm : Perm order found
    pub ascending : Ascending (compare_by churn_of) order
    pub made : List (Value × Value)
    pub summed : traverse (summary_of h themm metric pass) order ≡ ok made
    pub points : data_of pair.0 ≡ map (λ y. y.0) made
    pub intervals : data_of pair.1 ≡ map (λ y. y.1) made

  -- One such pair for each key, in their order.
  abbrev pub AscendingPairs : Groups Scenario → List Text → List (Fields × Fields) → Type 0
  AscendingPairs groups [] [] = Unit
  AscendingPairs groups [] (pair ∷ pairs) = ⊥
  AscendingPairs groups (key ∷ keys) [] = ⊥
  AscendingPairs groups (key ∷ keys) (pair ∷ pairs) =
      IsAscendingPair (members_of groups key) pair × AscendingPairs groups keys pairs

  module _ (sorts : IsSort (h.sort)) (orders : IsOrderedSort (h.sort)) where
    sorted-Ascending :
        (n : ℕ) (found : List Scenario)
        → all (is_ranked churn_of) found ≡ true
        → Ascending (compare_by churn_of) (sorted h themm metric (suc n) found)
    sorted-Ascending n found ranked =
        orders.ascending (compare_by churn_of) (IsRanked churn_of) (sorted h themm metric n found)
          (compare_by-IsConsistent churn_of)
          (All-all (is_ranked churn_of) _
            (all-perm (is_ranked churn_of) (sorted-perm h themm metric sorts n found) ∙ ranked))

    group_pair-IsAscendingPair :
        (n i : ℕ) (key : Text) (found : List Scenario) {pair : Fields × Fields}
        → pass.sorts ≡ suc n
        → all (is_ranked churn_of) found ≡ true
        → group_pair h themm metric pass i key found ≡ ok pair
        → IsAscendingPair found pair
    unfolding group_pair
    group_pair-IsAscendingPair n i key found often ranked e =
        let order = sorted h themm metric pass.sorts found in
        let (made, a, b) = ok_parts (traverse (summary_of h themm metric pass) order) _ e in
        rw (← ok-inj b) (record {
          order = order;
          perm = sorted-perm h themm metric sorts pass.sorts found;
          ascending = rw often (sorted-Ascending n found ranked);
          made = made;
          summed = a;
          points = list_of-items (firsts made) ∙ firsts_lem made;
          intervals = list_of-items (seconds made) ∙ seconds_lem made;
        })

    group_pairs-AscendingPairs :
        (n i : ℕ) (groups : Groups Scenario) (keys : List Text) {pairs : List (Fields × Fields)}
        → pass.sorts ≡ suc n
        → all (is_ranked churn_of) (flat_map (members_of groups) keys) ≡ true
        → group_pairs h themm metric pass i groups keys ≡ ok pairs
        → AscendingPairs groups keys pairs
    unfolding group_pairs flat_map
    group_pairs-AscendingPairs n i groups [] often ranked e = rw (← ok-inj e) tt
    group_pairs-AscendingPairs n i groups (key ∷ keys) often ranked e =
        let here = members_of groups key in
        let both =
          sym (all-append (is_ranked churn_of) here (flat_map (members_of groups) keys)) ∙ ranked in
        let (pair, a, b) = ok_parts (group_pair h themm metric pass i key here) _ e in
        let (more, c, k) = ok_parts (group_pairs h themm metric pass (i + 1) groups keys) _ b in
        rw (← ok-inj k) (
          group_pair-IsAscendingPair n i key here often (and_parts both).0 a,
          group_pairs-AscendingPairs n (i + 1) groups keys often (and_parts both).1 c,
        )

    -- With a sort that rearranges and that orders by a consistent comparator: where the loop over
    -- the groups sorts at least once and returns, and no churn of a matching scenario is `Light`
    -- or, with the digit of its rank in front, has a numeric chunk that is not a whole number
    -- below 2 ^ 53 without leading zeros or another chunk that `Number` reads as a number, the
    -- points of each group and their intervals are those of its members in an order that ascends
    -- by the churn, the groups in the order of `Object.keys`.
    pub grouped-AscendingPairs :
        (n : ℕ) (found : List Scenario) {pairs : List (Fields × Fields)}
        → pass.sorts ≡ suc n
        → all (is_ranked churn_of) found ≡ true
        → grouped h themm metric pass found ≡ ok pairs
        → (groups : Groups Scenario) × (group_by (λ match. match.peer_configuration) none found
            ≡ ok groups)
          × AscendingPairs groups (object_keys groups) pairs
    unfolding grouped
    grouped-AscendingPairs n found often ranked e =
        let (groups, a, b) =
          ok_parts (group_by (λ match. match.peer_configuration) none found) _ e in
        let kept = group_by-perm (λ match. match.peer_configuration) none found a in
        (
          groups,
          a,
          group_pairs-AscendingPairs n 0 groups (object_keys groups) often
              (all-perm (is_ranked churn_of) kept ∙ ranked) b,
        )
