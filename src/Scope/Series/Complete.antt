-- ===== src/Scope/Series/Complete.antt =====
-- What the charts over groups of evaluation/src/site/resources/analysis/scripts/scope.js show of the
-- matching scenarios: the groups and their sorting lose no point and make none twice.
use mathlib.Core.List.{Perm, flat_map}
use mathlib.Core.List.Perm
use shabdiz.Prelude.{
  ℕ, ◌+◌, ◌≡◌, refl, sym, ◌∙◌, false, List, [], ◌∷◌, ◌++◌, none, any, map, append_assoc,
}
use shabdiz.Prelude.Perms.{flat_map-perm, any-perm, any-append}
use shabdiz.Prelude.Result.{returns, Result, ok, err, ok-inj, ok_parts, is_error}
use shabdiz.Text.{Text}
use shabdiz.Util.Groups.{Groups, group_by, object_keys}
use shabdiz.Util.Groups.Members.{group_by-perm, members_of}
use shabdiz.Value.{Value, Fields, Host}
use shabdiz.Value.Sort.{IsSort}
use shabdiz.Query.Matches.{Scenario}
use shabdiz.Scope.Points.{Metric, summary}
use shabdiz.Scope.Series.{
  Pass, traverse, rows, sorted, firsts, seconds, group_pair, group_pairs, grouped, members,
}
use shabdiz.Scope.Series.Linked.{data_of, list_of-items}
use shabdiz.Scope.Returns.Loops.{is_error-traverse, sorted-perm}

-- What the call gives, if it returns.
abbrev given : {A B : Type 0} → Result A → (A → B) → List B
given (ok a) part = part a ∷ []
given (err e) part = []

traverse-given :
    {A B C : Type 0} (f : A → Result B) (part : B → C) (xs : List A) {ys : List B}
    → traverse f xs ≡ ok ys
    → flat_map (λ x. given (f x) part) xs ≡ map part ys
unfolding flat_map
traverse-given f part [] e = rw (← ok-inj e) refl
traverse-given f part (x ∷ xs) e =
    let (y, a, b) = ok_parts (f x) _ e in
    let (ys, c, k) = ok_parts (traverse f xs) _ b in
    rw (a, traverse-given f part xs c, ← ok-inj k) refl

pub firsts_lem : (ps : List (Value × Value)) → firsts ps ≡ map (λ p. p.0) ps
firsts_lem [] = refl
firsts_lem (p ∷ ps) = rw (firsts_lem ps)

pub seconds_lem : (ps : List (Value × Value)) → seconds ps ≡ map (λ p. p.1) ps
seconds_lem [] = refl
seconds_lem (p ∷ ps) = rw (seconds_lem ps)

flat_map-append :
    {A B : Type 0} (f : A → List B) (xs ys : List A)
    → flat_map f (xs ++ ys) ≡ flat_map f xs ++ flat_map f ys
unfolding flat_map
flat_map-append f [] ys = refl
flat_map-append f (x ∷ xs) ys =
    rw (flat_map-append f xs ys) (sym (append_assoc (f x) (flat_map f xs) (flat_map f ys)))

module _ {A : Type 0} (f : A → Result (Value × Value)) where
  abbrev all_given : (Value × Value → Value) → List A → List Value
  all_given part = flat_map (λ x. given (f x) part)

  -- The points and the intervals are those that come of the elements, each once.
  record Covers (xs : List A) (ps is : List Value) : Type 0 where
    made : any (λ x. is_error (f x)) xs ≡ false
    points : Perm ps (all_given (λ y. y.0) xs)
    intervals : Perm is (all_given (λ y. y.1) xs)

  Covers-perm :
      {xs ys : List A} {ps is : List Value} → Perm xs ys → Covers xs ps is → Covers ys ps is
  Covers-perm p c = record {
    made = sym (any-perm (λ x. is_error (f x)) p) ∙ c.made;
    points = Perm.trans c.points (flat_map-perm _ p);
    intervals = Perm.trans c.intervals (flat_map-perm _ p);
  }

  Covers-append :
      (xs ys : List A) {ps is qs js : List Value}
      → Covers xs ps is
      → Covers ys qs js
      → Covers (xs ++ ys) (ps ++ qs) (is ++ js)
  Covers-append xs ys c d = record {
    made = any-append (λ x. is_error (f x)) xs ys ∙ rw (c.made, d.made) refl;
    points = rw (flat_map-append) (Perm.append c.points d.points);
    intervals = rw (flat_map-append) (Perm.append c.intervals d.intervals);
  }

  Covers-traverse :
      (xs : List A) {ys : List (Value × Value)}
      → traverse f xs ≡ ok ys
      → Covers xs (firsts ys) (seconds ys)
  Covers-traverse xs {ys} e = record {
    made = sym (is_error-traverse f (λ x. is_error (f x)) (λ x. refl) xs) ∙ rw e refl;
    points = rw (firsts_lem ys, ← traverse-given f (λ y. y.0) xs e) (Perm.refl _);
    intervals = rw (seconds_lem ys, ← traverse-given f (λ y. y.1) xs e) (Perm.refl _);
  }

module _ (h : Host Scenario) (themm : Value) (metric : Metric) (pass : Pass) where
  -- What `renderer` makes of a scenario for a chart over groups.
  abbrev pub summary_of : Scenario → Result (Value × Value)
  summary_of match = summary h themm match.churn (rows h themm metric match pass.suffix)

  module _ (sorts : IsSort (h.sort)) where
    group_pair-Covers :
        (i : ℕ) (key : Text) (found : List Scenario) {pair : Fields × Fields}
        → group_pair h themm metric pass i key found ≡ ok pair
        → Covers summary_of found (data_of pair.0) (data_of pair.1)
    unfolding group_pair
    group_pair-Covers i key found e =
        let order = sorted h themm metric pass.sorts found in
        let (made, a, b) = ok_parts (traverse summary_of order) _ e in
        rw (← ok-inj b, list_of-items (firsts made), data_of, list_of-items (seconds made))
          (Covers-perm summary_of (sorted-perm h themm metric sorts pass.sorts found)
            (Covers-traverse summary_of order a))

    group_pairs-Covers :
        (i : ℕ) (groups : Groups Scenario) (keys : List Text) {pairs : List (Fields × Fields)}
        → group_pairs h themm metric pass i groups keys ≡ ok pairs
        → Covers summary_of
            (flat_map (members_of groups) keys)
            (flat_map (λ p. data_of p.0) pairs)
            (flat_map (λ p. data_of p.1) pairs)
    unfolding group_pairs flat_map
    group_pairs-Covers i groups [] e =
        rw (← ok-inj e) (record { made = refl; points = Perm.refl _; intervals = Perm.refl _ })
    group_pairs-Covers i groups (key ∷ keys) e =
        let (pair, a, b) =
          ok_parts (group_pair h themm metric pass i key (members h themm metric key groups)) _ e in
        let (more, c, k) = ok_parts (group_pairs h themm metric pass (i + 1) groups keys) _ b in
        rw (← ok-inj k) (
          Covers-append summary_of _ _ (group_pair-Covers i key _ a)
            (group_pairs-Covers (i + 1) groups keys c))

    -- With a sort that rearranges: where the loop over the groups returns, each matching scenario
    -- has given one point and one interval, and the series of all groups together hold these
    -- points and these intervals, each as often as they were given.
    pub grouped-perm :
        (found : List Scenario) {pairs : List (Fields × Fields)}
        → grouped h themm metric pass found ≡ ok pairs
        → (made : List (Value × Value)) × (traverse summary_of found ≡ ok made)
          × Perm (flat_map (λ p. data_of p.0) pairs) (map (λ y. y.0) made)
          × Perm (flat_map (λ p. data_of p.1) pairs) (map (λ y. y.1) made)
    unfolding grouped
    grouped-perm found e =
        let (groups, a, b) =
          ok_parts (group_by (λ match. match.peer_configuration) none found) _ e in
        let c =
          Covers-perm summary_of (group_by-perm (λ match. match.peer_configuration) none found a)
            (group_pairs-Covers 0 groups (object_keys groups) b) in
        let (made, t) = returns (
          is_error-traverse summary_of (λ x. is_error (summary_of x)) (λ x. refl) found ∙ c.made) in
        (
          made,
          t,
          rw (← traverse-given summary_of (λ y. y.0) found t) c.points,
          rw (← traverse-given summary_of (λ y. y.1) found t) c.intervals,
        )
