-- ===== src/Page/Sound/Filters.antt =====
-- What a click on a filter does to the selections.
use shabdiz.Prelude.{◌≡◌, refl, Bool, true, false, not, ◌&&◌, ◌||◌, List, arith, if◌then◌else◌}
use shabdiz.Prelude.Int.{pos, negsuc}
use shabdiz.Text.Number.{Number, int, nan, strict_eq}
use shabdiz.Util.Arrays.{contains, Distinct, IsSameness}
use shabdiz.Util.Arrays.Laws.{
  contains-add_if_absent, contains-remove_if_exists, Distinct-add_if_absent,
  Distinct-remove_if_exists,
}
use shabdiz.Value.{Host}
use shabdiz.Query.{
  Dimension, churn, workload, peer_configuration, experiment_duration, training_duration,
  clustering_algorithm, feedback_enabled, Query,
}
use shabdiz.Query.Matches.{Scenario, selection}
use shabdiz.Page.{Page, ◌>>=◌, filter_checked, with_selection}
use shabdiz.Page.Updates.{address-update}

strict_eq-IsSameness : IsSameness strict_eq
strict_eq-IsSameness = record { symm = symm; trans = trans }
  where
    symm : (x y : Number) → strict_eq x y ≡ true → strict_eq y x ≡ true
    symm (int (pos m)) (int (pos n)) h = ground arith
    symm (int (negsuc m)) (int (negsuc n)) h = ground arith
    symm (int (pos m)) (int (negsuc n)) h = cc
    symm (int (negsuc m)) (int (pos n)) h = cc
    symm (int (pos m)) nan h = cc
    symm (int (negsuc m)) nan h = cc
    symm nan y h = cc

    trans : (x y z : Number) → strict_eq x y ≡ true → strict_eq y z ≡ true → strict_eq x z ≡ true
    trans (int (pos m)) (int (pos n)) (int (pos k)) h g = ground arith
    trans (int (negsuc m)) (int (negsuc n)) (int (negsuc k)) h g = ground arith
    trans (int (pos m)) (int (pos n)) (int (negsuc k)) h g = cc
    trans (int (pos m)) (int (pos n)) nan h g = cc
    trans (int (negsuc m)) (int (negsuc n)) (int (pos k)) h g = cc
    trans (int (negsuc m)) (int (negsuc n)) nan h g = cc
    trans (int (pos m)) (int (negsuc n)) z h g = cc
    trans (int (pos m)) nan z h g = cc
    trans (int (negsuc m)) (int (pos n)) z h g = cc
    trans (int (negsuc m)) nan z h g = cc
    trans nan y z h g = cc

selection-with_selection :
    (d : Dimension) (xs : List Number) (q : Query) → selection d (with_selection d xs q) ≡ xs
selection-with_selection churn xs q = refl
selection-with_selection workload xs q = refl
selection-with_selection peer_configuration xs q = refl
selection-with_selection experiment_duration xs q = refl
selection-with_selection training_duration xs q = refl
selection-with_selection clustering_algorithm xs q = refl
selection-with_selection feedback_enabled xs q = refl

-- A click on a filter's box, whether or not the update throws: where the property's selected indices
-- are distinct they stay so; a checked box adds its index to them and an unchecked one takes it out,
-- and every other index is selected as before.
pub filter_checked-contains :
    (h : Host Scenario) (checked : Bool) (index other : Number) (d : Dimension) (p : Page)
    → Distinct strict_eq (selection d p.query)
    → (contains strict_eq other (selection d (filter_checked h checked index d p).0.query) ≡ (
        if checked
        then contains strict_eq other (selection d p.query) || strict_eq index other
        else contains strict_eq other (selection d p.query) && not (strict_eq index other)))
      × Distinct strict_eq (selection d (filter_checked h checked index d p).0.query)
unfolding filter_checked ◌>>=◌
filter_checked-contains h true index other d p s =
    rw ((address-update h _).0, selection-with_selection)
      (
        contains-add_if_absent strict_eq strict_eq-IsSameness index other (selection d p.query),
        Distinct-add_if_absent strict_eq strict_eq-IsSameness index (selection d p.query) s,
      )
filter_checked-contains h false index other d p s =
    rw ((address-update h _).0, selection-with_selection)
      (
        contains-remove_if_exists strict_eq strict_eq-IsSameness index other (selection d p.query)
            s,
        Distinct-remove_if_exists strict_eq strict_eq-IsSameness index (selection d p.query) s,
      )
