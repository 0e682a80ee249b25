-- ===== src/Tests/Inserting.antt =====
-- A host whose sort is by insertion.
use mathlib.Core.List.{Perm}
use mathlib.Core.List.Perm
use shabdiz.Prelude.{◌≡◌, ◌≢◌, refl, List, [], ◌∷◌, All, some, Option, if◌then◌else◌, arith}
use shabdiz.Text.{Text, codes, eq_text}
use shabdiz.Value.{Host}
use shabdiz.Value.Sort.{IsSort, IsConsistent, Ascending, IsOrderedSort}
use shabdiz.Util.Alphanum.{Sign, minus, zero_sign, plus}
use shabdiz.Query.Matches.{Scenario}
use shabdiz.Tests.Hosts.{host}

module _ {A : Type 0} where
  abbrev place : Sign → List A → List A → List A
  place plus behind here = behind
  place zero_sign behind here = here
  place minus behind here = here

  by_place :
      (Q : List A → Type 0) (s : Sign) {behind here : List A}
      → (s ≡ plus → Q behind)
      → (s ≢ plus → Q here)
      → Q (place s behind here)
  by_place Q plus f g = f refl
  by_place Q zero_sign f g = g (λ e. cc)
  by_place Q minus f g = g (λ e. cc)

module _ {A : Type 0} (compare : A → A → Sign) where
  abbrev insert : A → List A → List A
  insert x [] = x ∷ []
  insert x (y ∷ ys) = place (compare x y) (y ∷ insert x ys) (x ∷ y ∷ ys)

  abbrev insertion_sort : List A → List A
  insertion_sort [] = []
  insertion_sort (x ∷ xs) = insert x (insertion_sort xs)

  insert-perm : (x : A) (ys : List A) → Perm (insert x ys) (x ∷ ys)
  insert-perm x [] = Perm.refl _
  insert-perm x (y ∷ ys) =
      by_place (λ l. Perm l (x ∷ y ∷ ys)) (compare x y)
        (λ e. Perm.trans (Perm.cons y (insert-perm x ys)) (Perm.swap x y ys)) (λ n. Perm.refl _)

  insertion_sort-perm : (xs : List A) → Perm (insertion_sort xs) xs
  insertion_sort-perm [] = Perm.refl _
  insertion_sort-perm (x ∷ xs) =
      Perm.trans (insert-perm x (insertion_sort xs)) (Perm.cons x (insertion_sort-perm xs))

  insert-All : (Q : A → Type 0) (x : A) (ys : List A) → Q x → All Q ys → All Q (insert x ys)
  insert-All Q x [] q h = (q, tt)
  insert-All Q x (y ∷ ys) q (hy, hs) =
      by_place (All Q) (compare x y) (λ e. (hy, insert-All Q x ys q hs)) (λ n. (q, (hy, hs)))

  insertion_sort-All : (Q : A → Type 0) (xs : List A) → All Q xs → All Q (insertion_sort xs)
  insertion_sort-All Q [] h = tt
  insertion_sort-All Q (x ∷ xs) (q, hs) =
      insert-All Q x (insertion_sort xs) q (insertion_sort-All Q xs hs)

  module _ (P : A → Type 0) (c : IsConsistent compare P) where
    below :
        (x y : A) (ys : List A)
        → P x
        → P y
        → All P ys
        → compare x y ≢ plus
        → All (λ z. compare y z ≢ plus) ys
        → All (λ z. compare x z ≢ plus) ys
    below x y [] px py ps h hs = tt
    below x y (z ∷ zs) px py (pz, ps) h (hz, hs) =
        (c.chain x y z px py pz h hz, below x y zs px py ps h hs)

    swapped : (x y : A) → P x → P y → compare x y ≡ plus → compare y x ≢ plus
    swapped x y px py e k = ground (arith, c.swap x y px py)

    insert-Ascending :
        (x : A) (ys : List A)
        → P x
        → All P ys
        → Ascending compare ys
        → Ascending compare (insert x ys)
    insert-Ascending x [] px ps a = (tt, tt)
    insert-Ascending x (y ∷ ys) px (py, ps) (hy, a) =
        by_place (Ascending compare) (compare x y)
          (λ e. (
            insert-All (λ z. compare y z ≢ plus) x ys (swapped x y px py e) hy,
            insert-Ascending x ys px ps a,
          ))
          (λ n. ((n, below x y ys px py ps n hy), (hy, a)))

    insertion_sort-Ascending : (xs : List A) → All P xs → Ascending compare (insertion_sort xs)
    insertion_sort-Ascending [] h = tt
    insertion_sort-Ascending (x ∷ xs) (p, ps) =
        insert-Ascending x (insertion_sort xs) p (insertion_sort-All P xs ps)
          (insertion_sort-Ascending xs ps)

-- A row whose churn is given, and which names the column in every other one.
abbrev row_of : Text → Text → Option Text
row_of label name = some (if eq_text name (codes "churn") then label else name)

abbrev pub sorting_host : Host Scenario
sorting_host = record {
  decimal = host.decimal;
  sub = host.sub;
  mul = host.mul;
  div = host.div;
  to_number = host.to_number;
  deep_extend = host.deep_extend;
  csv = host.csv;
  table = λ t. row_of (codes "Medium") ∷ row_of (codes "Heavy") ∷ [];
  fetch = host.fetch;
  sort = insertion_sort;
}

pub sorting_host-IsSort : IsSort (sorting_host.sort)
sorting_host-IsSort = record { perm = insertion_sort-perm }

pub sorting_host-IsOrderedSort : IsOrderedSort (sorting_host.sort)
sorting_host-IsOrderedSort = record {
  ascending = λ compare P xs c h. insertion_sort-Ascending compare P c xs h;
}
