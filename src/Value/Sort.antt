-- ===== src/Value/Sort.antt =====
-- What the page relies on of the array's sort, as the language documents it.
use mathlib.Core.List.{Perm}
use shabdiz.Prelude.{◌≡◌, ◌≢◌, List, [], ◌∷◌, All}
use shabdiz.Util.Alphanum.{Sign, zero_sign, plus, opposite}

-- It rearranges the elements, whatever the comparator says.
pub record IsSort {A : Type 0} (sort : (A → A → Sign) → List A → List A) : Type 0 where
  pub perm : (compare : A → A → Sign) (xs : List A) → Perm (sort compare xs) xs

-- A consistent comparator on the elements that are `P`: they stand in a total preorder.
pub record IsConsistent {A : Type 0} (compare : A → A → Sign) (P : A → Type 0) : Type 0 where
  pub same : (x : A) → P x → compare x x ≡ zero_sign
  pub swap : (x y : A) → P x → P y → compare y x ≡ opposite (compare x y)
  pub chain :
      (x y z : A) → P x → P y → P z → compare x y ≢ plus → compare y z ≢ plus → compare x z ≢ plus

-- No element is greater than one behind it.
abbrev pub Ascending : {A : Type 0} → (A → A → Sign) → List A → Type 0
Ascending compare [] = Unit
Ascending compare (x ∷ xs) = All (λ y. compare x y ≢ plus) xs × Ascending compare xs

-- By a comparator that is consistent on the elements, it puts them in order.
pub record IsOrderedSort {A : Type 0} (sort : (A → A → Sign) → List A → List A) : Type 1 where
  pub ascending :
      (compare : A → A → Sign) (P : A → Type 0) (xs : List A)
      → IsConsistent compare P
      → All P xs
      → Ascending compare (sort compare xs)
