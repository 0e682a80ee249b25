-- ===== src/Util/Arrays.antt =====
-- evaluation/src/site/resources/analysis/scripts/util.js:
-- `Array.prototype.addIfAbsent` and `removeIfExists`. Both change the array, so they return it
-- with their result. `indexOf` compares by `===`, the parameter `same`.
pub mod Laws
use shabdiz.Prelude.{
  ℕ, zero, suc, ◌≡◌, Bool, true, false, List, [], ◌∷◌, ◌++◌, Option, none, some, if◌then◌else◌, any,
}

-- `array.splice(index, 1)`.
unfoldable pub erase_idx {ℓ} : {A : Type ℓ} → List A → ℕ → List A
erase_idx [] i = []
erase_idx (x ∷ xs) zero = xs
erase_idx (x ∷ xs) (suc i) = x ∷ erase_idx xs i

module _ {ℓ} {A : Type ℓ} (same : A → A → Bool) where
  -- `array.indexOf(element)`, with `none` for -1.
  unfoldable pub index_of : A → List A → Option ℕ
  index_of element [] = none
  index_of element (x ∷ xs) =
      if same x element
      then some 0
      else (elim (index_of element xs) [ none ↦ none | some i ↦ some (suc i) ])

  unfoldable pub add_if_absent : A → List A → List A × Bool
  unfolding index_of
  add_if_absent element array = elim (index_of element array) [
    | none ↦ (array ++ element ∷ [], true)
    | some i ↦ (array, false)
  ]

  unfoldable pub remove_if_exists : A → List A → List A × Bool
  unfolding index_of erase_idx
  remove_if_exists element array = elim (index_of element array) [
    | none ↦ (array, false)
    | some index ↦ (erase_idx array index, true)
  ]

  abbrev pub contains : A → List A → Bool
  contains y = any (λ x. same x y)

  -- No two elements are the same.
  abbrev pub Distinct : List A → Type 0
  Distinct [] = Unit
  Distinct (x ∷ xs) = (contains x xs ≡ false) × Distinct xs

-- What is needed of `===`: it holds of no element and itself where that is `NaN`.
pub record IsSameness {ℓ} {A : Type ℓ} (same : A → A → Bool) : Type ℓ where
  pub symm : (x y : A) → same x y ≡ true → same y x ≡ true
  pub trans : (x y z : A) → same x y ≡ true → same y z ≡ true → same x z ≡ true
