-- ===== src/Util/Arrays/Laws.antt =====
-- `addIfAbsent` and `removeIfExists` as insertion into and removal from a set.
use shabdiz.Prelude.{
  ◌≡◌, refl, Bool, true, false, not, ◌&&◌, ◌||◌, List, [], ◌∷◌, ◌++◌, Option, none, some, arith,
  if◌then◌else◌, Bool-cases, inl, inr, All, All-append, if-keeps,
}
use shabdiz.Util.Arrays.{add_if_absent, remove_if_exists, contains, Distinct, IsSameness}

module _ {ℓ} {A : Type ℓ} (same : A → A → Bool) where
  abbrev is_found : Option A → Bool
  is_found none = false
  is_found (some a) = true

  -- `addIfAbsent` appends exactly where the element is missing.
  add_if_absent_lem :
      (x : A) (xs : List A)
      → add_if_absent same x xs ≡ (if contains same x xs then (xs, false) else (xs ++ x ∷ [], true))
  unfolding add_if_absent
  add_if_absent_lem x [] = refl
  add_if_absent_lem x (y ∷ xs) = ground (arith, add_if_absent_lem x xs)

  drop_first : A → List A → List A
  drop_first x [] = []
  drop_first x (y ∷ ys) = if same y x then ys else y ∷ drop_first x ys

  remove_if_exists_lem :
      (x : A) (xs : List A) → remove_if_exists same x xs ≡ (drop_first x xs, contains same x xs)
  unfolding remove_if_exists drop_first
  remove_if_exists_lem x [] = refl
  remove_if_exists_lem x (y ∷ xs) = ground (arith, remove_if_exists_lem x xs)

module _ {ℓ} {A : Type ℓ} (same : A → A → Bool) (P : A → Type 0) (x : A) where
  pub All-add_if_absent : (xs : List A) → P x → All P xs → All P (add_if_absent same x xs).0
  All-add_if_absent xs hx h = elim (Bool-cases (contains same x xs)) [
    | inl e ↦ rw (add_if_absent_lem same x xs, e) h
    | inr e ↦ rw (add_if_absent_lem same x xs, e) (All-append P xs (x ∷ []) h (hx, tt))
  ]

  All-drop_first : (xs : List A) → All P xs → All P (drop_first same x xs)
  unfolding drop_first
  All-drop_first [] h = tt
  All-drop_first (y ∷ xs) (hy, h) = if-keeps (All P) (same y x) h (hy, All-drop_first xs h)

  pub All-remove_if_exists : (xs : List A) → All P xs → All P (remove_if_exists same x xs).0
  All-remove_if_exists xs h = rw (remove_if_exists_lem same x xs) (All-drop_first xs h)

module _ {ℓ} {A : Type ℓ} (same : A → A → Bool) (s : IsSameness same) where
  same_left : (x y z : A) → same x y ≡ true → same x z ≡ same y z
  same_left x y z h = ground (arith, s.symm x y, s.trans x y z, s.trans y x z)

  same_comm : (x y : A) → same x y ≡ same y x
  same_comm x y = ground (arith, s.symm x y, s.symm y x)

  contains_same :
      (x y : A) (xs : List A) → same x y ≡ true → contains same x xs ≡ contains same y xs
  contains_same x y [] h = refl
  contains_same x y (z ∷ xs) h =
      ground (arith, contains_same x y xs h, same_left x y z h, same_comm z x, same_comm z y)

  contains-append :
      (y : A) (xs ys : List A)
      → contains same y (xs ++ ys) ≡ (contains same y xs || contains same y ys)
  contains-append y [] ys = refl
  contains-append y (x ∷ xs) ys = ground (arith, contains-append y xs ys)

  -- After `addIfAbsent` the array holds what it held and the element, by a comparison that is
  -- symmetric and transitive.
  pub contains-add_if_absent :
      (x y : A) (xs : List A)
      → contains same y (add_if_absent same x xs).0 ≡ (contains same y xs || same x y)
  contains-add_if_absent x y xs =
      rw (add_if_absent_lem same x xs)
        (ground (arith, contains-append y xs (x ∷ []), contains_same x y xs))

  contains-drop_first :
      (x y : A) (xs : List A)
      → Distinct same xs
      → contains same y (drop_first same x xs) ≡ (contains same y xs && not (same x y))
  unfolding drop_first
  contains-drop_first x y [] d = refl
  contains-drop_first x y (z ∷ xs) (new, d) = ground (
    arith,
    contains-drop_first x y xs d,
    contains_same z y xs,
    same_left z x y,
    same_comm z x,
    s.symm z y,
    s.trans x y z,
  )

  -- After `removeIfExists` an array of distinct elements holds what it held but the element, by a
  -- comparison that is symmetric and transitive.
  pub contains-remove_if_exists :
      (x y : A) (xs : List A)
      → Distinct same xs
      → contains same y (remove_if_exists same x xs).0 ≡ (contains same y xs && not (same x y))
  contains-remove_if_exists x y xs d =
      rw (remove_if_exists_lem same x xs) (contains-drop_first x y xs d)

  pub Distinct-concat :
      (x : A) (xs : List A)
      → contains same x xs ≡ false
      → Distinct same xs
      → Distinct same (xs ++ x ∷ [])
  Distinct-concat x [] h d = (refl, tt)
  Distinct-concat x (y ∷ xs) h (new, d) = (
    ground (arith, contains-append y xs (x ∷ []), same_comm x y),
    Distinct-concat x xs (ground arith) d,
  )

  -- `addIfAbsent` keeps the elements distinct, by a comparison that is symmetric and transitive.
  pub Distinct-add_if_absent :
      (x : A) (xs : List A) → Distinct same xs → Distinct same (add_if_absent same x xs).0
  Distinct-add_if_absent x xs d = elim (Bool-cases (contains same x xs)) [
    | inl e ↦ rw (add_if_absent_lem same x xs, e) d
    | inr e ↦ rw (add_if_absent_lem same x xs, e) (Distinct-concat x xs e d)
  ]

  Distinct-drop_first :
      (x : A) (xs : List A) → Distinct same xs → Distinct same (drop_first same x xs)
  unfolding drop_first
  Distinct-drop_first x [] d = tt
  Distinct-drop_first x (y ∷ xs) (new, d) = elim (Bool-cases (same y x)) [
    | inl e ↦ rw (e, drop_first) d
    | inr e ↦
        rw (e, drop_first)
          (ground (arith, contains-drop_first x y xs d), Distinct-drop_first x xs d)
  ]

  -- `removeIfExists` keeps the elements distinct, by a comparison that is symmetric and transitive.
  pub Distinct-remove_if_exists :
      (x : A) (xs : List A) → Distinct same xs → Distinct same (remove_if_exists same x xs).0
  Distinct-remove_if_exists x xs d =
      rw (remove_if_exists_lem same x xs) (Distinct-drop_first x xs d)
