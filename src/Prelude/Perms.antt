-- ===== src/Prelude/Perms.antt =====
-- What rearranged lists have in common.
use mathlib.Core.List.{List, [], ◌∷◌, ◌++◌, append_assoc, Perm, Permᴰ, perm_append_comm, flat_map}
use mathlib.Core.List.Perm
use mathlib.Core.Bool.{Bool, true, ◌||◌, ◌&&◌}
use mathlib.Core.Logic.{∥∥₁_elim}
use mathlib.Core.Path.{◌≡◌, refl, ◌∙◌}
use native.Mathlib.Omega.{arith}
use shabdiz.Prelude.Lists.{any, all, All, select}

Perm_prop {ℓ} : {A : Type ℓ} (xs ys : List A) → IsProp (Perm xs ys)
Perm_prop xs ys = hlevel

module _ {A B : Type 0} (f : A → List B) where
  flat_map-permᴰ : {xs ys : List A} → Permᴰ xs ys → Perm (flat_map f xs) (flat_map f ys)
  unfolding flat_map
  flat_map-permᴰ Permᴰ.nil = Perm.refl []
  flat_map-permᴰ (Permᴰ.cons {b} e p) = rw e (Perm.append_left (f b) (flat_map-permᴰ p))
  flat_map-permᴰ (Permᴰ.swap {a'} {b'} {l} e g) =
      rw
        (
          e,
          g,
          ← append_assoc (f b') (f a') (flat_map f l),
          ← append_assoc (f a') (f b') (flat_map f l),
        )
        (Perm.append_right (flat_map f l) (perm_append_comm (f b') (f a')))
  flat_map-permᴰ (Permᴰ.trans p q) = Perm.trans (flat_map-permᴰ p) (flat_map-permᴰ q)

  -- Lists that are rearranged give rearranged lists.
  pub flat_map-perm : {xs ys : List A} → Perm xs ys → Perm (flat_map f xs) (flat_map f ys)
  flat_map-perm p = ∥∥₁_elim p (Perm_prop _ _) flat_map-permᴰ

Bool_set : IsSet Bool
Bool_set = hlevel

module _ {A : Type 0} (test : A → Bool) where
  any-permᴰ : {xs ys : List A} → Permᴰ xs ys → any test xs ≡ any test ys
  any-permᴰ Permᴰ.nil = refl
  any-permᴰ (Permᴰ.cons e p) = rw (e, any-permᴰ p)
  any-permᴰ (Permᴰ.swap e f) = rw (e, f) (ground arith)
  any-permᴰ (Permᴰ.trans p q) = any-permᴰ p ∙ any-permᴰ q

  -- A test holds of some element of both or of none.
  pub any-perm : {xs ys : List A} → Perm xs ys → any test xs ≡ any test ys
  any-perm p = ∥∥₁_elim p (Bool_set _ _) any-permᴰ

  pub any-append : (xs ys : List A) → any test (xs ++ ys) ≡ (any test xs || any test ys)
  any-append [] ys = refl
  any-append (x ∷ xs) ys = ground (arith, any-append xs ys)

  pub any-flat_map :
      {B : Type 0} (f : B → List A) (ys : List B)
      → any test (flat_map f ys) ≡ any (λ y. any test (f y)) ys
  unfolding flat_map
  any-flat_map f [] = refl
  any-flat_map f (y ∷ ys) = any-append (f y) (flat_map f ys) ∙ rw (any-flat_map f ys) refl

  all-permᴰ : {xs ys : List A} → Permᴰ xs ys → all test xs ≡ all test ys
  all-permᴰ Permᴰ.nil = refl
  all-permᴰ (Permᴰ.cons e p) = rw (e, all-permᴰ p)
  all-permᴰ (Permᴰ.swap e f) = rw (e, f) (ground arith)
  all-permᴰ (Permᴰ.trans p q) = all-permᴰ p ∙ all-permᴰ q

  -- It holds of all elements of both or of neither.
  pub all-perm : {xs ys : List A} → Perm xs ys → all test xs ≡ all test ys
  all-perm p = ∥∥₁_elim p (Bool_set _ _) all-permᴰ

  pub all-append : (xs ys : List A) → all test (xs ++ ys) ≡ (all test xs && all test ys)
  all-append [] ys = refl
  all-append (x ∷ xs) ys = ground (arith, all-append xs ys)

  pub All-all : (xs : List A) → all test xs ≡ true → All (λ x. test x ≡ true) xs
  All-all [] e = tt
  All-all (x ∷ xs) e = (ground arith, All-all xs (ground arith))

  pub all-select :
      (kept : A → Bool) (xs : List A) → all test xs ≡ true → all test (select kept xs) ≡ true
  all-select kept [] e = refl
  all-select kept (x ∷ xs) e = ground (arith, all-select kept xs)

  -- What is selected from a list is as its elements are.
  pub all-flat_map-select :
      {B : Type 0} (kept : B → A → Bool) (xs : List A) (ss : List B)
      → all test xs ≡ true
      → all test (flat_map (λ s. select (kept s) xs) ss) ≡ true
  unfolding flat_map
  all-flat_map-select kept xs [] e = refl
  all-flat_map-select kept xs (s ∷ ss) e =
      all-append (select (kept s) xs) _
      ∙ rw (all-select (kept s) xs e) (all-flat_map-select kept xs ss e)
