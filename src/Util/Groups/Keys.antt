-- ===== src/Util/Groups/Keys.antt =====
-- `Object.keys` lists each key once, the array indices first and in ascending order.
use mathlib.Core.List.{Perm, Permᴰ, perm_middle}
use mathlib.Core.List.Perm
use mathlib.Core.Logic.{∥∥₁_elim}
use shabdiz.Prelude.{
  ap, ℕ, ◌≤◌, ◌≡◌, refl, Bool, true, false, some, select, List, [], ◌∷◌, ◌++◌, none, arith, ltb,
  Option-cases, Bool-cases, inl, inr, if-keeps, All, ◌∙◌,
}
use shabdiz.Text.{Text, eq_text}
use shabdiz.Util.Arrays.{contains}
use shabdiz.Util.Groups.{
  Groups, made_keys, array_index, insert_index, index_keys, name_keys, second, key_order,
  object_keys,
}

second-insert_index :
    (n : ℕ) (key : Text) (l : List (ℕ × Text))
    → Perm (second (insert_index (n, key) l)) (key ∷ second l)
unfolding second insert_index
second-insert_index n key [] = Perm.refl _
second-insert_index n key ((m, other) ∷ rest) = elim (Bool-cases (ltb n m)) [
  | inl e ↦ rw (e, insert_index) (Perm.refl _)
  | inr e ↦
      rw (e, insert_index)
        (Perm.trans (Perm.cons other (second-insert_index n key rest)) (Perm.swap key other _))
]

key_order-perm : (made : List Text) → Perm (key_order made) made
unfolding key_order
key_order-perm [] = Perm.refl []
key_order-perm (key ∷ rest) = elim (Option-cases (array_index key)) [
  | inl e ↦
      rw (e, name_keys, index_keys)
        (Perm.trans (perm_middle (second (index_keys rest)) (name_keys rest))
          (Perm.cons key (key_order-perm rest)))
  | inr (n, e) ↦
      rw (e, name_keys, index_keys)
        (Perm.trans
          (Perm.append_right (name_keys rest) (second-insert_index n key (index_keys rest)))
          (Perm.cons key (key_order-perm rest)))
]

-- The keys that are array indices come first, in ascending order of their numbers, and no other
-- key is an array index.
abbrev pub Ascending : List (ℕ × Text) → Type 0
Ascending [] = Unit
Ascending ((n, key) ∷ rest) = All (λ (p : ℕ × Text). n ≤ p.0) rest × Ascending rest

All-insert_index :
    (k n : ℕ) (key : Text) (l : List (ℕ × Text))
    → k ≤ n
    → All (λ (p : ℕ × Text). k ≤ p.0) l
    → All (λ (p : ℕ × Text). k ≤ p.0) (insert_index (n, key) l)
unfolding insert_index
All-insert_index k n key [] h a = (h, tt)
All-insert_index k n key ((m, other) ∷ rest) h (a, as') =
    if-keeps (All (λ (p : ℕ × Text). k ≤ p.0)) (ltb n m) (h, (a, as'))
      (a, All-insert_index k n key rest h as')

weaken_bound :
    (k n : ℕ) (l : List (ℕ × Text))
    → k ≤ n
    → All (λ (p : ℕ × Text). n ≤ p.0) l
    → All (λ (p : ℕ × Text). k ≤ p.0) l
weaken_bound k n [] h a = tt
weaken_bound k n ((m, other) ∷ rest) h (a, as') = (omega arith, weaken_bound k n rest h as')

Ascending-insert_index :
    (n : ℕ) (key : Text) (l : List (ℕ × Text)) → Ascending l → Ascending (insert_index (n, key) l)
unfolding insert_index
Ascending-insert_index n key [] h = (tt, tt)
Ascending-insert_index n key ((m, other) ∷ rest) (a, s) = elim (Bool-cases (ltb n m)) [
  | inl e ↦ rw (e, insert_index) ((ground arith, weaken_bound n m rest (ground arith) a), (a, s))
  | inr e ↦
      rw (e, insert_index)
        (All-insert_index m n key rest (ground arith) a, Ascending-insert_index n key rest s)
]

index_keys-Ascending : (made : List Text) → Ascending (index_keys made)
unfolding index_keys
index_keys-Ascending [] = tt
index_keys-Ascending (key ∷ rest) = elim (Option-cases (array_index key)) [
  | inl e ↦ rw (e, index_keys) (index_keys-Ascending rest)
  | inr (n, e) ↦ rw (e, index_keys) (Ascending-insert_index n key _ (index_keys-Ascending rest))
]

abbrev pub IsNumbered : ℕ × Text → Type 0
IsNumbered p = array_index p.1 ≡ some p.0

insert_index-IsNumbered :
    (n : ℕ) (key : Text) (l : List (ℕ × Text))
    → array_index key ≡ some n
    → All IsNumbered l
    → All IsNumbered (insert_index (n, key) l)
unfolding insert_index
insert_index-IsNumbered n key [] h a = (h, tt)
insert_index-IsNumbered n key ((m, other) ∷ rest) h (b, c) =
    if-keeps (All IsNumbered) (ltb n m) (h, (b, c)) (b, insert_index-IsNumbered n key rest h c)

index_keys-IsNumbered : (made : List Text) → All IsNumbered (index_keys made)
unfolding index_keys
index_keys-IsNumbered [] = tt
index_keys-IsNumbered (key ∷ rest) = elim (Option-cases (array_index key)) [
  | inl e ↦ rw (e, index_keys) (index_keys-IsNumbered rest)
  | inr (n, e) ↦ rw (e, index_keys) (insert_index-IsNumbered n key _ e (index_keys-IsNumbered rest))
]

-- The key is no array index.
abbrev pub is_name : Text → Bool
is_name key = elim (array_index key) [ none ↦ true | some n ↦ false ]

name_keys-select : (made : List Text) → name_keys made ≡ select is_name made
unfolding name_keys
name_keys-select [] = refl
name_keys-select (key ∷ rest) = elim (Option-cases (array_index key)) [
  | inl e ↦
      let named : is_name key ≡ true = rw (e, is_name) refl in
      rw (named, e, name_keys) (ap (key ∷◌) (name_keys-select rest))
  | inr (n, e) ↦
      let numbered : is_name key ≡ false = rw (e, is_name) refl in
      rw (numbered, e, name_keys) (name_keys-select rest)
]

-- `Object.keys` lists every key of the object as often as it was made: first those that are array
-- indices, in ascending order of their numbers, then the others, in the order in which they were
-- made.
pub object_keys-order :
    {A : Type 0} (g : Groups A)
    → Perm (object_keys g) (made_keys g)
      × ((numbered : List (ℕ × Text)) × (object_keys g
            ≡ second numbered ++ select is_name (made_keys g))
          × Ascending numbered
          × All IsNumbered numbered)
unfolding object_keys key_order
object_keys-order g = (
  key_order-perm (made_keys g),
  (
    index_keys (made_keys g),
    rw (name_keys-select (made_keys g)) refl,
    index_keys-Ascending (made_keys g),
    index_keys-IsNumbered (made_keys g),
  ),
)

contains-permᴰ :
    (k : Text) {xs ys : List Text} → Permᴰ xs ys → contains eq_text k xs ≡ contains eq_text k ys
contains-permᴰ k Permᴰ.nil = refl
contains-permᴰ k (Permᴰ.cons e p) = rw (e, contains-permᴰ k p)
contains-permᴰ k (Permᴰ.swap e f) = rw (e, f) (ground arith)
contains-permᴰ k (Permᴰ.trans p q) = contains-permᴰ k p ∙ contains-permᴰ k q

Bool-set : IsSet Bool
Bool-set = hlevel

-- A listed key is one that was made.
pub contains-object_keys :
    {A : Type 0} (k : Text) (g : Groups A)
    → contains eq_text k (object_keys g) ≡ contains eq_text k (made_keys g)
unfolding object_keys
contains-object_keys k g = ∥∥₁_elim (key_order-perm (made_keys g)) (Bool-set _ _) (contains-permᴰ k)
