-- ===== src/Util/Groups/Laws.antt =====
-- `groupBy` partitions the array: each group holds the elements with its key, in order.
use shabdiz.Prelude.{
  ◌≡◌, refl, ◌∙◌, Bool, true, false, List, [], ◌∷◌, ◌++◌, Option, none, some, arith, if◌then◌else◌,
  any, select, append_assoc, Bool-cases, inl, inr,
}
use shabdiz.Prelude.Result.{ok, err, type_error, is_error}
use shabdiz.Text.{Text, eq_text, eq_text_iff}
use shabdiz.Util.Arrays.{contains, Distinct, IsSameness}
use shabdiz.Util.Arrays.Laws.{Distinct-concat}
use shabdiz.Util.Groups.{
  Groups, made_keys, own, push, is_inherited, group_from, group_by, property_key,
}

pub eq_text-IsSameness : IsSameness eq_text
eq_text-IsSameness = record {
  symm = λ s t h. ground (arith, eq_text_iff s t, eq_text_iff t s);
  trans = λ s t u h k. ground (arith, eq_text_iff s t, eq_text_iff t u, eq_text_iff s u);
}

-- More members of a group that may be missing; no member makes no group.
abbrev extend : {A : Type 0} → Option (List A) → List A → Option (List A)
extend o [] = o
extend none (x ∷ xs) = some (x ∷ xs)
extend (some ys) (x ∷ xs) = some (ys ++ x ∷ xs)

-- The group of some members: there is none for no member.
abbrev pub unless_empty : {A : Type 0} → List A → Option (List A)
unless_empty [] = none
unless_empty (x ∷ xs) = some (x ∷ xs)

extend-none : {A : Type 0} (xs : List A) → extend none xs ≡ unless_empty xs
extend-none [] = refl
extend-none (x ∷ xs) = refl

unless_empty-select :
    {A : Type 0} (p : A → Bool) (xs : List A)
    → unless_empty (select p xs) ≡ (if any p xs then some (select p xs) else none)
unless_empty-select p [] = refl
unless_empty-select p (x ∷ xs) = elim (Bool-cases (p x)) [
  | inl e ↦ rw e
  | inr e ↦ rw e (unless_empty-select p xs)
]

extend_assoc :
    {A : Type 0} (o : Option (List A)) (x : A) (xs : List A)
    → extend (extend o (x ∷ [])) xs ≡ extend o (x ∷ xs)
extend_assoc none x [] = refl
extend_assoc none x (y ∷ xs) = refl
extend_assoc (some ys) x [] = refl
extend_assoc (some ys) x (y ∷ xs) = rw append_assoc

module _ {A : Type 0} where
  own-push :
      (key k : Text) (x : A) (g : Groups A)
      → own k (push key x g) ≡ (if eq_text key k then extend (own k g) (x ∷ []) else own k g)
  unfolding push
  own-push key k x [] = ground arith
  own-push key k x ((j, xs) ∷ g) =
      ground (arith, own-push key k x g, eq_text_iff key k, eq_text_iff j k, eq_text_iff j key)

  module _ (key : A → Text) where
    -- The loop of `groupBy` where no key is inherited.
    abbrev pub group_all : List A → Groups A → Groups A
    group_all [] g = g
    group_all (x ∷ xs) g = group_all xs (push (key x) x g)

    group_from-group_all :
        (xs : List A) (g : Groups A)
        → group_from key xs g
          ≡ (if any (λ x. is_inherited (key x)) xs then err type_error else ok (group_all xs g))
    unfolding group_from
    group_from-group_all [] g = refl
    group_from-group_all (x ∷ xs) g = ground (arith, group_from-group_all xs (push (key x) x g))

    own-group_all :
        (k : Text) (xs : List A) (g : Groups A)
        → own k (group_all xs g) ≡ extend (own k g) (select (λ x. eq_text (key x) k) xs)
    own-group_all k [] g = refl
    own-group_all k (x ∷ xs) g = elim (Bool-cases (eq_text (key x) k)) [
      | inl e ↦
          rw (own-group_all k xs (push (key x) x g), own-push (key x) k x g, e)
            (extend_assoc (own k g) x _)
      | inr e ↦ rw (own-group_all k xs (push (key x) x g), own-push (key x) k x g, e)
    ]

    -- The group of a key exists where some element has the key, and holds those elements.
    pub own-group_all_new :
        (k : Text) (xs : List A)
        → own k (group_all xs []) ≡ (
            if any (λ x. eq_text (key x) k) xs
            then some (select (λ x. eq_text (key x) k) xs)
            else none)
    own-group_all_new k xs =
        own-group_all k xs [] ∙ extend-none _ ∙ unless_empty-select (λ x. eq_text (key x) k) xs

    made_keys-push :
        (k : Text) (x : A) (g : Groups A)
        → made_keys (push k x g)
          ≡ (if contains eq_text k (made_keys g) then made_keys g else made_keys g ++ k ∷ [])
    unfolding push
    made_keys-push k x [] = refl
    made_keys-push k x ((j, xs) ∷ g) = ground (arith, made_keys-push k x g)

    Distinct-push :
        (k : Text) (x : A) (g : Groups A)
        → Distinct eq_text (made_keys g)
        → Distinct eq_text (made_keys (push k x g))
    Distinct-push k x g d = elim (Bool-cases (contains eq_text k (made_keys g))) [
      | inl e ↦ rw (made_keys-push k x g, e) d
      | inr e ↦ rw (made_keys-push k x g, e) (Distinct-concat eq_text eq_text-IsSameness k _ e d)
    ]

    -- No key is made twice.
    pub Distinct-group_all :
        (xs : List A) (g : Groups A)
        → Distinct eq_text (made_keys g)
        → Distinct eq_text (made_keys (group_all xs g))
    Distinct-group_all [] g d = d
    Distinct-group_all (x ∷ xs) g d =
        Distinct-group_all xs (push (key x) x g) (Distinct-push (key x) x g d)

  -- A key is made exactly where the object has the property.
  pub own-made_keys :
      (k : Text) (g : Groups A)
      → contains eq_text k (made_keys g) ≡ (elim (own k g) [ none ↦ false | some xs ↦ true ])
  own-made_keys k [] = refl
  own-made_keys k ((j, xs) ∷ g) = ground (arith, own-made_keys k g)

  -- The key under which `groupBy` files an element.
  abbrev pub property_text : (A → Option Text) → Option (Option Text → Option Text) → A → Text
  property_text property none e = property_key (property e)
  property_text property (some alias) e = property_key (alias (property e))

  pub group_by-group_all :
      (property : A → Option Text) (alias : Option (Option Text → Option Text)) (xs : List A)
      → group_by property alias xs ≡ (
          if any (λ x. is_inherited (property_text property alias x)) xs
          then err type_error
          else ok (group_all (property_text property alias) xs []))
  unfolding group_by
  group_by-group_all property none xs = group_from-group_all (property_text property none) xs []
  group_by-group_all property (some alias) xs =
      group_from-group_all (property_text property (some alias)) xs []

  -- `groupBy` throws exactly where the key of some element is a name that every object inherits.
  pub group_by_throws :
      (property : A → Option Text) (alias : Option (Option Text → Option Text)) (xs : List A)
      → is_error (group_by property alias xs)
        ≡ any (λ x. is_inherited (property_text property alias x)) xs
  group_by_throws property alias xs = rw (group_by-group_all property alias xs) (ground arith)

  -- Where `groupBy` returns, it has made no key twice, and under each key stand the elements with
  -- that key, in their order; a key that no element has is missing.
  pub group_by-own :
      (property : A → Option Text) (alias : Option (Option Text → Option Text)) (xs : List A)
      {g : Groups A}
      → group_by property alias xs ≡ ok g
      → Distinct eq_text (made_keys g)
        × ((k : Text)
            → own k g ≡ unless_empty (select (λ x. eq_text (property_text property alias x) k) xs))
  group_by-own property alias xs {g} h =
      let e : group_all (property_text property alias) xs [] ≡ g =
        ground (arith, group_by-group_all property alias xs) in
      rw (← e) (Distinct-group_all _ xs [] tt, λ k. own-group_all _ k xs [] ∙ extend-none _)
