-- ===== src/Value/Paths/Merge.antt =====
-- What `$.extend` puts at a path: the value of the source, or what the target had.
use shabdiz.Prelude.{◌≡◌, refl, ◌≢◌, ap, ◌∙◌, inl, inr, Bool-cases, true, List, [], ◌∷◌, arith}
use shabdiz.Value.{Value, undefined, null, bool, num, str, fn, arr, obj}
use shabdiz.Value.Extend.{IsDeepExtend, merged, fields_of, items_of}
use shabdiz.Value.Paths.{
  Step, at_key, at_index, take_step, at_path, is_leaf, is_undefined, fits, leaves_alone,
  is_undefined_sound, object-cases, array-cases, at_path-unfit, leaves_alone-step, is_settled,
  overridden,
}

undefined-not_leaf : {v : Value} → v ≡ undefined → is_leaf v ≢ true
undefined-not_leaf u l = let same = ap is_leaf u in cc

module _ (ext : Value → Value → Value) where
  merged_leaf : (old new : Value) → is_leaf new ≡ true → merged ext old new ≡ new
  merged_leaf old undefined e = cc
  merged_leaf old null e = refl
  merged_leaf old (bool b) e = refl
  merged_leaf old (num n) e = refl
  merged_leaf old (str t) e = refl
  merged_leaf old (fn f) e = refl
  merged_leaf old (arr xs) e = cc
  merged_leaf old (obj f) e = cc

  module _ (d : IsDeepExtend ext) where
    -- Into an object or an array that is merged lead the steps into the merged parts.
    pub take_step-merged :
        (s : Step) (old new : Value)
        → fits s new ≡ true
        → take_step s (merged ext old new) ≡ merged ext (take_step s old) (take_step s new)
    take_step-merged (at_key k) old new e = elim (object-cases new) [
      | inl (f, o) ↦ let (r, eq, keys) = d.merge (fields_of old) f in rw (o, eq) (keys k)
      | inr (n, o) ↦ absurd (ground arith)
    ]
    take_step-merged (at_index i) old new e = elim (array-cases new) [
      | inl (xs, o) ↦
          let (zs, eq, places) = d.merge_items (items_of old) xs in rw (o, eq) (places i)
      | inr (n, o) ↦ absurd (ground arith)
    ]

    -- A leaf of the new value is taken over.
    pub at_path-merged_leaf :
        (path : List Step) (old new : Value)
        → is_leaf (at_path path new) ≡ true
        → at_path path (merged ext old new) ≡ at_path path new
    at_path-merged_leaf [] old new e = merged_leaf old new e
    at_path-merged_leaf (s ∷ path) old new e = elim (Bool-cases (fits s new)) [
      | inl f ↦
          ap (at_path path) (take_step-merged s old new f)
          ∙ at_path-merged_leaf path (take_step s old) (take_step s new) e
      | inr f ↦ absurd (undefined-not_leaf (at_path-unfit s path new f) e)
    ]

    -- What the new value leaves alone is kept.
    at_path-merged_old :
        (path : List Step) (old new : Value)
        → leaves_alone path new ≡ true
        → at_path path (merged ext old new) ≡ at_path path old
    at_path-merged_old [] old new e = rw (is_undefined_sound new e) refl
    at_path-merged_old (s ∷ path) old new e = elim (Bool-cases (is_undefined new)) [
      | inl u ↦ rw (is_undefined_sound new u) refl
      | inr u ↦
          ap (at_path path) (take_step-merged s old new (ground arith))
          ∙ at_path-merged_old path (take_step s old) (take_step s new) (ground arith)
    ]

    pub at_path-merged :
        (path : List Step) (old new : Value)
        → is_settled path new ≡ true
        → at_path path (merged ext old new) ≡ overridden path old new
    at_path-merged path old new e = elim (Bool-cases (leaves_alone path new)) [
      | inl u ↦ rw (u, at_path-merged_old path old new u) refl
      | inr u ↦ rw (u, at_path-merged_leaf path old new (ground arith)) refl
    ]

    fits-merged :
        (s : Step) (old new : Value) → fits s new ≡ true → fits s (merged ext old new) ≡ true
    fits-merged (at_key k) old new e = elim (object-cases new) [
      | inl (f, o) ↦ let (r, eq, keys) = d.merge (fields_of old) f in rw (o, eq) refl
      | inr (n, o) ↦ absurd (ground arith)
    ]
    fits-merged (at_index i) old new e = elim (array-cases new) [
      | inl (xs, o) ↦ let (zs, eq, places) = d.merge_items (items_of old) xs in rw (o, eq) refl
      | inr (n, o) ↦ absurd (ground arith)
    ]

    leaves_alone-merged :
        (path : List Step) (old new : Value)
        → leaves_alone path old ≡ true
        → leaves_alone path new ≡ true
        → leaves_alone path (merged ext old new) ≡ true
    leaves_alone-merged [] old new e g = rw (is_undefined_sound new g) e
    leaves_alone-merged (s ∷ path) old new e g = elim (Bool-cases (is_undefined new)) [
      | inl u ↦ rw (is_undefined_sound new u) e
      | inr u ↦
          let fit : fits s new ≡ true = ground arith in
          let there = fits-merged s old new fit in
          let below : leaves_alone path (take_step s (merged ext old new)) ≡ true =
            ap (leaves_alone path) (take_step-merged s old new fit)
            ∙ leaves_alone-merged path (take_step s old) (take_step s new)
                (leaves_alone-step s path old e) (ground arith) in
          ground arith
    ]

    -- A merge of settled values is settled.
    pub is_settled-merged :
        (path : List Step) (old new : Value)
        → is_settled path old ≡ true
        → is_settled path new ≡ true
        → is_settled path (merged ext old new) ≡ true
    is_settled-merged path old new e g = elim (Bool-cases (leaves_alone path new)) [
      | inl u ↦ elim (Bool-cases (leaves_alone path old)) [
        | inl v ↦ let both = leaves_alone-merged path old new v u in ground arith
        | inr v ↦ let kept = ap is_leaf (at_path-merged_old path old new u) in ground arith
      ]
      | inr u ↦
          let taken : is_leaf (at_path path (merged ext old new)) ≡ is_leaf (at_path path new) =
            ap is_leaf (at_path-merged_leaf path old new (ground arith)) in
          ground arith
    ]
