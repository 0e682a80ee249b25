-- ===== src/Value/Paths/Outline.antt =====
-- What `$.extend` makes of a value where there was nothing before: a copy.
use shabdiz.Prelude.{◌≡◌, refl, ap, sym, ◌∙◌, true, inl, inr, Bool-cases, List, [], ◌∷◌}
use shabdiz.Value.{Value, undefined, null, bool, num, str, fn, arr, obj, end, nil}
use shabdiz.Value.Extend.{IsDeepExtend, merged}
use shabdiz.Value.Paths.{
  Step, at_key, at_index, take_step, at_path, fits, is_object, is_array, at_path-unfit,
}
use shabdiz.Value.Paths.Merge.{take_step-merged}

-- A value without what is inside an object or an array.
abbrev pub outline : Value → Value
outline (obj f) = obj end
outline (arr xs) = arr nil
outline v = v

-- At each path there is the same leaf in both, an object in both, an array in both, or `undefined`
-- in both.
abbrev pub Alike : Value → Value → Type 0
Alike v w = (path : List Step) → outline (at_path path v) ≡ outline (at_path path w)

module _ (ext : Value → Value → Value) (d : IsDeepExtend ext) where
  outline-merged : (v : Value) → outline (merged ext undefined v) ≡ outline v
  outline-merged undefined = refl
  outline-merged null = refl
  outline-merged (bool b) = refl
  outline-merged (num n) = refl
  outline-merged (str t) = refl
  outline-merged (fn f) = refl
  outline-merged (arr xs) = let (zs, eq, places) = d.merge_items nil xs in rw eq refl
  outline-merged (obj f) = let (r, eq, keys) = d.merge end f in rw eq refl

  outline-is_object : (v : Value) → is_object (outline v) ≡ is_object v
  outline-is_object undefined = refl
  outline-is_object null = refl
  outline-is_object (bool b) = refl
  outline-is_object (num n) = refl
  outline-is_object (str t) = refl
  outline-is_object (fn f) = refl
  outline-is_object (arr xs) = refl
  outline-is_object (obj f) = refl

  outline-is_array : (v : Value) → is_array (outline v) ≡ is_array v
  outline-is_array undefined = refl
  outline-is_array null = refl
  outline-is_array (bool b) = refl
  outline-is_array (num n) = refl
  outline-is_array (str t) = refl
  outline-is_array (fn f) = refl
  outline-is_array (arr xs) = refl
  outline-is_array (obj f) = refl

  outline-fits : (s : Step) (v : Value) → fits s (outline v) ≡ fits s v
  outline-fits (at_key k) v = outline-is_object v
  outline-fits (at_index i) v = outline-is_array v

  fits-merged_undefined : (s : Step) (v : Value) → fits s (merged ext undefined v) ≡ fits s v
  fits-merged_undefined s v =
      sym (outline-fits s (merged ext undefined v))
      ∙ ap (fits s) (outline-merged v)
      ∙ outline-fits s v

  take_step-copy :
      (s : Step) (v : Value)
      → fits s v ≡ true
      → take_step s (merged ext undefined v) ≡ merged ext undefined (take_step s v)
  take_step-copy (at_key k) v e = take_step-merged ext d (at_key k) undefined v e
  take_step-copy (at_index i) v e = take_step-merged ext d (at_index i) undefined v e

  -- A value that is merged into nothing is copied.
  pub merged-Alike : (v : Value) → Alike (merged ext undefined v) v
  merged-Alike v [] = outline-merged v
  merged-Alike v (s ∷ path) = elim (Bool-cases (fits s v)) [
    | inl e ↦
        ap (λ w. outline (at_path path w)) (take_step-copy s v e)
        ∙ merged-Alike (take_step s v) path
    | inr e ↦ ap outline (
        at_path-unfit s path (merged ext undefined v) (fits-merged_undefined s v ∙ e)
        ∙ sym (at_path-unfit s path v e))
  ]
