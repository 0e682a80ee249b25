-- ===== src/Scope/Drawn/Blank.antt =====
-- The series of the themes of evaluation/src/site/resources/analysis/scripts/theme.js and
-- metric_themes.js, which have none, and what `extend` puts there.
use shabdiz.Prelude.{ℕ, ◌≡◌, ◌⊎◌, refl, sym, ap, ◌∙◌, inl, inr, true, false, [], ◌∷◌}
use shabdiz.Prelude.Int.{pos}
use shabdiz.Text.{Text, codes}
use shabdiz.Util.Groups.{is_inherited}
use shabdiz.Value.{Value, undefined, arr, obj, Items, nil, end, Host}
use shabdiz.Value.Extend.{IsDeepExtend, merged, as_array, item}
use shabdiz.Value.Paths.{at_key, at_index, at_path, is_undefined, is_undefined_sound}
use shabdiz.Value.Paths.Outline.{outline, Alike, merged-Alike}
use shabdiz.Theme.{extend}
use shabdiz.Metrics.{customisations, theme_of}
use shabdiz.Metrics.Kept.{
  Has, MayHave, IsKept, all_fields, on_field, on_field_sound, extend-Has, theme_of-Has,
}
use shabdiz.Query.Matches.{Scenario}

abbrev pub series : Text
series = codes "series"

-- An array without elements, or of `undefined` only.
abbrev pub IsBlank : Value → Type 0
IsBlank v = (xs : Items) × (v ≡ arr xs) × ((i : ℕ) → item i xs ≡ undefined)

abbrev IsAbsent : Value → Type 0
IsAbsent v = v ≡ undefined

abbrev IsAddition : Value → Type 0
IsAddition v = IsAbsent v ⊎ IsBlank v

abbrev pub IsArray : Value → Type 0
IsArray v = (xs : Items) × (v ≡ arr xs)

customisations-absent :
    (n : ℕ → ℕ) → all_fields (on_field series is_undefined) (customisations n) ≡ true
customisations-absent n = refl

absent_sound : (v : Value) → is_undefined v ≡ true → IsAddition v
absent_sound v e = inl (is_undefined_sound v e)

-- The series of a value.
abbrev pub series_of : Value → Value
series_of v = at_path (at_key series ∷ []) v

module _ (ext : Value → Value → Value) (d : IsDeepExtend ext) where
  merged-IsBlank :
      (xs : Items) (new : Value)
      → ((i : ℕ) → item i xs ≡ undefined)
      → IsAddition new
      → IsBlank (merged ext (arr xs) new)
  merged-IsBlank xs new b (inl u) = rw u (xs, refl, b)
  merged-IsBlank xs new b (inr (ys, u, c)) =
      let (zs, eq, places) = d.merge_items xs ys in
      rw (u, eq) (zs, refl, λ i. rw (places i, b i, c i) refl)

  IsBlank-kept : IsKept ext IsBlank IsAddition
  IsBlank-kept = record {
    copied = λ new (ys, u, c).
        let (zs, eq, places) = d.merge_items nil ys in
        rw (u, eq) (zs, refl, λ i. rw (places i, c i) refl);
    step = λ old new (xs, u, b) q. rw u (merged-IsBlank xs new b q);
    again = λ new q. inr q;
  }

  arrays-Alike :
      (xs ys : Items)
      → ((i : ℕ) → item i xs ≡ merged ext undefined (item i ys))
      → Alike (arr xs) (arr ys)
  arrays-Alike xs ys places [] = refl
  arrays-Alike xs ys places (at_key k ∷ path) = refl
  arrays-Alike xs ys places (at_index i ∷ path) =
      ap (λ v. outline (at_path path v)) (places i) ∙ merged-Alike ext d (item i ys) path

  -- Elements that are merged into an array without any are copied.
  blank-Alike :
      (xs ys : Items)
      → ((i : ℕ) → item i xs ≡ undefined)
      → Alike (merged ext (arr xs) (arr ys)) (arr ys)
  blank-Alike xs ys b =
      let (zs, eq, places) = d.merge_items xs ys in
      rw eq (arrays-Alike zs ys (λ i. rw (places i, b i) refl))

module _ (h : Host Scenario) (d : IsDeepExtend (h.deep_extend)) where
  -- No theme has series of its own.
  pub theme_of-IsBlank :
      (name : Text) → is_inherited name ≡ false → Has series IsBlank (theme_of h name)
  theme_of-IsBlank name =
      theme_of-Has h d series IsBlank IsAddition (IsBlank-kept h.deep_extend d)
        (nil, refl, λ i. refl) (on_field series is_undefined)
        (on_field_sound series is_undefined IsAddition absent_sound) name
        (customisations-absent (λ n. h.decimal (pos n) 0))

  pub extend-series :
      (themm config : Value)
      → Has series IsBlank themm
      → MayHave series IsArray config
      → Alike (series_of (extend h themm config)) (as_array (series_of config))
  unfolding extend
  extend-series themm config bare child =
      let (s, cloned, (xs, e, b)) =
        extend-Has h d series IsBlank IsAddition (IsBlank-kept h.deep_extend d) themm undefined bare
          (inl refl) in
      let clone : h.deep_extend (h.deep_extend (obj end) themm) themm ≡ obj s =
        sym (d.skip (h.deep_extend (h.deep_extend (obj end) themm) themm)) ∙ cloned in
      let extended : extend h themm config ≡ h.deep_extend (obj s) config =
        ap (λ v. h.deep_extend v config) clone in
      elim child [
        | inl u ↦
            rw (extended, u, d.skip (obj s), e) (arrays-Alike h.deep_extend d xs nil (λ i. b i))
        | inr (f, u, (ys, q)) ↦
            let (z, third, last) = d.merge s f in
            rw (extended, u, third, last series, e, q) (blank-Alike h.deep_extend d xs ys b)
      ]
