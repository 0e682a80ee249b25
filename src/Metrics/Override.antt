-- ===== src/Metrics/Override.antt =====
-- evaluation/src/site/resources/analysis/scripts/metric_themes.js and theme.js: what `extend` makes
-- of the theme of all charts and the customisation of a metric.
use shabdiz.Prelude.{
  ◌≡◌, refl, sym, ap, ◌∙◌, ℕ, ◌⊎◌, inl, inr, true, false, List, [], ◌∷◌, Bool-cases, if◌then◌else◌,
  arith,
}
use shabdiz.Prelude.Int.{pos}
use shabdiz.Text.{Text, eq_text}
use shabdiz.Util.Groups.{is_inherited}
use shabdiz.Value.{Value, undefined, obj, Fields, end, field, get, Host}
use shabdiz.Value.Extend.{IsDeepExtend}
use shabdiz.Value.Paths.{
  Step, at_key, at_index, at_path, leaves_alone, leaves_alone_undefined, at_path-leaves_alone,
  is_settled, overridden, at_path_undefined, object-cases, is_object,
}
use shabdiz.Value.Paths.Merge.{at_path-merged, is_settled-merged}
use shabdiz.Theme.{theme, theme_fields, extend}
use shabdiz.Metrics.Kept.{all_fields}
use shabdiz.Metrics.{customisations, extended_from, theme_of}

module _ {A : Type 0} (h : Host A) where
  -- What the table of customisations has for a metric; `undefined` for a metric without one.
  abbrev pub custom_of : Text → Value
  custom_of name = get name (customisations (λ n. h.decimal (pos n) 0))

  module _ (d : IsDeepExtend (h.deep_extend)) where
    pub overridden-copy :
        (path : List Step) (old new : Value)
        → (leaves_alone path new ≡ true → at_path path old ≡ undefined)
        → overridden path old new ≡ at_path path new
    overridden-copy path old new u = elim (Bool-cases (leaves_alone path new)) [
      | inl e ↦ rw e (u e ∙ sym (at_path-leaves_alone path new e))
      | inr e ↦ rw e refl
    ]

    nothing_there :
        (path : List Step) (t : Fields)
        → leaves_alone path (obj t) ≡ true
        → at_path path (obj end) ≡ undefined
    nothing_there [] t e = cc
    nothing_there (at_key k ∷ path) t e = at_path_undefined path
    nothing_there (at_index i ∷ path) t e = at_path_undefined path

    -- The clone has what the theme has.
    clone-lem :
        (path : List Step) (t : Fields)
        → is_settled path (obj t) ≡ true
        → (s : Fields) × (h.deep_extend (h.deep_extend (obj end) (obj t)) (obj t) ≡ obj s)
          × (at_path path (obj s) ≡ at_path path (obj t))
    clone-lem path t e =
        let (r, first, keys) = d.merge end t in
        let (s, second, more) = d.merge r t in
        let over = at_path-merged h.deep_extend d path in
        let once : at_path path (obj r) ≡ at_path path (obj t) =
          ap (at_path path) (sym first)
          ∙ over (obj end) (obj t) e
          ∙ overridden-copy path (obj end) (obj t) (nothing_there path t) in
        let twice : at_path path (obj s) ≡ at_path path (obj t) =
          ap (at_path path) (sym second)
          ∙ over (obj r) (obj t) e
          ∙ overridden-copy path (obj r) (obj t)
              (λ u. once ∙ at_path-leaves_alone path (obj t) u) in
        (s, ap (λ v. h.deep_extend v (obj t)) first ∙ second, twice)

    pub at_path-extend_undefined :
        (path : List Step) (t : Fields)
        → is_settled path (obj t) ≡ true
        → at_path path (extend h (obj t) undefined) ≡ at_path path (obj t)
    unfolding extend
    at_path-extend_undefined path t e =
        let (s, copied, same) = clone-lem path t e in
        ap (at_path path)
          (d.skip (h.deep_extend (h.deep_extend (obj end) (obj t)) (obj t)) ∙ copied)
        ∙ same

    -- At a path that both settle, the extended theme has the child's value, or its own where the
    -- child leaves it alone.
    pub at_path-extend :
        (path : List Step) (t f : Fields)
        → is_settled path (obj t) ≡ true
        → is_settled path (obj f) ≡ true
        → at_path path (extend h (obj t) (obj f)) ≡ overridden path (obj t) (obj f)
    unfolding extend
    at_path-extend path t f e g =
        let (s, copied, same) = clone-lem path t e in
        ap (λ v. at_path path (h.deep_extend v (obj f))) copied
        ∙ at_path-merged h.deep_extend d path (obj s) (obj f) g
        ∙ ap (λ v. if leaves_alone path (obj f) then v else at_path path (obj f)) same

    -- The theme of a metric is the extended one where it is customised.
    extended_from-cases :
        (name : Text) (customs : Fields)
        → all_fields is_object customs ≡ true
        → ((get name customs ≡ undefined) × (get name (extended_from h customs) ≡ undefined))
          ⊎ ((f : Fields) × (get name customs ≡ obj f)
              × (get name (extended_from h customs) ≡ extend h (theme h) (obj f)))
    extended_from-cases name end a = inl (refl, refl)
    extended_from-cases name (field k v rest) a = elim (Bool-cases (eq_text k name)) [
      | inl e ↦ elim (object-cases v) [
        | inl (f, o) ↦ rw (e, o) (inr (f, refl, refl))
        | inr (n, o) ↦ absurd (ground arith)
      ]
      | inr e ↦ rw e (extended_from-cases name rest (ground arith))
    ]

    customisations-objects : (n : ℕ → ℕ) → all_fields is_object (customisations n) ≡ true
    customisations-objects n = refl

    extend-object : (f g : Fields) → (r : Fields) × (extend h (obj f) (obj g) ≡ obj r)
    unfolding extend
    extend-object f g =
        let (r, first, keys) = d.merge end f in
        let (s, second, more) = d.merge r f in
        let (t, third, last) = d.merge s g in
        (
          t,
          ap (λ v. h.deep_extend (h.deep_extend v (obj f)) (obj g)) first
              ∙ ap (λ v. h.deep_extend v (obj g)) second
              ∙ third,
        )

    -- A metric has the theme of all charts, or what extends it by its customisation.
    theme_of-cases :
        (name : Text)
        → is_inherited name ≡ false
        → ((custom_of name ≡ undefined) × (theme_of h name ≡ theme h))
          ⊎ ((f : Fields) × (custom_of name ≡ obj f)
              × (theme_of h name ≡ extend h (theme h) (obj f)))
    unfolding theme_of
    theme_of-cases name own = elim (extended_from-cases name customs (customisations-objects n)) [
      | inl (u, v) ↦ inl (u, rw (own, v) refl)
      | inr (f, u, v) ↦
          let (r, o) = extend-object (theme_fields h) f in inr (f, u, rw (own, v, o) refl)
    ]
      where
        n : ℕ → ℕ
        n k = h.decimal (pos k) 0

        customs : Fields
        customs = customisations n

    end-is_settled :
        (path : List Step) (t : Fields)
        → is_settled path (obj t) ≡ true
        → is_settled path (obj end) ≡ true
    end-is_settled [] t e = cc
    end-is_settled (at_key k ∷ path) t e = ground (arith, leaves_alone_undefined path)
    end-is_settled (at_index i ∷ path) t e = e

    -- What extends settled objects is settled.
    pub extend-is_settled :
        (path : List Step) (t f : Fields)
        → is_settled path (obj t) ≡ true
        → is_settled path (obj f) ≡ true
        → is_settled path (extend h (obj t) (obj f)) ≡ true
    unfolding extend
    extend-is_settled path t f e g =
        let (r, first, keys) = d.merge end t in
        let (s, second, more) = d.merge r t in
        let over = is_settled-merged h.deep_extend d path in
        let once : is_settled path (obj r) ≡ true =
          ap (is_settled path) (sym first) ∙ over (obj end) (obj t) (end-is_settled path t e) e in
        let twice : is_settled path (obj s) ≡ true =
          ap (is_settled path) (sym second) ∙ over (obj r) (obj t) once e in
        ap (λ v. is_settled path (h.deep_extend (h.deep_extend v (obj t)) (obj f))) first
        ∙ ap (λ v. is_settled path (h.deep_extend v (obj f))) second
        ∙ over (obj s) (obj f) twice g

    -- With `$.extend` as it is documented, and a name that objects do not inherit: at each path at
    -- which both the theme of all charts and the customisation of the metric have a leaf (a text, a
    -- number, a Boolean, a function or `null`) or leave all alone, the theme of the metric has what
    -- the customisation has, or the theme's where the customisation leaves it alone.
    pub theme_of-overridden :
        (name : Text) (path : List Step)
        → is_inherited name ≡ false
        → is_settled path (theme h) ≡ true
        → is_settled path (custom_of name) ≡ true
        → at_path path (theme_of h name) ≡ overridden path (theme h) (custom_of name)
    theme_of-overridden name path own e g = elim (theme_of-cases name own) [
      | inl (u, v) ↦ rw (u, v, leaves_alone_undefined path) refl
      | inr (f, u, v) ↦
          rw (u, v) (at_path-extend path (theme_fields h) f e (ap (is_settled path) (sym u) ∙ g))
    ]

    pub theme_of-is_settled :
        (name : Text) (path : List Step)
        → is_inherited name ≡ false
        → is_settled path (theme h) ≡ true
        → is_settled path (custom_of name) ≡ true
        → is_settled path (theme_of h name) ≡ true
    theme_of-is_settled name path own e g = elim (theme_of-cases name own) [
      | inl (u, v) ↦ rw v e
      | inr (f, u, v) ↦
          rw v (extend-is_settled path (theme_fields h) f e (ap (is_settled path) (sym u) ∙ g))
    ]
