-- ===== src/Metrics/Kept.antt =====
-- What `extend` keeps of the property of a theme: one argument for all themes of
-- evaluation/src/site/resources/analysis/scripts/theme.js and metric_themes.js.
use shabdiz.Prelude.{◌≡◌, refl, ◌⊎◌, inl, inr, Bool, true, false, ◌&&◌, Bool-cases, arith}
use shabdiz.Prelude.Int.{pos}
use shabdiz.Text.{Text, eq_text}
use shabdiz.Util.Groups.{is_inherited}
use shabdiz.Value.{
  Value, undefined, null, bool, num, str, fn, arr, obj, Fields, end, field, get, Host, builtin,
}
use shabdiz.Value.Extend.{IsDeepExtend, merged}
use shabdiz.Theme.{theme, theme_fields, extend}
use shabdiz.Metrics.{customisations, extended_from, theme_of}

-- An object whose property is so.
abbrev pub Has : Text → (Value → Type 0) → Value → Type 0
Has key P v = (f : Fields) × (v ≡ obj f) × P (get key f)

-- `undefined`, or such an object.
abbrev pub MayHave : Text → (Value → Type 0) → Value → Type 0
MayHave key Q v = (v ≡ undefined) ⊎ Has key Q v

-- A property `P` of values that merging keeps where the new value is `Q`.
pub record IsKept (ext : Value → Value → Value) (P Q : Value → Type 0) : Type 0 where
  pub copied : (new : Value) → P new → P (merged ext undefined new)
  pub step : (old new : Value) → P old → Q new → P (merged ext old new)
  pub again : (new : Value) → P new → Q new

abbrev pub all_fields : (Value → Bool) → Fields → Bool
all_fields test end = true
all_fields test (field k v rest) = test v && all_fields test rest

module _ {A : Type 0} (h : Host A) (d : IsDeepExtend (h.deep_extend)) (key : Text)
    (P Q : Value → Type 0) (kept : IsKept h.deep_extend P Q) where
  extended-Has :
      (this child : Value)
      → Has key P this
      → MayHave key Q child
      → Has key P (h.deep_extend this child)
  extended-Has this child (f, e, p) (inl u) = rw (e, u, d.skip (obj f)) (f, refl, p)
  extended-Has this child (f, e, p) (inr (c, u, q)) =
      let (r, eq, keys) = d.merge f c in rw (e, u, eq) (r, refl, rw (keys key) (kept.step _ _ p q))

  pub extend-Has :
      (this child : Value) → Has key P this → MayHave key Q child → Has key P (extend h this child)
  unfolding extend
  extend-Has this child (f, e, p) q =
      let (r, eq, keys) = d.merge end f in
      let clone : Has key P (h.deep_extend (obj end) this) =
        rw (e, eq) (r, refl, rw (keys key) (kept.copied _ p)) in
      extended-Has _ child (extended-Has _ this clone (inr (f, e, kept.again _ p))) q

  module _ (base : P (get key (theme_fields h))) (test : Value → Bool)
      (sound : (v : Value) → test v ≡ true → MayHave key Q v) where
    extended_from-Has :
        (name : Text) (customs : Fields)
        → all_fields test customs ≡ true
        → MayHave key P (get name (extended_from h customs))
    extended_from-Has name end a = inl refl
    extended_from-Has name (field k v rest) a = elim (Bool-cases (eq_text k name)) [
      | inl e ↦
          rw e (inr (extend-Has (theme h) v (theme_fields h, refl, base) (sound v (ground arith))))
      | inr e ↦ rw e (extended_from-Has name rest (ground arith))
    ]

    -- Every theme but an inherited function is an object whose property is so.
    pub theme_of-Has :
        (name : Text)
        → all_fields test (customisations (λ n. h.decimal (pos n) 0)) ≡ true
        → is_inherited name ≡ false
        → Has key P (theme_of h name)
    unfolding theme_of
    theme_of-Has name all new =
        elim (extended_from-Has name (customisations (λ n. h.decimal (pos n) 0)) all) [
          | inl u ↦ rw (new, u) (theme_fields h, refl, base)
          | inr (f, u, p) ↦ rw (new, u) (f, refl, p)
        ]

pub theme_of_inherited :
    {A : Type 0} (h : Host A) (name : Text)
    → is_inherited name ≡ true
    → theme_of h name ≡ fn builtin
unfolding theme_of
theme_of_inherited h name e = rw e refl

-- A test of the property of an object.
abbrev pub on_field : Text → (Value → Bool) → Value → Bool
on_field key test (obj f) = test (get key f)
on_field key test _ = false

pub on_field_sound :
    (key : Text) (test : Value → Bool) (Q : Value → Type 0)
    → ((v : Value) → test v ≡ true → Q v)
    → (v : Value) → on_field key test v ≡ true
    → MayHave key Q v
on_field_sound key test Q sound (obj f) h = inr (f, refl, sound (get key f) h)
on_field_sound key test Q sound undefined h = cc
on_field_sound key test Q sound null h = cc
on_field_sound key test Q sound (bool b) h = cc
on_field_sound key test Q sound (num n) h = cc
on_field_sound key test Q sound (str t) h = cc
on_field_sound key test Q sound (fn f) h = cc
on_field_sound key test Q sound (arr xs) h = cc
