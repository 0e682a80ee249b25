-- ===== src/Scope/Title/Themes.antt =====
-- The titles of the themes of evaluation/src/site/resources/analysis/scripts/theme.js and
-- metric_themes.js, and what `extend` makes of them.
use shabdiz.Prelude.{ℕ, ◌≡◌, refl, ◌⊎◌, inl, inr, Bool, true, false}
use shabdiz.Prelude.Int.{pos}
use shabdiz.Text.{Text, codes}
use shabdiz.Util.Groups.{is_inherited}
use shabdiz.Value.{Value, undefined, null, bool, num, str, fn, arr, obj, Fields, get, Host}
use shabdiz.Value.Extend.{IsDeepExtend, merged, fields_of}
use shabdiz.Theme.{extend}
use shabdiz.Metrics.{customisations, theme_of}
use shabdiz.Metrics.Kept.{
  Has, MayHave, IsKept, all_fields, on_field, on_field_sound, extend-Has, theme_of-Has,
}
use shabdiz.Query.Matches.{Scenario}

-- A text, or an object whose `text` is `null`.
abbrev pub IsSilent : Value → Type 0
IsSilent v =
    ((t : Text) × (v ≡ str t)) ⊎ ((g : Fields) × (v ≡ obj g) × (get (codes "text") g ≡ null))

-- What may be put in the place of such a title.
abbrev pub MayBeSilent : Value → Type 0
MayBeSilent v = (v ≡ undefined) ⊎ IsSilent v

abbrev pub IsTitled : Value → Type 0
IsTitled = Has (codes "title") IsSilent

-- What an object with a title may be extended with.
abbrev pub IsChild : Value → Type 0
IsChild = MayHave (codes "title") MayBeSilent

-- The customisation of every metric has a text for a title, or none.
abbrev is_named : Value → Bool
is_named undefined = true
is_named (str t) = true
is_named _ = false

is_named_sound : (t : Value) → is_named t ≡ true → MayBeSilent t
is_named_sound undefined e = inl refl
is_named_sound (str t) e = inr (inl (t, refl))
is_named_sound null e = cc
is_named_sound (bool b) e = cc
is_named_sound (num n) e = cc
is_named_sound (fn f) e = cc
is_named_sound (arr xs) e = cc
is_named_sound (obj g) e = cc

customisations-named :
    (n : ℕ → ℕ) → all_fields (on_field (codes "title") is_named) (customisations n) ≡ true
customisations-named n = refl

module _ (h : Host Scenario) (d : IsDeepExtend (h.deep_extend)) where
  merged-IsSilent : (old new : Value) → IsSilent new → IsSilent (merged h.deep_extend old new)
  merged-IsSilent old new (inl (t, e)) = rw e (inl (t, refl))
  merged-IsSilent old new (inr (g, e, n)) =
      let (r, eq, keys) = d.merge (fields_of old) g in
      rw (e, eq) (inr (r, refl, rw (keys (codes "text"), n) refl))

  merged-MayBeSilent :
      (old new : Value) → IsSilent old → MayBeSilent new → IsSilent (merged h.deep_extend old new)
  merged-MayBeSilent old new s (inl e) = rw e s
  merged-MayBeSilent old new s (inr t) = merged-IsSilent old new t

  IsSilent-kept : IsKept h.deep_extend IsSilent MayBeSilent
  IsSilent-kept = record {
    copied = λ new s. merged-IsSilent undefined new s;
    step = merged-MayBeSilent;
    again = λ new s. inr s;
  }

  pub theme-IsTitled :
      (this child : Value) → IsTitled this → IsChild child → IsTitled (extend h this child)
  theme-IsTitled = extend-Has h d (codes "title") IsSilent MayBeSilent IsSilent-kept

  pub theme_of-IsTitled : (name : Text) → is_inherited name ≡ false → IsTitled (theme_of h name)
  theme_of-IsTitled name =
      theme_of-Has h d (codes "title") IsSilent MayBeSilent IsSilent-kept (inr (_, refl, refl))
        (on_field (codes "title") is_named)
        (on_field_sound (codes "title") is_named MayBeSilent is_named_sound) name
        (customisations-named (λ n. h.decimal (pos n) 0))
