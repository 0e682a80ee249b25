-- ===== src/Scope/Title/Methods.antt =====
-- The method `extend` of the themes of evaluation/src/site/resources/analysis/scripts/theme.js and
-- metric_themes.js, which every theme keeps.
use shabdiz.Prelude.{ℕ, ◌≡◌, refl, ◌⊎◌, inl, inr, Bool, true, false}
use shabdiz.Prelude.Int.{pos}
use shabdiz.Text.{Text, codes}
use shabdiz.Util.Groups.{is_inherited}
use shabdiz.Value.{Value, undefined, null, bool, num, str, fn, arr, obj, extend_theme, Host}
use shabdiz.Value.Extend.{IsDeepExtend, merged}
use shabdiz.Metrics.{customisations, theme_of}
use shabdiz.Metrics.Kept.{Has, IsKept, all_fields, on_field, on_field_sound, theme_of-Has}
use shabdiz.Query.Matches.{Scenario}

abbrev IsExtend : Value → Type 0
IsExtend v = v ≡ fn extend_theme

abbrev MayBeExtend : Value → Type 0
MayBeExtend v = (v ≡ undefined) ⊎ IsExtend v

abbrev pub IsExtensible : Value → Type 0
IsExtensible = Has (codes "extend") IsExtend

-- No customisation has a method `extend`.
abbrev is_missing : Value → Bool
is_missing undefined = true
is_missing _ = false

is_missing_sound : (v : Value) → is_missing v ≡ true → MayBeExtend v
is_missing_sound undefined e = inl refl
is_missing_sound null e = cc
is_missing_sound (bool b) e = cc
is_missing_sound (num n) e = cc
is_missing_sound (str t) e = cc
is_missing_sound (fn f) e = cc
is_missing_sound (arr xs) e = cc
is_missing_sound (obj g) e = cc

customisations-missing :
    (n : ℕ → ℕ) → all_fields (on_field (codes "extend") is_missing) (customisations n) ≡ true
customisations-missing n = refl

module _ (h : Host Scenario) (d : IsDeepExtend (h.deep_extend)) where
  merged-IsExtend :
      (old new : Value) → IsExtend old → MayBeExtend new → IsExtend (merged h.deep_extend old new)
  merged-IsExtend old new e (inl u) = rw u e
  merged-IsExtend old new e (inr u) = rw u refl

  IsExtend-kept : IsKept h.deep_extend IsExtend MayBeExtend
  IsExtend-kept = record {
    copied = λ new e. rw e refl;
    step = merged-IsExtend;
    again = λ new e. inr e;
  }

  pub theme_of-IsExtensible :
      (name : Text) → is_inherited name ≡ false → IsExtensible (theme_of h name)
  theme_of-IsExtensible name =
      theme_of-Has h d (codes "extend") IsExtend MayBeExtend IsExtend-kept refl
        (on_field (codes "extend") is_missing)
        (on_field_sound (codes "extend") is_missing MayBeExtend is_missing_sound) name
        (customisations-missing (λ n. h.decimal (pos n) 0))
