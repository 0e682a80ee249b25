-- ===== src/Scope/Returns/Tables.antt =====
-- The tables of conversions of the themes of evaluation/src/site/resources/analysis/scripts/theme.js
-- and metric_themes.js: every theme keeps one that can be used.
use shabdiz.Prelude.{ℕ, ◌≡◌, refl, ◌⊎◌, inl, inr, Bool, true, false}
use shabdiz.Prelude.Int.{pos}
use shabdiz.Prelude.Result.{ok}
use shabdiz.Text.{Text, codes}
use shabdiz.Util.Groups.{is_inherited}
use shabdiz.Value.{
  Value, undefined, null, bool, num, str, fn, arr, obj, Function, builtin, extend_theme, to_percent,
  nanosecond_to_millisecond, byte_to_gigabyte, failure_percent, end, get, Host,
}
use shabdiz.Value.Extend.{IsDeepExtend, merged}
use shabdiz.Metrics.{customisations, theme_of}
use shabdiz.Metrics.Kept.{Has, IsKept, all_fields, on_field, on_field_sound, theme_of-Has}
use shabdiz.Query.Matches.{Scenario}
use shabdiz.Scope.Points.{convert, converted}

-- A function that converts a value.
abbrev converts : Function → Bool
converts builtin = false
converts extend_theme = false
converts _ = true

-- What stands in the place of `convert.y`.
abbrev IsConversion : Value → Type 0
IsConversion v = (v ≡ undefined) ⊎ ((f : Function) × (v ≡ fn f) × (converts f ≡ true))

abbrev IsTable : Value → Type 0
IsTable = Has (codes "y") IsConversion

abbrev MayBeTable : Value → Type 0
MayBeTable v = (v ≡ undefined) ⊎ IsTable v

-- A theme with such a table.
abbrev pub IsConverting : Value → Type 0
IsConverting = Has (codes "convert") IsTable

abbrev is_conversion : Value → Bool
is_conversion undefined = true
is_conversion (fn f) = converts f
is_conversion _ = false

is_conversion_sound : (v : Value) → is_conversion v ≡ true → IsConversion v
is_conversion_sound undefined e = inl refl
is_conversion_sound (fn f) e = inr (f, refl, e)
is_conversion_sound null e = cc
is_conversion_sound (bool b) e = cc
is_conversion_sound (num n) e = cc
is_conversion_sound (str t) e = cc
is_conversion_sound (arr xs) e = cc
is_conversion_sound (obj g) e = cc

abbrev is_table : Value → Bool
is_table undefined = true
is_table (obj g) = is_conversion (get (codes "y") g)
is_table _ = false

is_table_sound : (v : Value) → is_table v ≡ true → MayBeTable v
is_table_sound undefined e = inl refl
is_table_sound (obj g) e = inr (g, refl, is_conversion_sound _ e)
is_table_sound null e = cc
is_table_sound (bool b) e = cc
is_table_sound (num n) e = cc
is_table_sound (str t) e = cc
is_table_sound (fn f) e = cc
is_table_sound (arr xs) e = cc

customisations-tables :
    (n : ℕ → ℕ) → all_fields (on_field (codes "convert") is_table) (customisations n) ≡ true
customisations-tables n = refl

module _ (h : Host Scenario) (d : IsDeepExtend (h.deep_extend)) where
  merged-IsConversion :
      (old new : Value)
      → IsConversion old
      → IsConversion new
      → IsConversion (merged h.deep_extend old new)
  merged-IsConversion old new c (inl u) = rw u c
  merged-IsConversion old new c (inr (f, u, good)) = rw u (inr (f, refl, good))

  merged-IsTable :
      (old new : Value) → IsTable old → MayBeTable new → IsTable (merged h.deep_extend old new)
  merged-IsTable old new t (inl u) = rw u t
  merged-IsTable old new (f, u, c) (inr (g, v, k)) =
      let (r, eq, keys) = d.merge f g in
      rw (v, u, eq) (r, refl, rw (keys (codes "y")) (merged-IsConversion _ _ c k))

  copied-IsTable : (new : Value) → IsTable new → IsTable (merged h.deep_extend undefined new)
  copied-IsTable new (g, v, k) =
      let (r, eq, keys) = d.merge end g in
      rw (v, eq) (r, refl, rw (keys (codes "y")) (merged-IsConversion undefined _ (inl refl) k))

  IsTable-kept : IsKept h.deep_extend IsTable MayBeTable
  IsTable-kept = record { copied = copied-IsTable; step = merged-IsTable; again = λ new t. inr t }

  pub theme_of-IsConverting :
      (name : Text) → is_inherited name ≡ false → IsConverting (theme_of h name)
  theme_of-IsConverting name =
      theme_of-Has h d (codes "convert") IsTable MayBeTable IsTable-kept (_, refl, inl refl)
        (on_field (codes "convert") is_table)
        (on_field_sound (codes "convert") is_table MayBeTable is_table_sound) name
        (customisations-tables (λ n. h.decimal (pos n) 0))

  convert-returns :
      (f : Function) (v : Value) → converts f ≡ true → (w : Value) × (convert h f v ≡ ok w)
  unfolding convert
  convert-returns to_percent v e = (_, refl)
  convert-returns nanosecond_to_millisecond v e = (_, refl)
  convert-returns byte_to_gigabyte v e = (_, refl)
  convert-returns failure_percent v e = (_, refl)
  convert-returns builtin v e = cc
  convert-returns extend_theme v e = cc

  -- A theme with such a table converts every value.
  pub converted-returns :
      (themm v : Value) → IsConverting themm → (w : Value) × (converted h themm v ≡ ok w)
  unfolding converted
  converted-returns themm v (f, a, (g, b, inl c)) = (v, rw (a, b, c) refl)
  converted-returns themm v (f, a, (g, b, inr (y, c, good))) =
      let (w, e) = convert-returns y v good in (w, rw (a, b, c) e)
