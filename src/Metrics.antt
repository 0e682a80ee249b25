-- ===== src/Metrics.antt =====
-- evaluation/src/site/resources/analysis/scripts/metric_themes.js: what each metric changes of the
-- theme, and the extended themes.
pub mod Lookups
pub mod Failures
pub mod Resources
pub mod Maintenance
pub mod Kept
pub mod Override
use shabdiz.Prelude.{ℕ, if◌then◌else◌}
use shabdiz.Prelude.Int.{pos}
use shabdiz.Text.{Text}
use shabdiz.Util.Groups.{is_inherited}
use shabdiz.Value.{Value, fn, builtin, Fields, end, field, get, is_nullish, Host}
use shabdiz.Theme.{theme, extend}

-- `customisations`; the argument gives the double of a whole number.
abbrev pub customisations : (ℕ → ℕ) → Fields
customisations n =
    Lookups.themes n (Failures.themes n (Resources.themes n (Maintenance.themes n end)))

module _ {A : Type 0} (h : Host A) where
  -- The loop that fills `extended_themes`.
  abbrev pub extended_from : Fields → Fields
  extended_from end = end
  extended_from (field key custom rest) = field key (extend h (theme h) custom) (extended_from rest)

  abbrev pub extended_themes : Fields
  extended_themes = extended_from (customisations (λ n. h.decimal (pos n) 0))

  -- `metric_themes[name]`, or the theme of all charts where that is `undefined`.
  unfoldable pub theme_of : Text → Value
  theme_of name =
      let own = get name extended_themes in
      if is_inherited name then fn builtin else if is_nullish own then theme h else own
