-- ===== src/Util/Layout.antt =====
-- evaluation/src/site/resources/analysis/scripts/util.js: `resizeElementHeight`, the height of an
-- element as its style's text. A height that is missing counts as 0, which the tests skip too.
use shabdiz.Prelude.{ℕ, ◌==◌, ◌++◌, if◌then◌else◌}
use shabdiz.Prelude.Int.{ℤ, pos, ◌-ℤ◌}
use shabdiz.Text.{Text, codes}
use shabdiz.Text.Number.{int, show}

-- The heights that the function asks for: of the window, of the body's parent, and of the body.
pub record Heights : Type 0 where
  pub inner : ℕ
  pub parent : ℕ
  pub body : ℕ

unfoldable pub height : Heights → ℕ
height w = if w.inner == 0 then if w.parent == 0 then w.body else w.parent else w.inner

unfoldable pub resize_element_height : Heights → ℤ → Text
unfolding height show
resize_element_height w offset_top =
    show (int ((pos (height w) -ℤ offset_top) -ℤ pos 50)) ++ codes "px"
