-- ===== src/Tests/Bookmarks.antt =====
-- A session that ends in a bookmark.
use mathlib.Core.List.{flat_map}
use shabdiz.Page.Outcome.Throws.{lacks_update}
use shabdiz.Prelude.{◌≡◌, refl, true, false, List, [], ◌∷◌, some, arith}
use shabdiz.Prelude.Int.{pos}
use shabdiz.Prelude.Result.{ok}
use shabdiz.Text.{Text, codes, trim}
use shabdiz.Text.Number.{int, scan, show_ℕ}
use shabdiz.Theme.{extend}
use shabdiz.Metrics.{theme_of}
use shabdiz.Util.Groups.{group_by, object_keys, is_inherited}
use shabdiz.Query.{churn, decode}
use shabdiz.Util.Arrays.{add_if_absent}
use shabdiz.Query.Matches.{matches, labels}
use shabdiz.Scope.{renderer}
use shabdiz.Scope.Series.{over_time}
use shabdiz.Page.{◌>>=◌, render, update, start, metric_clicked, filter_checked}
use shabdiz.Page.Updates.{address}
use shabdiz.Page.Sound.{Event, metric_click, filter_check, handle}
use shabdiz.Page.Spec.{run}
use shabdiz.Page.Loading.{loaded, session}
use shabdiz.Page.Bookmark.{ShowsAgain, session-ShowsAgain}
use shabdiz.Tests.Hosts.{host, deep-IsDeepExtend, host-IsSort}

-- A metric that is out of range, whose handler throws, and a box.
abbrev boxes : List Event
boxes = metric_click (int (pos 2)) ∷ filter_check true (int (pos 0)) churn ∷ []

boxes_complete :
    lacks_update host (handle host (metric_click (int (pos 0))) (session host (codes " ") boxes)).0
    ≡ false
unfolding run start metric_clicked filter_checked update matches labels group_by object_keys scan
    decode loaded renderer over_time theme_of extend render show_ℕ trim ◌>>=◌ is_inherited
    add_if_absent flat_map
boxes_complete = refl

session-ShowsAgain_example :
    ((handle host (metric_click (int (pos 0))) (session host (codes " ") boxes)).1 ≡ ok tt)
    × ((link : Text) × (address
            (handle host (metric_click (int (pos 0))) (session host (codes " ") boxes)).0.effects
          ≡ some link)
        × ShowsAgain host
            (handle host (metric_click (int (pos 0))) (session host (codes " ") boxes)).0
            (start host link (loaded host)))
unfolding trim
session-ShowsAgain_example =
    session-ShowsAgain host deep-IsDeepExtend host-IsSort (codes " ") boxes
      (metric_click (int (pos 0))) refl (omega arith, ((tt, omega arith), tt)) (omega arith)
      boxes_complete
