-- ===== src/Page/Bookmark.antt =====
-- Bookmarks from end to end: the page that scope.js, query.js and main.js of
-- evaluation/src/site/resources/analysis/scripts open, the events of action.js, and the address that
-- they leave, opened once more.
use shabdiz.Prelude.{◌≡◌, refl, sym, ◌∙◌, true, false, List, [], ◌∷◌, some, All, arith}
use shabdiz.Prelude.Result.{returns, Result, ok}
use shabdiz.Text.{Text, Lacks, codes, eq_text, trim}
use shabdiz.Value.{Host}
use shabdiz.Value.Extend.{IsDeepExtend}
use shabdiz.Value.Sort.{IsSort}
use shabdiz.Query.{encode}
use shabdiz.Query.Reload.{initial-IsSound}
use shabdiz.Query.Matches.{Scenario}
use shabdiz.Page.{Page, Done, ◌>>=◌, start, metric_clicked, filter_checked, data_type_changed}
use shabdiz.Page.Updates.{address}
use shabdiz.Page.Sound.{
  Event, metric_click, filter_check, data_type_change, handle, IsValidEvent, PageIsSound,
  handle-Bookmarked,
}
use shabdiz.Page.Spec.{run}
use shabdiz.Page.Loading.{loaded, session, IsFresh, opened-IsFresh}
use shabdiz.Page.Outcome.Current.{last_set, chart_of, title_of}
use shabdiz.Page.Outcome.Handlers.{handle-IsCurrent}
use shabdiz.Page.Outcome.Throws.{lacks_update}
use shabdiz.Page.Outcome.Events.{handle-is_error}
use shabdiz.Page.Outcome.Reopen.{KeepsTables, update-tables, start-encode}

overtime-Lacks : Lacks b'_' (codes "overtime")
overtime-Lacks = (
  omega arith,
  (
    omega arith,
    (omega arith, (omega arith, (omega arith, (omega arith, (omega arith, (omega arith, tt)))))),
  ),
)

IsFresh-PageIsSound : {h : Host Scenario} (p : Page) → IsFresh h p → PageIsSound p
IsFresh-PageIsSound p e =
    rw (e.query, e.data_type) (initial-IsSound (codes "overtime") overtime-Lacks)

module _ (h : Host Scenario) where
  pub handle-tables : (e : Event) (p : Page) → KeepsTables h p (handle h e p)
  unfolding metric_clicked filter_checked data_type_changed ◌>>=◌
  handle-tables (metric_click index) p = update-tables h _
  handle-tables (filter_check checked index d) p = update-tables h _
  handle-tables (data_type_change value) p = update-tables h _

  pub run-tables :
      (es : List Event) (p : Page)
      → ((run h es p).metrics ≡ p.metrics) × ((run h es p).scenarios ≡ p.scenarios)
  unfolding run
  run-tables [] p = (refl, refl)
  run-tables (e ∷ es) p =
      let (m, s) = handle-tables e p in
      let (n, t) = run-tables es (handle h e p).0 in (n ∙ m, t ∙ s)

  run-PageIsSound :
      (es : List Event) (p : Page) → All IsValidEvent es → PageIsSound p → PageIsSound (run h es p)
  unfolding run
  run-PageIsSound [] p v s = s
  run-PageIsSound (e ∷ es) p (v, vs) s =
      run-PageIsSound es (handle h e p).0 vs (handle-Bookmarked h e p v s).0

  -- What is opened shows what the page has shown.
  pub record ShowsAgain (p : Page) (opened : Page × Result Done) : Type 0 where
    pub returns : opened.1 ≡ ok tt
    pub matches : opened.0.matches ≡ p.matches
    pub chart : last_set chart_of opened.0.effects ≡ last_set chart_of p.effects
    pub title : last_set title_of opened.0.effects ≡ last_set title_of p.effects

  -- With `$.extend` as it is documented and a sort that rearranges: the page is loaded, opened at
  -- a blank address, and goes through valid events (clicks on metrics and boxes whose indices are
  -- `NaN` or below 2 ^ 53 in size, those of boxes not negative, and buttons whose values have no
  -- underscore), whether or not their handlers throw, and one more. If the page that this leaves
  -- has a metric that is in range and has no name that objects inherit, and its scenarios can be
  -- matched and their chart can be made, then the last handler has returned, and the address holds
  -- a text at which the page, loaded afresh, opens without an error and has the same matches,
  -- chart and title.
  pub session-ShowsAgain :
      (d : IsDeepExtend (h.deep_extend)) (sorts : IsSort (h.sort)) (hash : Text) (es : List Event)
      (e : Event)
      → eq_text (trim hash) [] ≡ true
      → All IsValidEvent es
      → IsValidEvent e
      → lacks_update h (handle h e (session h hash es)).0 ≡ false
      → ((handle h e (session h hash es)).1 ≡ ok tt)
        × ((link : Text) × (address (handle h e (session h hash es)).0.effects ≡ some link)
            × ShowsAgain (handle h e (session h hash es)).0 (start h link (loaded h)))
  session-ShowsAgain d sorts hash es e blank vs v complete =
      let opened = (start h hash (loaded h)).0 in
      let fresh = opened-IsFresh h hash blank in
      let before = session h hash es in
      let p = (handle h e before).0 in
      let (u, made) = returns (handle-is_error h d sorts e before ∙ complete) in
      let sound = run-PageIsSound es opened vs (IsFresh-PageIsSound opened fresh) in
      let (kept, linked) = handle-Bookmarked h e before v sound in
      let (m, s) = handle-tables e before in
      let (n, t) = run-tables es opened in
      let (returned, found, chart, title) =
        start-encode h d sorts p (loaded h) (handle-IsCurrent h d e before made) kept.query
          kept.data_type (sym (m ∙ n ∙ fresh.metrics)) (sym (s ∙ t ∙ fresh.scenarios)) in
      (
        made,
        (
          encode p.query p.data_type,
          linked,
          record { returns = returned; matches = found; chart = chart; title = title },
        ),
      )
