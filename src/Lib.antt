-- ===== src/Lib.antt =====
-- The dashboard of Shabdiz's evaluation: the scripts under
-- evaluation/src/site/resources/analysis/scripts, which show the results of experiments as charts.
--
-- The page keeps a query: the index of a metric and, for seven properties of scenarios, the indices
-- of the selected labels. The user's clicks change the query (action.js), `update` (query.js) writes
-- it into the address, finds the matching scenarios and has the renderer (scope.js) draw a chart of
-- them. The renderer reads one file of results for each scenario, makes points and series of its
-- rows, and extends the theme of the chosen metric (theme.js, metric_themes.js). util.js has the
-- helpers on arrays, texts, colours, units and paths that all of them use. main.js fills the page
-- from the address at its start.
--
-- - Query.antt: the query, `encode` and `decode` of query.js. Query/RoundTrip.antt and
--   Query/Reload.antt: reading the address back.
-- - Query/Matches.antt: `matches` of query.js, with its filters; Query/Matches/Reference.antt: an
--   independent description of it.
-- - Page.antt: `init` and `update` of query.js, the handlers of action.js and the start of main.js,
--   as steps on a page that return or throw and leave effects on the document in a list.
--   Page/Updates.antt: what `update` keeps; Page/Outcome.antt: what it does on every branch, with
--   Page/Outcome/Throws.antt, Page/Outcome/Events.antt and Page/Outcome/Start.antt: where it, the
--   handlers and the start throw, and Page/Outcome/Current.antt and Page/Outcome/Handlers.antt:
--   what the page shows where they return. Page/Outcome/Alike.antt and Page/Outcome/Reopen.antt: a
--   page opened at another one's address. Page/Sound.antt and Page/Sound/Filters.antt: sequences of
--   events, and the selections; Page/Spec.antt: what a page promises of its query, as sets of
--   indices, and that it keeps it; Page/Restore.antt: opening the page at an address;
--   Page/Loading.antt: the page as scope.js and query.js load it, and a session from there;
--   Page/Bookmark.antt: a session and its address, from end to end; Page/Charted.antt: a session
--   and the chart that it ends with. Page/Resizing.antt and Page/Resizing/Settled.antt: the
--   handlers of the window's resize in main.js with their timer; Page/Modules.antt: the
--   configuration of the module loader there, and what each script asks for in its `define`.
-- - Scope.antt, Scope/Points.antt, Scope/Series.antt: `renderer` of scope.js, its points and its
--   series; the bodies that scope.js repeats for its kinds of data are one definition with a record
--   (`Pass`) of what differs. Scope/Series/Linked.antt: names, links, colours and points of series;
--   Scope/Series/Complete.antt: that a chart over groups shows every scenario once;
--   Scope/Series/Ordered.antt: the order of its points; Scope/Configured.antt: what stands in the
--   chart that is drawn; Scope/Drawn.antt: the series there, with Scope/Drawn/Blank.antt: what the
--   themes have in their place, Scope/Drawn/Turns.antt, Scope/Drawn/Complete.antt and
--   Scope/Drawn/Ordered.antt: the series of groups, and Scope/Drawn/Lines.antt: those over time;
--   Scope/Returns/Conversions.antt: the conversion that its values go through; Scope/Title.antt and
--   its children: the title, and the method of a theme that extends it; Scope/Returns.antt,
--   Scope/Returns/Loops.antt and Scope/Returns/Tables.antt: where the renderer throws.
-- - Theme.antt, Metrics.antt and its children: theme.js and metric_themes.js, every customisation;
--   Metrics/Kept.antt: what every theme keeps from the theme of all charts; Metrics/Override.antt:
--   what it has at a path of keys and indices.
-- - Util/Alphanum.antt: `alphanum` and the comparator of `sortBy`; Util/Groups.antt: `groupBy` and
--   the order of `Object.keys`, with Util/Groups/Members.antt: the elements of all groups;
--   Util/Arrays.antt, Util/HashCode.antt, Util/Strings.antt, Util/Color.antt, Util/Convert.antt,
--   Util/Files.antt, Util/Layout.antt, Util/Distance.antt: the other helpers of util.js. The
--   conversions of numbers that themes call stand in Scope/Points.antt. Util/Convert/Fields.antt:
--   which fields the texts of Util/Convert.antt cannot do without. Each has its laws in a child
--   module where they are many, as Util/Alphanum/Natural.antt has the order of labels with a
--   number, and Util/Alphanum/Plain.antt with its child and Util/Alphanum/Total.antt that of labels
--   of words and numbers, which Util/Alphanum/Tokens.antt describes directly.
--   Util/Alphanum/Loop.antt has the loop of `chunkify` with its index and its array, on fuel.
-- - Value.antt: the values that themes and rows are made of, and the host. Value/Extend.antt: what
--   is documented of `$.extend`; Value/Sort.antt: what is relied on of the array's sort;
--   Value/Paths.antt and Value/Paths/Merge.antt: what a merge puts at a path;
--   Value/Paths/Outline.antt: what it copies. Prelude.antt and Text.antt: shared notation, lists,
--   integers, results, rearranged lists (Prelude/Perms.antt), texts as lists of character codes,
--   and numbers as they are printed and read.
-- - Tests.antt and its children: runs on concrete pages, charts and texts.
--
-- Taken from outside, as the record `Host` of Value.antt: jQuery's `$.extend` (where a result rests
-- on it, `IsDeepExtend` says what its documentation promises), Papa Parse, the synchronous request,
-- the array's sort (`IsSort`: it rearranges; `IsOrderedSort`: it orders by a comparator that is
-- consistent on the elements), and arithmetic on doubles, which are bit patterns here. The records
-- `Printing` of Util/Convert.antt and `Doubles` of Util/Distance.antt are what those two take: how
-- doubles are compared and printed, `JSON.stringify`, and the arithmetic with the square root.
--
-- Bounds: the loop of `chunkify` in Util/Alphanum/Loop.antt takes fuel above the length of the
-- text, which is enough; indices and metrics are exact integers or `NaN`, which the doubles of the
-- page are too below 2 ^ 53 in size, so that what is proved of printing a number and reading it
-- back has that bound, and minus zero is zero; printing a number takes fuel above its value, which
-- is enough since a division by ten shortens it each time; `hashCode` wraps to 32 bits as the
-- source does; percentages of `increaseBrightness` are whole; `alphanum` compares the numbers in
-- its chunks exactly, where the source rounds them to doubles, so that what is proved of the order
-- of numbers has the bound 2 ^ 53 too. Upper and lower case and the class `\w` are those of ASCII.
-- A missing property is `none` or `undefined`, and what throws in the source returns an error.
--
-- Not modelled: the third-party scripts under lib, the templates and styles, the logs on the
-- console, and the Java modules of the repository.
pub mod Prelude
pub mod Text
pub mod Util
pub mod Value
pub mod Theme
pub mod Metrics
pub mod Query
pub mod Scope
pub mod Page
pub mod Tests
