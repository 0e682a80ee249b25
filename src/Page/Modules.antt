-- ===== src/Page/Modules.antt =====
-- evaluation/src/site/resources/analysis/scripts/main.js: what it tells the module
-- loader, and what the scripts beside it ask of it.
use shabdiz.Prelude.{
  ◌≡◌, refl, ℕ, Bool, true, ◌&&◌, List, [], ◌∷◌, ◌++◌, ◌+◌, ◌<◌, ltb, ltb→lt, map, if◌then◌else◌,
  In, inl, inr, Bool-cases, arith,
}
use shabdiz.Text.{Text, codes, eq_text, eq_text→eq}

-- `require.config`: the seconds to wait, the folder, the paths, and the dependencies of the
-- libraries that are no modules.
pub record Config : Type 0 where
  pub wait_seconds : ℕ
  pub base_url : Text
  pub paths : List (Text × Text)
  pub shim : List (Text × List Text)

abbrev pub config : Config
config = record {
  wait_seconds = 30;
  base_url = codes "scripts";
  paths =
      (codes "jquery", codes "lib/jquery-1.11.0")
      ∷ (codes "mark", codes "lib/markup-1.5.18")
      ∷ (codes "json", codes "lib/json")
      ∷ (codes "bootstrap", codes "lib/bootstrap-3.1.1")
      ∷ (codes "highcharts", codes "lib/highcharts-4.0.1/highcharts")
      ∷ (codes "highcharts_more", codes "lib/highcharts-4.0.1/highcharts-more")
      ∷ (codes "highcharts_exporting", codes "lib/highcharts-4.0.1/modules/exporting")
      ∷ (codes "highcharts_3d", codes "lib/highcharts-4.0.1/highcharts-3d")
      ∷ (codes "highcharts_csv", codes "lib/highcharts-4.0.1/modules/export-csv")
      ∷ (
        codes "highcharts_draggable_legend",
        codes "lib/highcharts-4.0.1/modules/draggable-legend-box",
      )
      ∷ (codes "papa", codes "lib/papaparse.min")
      ∷ (codes "jstat", codes "lib/jstat.min")
      ∷ [];
  shim =
      (codes "bootstrap", codes "jquery" ∷ [])
      ∷ (codes "papa", codes "jquery" ∷ [])
      ∷ (codes "highcharts", codes "jquery" ∷ [])
      ∷ (codes "highcharts_more", codes "jquery" ∷ codes "highcharts" ∷ [])
      ∷ (codes "highcharts_exporting", codes "jquery" ∷ codes "highcharts" ∷ [])
      ∷ (codes "highcharts_3d", codes "jquery" ∷ codes "highcharts" ∷ [])
      ∷ (codes "highcharts_csv", codes "jquery" ∷ codes "highcharts" ∷ [])
      ∷ (codes "highcharts_draggable_legend", codes "jquery" ∷ codes "highcharts" ∷ [])
      ∷ [];
}

-- The modules that the start of the page requires.
abbrev pub required : List Text
required =
    codes "jquery"
    ∷ codes "scope"
    ∷ codes "util"
    ∷ codes "query"
    ∷ codes "action"
    ∷ codes "mark"
    ∷ codes "bootstrap"
    ∷ codes "highcharts"
    ∷ codes "highcharts_more"
    ∷ codes "highcharts_exporting"
    ∷ codes "highcharts_3d"
    ∷ codes "highcharts_csv"
    ∷ codes "highcharts_draggable_legend"
    ∷ []

-- The dependencies of a library, by the first entry for it.
abbrev pub dependencies_in : List (Text × List Text) → Text → List Text
dependencies_in [] name = []
dependencies_in ((library, deps) ∷ rest) name =
    if eq_text library name then deps else dependencies_in rest name

-- What the scripts ask for in their `define`.
abbrev pub theme_dependencies : List Text
theme_dependencies = codes "jquery" ∷ []

abbrev pub util_dependencies : List Text
util_dependencies = codes "jquery" ∷ codes "json" ∷ []

abbrev pub metric_themes_dependencies : List Text
metric_themes_dependencies = codes "theme" ∷ codes "util" ∷ []

abbrev pub scope_dependencies : List Text
scope_dependencies =
    codes "jquery" ∷ codes "util" ∷ codes "theme" ∷ codes "metric_themes" ∷ codes "highcharts" ∷ []

abbrev pub query_dependencies : List Text
query_dependencies = codes "jquery" ∷ codes "scope" ∷ codes "util" ∷ []

abbrev pub action_dependencies : List Text
action_dependencies = codes "query" ∷ codes "scope" ∷ []

-- The scripts of the page, and what each asks for.
abbrev pub scripts : List (Text × List Text)
scripts =
    (codes "theme", theme_dependencies)
    ∷ (codes "util", util_dependencies)
    ∷ (codes "metric_themes", metric_themes_dependencies)
    ∷ (codes "scope", scope_dependencies)
    ∷ (codes "query", query_dependencies)
    ∷ (codes "action", action_dependencies)
    ∷ (codes "main", required)
    ∷ []

-- What a module asks for: a library by its entry in the configuration, a script by its `define`.
abbrev pub dependencies : Text → List Text
dependencies = dependencies_in (config.shim ++ scripts)

-- An order of all modules: the libraries as the configuration lists them, then the scripts.
abbrev pub load_order : List Text
load_order = map (λ p. p.0) config.paths ++ map (λ p. p.0) scripts

-- The place of a module in it, its length for one that is not there.
abbrev place_in : Text → List Text → ℕ
place_in name [] = 0
place_in name (t ∷ ts) = if eq_text t name then 0 else 1 + place_in name ts

abbrev pub place : Text → ℕ
place name = place_in name load_order

abbrev all_listed : (Text → Bool) → List Text → Bool
all_listed test [] = true
all_listed test (t ∷ ts) = test t && all_listed test ts

abbrev all_tables : (Text → Text → Bool) → List (Text × List Text) → Bool
all_tables test [] = true
all_tables test ((library, deps) ∷ rest) = all_listed (test library) deps && all_tables test rest

all_listed-In :
    (test : Text → Bool) (ts : List Text) (t : Text)
    → all_listed test ts ≡ true
    → In t ts
    → test t ≡ true
all_listed-In test [] t a i = absurd i
all_listed-In test (s ∷ ts) t a (inl e) = rw (← e) (ground arith)
all_listed-In test (s ∷ ts) t a (inr i) = all_listed-In test ts t (ground arith) i

all_tables-In :
    (test : Text → Text → Bool) (table : List (Text × List Text)) (name dep : Text)
    → all_tables test table ≡ true
    → In dep (dependencies_in table name)
    → test name dep ≡ true
all_tables-In test [] name dep a = λ i. absurd i
all_tables-In test ((library, deps) ∷ rest) name dep a = elim (Bool-cases (eq_text library name)) [
  | inl e ↦
      rw (e, ← eq_text→eq library name e)
        (λ i. all_listed-In (test library) deps dep (ground arith) i)
  | inr e ↦ rw e (λ i. all_tables-In test rest name dep (ground arith) i)
]

-- Every module that a library or a script asks for stands before it in one order of all modules:
-- none is missing, and none waits for itself.
pub dependencies-first : (name dep : Text) → In dep (dependencies name) → place dep < place name
dependencies-first name dep i =
    ltb→lt (place dep) (place name)
      (all_tables-In (λ n k. ltb (place k) (place n)) (config.shim ++ scripts) name dep refl i)
