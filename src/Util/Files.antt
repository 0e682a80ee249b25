-- ===== src/Util/Files.antt =====
-- evaluation/src/site/resources/analysis/scripts/util.js: the paths of results and `read`. The
-- request is the parameter `fetch`, which gives a status and a text.
use shabdiz.Prelude.{ℕ, [], ◌++◌, ◌==◌, if◌then◌else◌}
use shabdiz.Text.{Text, codes}

abbrev pub results_path : Text
results_path = codes "../../../../../results/"

unfoldable pub scenario_json_path : Text → Text
scenario_json_path scenario_name = results_path ++ (scenario_name ++ codes "/scenario.json")

unfoldable pub repetitions_json_path : Text → Text
repetitions_json_path scenario_name =
    results_path ++ (scenario_name ++ codes "/repetitions/repetitions.json")

unfoldable pub analysis_path : Text → Text → Text
analysis_path scenario_name file_name =
    results_path ++ (scenario_name ++ (codes "/analysis/" ++ file_name))

-- A request that does not succeed reads as the empty text; what is logged is left out.
unfoldable pub read : (Text → ℕ × Text) → Text → Text
read fetch url = if (fetch url).0 == 200 then (fetch url).1 else []

-- `readAsJSON`, with the parser of jQuery for a parameter.
unfoldable pub read_as_json : {V : Type 0} → (Text → V) → (Text → ℕ × Text) → Text → V
unfolding read
read_as_json parse_json fetch url = parse_json (read fetch url)
