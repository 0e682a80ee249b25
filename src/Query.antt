-- ===== src/Query.antt =====
-- evaluation/src/site/resources/analysis/scripts/query.js: the selections of the page, written
-- into the address and read back from it.
pub mod RoundTrip
pub mod Reload
pub mod Matches
use shabdiz.Prelude.{
  ℕ, ◌+◌, ◌-◌, List, [], ◌∷◌, ◌++◌, Option, none, some, ◌==◌, if◌then◌else◌, length,
}
use shabdiz.Prelude.Int.{pos}
use shabdiz.Text.{Text, codes, eq_text, split, trim}
use shabdiz.Text.Number.{Number, int, show, parse_int}

-- The properties by which scenarios are filtered.
pub data Dimension : Type 0 where
  churn workload peer_configuration experiment_duration training_duration : Dimension
  clustering_algorithm feedback_enabled : Dimension

-- The fields of the object that the module returns.
pub record Query : Type 0 where
  pub metric : Number
  pub churn : List Number
  pub workload : List Number
  pub peer_configuration : List Number
  pub experiment_duration : List Number
  pub training_duration : List Number
  pub clustering_algorithm : List Number
  pub feedback_enabled : List Number

abbrev pub initial : Query
initial = record {
  metric = int (pos 0);
  churn = [];
  workload = [];
  peer_configuration = [];
  experiment_duration = [];
  training_duration = [];
  clustering_algorithm = [];
  feedback_enabled = [];
}

-- The loop of `encodeArray`, which appends a dash behind each value but the last.
pub encode_from : ℕ → ℕ → List Number → Text
encode_from last_index index [] = []
encode_from last_index index (value ∷ rest) =
    show value
    ++ ((if index == last_index then [] else codes "-") ++ encode_from last_index (index + 1) rest)

pub encode_array : List Number → Text
unfolding encode_from
encode_array array = encode_from (length array - 1) 0 array

-- The loop of `decodeArray`, which skips blank elements.
pub decode_elements : List Text → List Number
decode_elements [] = []
decode_elements (element ∷ rest) =
    let decoded = decode_elements rest in
    if eq_text (trim element) [] then decoded else parse_int element ∷ decoded

unfoldable pub decode_array : Text → List Number
unfolding decode_elements
decode_array encoded_array = decode_elements (split b'-' encoded_array)

-- `encode`: the query and `scope.data_type` as one text.
pub encode : Query → Text → Text
encode q data_type =
    show q.metric
    ++ b'_'
      ∷ (encode_array q.churn
          ++ b'_'
            ∷ (encode_array q.workload
                ++ b'_'
                  ∷ (encode_array q.peer_configuration
                      ++ b'_'
                        ∷ (encode_array q.experiment_duration
                            ++ b'_'
                              ∷ (encode_array q.training_duration
                                  ++ b'_'
                                    ∷ (encode_array q.clustering_algorithm
                                        ++ b'_'
                                          ∷ (encode_array q.feedback_enabled
                                              ++ b'_' ∷ data_type)))))))

-- One round of the loop in `decode`: the part at `index` goes into its field.
pub decode_part : ℕ → Text → Query × Text → Query × Text
decode_part index value (q, data_type) =
    if index == 0
    then (record q { metric = parse_int value }, data_type)
    else if index == 1
    then (record q { churn = decode_array value }, data_type)
    else if index == 2
    then (record q { workload = decode_array value }, data_type)
    else if index == 3
    then (record q { peer_configuration = decode_array value }, data_type)
    else if index == 4
    then (record q { experiment_duration = decode_array value }, data_type)
    else if index == 5
    then (record q { training_duration = decode_array value }, data_type)
    else if index == 6
    then (record q { clustering_algorithm = decode_array value }, data_type)
    else if index == 7
    then (record q { feedback_enabled = decode_array value }, data_type)
    else if index == 8
    then (q, value)
    else (q, data_type)

pub decode_parts : ℕ → List Text → Query × Text → Query × Text
unfolding decode_part
decode_parts index [] st = st
decode_parts index (value ∷ rest) st = decode_parts (index + 1) rest (decode_part index value st)

-- `decode`: an absent or blank text resets the query and leaves `scope.data_type`.
unfoldable pub decode : Option Text → Query × Text → Query × Text
unfolding decode_parts
decode none (q, data_type) = (initial, data_type)
decode (some encoded) (q, data_type) =
    if eq_text (trim encoded) []
    then (initial, data_type)
    else decode_parts 0 (split b'_' encoded) (q, data_type)
