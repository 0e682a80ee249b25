-- ===== src/Query/RoundTrip.antt =====
-- `decode` undoes `encode`.
use shabdiz.Prelude.{
  ℕ, ◌+◌, ◌≡◌, refl, List, [], ◌∷◌, ◌++◌, some, arith, length, All, All-append, ◌∙◌, append-nil, ap,
  false,
}
use shabdiz.Text.{Text, eq_text, Lacks, split, trim, trim_start, is_space}
use shabdiz.Text.Split.{split_first, split_one}
use shabdiz.Text.Number.{Number, show}
use shabdiz.Text.Number.Laws.{
  IsIndex, IsExact, parse_int-show, show-IsPlain, plain-Lacks_dash, show-Lacks_underscore,
  show_first,
}
use shabdiz.Query.{Query, encode_from, encode_array, decode_elements, decode_array, encode, decode}

-- The values with a dash between neighbours.
dashed : List Number → Text
dashed [] = []
dashed (v ∷ []) = show v
dashed (v ∷ w ∷ rest) = show v ++ b'-' ∷ dashed (w ∷ rest)

encode_from-dashed :
    (last i : ℕ) (vs : List Number) → i + length vs ≡ last + 1 → encode_from last i vs ≡ dashed vs
unfolding encode_from dashed
encode_from-dashed last i [] h = refl
encode_from-dashed last i (v ∷ []) h = ground (arith, append-nil (show v))
encode_from-dashed last i (v ∷ w ∷ rest) h =
    ground (arith, encode_from-dashed last (i + 1) (w ∷ rest) (omega arith))

encode_array-dashed : (vs : List Number) → encode_array vs ≡ dashed vs
unfolding encode_array
encode_array-dashed [] = unfold dashed in refl
encode_array-dashed (v ∷ vs) = encode_from-dashed _ 0 (v ∷ vs) (omega arith)

-- A text that begins with a visible character is not blank.
not_blank : (c : ℕ) (t : Text) → is_space c ≡ false → eq_text (trim (c ∷ t)) [] ≡ false
unfolding trim
not_blank c t h = rw (h, trim_start) (ground arith)

show_not_blank : (n : Number) → eq_text (trim (show n)) [] ≡ false
show_not_blank n = let (c, t, e, h) = show_first n in rw e (not_blank c t h)

-- What `decodeArray` does with the parts of an encoded array.
decode_elements-cons :
    (v : Number) (rest : List Text)
    → IsExact v
    → decode_elements (show v ∷ rest) ≡ v ∷ decode_elements rest
unfolding decode_elements
decode_elements-cons v rest h = rw (show_not_blank v, parse_int-show v h)

decode_elements-split :
    (v : Number) (vs : List Number)
    → All IsIndex (v ∷ vs)
    → decode_elements (split b'-' (dashed (v ∷ vs))) ≡ v ∷ vs
unfolding dashed
decode_elements-split v [] (h, _) =
    rw (split_one b'-' (show v) (plain-Lacks_dash _ (show-IsPlain v h.0)))
      (decode_elements-cons v [] h.1 ∙ unfold decode_elements in refl)
decode_elements-split v (w ∷ vs) (h, hs) =
    rw (split_first b'-' (show v) (dashed (w ∷ vs)) (plain-Lacks_dash _ (show-IsPlain v h.0)))
      (decode_elements-cons v _ h.1 ∙ ap (v ∷◌) (decode_elements-split w vs hs))

-- Every list of indices is read back from its encoding.
pub decode_array-encode_array :
    (vs : List Number) → All IsIndex vs → decode_array (encode_array vs) ≡ vs
unfolding decode_array
decode_array-encode_array [] h =
    rw encode_array-dashed (unfold dashed split decode_elements trim in refl)
decode_array-encode_array (v ∷ vs) h = rw encode_array-dashed (decode_elements-split v vs h)

dashed-Lacks : (vs : List Number) → Lacks b'_' (dashed vs)
unfolding dashed
dashed-Lacks [] = tt
dashed-Lacks (v ∷ []) = show-Lacks_underscore v
dashed-Lacks (v ∷ w ∷ vs) =
    All-append _ (show v) (b'-' ∷ dashed (w ∷ vs)) (show-Lacks_underscore v)
      (omega arith, dashed-Lacks (w ∷ vs))

encode_array-Lacks : (vs : List Number) → Lacks b'_' (encode_array vs)
encode_array-Lacks vs = rw encode_array-dashed (dashed-Lacks vs)

-- What holds of the metric of a query, and of every index that it selects.
pub record Holds (M P : Number → Type 0) (q : Query) : Type 0 where
  pub metric : M q.metric
  pub churn : All P q.churn
  pub workload : All P q.workload
  pub peer_configuration : All P q.peer_configuration
  pub experiment_duration : All P q.experiment_duration
  pub training_duration : All P q.training_duration
  pub clustering_algorithm : All P q.clustering_algorithm
  pub feedback_enabled : All P q.feedback_enabled

-- The metric is an exact number, and the selections are lists of indices.
abbrev pub IsEncodable : Query → Type 0
IsEncodable = Holds IsExact IsIndex

-- The nine parts of an encoded query.
split-encode :
    (q : Query) (data_type : Text)
    → Lacks b'_' data_type
    → split b'_' (encode q data_type)
      ≡ show q.metric
        ∷ encode_array q.churn
        ∷ encode_array q.workload
        ∷ encode_array q.peer_configuration
        ∷ encode_array q.experiment_duration
        ∷ encode_array q.training_duration
        ∷ encode_array q.clustering_algorithm
        ∷ encode_array q.feedback_enabled
        ∷ data_type
        ∷ []
unfolding encode
split-encode q data_type h = rw (
  split_first b'_' (show q.metric) _ (show-Lacks_underscore q.metric),
  split_first b'_' (encode_array q.churn) _ (encode_array-Lacks q.churn),
  split_first b'_' (encode_array q.workload) _ (encode_array-Lacks q.workload),
  split_first b'_' (encode_array q.peer_configuration) _ (encode_array-Lacks q.peer_configuration),
  split_first b'_' (encode_array q.experiment_duration) _
      (encode_array-Lacks q.experiment_duration),
  split_first b'_' (encode_array q.training_duration) _ (encode_array-Lacks q.training_duration),
  split_first b'_' (encode_array q.clustering_algorithm) _
      (encode_array-Lacks q.clustering_algorithm),
  split_first b'_' (encode_array q.feedback_enabled) _ (encode_array-Lacks q.feedback_enabled),
  split_one b'_' data_type h,
)

encode_not_blank : (q : Query) (data_type : Text) → eq_text (trim (encode q data_type)) [] ≡ false
unfolding encode
encode_not_blank q data_type = let (c, t, e, h) = show_first q.metric in rw e (not_blank c _ h)

-- If the metric of a query is `NaN` or a whole number below 2 ^ 53 in size, its selections hold
-- `NaN` and whole numbers from 0 to below 2 ^ 53 only, and the data type has no underscore,
-- reading the encoded query gives the query and the data type back, whatever the page held before.
pub decode-encode :
    (q : Query) (data_type : Text) (before : Query × Text)
    → IsEncodable q
    → Lacks b'_' data_type
    → decode (some (encode q data_type)) before ≡ (q, data_type)
unfolding decode
decode-encode q data_type before v h =
    rw (encode_not_blank q data_type, split-encode q data_type h)
      (simp (
        parse_int-show q.metric v.metric,
        decode_array-encode_array q.churn v.churn,
        decode_array-encode_array q.workload v.workload,
        decode_array-encode_array q.peer_configuration v.peer_configuration,
        decode_array-encode_array q.experiment_duration v.experiment_duration,
        decode_array-encode_array q.training_duration v.training_duration,
        decode_array-encode_array q.clustering_algorithm v.clustering_algorithm,
        decode_array-encode_array q.feedback_enabled v.feedback_enabled,
      ))
