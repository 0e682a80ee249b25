-- ===== src/Query/Reload.antt =====
-- Whatever text stands in the address, what is read from it can be written and read again, as long
-- as its numbers are exact.
use shabdiz.Prelude.{
  ℕ, ◌+◌, ◌≡◌, refl, true, List, [], ◌∷◌, Option, none, some, All, ◌==◌, Bool-cases, inl, inr,
  if-keeps, arith,
}
use shabdiz.Prelude.Int.{pos}
use shabdiz.Text.Number.{Number, int}
use shabdiz.Text.{Text, Lacks, eq_text, trim}
use shabdiz.Text.Split.{split-Lacks}
use shabdiz.Text.Number.Laws.{IsNatural, IsExact, IsIndex, parse_int-IsNatural}
use shabdiz.Query.{
  Query, initial, decode_elements, decode_array, encode, decode_part, decode_parts, decode,
}
use shabdiz.Query.RoundTrip.{Holds, IsEncodable, decode-encode}

decode_elements-IsNatural :
    (es : List Text) → All (Lacks b'-') es → All IsNatural (decode_elements es)
unfolding decode_elements
decode_elements-IsNatural [] h = tt
decode_elements-IsNatural (e ∷ es) (he, hes) = elim (Bool-cases (eq_text (trim e) [])) [
  | inl blank ↦ rw (blank, decode_elements) (decode_elements-IsNatural es hes)
  | inr full ↦
      rw (full, decode_elements) (parse_int-IsNatural e he, decode_elements-IsNatural es hes)
]

decode_array-IsNatural : (s : Text) → All IsNatural (decode_array s)
unfolding decode_array
decode_array-IsNatural s = decode_elements-IsNatural _ (split-Lacks b'-' s)

-- What the page holds can be encoded: the metric is exact, the selections are indices, the data type
-- has no underscore.
pub record IsSound (st : Query × Text) : Type 0 where
  pub query : IsEncodable st.0
  pub data_type : Lacks b'_' st.1

abbrev IsAny : Number → Type 0
IsAny n = Unit

-- The selections hold no negative number, and the data type has no underscore.
pub record IsUnsigned (st : Query × Text) : Type 0 where
  pub query : Holds IsAny IsNatural st.0
  pub data_type : Lacks b'_' st.1

-- Every number of the query is exact.
abbrev pub IsExactQuery : Query → Type 0
IsExactQuery = Holds IsExact IsExact

decode_part-IsUnsigned :
    (index : ℕ) (value : Text) (st : Query × Text)
    → Lacks b'_' value
    → IsUnsigned st
    → IsUnsigned (decode_part index value st)
unfolding decode_part
decode_part-IsUnsigned index value (q, t) h s =
    let d = decode_array-IsNatural value in
    if-keeps IsUnsigned (index == 0)
      (record {
        query = record {
          metric = tt;
          churn = s.query.churn;
          workload = s.query.workload;
          peer_configuration = s.query.peer_configuration;
          experiment_duration = s.query.experiment_duration;
          training_duration = s.query.training_duration;
          clustering_algorithm = s.query.clustering_algorithm;
          feedback_enabled = s.query.feedback_enabled;
        };
        data_type = s.data_type;
      })
      (if-keeps IsUnsigned (index == 1)
        (record {
          query = record {
            metric = tt;
            churn = d;
            workload = s.query.workload;
            peer_configuration = s.query.peer_configuration;
            experiment_duration = s.query.experiment_duration;
            training_duration = s.query.training_duration;
            clustering_algorithm = s.query.clustering_algorithm;
            feedback_enabled = s.query.feedback_enabled;
          };
          data_type = s.data_type;
        })
        (if-keeps IsUnsigned (index == 2)
          (record {
            query = record {
              metric = tt;
              churn = s.query.churn;
              workload = d;
              peer_configuration = s.query.peer_configuration;
              experiment_duration = s.query.experiment_duration;
              training_duration = s.query.training_duration;
              clustering_algorithm = s.query.clustering_algorithm;
              feedback_enabled = s.query.feedback_enabled;
            };
            data_type = s.data_type;
          })
          (if-keeps IsUnsigned (index == 3)
            (record {
              query = record {
                metric = tt;
                churn = s.query.churn;
                workload = s.query.workload;
                peer_configuration = d;
                experiment_duration = s.query.experiment_duration;
                training_duration = s.query.training_duration;
                clustering_algorithm = s.query.clustering_algorithm;
                feedback_enabled = s.query.feedback_enabled;
              };
              data_type = s.data_type;
            })
            (if-keeps IsUnsigned (index == 4)
              (record {
                query = record {
                  metric = tt;
                  churn = s.query.churn;
                  workload = s.query.workload;
                  peer_configuration = s.query.peer_configuration;
                  experiment_duration = d;
                  training_duration = s.query.training_duration;
                  clustering_algorithm = s.query.clustering_algorithm;
                  feedback_enabled = s.query.feedback_enabled;
                };
                data_type = s.data_type;
              })
              (if-keeps IsUnsigned (index == 5)
                (record {
                  query = record {
                    metric = tt;
                    churn = s.query.churn;
                    workload = s.query.workload;
                    peer_configuration = s.query.peer_configuration;
                    experiment_duration = s.query.experiment_duration;
                    training_duration = d;
                    clustering_algorithm = s.query.clustering_algorithm;
                    feedback_enabled = s.query.feedback_enabled;
                  };
                  data_type = s.data_type;
                })
                (if-keeps IsUnsigned (index == 6)
                  (record {
                    query = record {
                      metric = tt;
                      churn = s.query.churn;
                      workload = s.query.workload;
                      peer_configuration = s.query.peer_configuration;
                      experiment_duration = s.query.experiment_duration;
                      training_duration = s.query.training_duration;
                      clustering_algorithm = d;
                      feedback_enabled = s.query.feedback_enabled;
                    };
                    data_type = s.data_type;
                  })
                  (if-keeps IsUnsigned (index == 7)
                    (record {
                      query = record {
                        metric = tt;
                        churn = s.query.churn;
                        workload = s.query.workload;
                        peer_configuration = s.query.peer_configuration;
                        experiment_duration = s.query.experiment_duration;
                        training_duration = s.query.training_duration;
                        clustering_algorithm = s.query.clustering_algorithm;
                        feedback_enabled = d;
                      };
                      data_type = s.data_type;
                    })
                    (if-keeps IsUnsigned (index == 8) (record { query = s.query; data_type = h })
                      s))))))))

decode_parts-IsUnsigned :
    (index : ℕ) (values : List Text) (st : Query × Text)
    → All (Lacks b'_') values
    → IsUnsigned st
    → IsUnsigned (decode_parts index values st)
unfolding decode_parts
decode_parts-IsUnsigned index [] st h s = s
decode_parts-IsUnsigned index (value ∷ rest) st (h, hs) s =
    decode_parts-IsUnsigned (index + 1) rest (decode_part index value st) hs
      (decode_part-IsUnsigned index value st h s)

initial-Holds : (M P : Number → Type 0) → M (int (pos 0)) → Holds M P initial
initial-Holds M P h = record {
  metric = h;
  churn = tt;
  workload = tt;
  peer_configuration = tt;
  experiment_duration = tt;
  training_duration = tt;
  clustering_algorithm = tt;
  feedback_enabled = tt;
}

pub initial-IsSound : (t : Text) → Lacks b'_' t → IsSound (initial, t)
initial-IsSound t h = record { query = initial-Holds IsExact IsIndex (omega arith); data_type = h }

initial-IsUnsigned : (t : Text) → Lacks b'_' t → IsUnsigned (initial, t)
initial-IsUnsigned t h = record { query = initial-Holds IsAny IsNatural tt; data_type = h }

-- Decoding any text, absent, blank or malformed, puts no negative number into the selections and no
-- underscore into the data type.
decode-IsUnsigned :
    (encoded : Option Text) (st : Query × Text) → IsUnsigned st → IsUnsigned (decode encoded st)
unfolding decode
decode-IsUnsigned none (q, t) s = initial-IsUnsigned t s.data_type
decode-IsUnsigned (some e) (q, t) s =
    if-keeps IsUnsigned (eq_text (trim e) []) (initial-IsUnsigned t s.data_type)
      (decode_parts-IsUnsigned 0 _ (q, t) (split-Lacks b'_' e) s)

All-IsIndex : (vs : List Number) → All IsNatural vs → All IsExact vs → All IsIndex vs
All-IsIndex [] h k = tt
All-IsIndex (v ∷ vs) (h, hs) (k, ks) = ((h, k), All-IsIndex vs hs ks)

-- Numbers that are exact and not negative are indices.
unsigned-IsEncodable : (q : Query) → Holds IsAny IsNatural q → IsExactQuery q → IsEncodable q
unsigned-IsEncodable q u e = record {
  metric = e.metric;
  churn = All-IsIndex q.churn u.churn e.churn;
  workload = All-IsIndex q.workload u.workload e.workload;
  peer_configuration = All-IsIndex q.peer_configuration u.peer_configuration e.peer_configuration;
  experiment_duration =
      All-IsIndex q.experiment_duration u.experiment_duration e.experiment_duration;
  training_duration = All-IsIndex q.training_duration u.training_duration e.training_duration;
  clustering_algorithm =
      All-IsIndex q.clustering_algorithm u.clustering_algorithm e.clustering_algorithm;
  feedback_enabled = All-IsIndex q.feedback_enabled u.feedback_enabled e.feedback_enabled;
}

-- A page whose selections hold no negative number and whose data type has no underscore decodes a
-- text, absent, blank or malformed. If every number that its query then holds is `NaN` or a whole
-- number below 2 ^ 53 in size, what it has decoded is decoded again from its own encoding,
-- whatever the page holds then.
pub decode-encode-decode :
    (encoded : Option Text) (st after : Query × Text)
    → IsUnsigned st
    → IsExactQuery (decode encoded st).0
    → decode (some (encode (decode encoded st).0 (decode encoded st).1)) after ≡ decode encoded st
decode-encode-decode encoded st after s exact =
    let u = decode-IsUnsigned encoded st s in
    decode-encode _ _ after (unsigned-IsEncodable _ u.query exact) u.data_type

-- A blank address resets the query.
pub decode-blank :
    (hash : Text) (st : Query × Text)
    → eq_text (trim hash) [] ≡ true
    → decode (some hash) st ≡ (initial, st.1)
unfolding decode
decode-blank hash (q, t) e = rw e refl
