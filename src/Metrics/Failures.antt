-- ===== src/Metrics/Failures.antt =====
-- evaluation/src/site/resources/analysis/scripts/metric_themes.js: the themes of single metrics,
-- from lookup_correctness_retry_count_sampler to peer_arrival_rate.
use shabdiz.Prelude.{ℕ}
use shabdiz.Text.{codes}
use shabdiz.Value.{Value, str, fn, obj, Fields, end, field, byte_to_gigabyte}

abbrev lookup_correctness_retry_count_sampler : (ℕ → ℕ) → Value
lookup_correctness_retry_count_sampler n = obj (
    field (codes "title") (str (codes "Lookup Correctness Retry Count")) (
      field (codes "yAxis")
        (obj (
          field (codes "title")
            (obj (field (codes "text") (str (codes "Mean Correct Lookup Retry Count")) (end)))
            (end)))
        (end)))

abbrev lookup_execution_rate : (ℕ → ℕ) → Value
lookup_execution_rate n = obj (
    field (codes "title") (str (codes "Lookup Execution Rate")) (
      field (codes "yAxis")
        (obj (
          field (codes "title")
            (obj (field (codes "text") (str (codes "Number of Lookups Executed Per Second")) (end)))
            (end)))
        (end)))

abbrev lookup_failure_delay_timer : (ℕ → ℕ) → Value
lookup_failure_delay_timer n = obj (
    field (codes "title") (str (codes "Lookup Failure Delay")) (
      field (codes "yAxis")
        (obj (
          field (codes "title")
            (obj (field (codes "text") (str (codes "Mean Failed Lookup Delay (ms)")) (end))) (end)))
        (end)))

abbrev lookup_failure_hop_count_sampler : (ℕ → ℕ) → Value
lookup_failure_hop_count_sampler n = obj (
    field (codes "title") (str (codes "Lookup Failure Hop Count")) (
      field (codes "yAxis")
        (obj (
          field (codes "title")
            (obj (field (codes "text") (str (codes "Mean Failed Lookup Hop Count")) (end))) (end)))
        (end)))

abbrev lookup_failure_rate : (ℕ → ℕ) → Value
lookup_failure_rate n = obj (
    field (codes "title") (str (codes "Lookup Failure Rate")) (
      field (codes "yAxis")
        (obj (
          field (codes "title")
            (obj (field (codes "text") (str (codes "Number of Failed Lookups per Second")) (end)))
            (end)))
        (end)))

abbrev lookup_failure_retry_count_sampler : (ℕ → ℕ) → Value
lookup_failure_retry_count_sampler n = obj (
    field (codes "title") (str (codes "Lookup Failure Retry Count")) (
      field (codes "yAxis")
        (obj (
          field (codes "title")
            (obj (field (codes "text") (str (codes "Mean Failed Lookup Retry Count")) (end)))
            (end)))
        (end)))

abbrev lookup_incorrectness_delay_timer : (ℕ → ℕ) → Value
lookup_incorrectness_delay_timer n = obj (
    field (codes "title") (str (codes "Lookup Incorrectness Delay Timer")) (
      field (codes "chart") (obj (field (codes "type") (str (codes "line")) (end))) (
        field (codes "yAxis")
          (obj (
            field (codes "title")
              (obj (field (codes "text") (str (codes "Mean Incorrect Lookup Delay (ms)")) (end)))
              (end)))
          (end))))

abbrev lookup_incorrectness_hop_count_sampler : (ℕ → ℕ) → Value
lookup_incorrectness_hop_count_sampler n = obj (
    field (codes "title") (str (codes "Lookup Incorrectness hop Count Sampler")) (
      field (codes "chart") (obj (field (codes "type") (str (codes "line")) (end))) (
        field (codes "yAxis")
          (obj (
            field (codes "title")
              (obj (field (codes "text") (str (codes "Mean Incorrect Lookup Hop Count")) (end)))
              (end)))
          (end))))

abbrev lookup_incorrectness_rate : (ℕ → ℕ) → Value
lookup_incorrectness_rate n = obj (
    field (codes "title") (str (codes "Lookup Incorrectness Rate")) (
      field (codes "chart") (obj (field (codes "type") (str (codes "line")) (end))) (
        field (codes "yAxis")
          (obj (
            field (codes "title")
              (obj
                (field (codes "text") (str (codes "Number of Incorrect Lookups Per Second")) (end)))
              (end)))
          (end))))

abbrev lookup_incorrectness_retry_count_sampler : (ℕ → ℕ) → Value
lookup_incorrectness_retry_count_sampler n = obj (
    field (codes "title") (str (codes "Lookup Incorrectness Retry Count Sampler")) (
      field (codes "chart") (obj (field (codes "type") (str (codes "line")) (end))) (
        field (codes "yAxis")
          (obj (
            field (codes "title")
              (obj (field (codes "text") (str (codes "Mean Incorrect Lookup Retry Count")) (end)))
              (end)))
          (end))))

abbrev memory_usage_gauge : (ℕ → ℕ) → Value
memory_usage_gauge n = obj (
    field (codes "title") (str (codes "JVM Heap + Non-heap Memory Usage")) (
      field (codes "convert") (obj (field (codes "y") (fn byte_to_gigabyte) (end))) (
        field (codes "yAxis")
          (obj (
            field (codes "title")
              (obj (field (codes "text") (str (codes "Heap and Non-heap Memory usage (GB)")) (end)))
              (end)))
          (end))))

abbrev peer_arrival_rate : (ℕ → ℕ) → Value
peer_arrival_rate n = obj (
    field (codes "title") (str (codes "Peer Arrival Rate")) (
      field (codes "chart") (obj (field (codes "type") (str (codes "line")) (end))) (
        field (codes "yAxis")
          (obj (
            field (codes "title")
              (obj (field (codes "text") (str (codes "Number of Peers Arrived Per Second")) (end)))
              (end)))
          (end))))

-- These entries in front of others.
abbrev pub themes : (ℕ → ℕ) → Fields → Fields
themes n rest =
    field (codes "lookup_correctness_retry_count_sampler")
      (lookup_correctness_retry_count_sampler n)
      (field (codes "lookup_execution_rate") (lookup_execution_rate n) (
        field (codes "lookup_failure_delay_timer") (lookup_failure_delay_timer n) (
          field (codes "lookup_failure_hop_count_sampler") (lookup_failure_hop_count_sampler n) (
            field (codes "lookup_failure_rate") (lookup_failure_rate n) (
              field (codes "lookup_failure_retry_count_sampler")
                (lookup_failure_retry_count_sampler n)
                (field (codes "lookup_incorrectness_delay_timer")
                  (lookup_incorrectness_delay_timer n)
                  (field (codes "lookup_incorrectness_hop_count_sampler")
                    (lookup_incorrectness_hop_count_sampler n)
                    (field (codes "lookup_incorrectness_rate") (lookup_incorrectness_rate n) (
                      field (codes "lookup_incorrectness_retry_count_sampler")
                        (lookup_incorrectness_retry_count_sampler n)
                        (field (codes "memory_usage_gauge") (memory_usage_gauge n)
                          (field (codes "peer_arrival_rate") (peer_arrival_rate n) (rest))))))))))))
