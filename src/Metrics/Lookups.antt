-- ===== src/Metrics/Lookups.antt =====
-- evaluation/src/site/resources/analysis/scripts/metric_themes.js: the themes of single metrics,
-- from event_completion_rate to lookup_correctness_rate.
use shabdiz.Prelude.{ℕ}
use shabdiz.Text.{codes}
use shabdiz.Value.{
  Value, str, num, fn, obj, Fields, end, field, nanosecond_to_millisecond, failure_percent,
}

abbrev event_completion_rate : (ℕ → ℕ) → Value
event_completion_rate n = obj (
    field (codes "title") (str (codes "Event Completion Rate")) (
      field (codes "yAxis")
        (obj (
          field (codes "title")
            (obj (field (codes "text") (str (codes "Number of Events Executed Per Second")) (end)))
            (end)))
        (end)))

abbrev lookup_correctness_ratio : (ℕ → ℕ) → Value
lookup_correctness_ratio n = obj (
    field (codes "title") (str (codes "Percentage of Unsuccessful Lookups")) (
      field (codes "convert") (obj (field (codes "y") (fn failure_percent) (end))) (
        field (codes "yAxis")
          (obj (
            field (codes "title")
              (obj (field (codes "text") (str (codes "Percentage of Unsuccessful Lookups")) (end)))
              (field (codes "min") (num (n 0)) (field (codes "max") (num (n 100)) (end)))))
          (end))))

abbrev available_peer_counter : (ℕ → ℕ) → Value
available_peer_counter n = obj (
    field (codes "title") (str (codes "Network Size")) (
      field (codes "yAxis")
        (obj (
          field (codes "title")
            (obj (field (codes "text") (str (codes "Number of Available Peers")) (end))) (end)))
        (end)))

abbrev event_execution_duration_timer : (ℕ → ℕ) → Value
event_execution_duration_timer n = obj (
    field (codes "title") (str (codes "Event Execution Duration Timer")) (
      field (codes "yAxis")
        (obj (
          field (codes "title")
            (obj (
              field (codes "text") (str (codes "Mean Event Execution Completion Time (ms)")) (end)))
            (end)))
        (end)))

abbrev event_execution_lag_sampler : (ℕ → ℕ) → Value
event_execution_lag_sampler n = obj (
    field (codes "title") (str (codes "Event Execution Lag")) (
      field (codes "yAxis")
        (obj (
          field (codes "title")
            (obj (field (codes "text") (str (codes "Event Execution Lag (ms)")) (end))) (end)))
        (end)))

abbrev event_executor_queue_size : (ℕ → ℕ) → Value
event_executor_queue_size n = obj (
    field (codes "title") (str (codes "Event Executor Queue Size")) (
      field (codes "yAxis")
        (obj (
          field (codes "title")
            (obj (field (codes "text") (str (codes "Number of Events Queued by Executor")) (end)))
            (end)))
        (end)))

abbrev event_scheduling_rate : (ℕ → ℕ) → Value
event_scheduling_rate n = obj (
    field (codes "title") (str (codes "Event Scheduling Rate")) (
      field (codes "yAxis")
        (obj (
          field (codes "title")
            (obj
              (field (codes "text") (str (codes "Number of Events Scheduled for Execution")) (end)))
            (end)))
        (end)))

abbrev join_failure_rate : (ℕ → ℕ) → Value
join_failure_rate n = obj (
    field (codes "title") (str (codes "Join Failure Rate")) (
      field (codes "yAxis")
        (obj (
          field (codes "title")
            (obj (field (codes "text") (str (codes "Number of Failed Joins")) (end))) (end)))
        (end)))

abbrev join_success_rate : (ℕ → ℕ) → Value
join_success_rate n = obj (
    field (codes "title") (str (codes "Join Success Rate")) (
      field (codes "yAxis")
        (obj (
          field (codes "title")
            (obj (field (codes "text") (str (codes "Number of Successful Joins")) (end))) (end)))
        (end)))

abbrev lookup_correctness_delay_timer : (ℕ → ℕ) → Value
lookup_correctness_delay_timer n = obj (
    field (codes "title") (str (codes "Lookup Correctness Delay")) (
      field (codes "convert") (obj (field (codes "y") (fn nanosecond_to_millisecond) (end))) (
        field (codes "yAxis")
          (obj (
            field (codes "title")
              (obj (field (codes "text") (str (codes "Mean Correct Lookup Delay (ms)")) (end)))
              (end)))
          (end))))

abbrev lookup_correctness_hop_count_sampler : (ℕ → ℕ) → Value
lookup_correctness_hop_count_sampler n = obj (
    field (codes "title") (str (codes "Lookup Correctness Hop Count")) (
      field (codes "yAxis")
        (obj (
          field (codes "title")
            (obj (field (codes "text") (str (codes "Mean Correct Lookup Hop Count")) (end))) (end)))
        (end)))

abbrev lookup_correctness_rate : (ℕ → ℕ) → Value
lookup_correctness_rate n = obj (
    field (codes "title") (str (codes "Lookup Correctness Rate")) (
      field (codes "chart") (obj (field (codes "type") (str (codes "line")) (end))) (
        field (codes "yAxis")
          (obj (
            field (codes "title")
              (obj
                (field (codes "text") (str (codes "Number of Correct Lookups Per Second")) (end)))
              (end)))
          (end))))

-- These entries in front of others.
abbrev pub themes : (ℕ → ℕ) → Fields → Fields
themes n rest = field (codes "event_completion_rate") (event_completion_rate n) (
    field (codes "lookup_correctness_ratio") (lookup_correctness_ratio n) (
      field (codes "available_peer_counter") (available_peer_counter n) (
        field (codes "event_execution_duration_timer") (event_execution_duration_timer n) (
          field (codes "event_execution_lag_sampler") (event_execution_lag_sampler n) (
            field (codes "event_executor_queue_size") (event_executor_queue_size n) (
              field (codes "event_scheduling_rate") (event_scheduling_rate n) (
                field (codes "join_failure_rate") (join_failure_rate n) (
                  field (codes "join_success_rate") (join_success_rate n) (
                    field (codes "lookup_correctness_delay_timer")
                      (lookup_correctness_delay_timer n)
                      (field (codes "lookup_correctness_hop_count_sampler")
                        (lookup_correctness_hop_count_sampler n)
                        (field (codes "lookup_correctness_rate") (lookup_correctness_rate n)
                          (rest))))))))))))
