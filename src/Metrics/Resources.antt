-- ===== src/Metrics/Resources.antt =====
-- evaluation/src/site/resources/analysis/scripts/metric_themes.js: the themes of single metrics,
-- from peer_departure_rate to thread_cpu_usage_gauge.
use shabdiz.Prelude.{ℕ}
use shabdiz.Text.{codes}
use shabdiz.Value.{Value, str, num, fn, obj, Fields, end, field, to_percent}

abbrev peer_departure_rate : (ℕ → ℕ) → Value
peer_departure_rate n = obj (
    field (codes "title") (str (codes "Peer Departure Rate")) (
      field (codes "chart") (obj (field (codes "type") (str (codes "line")) (end))) (
        field (codes "yAxis")
          (obj (
            field (codes "title")
              (obj (field (codes "text") (str (codes "Number of Peers Departed Per Second")) (end)))
              (end)))
          (end))))

abbrev queue_size_gauge : (ℕ → ℕ) → Value
queue_size_gauge n = obj (
    field (codes "title") (str (codes "Generated Events Queue Size")) (
      field (codes "chart") (obj (field (codes "type") (str (codes "line")) (end))) (
        field (codes "yAxis")
          (obj (
            field (codes "title")
              (obj (field (codes "text") (str (codes "Number of Generated Events")) (end))) (end)))
          (end))))

abbrev reachable_state_size_per_alive_peer_gauge : (ℕ → ℕ) → Value
reachable_state_size_per_alive_peer_gauge n = obj (
    field (codes "title") (str (codes "State Size: Reachable per Alive Peer")) (
      field (codes "chart") (obj (field (codes "type") (str (codes "line")) (end))) (
        field (codes "yAxis")
          (obj (
            field (codes "title")
              (obj (
                field (codes "text") (str (codes "Number of Reachable State Per Alive Peer"))
                  (end)))
              (end)))
          (end))))

abbrev sent_bytes_rate : (ℕ → ℕ) → Value
sent_bytes_rate n = obj (
    field (codes "title") (str (codes "Sent Bytes Rate")) (
      field (codes "yAxis")
        (obj (
          field (codes "title")
            (obj (field (codes "text") (str (codes "Bytes Sent Per Second")) (end))) (end)))
        (end)))

abbrev sent_bytes_per_alive_peer_per_second_gauge : (ℕ → ℕ) → Value
sent_bytes_per_alive_peer_per_second_gauge n = obj (
    field (codes "title") (str (codes "Sent Bytes Per Alive Peer Per Second")) (
      field (codes "yAxis")
        (obj (
          field (codes "title")
            (obj (field (codes "text") (str (codes "Bytes Sent Per Alive Peer Per Second")) (end)))
            (end)))
        (end)))

abbrev rpc_error_rate : (ℕ → ℕ) → Value
rpc_error_rate n = obj (
    field (codes "title") (str (codes "RPC Error Rate Per Second")) (
      field (codes "yAxis")
        (obj (
          field (codes "title")
            (obj (field (codes "text") (str (codes "RPC Error Rate Per Second")) (end))) (end)))
        (end)))

abbrev reconfiguration_rate : (ℕ → ℕ) → Value
reconfiguration_rate n = obj (
    field (codes "title") (str (codes "Reconfiguration Rate Per Second")) (
      field (codes "yAxis")
        (obj (
          field (codes "title")
            (obj (field (codes "text") (str (codes "Reconfiguration Rate Per Second")) (end)))
            (end)))
        (end)))

abbrev system_load_average_gauge : (ℕ → ℕ) → Value
system_load_average_gauge n = obj (
    field (codes "title") (str (codes "JVM System Load Average Over One Minute")) (
      field (codes "yAxis")
        (obj (
          field (codes "title")
            (obj (field (codes "text") (str (codes "Load Average Over One Minute")) (end))) (end)))
        (end)))

abbrev thread_count_gauge : (ℕ → ℕ) → Value
thread_count_gauge n = obj (
    field (codes "title") (str (codes "JVM Alive Thread Count")) (
      field (codes "chart") (obj (field (codes "type") (str (codes "line")) (end))) (
        field (codes "yAxis")
          (obj (
            field (codes "title")
              (obj (field (codes "text") (str (codes "Number of Alive Threads")) (end))) (end)))
          (end))))

abbrev thread_cpu_usage_gauge : (ℕ → ℕ) → Value
thread_cpu_usage_gauge n = obj (
    field (codes "title") (str (codes "JVM Thread CPU Usage")) (
      field (codes "convert") (obj (field (codes "y") (fn to_percent) (end))) (
        field (codes "yAxis")
          (obj (
            field (codes "title")
              (obj (field (codes "text") (str (codes "% of CPU Time Consumed By Threads")) (end)))
              (field (codes "min") (num (n 0)) (field (codes "max") (num (n 100)) (end)))))
          (end))))

-- These entries in front of others.
abbrev pub themes : (ℕ → ℕ) → Fields → Fields
themes n rest = field (codes "peer_departure_rate") (peer_departure_rate n) (
    field (codes "queue_size_gauge") (queue_size_gauge n) (
      field (codes "reachable_state_size_per_alive_peer_gauge")
        (reachable_state_size_per_alive_peer_gauge n)
        (field (codes "sent_bytes_rate") (sent_bytes_rate n) (
          field (codes "sent_bytes_per_alive_peer_per_second_gauge")
            (sent_bytes_per_alive_peer_per_second_gauge n)
            (field (codes "rpc_error_rate") (rpc_error_rate n) (
              field (codes "reconfiguration_rate") (reconfiguration_rate n) (
                field (codes "system_load_average_gauge") (system_load_average_gauge n) (
                  field (codes "thread_count_gauge") (thread_count_gauge n) (
                    field (codes "thread_cpu_usage_gauge") (thread_cpu_usage_gauge n)
                      (rest))))))))))
