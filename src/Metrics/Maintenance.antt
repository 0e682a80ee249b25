-- ===== src/Metrics/Maintenance.antt =====
-- evaluation/src/site/resources/analysis/scripts/metric_themes.js: the themes of single metrics,
-- from state_correctness_counter to evolutionary_maintenance_weighted_fitness_sampler.
use shabdiz.Prelude.{ℕ}
use shabdiz.Text.{codes}
use shabdiz.Value.{Value, str, num, fn, obj, Fields, end, field, to_percent}

abbrev state_correctness_counter : (ℕ → ℕ) → Value
state_correctness_counter n = obj (
    field (codes "title") (str (codes "Routing State Correctness")) (
      field (codes "convert") (obj (field (codes "y") (fn to_percent) (end))) (
        field (codes "yAxis")
          (obj (
            field (codes "title")
              (obj (field (codes "text") (str (codes "% of Correct Routing Entries")) (end)))
              (field (codes "min") (num (n 0)) (field (codes "max") (num (n 100)) (end)))))
          (end))))

abbrev state_completeness_counter : (ℕ → ℕ) → Value
state_completeness_counter n = obj (
    field (codes "title") (str (codes "Routing State Completeness")) (
      field (codes "convert") (obj (field (codes "y") (fn to_percent) (end))) (
        field (codes "yAxis")
          (obj (
            field (codes "title")
              (obj (field (codes "text") (str (codes "% of Routing State Completeness")) (end)))
              (field (codes "min") (num (n 0)) (field (codes "max") (num (n 100)) (end)))))
          (end))))

abbrev gc_cpu_usage_gauge : (ℕ → ℕ) → Value
gc_cpu_usage_gauge n = obj (
    field (codes "title") (str (codes "JVM GC CPU Usage")) (
      field (codes "convert") (obj (field (codes "y") (fn to_percent) (end))) (
        field (codes "yAxis")
          (obj (
            field (codes "title")
              (obj (field (codes "text") (str (codes "% of CPU Time Consumed By GC")) (end)))
              (field (codes "min") (num (n 0)) (end))))
          (end))))

abbrev unreachable_state_size_per_alive_peer_gauge : (ℕ → ℕ) → Value
unreachable_state_size_per_alive_peer_gauge n = obj (
    field (codes "title") (str (codes "State Size: Unreachable per Alive Peer")) (
      field (codes "yAxis")
        (obj (
          field (codes "title")
            (obj (
              field (codes "text") (str (codes "Number of Unreachable State Per Alive Peer"))
                (end)))
            (end)))
        (end)))

abbrev evolutionary_maintenance_cluster_count_sampler : (ℕ → ℕ) → Value
evolutionary_maintenance_cluster_count_sampler n = obj (
    field (codes "title") (str (codes "Evolutionary Maintenance: Number of Environment Clusters")) (
      field (codes "yAxis")
        (obj (
          field (codes "title")
            (obj (field (codes "text") (str (codes "Number of Environment Clusters")) (end)))
            (end)))
        (end)))

abbrev evolutionary_maintenance_cluster_size_sampler : (ℕ → ℕ) → Value
evolutionary_maintenance_cluster_size_sampler n = obj (
    field (codes "title") (str (codes "Evolutionary Maintenance: Size of Environment Clusters")) (
      field (codes "yAxis")
        (obj (
          field (codes "title")
            (obj (field (codes "text") (str (codes "Mean Size of Environment Clusters")) (end)))
            (end)))
        (end)))

abbrev strategy_action_size_sampler : (ℕ → ℕ) → Value
strategy_action_size_sampler n = obj (
    field (codes "title") (str (codes "Evolutionary Maintenance: Strategy Action Size")) (
      field (codes "yAxis")
        (obj (
          field (codes "title")
            (obj (field (codes "text") (str (codes "Mean Strategy Action Size")) (end))) (end)))
        (end)))

abbrev strategy_uniformity_sampler : (ℕ → ℕ) → Value
strategy_uniformity_sampler n = obj (
    field (codes "title") (str (codes "Evolutionary Maintenance: Strategy Uniformity")) (
      field (codes "yAxis")
        (obj (
          field (codes "title")
            (obj (
              field (codes "text") (str (codes "Mean Number of identical strategies across peers"))
                (end)))
            (end)))
        (end)))

abbrev generated_strategy_uniformity_sampler : (ℕ → ℕ) → Value
generated_strategy_uniformity_sampler n = obj (
    field (codes "title") (str (codes "Evolutionary Maintenance: Generated Strategy Uniformity")) (
      field (codes "yAxis")
        (obj (
          field (codes "title")
            (obj (
              field (codes "text")
                (str (codes "Mean Number of identical generated strategies across peers")) (end)))
            (end)))
        (end)))

abbrev evolutionary_maintenance_fitness_sampler : (ℕ → ℕ) → Value
evolutionary_maintenance_fitness_sampler n = obj (
    field (codes "title") (str (codes "Evolutionary Maintenance: Fitness")) (
      field (codes "yAxis")
        (obj
          (field (codes "title") (obj (field (codes "text") (str (codes "Fitness")) (end))) (end)))
        (end)))

abbrev evolutionary_maintenance_normalized_fitness_sampler : (ℕ → ℕ) → Value
evolutionary_maintenance_normalized_fitness_sampler n = obj (
    field (codes "title") (str (codes "Evolutionary Maintenance: Normalised Fitness")) (
      field (codes "yAxis")
        (obj (
          field (codes "title")
            (obj (field (codes "text") (str (codes "Normalised Fitness")) (end))) (end)))
        (end)))

abbrev evolutionary_maintenance_weighted_fitness_sampler : (ℕ → ℕ) → Value
evolutionary_maintenance_weighted_fitness_sampler n = obj (
    field (codes "title") (str (codes "Evolutionary Maintenance: Weighted Fitness")) (
      field (codes "yAxis")
        (obj (
          field (codes "title") (obj (field (codes "text") (str (codes "Weighted Fitness")) (end)))
            (end)))
        (end)))

-- These entries in front of others.
abbrev pub themes : (ℕ → ℕ) → Fields → Fields
themes n rest = field (codes "state_correctness_counter") (state_correctness_counter n) (
    field (codes "state_completeness_counter") (state_completeness_counter n) (
      field (codes "gc_cpu_usage_gauge") (gc_cpu_usage_gauge n) (
        field (codes "unreachable_state_size_per_alive_peer_gauge")
          (unreachable_state_size_per_alive_peer_gauge n)
          (field (codes "evolutionary_maintenance_cluster_count_sampler")
            (evolutionary_maintenance_cluster_count_sampler n)
            (field (codes "evolutionary_maintenance_cluster_size_sampler")
              (evolutionary_maintenance_cluster_size_sampler n)
              (field (codes "strategy_action_size_sampler") (strategy_action_size_sampler n) (
                field (codes "strategy_uniformity_sampler") (strategy_uniformity_sampler n) (
                  field (codes "generated_strategy_uniformity_sampler")
                    (generated_strategy_uniformity_sampler n)
                    (field (codes "evolutionary_maintenance_fitness_sampler")
                      (evolutionary_maintenance_fitness_sampler n)
                      (field (codes "evolutionary_maintenance_normalized_fitness_sampler")
                        (evolutionary_maintenance_normalized_fitness_sampler n)
                        (field (codes "evolutionary_maintenance_weighted_fitness_sampler")
                          (evolutionary_maintenance_weighted_fitness_sampler n) (rest))))))))))))
