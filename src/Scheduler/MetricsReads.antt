-- ===== src/Scheduler/MetricsReads.antt =====
-- What the scheduler reads of the metrics of its channels: `channelCircuitState`, `channelFailureRate`
-- and `channelIsHealthy` of backend-go/internal/scheduler/channel_scheduler.go, by the metrics manager of the kind.
-- The URLs of a channel, `GetAllBaseURLs`, are a parameter.
use ccx.Config.Types.{ChannelKind, UpstreamConfig}
use ccx.Base.{ℕ, string_eq, ◌≤◌, ◌<◌, Bool, not, List, String, length, arith, count-le-length}
use ccx.Base.Dict.{Dict}
use ccx.Breaker.{Config, Key, failures}
use ccx.Metrics.{
  Names, Rate, Collected, rate_verdict, channel_failure_rate, channel_circuit_state,
  is_channel_healthy, collect_channel,
}
use ccx.Scheduler.{Reads, normalized_metrics_service_type}
use ccx.Scheduler.Fallback.{IsRateReads}

failures-le-length : (xs : List Bool) → failures xs ≤ length xs
failures-le-length xs = count-le-length not xs

abbrev IsFraction : Rate → Type 0
IsFraction r = (0 < r.total) × (r.failed ≤ r.total)

rate_verdict-IsFraction : (d : Collected) → IsFraction (rate_verdict d)
unfolding rate_verdict
rate_verdict-IsFraction d = ground (arith, failures-le-length d.results)

module _ (c : Config) (names : Names) (get_all_base_urls : UpstreamConfig → List String) where
  unfoldable pub reads_of : ChannelKind → ℕ → Dict String Key → Reads
  unfolding channel_circuit_state channel_failure_rate is_channel_healthy
      normalized_metrics_service_type
  reads_of kind now keys = record {
    circuit_state = λ u.
        (channel_circuit_state c names (normalized_metrics_service_type kind u.service_type) now
          (get_all_base_urls u) u.api_keys keys).1;
    failure_rate = λ u.
        (channel_failure_rate c names (normalized_metrics_service_type kind u.service_type) now
          (get_all_base_urls u) u.api_keys keys).1;
    is_healthy = λ u.
        (is_channel_healthy c names (normalized_metrics_service_type kind u.service_type) now
          (get_all_base_urls u) u.api_keys keys).1;
  }

  failure_rate-IsFraction :
      (service_type : String) (now : ℕ) (urls api_keys : List String) (keys : Dict String Key)
      → IsFraction (channel_failure_rate c names service_type now urls api_keys keys).1
  unfolding channel_failure_rate
  failure_rate-IsFraction service_type now urls api_keys keys = ground (
    arith,
    rate_verdict-IsFraction (collect_channel c names service_type now urls api_keys keys).1,
  )

  -- The failure rates that the scheduler reads from the metrics manager are fractions of at most 1,
  -- which is what the fallback needs of them.
  pub reads_of-IsRateReads :
      (kind : ChannelKind) (now : ℕ) (keys : Dict String Key) → IsRateReads (reads_of kind now keys)
  unfolding reads_of
  reads_of-IsRateReads kind now keys = record {
    total_pos = λ u.
        (failure_rate-IsFraction (normalized_metrics_service_type kind u.service_type) now
          (get_all_base_urls u) u.api_keys keys).0;
    at_most_one = λ u.
        (failure_rate-IsFraction (normalized_metrics_service_type kind u.service_type) now
          (get_all_base_urls u) u.api_keys keys).1;
  }
