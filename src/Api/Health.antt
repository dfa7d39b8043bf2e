-- ===== src/Api/Health.antt =====
-- src/api/routers/health.py and src/api/routers/metrics.py: what operators are told.
use agentic_engineering_url.Prelude.{ℕ, Option, some, is_some, if◌then◌else◌}
use agentic_engineering_url.Schema.{Db}
use agentic_engineering_url.Observability.SystemStatus.{get_status}
use agentic_engineering_url.Observability.Metrics.{ReliabilityMetrics, compute_reliability_metrics}
use agentic_engineering_url.Api.ShortLinks.{Reply}

pub data AnalyticsStatus : Type 0 where
  healthy degraded : AnalyticsStatus

pub record AnalyticsHealth : Type 0 where
  pub status : AnalyticsStatus
  pub degraded_since_unclean_shutdown_at : Option ℕ

-- The service's own status is always `healthy`.
pub record HealthStatus : Type 0 where
  pub analytics : AnalyticsHealth

-- `get_status` inserts the row if there is none.
unfoldable pub get_health : ℕ → Db → Db × HealthStatus
get_health now db =
    let row = get_status now db.link.system_status in
    (
      record db { link = record db.link { system_status = some row } },
      record {
        analytics = record {
          status =
              if is_some row.degraded_since
              then AnalyticsStatus.degraded
              else AnalyticsStatus.healthy;
          degraded_since_unclean_shutdown_at = row.degraded_since;
        };
      },
    )

-- The assertion on `demonstration_data` fails uncaught.
unfoldable pub get_reliability_metrics : Db → Reply ReliabilityMetrics
get_reliability_metrics db =
    let metrics = compute_reliability_metrics db in
    if metrics.demonstration_data then Reply.body metrics else Reply.uncaught
