-- ===== src/Observability/SystemStatus.antt =====
-- src/observability/system_status.py: unclean shutdowns and the sticky degradation flag.
pub mod Sessions
use agentic_engineering_url.Prelude.{ℕ, Bool, not, ◌&&◌, Option, none, some, if◌then◌else◌, is_some}
use agentic_engineering_url.Schema.{SystemStatus}
use agentic_engineering_url.Schema.Status.{SystemState, is_system_running}

-- INSERT OR IGNORE of the row with id 1
unfoldable pub ensure_status_row : ℕ → Option SystemStatus → SystemStatus
ensure_status_row now (some row) = row
ensure_status_row now none = record {
  state = SystemState.stopped_clean;
  started_at = now;
  clean_shutdown_at = some now;
  degraded_since = none;
}

-- The flag is set only where it is not set already.
flag : ℕ → SystemStatus → SystemStatus
flag now row =
    if is_system_running row.state && not (is_some row.degraded_since)
    then record row { degraded_since = some now }
    else row

-- The new row, and whether the process before this one ended without a clean shutdown.
unfoldable pub on_startup : ℕ → Option SystemStatus → SystemStatus × Bool
unfolding ensure_status_row flag
on_startup now table =
    let row = ensure_status_row now table in
    (
      record (flag now row) {
        state = SystemState.running;
        started_at = now;
        clean_shutdown_at = none;
      },
      is_system_running row.state,
    )

-- UPDATE … WHERE id=1 changes nothing while the table is empty.
abbrev update_row : (SystemStatus → SystemStatus) → Option SystemStatus → Option SystemStatus
update_row f none = none
update_row f (some row) = some (f row)

unfoldable pub on_clean_shutdown : ℕ → Option SystemStatus → Option SystemStatus
on_clean_shutdown now =
    update_row
      (λ row. record row { state = SystemState.stopped_clean; clean_shutdown_at = some now })

unfoldable pub acknowledge : Option SystemStatus → Option SystemStatus
acknowledge = update_row (λ row. record row { degraded_since = none })

-- The row that `get_status` reads, after it has made sure that there is one.
unfoldable pub get_status : ℕ → Option SystemStatus → SystemStatus
unfolding ensure_status_row
get_status now table = ensure_status_row now table
