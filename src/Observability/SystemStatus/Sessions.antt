-- ===== src/Observability/SystemStatus/Sessions.antt =====
-- The degradation flag over the sessions of the process, for src/observability/system_status.py.
use agentic_engineering_url.Prelude.{
  ℕ, ◌≡◌, refl, Bool, true, false, not, ◌&&◌, ◌||◌, Option, none, some, List, [], ◌∷◌, arith,
  if◌then◌else◌, is_some,
}
use agentic_engineering_url.Schema.{SystemStatus}
use agentic_engineering_url.Schema.Status.{SystemState, is_system_running}
use agentic_engineering_url.Observability.SystemStatus.{on_startup, on_clean_shutdown, acknowledge}

-- One life of the process: when it starts, whether an operator acknowledges the warning, and when
-- it shuts down, if it does so cleanly.
pub record Session : Type 0 where
  pub start : ℕ
  pub acknowledged : Bool
  pub stop : Option ℕ

abbrev pub stopped : Option ℕ → Option SystemStatus → Option SystemStatus
stopped none table = table
stopped (some now) table = on_clean_shutdown now table

unfoldable pub run_session : Session → Option SystemStatus → Option SystemStatus
run_session s table =
    let up = some (on_startup s.start table).0 in
    stopped s.stop (if s.acknowledged then acknowledge up else up)

unfoldable pub run_sessions : List Session → Option SystemStatus → Option SystemStatus
run_sessions [] table = table
run_sessions (s ∷ ss) table = run_sessions ss (run_session s table)

abbrev pub is_crash : Session → Bool
is_crash s = not (is_some s.stop)

-- No session of the row had the warning acknowledged.
abbrev pub none_acknowledged : List Session → Bool
none_acknowledged [] = true
none_acknowledged (s ∷ ss) = not s.acknowledged && none_acknowledged ss

-- Some session ended in a crash, and no later one had the warning acknowledged.
abbrev pub has_open_crash : List Session → Bool
has_open_crash [] = false
has_open_crash (s ∷ ss) = (is_crash s && none_acknowledged ss) || has_open_crash ss

-- What one session leaves of a row.
session_row : Session → SystemStatus → SystemStatus
session_row s row =
    let up = (on_startup s.start (some row)).0 in
    let seen = if s.acknowledged then record up { degraded_since = none } else up in
    elim s.stop [
      | none ↦ seen
      | some now ↦ record seen { state = SystemState.stopped_clean; clean_shutdown_at = some now }
    ]

run_session-row :
    (s : Session) (row : SystemStatus) → run_session s (some row) ≡ some (session_row s row)
unfolding run_session on_startup on_clean_shutdown acknowledge session_row
run_session-row s row = ground arith

session_row-flag :
    (s : Session) (row : SystemStatus)
    → is_some (session_row s row).degraded_since
      ≡ (not s.acknowledged && (is_some row.degraded_since || is_system_running row.state))
unfolding on_startup session_row
session_row-flag s row = ground arith

session_row-state :
    (s : Session) (row : SystemStatus) → is_system_running (session_row s row).state ≡ is_crash s
unfolding on_startup session_row
session_row-state s row = ground arith

flag-sessions :
    (ss : List Session) (row : SystemStatus) (now : ℕ)
    → is_some (on_startup now (run_sessions ss (some row))).0.degraded_since ≡ (
        ((is_some row.degraded_since || is_system_running row.state) && none_acknowledged ss)
        || has_open_crash ss)
unfolding run_sessions
flag-sessions [] row now = unfold on_startup in ground arith
flag-sessions (s ∷ ss) row now = rw run_session-row (
    ground (
      arith,
      flag-sessions ss (session_row s row) now,
      session_row-flag s row,
      session_row-state s row,
    ))

-- The row that the first session finds, after it has inserted it.
abbrev first_row : Session → SystemStatus
first_row s = record {
  state = SystemState.stopped_clean;
  started_at = s.start;
  clean_shutdown_at = some s.start;
  degraded_since = none;
}

run_session-first : (s : Session) → run_session s none ≡ run_session s (some (first_row s))
unfolding run_session on_startup
run_session-first s = refl

-- From an empty status table, after any row of sessions, the next startup comes up with the
-- degradation flag exactly when some session crashed and no later session acknowledged the warning.
pub flagged_iff_open_crash :
    (ss : List Session) (now : ℕ)
    → is_some (on_startup now (run_sessions ss none)).0.degraded_since ≡ has_open_crash ss
unfolding run_sessions
flagged_iff_open_crash [] now = unfold on_startup in refl
flagged_iff_open_crash (s ∷ ss) now = rw run_session-first (
    ground (
      arith,
      flag-sessions ss (session_row s (first_row s)) now,
      run_session-row s (first_row s),
      session_row-flag s (first_row s),
      session_row-state s (first_row s),
    ))
