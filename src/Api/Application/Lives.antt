-- ===== src/Api/Application/Lives.antt =====
-- The degradation flag over whole lives of the application, for src/api/main.py.
use agentic_engineering_url.Prelude.{
  ℕ, String, ◌≡◌, refl, ap, ◌∙◌, Bool, true, false, ◌||◌, Option, none, some, List, [], ◌∷◌, inl,
  inr, map, if◌then◌else◌, is_some, Bool-cases,
}
use agentic_engineering_url.Schema.{Db, SystemStatus}
use agentic_engineering_url.Observability.SystemStatus.{on_startup, acknowledge}
use agentic_engineering_url.Observability.SystemStatus.Sessions.{
  Session, stopped, run_session, run_sessions, has_open_crash, flagged_iff_open_crash,
}
use agentic_engineering_url.Orchestration.Scheduler.{is_in}
use agentic_engineering_url.Orchestration.LiveScheduler.Links.{tick-link}
use agentic_engineering_url.Api.Requests.Status.{status_of, handle-IsKept}
use agentic_engineering_url.Api.Application.{
  end_life, startup, shutdown, Process, Event, serve_one, serve_all, before_yield, after_yield,
  Life, lifespan, run_lives,
}

abbrev is_acknowledgement : Event → Bool
is_acknowledgement Event.acknowledgement = true
is_acknowledgement _ = false

abbrev pub has_acknowledgement : List Event → Bool
has_acknowledgement [] = false
has_acknowledgement (e ∷ es) = is_acknowledgement e || has_acknowledgement es

-- A life, as far as the status row can tell.
abbrev pub session_of : Life → Session
session_of l = record {
  start = l.started;
  acknowledged = has_acknowledgement l.events;
  stop = l.ended;
}

abbrev cleared : SystemStatus → SystemStatus
cleared row = record row { degraded_since = none }

serve_one-row :
    (e : Event) (s : Process) (row : SystemStatus)
    → status_of s.db ≡ some row
    → status_of (serve_one e s).db ≡ some (if is_acknowledgement e then cleared row else row)
unfolding acknowledge
serve_one-row (Event.pass p) s row h = elim (Bool-cases (is_in s.loops.running p.worker)) [
  | inl y ↦ rw y (ap (λ l. l.system_status) (tick-link p s.db) ∙ h)
  | inr n ↦ rw n h
]
serve_one-row (Event.request r) s row h = (handle-IsKept r s.db).0 row h
serve_one-row Event.acknowledgement s row h = rw h refl

serve_all-row :
    (es : List Event) (s : Process) (row : SystemStatus)
    → status_of s.db ≡ some row
    → status_of (serve_all es s).db ≡ some (if has_acknowledgement es then cleared row else row)
unfolding serve_all
serve_all-row [] s row h = h
serve_all-row (e ∷ es) s row h =
    let later =
      serve_all-row es (serve_one e s) (if is_acknowledgement e then cleared row else row)
        (serve_one-row e s row h) in
    later ∙ ap some (cleared_once (is_acknowledgement e) (has_acknowledgement es))
  where
    cleared_once :
        (x y : Bool)
        → (if y then cleared (if x then cleared row else row) else (if x then cleared row else row))
          ≡ (if x || y then cleared row else row)
    cleared_once true true = refl
    cleared_once true false = refl
    cleared_once false y = refl

ended-stopped :
    (stop : Option ℕ) (s : Process) → status_of (end_life stop s) ≡ stopped stop (status_of s.db)
unfolding after_yield shutdown
ended-stopped none s = refl
ended-stopped (some now) s = refl

acknowledged-row :
    (seen : Bool) (row : SystemStatus)
    → some (if seen then cleared row else row) ≡ (if seen then acknowledge (some row) else some row)
unfolding acknowledge
acknowledged-row true row = refl
acknowledged-row false row = refl

life-session :
    (l : Life) (db : Db) → status_of (lifespan l db) ≡ run_session (session_of l) (status_of db)
unfolding lifespan before_yield startup run_session
life-session l db =
    let up = (on_startup l.started (status_of db)).0 in
    let begun = before_yield l.worker l.started db in
    ended-stopped l.ended (serve_all l.events begun)
    ∙ ap (stopped l.ended)
        (serve_all-row l.events begun up refl ∙ acknowledged-row (has_acknowledgement l.events) up)

-- However many lives the application has, and whatever passes its scheduler makes in them: the status
-- row is what the sessions make of it that say no more of each life than when it started, whether
-- the warning was acknowledged in it and whether it was shut down cleanly.
lives-sessions :
    (ls : List Life) (db : Db)
    → status_of (run_lives ls db) ≡ run_sessions (map session_of ls) (status_of db)
unfolding run_lives run_sessions
lives-sessions [] db = refl
lives-sessions (l ∷ ls) db =
    lives-sessions ls (lifespan l db) ∙ ap (run_sessions (map session_of ls)) (life-session l db)

-- From a database without a status row, whatever passes and requests fill the lives of the
-- application: the next life begins with the degradation flag exactly when some life ended in a crash
-- and the warning was acknowledged in no later one.
pub lives_flag_open_crash :
    (ls : List Life) (db : Db) (worker : String) (now : ℕ)
    → status_of db ≡ none
    → (row : SystemStatus) × (status_of (before_yield worker now (run_lives ls db)).db ≡ some row)
      × (is_some row.degraded_since ≡ has_open_crash (map session_of ls))
unfolding before_yield startup
lives_flag_open_crash ls db worker now h = (
  (on_startup now (status_of (run_lives ls db))).0,
  refl,
  ap (λ t. is_some (on_startup now t).0.degraded_since)
        (lives-sessions ls db ∙ ap (run_sessions (map session_of ls)) h)
      ∙ flagged_iff_open_crash (map session_of ls) now,
)
