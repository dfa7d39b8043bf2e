-- ===== src/Api/Application.antt =====
-- src/api/main.py: the lifespan of the application. While it serves, the passes of its scheduler and
-- its requests follow each other. A request that the rate limiter refuses does not reach its handler,
-- and is not among them.
pub mod Recovery
pub mod Lives
pub mod Deleted
use agentic_engineering_url.Prelude.{ℕ, String, Option, none, some, List, [], ◌∷◌, if◌then◌else◌}
use agentic_engineering_url.Schema.{Db}
use agentic_engineering_url.Observability.SystemStatus.{on_startup, on_clean_shutdown, acknowledge}
use agentic_engineering_url.Orchestration.Scheduler.{is_in, recover_on_startup}
use agentic_engineering_url.Orchestration.LiveScheduler.{Pass, tick}
use agentic_engineering_url.Api.Requests.{Request, handle}
use agentic_engineering_url.Orchestration.LiveScheduler.Loops.{Loops, no_loops, start, stop}

-- What precedes the background scheduler.
unfoldable pub startup : ℕ → Db → Db
startup now db = record db {
  link = record db.link { system_status = some (on_startup now db.link.system_status).0 };
  flow = (recover_on_startup now db.flow).0;
}

-- What follows it, when the process ends in good order.
unfoldable pub shutdown : ℕ → Db → Db
shutdown now db = record db {
  link = record db.link { system_status = on_clean_shutdown now db.link.system_status };
}

-- A process: its database and the scheduler loops that it runs.
pub record Process : Type 0 where
  pub db : Db
  pub loops : Loops

-- What happens while the application serves: a pass of the loop that runs under the pass's worker
-- id, a request, or an operator's acknowledgement of the degradation warning.
pub data Event : Type 0 where
  pass : Pass → Event
  request : Request → Event
  acknowledgement : Event

abbrev acknowledge_in : Db → Db
acknowledge_in db = record db {
  link = record db.link { system_status = acknowledge db.link.system_status };
}

abbrev pub serve_one : Event → Process → Process
serve_one (Event.pass p) s = record s {
  db = if is_in s.loops.running p.worker then tick p s.db else s.db;
}
serve_one (Event.request r) s = record s { db = handle r s.db }
serve_one Event.acknowledgement s = record s { db = acknowledge_in s.db }

unfoldable pub serve_all : List Event → Process → Process
serve_all [] s = s
serve_all (e ∷ es) s = serve_all es (serve_one e s)

-- `lifespan` up to its yield, in a new process, and after it.
unfoldable pub before_yield : (worker : String) → (now : ℕ) → Db → Process
before_yield worker now db = record { db = startup now db; loops = start worker no_loops }

unfoldable pub after_yield : ℕ → Process → Process
after_yield now s = record { db = shutdown now s.db; loops = stop s.loops }

-- One life of the process: when it starts, the worker id of its loop, what happens in it, and when it
-- shuts down, if it does so cleanly.
pub record Life : Type 0 where
  pub started : ℕ
  pub worker : String
  pub events : List Event
  pub ended : Option ℕ

abbrev pub end_life : Option ℕ → Process → Db
end_life none s = s.db
end_life (some now) s = (after_yield now s).db

-- The tables that a life leaves; a crash leaves them as they are.
unfoldable pub lifespan : Life → Db → Db
lifespan l db = end_life l.ended (serve_all l.events (before_yield l.worker l.started db))

unfoldable pub run_lives : List Life → Db → Db
run_lives [] db = db
run_lives (l ∷ ls) db = run_lives ls (lifespan l db)
