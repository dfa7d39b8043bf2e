-- ===== src/Api/Application/Deleted.antt =====
-- A short link that is deleted stays so over whole lives of the application: src/api/main.py with
-- src/domain/short_link.py.
use agentic_engineering_url.Prelude.{
  arith, ℕ, String, ◌≡◌, ◌≢◌, ap, ◌∙◌, inl, inr, false, Option, none, some, List, [], ◌∷◌,
  Bool-cases,
}
use agentic_engineering_url.Schema.{Db, ShortLink}
use agentic_engineering_url.Schema.Status.{is_active}
use agentic_engineering_url.Domain.Validation.{Outside}
use agentic_engineering_url.Domain.ShortLink.{get_short_link}
use agentic_engineering_url.Orchestration.Scheduler.{is_in}
use agentic_engineering_url.Orchestration.LiveScheduler.Links.{tick-link}
use agentic_engineering_url.Api.ShortLinks.{body}
use agentic_engineering_url.Api.Redirect.{resolve_short_link}
use agentic_engineering_url.Api.Redirect.Outcomes.{redirects_iff}
use agentic_engineering_url.Api.Requests.Creation.{link_at}
use agentic_engineering_url.Api.Requests.Status.{handle-IsKept}
use agentic_engineering_url.Api.Application.{
  startup, shutdown, Process, Event, serve_one, serve_all, before_yield, after_yield, Life,
  end_life, lifespan, run_lives,
}

module _ (code : String) (l : ShortLink) (gone : is_active l.status ≡ false) where
  serve_one-link :
      (e : Event) (s : Process)
      → link_at s.db.link code ≡ some l
      → link_at (serve_one e s).db.link code ≡ some l
  serve_one-link (Event.pass p) s h = elim (Bool-cases (is_in s.loops.running p.worker)) [
    | inl y ↦ rw y (ap (λ x. link_at x code) (tick-link p s.db) ∙ h)
    | inr n ↦ rw n h
  ]
  serve_one-link (Event.request r) s h = (handle-IsKept r s.db).1 code l h gone
  serve_one-link Event.acknowledgement s h = h

  serve_all-link :
      (es : List Event) (s : Process)
      → link_at s.db.link code ≡ some l
      → link_at (serve_all es s).db.link code ≡ some l
  unfolding serve_all
  serve_all-link [] s h = h
  serve_all-link (e ∷ es) s h = serve_all-link es (serve_one e s) (serve_one-link e s h)

  end_life-link :
      (stop : Option ℕ) (s : Process)
      → link_at s.db.link code ≡ some l
      → link_at (end_life stop s).link code ≡ some l
  unfolding after_yield shutdown
  end_life-link none s h = h
  end_life-link (some now) s h = h

  run_lives-link :
      (ls : List Life) (db : Db)
      → link_at db.link code ≡ some l
      → link_at (run_lives ls db).link code ≡ some l
  unfolding run_lives lifespan before_yield startup
  run_lives-link [] db h = h
  run_lives-link (x ∷ xs) db h =
      let begun = before_yield x.worker x.started db in
      run_lives-link xs (lifespan x db)
        (end_life-link x.ended (serve_all x.events begun) (serve_all-link x.events begun h))

-- A short link that is there and not active, that is deleted, when a life of the application begins
-- does not redirect after it or after any later one, whatever requests and passes come, and between
-- whichever two of them a crash ends a life.
pub deleted_for_ever :
    (ls : List Life) (code : String) (l : ShortLink) (db : Db)
    → link_at db.link code ≡ some l
    → is_active l.status ≡ false
    → (os : Outside) (later : ℕ) (url : String)
    → (resolve_short_link os later code (run_lives ls db)).1 ≢ body url
unfolding get_short_link
deleted_for_ever ls code l db h gone os later url e =
    let (link, found, x, active, y) = (redirects_iff os later code (run_lives ls db) url).0 e in
    let still = run_lives-link code l gone ls db h in
    absurd (ground (arith, found, still, active, gone))
