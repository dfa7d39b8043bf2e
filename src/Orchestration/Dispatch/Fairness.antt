-- ===== src/Orchestration/Dispatch/Fairness.antt =====
-- Tasks that get their turns come to an end, for src/orchestration/scheduler.py.
use agentic_engineering_url.Prelude.{
  ℕ, zero, suc, ◌-◌, ◌≤◌, ◌<◌, String, ◌≡◌, refl, ap, ◌∙◌, true, false, Option, none, some, List,
  [], ◌∷◌, map, arith, nat_eq, if◌then◌else◌, All, length,
}
use agentic_engineering_url.Sql.{count}
use agentic_engineering_url.Schema.{FlowDb}
use agentic_engineering_url.Orchestration.Scheduler.{claim_stage}
use agentic_engineering_url.Orchestration.Dispatch.{
  Phase, Task, Turn, claim_first, claimed_task, resume, step_from, step_at, gather, new_task,
  has_ended, has_raised, all_ended, any_raised, start_times, Dispatched,
  dispatch_ready_stages_parallel,
}

-- The turns that a task still needs; one that has raised is out of reach.
abbrev needs : Phase → ℕ
needs Phase.waiting = 2
needs Phase.executing = 1
needs Phase.lost = 0
needs Phase.finished = 0
needs Phase.raised = 3

-- The task at each position needs no more turns than the bound there.
abbrev AllWithin : (ℕ → ℕ) → List Task → Type 0
AllWithin bound [] = Unit
AllWithin bound (t ∷ ts) = (needs t.phase ≤ bound 0) × AllWithin (λ j. bound (suc j)) ts

AllWithin-map :
    (f g : ℕ → ℕ) (ts : List Task)
    → ((j : ℕ) → j < length ts → f j ≤ g j)
    → AllWithin f ts
    → AllWithin g ts
AllWithin-map f g [] h k = tt
AllWithin-map f g (t ∷ ts) h k = (
  omega (arith, k.0, h 0),
  AllWithin-map (λ j. f (suc j)) (λ j. g (suc j)) ts (λ j l. h (suc j) (omega arith)) k.1,
)

claimed-needs :
    (worker : String) (turn : Turn) (t : Task) (won : Option String)
    → needs (claimed_task worker turn t won).phase ≤ 1
claimed-needs worker turn t none = omega arith
claimed-needs worker turn t (some e) = omega arith

module _ (worker : String) (turn : Turn) (calm : turn.raises ≡ false) where
  step-needs :
      (p : Phase) (t : Task) (db : FlowDb) (n : ℕ)
      → t.phase ≡ p
      → n ≤ 2
      → needs p ≤ n
      → needs (step_from worker turn p t db).1.phase ≤ n - 1
  unfolding claim_first resume
  step-needs Phase.waiting t db n e b h = omega (
    arith,
    claimed-needs worker turn t (claim_stage t.execution_id worker turn.now t.stage_id db).1,
  )
  step-needs Phase.executing t db n e b h = rw calm (omega arith)
  step-needs Phase.lost t db n e b h = rw e (omega arith)
  step-needs Phase.finished t db n e b h = rw e (omega arith)
  step-needs Phase.raised t db n e b h = absurd (omega arith)

  turn-AllWithin :
      (i : ℕ) (ts : List Task) (db : FlowDb) (bound : ℕ → ℕ)
      → ((j : ℕ) → bound j ≤ 2)
      → AllWithin bound ts
      → AllWithin (λ j. if nat_eq i j then bound j - 1 else bound j) (step_at worker turn i ts db).1
  unfolding step_at
  turn-AllWithin i [] db bound b h = tt
  turn-AllWithin zero (t ∷ ts) db bound b h = (
    step-needs t.phase t db (bound 0) refl (b 0) h.0,
    AllWithin-map (λ j. bound (suc j)) _ ts (λ j l. ground arith) h.1,
  )
  turn-AllWithin (suc i) (t ∷ ts) db bound b h = (
    ground (arith, h.0),
    AllWithin-map _ _ (step_at worker turn i ts db).1 (λ j l. ground arith)
        (turn-AllWithin i ts db (λ j. bound (suc j)) (λ j. b (suc j)) h.1),
  )

abbrev pub given : List Turn → ℕ → ℕ
given turns i = count (λ t. nat_eq t.position i) turns

gather-AllWithin :
    (worker : String) (turns : List Turn) (ts : List Task) (db : FlowDb) (bound : ℕ → ℕ)
    → All (λ t. t.raises ≡ false) turns
    → ((j : ℕ) → bound j ≤ 2)
    → AllWithin bound ts
    → AllWithin (λ j. bound j - given turns j) (gather worker turns ts db).1
unfolding gather count
gather-AllWithin worker [] ts db bound calm b h = AllWithin-map bound _ ts (λ j l. omega arith) h
gather-AllWithin worker (turn ∷ turns) ts db bound calm b h =
    let (db', ts') = step_at worker turn turn.position ts db in
    AllWithin-map _ _ (gather worker turns ts' db').1 (λ j l. ground arith)
      (gather-AllWithin worker turns ts' db'
        (λ j. if nat_eq turn.position j then bound j - 1 else bound j) calm.1
        (λ j. ground (arith, b j))
        (turn-AllWithin worker turn calm.0 turn.position ts db bound b h))

done_task : (p : Phase) → needs p ≤ 0 → (has_raised p ≡ false) × (has_ended p ≡ true)
done_task Phase.waiting h = absurd (omega arith)
done_task Phase.executing h = absurd (omega arith)
done_task Phase.lost h = (refl, refl)
done_task Phase.finished h = (refl, refl)
done_task Phase.raised h = absurd (omega arith)

all_done :
    (ts : List Task) → AllWithin (λ j. 0) ts → (any_raised ts ≡ false) × (all_ended ts ≡ true)
all_done [] h = (refl, refl)
all_done (t ∷ ts) h =
    let (raised, ended) = done_task t.phase h.0 in
    let rest = all_done ts h.1 in (rw (raised, rest.0) refl, rw (ended, rest.1) refl)

length-step_at :
    (worker : String) (turn : Turn) (i : ℕ) (ts : List Task) (db : FlowDb)
    → length (step_at worker turn i ts db).1 ≡ length ts
unfolding step_at
length-step_at worker turn i [] db = refl
length-step_at worker turn zero (t ∷ ts) db = refl
length-step_at worker turn (suc i) (t ∷ ts) db = ap suc (length-step_at worker turn i ts db)

length-gather :
    (worker : String) (turns : List Turn) (ts : List Task) (db : FlowDb)
    → length (gather worker turns ts db).1 ≡ length ts
unfolding gather
length-gather worker [] ts db = refl
length-gather worker (turn ∷ turns) ts db =
    let (db', ts') = step_at worker turn turn.position ts db in
    length-gather worker turns ts' db' ∙ length-step_at worker turn turn.position ts db

start-AllWithin : (stages : List (String × String)) → AllWithin (λ j. 2) (map new_task stages)
start-AllWithin [] = tt
start-AllWithin (x ∷ xs) = (omega arith, start-AllWithin xs)

length-start : (stages : List (String × String)) → length (map new_task stages) ≡ length stages
length-start [] = refl
length-start (x ∷ xs) = ap suc (length-start xs)

-- If `execute_fn` never raises and each task gets at least two turns, in whatever order, then the
-- dispatch returns.
pub fair_dispatch_returns :
    (worker workflow : String) (stages : List (String × String)) (turns : List Turn) (now : ℕ)
    (db : FlowDb)
    → All (λ t. t.raises ≡ false) turns
    → ((i : ℕ) → i < length stages → 2 ≤ given turns i)
    → (times : List (String × ℕ)) × ((dispatch_ready_stages_parallel worker workflow stages turns
          now db).1
        ≡ Dispatched.returned times)
unfolding dispatch_ready_stages_parallel
fair_dispatch_returns worker workflow stages turns now db calm fair =
    let ts = (gather worker turns (map new_task stages) db).1 in
    let size = length-gather worker turns (map new_task stages) db ∙ length-start stages in
    let (raised, ended) = all_done ts (
      AllWithin-map _ (λ j. 0) ts (λ j l. omega (arith, fair j (omega (arith, size))))
        (gather-AllWithin worker turns (map new_task stages) db (λ j. 2) calm (λ j. omega arith)
          (start-AllWithin stages))) in
    (start_times ts, rw (raised, ended) refl)
