-- ===== src/Orchestration/Workspace.antt =====
-- src/orchestration/workspace.py: the promotion of a worktree's files into the main tree.
pub mod Promotion
pub mod Worktrees
pub mod Copied
pub mod Closed
pub mod Late
use agentic_engineering_url.Prelude.{
  ℕ, ◌+◌, String, Bool, true, false, not, ◌&&◌, none, some, [], ◌∷◌, ◌++◌, ◌==◌, nat_eq,
  if◌then◌else◌, Result, ok, err,
}
use agentic_engineering_url.Sql.{fetch, update, count}
use agentic_engineering_url.Schema.{FlowDb, Execution, Evidence}
use agentic_engineering_url.Schema.Status.{StageStatus, ExecutionStatus, is_live, is_abandoned}
use agentic_engineering_url.Orchestration.Scheduler.{fenced, set_status, set_execution}
use agentic_engineering_url.Orchestration.Validators.{
  File, Tree, ValidatorArgs, ValidatorError, run_builtin_validator,
}

-- The database, and the files of the main working tree.
pub record World : Type 0 where
  pub db : FlowDb
  pub repo : Tree

abbrev same_path : String → File → Bool
same_path path f = f.path == path

-- A file is written over one of the same path.
unfoldable pub write_file : File → Tree → Tree
write_file f repo =
    if nat_eq (count (same_path f.path) repo) 0
    then repo ++ f ∷ []
    else update (same_path f.path) (λ g. record g { content = f.content }) repo

-- The loop over the worktree's items, which passes over ".git".
unfoldable pub copy_items : Tree → Tree → Tree
copy_items [] repo = repo
copy_items (f ∷ fs) repo = copy_items fs (if f.item == ".git" then repo else write_file f repo)

abbrev set_where : (Execution → Bool) → ExecutionStatus → FlowDb → FlowDb
set_where p status db = record db { executions = update p (set_execution status) db.executions }

abbrev pub is_fenced_ok : FlowDb → String → Bool
is_fenced_ok db id = elim (fetch (λ e. e.id == id) db.executions) [
  | none ↦ false
  | some e ↦ is_live e.status
]

abbrev pub is_revision_ok : FlowDb → (stage revision : String) → Bool
is_revision_ok db id revision = elim (fetch (λ s. s.id == id) db.stages) [
  | none ↦ false
  | some s ↦ s.artifact_revision == revision
]

abbrev pub record_detail : String → Evidence → FlowDb → FlowDb
record_detail id evidence db = record db {
  executions =
      update (λ e. e.id == id) (λ e. record e { outcome_detail = some evidence }) db.executions;
}

abbrev set_stage : StageStatus → ℕ → String → FlowDb → FlowDb
set_stage status now id db = record db {
  stages = update (λ s. s.id == id) (set_status status now) db.stages;
}

-- The completion write, and after it the copy and the stage's status.
abbrev promote : ℕ → (execution stage : String) → Tree → World → World × Bool
promote now execution stage worktree w =
    if nat_eq (count (fenced execution) w.db.executions) 0 then (w, false) else (
      record {
        db =
            set_stage StageStatus.succeeded now stage
              (set_where (fenced execution) ExecutionStatus.completed w.db);
        repo = copy_items worktree w.repo;
      },
      true,
    )

-- The three gates, in their order, once the validator has run and its evidence is recorded.
unfoldable pub pass_gates :
    ℕ
    → (execution stage : String) → Tree
    → (fenced_ok revision_ok passed : Bool) → World
    → World × Bool
pass_gates now execution stage worktree fenced_ok revision_ok passed w =
    if not fenced_ok
    then (
      record w {
        db =
            set_where (λ e. (e.id == execution) && not (is_abandoned e.status))
              ExecutionStatus.abandoned w.db;
      },
      false,
    )
    else if not revision_ok
    then (record w { db = set_where (λ e. e.id == execution) ExecutionStatus.failed w.db }, false)
    else if not passed
    then (
      record w {
        db =
            set_stage StageStatus.failed_transient now stage
              (set_where (λ e. e.id == execution) ExecutionStatus.failed w.db);
      },
      false,
    )
    else promote now execution stage worktree w

unfoldable pub promote_or_reject :
    (sha256 : String → String)
    → ℕ
    → (execution stage : String) → Tree
    → (expected_revision : String) → (validator : String) → ValidatorArgs
    → World
    → World × Result ValidatorError Bool
promote_or_reject sha256 now execution stage worktree expected validator args w =
    elim (run_builtin_validator sha256 validator worktree args) [
      | err e ↦ (w, err e)
      | ok result ↦
          let (w', promoted) =
            pass_gates now execution stage worktree (is_fenced_ok w.db execution)
              (is_revision_ok w.db stage expected) result.passed
              (record w { db = record_detail execution result.evidence w.db }) in
          (w', ok promoted)
    ]
