-- ===== src/Examples/Demos.antt =====
-- The demonstration scripts, run on the new database that each of them makes.
use agentic_engineering_url.Prelude.{
  ◌==◌, ℕ, ◌≡◌, refl, Bool, true, false, ◌&&◌, Option, none, some, [], ◌∷◌, leb, if◌then◌else◌,
  Result, ok, err,
}
use Prim.Native.Char.{Char, code}
use mathlib.Core.Option
use agentic_engineering_url.Sql.{fetch, fetch_last, select, count, update}
use agentic_engineering_url.Schema.{Db, empty_db}
use agentic_engineering_url.Schema.Status.{WorkflowStatus}
use agentic_engineering_url.Observability.Audit.{record_event, get_events_for_workflow}
use agentic_engineering_url.Orchestration.Models.{
  create_workflow_instance, add_stage, add_dependencies, get_dependencies, get_stages,
  get_workflow_instance,
}
use agentic_engineering_url.Orchestration.Lineage.{append}
use agentic_engineering_url.Orchestration.Scheduler.{
  compute_ready_stages, is_eligible, mark_ready, claim_stage, claim_selected, complete_stage,
}
use agentic_engineering_url.Policy.Manifest.{Manifest}
use agentic_engineering_url.Policy.Evaluator.{evaluate_policy, has_unresolved_fail}
use agentic_engineering_url.Policy.Live.{
  Files, run_mandatory_policy_checks, run_checks, check_policy, check_dependency_secret_scan,
  check_change_control, is_release_ready, all_policy_reasons, policy_reasons,
}
use agentic_engineering_url.Scripts.Demo.{Failure, Run}
use agentic_engineering_url.Scripts.Greenfield.{greenfield_main, add_chain, drive_chain}
use agentic_engineering_url.Scripts.Brownfield.{StageIds, brownfield_run}
use agentic_engineering_url.Scripts.Ambiguity.{
  detect_ambiguity, flagged_terms, split_first, strip_marks_left, strip_marks_right, lowered_equals,
  has_number,
}
use agentic_engineering_url.Scripts.Ambiguous.{ambiguous_main}

abbrev run : Run
run = record { workflow = "w1"; worker = "demo-worker"; now = 7; execution_id = λ id. id }

abbrev ascii_digit : Char → Bool
ascii_digit c = leb 48 (code c) && leb (code c) 57

abbrev status_of : Result Failure Db → Option WorkflowStatus
status_of (ok db) = Option.map (λ w. w.status) (fetch (λ w. w.id == "w1") db.flow.workflows)
status_of (err e) = none

vague_faster :
    detect_ambiguity ascii_digit "Make the redirect endpoint Faster!" ≡ some ("faster" ∷ [])
unfolding detect_ambiguity flagged_terms split_first strip_marks_left strip_marks_right
    lowered_equals has_number select
vague_faster = refl

measured_faster : detect_ambiguity ascii_digit "Make it faster: under 50 ms" ≡ none
unfolding detect_ambiguity flagged_terms split_first strip_marks_left strip_marks_right
    lowered_equals has_number select
measured_faster = refl

ambiguous_completed :
    status_of (ambiguous_main run "s1" ascii_digit "Make the redirect endpoint faster" empty_db)
    ≡ some WorkflowStatus.completed
unfolding ambiguous_main detect_ambiguity flagged_terms split_first strip_marks_left
    strip_marks_right lowered_equals has_number select fetch count update append record_event
    create_workflow_instance get_workflow_instance add_stage add_dependencies get_dependencies
    compute_ready_stages is_eligible mark_ready claim_stage claim_selected complete_stage
ambiguous_completed = refl

abbrev stages : StageIds
stages = record { impact_analysis = "s1"; implementation = "s2"; regression = "s3" }

brownfield_outcome :
    (passed : Bool)
    → status_of (brownfield_run run stages "Exempt GET /health" passed empty_db)
      ≡ some (if passed then WorkflowStatus.completed else WorkflowStatus.safe_stopped)
unfolding brownfield_run select fetch count update append record_event create_workflow_instance
    get_workflow_instance add_stage add_dependencies get_dependencies compute_ready_stages
    is_eligible mark_ready claim_stage claim_selected complete_stage
brownfield_outcome true = refl
brownfield_outcome false = refl

-- The dependency scan passes where the lock file is not older than the project file.
abbrev files : Option ℕ → Files
files lockfile = record { lockfile = lockfile; pyproject = some 4 }

abbrev manifest : Manifest
manifest = record { version = "1"; policies = "dependency-secret-scan" ∷ "change-control" ∷ [] }

abbrev greenfield_run : Option ℕ → Result Failure Db
greenfield_run lockfile =
    greenfield_main run "Expose the audit trail" (λ name. name) (files lockfile) manifest empty_db

-- Without a lock file the scan fails, and so does the assertion.
greenfield_outcomes :
    (status_of (greenfield_run (some 5)) ≡ some WorkflowStatus.completed)
    × (status_of (greenfield_run none) ≡ none)
unfolding greenfield_main add_chain drive_chain select fetch fetch_last count update append
    record_event get_events_for_workflow create_workflow_instance get_workflow_instance get_stages
    add_stage add_dependencies get_dependencies compute_ready_stages is_eligible mark_ready
    claim_stage claim_selected complete_stage run_mandatory_policy_checks run_checks check_policy
    check_dependency_secret_scan check_change_control evaluate_policy is_release_ready
    all_policy_reasons policy_reasons has_unresolved_fail
greenfield_outcomes = (refl, refl)
