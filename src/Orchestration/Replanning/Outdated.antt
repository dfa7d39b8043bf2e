-- ===== src/Orchestration/Replanning/Outdated.antt =====
-- The approvals of older revisions, for src/orchestration/replanning.py.
use agentic_engineering_url.Prelude.{ℕ, ◌<◌, String, ◌≡◌, Bool, true, List, ◌==◌}
use agentic_engineering_url.Sql.{count}
use agentic_engineering_url.Schema.{Approval}
use agentic_engineering_url.Orchestration.Replanning.{is_outdated}

abbrev same_id : Approval → Approval → Bool
same_id a b = a.id == b.id

module _ (now : ℕ) (workflow revision : String) where
  -- An outdated row is among those that are still to be invalidated.
  abbrev IsAwaited : List Approval → Approval → Type 0
  IsAwaited rows b = is_outdated workflow revision b ≡ true → 0 < count (same_id b) rows
