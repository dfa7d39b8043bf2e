-- ===== src/Orchestration/Workspace/Worktrees.antt =====
-- src/orchestration/workspace.py: creating and removing a worktree by git commands. What a command
-- does to the machine, and `shutil.rmtree`, are parameters.
use agentic_engineering_url.Prelude.{
  arith, String, ◌≡◌, inl, inr, Bool, true, false, List, [], ◌∷◌, if◌then◌else◌, Bool-cases, Result,
  ok, err, concat,
}

-- How `subprocess.run` ends: with a return code that is 0 or is not, or by raising TimeoutExpired.
pub data Completed : Type 0 where
  exited : (success : Bool) → Completed
  timed_out : Completed

pub data WorkspaceError : Type 0 where
  git_worktree_add_failed timeout_expired : WorkspaceError

-- What the functions need of a machine with files of type `Files`.
pub record Machine : Type 1 where
  pub Files : Type 0
  pub run : List String → Files → Files × Completed
  pub exists : (path : String) → Files → Bool
  pub rmtree : (path : String) → Files → Files

abbrev branch_of : String → String
branch_of execution = concat "exec-" execution

module _ (m : Machine) where
  abbrev run_git : (repo : String) → List String → m.Files → m.Files × Completed
  run_git repo args = m.run ("git" ∷ "-C" ∷ repo ∷ args)

  abbrev created : (path : String) → Completed → Result WorkspaceError String
  created path (exited true) = ok path
  created path (exited false) = err git_worktree_add_failed
  created path timed_out = err timeout_expired

  -- `root` has no trailing slash, and an execution's id is a plain name.
  unfoldable pub create_worktree :
      (repo execution root : String) → m.Files → m.Files × Result WorkspaceError String
  create_worktree repo execution root files =
      let path = concat root (concat "/" execution) in
      let (files', completed) =
        run_git repo ("worktree" ∷ "add" ∷ "-b" ∷ branch_of execution ∷ path ∷ "HEAD" ∷ []) files in
      (files', created path completed)

  -- The next command, unless this one has timed out; its return code is not looked at.
  abbrev then_run :
      m.Files × Completed
      → (m.Files → m.Files × Result WorkspaceError (Unit {0}))
      → m.Files × Result WorkspaceError (Unit {0})
  then_run (files, exited success) next = next files
  then_run (files, timed_out) next = (files, err timeout_expired)

  abbrev clear_directory : String → m.Files → m.Files × Result WorkspaceError (Unit {0})
  clear_directory path files = (if m.exists path files then m.rmtree path files else files, ok tt)

  abbrev prune_worktrees :
      (repo path : String) → m.Files → m.Files × Result WorkspaceError (Unit {0})
  prune_worktrees repo path files =
      then_run (run_git repo ("worktree" ∷ "prune" ∷ []) files) (clear_directory path)

  abbrev delete_branch :
      (repo execution path : String) → m.Files → m.Files × Result WorkspaceError (Unit {0})
  delete_branch repo execution path files =
      then_run (run_git repo ("branch" ∷ "-D" ∷ branch_of execution ∷ []) files)
        (prune_worktrees repo path)

  unfoldable pub remove_worktree :
      (repo execution path : String) → m.Files → m.Files × Result WorkspaceError (Unit {0})
  remove_worktree repo execution path files =
      then_run (run_git repo ("worktree" ∷ "remove" ∷ "--force" ∷ path ∷ []) files)
        (delete_branch repo execution path)

  then_run-ends :
      (x : m.Files × Completed) (next : m.Files → m.Files × Result WorkspaceError (Unit {0}))
      (P : m.Files → Type 0)
      → ((files : m.Files) → (next files).1 ≡ ok tt → P (next files).0)
      → (then_run x next).1 ≡ ok tt
      → P (then_run x next).0
  then_run-ends (files, exited success) next P k h = k files h
  then_run-ends (files, timed_out) next P k h = absurd (ground arith)

  -- If the call returns, the directory is gone, whatever git did and whatever its return codes were,
  -- on a machine on which `rmtree` removes it.
  pub remove_worktree_clears :
      (repo execution path : String) (files : m.Files)
      → ((f : m.Files) → m.exists path (m.rmtree path f) ≡ false)
      → (remove_worktree repo execution path files).1 ≡ ok tt
      → m.exists path (remove_worktree repo execution path files).0 ≡ false
  unfolding remove_worktree
  remove_worktree_clears repo execution path files removes =
      let P : m.Files → Type 0 = λ f. m.exists path f ≡ false in
      then_run-ends (run_git repo ("worktree" ∷ "remove" ∷ "--force" ∷ path ∷ []) files)
        (delete_branch repo execution path) P
        (λ f1.
          then_run-ends (run_git repo ("branch" ∷ "-D" ∷ branch_of execution ∷ []) f1)
            (prune_worktrees repo path) P
            (λ f2.
              then_run-ends (run_git repo ("worktree" ∷ "prune" ∷ []) f2) (clear_directory path) P
                (λ f3 h. cleared f3)))
    where
      cleared : (f : m.Files) → m.exists path (clear_directory path f).0 ≡ false
      cleared f = elim (Bool-cases (m.exists path f)) [ inl y ↦ rw y (removes f) | inr n ↦ rw n n ]
