-- ===== src/Orchestration/Workspace/Copied.antt =====
-- What the main tree holds after a copy, path by path, for src/orchestration/workspace.py.
use agentic_engineering_url.Prelude.{
  String, ◌≡◌, refl, sym, subst, inl, inr, true, false, not, eq_refl, other_way, ◌&&◌, Option, none,
  some, [], ◌∷◌, arith, ◌==◌, nat_eq, eq→≡, Bool-cases, Option-cases,
}
use agentic_engineering_url.Sql.{fetch, fetch_last, count}
use agentic_engineering_url.Sql.Laws.{fetch-append, fetch-update, fetch-holds}
use agentic_engineering_url.Orchestration.Validators.{File, Tree, read_file}
use agentic_engineering_url.Orchestration.Workspace.{write_file, copy_items}

-- A content found in the worktree hides that of the main tree.
abbrev pub over : Option File → Option String → Option String
over none old = old
over (some f) old = some f.content

-- The last file of the worktree at the path that does not lie in ".git".
abbrev pub copy_of : String → Tree → Option File
copy_of path worktree = fetch_last (λ f. (f.path == path) && not (f.item == ".git")) worktree

no_file :
    (path : String) (repo : Tree)
    → nat_eq (count (λ f. f.path == path) repo) 0 ≡ true
    → fetch (λ f. f.path == path) repo ≡ none
unfolding count fetch
no_file path [] h = refl
no_file path (f ∷ fs) h = elim (Bool-cases (f.path == path)) [
  | inl y ↦ absurd (ground (arith, y))
  | inr n ↦ ground (arith, n, no_file path fs (ground (arith, n)))
]

a_file :
    (path : String) (repo : Tree)
    → nat_eq (count (λ f. f.path == path) repo) 0 ≡ false
    → (f : File) × (fetch (λ f. f.path == path) repo ≡ some f)
unfolding count fetch
a_file path [] h = absurd (ground arith)
a_file path (f ∷ fs) h = elim (Bool-cases (f.path == path)) [
  | inl y ↦ (f, ground (arith, y))
  | inr n ↦ let (g, e) = a_file path fs (ground (arith, n)) in (g, ground (arith, n, e))
]

read-write_own : (f : File) (repo : Tree) → read_file (write_file f repo) f.path ≡ some f.content
unfolding read_file write_file fetch
read-write_own f repo = elim (Bool-cases (nat_eq (count (λ g. g.path == f.path) repo) 0)) [
  | inl y ↦ ground (
    arith,
    y,
    no_file f.path repo y,
    fetch-append (λ g. g.path == f.path) repo (f ∷ []),
    eq_refl f.path,
  )
  | inr n ↦
      let (g, e) = a_file f.path repo n in
      ground (
        arith,
        n,
        e,
        fetch-holds (λ h. h.path == f.path) repo g e,
        fetch-update (λ h. h.path == f.path) (λ h. h.path == f.path)
            (λ h. record h { content = f.content }) (λ h t. refl) repo,
      )
]

read-write_other :
    (f : File) (repo : Tree) (path : String)
    → (f.path == path) ≡ false
    → read_file (write_file f repo) path ≡ read_file repo path
unfolding read_file write_file fetch
read-write_other f repo path d = elim (Bool-cases (nat_eq (count (λ g. g.path == f.path) repo) 0)) [
  | inl y ↦
      let e = fetch-append (λ g. g.path == path) repo (f ∷ []) in
      elim (Option-cases (fetch (λ g. g.path == path) repo)) [
        | inl n ↦ ground (arith, y, e, n, d)
        | inr q ↦ ground (arith, y, e, q.1)
      ]
  | inr n ↦
      let e =
        fetch-update (λ h. h.path == f.path) (λ h. h.path == path)
          (λ h. record h { content = f.content }) (λ h t. refl) repo in
      elim (Option-cases (fetch (λ g. g.path == path) repo)) [
        | inl m ↦ ground (arith, n, e, m)
        | inr q ↦
            let at = eq→≡ q.0.path path (fetch-holds (λ g. g.path == path) repo q.0 q.1) in
            let apart : (q.0.path == f.path) ≡ false =
              subst (λ z. (z == f.path) ≡ false) (sym at) (other_way f.path path d) in
            ground (arith, n, e, q.1, apart)
      ]
]

-- After a copy, each path has the content of the worktree's last file there, if there is one
-- outside ".git", and otherwise what it had.
pub read-copy_items :
    (path : String) (worktree repo : Tree)
    → read_file (copy_items worktree repo) path ≡ over (copy_of path worktree) (read_file repo path)
unfolding copy_items fetch_last
read-copy_items path [] repo = refl
read-copy_items path (f ∷ fs) repo = elim (Bool-cases (f.item == ".git")) [
  | inl g ↦ elim (Option-cases (copy_of path fs)) [
    | inl n ↦ ground (arith, g, n, read-copy_items path fs repo)
    | inr q ↦ ground (arith, g, q.1, read-copy_items path fs repo)
  ]
  | inr g ↦
      let rest = read-copy_items path fs (write_file f repo) in
      elim (Option-cases (copy_of path fs)) [
        | inr q ↦ ground (arith, g, q.1, rest)
        | inl n ↦ elim (Bool-cases (f.path == path)) [
          | inl y ↦
              let own =
                subst (λ z. read_file (write_file f repo) z ≡ some f.content) (eq→≡ f.path path y)
                  (read-write_own f repo) in
              ground (arith, g, n, y, rest, own)
          | inr d ↦ ground (arith, g, n, d, rest, read-write_other f repo path d)
        ]
      ]
]
