-- ===== src/Orchestration/Validators.antt =====
-- src/orchestration/validators.py: the built-in validators, and the external one, which is blocked.
-- The files of a worktree are named by their paths in it, and `sha256` is hashlib's digest of a text's UTF-8 bytes, in hexadecimal.
use agentic_engineering_url.Prelude.{
  String, Bool, true, false, Option, none, some, List, [], ◌∷◌, ◌==◌, if◌then◌else◌, is_some,
  Result, ok, err, concat,
}
use mathlib.Core.Option
use agentic_engineering_url.Sql.{fetch}
use agentic_engineering_url.Schema.{Evidence}

-- A file: the item at the top of the tree that it is or is in, its path, and its contents.
pub record File : Type 0 where
  pub item : String
  pub path : String
  pub content : String

abbrev pub Tree : Type 0
Tree = List File

-- The contents, if `is_file()`.
unfoldable pub read_file : Tree → String → Option String
read_file tree path = Option.map (λ f. f.content) (fetch (λ f. f.path == path) tree)

pub record ValidatorArgs : Type 0 where
  pub filename : Option String
  pub expected : Option String

pub record ValidatorResult : Type 0 where
  pub evidence : Evidence
  pub passed : Bool

pub data ValidatorError : Type 0 where
  unknown_validator : ValidatorError

abbrev pub with_default : String → Option String → String
with_default d none = d
with_default d (some s) = s

abbrev py_bool : Bool → String
py_bool true = "True"
py_bool false = "False"

abbrev result_of :
    (command output : String)
    → (sha256 : String → String) → List (String × String)
    → Bool
    → ValidatorResult
result_of command output sha256 hashes passed = record {
  evidence = record {
    validator_command = command;
    validator_exit_code = if passed then 0 else 1;
    validator_output_hash = sha256 output;
    artifact_hashes = hashes;
  };
  passed = passed;
}

abbrev hashes_of : (sha256 : String → String) → String → Option String → List (String × String)
hashes_of sha256 filename none = []
hashes_of sha256 filename (some content) = (filename, sha256 content) ∷ []

abbrev call : (name filename : String) → String
call name filename = concat name (concat "(" (concat filename ") -> "))

-- "file_exists"
unfoldable pub file_exists : (sha256 : String → String) → Tree → String → ValidatorResult
file_exists sha256 tree filename =
    let found = read_file tree filename in
    result_of (concat "builtin:file_exists:" filename)
      (concat (call "file_exists" filename) (py_bool (is_some found))) sha256
      (hashes_of sha256 filename found) (is_some found)

-- "content_equals"
unfoldable pub content_equals :
    (sha256 : String → String) → Tree → (filename expected : String) → ValidatorResult
content_equals sha256 tree filename expected = elim (read_file tree filename) [
  | none ↦
      result_of (concat "builtin:content_equals:" filename)
        (concat (call "content_equals" filename) "file missing") sha256 [] false
  | some actual ↦
      result_of (concat "builtin:content_equals:" filename)
        (concat (call "content_equals" filename) (py_bool (actual == expected))) sha256
        (hashes_of sha256 filename (some actual)) (actual == expected)
]

unfoldable pub run_builtin_validator :
    (sha256 : String → String)
    → (name : String) → Tree
    → ValidatorArgs
    → Result ValidatorError ValidatorResult
run_builtin_validator sha256 name tree args =
    let filename = with_default "output.txt" args.filename in
    if name == "file_exists"
    then ok (file_exists sha256 tree filename)
    else if name == "content_equals"
    then ok (content_equals sha256 tree filename (with_default "" args.expected))
    else if name == "no_validator_ran"
    then ok (result_of "builtin:no_validator_ran" "no validator ran" sha256 [] false)
    else err unknown_validator

pub data ExternalError : Type 0 where
  external_command_validator_blocked : ExternalError

-- No external command is ever run.
unfoldable pub run_external_command_validator :
    (command : List String) → Tree → Result ExternalError ValidatorResult
run_external_command_validator command worktree = err external_command_validator_blocked
