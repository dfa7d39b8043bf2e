-- ===== src/Scripts/BootstrapCredentials.antt =====
-- scripts/bootstrap_credentials.py: provisioning the tokens from the command line.
use agentic_engineering_url.Prelude.{String, Bool, List, Result, ok, err, ◌∷◌, []}
use agentic_engineering_url.Schema.Status.{Role}
use agentic_engineering_url.Api.Auth.{Provision, SecretFiles, bootstrap, CredentialError}

-- What the program prints: the raw tokens, or the error with which it exits.
pub data Printed : Type 0 where
  tokens : List (String × String) → Printed
  exited : CredentialError → Printed

abbrev printed : Result CredentialError (List (String × String)) → Printed
printed (ok raw) = Printed.tokens raw
printed (err e) = Printed.exited e

-- DEFAULT_IDENTITIES, with what `secrets` draws for each.
abbrev pub default_provisions : (token_a salt_a token_b salt_b : String) → List Provision
default_provisions token_a salt_a token_b salt_b =
    record { identity = "alice"; role = Role.reviewer_approver; token = token_a; salt = salt_a }
    ∷ record { identity = "bob"; role = Role.release_owner; token = token_b; salt = salt_b }
    ∷ []

unfoldable pub bootstrap_main :
    (sha256 : String → String)
    → List Provision
    → (force : Bool) → SecretFiles
    → SecretFiles × Printed
bootstrap_main sha256 provisions force files =
    let (files', result) = bootstrap sha256 provisions force files in (files', printed result)
