-- ===== src/Domain/Validation.antt =====
-- src/domain/validation.py: destination URLs and expiry timestamps.
-- `urlparse`, `ipaddress.ip_address`, `socket.getaddrinfo` and `datetime.fromisoformat` are the
-- parameter `Outside`.
pub mod Accepted
use agentic_engineering_url.Prelude.{
  ◌>>=◌, ◌>>◌, ℕ, String, Bool, true, false, not, ◌||◌, Option, none, some, List, [], ◌∷◌, ◌==◌,
  leb, if◌then◌else◌, is_some, Result, ok, err,
}

-- The parts of `urlparse(url)` that the program reads.
pub record ParsedUrl : Type 0 where
  pub scheme : String
  pub netloc : String
  pub hostname : Option String

pub record Address : Type 0 where
  pub is_loopback : Bool
  pub is_private : Bool
  pub is_link_local : Bool
  pub is_reserved : Bool

-- A parsed timestamp: its instant, a naive one being read as UTC, and whether it names an offset.
pub record Stamp : Type 0 where
  pub instant : ℕ
  pub is_aware : Bool

-- What `getaddrinfo` does: it returns addresses, or raises gaierror, or UnicodeError, a ValueError,
-- for a name that cannot be encoded.
pub data Lookup : Type 0 where
  resolved : List String → Lookup
  unresolvable unencodable : Lookup

-- `none` is the ValueError that the call raises.
pub record Outside : Type 0 where
  pub urlparse : String → Option ParsedUrl
  pub ip_address : String → Option Address
  pub getaddrinfo : String → Lookup
  pub fromisoformat : String → Option Stamp

-- What the domain functions raise. The first six are ValidationError; `value_error` and `type_error`
-- are the exceptions of library calls that the code does not catch.
pub data DomainError : Type 0 where
  empty_url bad_scheme no_location no_hostname private_address : DomainError
  bad_timestamp not_in_future : DomainError
  value_error type_error : DomainError
  codes_exhausted : DomainError

abbrev pub is_validation_error : DomainError → Bool
is_validation_error DomainError.value_error = false
is_validation_error DomainError.type_error = false
is_validation_error DomainError.codes_exhausted = false
is_validation_error _ = true

abbrev pub guard : Bool → DomainError → Result DomainError (Unit {0})
guard true e = ok tt
guard false e = err e

abbrev pub or_raise {ℓ} : {A : Type ℓ} → Option A → DomainError → Result DomainError A
or_raise (some a) e = ok a
or_raise none e = err e

abbrev pub is_internal : Address → Bool
is_internal ip = ip.is_loopback || (ip.is_private || (ip.is_link_local || ip.is_reserved))

module _ (os : Outside) where
  -- for addr in candidates: …
  unfoldable pub reject_internal : List String → Result DomainError (Unit {0})
  reject_internal [] = ok tt
  reject_internal (addr ∷ rest) =
      let later = reject_internal rest in
      do
        ip ← or_raise (os.ip_address addr) DomainError.value_error
        guard (not (is_internal ip)) DomainError.private_address
        later

  -- The addresses that are looked at: the literal one, or what the name resolves to. Only gaierror
  -- is caught.
  unfoldable pub candidates : String → Result DomainError (List String)
  candidates hostname =
      if is_some (os.ip_address hostname)
      then ok (hostname ∷ [])
      else elim (os.getaddrinfo hostname) [
        | resolved addrs ↦ ok addrs
        | unresolvable ↦ ok []
        | unencodable ↦ err DomainError.value_error
      ]

  unfoldable pub reject_private_or_internal_address : Option String → Result DomainError (Unit {0})
  unfolding reject_internal candidates
  reject_private_or_internal_address none = err DomainError.no_hostname
  reject_private_or_internal_address (some hostname) = do
    guard (not (hostname == "")) DomainError.no_hostname
    addrs ← candidates hostname
    reject_internal addrs

  abbrev pub is_allowed_scheme : String → Bool
  is_allowed_scheme scheme = (scheme == "https") || (scheme == "http")

  unfoldable pub validate_destination_url : String → Result DomainError (Unit {0})
  unfolding reject_private_or_internal_address
  validate_destination_url url = do
    guard (not (url == "")) DomainError.empty_url
    parsed ← or_raise (os.urlparse url) DomainError.value_error
    guard (is_allowed_scheme parsed.scheme) DomainError.bad_scheme
    guard (not (parsed.netloc == "")) DomainError.no_location
    reject_private_or_internal_address parsed.hostname

  unfoldable pub validate_expires_at : ℕ → Option String → Result DomainError (Unit {0})
  validate_expires_at now none = ok tt
  validate_expires_at now (some text) = do
    parsed ← or_raise (os.fromisoformat text) DomainError.bad_timestamp
    guard (not (leb parsed.instant now)) DomainError.not_in_future
