-- ===== src/Api/RateLimit.antt =====
-- src/api/middleware/rate_limit.py: 60 requests a minute for each client.
-- `time.monotonic()` is a number of microseconds. The module's `_BUCKETS`, a `defaultdict(deque)`,
-- is a function from clients to the times of their counted requests, oldest first.
pub mod Bucket
pub mod Window
use agentic_engineering_url.Prelude.{
  ℕ, ◌+◌, ◌-◌, String, Bool, Option, none, some, List, [], ◌∷◌, ◌++◌, ◌==◌, ltb, leb, if◌then◌else◌,
  length,
}

abbrev pub limit_per_minute : ℕ
limit_per_minute = 60

abbrev pub window : ℕ
window = 60_000_000

abbrev pub is_exempt : String → Bool
is_exempt path = path == "/health"

abbrev pub Buckets : Type 0
Buckets = String → List ℕ

abbrev pub reset_all : Buckets
reset_all client = []

pub record Request : Type 0 where
  pub path : String
  pub client : Option String
  pub time : ℕ

pub data Verdict : Type 0 where
  exempt admitted limited : Verdict

abbrev pub client_ip : Request → String
client_ip r = elim r.client [ none ↦ "unknown" | some host ↦ host ]

-- while bucket and now - bucket[0] > WINDOW_SECONDS: bucket.popleft()
unfoldable pub prune : ℕ → List ℕ → List ℕ
prune now [] = []
prune now (t ∷ ts) = let rest = prune now ts in if ltb window (now - t) then rest else t ∷ ts

abbrev pub set_bucket : Buckets → String → List ℕ → Buckets
set_bucket buckets client ts c = if client == c then ts else buckets c

unfoldable pub dispatch : Request → Buckets → Buckets × Verdict
dispatch r buckets =
    if is_exempt r.path
    then (buckets, exempt)
    else let bucket = prune r.time (buckets (client_ip r)) in
      if leb limit_per_minute (length bucket)
      then (set_bucket buckets (client_ip r) bucket, limited)
      else (set_bucket buckets (client_ip r) (bucket ++ r.time ∷ []), admitted)

-- A request that was counted against its client.
pub record Admission : Type 0 where
  pub client : String
  pub time : ℕ

abbrev pub entry : Request → Verdict → List Admission
entry r admitted = record { client = client_ip r; time = r.time } ∷ []
entry r _ = []

-- The requests that a run counts, in order.
unfoldable pub admissions : List Request → Buckets → List Admission
admissions [] buckets = []
admissions (r ∷ rs) buckets =
    let (buckets', verdict) = dispatch r buckets in entry r verdict ++ admissions rs buckets'

-- The buckets after a run.
unfoldable pub serve : List Request → Buckets → Buckets
serve [] buckets = buckets
serve (r ∷ rs) buckets = serve rs (dispatch r buckets).0
