-- ===== src/Api/RateLimit/Window.antt =====
-- The rate limit over any window of a minute, for src/api/middleware/rate_limit.py.
use agentic_engineering_url.Prelude.{
  ℕ, ◌+◌, ◌≤◌, ◌<◌, String, ◌≡◌, refl, sym, subst, ◌↔◌, inl, inr, false, ◌&&◌, List, [], ◌∷◌, ◌++◌,
  arith, ◌==◌, eq_refl, leb, if◌then◌else◌, eq→≡, Bool-cases, length, All, All-append, All-map,
}
use mathlib.Core.List.{append-nil, append_assoc}
use agentic_engineering_url.Sql.{count}
use agentic_engineering_url.Sql.Laws.{count-append, count_mono, count_of_none}
use agentic_engineering_url.Api.RateLimit.{
  window, limit_per_minute, Buckets, reset_all, Request, limited, client_ip, is_exempt, prune,
  set_bucket, dispatch, Admission, entry, admissions, serve,
}
use agentic_engineering_url.Api.RateLimit.Bucket.{
  prune-prune, length-prune-append_new, prune-All, All-prune,
}

-- The admissions of a client that are at most a window old.
abbrev pub recent : String → ℕ → List Admission → ℕ
recent client now = count (λ a. (a.client == client) && leb now (a.time + window))

-- The admissions of a client in the window that begins at `start`.
abbrev pub in_window : String → ℕ → List Admission → ℕ
in_window client start =
    count (λ a. (a.client == client) && (leb start a.time && leb a.time (start + window)))

-- Requests come in the order of their times, from `last` on.
abbrev pub IsOrdered : ℕ → List Request → Type 0
IsOrdered last [] = Unit
IsOrdered last (r ∷ rs) = (last ≤ r.time) × IsOrdered r.time rs

-- A client's bucket is what was admitted of it in the last window, whenever that is asked, and no
-- window has had more than the limit.
pub record IsFaithful (client : String) (last : ℕ) (log : List Admission) (bucket : List ℕ)
    : Type 0 where
  pub past : All (λ a. a.time ≤ last) log
  pub old : All (λ t. t ≤ last) bucket
  pub same : (now : ℕ) → last ≤ now → length (prune now bucket) ≡ recent client now log
  pub capped : (start : ℕ) → in_window client start log ≤ limit_per_minute

later-IsFaithful :
    (client : String) (last now : ℕ) (log : List Admission) (bucket : List ℕ)
    → last ≤ now
    → IsFaithful client last log bucket
    → IsFaithful client now log bucket
later-IsFaithful client last now log bucket h f = record {
  past = All-map log (λ a k. omega arith) f.past;
  old = All-map bucket (λ t k. omega arith) f.old;
  same = λ later k. f.same later (omega arith);
  capped = f.capped;
}

prune-IsFaithful :
    (client : String) (now : ℕ) (log : List Admission) (bucket : List ℕ)
    → IsFaithful client now log bucket
    → IsFaithful client now log (prune now bucket)
prune-IsFaithful client now log bucket f = record {
  past = f.past;
  old = All-prune _ now bucket f.old;
  same = λ later k. rw (prune-prune now later bucket k) (f.same later k);
  capped = f.capped;
}

abbrev admission : String → ℕ → List Admission
admission client now = record { client = client; time = now } ∷ []

recent-append :
    (client c : String) (now t : ℕ) (log : List Admission)
    → recent client now (log ++ admission c t)
      ≡ recent client now log + (if (c == client) && leb now (t + window) then 1 else 0)
unfolding count
recent-append client c now t log = count-append _ log (admission c t)

in_window-append :
    (client c : String) (start t : ℕ) (log : List Admission)
    → in_window client start (log ++ admission c t)
      ≡ in_window client start log
        + (if (c == client) && (leb start t && leb t (start + window)) then 1 else 0)
unfolding count
in_window-append client c start t log = count-append _ log (admission c t)

-- What a window that reaches the present holds is recent.
in_window-le-recent :
    (client : String) (start now : ℕ) (log : List Admission)
    → now ≤ start + window
    → in_window client start log ≤ recent client now log
in_window-le-recent client start now log h = count_mono _ _ (λ a t. ground arith) log

admit_other :
    (client c : String) (now : ℕ) (log : List Admission) (bucket : List ℕ)
    → (c == client) ≡ false
    → IsFaithful client now log bucket
    → IsFaithful client now (log ++ admission c now) bucket
admit_other client c now log bucket ne f = record {
  past = All-append _ log (admission c now) f.past (omega arith, tt);
  old = f.old;
  same = λ later k. ground (arith, f.same later k, recent-append client c later now log);
  capped = λ start. ground (arith, f.capped start, in_window-append client c start now log);
}

-- The bucket with a new time in it, at a later moment.
same-admit :
    (client : String) (now : ℕ) (log : List Admission) (bucket : List ℕ)
    → IsFaithful client now log bucket
    → (later : ℕ) → now ≤ later
    → length (prune later (prune now bucket ++ now ∷ []))
      ≡ recent client later (log ++ admission client now)
same-admit client now log bucket f later k = elim (Bool-cases (leb later (now + window))) [
  | inl e ↦ ground (
    arith,
    length-prune-append_new later now (prune now bucket),
    prune-prune now later bucket k,
    f.same later k,
    recent-append client client later now log,
    eq_refl client,
  )
  | inr e ↦
      let none_left : prune later (prune now bucket ++ now ∷ []) ≡ [] = prune-All later _ (
        All-append _ (prune now bucket) (now ∷ [])
          (All-map (prune now bucket) (λ t o. ground arith) (All-prune _ now bucket f.old))
          (ground arith, tt)) in
      let none_recent : recent client later log ≡ 0 =
        count_of_none _ log (All-map log (λ a o. ground arith) f.past) in
      rw none_left (ground (arith, none_recent, recent-append client client later now log))
]

admit_self :
    (client : String) (now : ℕ) (log : List Admission) (bucket : List ℕ)
    → length (prune now bucket) < limit_per_minute
    → IsFaithful client now log bucket
    → IsFaithful client now (log ++ admission client now) (prune now bucket ++ now ∷ [])
admit_self client now log bucket room f = record {
  past = All-append _ log (admission client now) f.past (omega arith, tt);
  old = All-append _ (prune now bucket) (now ∷ []) (All-prune _ now bucket f.old) (omega arith, tt);
  same = same-admit client now log bucket f;
  capped = λ start. ground (
    arith,
    f.capped start,
    in_window-append client client start now log,
    in_window-le-recent client start now log,
    f.same now (omega arith),
  );
}

-- The bucket of the request's client is pruned, and every other left alone.
step_limited :
    (client c : String) (now : ℕ) (log : List Admission) (buckets : Buckets)
    → IsFaithful client now log (buckets client)
    → IsFaithful client now log (set_bucket buckets c (prune now (buckets c)) client)
step_limited client c now log buckets f = elim (Bool-cases (c == client)) [
  | inl e ↦ rw e (
      subst (λ x. IsFaithful client now log (prune now (buckets x))) (sym (eq→≡ c client e))
        (prune-IsFaithful client now log (buckets client) f))
  | inr e ↦ rw e f
]

step_admitted :
    (client c : String) (now : ℕ) (log : List Admission) (buckets : Buckets)
    → length (prune now (buckets c)) < limit_per_minute
    → IsFaithful client now log (buckets client)
    → IsFaithful client now
        (log ++ admission c now)
        (set_bucket buckets c (prune now (buckets c) ++ now ∷ []) client)
step_admitted client c now log buckets room f = elim (Bool-cases (c == client)) [
  | inl e ↦ rw e (
      subst
        (λ x.
          length (prune now (buckets x)) < limit_per_minute
          → IsFaithful client now (log ++ admission x now) (prune now (buckets x) ++ now ∷ []))
        (sym (eq→≡ c client e)) (λ room'. admit_self client now log (buckets client) room' f) room)
  | inr e ↦ rw e (admit_other client c now log (buckets client) e f)
]

-- One request keeps every client's bucket faithful.
step-IsFaithful :
    (client : String) (last : ℕ) (log : List Admission) (buckets : Buckets) (r : Request)
    → last ≤ r.time
    → IsFaithful client last log (buckets client)
    → let (buckets', verdict) = dispatch r buckets in
      IsFaithful client r.time (log ++ entry r verdict) (buckets' client)
unfolding dispatch
step-IsFaithful client last log buckets r h f =
    let f' = later-IsFaithful client last r.time log (buckets client) h f in
    elim (Bool-cases (is_exempt r.path)) [
      | inl e ↦ rw (e, append-nil) f'
      | inr e ↦
          rw e
            (elim (Bool-cases
              (leb limit_per_minute (length (prune r.time (buckets (client_ip r)))))) [
                | inl full ↦
                    rw (full, append-nil) (step_limited client (client_ip r) r.time log buckets f')
                | inr room ↦
                    rw room
                      (step_admitted client (client_ip r) r.time log buckets (ground arith) f')
              ])
    ]

-- The time of the last request of a run.
abbrev pub end_of : ℕ → List Request → ℕ
end_of last [] = last
end_of last (r ∷ rs) = end_of r.time rs

run-IsFaithful :
    (client : String) (last : ℕ) (log : List Admission) (rs : List Request) (buckets : Buckets)
    → IsOrdered last rs
    → IsFaithful client last log (buckets client)
    → IsFaithful client (end_of last rs) (log ++ admissions rs buckets) (serve rs buckets client)
unfolding admissions serve
run-IsFaithful client last log [] buckets o f = rw append-nil f
run-IsFaithful client last log (r ∷ rs) buckets o f = rw (← append_assoc) (
    run-IsFaithful client r.time (log ++ entry r (dispatch r buckets).1) rs (dispatch r buckets).0
      o.1 (step-IsFaithful client last log buckets r o.0 f))

reset-IsFaithful : (client : String) → IsFaithful client 0 [] []
unfolding prune count
reset-IsFaithful client = record {
  past = tt;
  old = tt;
  same = λ now h. refl;
  capped = λ start. omega arith;
}

module _ (rs : List Request) (ordered : IsOrdered 0 rs) where
  -- From empty buckets, with requests in the order of their times, no client has more than 60
  -- requests admitted in any window of a minute.
  pub no_window_over_limit :
      (client : String) (start : ℕ) → in_window client start (admissions rs reset_all) ≤ 60
  no_window_over_limit client =
      (run-IsFaithful client 0 [] rs reset_all ordered (reset-IsFaithful client)).capped

  -- From empty buckets, after requests in the order of their times, a request that is no earlier
  -- and not exempt is refused exactly when its client had at least 60 requests admitted in the
  -- minute before it.
  pub limited_iff :
      (r : Request)
      → end_of 0 rs ≤ r.time
      → is_exempt r.path ≡ false
      → ((dispatch r (serve rs reset_all)).1 ≡ limited)
        ↔ (60 ≤ recent (client_ip r) r.time (admissions rs reset_all))
  unfolding dispatch
  limited_iff r h e =
      let same =
        (run-IsFaithful (client_ip r) 0 [] rs reset_all ordered
            (reset-IsFaithful (client_ip r))).same
          r.time h in
      ground (arith, same)
