-- ===== src/Exports/Constraints.antt =====
-- The CHECK constraints of `export_jobs` on attempts and leases, which every event Keeps.

use forjd.Prelude.{
  ℕ, String, ◌≡◌, inl, inr, Bool, true, not, ◌&&◌, Option, none, some, List, [], ◌∷◌, arith, leb,
  string_eq, nat_eq, ◌==◌, if◌then◌else◌, Bool-cases, is_none, any, find,
}
use forjd.Exports.Jobs.{
  is_running, is_completed, is_failed, ArtifactKey, has_key, Job, is_owner, has_passed, new_job,
  may_recover, recover, may_claim, claim, may_clear, clear, plan, may_renew, renew, Artifact,
  complete, record_failure, may_expire, expire, postpone,
}
use forjd.Exports.Attempts.{
  Stage, begun, cleaned, ready, keyed, planned, renewed, uploaded, discarding, failing, cleaned_up,
  Attempt, own_key, Outcome, returns, raises, raises_late, Export, clean, clear_stale, store_plan,
  renew_lease, finish, clean_up, fail, advance, Event, passes, recovers, claims, acts, beats,
  crashes, expiry_deletes, expiry_updates, expiry_postpones, deletes, is_number, act, beat, handle,
  run, new_export,
}

-- A property of a row that every statement of an attempt Keeps is kept by every call of an attempt.
module _ (P : Job → Type 0) (now : ℕ) (artifact : Artifact) (error_class : String) (a : Attempt)
    (j : Job) (stored : List ArtifactKey) (same : P j)
    (on_clear : (key : ArtifactKey) → may_clear a.owner key j ≡ true → P (clear j))
    (on_plan : is_owner j.lease_owner a.owner ≡ true → P (plan (own_key a) j))
    (on_renewal : may_renew a.owner j ≡ true → P (renew now j))
    (on_completion : is_owner j.lease_owner a.owner ≡ true
      → P (complete now (own_key a) artifact j))
    (on_failure : (c : Bool)
      → is_owner j.lease_owner a.owner ≡ true
      → P (record_failure now error_class c a.durable j)) where
  keep-clear_stale : (durable : Option ArtifactKey) → P (clear_stale a j stored durable).row
  keep-clear_stale none = same
  keep-clear_stale (some key) = elim (Bool-cases (may_clear a.owner key j)) [
    | inl t ↦ rw t (on_clear key t)
    | inr t ↦ rw t same
  ]

  keep-store_plan : P (store_plan a j stored).row
  keep-store_plan = elim (Bool-cases a.lease_lost) [
    | inl lost ↦ rw lost same
    | inr kept ↦ elim (Bool-cases (is_owner j.lease_owner a.owner)) [
      | inl t ↦ rw (kept, t) (on_plan t)
      | inr t ↦ rw (kept, t) same
    ]
  ]

  keep-renew_lease : P (renew_lease now a j stored).row
  keep-renew_lease = elim (Bool-cases (may_renew a.owner j)) [
    | inl t ↦ elim (Bool-cases a.lease_lost) [
      | inl lost ↦ rw (t, lost) (on_renewal t)
      | inr kept ↦ rw (t, kept) (on_renewal t)
    ]
    | inr t ↦ rw t same
  ]

  keep-finish : P (finish now artifact a j stored).row
  keep-finish = elim (Bool-cases (is_owner j.lease_owner a.owner)) [
    | inl t ↦ rw t (on_completion t)
    | inr t ↦ rw t same
  ]

  keep-fail : (c : Bool) → P (fail now error_class c a j stored).row
  keep-fail c = elim (Bool-cases (is_owner j.lease_owner a.owner)) [
    | inl t ↦ rw t (on_failure c t)
    | inr t ↦ rw t same
  ]

  keep-clean : (durable : Option ArtifactKey) → P (clean a j stored durable).row
  keep-clean none = same
  keep-clean (some key) = same

  keep-clean_up :
      (outcome : Outcome) (durable : Option ArtifactKey)
      → P (clean_up outcome a j stored durable).row
  keep-clean_up returns none = same
  keep-clean_up returns (some key) = same
  keep-clean_up raises none = same
  keep-clean_up raises (some key) = same
  keep-clean_up raises_late none = same
  keep-clean_up raises_late (some key) = same

  pub keep-advance :
      (s : Stage) (outcome : Outcome)
      → P (advance now artifact error_class a j stored s outcome).row
  keep-advance begun returns = keep-clean a.durable
  keep-advance begun raises = same
  keep-advance begun raises_late = same
  keep-advance cleaned returns = keep-clear_stale a.durable
  keep-advance cleaned raises = same
  keep-advance cleaned raises_late = same
  keep-advance ready returns = same
  keep-advance ready raises = same
  keep-advance ready raises_late = same
  keep-advance keyed returns = keep-store_plan
  keep-advance keyed raises = same
  keep-advance keyed raises_late = same
  keep-advance planned returns = keep-renew_lease
  keep-advance planned raises = same
  keep-advance planned raises_late = same
  keep-advance renewed returns = same
  keep-advance renewed raises = same
  keep-advance renewed raises_late = same
  keep-advance uploaded returns = keep-finish
  keep-advance uploaded raises = same
  keep-advance uploaded raises_late = same
  keep-advance discarding returns = same
  keep-advance discarding raises = same
  keep-advance discarding raises_late = same
  keep-advance failing outcome = keep-clean_up outcome a.durable
  keep-advance (cleaned_up c) returns = keep-fail c
  keep-advance (cleaned_up c) raises = same
  keep-advance (cleaned_up c) raises_late = same

-- `export_jobs_lease_shape` and the attempts of `export_jobs_attempts_bounds`.
abbrev pub has_lease_shape : Job → Bool
has_lease_shape j =
    if is_running j.status
    then not (is_none j.lease_owner) && not (is_none j.lease_expires_at)
    else is_none j.lease_owner && is_none j.lease_expires_at

abbrev pub is_allowed : ℕ → Job → Bool
is_allowed bound j = j.max_attempts == bound && leb j.attempts bound && has_lease_shape j

module _ (bound now : ℕ) (j : Job) (h : is_allowed bound j ≡ true) where
  recover-is_allowed : is_allowed bound (recover now j) ≡ true
  unfolding recover
  recover-is_allowed = ground arith

  claim-is_allowed :
      (owner : ℕ) → may_claim now j ≡ true → is_allowed bound (claim now owner j) ≡ true
  unfolding claim may_claim
  claim-is_allowed owner may = ground arith

  expire-is_allowed : (key : ArtifactKey) → is_allowed bound (expire now key j) ≡ true
  unfolding expire
  expire-is_allowed key = elim (Bool-cases (is_completed j.status && has_passed now j.expires_at)) [
    | inl e ↦ rw e (ground arith)
    | inr e ↦ elim (Bool-cases (is_failed j.status && has_key j.object_key key)) [
      | inl f ↦ rw (e, f) h
      | inr f ↦ rw (e, f) h
    ]
  ]

  postpone-is_allowed : (key : ArtifactKey) → is_allowed bound (postpone now key j) ≡ true
  unfolding postpone
  postpone-is_allowed key = elim (Bool-cases (has_key j.object_key key)) [
    | inl e ↦ rw e h
    | inr e ↦ rw e h
  ]

  renew-is_allowed : is_running j.status ≡ true → is_allowed bound (renew now j) ≡ true
  unfolding renew
  renew-is_allowed runs = ground arith

  failure-is_allowed :
      (error_class : String) (c : Bool) (durable : Option ArtifactKey)
      → is_allowed bound (record_failure now error_class c durable j) ≡ true
  unfolding record_failure
  failure-is_allowed error_class c durable = ground arith

  complete-is_allowed :
      (key : ArtifactKey) (artifact : Artifact)
      → is_allowed bound (complete now key artifact j) ≡ true
  unfolding complete
  complete-is_allowed key artifact = ground arith

Allowed : ℕ → Export → Type 0
Allowed bound e = is_allowed bound e.job ≡ true

act-Allowed :
    (bound n : ℕ) (outcome : Outcome) (artifact : Artifact) (error_class : String) (e : Export)
    (found : Option Attempt)
    → Allowed bound e
    → Allowed bound (act n outcome artifact error_class e found)
unfolding Allowed clear plan may_renew
act-Allowed bound n outcome artifact error_class e none h = h
act-Allowed bound n outcome artifact error_class e (some a) h =
    keep-advance (λ j. is_allowed bound j ≡ true) e.clock artifact error_class a e.job e.stored h
      (λ key may. h) (λ owner. h) (λ may. renew-is_allowed bound e.clock e.job h (ground arith))
      (λ owner. complete-is_allowed bound e.clock e.job h (own_key a) artifact)
      (λ c owner. failure-is_allowed bound e.clock e.job h error_class c a.durable) a.stage outcome

beat-Allowed :
    (bound n : ℕ) (e : Export) (found : Option Attempt)
    → Allowed bound e
    → Allowed bound (beat n e found)
unfolding Allowed may_renew
beat-Allowed bound n e none h = h
beat-Allowed bound n e (some a) h = elim (Bool-cases (may_renew a.owner e.job)) [
  | inl t ↦ rw t (renew-is_allowed bound e.clock e.job h (ground arith))
  | inr t ↦ rw t h
]

handle-Allowed :
    (bound : ℕ) (event : Event) (e : Export) → Allowed bound e → Allowed bound (handle event e)
unfolding handle Allowed
handle-Allowed bound (passes seconds) e h = h
handle-Allowed bound recovers e h = elim (Bool-cases (may_recover e.clock e.job)) [
  | inl t ↦ rw t (recover-is_allowed bound e.clock e.job h)
  | inr t ↦ rw t h
]
handle-Allowed bound (claims owner) e h =
    elim (Bool-cases (may_claim e.clock e.job && not (any (λ a. a.owner == owner) e.attempts))) [
      | inl t ↦ rw t (claim-is_allowed bound e.clock e.job h owner (ground arith))
      | inr t ↦ rw t h
    ]
handle-Allowed bound (acts n outcome artifact error_class) e h =
    act-Allowed bound n outcome artifact error_class e (find (is_number n) e.attempts) h
handle-Allowed bound (beats n) e h = beat-Allowed bound n e (find (is_number n) e.attempts) h
handle-Allowed bound (crashes n) e h = h
handle-Allowed bound expiry_deletes e h = elim (Bool-cases (may_expire e.clock e.job)) [
  | inl t ↦ rw t h
  | inr t ↦ rw t h
]
handle-Allowed bound (expiry_updates key) e h = expire-is_allowed bound e.clock e.job h key
handle-Allowed bound (expiry_postpones key) e h = postpone-is_allowed bound e.clock e.job h key
handle-Allowed bound deletes e h = h

run-Allowed :
    (bound : ℕ) (events : List Event) (e : Export) → Allowed bound e → Allowed bound (run events e)
unfolding run
run-Allowed bound [] e h = h
run-Allowed bound (event ∷ events) e h =
    run-Allowed bound events (handle event e) (handle-Allowed bound event e h)

-- In every history of an export job its attempts stay within the bound of its creation, which never
-- changes, and it has a lease owner with an expiry exactly while it is running.
pub exports_are_allowed :
    (now max_attempts : ℕ) (events : List Event)
    → is_allowed max_attempts (run events (new_export now max_attempts)).job ≡ true
unfolding new_export new_job Allowed
exports_are_allowed now max_attempts events =
    run-Allowed max_attempts events (new_export now max_attempts) (ground arith)
