-- ===== src/Limits/Window.antt =====
-- `_SLIDING_WINDOW` and `_enforce_sliding_window` of backend/app/core/rate_limit.py. Times are
-- milliseconds. The sorted set of a key is the list of its scores, the newest first; its members are
-- unique, and when the key expires all its scores are stale.
use forjd.Prelude.{
  ℕ, ◌+◌, ◌-◌, ◌/◌, min, max, Bool, true, false, Option, none, some, List, [], ◌∷◌, ltb, leb,
  if◌then◌else◌, length, select,
}

abbrev pub window_ms : ℕ
window_ms = 60000

-- A score that `ZREMRANGEBYSCORE key 0 (now - window)` leaves.
abbrev pub is_fresh : ℕ → ℕ → Bool
is_fresh now score = ltb now (score + window_ms)

abbrev pub Scores : Type 0
Scores = List ℕ

-- `ZRANGE key 0 0 WITHSCORES`
oldest : Scores → Option ℕ
oldest [] = none
oldest (s ∷ rest) = elim (oldest rest) [ none ↦ some s | some o ↦ some (min s o) ]

-- `math.max(1, window - (now - oldest))`, or the window where the set is empty
unfoldable pub wait_ms : ℕ → Scores → ℕ
unfolding oldest
wait_ms now scores = elim (oldest scores) [
  | none ↦ window_ms
  | some o ↦ max 1 (window_ms + o - now)
]

pub record Verdict : Type 0 where
  pub allowed : Bool
  pub count : ℕ
  pub retry_ms : ℕ

-- The script, which Redis runs atomically.
unfoldable pub sliding_window : ℕ → ℕ → Scores → Scores × Verdict
unfolding wait_ms
sliding_window now limit scores =
    let kept = select (is_fresh now) scores in
    if leb limit (length kept)
    then (kept, record { allowed = false; count = length kept; retry_ms = wait_ms now kept })
    else (
      now ∷ kept,
      record { allowed = true; count = length kept + 1; retry_ms = wait_ms now (now ∷ kept) },
    )

-- What a request gets: it goes on, 429 with `Retry-After`, or 503.
pub data Decision : Type 0 where
  goes_on : Decision
  too_many : ℕ → Decision
  unavailable : Decision

-- `math.ceil(ms / 1000)`
abbrev pub seconds_of : ℕ → ℕ
seconds_of ms = (ms + 999) / 1000

-- How the call of the script ended.
pub data Redis : Type 0 where
  absent : Redis
  errored : Redis
  connected : Scores → Redis

unfoldable pub decide : Verdict → Decision
decide v = if v.allowed then goes_on else too_many (max 1 (seconds_of v.retry_ms))

-- `_enforce_sliding_window`: without Redis production fails closed, and development goes on.
unfoldable pub enforce_sliding_window : Bool → ℕ → ℕ → Redis → Redis × Decision
unfolding sliding_window decide
enforce_sliding_window is_production now limit absent =
    (absent, if is_production then unavailable else goes_on)
enforce_sliding_window is_production now limit errored =
    (errored, if is_production then unavailable else goes_on)
enforce_sliding_window is_production now limit (connected scores) =
    let (kept, verdict) = sliding_window now limit scores in (connected kept, decide verdict)

-- The requests of one key at the given times: the set, and the times admitted, the newest first.
unfoldable pub admit : ℕ → ℕ → Scores × List ℕ → Scores × List ℕ
unfolding sliding_window
admit limit now (scores, log) =
    let (kept, verdict) = sliding_window now limit scores in
    (kept, if verdict.allowed then now ∷ log else log)

unfoldable pub admit_all : ℕ → List ℕ → Scores × List ℕ → Scores × List ℕ
unfolding admit
admit_all limit [] state = state
admit_all limit (now ∷ later) state = admit_all limit later (admit limit now state)
