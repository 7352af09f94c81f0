-- ===== src/Playbooks/Counts.antt =====
-- The counts that a tick of the retry worker returns.

use forjd.Prelude.{ℕ, ◌+◌, ◌≤◌, ◌≡◌}
use forjd.Playbooks.Runs.{Store, Answer, answered}
use forjd.Playbooks.Workers.{RetryCounts}

-- Each claimed row is counted under one outcome.
abbrev pub outcomes : RetryCounts → ℕ
outcomes c = c.succeeded_count + c.rescheduled + c.failed_count + c.lease_lost

abbrev IsBalanced : ℕ → RetryCounts → Store × Answer RetryCounts → Type 0
IsBalanced bound before (_, answered after) =
    (after.claimed + outcomes before ≡ before.claimed + outcomes after)
    × (after.claimed ≤ before.claimed + bound)
    × (after.exhausted ≡ before.exhausted)
IsBalanced bound before (_, _) = Unit
