-- ===== src/Playbooks/Examples.antt =====
-- Runs of the playbook actions on small tables.

use forjd.Playbooks.Summary.{refreshed, IsConsistent, refresh-IsConsistent}
use forjd.Playbooks.Finality.{settled_is_final}
use forjd.Playbooks.Constraints.{IsKept, Reach-IsKept}
use mathlib.Core.List.{Memᴰ}
use forjd.Prelude.{◌≡◌, refl, true, [], ◌∷◌, map, arith, All}
use forjd.Playbooks.Delivery.{succeeded, failed, run_webhook}
use forjd.Playbooks.Results.{has_result, has_succeeded_at}
use forjd.Playbooks.Plan.{HasDistinctKeys}
use forjd.Playbooks.Table.{step_row, Reach}
use forjd.Playbooks.Ordering.{IsSound, Reach-IsSound}
use forjd.Playbooks.Quiet.{IsFresh}
use forjd.Playbooks.Runs.{Store, run_actions}
use forjd.Playbooks.Execution.{run_actions-Reach}
use forjd.Playbooks.Progress.{delivered_run_succeeds}
use forjd.Playbooks.Samples.{two_actions, deliver, store_of, alert}

abbrev after_run : Store
after_run = run_actions 5 1 deliver two_actions (store_of [])

-- Both actions run, one after the other.
both_succeed : map (λ r. r.status) after_run.results ≡ succeeded ∷ succeeded ∷ []
unfolding run_actions run_webhook step_row
both_succeed = refl

two_actions-HasDistinctKeys : HasDistinctKeys two_actions
two_actions-HasDistinctKeys = ((refl, tt), (tt, tt))

start-IsFresh : IsFresh 1 two_actions deliver two_actions []
start-IsFresh = (refl, (refl, tt), (refl, tt, tt))

run_actions-Reach_example : Reach 1 two_actions [] after_run.results
run_actions-Reach_example = run_actions-Reach 1 two_actions deliver 5 (store_of []) tt start-IsFresh

Reach-IsSound_example : IsSound 1 two_actions after_run.results
unfolding has_result
Reach-IsSound_example =
    Reach-IsSound 1 two_actions-HasDistinctKeys run_actions-Reach_example
      (record { keyed = tt; ordered = (λ _. (refl, tt), (λ _. tt, tt)) })

delivered_run_succeeds_example :
    All (λ b. has_succeeded_at 1 b.key after_run.results ≡ true) two_actions
unfolding run_webhook has_result
delivered_run_succeeds_example =
    delivered_run_succeeds 5 1 deliver two_actions (store_of []) tt start-IsFresh
      two_actions-HasDistinctKeys (refl, (refl, tt))
      (
        record { webhook = refl; alone = refl; delivered = refl },
        (record { webhook = refl; alone = refl; delivered = refl }, tt),
      )

alert-IsKept : IsKept (alert failed ∷ [])
alert-IsKept = ground arith

settled_is_final_example :
    Memᴰ (alert failed) (run_actions 5 1 deliver two_actions (store_of (alert failed ∷ []))).results
settled_is_final_example =
    settled_is_final 1 two_actions (alert failed) refl
      (run_actions-Reach 1 two_actions deliver 5 (store_of (alert failed ∷ [])) (refl, tt)
        (refl, (refl, tt), (refl, tt, tt)))
      alert-IsKept (Memᴰ.head refl)

Reach-IsKept_example :
    IsKept (run_actions 5 1 deliver two_actions (store_of (alert failed ∷ []))).results
Reach-IsKept_example =
    Reach-IsKept 1 two_actions
      (run_actions-Reach 1 two_actions deliver 5 (store_of (alert failed ∷ [])) (refl, tt)
        (refl, (refl, tt), (refl, tt, tt)))
      alert-IsKept

refresh-IsConsistent_example :
    All
      (IsConsistent 1100 5 1 (store_of (alert failed ∷ [])))
      (refreshed 1100 5 1 (store_of (alert failed ∷ []))).runs
    × ((refreshed 1100 5 1 (store_of (alert failed ∷ []))).results ≡ alert failed ∷ [])
refresh-IsConsistent_example = refresh-IsConsistent 1100 5 1 (store_of (alert failed ∷ []))
