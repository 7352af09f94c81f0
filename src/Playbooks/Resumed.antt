-- ===== src/Playbooks/Resumed.antt =====
-- What `_execute_run_actions` of backend/app/services/playbooks.py leaves of the other runs.
use forjd.Playbooks.Replays.{run_actions-runs}
use forjd.Playbooks.Runs.{
  Run, Store, is_run, refresh_run, refresh_run_status, Delivery, run_actions, execute_plan,
  execute_found, execute_run_actions,
}
use forjd.Playbooks.Plan.{normalize_action_plan}
use forjd.Playbooks.Results.{PlanEntry}
use forjd.Prelude.{
  ℕ, ◌≡◌, refl, sym, subst, false, ◌&&◌, Option, none, some, List, arith, string_eq, nat_eq, ◌==◌,
  find, update_row, update, map-mem,
}
use mathlib.Core.List.{Memᴰ}

refresh-mem :
    (now tenant_id run_id : ℕ) (store : Store) {run : Run}
    → Memᴰ run store.runs
    → (run.id == run_id) ≡ false
    → Memᴰ run (refresh_run_status now tenant_id run_id store).runs
unfolding refresh_run_status
refresh-mem now tenant_id run_id store {run} m other =
    let named = is_run tenant_id run_id in
    let change = refresh_run now tenant_id run_id store in
    let passed : named run ≡ false = ground (arith, other) in
    subst (λ r. Memᴰ r (update named change store.runs)) (rw passed refl)
      (map-mem (update_row named change) m)

plan-mem :
    (now tenant_id run_id : ℕ) (deliver : PlanEntry → Delivery) (store : Store)
    → (plan : Option (List PlanEntry)) → {run : Run} → Memᴰ run store.runs
    → (run.id == run_id) ≡ false
    → Memᴰ run (execute_plan now tenant_id run_id deliver store plan).0.runs
unfolding execute_plan
plan-mem now tenant_id run_id deliver store none m other = m
plan-mem now tenant_id run_id deliver store (some plan) {run} m other =
    refresh-mem now tenant_id run_id (run_actions tenant_id run_id deliver plan store)
      (subst (Memᴰ run) (sym (run_actions-runs tenant_id run_id deliver plan store)) m) other

found-mem :
    (now tenant_id run_id : ℕ) (deliver : PlanEntry → Delivery) (store : Store) (o : Option Run)
    → {run : Run} → Memᴰ run store.runs
    → (run.id == run_id) ≡ false
    → Memᴰ run (execute_found now tenant_id run_id deliver store o).0.runs
unfolding execute_found
found-mem now tenant_id run_id deliver store none m other = m
found-mem now tenant_id run_id deliver store (some found) m other =
    plan-mem now tenant_id run_id deliver store (normalize_action_plan found.action_plan_snapshot) m
      other

-- The run of another id is not changed by a resumption.
pub resumed-mem :
    (now tenant_id run_id playbook_id : ℕ) (deliver : PlanEntry → Delivery) (store : Store)
    → {run : Run} → Memᴰ run store.runs
    → (run.id == run_id) ≡ false
    → Memᴰ run (execute_run_actions now tenant_id run_id playbook_id deliver store).0.runs
unfolding execute_run_actions
resumed-mem now tenant_id run_id playbook_id deliver store m other =
    found-mem now tenant_id run_id deliver store
      (find (λ r. is_run tenant_id run_id r && r.playbook_id == playbook_id) store.runs) m other
