-- ===== src/Playbooks/Summary.antt =====
-- The status of a run against the statuses of its actions.
use mathlib.Core.List.{Memᴰ}
use forjd.Prelude.{
  ℕ, ◌≤◌, ◌≡◌, refl, ap, ◌∙◌, ◌↔◌, inl, inr, Bool, true, false, ◌&&◌, ◌||◌, none, List, [], ◌∷◌,
  arith, string_eq, nat_eq, ◌==◌, if◌then◌else◌, Bool-cases, is_none, coalesce, length, any, all,
  All, update_row, All-map_mem,
}
use forjd.Playbooks.Delivery.{ActionStatus, has_failed}
use forjd.Playbooks.Results.{
  Results, is_running, is_retry_scheduled, is_awaiting_ack, has_succeeded,
}
use forjd.Playbooks.Runs.{
  run_succeeded, run_failed, Run, Store, summarize_action_statuses, is_open, is_run, statuses_of,
  refresh_run, refresh_run_status,
}
use forjd.Playbooks.Workers.{holds_baton}

any-holds_baton :
    (ss : List ActionStatus)
    → any holds_baton ss
      ≡ (any is_running ss || any is_retry_scheduled ss || any is_awaiting_ack ss)
any-holds_baton [] = refl
any-holds_baton (s ∷ rest) = ground (arith, any-holds_baton rest)

all-succeeded_baton :
    (ss : List ActionStatus) → all has_succeeded ss ≡ true → any holds_baton ss ≡ false
all-succeeded_baton [] h = refl
all-succeeded_baton (s ∷ rest) h = ground (arith, all-succeeded_baton rest)

-- A run is open exactly while an action runs, waits for a retry or waits for an acknowledgement,
-- it has succeeded exactly when every action has, and it has failed as a whole only if it has an
-- action and every action failed.
summary_iff :
    (ss : List ActionStatus)
    → (is_open (summarize_action_statuses ss) ≡ any holds_baton ss)
      × ((summarize_action_statuses ss ≡ run_succeeded) ↔ (all has_succeeded ss ≡ true))
      × (summarize_action_statuses ss ≡ run_failed → (all has_failed ss ≡ true) × (1 ≤ length ss))
unfolding summarize_action_statuses
summary_iff [] = (refl, (λ e. refl, λ e. refl), λ e. ground arith)
summary_iff (s ∷ rest) = (
  ground (arith, any-holds_baton (s ∷ rest)),
  (
    λ e. ground arith,
    λ e. ground (arith, all-succeeded_baton (s ∷ rest), any-holds_baton (s ∷ rest)),
  ),
  λ e. (ground arith, omega arith),
)

module _ (now tenant_id run_id : ℕ) (store : Store) where
  abbrev pub refreshed : Store
  refreshed = refresh_run_status now tenant_id run_id store

  -- The run's own status, and its completion time where it has one.
  abbrev pub IsConsistent : Run → Type 0
  IsConsistent run =
      is_run tenant_id run_id run ≡ true
      → (is_open run.status
          ≡ any (λ r. r.run_id == run_id && holds_baton r.status) refreshed.results)
        × (is_none run.completed_at ≡ is_open run.status)

select-baton :
    (run_id : ℕ) (t : Results)
    → any holds_baton (statuses_of run_id t)
      ≡ any (λ r. r.run_id == run_id && holds_baton r.status) t
select-baton run_id [] = refl
select-baton run_id (r ∷ rest) = ground (arith, select-baton run_id rest)

present :
    (p : Run → Bool) (run : Run) (runs : List Run)
    → Memᴰ run runs
    → p run ≡ true
    → any p runs ≡ true
present p run runs (Memᴰ.head e) h = ground (arith, ap p e)
present p run runs (Memᴰ.tail {xs = rest} m) h = ground (arith, present p run rest m h)

refresh_row :
    (now tenant_id run_id : ℕ) (store : Store) (ss : List ActionStatus)
    → any holds_baton ss ≡ any (λ r. r.run_id == run_id && holds_baton r.status) store.results
    → (run : Run) → is_run tenant_id run_id run ≡ true
    → (is_open (summarize_action_statuses ss)
        ≡ any (λ r. r.run_id == run_id && holds_baton r.status) store.results)
      × (is_none
            (if is_open (summarize_action_statuses ss) then none else coalesce run.completed_at now)
          ≡ is_open (summarize_action_statuses ss))
refresh_row now tenant_id run_id store ss e run h = (
  (summary_iff ss).0 ∙ e,
  elim (Bool-cases (is_open (summarize_action_statuses ss))) [
    | inl o ↦ rw o refl
    | inr o ↦ rw o (ground arith)
  ],
)

refresh_each :
    (now tenant_id run_id : ℕ) (store : Store) (run : Run)
    → Memᴰ run store.runs
    → IsConsistent now tenant_id run_id store
        (update_row (is_run tenant_id run_id) (refresh_run now tenant_id run_id store) run)
unfolding refresh_run_status
refresh_each now tenant_id run_id store run m = elim (Bool-cases (is_run tenant_id run_id run)) [
  | inl e ↦
      let found = present (is_run tenant_id run_id) run store.runs m e in
      rw (e, found)
        (λ same.
          refresh_row now tenant_id run_id store (statuses_of run_id store.results)
            (select-baton run_id store.results) run e)
  | inr e ↦ rw e (λ same. ground (arith, e, same))
]

-- After `_refresh_run_status` the run of the tenant is open exactly while one of its actions is under
-- way, and has a completion time exactly when it is closed; the action results are as they were.
pub refresh-IsConsistent :
    (now tenant_id run_id : ℕ) (store : Store)
    → All (IsConsistent now tenant_id run_id store) (refreshed now tenant_id run_id store).runs
      × ((refreshed now tenant_id run_id store).results ≡ store.results)
unfolding refresh_run_status
refresh-IsConsistent now tenant_id run_id store = (
  All-map_mem (IsConsistent now tenant_id run_id store) _ store.runs
      (λ run m. refresh_each now tenant_id run_id store run m),
  refl,
)
