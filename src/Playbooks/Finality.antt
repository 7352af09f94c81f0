-- ===== src/Playbooks/Finality.antt =====
-- The action results that no later statement changes.
use mathlib.Core.List.{Memᴰ}
use text.Mathlib.TextEquality.{eq_iff}
use forjd.Prelude.{
  ℕ, String, ◌≡◌, subst, inl, inr, Bool, true, false, ◌&&◌, ◌||◌, List, [], ◌∷◌, map, arith, eq_iff,
  leb, string_eq, nat_eq, Bool-cases, contains, Distinct, map-mem, append-mem,
}
use forjd.Playbooks.Delivery.{ActionStatus, unsupported, has_failed}
use forjd.Playbooks.Results.{
  PlanEntry, ActionResult, Results, has_succeeded, is_webhook, is_control_plane, has_result,
  insert_result, is_due,
}
use forjd.Playbooks.Table.{
  Statement, persist, claim_due, finalize, ack, retry, claimed_ids, step_row, execute, ids, Step,
  statement, start, start_elsewhere, Reach, here, next,
}
use forjd.Playbooks.Sequence.{claimed_is_due}
use forjd.Playbooks.Constraints.{IsKept, Reach-IsKept}

abbrev is_unsupported : ActionStatus → Bool
is_unsupported unsupported = true
is_unsupported _ = false

-- Succeeded, unsupported, refused by an operator, or failed without attempts left.
abbrev pub is_settled : ActionResult → Bool
is_settled r =
    has_succeeded r.status
    || is_unsupported r.status
    || (has_failed r.status && (is_control_plane r.action_type || leb r.max_attempts r.attempt))

control-is_webhook : (t : String) → is_control_plane t ≡ true → is_webhook t ≡ false
control-is_webhook t h = elim (Bool-cases (is_webhook t)) [
  | inl e ↦
      let same : t ≡ "webhook" = (eq_iff t "webhook").0 e in
      let bad : false ≡ true = subst (λ w. is_control_plane w ≡ true) same h in ground (arith, bad)
  | inr e ↦ e
]

settled_is_not_due : (now : ℕ) (r : ActionResult) → is_settled r ≡ true → is_due now r ≡ false
unfolding is_due
settled_is_not_due now r h = ground arith

settled-step_row :
    (s : Statement) {r : ActionResult} {t : Results}
    → Distinct (ids t)
    → Memᴰ r t
    → is_settled r ≡ true
    → step_row s t r ≡ r
unfolding step_row
settled-step_row (claim_due now worker batch_size locked) {r} {t} keyed m h =
    elim (Bool-cases (contains (claimed_ids now batch_size locked t) r.id)) [
      | inl e ↦
          let due = claimed_is_due now worker batch_size locked keyed m e in
          ground (arith, settled_is_not_due now r h)
      | inr e ↦ rw e
    ]
settled-step_row (retry now run_id result_id) {r} keyed m h =
    ground (arith, control-is_webhook r.action_type)
settled-step_row (persist now lease x) keyed m h = ground arith
settled-step_row (finalize now) keyed m h = ground arith
settled-step_row (ack now run_id result_id ok reference metadata) keyed m h = ground arith

execute-mem :
    (s : Statement) {r : ActionResult} {t : Results}
    → Distinct (ids t)
    → Memᴰ r t
    → is_settled r ≡ true
    → Memᴰ r (execute s t)
unfolding execute
execute-mem s {r} {t} keyed m h =
    subst (λ b. Memᴰ b (map (step_row s t) t)) (settled-step_row s keyed m h)
      (map-mem (step_row s t) m)

insert-mem : (r b : ActionResult) (t : Results) → Memᴰ r t → Memᴰ r (insert_result b t)
unfolding insert_result
insert-mem r b t m = elim (Bool-cases (has_result b.run_id b.action_plan_key t)) [
  | inl e ↦ rw e m
  | inr e ↦ rw e (append-mem t (b ∷ []) m)
]

module _ (run_id : ℕ) (plan : List PlanEntry) (r : ActionResult)
    (settled : is_settled r ≡ true) where
  Step-mem : {t u : Results} → Step run_id plan t u → Distinct (ids t) → Memᴰ r t → Memᴰ r u
  Step-mem {t} (statement s e) keyed m = rw e (execute-mem s keyed m settled)
  Step-mem {t} (start done rest action now id lease_owner split before fresh e) keyed m =
      rw e (insert-mem r _ t m)
  Step-mem {t} (start_elsewhere other now id lease_owner action differs fresh e) keyed m =
      rw e (insert-mem r _ t m)

  -- A result that has succeeded, is unsupported, was refused by an operator, or has failed with no
  -- attempts left stays in the table as it is, whatever handlers and workers do.
  pub settled_is_final : {t u : Results} → Reach run_id plan t u → IsKept t → Memᴰ r t → Memᴰ r u
  settled_is_final here h m = m
  settled_is_final (next s step) h m =
      Step-mem step (Reach-IsKept run_id plan s h).keyed (settled_is_final s h m)
