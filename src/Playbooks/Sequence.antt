-- ===== src/Playbooks/Sequence.antt =====
-- The actions of a run start one after the other, in the order of its plan.
use mathlib.Core.List.{Memᴰ}
use forjd.Prelude.{
  ℕ, String, ◌≡◌, sym, ◌∙◌, inl, inr, true, false, not, ◌&&◌, List, [], ◌∷◌, arith, string_eq,
  nat_eq, Bool-cases, select, any-append, any-map_keep, contains, Distinct, contains-take,
  select-mem, any-map_grow, sort_by, contains-sort_by,
}
use forjd.Playbooks.Results.{
  ActionResult, Results, has_succeeded, is_for, has_result, has_succeeded_at, insert_result, is_due,
}
use forjd.Playbooks.Table.{Statement, claim_due, comes_before, claimed_ids, step_row, execute, ids}

pub receipt-step_row :
    (s : Statement) (t : Results) (r : ActionResult)
    → ((step_row s t r).id ≡ r.id)
      × ((step_row s t r).run_id ≡ r.run_id)
      × ((step_row s t r).action_plan_key ≡ r.action_plan_key)
unfolding step_row
receipt-step_row s t r = ground arith

pub claimed_is_due :
    (now worker batch_size : ℕ) (locked : List ℕ) {r : ActionResult} {t : Results}
    → Distinct (ids t)
    → Memᴰ r t
    → contains (claimed_ids now batch_size locked t) r.id ≡ true
    → is_due now r ≡ true
unfolding claimed_ids
claimed_is_due now worker batch_size locked {r} {t} keyed m h =
    let passes = λ (b : ActionResult). is_due now b && not (contains locked b.id) in
    let picked =
      contains-take (λ b. b.id) batch_size r.id (sort_by comes_before (select passes t)) h in
    let due : passes r ≡ true =
      select-mem (λ b. b.id) passes keyed m
        (sym (contains-sort_by (λ b. b.id) comes_before r.id (select passes t)) ∙ picked) in
    ground arith

pub due_has_not_succeeded :
    (now : ℕ) (r : ActionResult) → is_due now r ≡ true → has_succeeded r.status ≡ false
unfolding is_due
due_has_not_succeeded now r h = ground arith

-- A succeeded row is final.
pub succeeded-step_row :
    (s : Statement) {r : ActionResult} {t : Results}
    → Distinct (ids t)
    → Memᴰ r t
    → has_succeeded r.status ≡ true
    → step_row s t r ≡ r
unfolding step_row
succeeded-step_row (claim_due now worker batch_size locked) {r} {t} keyed m h =
    elim (Bool-cases (contains (claimed_ids now batch_size locked t) r.id)) [
      | inl e ↦
          let due = claimed_is_due now worker batch_size locked keyed m e in
          ground (arith, due_has_not_succeeded now r due)
      | inr e ↦ rw e
    ]
succeeded-step_row s keyed m h = ground arith

module _ (run_id : ℕ) where
  pub has_result-execute :
      (key : String) (s : Statement) (t : Results)
      → has_result run_id key (execute s t) ≡ has_result run_id key t
  unfolding has_result execute
  has_result-execute key s t =
      any-map_keep (is_for run_id key) (step_row s t)
        (λ r. let (_, run, plan_key) = receipt-step_row s t r in rw (run, plan_key)) t

  pub has_succeeded_at-execute :
      (key : String) (s : Statement) (t : Results)
      → Distinct (ids t)
      → has_succeeded_at run_id key t ≡ true
      → has_succeeded_at run_id key (execute s t) ≡ true
  unfolding has_succeeded_at execute
  has_succeeded_at-execute key s t keyed =
      any-map_grow (λ r. is_for run_id key r && has_succeeded r.status) (step_row s t) t
        (λ r m h.
          let final : step_row s t r ≡ r = succeeded-step_row s keyed m (ground arith) in
          rw final h)

  pub has_result-insert :
      (key : String) (r : ActionResult) (t : Results)
      → is_for run_id key r ≡ false
      → has_result run_id key (insert_result r t) ≡ has_result run_id key t
  unfolding insert_result
  has_result-insert key r t h = ground (arith, any-append (is_for run_id key) t (r ∷ []))

  pub has_succeeded_at-insert :
      (key : String) (r : ActionResult) (t : Results)
      → has_succeeded_at run_id key t ≡ true
      → has_succeeded_at run_id key (insert_result r t) ≡ true
  unfolding insert_result has_succeeded_at
  has_succeeded_at-insert key r t h =
      ground (arith, any-append (λ b. is_for run_id key b && has_succeeded b.status) t (r ∷ []))

  pub succeeded_has_result :
      (key : String) (t : Results)
      → has_succeeded_at run_id key t ≡ true
      → has_result run_id key t ≡ true
  unfolding has_succeeded_at has_result
  succeeded_has_result key [] h = h
  succeeded_has_result key (r ∷ rest) h = ground (arith, succeeded_has_result key rest)
