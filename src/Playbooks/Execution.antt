-- ===== src/Playbooks/Execution.antt =====
-- The loop of `_execute_run_actions` takes only steps that keep the order of the plan.
use mathlib.Core.List.{append_assoc}
use forjd.Prelude.{
  ℕ, ◌≡◌, refl, sym, ◌∙◌, inl, inr, Bool, true, false, List, [], ◌∷◌, ◌++◌, arith, string_eq,
  nat_eq, ◌==◌, Bool-cases, All-append, Distinct,
}
use forjd.Playbooks.Results.{
  PlanEntry, ActionResult, Results, is_webhook, initial_result, is_for, has_result,
  has_succeeded_at, insert_result,
}
use forjd.Playbooks.Table.{persist, ids, start, Reach, here, next}
use forjd.Playbooks.Sequence.{has_succeeded_at-insert}
use forjd.Playbooks.Ordering.{insert-keyed}
use forjd.Playbooks.Runs.{
  Store, Delivery, execute_all, initial_lease, attempt_webhook, with_row, run_action, run_actions,
}
use forjd.Playbooks.Rounds.{
  attempt_results, attempt-success, run_action_existing, run_action_webhook, run_action_other,
  run_actions_nil, run_actions_go_on, run_actions_break,
}
use forjd.Playbooks.Quiet.{
  All-weaken, IsNamed, IsQuiet, execute-IsQuiet, IsQuiet-trans, execute_all-IsQuiet, fresh-IsNamed,
  persist-has_succeeded, IsFresh, IsReady, IsFresh-quiet, IsFresh-insert,
}

module _ (run_id : ℕ) (plan : List PlanEntry) (deliver : PlanEntry → Delivery) where
  module _ (done rest : List PlanEntry) (a : PlanEntry) where
    pub record IsAdvanced (t u : Results) (goes_on : Bool) : Type 0 where
      pub steps : {t₀ : Results} → Reach run_id plan t₀ t → Reach run_id plan t₀ u
      pub ready : goes_on ≡ true → IsReady run_id plan deliver (done ++ a ∷ []) rest u

    module _ (t : Results) (h : IsReady run_id plan deliver done (a ∷ rest) t) where
      split_after : plan ≡ (done ++ a ∷ []) ++ rest
      split_after = h.split ∙ sym (append_assoc done (a ∷ []) rest)

      existing-IsAdvanced : IsAdvanced t t (has_succeeded_at run_id a.key t)
      existing-IsAdvanced = record {
        steps = λ r. r;
        ready = λ e. record {
          split = split_after;
          succeeded_before =
              All-append (λ b. has_succeeded_at run_id b.key t ≡ true) done (a ∷ [])
                h.succeeded_before (e, tt);
          keyed = h.keyed;
          fresh = h.fresh.2;
        };
      }

      module _ (now lease_owner : ℕ) where
        abbrev row : ActionResult
        row = initial_result now (deliver a).result_id lease_owner run_id a

        abbrev inserted : Results
        inserted = insert_result row t

        started-steps : {t₀ : Results} → Reach run_id plan t₀ t → Reach run_id plan t₀ inserted
        started-steps r = next r (
            start done rest a now (deliver a).result_id lease_owner h.split h.succeeded_before
              h.fresh.0 refl)

        row_id : row.id ≡ (deliver a).result_id
        unfolding initial_result
        row_id = refl

        row-is_for : is_for run_id a.key row ≡ true
        unfolding initial_result
        row-is_for = ground (arith, (string_eq.equal_right a.key a.key).1 refl)

        module _ (vacant : has_result run_id a.key t ≡ false) where
          inserted_is : inserted ≡ t ++ row ∷ []
          unfolding insert_result initial_result
          inserted_is = rw vacant refl

          inserted-keyed : Distinct (ids inserted)
          unfolding initial_result
          inserted-keyed = insert-keyed run_id row t h.keyed h.fresh.0

          inserted-IsNamed : IsNamed run_id plan (deliver a).result_id a.key inserted
          inserted-IsNamed = rw inserted_is (
              All-append
                (λ r. (r.id == (deliver a).result_id) ≡ true → is_for run_id a.key r ≡ true) t
                (row ∷ []) (fresh-IsNamed run_id plan (deliver a).result_id a.key t h.fresh.0)
                (λ _. row-is_for, tt))

          -- A new row, then statements that end with its success.
          started-IsAdvanced :
              (u : Results) (goes_on : Bool)
              → IsQuiet run_id plan inserted u
              → (goes_on ≡ true → has_succeeded_at run_id a.key u ≡ true)
              → IsAdvanced t u goes_on
          unfolding initial_result
          started-IsAdvanced u goes_on quiet success = record {
            steps = λ r. quiet.steps (started-steps r);
            ready = λ e. record {
              split = split_after;
              succeeded_before =
                  All-append (λ b. has_succeeded_at run_id b.key u ≡ true) done (a ∷ [])
                    (All-weaken _ _ done
                      (λ b s.
                        quiet.kept inserted-keyed b.key
                          (has_succeeded_at-insert run_id b.key row t s))
                      h.succeeded_before)
                    (success e, tt);
              keyed = rw quiet.same_ids inserted-keyed;
              fresh =
                  IsFresh-quiet run_id plan deliver inserted u quiet.same_ids rest
                    (IsFresh-insert run_id plan deliver row t rest h.fresh.1 h.fresh.2);
            };
          }

          attempt-IsAdvanced :
              (tenant_id : ℕ) (store : Store)
              → store.results ≡ inserted
              → IsAdvanced t
                  (attempt_webhook tenant_id run_id (deliver a) store).0.results
                  (attempt_webhook tenant_id run_id (deliver a) store).1
          attempt-IsAdvanced tenant_id store e =
              let d : Delivery = deliver a in
              let during : Results = execute_all d.meanwhile store.results in
              let quiet =
                IsQuiet-trans run_id plan
                  (execute_all-IsQuiet run_id plan d.meanwhile store.results)
                  (execute-IsQuiet run_id plan
                    (persist d.finished_at (initial_lease run_id d) d.exchange) during) in
              let named =
                (execute_all-IsQuiet run_id plan d.meanwhile store.results).named d.result_id a.key
                  (rw e inserted-IsNamed) in
              rw (attempt_results tenant_id run_id d store) (
                started-IsAdvanced _ _ (rw (sym e) quiet) (λ goes_on.
                  let (held, delivered) = attempt-success tenant_id run_id d store goes_on in
                  persist-has_succeeded run_id plan d.finished_at (initial_lease run_id d)
                    d.exchange a.key during named held delivered))

  -- A round of the loop.
  pub round-IsAdvanced :
      (tenant_id : ℕ) (done rest : List PlanEntry) (a : PlanEntry) (store : Store)
      → IsReady run_id plan deliver done (a ∷ rest) store.results
      → IsAdvanced done rest a store.results
          (run_action tenant_id run_id a (deliver a) store).0.results
          (run_action tenant_id run_id a (deliver a) store).1
  round-IsAdvanced tenant_id done rest a store h =
      let d : Delivery = deliver a in
      elim (Bool-cases (has_result run_id a.key store.results)) [
        | inl e ↦
            rw (run_action_existing tenant_id run_id a d store e)
              (existing-IsAdvanced done rest a store.results h)
        | inr e ↦ elim (Bool-cases (is_webhook a.action_type)) [
          | inl w ↦ rw (run_action_webhook tenant_id run_id a d store e w) (
              attempt-IsAdvanced done rest a store.results h d.started_at d.lease_owner e tenant_id
                (with_row run_id a d store) refl)
          | inr w ↦ rw (run_action_other tenant_id run_id a d store e w) (record {
            steps = λ r. started-steps done rest a store.results h d.started_at d.lease_owner r;
            ready = λ goes_on. ground arith;
          })
        ]
      ]

  run_actions-steps :
      (tenant_id : ℕ) (done rest : List PlanEntry) (store : Store) {t₀ : Results}
      → IsReady run_id plan deliver done rest store.results
      → Reach run_id plan t₀ store.results
      → Reach run_id plan t₀ (run_actions tenant_id run_id deliver rest store).results
  run_actions-steps tenant_id done [] store h r =
      rw (run_actions_nil tenant_id run_id deliver store) r
  run_actions-steps tenant_id done (a ∷ rest) store h r =
      let advanced = round-IsAdvanced tenant_id done rest a store h in
      elim (Bool-cases (run_action tenant_id run_id a (deliver a) store).1) [
        | inl e ↦ rw (run_actions_go_on tenant_id run_id deliver a rest store e) (
            run_actions-steps tenant_id (done ++ a ∷ []) rest
              (run_action tenant_id run_id a (deliver a) store).0 (advanced.ready e)
              (advanced.steps r))
        | inr e ↦ rw (run_actions_break tenant_id run_id deliver a rest store e) (advanced.steps r)
      ]

  -- The loop of `_execute_run_actions`, with other workers' statements during each exchange, takes
  -- only steps that insert the rows of the plan in its order, each behind succeeded ones, where the
  -- table has its primary key and the ids of new rows are fresh.
  pub run_actions-Reach :
      (tenant_id : ℕ) (store : Store)
      → Distinct (ids store.results)
      → IsFresh run_id plan deliver plan store.results
      → Reach run_id plan store.results (run_actions tenant_id run_id deliver plan store).results
  run_actions-Reach tenant_id store keyed fresh =
      run_actions-steps tenant_id [] plan store
        (record { split = refl; succeeded_before = tt; keyed = keyed; fresh = fresh }) here
