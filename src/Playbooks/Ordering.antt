-- ===== src/Playbooks/Ordering.antt =====
-- In every reachable table an action has started only after all earlier ones have succeeded.
use mathlib.Core.List.{map-append}
use forjd.Prelude.{
  ℕ, String, ◌≡◌, subst, ◌∙◌, ◌≢◌, inl, inr, true, false, List, [], ◌∷◌, ◌++◌, arith, string_eq,
  nat_eq, ◌==◌, Bool-cases, contains, All, map-map_keep, Distinct, Distinct-append,
}
use forjd.Playbooks.Results.{
  PlanEntry, ActionResult, Results, initial_result, is_for, has_result, has_succeeded_at,
  insert_result,
}
use forjd.Playbooks.Plan.{HasDistinctKeys}
use forjd.Playbooks.Table.{
  Statement, step_row, execute, ids, Step, statement, start, start_elsewhere, Reach, here, next,
}
use forjd.Playbooks.Sequence.{
  receipt-step_row, has_result-execute, has_succeeded_at-execute, has_result-insert,
  has_succeeded_at-insert, succeeded_has_result,
}

module _ (run_id : ℕ) where
  abbrev pub NoneStarted : List PlanEntry → Results → Type 0
  NoneStarted rest t = All (λ a. has_result run_id a.key t ≡ false) rest

  abbrev pub AllSucceeded : List PlanEntry → Results → Type 0
  AllSucceeded done t = All (λ a. has_succeeded_at run_id a.key t ≡ true) done

  -- Behind an action that has not succeeded nothing has started.
  abbrev pub IsInOrder : List PlanEntry → Results → Type 0
  IsInOrder [] t = Unit
  IsInOrder (a ∷ rest) t =
      (has_succeeded_at run_id a.key t ≡ false → NoneStarted rest t) × IsInOrder rest t

  NoneStarted-IsInOrder :
      (plan : List PlanEntry) (t : Results) → NoneStarted plan t → IsInOrder plan t
  NoneStarted-IsInOrder [] t h = tt
  NoneStarted-IsInOrder (a ∷ rest) t h = (λ _. h.1, NoneStarted-IsInOrder rest t h.1)

  -- The order survives a change that starts nothing and keeps what has succeeded.
  module _ (t u : Results)
      (same : (key : String) → has_result run_id key u ≡ has_result run_id key t)
      (kept : (key : String)
        → has_succeeded_at run_id key t ≡ true
        → has_succeeded_at run_id key u ≡ true) where
    NoneStarted-kept : (plan : List PlanEntry) → NoneStarted plan t → NoneStarted plan u
    NoneStarted-kept [] h = tt
    NoneStarted-kept (a ∷ rest) h = (same a.key ∙ h.0, NoneStarted-kept rest h.1)

    IsInOrder-kept : (plan : List PlanEntry) → IsInOrder plan t → IsInOrder plan u
    IsInOrder-kept [] h = tt
    IsInOrder-kept (a ∷ rest) h =
        (λ e. NoneStarted-kept rest (h.0 (ground (arith, kept a.key))), IsInOrder-kept rest h.1)

  module _ (now id lease_owner : ℕ) (action : PlanEntry) (t : Results) where
    abbrev started : Results
    started = insert_result (initial_result now id lease_owner run_id action) t

    other_key :
        (b : PlanEntry)
        → (action.key == b.key) ≡ false
        → is_for run_id b.key (initial_result now id lease_owner run_id action) ≡ false
    unfolding initial_result
    other_key b h = ground arith

    conflict : has_result run_id action.key t ≡ true → started ≡ t
    unfolding insert_result initial_result
    conflict h = rw h

    NoneStarted-start :
        (rest : List PlanEntry)
        → All (λ b. (action.key == b.key) ≡ false) rest
        → NoneStarted rest t
        → NoneStarted rest started
    NoneStarted-start [] d h = tt
    NoneStarted-start (b ∷ rest) d h = (
      has_result-insert run_id b.key (initial_result now id lease_owner run_id action) t
            (other_key b d.0)
          ∙ h.0,
      NoneStarted-start rest d.1 h.1,
    )

    start-IsInOrder :
        (done rest : List PlanEntry)
        → HasDistinctKeys (done ++ action ∷ rest)
        → AllSucceeded done t
        → IsInOrder (done ++ action ∷ rest) t
        → IsInOrder (done ++ action ∷ rest) started
    start-IsInOrder [] rest d s h = elim (Bool-cases (has_result run_id action.key t)) [
      | inl e ↦ rw (conflict e) h
      | inr e ↦
          let waiting : has_succeeded_at run_id action.key t ≡ false =
            ground (arith, succeeded_has_result run_id action.key t) in
          let later = NoneStarted-start rest d.0 (h.0 waiting) in
          (λ _. later, NoneStarted-IsInOrder rest started later)
    ]
    start-IsInOrder (a ∷ done) rest d s h =
        let kept =
          has_succeeded_at-insert run_id a.key (initial_result now id lease_owner run_id action) t
            s.0 in
        (λ e. ground arith, start-IsInOrder done rest d.1 s.1 h.1)

  -- The invariant of the table: distinct ids, and the order of the plan.
  pub record IsSound (plan : List PlanEntry) (t : Results) : Type 0 where
    pub keyed : Distinct (ids t)
    pub ordered : IsInOrder plan t

  pub insert-keyed :
      (r : ActionResult) (t : Results)
      → Distinct (ids t)
      → contains (ids t) r.id ≡ false
      → Distinct (ids (insert_result r t))
  unfolding insert_result
  insert-keyed r t d fresh = elim (Bool-cases (has_result r.run_id r.action_plan_key t)) [
    | inl e ↦ rw e d
    | inr e ↦ rw (e, map-append) (Distinct-append (ids t) r.id d fresh)
  ]

  execute-keyed : (s : Statement) (t : Results) → Distinct (ids t) → Distinct (ids (execute s t))
  unfolding execute
  execute-keyed s t d =
      rw (map-map_keep (λ r. r.id) (step_row s t) (λ r. (receipt-step_row s t r).0) t) d

  start-IsSound :
      (done rest : List PlanEntry) (action : PlanEntry) (now id lease_owner : ℕ) (t : Results)
      → HasDistinctKeys (done ++ action ∷ rest)
      → AllSucceeded done t
      → contains (ids t) id ≡ false
      → IsSound (done ++ action ∷ rest) t
      → IsSound (done ++ action ∷ rest) (started now id lease_owner action t)
  unfolding initial_result
  start-IsSound done rest action now id lease_owner t d s fresh h = record {
    keyed = insert-keyed (initial_result now id lease_owner run_id action) t h.keyed fresh;
    ordered = start-IsInOrder now id lease_owner action t done rest d s h.ordered;
  }

  elsewhere_other :
      (other now id lease_owner : ℕ) (action : PlanEntry) (key : String)
      → other ≢ run_id
      → is_for run_id key (initial_result now id lease_owner other action) ≡ false
  unfolding initial_result
  elsewhere_other other now id lease_owner action key differs = ground arith

  elsewhere-IsSound :
      (plan : List PlanEntry) (other now id lease_owner : ℕ) (action : PlanEntry) (t : Results)
      → other ≢ run_id
      → contains (ids t) id ≡ false
      → IsSound plan t
      → IsSound plan (insert_result (initial_result now id lease_owner other action) t)
  unfolding initial_result
  elsewhere-IsSound plan other now id lease_owner action t differs fresh h =
      let r : ActionResult = initial_result now id lease_owner other action in
      record {
        keyed = insert-keyed r t h.keyed fresh;
        ordered =
            IsInOrder-kept t (insert_result r t)
              (λ key.
                has_result-insert run_id key r t
                  (elsewhere_other other now id lease_owner action key differs))
              (λ key. has_succeeded_at-insert run_id key r t) plan h.ordered;
      }

  module _ {plan : List PlanEntry} (distinct : HasDistinctKeys plan) where
    Step-IsSound : {t u : Results} → Step run_id plan t u → IsSound plan t → IsSound plan u
    Step-IsSound {t} (statement s e) h = rw e (record {
      keyed = execute-keyed s t h.keyed;
      ordered =
          IsInOrder-kept t (execute s t) (λ key. has_result-execute run_id key s t)
            (λ key. has_succeeded_at-execute run_id key s t h.keyed) plan h.ordered;
    })
    Step-IsSound {t} (start done rest action now id lease_owner split succeeded fresh e) h =
        rw (e, split)
          (start-IsSound done rest action now id lease_owner t
            (subst HasDistinctKeys split distinct) succeeded fresh
            (subst (λ p. IsSound p t) split h))
    Step-IsSound {t} (start_elsewhere other now id lease_owner action differs fresh e) h =
        rw e (elsewhere-IsSound plan other now id lease_owner action t differs fresh h)

    -- In every table that interleaved handlers and workers reach from a sound one, the ids are
    -- distinct and an action of the plan has a row only where every action before it has succeeded;
    -- a plan has distinct keys.
    pub Reach-IsSound : {t u : Results} → Reach run_id plan t u → IsSound plan t → IsSound plan u
    Reach-IsSound here h = h
    Reach-IsSound (next r s) h = Step-IsSound s (Reach-IsSound r h)
