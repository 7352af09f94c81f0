-- ===== src/Playbooks/Quiet.antt =====
-- What statements alone leave of the loop's invariant.
use mathlib.Core.List.{map-append}
use forjd.Prelude.{
  ℕ, String, ◌≡◌, refl, sym, subst, ◌∙◌, inl, inr, Bool, true, false, ◌&&◌, List, [], ◌∷◌, ◌++◌,
  map, arith, string_eq, nat_eq, ◌==◌, Bool-cases, any, any-append, contains, All, update_row,
  All-map, map-map_keep, Distinct,
}
use forjd.Playbooks.Delivery.{Durable, durable_webhook_outcome}
use forjd.Playbooks.Results.{
  PlanEntry, ActionResult, Results, has_succeeded, is_for, has_result, has_succeeded_at,
  insert_result, Lease, holds_lease, persist_outcome,
}
use forjd.Playbooks.Table.{
  Exchange, outcome_for, Statement, persist, step_row, execute, ids, statement, Reach, next,
}
use forjd.Playbooks.Sequence.{receipt-step_row, has_succeeded_at-execute}
use forjd.Playbooks.Runs.{Delivery, execute_all}

module _ {ℓ} {A : Type ℓ} (p q : A → Bool) (f : A → A) where
  any-map_to :
      (l : List A)
      → All (λ b. p b ≡ true → q (f b) ≡ true) l
      → any p l ≡ true
      → any q (map f l) ≡ true
  any-map_to [] h e = e
  any-map_to (x ∷ rest) h e = ground (arith, h.0, any-map_to rest h.1)

pub All-weaken {ℓ κ ν} :
    {A : Type ℓ} (P : A → Type κ) (Q : A → Type ν) (l : List A)
    → ((b : A) → P b → Q b)
    → All P l
    → All Q l
All-weaken P Q [] f h = tt
All-weaken P Q (x ∷ rest) f h = (f x h.0, All-weaken P Q rest f h.1)

contains-insert :
    (r : ActionResult) (k : ℕ) (t : Results)
    → (r.id == k) ≡ false
    → contains (ids t) k ≡ false
    → contains (ids (insert_result r t)) k ≡ false
unfolding insert_result
contains-insert r k t other missing = elim (Bool-cases (has_result r.run_id r.action_plan_key t)) [
  | inl e ↦ rw e missing
  | inr e ↦ rw (e, map-append) (ground (arith, any-append (λ i. i == k) (ids t) (r.id ∷ [])))
]

pub ids-execute : (s : Statement) (t : Results) → ids (execute s t) ≡ ids t
unfolding execute
ids-execute s t = map-map_keep (λ r. r.id) (step_row s t) (λ r. (receipt-step_row s t r).0) t

module _ (run_id : ℕ) (plan : List PlanEntry) where
  -- A row with the id is the row of the key.
  abbrev pub IsNamed : ℕ → String → Results → Type 0
  IsNamed id key = All (λ r. (r.id == id) ≡ true → is_for run_id key r ≡ true)

  -- A change by statements alone.
  pub record IsQuiet (t u : Results) : Type 0 where
    pub steps : {t₀ : Results} → Reach run_id plan t₀ t → Reach run_id plan t₀ u
    pub same_ids : ids u ≡ ids t
    pub named : (id : ℕ) (key : String) → IsNamed id key t → IsNamed id key u
    pub kept :
        Distinct (ids t)
        → (key : String) → has_succeeded_at run_id key t ≡ true
        → has_succeeded_at run_id key u ≡ true

  pub execute-IsQuiet : (s : Statement) (t : Results) → IsQuiet t (execute s t)
  unfolding execute
  execute-IsQuiet s t = record {
    steps = λ r. next r (statement s refl);
    same_ids = ids-execute s t;
    named = λ id key.
        All-map (λ r. (r.id == id) ≡ true → is_for run_id key r ≡ true) (step_row s t)
          (λ r h. let (same, run, plan_key) = receipt-step_row s t r in rw (same, run, plan_key) h)
          t;
    kept = λ keyed key. has_succeeded_at-execute run_id key s t keyed;
  }

  pub IsQuiet-trans : {t u v : Results} → IsQuiet t u → IsQuiet u v → IsQuiet t v
  IsQuiet-trans g h = record {
    steps = λ r. h.steps (g.steps r);
    same_ids = h.same_ids ∙ g.same_ids;
    named = λ id key n. h.named id key (g.named id key n);
    kept = λ keyed key s. h.kept (subst Distinct (sym g.same_ids) keyed) key (g.kept keyed key s);
  }

  pub execute_all-IsQuiet : (ss : List Statement) (t : Results) → IsQuiet t (execute_all ss t)
  unfolding execute_all
  execute_all-IsQuiet [] t = record {
    steps = λ r. r;
    same_ids = refl;
    named = λ id key h. h;
    kept = λ keyed key h. h;
  }
  execute_all-IsQuiet (s ∷ ss) t =
      IsQuiet-trans (execute-IsQuiet s t) (execute_all-IsQuiet ss (execute s t))

  pub fresh-IsNamed :
      (id : ℕ) (key : String) (t : Results) → contains (ids t) id ≡ false → IsNamed id key t
  fresh-IsNamed id key [] h = tt
  fresh-IsNamed id key (r ∷ rest) h = (λ e. ground arith, fresh-IsNamed id key rest (ground arith))

  persist_row :
      (now : ℕ) (lease : Lease) (durable : Durable) (key : String) (r : ActionResult)
      → has_succeeded durable.status ≡ true
      → ((r.id == lease.result_id) ≡ true → is_for run_id key r ≡ true)
      → holds_lease lease r ≡ true
      → (is_for run_id key (update_row (holds_lease lease) (persist_outcome now durable) r)
          && has_succeeded (update_row (holds_lease lease) (persist_outcome now durable) r).status)
        ≡ true
  unfolding holds_lease persist_outcome
  persist_row now lease durable key r delivered named held = ground arith

  -- The attempt that is recorded as succeeded is that of the row of the key.
  pub persist-has_succeeded :
      (now : ℕ) (lease : Lease) (exchange : Exchange) (key : String) (t : Results)
      → IsNamed lease.result_id key t
      → any (holds_lease lease) t ≡ true
      → has_succeeded
          (durable_webhook_outcome (outcome_for exchange) lease.attempt lease.max_attempts).status
        ≡ true
      → has_succeeded_at run_id key (execute (persist now lease exchange) t) ≡ true
  unfolding has_succeeded_at execute step_row holds_lease persist_outcome
  persist-has_succeeded now lease exchange key t named held delivered =
      any-map_to (holds_lease lease) (λ r. is_for run_id key r && has_succeeded r.status)
        (step_row (persist now lease exchange) t) t
        (All-weaken (λ r. (r.id == lease.result_id) ≡ true → is_for run_id key r ≡ true) _ t
          (λ r.
            persist_row now lease
              (durable_webhook_outcome (outcome_for exchange) lease.attempt lease.max_attempts) key
              r delivered)
          named)
        held

  module _ (deliver : PlanEntry → Delivery) where
    -- The ids from `uuid4` are new, and differ.
    abbrev pub IsFresh : List PlanEntry → Results → Type 0
    IsFresh [] t = Unit
    IsFresh (a ∷ rest) t =
        (contains (ids t) (deliver a).result_id ≡ false)
        × All (λ b. ((deliver a).result_id == (deliver b).result_id) ≡ false) rest
        × IsFresh rest t

    IsFresh-grow :
        (id : ℕ) (t u : Results)
        → ((k : ℕ) → (id == k) ≡ false → contains (ids t) k ≡ false → contains (ids u) k ≡ false)
        → (rest : List PlanEntry) → All (λ b. (id == (deliver b).result_id) ≡ false) rest
        → IsFresh rest t
        → IsFresh rest u
    IsFresh-grow id t u grow [] d h = tt
    IsFresh-grow id t u grow (a ∷ rest) d h =
        (grow (deliver a).result_id d.0 h.0, h.1, IsFresh-grow id t u grow rest d.1 h.2)

    pub record IsReady (done rest : List PlanEntry) (t : Results) : Type 0 where
      pub split : plan ≡ done ++ rest
      pub succeeded_before : All (λ a. has_succeeded_at run_id a.key t ≡ true) done
      pub keyed : Distinct (ids t)
      pub fresh : IsFresh rest t

    -- The ids after a statement, and after the insertion of an action's row.
    pub IsFresh-quiet :
        (t u : Results) → ids u ≡ ids t → (rest : List PlanEntry) → IsFresh rest t → IsFresh rest u
    IsFresh-quiet t u same [] h = tt
    IsFresh-quiet t u same (a ∷ rest) h = (rw same h.0, h.1, IsFresh-quiet t u same rest h.2)

    pub IsFresh-insert :
        (r : ActionResult) (t : Results) (rest : List PlanEntry)
        → All (λ b. (r.id == (deliver b).result_id) ≡ false) rest
        → IsFresh rest t
        → IsFresh rest (insert_result r t)
    IsFresh-insert r t =
        IsFresh-grow r.id t (insert_result r t)
          (λ k other missing. contains-insert r k t other missing)
