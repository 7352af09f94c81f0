-- ===== src/Playbooks/Decisions.antt =====
-- Acknowledgements and operator retries: what is decided once, and what is refused.
use forjd.Playbooks.Table.{ids}
use mathlib.Core.List.{Memᴰ}
use forjd.Prelude.{
  ℕ, ◌≡◌, refl, sym, subst, ap, ◌∙◌, inl, inr, Bool, true, false, ◌&&◌, none, some, List, [], ◌∷◌,
  map, arith, ltb, leb, string_eq, nat_eq, Bool-cases, any, find, contains, Distinct, contains-mem,
}
use forjd.Playbooks.Results.{PlanEntry, ActionResult, is_webhook, may_retry}
use forjd.Playbooks.Runs.{Run, Store, conflict, is_run, Delivery}
use forjd.Playbooks.Handlers.{
  is_result, retry_refusal, refuse_retry, retry_in, retry_noted, retry_action,
}

-- A test that names a key is decided by the row that has it.
module _ {A : Type 0} (key : A → ℕ) (p : A → Bool) (k : ℕ)
    (named : (b : A) → p b ≡ true → key b ≡ k) where
  any-missing : (l : List A) → contains (map key l) k ≡ false → any p l ≡ false
  any-missing [] h = refl
  any-missing (x ∷ rest) h = ground (arith, named x, any-missing rest)

  find-missing : (l : List A) → contains (map key l) k ≡ false → find p l ≡ none
  find-missing [] h = refl
  find-missing (x ∷ rest) h = ground (arith, named x, find-missing rest)

  any_unique : {r : A} {l : List A} → Distinct (map key l) → Memᴰ r l → key r ≡ k → any p l ≡ p r
  any_unique {r} d (Memᴰ.head {x} {xs = rest} e) h =
      let same_test : p r ≡ p x = ap p e in
      let same_key : key r ≡ key x = ap key e in
      let others : any p rest ≡ false =
        any-missing rest (subst (λ i. contains (map key rest) i ≡ false) (sym same_key ∙ h) d.0) in
      ground (arith, same_test, others)
  any_unique {r} d (Memᴰ.tail {x} {xs = rest} m) h =
      let inside : contains (map key rest) k ≡ true =
        subst (λ i. contains (map key rest) i ≡ true) h (contains-mem key m) in
      ground (arith, ap (contains (map key rest)) {x = key x} {y = k}, named x, any_unique d.1 m h)

  find_unique :
      {r : A} {l : List A} → Distinct (map key l) → Memᴰ r l → p r ≡ true → find p l ≡ some r
  find_unique {r} d (Memᴰ.head {x} {xs = rest} e) h = rw (sym (ap p e) ∙ h) (ap some (sym e))
  find_unique {r} d (Memᴰ.tail {x} {xs = rest} m) h =
      let inside : contains (map key rest) k ≡ true =
        subst (λ i. contains (map key rest) i ≡ true) (named r h) (contains-mem key m) in
      let other : p x ≡ false =
        ground (arith, ap (contains (map key rest)) {x = key x} {y = k}, named x) in
      rw other (find_unique d.1 m h)

names_retry :
    (run_id result_id : ℕ) (r : ActionResult)
    → may_retry run_id result_id r ≡ true
    → r.id ≡ result_id
unfolding may_retry
names_retry run_id result_id r h = ground arith

names_result :
    (run_id result_id : ℕ) (r : ActionResult)
    → is_result run_id result_id r ≡ true
    → r.id ≡ result_id
names_result run_id result_id r h = ground arith

module _ (now : ℕ) (deliver : PlanEntry → Delivery) (tenant_id result_id : ℕ) (store : Store)
    (run : Run) {r : ActionResult} (keyed : Distinct (ids store.results))
    (found : find (is_run tenant_id run.id) store.runs ≡ some run) (m : Memᴰ r store.results)
    (named : is_result run.id result_id r ≡ true) where
  found_result : find (is_result run.id result_id) store.results ≡ some r
  found_result =
      find_unique (λ b. b.id) (is_result run.id result_id) result_id (names_result run.id result_id)
        keyed m named

  any_retry : any (may_retry run.id result_id) store.results ≡ may_retry run.id result_id r
  any_retry =
      any_unique (λ b. b.id) (may_retry run.id result_id) result_id (names_retry run.id result_id)
        keyed m (names_result run.id result_id r named)

  webhooks_only : is_webhook r.action_type ≡ false → may_retry run.id result_id r ≡ false
  unfolding may_retry
  webhooks_only h = ground arith

  exhausted_only : leb r.max_attempts r.attempt ≡ true → may_retry run.id result_id r ≡ false
  unfolding may_retry
  exhausted_only h = ground arith

  refused :
      may_retry run.id result_id r ≡ false
      → retry_action now tenant_id run.id result_id store
        ≡ (retry_noted tenant_id result_id store, conflict (retry_refusal r))
  unfolding retry_action retry_in refuse_retry
  refused h =
      let closed : any (may_retry run.id result_id) store.results ≡ false = any_retry ∙ h in
      ap (retry_in now tenant_id result_id (retry_noted tenant_id result_id store)) found
      ∙ rw closed (ap (refuse_retry (retry_noted tenant_id result_id store)) found_result)

  -- An operator cannot retry an action that is no webhook, or one whose attempts are used up: the
  -- request is refused with the reason and changes nothing but the attempt that is audited.
  retry_is_refused :
      (is_webhook r.action_type && ltb r.attempt r.max_attempts) ≡ false
      → retry_action now tenant_id run.id result_id store
        ≡ (retry_noted tenant_id result_id store, conflict (retry_refusal r))
  retry_is_refused h = elim (Bool-cases (is_webhook r.action_type)) [
    | inl w ↦ refused (exhausted_only (ground arith))
    | inr w ↦ refused (webhooks_only w)
  ]
