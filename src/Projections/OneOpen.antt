-- ===== src/Projections/OneOpen.antt =====
-- A failed event has one open dead letter.
use forjd.Prelude.{
  ℕ, ◌+◌, ◌≤◌, String, ◌≡◌, refl, sym, inl, inr, Bool, true, false, Option, List, [], ◌∷◌, ◌++◌,
  map, arith, string_eq, nat_eq, if◌then◌else◌, Bool-cases, any, update_row, count_where,
}
use forjd.Projections.DeadLetters.{
  DeadLetter, Failure, is_open_for, new_letter, fail_again, enqueue_projection_dlq, Success,
  may_resolve, resolve, resolve_projection_dlq_for_events,
}

-- The partial unique index: at most one open letter for a tenant and key.
abbrev pub HasOneOpen : List DeadLetter → Type 0
HasOneOpen table =
    (tenant_id : ℕ) (dedupe_key : String) → count_where (is_open_for tenant_id dedupe_key) table ≤ 1

module _ (p : DeadLetter → Bool) where
  count_where-append :
      (table : List DeadLetter) (d : DeadLetter)
      → count_where p (table ++ d ∷ [])
        ≡ (if p d then count_where p table + 1 else count_where p table)
  unfolding count_where
  count_where-append [] d = ground arith
  count_where-append (x ∷ rest) d = ground (arith, count_where-append rest d)

  count_where_none : (table : List DeadLetter) → any p table ≡ false → count_where p table ≡ 0
  unfolding count_where
  count_where_none [] h = refl
  count_where_none (x ∷ rest) h = ground (arith, count_where_none rest)

  count_where-map :
      (f : DeadLetter → DeadLetter)
      → ((d : DeadLetter) → p (f d) ≡ true → p d ≡ true)
      → (table : List DeadLetter) → count_where p (map f table) ≤ count_where p table
  unfolding count_where
  count_where-map f h [] = omega arith
  count_where-map f h (x ∷ rest) = ground (arith, h x, count_where-map f h rest)

again_open :
    (tenant_id : ℕ) (dedupe_key : String) (now : ℕ) (f : Failure) (p : DeadLetter → Bool)
    (d : DeadLetter)
    → is_open_for tenant_id dedupe_key (update_row p (fail_again now f) d) ≡ true
    → is_open_for tenant_id dedupe_key d ≡ true
unfolding fail_again
again_open tenant_id dedupe_key now f p d h = ground arith

resolved_open :
    (tenant_id : ℕ) (dedupe_key : String) (now : ℕ) (p : DeadLetter → Bool) (d : DeadLetter)
    → is_open_for tenant_id dedupe_key (update_row p (resolve now) d) ≡ true
    → is_open_for tenant_id dedupe_key d ≡ true
resolved_open tenant_id dedupe_key now p d h = ground arith

new_open :
    (tenant_id : ℕ) (dedupe_key : String) (now : ℕ) (key : String) (f : Failure)
    → is_open_for tenant_id dedupe_key (new_letter now key f) ≡ true
    → (f.tenant_id ≡ tenant_id) × (key ≡ dedupe_key)
unfolding new_letter
new_open tenant_id dedupe_key now key f h = (
  (nat_eq.equal_right f.tenant_id tenant_id).0 (ground arith),
  (string_eq.equal_right key dedupe_key).0 (ground arith),
)

enqueue_new :
    (now : ℕ) (key : String) (f : Failure) (table : List DeadLetter)
    → any (is_open_for f.tenant_id key) table ≡ false
    → HasOneOpen table
    → HasOneOpen (table ++ new_letter now key f ∷ [])
enqueue_new now key f table vacant h tenant_id dedupe_key =
    elim (Bool-cases (is_open_for tenant_id dedupe_key (new_letter now key f))) [
      | inl e ↦
          let (same_tenant, same_key) = new_open tenant_id dedupe_key now key f e in
          let empty : count_where (is_open_for tenant_id dedupe_key) table ≡ 0 =
            count_where_none (is_open_for tenant_id dedupe_key) table
              (rw (sym same_tenant, sym same_key) vacant) in
          rw (count_where-append (is_open_for tenant_id dedupe_key) table, e, empty) (omega arith)
      | inr e ↦
          rw (count_where-append (is_open_for tenant_id dedupe_key) table, e)
            (h tenant_id dedupe_key)
    ]

enqueue-HasOneOpen :
    (dedupe : Option ℕ → String → String → ℕ → String) (now : ℕ) (f : Failure)
    → (table : List DeadLetter) → HasOneOpen table
    → HasOneOpen (enqueue_projection_dlq dedupe now f table)
unfolding enqueue_projection_dlq
enqueue-HasOneOpen dedupe now f table h =
    let key : String =
      dedupe f.source_event_id f.workflow_id f.projection_name f.projection_version in
    elim (Bool-cases (any (is_open_for f.tenant_id key) table)) [
      | inl e ↦ rw e (λ tenant_id dedupe_key.
          let fewer =
            count_where-map (is_open_for tenant_id dedupe_key)
              (update_row (is_open_for f.tenant_id key) (fail_again now f))
              (again_open tenant_id dedupe_key now f (is_open_for f.tenant_id key)) table in
          omega (arith, fewer, h tenant_id dedupe_key))
      | inr e ↦ rw e (enqueue_new now key f table e h)
    ]

resolve-HasOneOpen :
    (now : ℕ) (s : Success) (table : List DeadLetter)
    → HasOneOpen table
    → HasOneOpen (resolve_projection_dlq_for_events now s table)
unfolding resolve_projection_dlq_for_events
resolve-HasOneOpen now s table h tenant_id dedupe_key =
    let fewer =
      count_where-map (is_open_for tenant_id dedupe_key)
        (update_row (may_resolve now s) (resolve now))
        (resolved_open tenant_id dedupe_key now (may_resolve now s)) table in
    omega (arith, fewer, h tenant_id dedupe_key)

-- Neither a failure nor a success gives a tenant two open dead letters of one key.
pub dead_letters-HasOneOpen :
    (dedupe : Option ℕ → String → String → ℕ → String) (now : ℕ) (f : Failure) (s : Success)
    → (table : List DeadLetter) → HasOneOpen table
    → HasOneOpen (enqueue_projection_dlq dedupe now f table)
      × HasOneOpen (resolve_projection_dlq_for_events now s table)
dead_letters-HasOneOpen dedupe now f s table h =
    (enqueue-HasOneOpen dedupe now f table h, resolve-HasOneOpen now s table h)
