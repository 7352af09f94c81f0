-- ===== src/Projections/Scope.antt =====
-- Engine output stays within the tenants and events of its batch.
use forjd.Prelude.{
  ℕ, String, ◌≡◌, refl, subst, ap, ◌∙◌, inl, inr, true, false, Option, none, some, List, [], ◌∷◌,
  ◌++◌, map, arith, string_eq, nat_eq, ◌==◌, Bool-cases, select, any, All, update_row,
}
use forjd.Projections.Results.{
  StreamResult, Identity, StoredResult, same_result, overwrite, upsert_row, is_expected,
  expects_source, Scope, with_row, stored_of, prepare_row, prepare, write_all, write_prepared,
  upsert_stream_results,
}

abbrev pub of_tenant : ℕ → List StoredResult → List StoredResult
of_tenant t = select (λ r. r.tenant_id == t)

map-of_tenant :
    (t : ℕ) (f : StoredResult → StoredResult)
    → ((r : StoredResult) → (f r).tenant_id ≡ r.tenant_id)
    → ((r : StoredResult) → (r.tenant_id == t) ≡ true → f r ≡ r)
    → (table : List StoredResult) → of_tenant t (map f table) ≡ of_tenant t table
map-of_tenant t f keeps fixed [] = refl
map-of_tenant t f keeps fixed (r ∷ rest) = elim (Bool-cases (r.tenant_id == t)) [
  | inl e ↦ rw (keeps r, e, fixed r e) (ap (◌∷◌ r) (map-of_tenant t f keeps fixed rest))
  | inr e ↦ rw (keeps r, e) (map-of_tenant t f keeps fixed rest)
]

append-of_tenant :
    (t : ℕ) (new : StoredResult)
    → (new.tenant_id == t) ≡ false
    → (table : List StoredResult) → of_tenant t (table ++ new ∷ []) ≡ of_tenant t table
append-of_tenant t new other [] = rw other refl
append-of_tenant t new other (r ∷ rest) = elim (Bool-cases (r.tenant_id == t)) [
  | inl e ↦ rw e (ap (◌∷◌ r) (append-of_tenant t new other rest))
  | inr e ↦ rw e (append-of_tenant t new other rest)
]

tenant_id-overwrite :
    (new r : StoredResult)
    → (update_row (same_result new) (overwrite new) r).tenant_id ≡ r.tenant_id
unfolding overwrite
tenant_id-overwrite new r = ground arith

other_tenant :
    (t : ℕ) (new r : StoredResult)
    → (new.tenant_id == t) ≡ false
    → (r.tenant_id == t) ≡ true
    → update_row (same_result new) (overwrite new) r ≡ r
other_tenant t new r other e = let apart : same_result new r ≡ false = ground arith in rw apart refl

upsert_row-of_tenant :
    (t : ℕ) (new : StoredResult) (table : List StoredResult)
    → (new.tenant_id == t) ≡ false
    → of_tenant t (upsert_row new table) ≡ of_tenant t table
unfolding upsert_row
upsert_row-of_tenant t new table other = elim (Bool-cases (any (same_result new) table)) [
  | inl e ↦ rw e (
      map-of_tenant t (update_row (same_result new) (overwrite new)) (tenant_id-overwrite new)
        (λ r h. other_tenant t new r other h) table)
  | inr e ↦ rw e (append-of_tenant t new other table)
]

module _ (digest : String → ℕ → String → Identity → String) (scope : Scope) where
  abbrev pub IsInScope : StoredResult → Type 0
  IsInScope r =
      (is_expected scope.expected_tenant_ids r.tenant_id ≡ true)
      × ((event : ℕ)
          → r.source_event_id ≡ some event
          → is_expected scope.expected_event_ids event ≡ true)

  abbrev Prepared : Option (List StoredResult) → Type 0
  Prepared none = Unit
  Prepared (some rows) = All IsInScope rows

  with_row-Prepared :
      (row : StoredResult) (o : Option (List StoredResult))
      → IsInScope row
      → Prepared o
      → Prepared (with_row row o)
  with_row-Prepared row none h k = tt
  with_row-Prepared row (some rows) h k = (h, k)

  expected_source :
      (events : List ℕ) (o : Option ℕ)
      → expects_source events o ≡ true
      → (event : ℕ) → o ≡ some event
      → is_expected events event ≡ true
  expected_source events o h event e = subst (λ s. expects_source events s ≡ true) e h

  prepare_row-Prepared :
      (row : StreamResult) (o : Option (List StoredResult)) (tenant_id : Option ℕ)
      → Prepared o
      → Prepared (prepare_row digest scope row o tenant_id)
  unfolding prepare_row
  prepare_row-Prepared row o none h = h
  prepare_row-Prepared row o (some tenant_id) h =
      elim (Bool-cases (is_expected scope.expected_tenant_ids tenant_id)) [
        | inl e ↦ elim (Bool-cases (expects_source scope.expected_event_ids row.source_event_id)) [
          | inl f ↦
              rw (e, f)
                (with_row-Prepared (stored_of digest scope tenant_id row) o
                  (e, expected_source scope.expected_event_ids row.source_event_id f) h)
          | inr f ↦ rw (e, f) tt
        ]
        | inr e ↦ rw e tt
      ]

  prepare-Prepared : (rows : List StreamResult) → Prepared (prepare digest scope rows)
  unfolding prepare
  prepare-Prepared [] = tt
  prepare-Prepared (row ∷ rest) =
      prepare_row-Prepared row (prepare digest scope rest) row.tenant_id (prepare-Prepared rest)

  write_all-of_tenant :
      (t : ℕ) (rows table : List StoredResult)
      → is_expected scope.expected_tenant_ids t ≡ false
      → All IsInScope rows
      → of_tenant t (write_all digest rows table) ≡ of_tenant t table
  unfolding write_all
  write_all-of_tenant t [] table other h = refl
  write_all-of_tenant t (row ∷ rest) table other h =
      let apart : (row.tenant_id == t) ≡ false =
        ground
          (arith, h.0.0, ap (is_expected scope.expected_tenant_ids) {x = row.tenant_id} {y = t}) in
      write_all-of_tenant t rest (upsert_row row table) other h.1
      ∙ upsert_row-of_tenant t row table apart

  Written : ℕ → List StoredResult → Option (List StoredResult × ℕ) → Type 0
  Written t table none = Unit
  Written t table (some (after, written)) = of_tenant t after ≡ of_tenant t table

  Written-of_tenant :
      (t : ℕ) (table : List StoredResult) (o : Option (List StoredResult))
      → is_expected scope.expected_tenant_ids t ≡ false
      → Prepared o
      → Written t table (write_prepared digest table o)
  unfolding Written
  Written-of_tenant t table none other h = tt
  Written-of_tenant t table (some rows) other h = write_all-of_tenant t rows table other h

  -- Whatever the engine returns, a write that does not raise leaves the results of every tenant that
  -- the scope does not expect as they were; an empty set of expected tenants expects all.
  pub upsert-of_tenant :
      (t : ℕ) (rows : List StreamResult) (table after : List StoredResult) (written : ℕ)
      → is_expected scope.expected_tenant_ids t ≡ false
      → upsert_stream_results digest scope rows table ≡ some (after, written)
      → of_tenant t after ≡ of_tenant t table
  unfolding upsert_stream_results Written
  upsert-of_tenant t rows table after written other e =
      subst (Written t table) e
        (Written-of_tenant t table (prepare digest scope rows) other (prepare-Prepared rows))
