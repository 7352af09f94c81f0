-- ===== src/Exports/Creation.antt =====
-- The idempotency of the creation of export jobs.
use forjd.Access.Tenancy.{Member, require_tenant_access}
use forjd.Prelude.{
  ℕ, String, ◌≡◌, refl, sym, subst, ap, ◌∙◌, ◌≢◌, inl, inr, Bool, true, false, not, ◌&&◌, Option,
  none, some, List, [], ◌∷◌, ◌++◌, arith, eq_iff, ltb, string_eq, nat_eq, ◌==◌, if◌then◌else◌,
  Bool-cases, find,
}
use forjd.Access.Principals.{AuthUser, Failure, http_exception, Result, returned, raised, ◌>>=◌}
use forjd.Exports.Requests.{
  is_pdf, Settings, NewExport, Parameters, ExportRow, Created, bounded, may_export, has_request_key,
  new_export_row, insert_export, create_allowed, create_export_job,
}

request_key_refl : (t k : String) → (t == t && k == k) ≡ true
request_key_refl t k =
    ground (arith, (string_eq.equal_right t t).1 refl, (string_eq.equal_right k k).1 refl)

-- An appended row is the first with its key where no row had it.
find_appended :
    {A : Type 0} (p : A → Bool) (a : A) (l : List A)
    → find p l ≡ none
    → p a ≡ true
    → find p (l ++ a ∷ []) ≡ some a
find_appended p a [] h passes = rw passes refl
find_appended p a (x ∷ rest) h passes = elim (Bool-cases (p x)) [
  | inl e ↦ let bad = rw e at h in cc
  | inr e ↦ rw e (find_appended p a rest (rw e at h) passes)
]

abbrev created_or : Created → Result Created → Created
created_or c (returned other) = other
created_or c (raised failure) = c

module _ (digest : Parameters → String) (settings : Settings) (now : ℕ) (id : String)
    (principal : AuthUser) (tenant_id : String) (asked : NewExport) where
  -- Where a creation has returned, the table holds its row first under the key, with the fingerprint of
  -- the request.
  abbrev IsHolding : List ExportRow → Created → Parameters → Type 0
  IsHolding table reply parameters =
      (find (has_request_key tenant_id asked.idempotency_key) table ≡ some reply.row)
      × (reply.row.request_fingerprint ≡ digest parameters)

  inserted :
      (table after : List ExportRow) (reply : Created) (parameters : Parameters)
      (found : Option ExportRow)
      → find (has_request_key tenant_id asked.idempotency_key) table ≡ found
      → insert_export
          (new_export_row digest settings now id principal tenant_id asked parameters)
          table
          found
        ≡ (after, returned reply)
      → IsHolding after reply parameters
  inserted table after reply parameters none e h =
      let new = new_export_row digest settings now id principal tenant_id asked parameters in
      let rows : table ++ new ∷ [] ≡ after = ap (λ p. p.0) h in
      let row : new ≡ reply.row = ap (λ p. (created_or reply p.1).row) h in
      (
        subst (λ l. find (has_request_key tenant_id asked.idempotency_key) l ≡ some reply.row) rows
            (find_appended (has_request_key tenant_id asked.idempotency_key) new table e
                (request_key_refl tenant_id asked.idempotency_key)
              ∙ ap some row),
        ap (λ r. r.request_fingerprint) (sym row),
      )
  inserted table after reply parameters (some row) e h =
      elim (Bool-cases (row.request_fingerprint == digest parameters)) [
        | inl same ↦
            let h' = rw same at h in
            let rows : table ≡ after = ap (λ p. p.0) h' in
            let kept : row ≡ reply.row = ap (λ p. (created_or reply p.1).row) h' in
            let fingerprint : row.request_fingerprint ≡ digest parameters =
              (eq_iff row.request_fingerprint (digest parameters)).0 same in
            (
              subst (λ l. find (has_request_key tenant_id asked.idempotency_key) l ≡ some reply.row)
                  rows (e ∙ ap some kept),
              ap (λ r. r.request_fingerprint) (sym kept) ∙ fingerprint,
            )
        | inr other ↦ let bad = ap (λ p. p.1) (rw other at h) in cc
      ]

  created_holds :
      (table after : List ExportRow) (reply : Created) (allowed : Result Parameters)
      → create_allowed digest settings now id principal tenant_id asked table allowed
        ≡ (after, returned reply)
      → (parameters : Parameters) × (allowed ≡ returned parameters)
        × IsHolding after reply parameters
  created_holds table after reply (raised failure) h = let bad = ap (λ p. p.1) h in cc
  created_holds table after reply (returned parameters) h = (
    parameters,
    refl,
    inserted table after reply parameters
        (find (has_request_key tenant_id asked.idempotency_key) table) refl h,
  )

  -- A request under a key that is taken.
  repeated :
      (table : List ExportRow) (row : ExportRow) (parameters : Parameters)
      → find (has_request_key tenant_id asked.idempotency_key) table ≡ some row
      → create_allowed digest settings now id principal tenant_id asked table (returned parameters)
        ≡ (
          table,
          if not (row.request_fingerprint == digest parameters)
              then raised (
                  http_exception 409
                    "idempotency_key was already used with different export parameters")
              else returned (record { duplicate = true; row = row }),
        )
  repeated table row parameters e =
      ap
        (insert_export (new_export_row digest settings now id principal tenant_id asked parameters)
          table)
        e

parameters_same : (a b : Parameters) → returned a ≡ returned b → a ≡ b
parameters_same a b h = cc

checked_bounds :
    (asked : NewExport) (access : Result String) (unconfigured too_long : Bool)
    (first second : Failure) (parameters : Parameters)
    → (access >>= λ _.
        if unconfigured
        then raised first
        else if too_long
        then raised second
        else returned (bounded asked))
      ≡ returned parameters
    → parameters ≡ bounded asked
checked_bounds asked (raised failure) unconfigured too_long first second parameters h = cc
checked_bounds asked (returned role) true too_long first second parameters h = cc
checked_bounds asked (returned role) false true first second parameters h = cc
checked_bounds asked (returned role) false false first second parameters h =
    sym (parameters_same (bounded asked) parameters h)

may_bounds :
    (settings : Settings) (members : List Member) (principal : AuthUser) (tenant_id : String)
    (asked : NewExport) (parameters : Parameters)
    → may_export settings members principal tenant_id asked ≡ returned parameters
    → parameters ≡ bounded asked
unfolding may_export
may_bounds settings members principal tenant_id asked parameters h =
    checked_bounds asked
      (require_tenant_access members principal tenant_id (some ("owner" ∷ "admin" ∷ "member" ∷ []))
        (some ("exports:write" ∷ [])))
      (settings.is_production && not settings.object_storage_configured)
      (is_pdf asked.format && ltb 1000 (bounded asked).filters.limit)
      (http_exception 503 "durable export object storage is not configured")
      (http_exception 422 "PDF exports support at most 1000 rows") parameters h

apart : (s t : String) → s ≢ t → (s == t) ≡ false
apart s t h = elim (Bool-cases (s == t)) [ inl e ↦ elim (h ((eq_iff s t).0 e)) [ ] | inr e ↦ e ]

abbrev answer_to : (row : ExportRow) → Bool → Result Created
answer_to row same =
    if not same
    then raised
        (http_exception 409 "idempotency_key was already used with different export parameters")
    else returned (record { duplicate = true; row = row })

-- A job that was created is found under its key. While its row is in the table, an allowed request with
-- the key changes nothing: with the same parameters, after their bounds, it is answered by that row
-- as a duplicate, and with parameters of another digest it is refused with status 409.
pub creation_is_idempotent :
    (digest : Parameters → String) (settings settings' : Settings) (now now' : ℕ) (id id' : String)
    (members members' : List Member) (principal principal' : AuthUser) (tenant_id : String)
    (asked again : NewExport) (table after later : List ExportRow) (reply : Created)
    (row : ExportRow) (parameters : Parameters)
    → create_export_job digest settings now id members principal tenant_id asked table
      ≡ (after, returned reply)
    → find (has_request_key tenant_id asked.idempotency_key) later ≡ some row
    → row.request_fingerprint ≡ reply.row.request_fingerprint
    → again.idempotency_key ≡ asked.idempotency_key
    → may_export settings' members' principal' tenant_id again ≡ returned parameters
    → let next =
        create_export_job digest settings' now' id' members' principal' tenant_id again later in
      (find (has_request_key tenant_id asked.idempotency_key) after ≡ some reply.row)
      × (next.0 ≡ later)
      × (bounded again ≡ bounded asked → next.1 ≡ returned (record { duplicate = true; row = row }))
      × (digest (bounded again) ≢ digest (bounded asked)
          → next.1
            ≡ raised (
                http_exception 409
                  "idempotency_key was already used with different export parameters"))
unfolding create_export_job may_export
creation_is_idempotent digest settings settings' now now' id id' members members' principal
      principal' tenant_id asked again table after later reply row parameters created found kept key
      allowed =
    let (first, may, (holds, fingerprint)) =
      created_holds digest settings now id principal tenant_id asked table after reply
        (may_export settings members principal tenant_id asked) created in
    let first_bounds : first ≡ bounded asked =
      may_bounds settings members principal tenant_id asked first may in
    let again_bounds : parameters ≡ bounded again =
      may_bounds settings' members' principal' tenant_id again parameters allowed in
    let next : create_export_job digest settings' now' id' members' principal' tenant_id again later
        ≡ (later, answer_to row (row.request_fingerprint == digest parameters)) =
      ap (create_allowed digest settings' now' id' principal' tenant_id again later) allowed
      ∙ repeated digest settings' now' id' principal' tenant_id again later row parameters
          (ap (λ k. find (has_request_key tenant_id k) later) key ∙ found) in
    let stored : row.request_fingerprint ≡ digest (bounded asked) =
      kept ∙ fingerprint ∙ ap digest first_bounds in
    (
      holds,
      ap (λ p. p.0) next,
      λ same.
          ap (λ p. p.1) next
          ∙ ap (answer_to row) (
              (eq_iff row.request_fingerprint (digest parameters)).1
                (stored ∙ ap digest (sym same ∙ sym again_bounds))),
      λ other.
          ap (λ p. p.1) next
          ∙ ap (answer_to row) (
              apart row.request_fingerprint (digest parameters)
                λ e. other (ap digest (sym again_bounds) ∙ sym e ∙ stored)),
    )
