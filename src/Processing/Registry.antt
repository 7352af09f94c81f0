-- ===== src/Processing/Registry.antt =====
-- The constraints of backend/sql/024_durable_ingest_processing.sql on what a batch was registered
-- with, beside those on its progress, over every history of statements.
use forjd.Processing.Constraints.{IsSound, run-IsSound, run-receipts}
use forjd.Processing.Ledger.{Ledger, Statement, run}
use forjd.Processing.Batch.{Event, Receipt}
use forjd.Prelude.{
  ◌≤◌, String, ◌≡◌, sym, subst, Bool, true, ◌&&◌, ◌||◌, List, [], ◌∷◌, map, leb, string_eq, nat_eq,
  ◌==◌, length, All, size,
}
use Prim.Native.Char.{code}

-- `[0-9a-f]`
abbrev is_hex : String → Bool
is_hex String.[] = true
is_hex (String.◌∷◌ c s) =
    ((leb 48 (code c) && leb (code c) 57) || (leb 97 (code c) && leb (code c) 102)) && is_hex s

-- `~ '^[0-9a-f]{64}$'`
abbrev pub is_hash : String → Bool
is_hash s = size s == 64 && is_hex s

pub record IsRegistered (r : Receipt) : Type 0 where
  -- `ingest_processing_version_bounds`
  pub versions : (1 ≤ r.workflow_version) × (1 ≤ r.projection_version)
  -- `ingest_processing_hash_shapes`
  pub hashes : (is_hash r.dedupe_key ≡ true) × (is_hash r.workflow_hash ≡ true)
  -- `ingest_processing_snapshot_shapes`
  pub event_bounds : (1 ≤ length r.events) × (length r.events ≤ 25)
  pub every_id : length r.event_ids ≡ length r.events
  pub one_tenant : length r.tenant_ids ≡ 1
  -- `enforce_ingest_processing_tenant_integrity`
  pub tenant_integrity : All (λ (e : Event). r.tenant_ids ≡ e.tenant_id ∷ []) r.events

-- `UNIQUE`: no two rows are the same by a relation.
abbrev pub IsUnique : (Receipt → Receipt → Type 0) → List Receipt → Type 0
IsUnique Same [] = Unit
IsUnique Same (r ∷ rest) = All (λ q. ¬ Same r q) rest × IsUnique Same rest

abbrev pub HasSameKey : Receipt → Receipt → Type 0
HasSameKey r q = r.dedupe_key ≡ q.dedupe_key

abbrev pub HasSameGroup : Receipt → Receipt → Type 0
HasSameGroup r q = (r.acceptance_id ≡ q.acceptance_id) × (r.group_ordinal ≡ q.group_ordinal)

abbrev pub receipts : Ledger → List Receipt
receipts = map (λ b. b.receipt)

pub record IsRegistry (l : List Receipt) : Type 0 where
  pub registered : All IsRegistered l
  pub one_key : IsUnique HasSameKey l
  pub one_group : IsUnique HasSameGroup l

-- The table meets all of its constraints: those on attempts, leases, completion and the primary key,
-- and those on the receipts.
pub record MeetsConstraints (ledger : Ledger) : Type 0 where
  pub sound : IsSound ledger
  pub registry : IsRegistry (receipts ledger)

-- From a table that meets its constraints every history of the statements on it, by any workers and
-- in any order, leads to one that meets them: the bounds of attempts, the shapes of leases and of
-- completion, the primary key, versions, hashes, event snapshots of one tenant, and the unique keys
-- and groups; and what each batch was registered with is as it was.
pub run-MeetsConstraints :
    (history : List Statement) {ledger : Ledger}
    → MeetsConstraints ledger
    → MeetsConstraints (run history ledger) × (receipts (run history ledger) ≡ receipts ledger)
run-MeetsConstraints history {ledger} h =
    let same = run-receipts history ledger in
    (
      record {
        sound = run-IsSound history h.sound;
        registry = subst IsRegistry (sym same) h.registry;
      },
      same,
    )
