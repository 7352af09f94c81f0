-- ===== src/Projections/Results.antt =====
-- `upsert_stream_results` and `_projection_result_key` of backend/app/services/projections.py.
use forjd.Prelude.{
  ℕ, String, Bool, true, ◌&&◌, Option, none, some, List, [], ◌∷◌, ◌++◌, map, leb, string_eq, nat_eq,
  ◌==◌, if◌then◌else◌, length, any, contains, update_row, sort_by,
}

-- A row of the engine's output, its defaults filled in; what is stored beside the key is one text.
pub record StreamResult : Type 0 where
  pub tenant_id : Option ℕ
  pub source_event_id : Option ℕ
  pub projection_name : String
  pub workflow_id : String
  pub kind : String
  pub detector : String
  pub rule_id : String
  pub content : String

-- What the digest of `_projection_result_key` is taken of; the content only where no event is known.
pub data Identity : Type 0 where
  source : (event : ℕ) (detector rule_id : String) → Identity
  aggregate : (events : List ℕ) (kind : String) (content : Option String) → Identity

distinct_events : List ℕ → List ℕ
distinct_events [] = []
distinct_events (e ∷ rest) =
    let others = distinct_events rest in if contains rest e then others else e ∷ others

unfoldable pub identity_of : StreamResult → List ℕ → Identity
unfolding distinct_events sort_by
identity_of row aggregate_ids = elim row.source_event_id [
  | some event ↦ source event row.detector row.rule_id
  | none ↦ elim (sort_by leb (distinct_events aggregate_ids)) [
    | [] ↦ aggregate [] row.kind (some row.content)
    | e ∷ rest ↦ aggregate (e ∷ rest) row.kind none
  ]
]

-- A row of `stream_results`; its first four fields are its unique key.
pub record StoredResult : Type 0 where
  pub tenant_id : ℕ
  pub projection_name : String
  pub projection_version : ℕ
  pub result_key : String
  pub source_event_id : Option ℕ
  pub kind : String
  pub workflow_id : String
  pub content : String

abbrev pub same_result : StoredResult → StoredResult → Bool
same_result a b =
    a.tenant_id == b.tenant_id
    && a.projection_name == b.projection_name
    && a.projection_version == b.projection_version
    && a.result_key == b.result_key

-- `DO UPDATE SET …`
unfoldable pub overwrite : StoredResult → StoredResult → StoredResult
overwrite new old = record old {
  source_event_id = new.source_event_id;
  kind = new.kind;
  workflow_id = new.workflow_id;
  content = new.content;
}

-- `INSERT … ON CONFLICT … DO UPDATE`
unfoldable pub upsert_row : StoredResult → List StoredResult → List StoredResult
unfolding overwrite
upsert_row new table =
    if any (same_result new) table
    then map (update_row (same_result new) (overwrite new)) table
    else table ++ new ∷ []

-- An empty set of expected ids binds nothing.
abbrev pub is_expected : List ℕ → ℕ → Bool
is_expected [] id = true
is_expected (e ∷ rest) id = contains (e ∷ rest) id

abbrev pub expects_source : List ℕ → Option ℕ → Bool
expects_source events none = true
expects_source events (some event) = is_expected events event

pub record Scope : Type 0 where
  pub projection_version : ℕ
  pub aggregate_event_ids : ℕ → List ℕ
  pub expected_tenant_ids : List ℕ
  pub expected_event_ids : List ℕ

abbrev pub with_row : StoredResult → Option (List StoredResult) → Option (List StoredResult)
with_row row none = none
with_row row (some rows) = some (row ∷ rows)

-- `digest` is the SHA-256 of the canonical JSON.
module _ (digest : String → ℕ → String → Identity → String) where
  unfoldable pub stored_of : Scope → ℕ → StreamResult → StoredResult
  unfolding identity_of
  stored_of scope tenant_id row = record {
    tenant_id = tenant_id;
    projection_name = row.projection_name;
    projection_version = scope.projection_version;
    result_key =
        digest row.projection_name scope.projection_version row.workflow_id
          (identity_of row (scope.aggregate_event_ids tenant_id));
    source_event_id = row.source_event_id;
    kind = row.kind;
    workflow_id = row.workflow_id;
    content = row.content;
  }

  -- A round of the first loop, by the row's tenant: a row without one is passed over, and one outside
  -- the scope raises.
  unfoldable pub prepare_row :
      Scope → StreamResult → Option (List StoredResult) → Option ℕ → Option (List StoredResult)
  unfolding stored_of
  prepare_row scope row prepared none = prepared
  prepare_row scope row prepared (some tenant_id) =
      if is_expected scope.expected_tenant_ids tenant_id
        && expects_source scope.expected_event_ids row.source_event_id
      then with_row (stored_of scope tenant_id row) prepared
      else none

  -- The first loop; `none` where it raises.
  unfoldable pub prepare : Scope → List StreamResult → Option (List StoredResult)
  unfolding prepare_row
  prepare scope [] = some []
  prepare scope (row ∷ rest) = prepare_row scope row (prepare scope rest) row.tenant_id

  unfoldable pub write_all : List StoredResult → List StoredResult → List StoredResult
  unfolding upsert_row
  write_all [] table = table
  write_all (row ∷ rest) table = write_all rest (upsert_row row table)

  abbrev pub write_prepared :
      List StoredResult → Option (List StoredResult) → Option (List StoredResult × ℕ)
  write_prepared table none = none
  write_prepared table (some rows) = some (write_all rows table, length rows)

  -- `upsert_stream_results`, in a transaction of the caller's or of its own.
  unfoldable pub upsert_stream_results :
      Scope → List StreamResult → List StoredResult → Option (List StoredResult × ℕ)
  unfolding prepare write_all
  upsert_stream_results scope rows table = write_prepared table (prepare scope rows)
