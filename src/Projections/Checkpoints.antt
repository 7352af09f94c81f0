-- ===== src/Projections/Checkpoints.antt =====
-- The checkpoints of backend/app/services/projections.py: `advance_checkpoint` and
-- `advance_checkpoint_from_meta`. Timestamps and event ids are numbers, ordered as in the database.
use forjd.Prelude.{
  ℕ, String, Bool, true, ◌&&◌, ◌||◌, Option, none, some, List, [], ◌∷◌, ◌++◌, map, ltb, string_eq,
  nat_eq, ◌==◌, if◌then◌else◌, any,
}

pub record Position : Type 0 where
  pub created_at : ℕ
  pub event_id : ℕ

-- `(created_at, event_id) > (created_at, event_id)`
abbrev pub is_after : Position → Position → Bool
is_after p q =
    ltb q.created_at p.created_at || (q.created_at == p.created_at && ltb q.event_id p.event_id)

-- The key of a checkpoint.
pub record Key : Type 0 where
  pub tenant_id : ℕ
  pub projection_name : String
  pub workflow_id : String

abbrev pub same_key : Key → Key → Bool
same_key a b =
    a.tenant_id == b.tenant_id
    && a.projection_name == b.projection_name
    && a.workflow_id == b.workflow_id

-- A row; a position is absent where one of its two columns is NULL.
pub record Checkpoint : Type 0 where
  pub key : Key
  pub last : Option Position

abbrev pub Checkpoints : Type 0
Checkpoints = List Checkpoint

-- The WHERE clause of the DO UPDATE.
abbrev pub is_behind : Position → Option Position → Bool
is_behind p none = true
is_behind p (some q) = is_after p q

unfoldable pub move_to : Key → Position → Checkpoint → Checkpoint
move_to k p c = if same_key k c.key && is_behind p c.last then record c { last = some p } else c

-- `advance_checkpoint`
unfoldable pub advance_checkpoint : Key → Position → Checkpoints → Checkpoints
unfolding move_to
advance_checkpoint k p table =
    if any (λ c. same_key k c.key) table
    then map (move_to k p) table
    else table ++ record { key = k; last = some p } ∷ []

-- An event of the batch, its time from the metadata or from the stored event; without either it
-- does not count.
pub record MetaRow : Type 0 where
  pub tenant_id : ℕ
  pub event_id : ℕ
  pub created_at : Option ℕ

abbrev pub latest_of : Option Position → Position → Option Position
latest_of none p = some p
latest_of (some q) p = if is_after p q then some p else some q

-- What counts of an event: it is of the tenant and has a time.
abbrev pub counted : (ℕ → Option ℕ) → ℕ → MetaRow → Option Position
counted stored_at tenant_id row =
    let created : Option ℕ = elim row.created_at [
      | none ↦ stored_at row.event_id
      | some at ↦ some at
    ] in
    if row.tenant_id == tenant_id
    then elim created [
      | none ↦ none
      | some at ↦ some (record { created_at = at; event_id = row.event_id })
    ]
    else none

abbrev pub keep_latest : Option Position → Option Position → Option Position
keep_latest current none = current
keep_latest current (some p) = latest_of current p

-- `latest[tid]`, over the rows in the order of the request.
unfoldable pub latest : (ℕ → Option ℕ) → ℕ → List MetaRow → Option Position → Option Position
latest stored_at tenant_id [] current = current
latest stored_at tenant_id (row ∷ rest) current =
    latest stored_at tenant_id rest (keep_latest current (counted stored_at tenant_id row))

unfoldable pub advance_to : Key → Option Position → Checkpoints → Checkpoints
unfolding advance_checkpoint
advance_to k none table = table
advance_to k (some p) table = advance_checkpoint k p table

-- `advance_checkpoint_from_meta` for the one tenant of a batch and its projection.
unfoldable pub advance_checkpoint_from_meta :
    (ℕ → Option ℕ) → Key → List MetaRow → Checkpoints → Checkpoints
unfolding latest advance_to
advance_checkpoint_from_meta stored_at k rows table =
    advance_to k (latest stored_at k.tenant_id rows none) table
