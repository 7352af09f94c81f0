-- ===== src/Playbooks/Edits.antt =====
-- `update_playbook` of backend/app/services/playbooks.py, past `_authorize` and
-- `ensure_playbook_schema`, sequences of edits, and the plan that `execute_playbook` selects.
use forjd.Playbooks.Catalogue.{
  PlaybookRow, ActionRow, Catalogue, ActionIn, CreateRequest, Patch, absent_key, null, value,
  Updates, playbook_not_found, nothing_supplied, database_error, Edited, edited, refused,
  PlaybookReply, note, insert_actions, World, attempted, commit_edit, create_playbook,
}
use forjd.Playbooks.Plan.{uuid, RawAction, object, Snapshot, entries}
use forjd.Playbooks.Delivery.{Metadata}
use forjd.Prelude.{
  ℕ, ◌+◌, String, Bool, true, false, not, ◌&&◌, ◌||◌, Option, none, some, List, [], ◌∷◌, map, ltb,
  leb, string_eq, nat_eq, ◌==◌, if◌then◌else◌, select, find, update, sort_by,
}

abbrev is_absent : {A : Type 0} → Patch A → Bool
is_absent absent_key = true
is_absent _ = false

abbrev is_null : {A : Type 0} → Patch A → Bool
is_null null = true
is_null _ = false

abbrev has_no_actions : Option (List ActionIn) → Bool
has_no_actions none = true
has_no_actions (some _) = false

-- `not clean and actions is None`
abbrev pub is_empty_update : Updates → Bool
is_empty_update u =
    is_absent u.name
    && is_absent u.description
    && is_absent u.is_active
    && is_absent u.trigger_conditions
    && has_no_actions u.actions

-- `NOT NULL` of the columns; `json.dumps` makes a JSON null of the conditions.
abbrev pub breaks_not_null : Updates → Bool
breaks_not_null u = is_null u.name || is_null u.description || is_null u.is_active

abbrev patched : {A : Type 0} → Patch A → A → A
patched (value new) old = new
patched _ old = old

abbrev patched_conditions : Patch Metadata → Option Metadata → Option Metadata
patched_conditions absent_key old = old
patched_conditions null old = none
patched_conditions (value new) old = some new

-- The largest INT.
abbrev pub max_version : ℕ
max_version = 2147483647

-- `SET …, version = version + 1, updated_at = NOW()`
unfoldable pub update_playbook_row : ℕ → Updates → PlaybookRow → PlaybookRow
update_playbook_row now u p = record p {
  name = patched u.name p.name;
  description = patched u.description p.description;
  is_active = patched u.is_active p.is_active;
  trigger_conditions = patched_conditions u.trigger_conditions p.trigger_conditions;
  version = p.version + 1;
  updated_at = now;
}

-- `WHERE id = … AND tenant_id = …`
abbrev pub is_playbook : ℕ → ℕ → PlaybookRow → Bool
is_playbook tenant_id playbook_id p = p.id == playbook_id && p.tenant_id == tenant_id

abbrev pub is_of : ℕ → ActionRow → Bool
is_of playbook_id a = a.playbook_id == playbook_id

-- `ORDER BY sort_order, id`
abbrev pub runs_before : ActionRow → ActionRow → Bool
runs_before a b = ltb a.sort_order b.sort_order || (a.sort_order == b.sort_order && leb a.id b.id)

-- `SELECT … FROM playbook_actions WHERE playbook_id = … ORDER BY sort_order, id`
unfoldable pub actions_of : ℕ → List ActionRow → List ActionRow
unfolding sort_by
actions_of playbook_id table = sort_by runs_before (select (is_of playbook_id) table)

-- The actions after the update of the row: deleted and inserted again, or read.
unfoldable pub replace_actions :
    Option (List (String × String))
    → (ℕ → ℕ)
    → ℕ
    → Option (List ActionIn)
    → List ActionRow
    → Edited (List ActionRow × List ActionRow)
unfolding insert_actions actions_of
replace_actions configured new_id playbook_id none table =
    edited (actions_of playbook_id table, table)
replace_actions configured new_id playbook_id (some actions) table =
    insert_actions configured new_id playbook_id 0 actions
      (select (λ a. not (is_of playbook_id a)) table)

-- The transaction of `update_playbook`, by the row that its UPDATE finds.
unfoldable pub update_found :
    World
    → ℕ
    → (ℕ → ℕ)
    → ℕ
    → ℕ
    → Updates
    → Catalogue
    → Option PlaybookRow
    → Catalogue × Edited PlaybookReply
unfolding update_playbook_row replace_actions
update_found world now new_id tenant_id playbook_id u c none = (c, refused playbook_not_found)
update_found world now new_id tenant_id playbook_id u c (some p) =
    if breaks_not_null u || leb max_version p.version
    then (c, refused database_error)
    else commit_edit world.result_recorded "playbook.update" (update_playbook_row now u p)
        (update (is_playbook tenant_id playbook_id) (update_playbook_row now u) c.playbooks) c
        (replace_actions world.configured new_id playbook_id u.actions c.actions)

-- `update_playbook`
unfoldable pub update_playbook :
    World → ℕ → (ℕ → ℕ) → ℕ → ℕ → Updates → Catalogue → Catalogue × Edited PlaybookReply
unfolding update_found
update_playbook world now new_id tenant_id playbook_id u c =
    let noted = note "playbook.update_attempt" tenant_id (some playbook_id) c in
    if is_empty_update u
    then (c, refused nothing_supplied)
    else attempted world.attempt_recorded c (
        update_found world now new_id tenant_id playbook_id u noted
          (find (is_playbook tenant_id playbook_id) c.playbooks))

abbrev pub raw_action : (ℕ → String) → ActionRow → RawAction
raw_action text_of_id a =
    let id = text_of_id a.id in
    object a.action_type (some id) (uuid id id) (some a.sort_order) a.configuration

-- `action_plan_snapshot` of the SELECT in `execute_playbook`.
unfoldable pub plan_snapshot : (ℕ → String) → ℕ → Catalogue → Snapshot
unfolding actions_of
plan_snapshot text_of_id playbook_id c =
    entries (map (raw_action text_of_id) (actions_of playbook_id c.actions))

-- A call of `create_playbook` or `update_playbook`, with what it draws and reads.
pub data Edit : Type 0 where
  create : World → ℕ → ℕ → (ℕ → ℕ) → CreateRequest → Edit
  change : World → ℕ → (ℕ → ℕ) → ℕ → ℕ → Updates → Edit

unfoldable pub edit : Edit → Catalogue → Catalogue × Edited PlaybookReply
unfolding create_playbook update_playbook
edit (create world now id new_id request) c = create_playbook world now id new_id request c
edit (change world now new_id tenant_id playbook_id u) c =
    update_playbook world now new_id tenant_id playbook_id u c

unfoldable pub edits : List Edit → Catalogue → Catalogue
unfolding edit
edits [] c = c
edits (e ∷ rest) c = edits rest (edit e c).0
