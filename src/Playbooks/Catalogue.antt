-- ===== src/Playbooks/Catalogue.antt =====
-- The tables of playbooks and of their actions, `_insert_actions` and `create_playbook` of
-- backend/app/services/playbooks.py, past `_authorize` and `ensure_playbook_schema`.
use forjd.Playbooks.Plan.{sort_order_of}
use forjd.Playbooks.Delivery.{Metadata, Signing, value_error, webhook_signing_secret, Configuration}
use forjd.Playbooks.Results.{is_webhook}
use forjd.Prelude.{
  ℕ, suc, String, Bool, true, false, ◌&&◌, Option, none, some, List, [], ◌∷◌, ◌++◌, map, string_eq,
  nat_eq, ◌==◌, if◌then◌else◌, any, contains, strip,
}

-- A row of `playbooks`; `none` of its conditions is the JSON null.
pub record PlaybookRow : Type 0 where
  pub id : ℕ
  pub tenant_id : ℕ
  pub name : String
  pub description : String
  pub is_active : Bool
  pub trigger_conditions : Option Metadata
  pub version : ℕ
  pub created_at : ℕ
  pub updated_at : ℕ

-- A row of `playbook_actions`.
pub record ActionRow : Type 0 where
  pub id : ℕ
  pub playbook_id : ℕ
  pub action_type : String
  pub configuration : Configuration
  pub sort_order : ℕ

pub record CatalogueEvent : Type 0 where
  pub action : String
  pub tenant_id : ℕ
  pub resource_id : Option ℕ

pub record Catalogue : Type 0 where
  pub playbooks : List PlaybookRow
  pub actions : List ActionRow
  pub audit : List CatalogueEvent

-- An action of a request.
pub record ActionIn : Type 0 where
  pub action_type : String
  pub configuration : Configuration
  pub sort_order : Option ℕ

pub record CreateRequest : Type 0 where
  pub tenant_id : ℕ
  pub name : String
  pub description : String
  pub trigger_conditions : Metadata
  pub actions : List ActionIn

-- A key of `updates`: not there, null, or a value.
pub data Patch (A : Type 0) : Type 0 where
  absent_key : Patch A
  null : Patch A
  value : A → Patch A

pub record Updates : Type 0 where
  pub name : Patch String
  pub description : Patch String
  pub is_active : Patch Bool
  pub trigger_conditions : Patch Metadata
  pub actions : Option (List ActionIn)

-- What is raised: the 404, the 422, `ValueError`, an error of the database in the transaction, and the
-- failures of the two calls of `audit.record_required`, before the transaction and after it.
pub data Refusal : Type 0 where
  playbook_not_found unprocessable nothing_supplied database_error : Refusal
  attempt_unrecorded result_unrecorded : Refusal

pub data Edited (A : Type 0) : Type 0 where
  edited : A → Edited A
  refused : Refusal → Edited A

-- `_playbook_dict` with the actions.
pub record PlaybookReply : Type 0 where
  pub playbook : PlaybookRow
  pub actions : List ActionRow

abbrev pub note : String → ℕ → Option ℕ → Catalogue → Catalogue
note action tenant_id resource_id c = record c {
  audit =
      c.audit ++ record { action = action; tenant_id = tenant_id; resource_id = resource_id } ∷ [];
}

abbrev is_value_error : Signing → Bool
is_value_error value_error = true
is_value_error _ = false

-- `_validate_action_configuration`: whether it raises.
unfoldable pub is_invalid : Option (List (String × String)) → String → Configuration → Bool
unfolding webhook_signing_secret
is_invalid configured action_type configuration =
    is_webhook action_type
    && is_value_error (webhook_signing_secret configured configuration.secret_ref)

abbrev pub has_action : ℕ → List ActionRow → Bool
has_action id = any (λ a. a.id == id)

abbrev pub with_action :
    ActionRow → Edited (List ActionRow × List ActionRow) → Edited (List ActionRow × List ActionRow)
with_action row (edited (rows, table)) = edited (row ∷ rows, table)
with_action row (refused r) = refused r

abbrev pub action_row : ℕ → ℕ → ℕ → ActionIn → ActionRow
action_row id playbook_id index a = record {
  id = id;
  playbook_id = playbook_id;
  action_type = a.action_type;
  configuration = a.configuration;
  sort_order = sort_order_of index a.sort_order;
}

-- `_insert_actions` from the index on: the rows inserted and the table with them. The database
-- draws the ids and refuses one that is taken.
unfoldable pub insert_actions :
    Option (List (String × String))
    → (ℕ → ℕ)
    → ℕ
    → ℕ
    → List ActionIn
    → List ActionRow
    → Edited (List ActionRow × List ActionRow)
unfolding is_invalid
insert_actions configured new_id playbook_id index [] table = edited ([], table)
insert_actions configured new_id playbook_id index (a ∷ rest) table =
    let row = action_row (new_id index) playbook_id index a in
    let inserted =
      insert_actions configured new_id playbook_id (suc index) rest (table ++ row ∷ []) in
    if is_invalid configured a.action_type a.configuration
    then refused unprocessable
    else if has_action (new_id index) table
    then refused database_error
    else with_action row inserted

abbrev pub ids_of : List PlaybookRow → List ℕ
ids_of = map (λ p. p.id)

abbrev pub created_row : ℕ → ℕ → CreateRequest → PlaybookRow
created_row now id request = record {
  id = id;
  tenant_id = request.tenant_id;
  name = strip request.name;
  description = request.description;
  is_active = true;
  trigger_conditions = some request.trigger_conditions;
  version = 1;
  created_at = now;
  updated_at = now;
}

-- What a call meets: the configured secrets, and whether its two audit events are recorded.
pub record World : Type 0 where
  pub configured : Option (List (String × String))
  pub attempt_recorded : Bool
  pub result_recorded : Bool

-- The first `audit.record_required`, which raises where the event is not recorded.
abbrev pub attempted :
    Bool → Catalogue → Catalogue × Edited PlaybookReply → Catalogue × Edited PlaybookReply
attempted true c rest = rest
attempted false c rest = (c, refused attempt_unrecorded)

-- The second one, past the transaction: what was committed stays.
abbrev pub concluded : Bool → String → PlaybookReply → Catalogue → Catalogue × Edited PlaybookReply
concluded true action reply c =
    (note action reply.playbook.tenant_id (some reply.playbook.id) c, edited reply)
concluded false action reply c = (c, refused result_unrecorded)

pub attempted-elim :
    (P : Catalogue × Edited PlaybookReply → Type 0) (recorded : Bool) (c : Catalogue)
    (rest : Catalogue × Edited PlaybookReply)
    → P (c, refused attempt_unrecorded)
    → P rest
    → P (attempted recorded c rest)
attempted-elim P true c rest h k = k
attempted-elim P false c rest h k = h

-- The end of the transaction, which an error of its statements rolls back, and what follows it.
abbrev pub commit_edit :
    Bool
    → String
    → PlaybookRow
    → List PlaybookRow
    → Catalogue
    → Edited (List ActionRow × List ActionRow)
    → Catalogue × Edited PlaybookReply
commit_edit recorded action row playbooks c (refused r) = (c, refused r)
commit_edit recorded action row playbooks c (edited (rows, table)) =
    concluded recorded action (record { playbook = row; actions = rows })
      (record c { playbooks = playbooks; actions = table })

-- `create_playbook`, at a time, with the ids that the database draws.
unfoldable pub create_playbook :
    World → ℕ → ℕ → (ℕ → ℕ) → CreateRequest → Catalogue → Catalogue × Edited PlaybookReply
unfolding insert_actions strip
create_playbook world now id new_id request c =
    let noted = note "playbook.create_attempt" request.tenant_id none c in
    let row = created_row now id request in
    attempted world.attempt_recorded c (
      if contains (ids_of c.playbooks) id
      then (noted, refused database_error)
      else commit_edit world.result_recorded "playbook.create" row (c.playbooks ++ row ∷ []) noted
          (insert_actions world.configured new_id id 0 request.actions c.actions))
