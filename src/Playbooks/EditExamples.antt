-- ===== src/Playbooks/EditExamples.antt =====
-- Small catalogues of playbooks and edits of them.
use forjd.Playbooks.Samples.{hook}
use forjd.Playbooks.Versions.{IsLater, version_pins_plan}
use forjd.Playbooks.Atomic.{IsAtomic, HasSameTables, with_result, edit-IsAtomic}
use forjd.Playbooks.Edits.{actions_of, Edit, create, change, edit, edits}
use forjd.Playbooks.Catalogue.{
  PlaybookRow, ActionRow, Catalogue, ActionIn, absent_key, null, value, Updates, playbook_not_found,
  unprocessable, database_error, refused, World,
}
use forjd.Playbooks.Delivery.{ref}
use forjd.Prelude.{
  ℕ, ◌+◌, String, ◌≡◌, refl, true, false, none, some, List, [], ◌∷◌, map, string_eq, nat_eq, ◌==◌,
  if◌then◌else◌,
}
use mathlib.Core.List.{Memᴰ}

abbrev sound : World
sound = record { configured = none; attempt_recorded = true; result_recorded = true }

abbrev notify : ActionRow
notify = record {
  id = 1;
  playbook_id = 9;
  action_type = "webhook";
  configuration = hook;
  sort_order = 0;
}

abbrev responder : PlaybookRow
responder = record {
  id = 9;
  tenant_id = 5;
  name = "responder";
  description = "";
  is_active = true;
  trigger_conditions = some [];
  version = 1;
  created_at = 100;
  updated_at = 100;
}

abbrev one_playbook : Catalogue
one_playbook = record { playbooks = responder ∷ []; actions = notify ∷ []; audit = [] }

abbrev hooked : ActionIn
hooked = record { action_type = "webhook"; configuration = hook; sort_order = none }

abbrev alerted : ActionIn
alerted = record { action_type = "email_alert"; configuration = hook; sort_order = some 2 }

abbrev signed : ActionIn
signed = record {
  action_type = "webhook";
  configuration = record hook { secret_ref = ref "absent" };
  sort_order = none;
}

abbrev second : Edit
second =
    create sound 200 10 (λ i. i + 2)
      (record {
        tenant_id = 5;
        name = " second ";
        description = "";
        trigger_conditions = [];
        actions = hooked ∷ alerted ∷ [];
      })

abbrev nothing_new : Updates
nothing_new = record {
  name = absent_key;
  description = absent_key;
  is_active = absent_key;
  trigger_conditions = absent_key;
  actions = none;
}

abbrev rename : Edit
rename = change sound 300 (λ i. i + 4) 5 9 (record nothing_new { name = value "first" })

abbrev replace : Edit
replace =
    change sound 400 (λ i. i + 4) 5 9
      (record nothing_new { actions = some (alerted ∷ hooked ∷ []) })

abbrev replace_badly : Edit
replace_badly =
    change sound 400 (λ i. i + 4) 5 9 (record nothing_new { actions = some (hooked ∷ signed ∷ []) })

abbrev name_of : ℕ → String
name_of id = if id == 1 then "one" else "other"

abbrev versions : Catalogue → List ℕ
versions c = map (λ p. p.version) c.playbooks

renamed_twice : versions (edits (second ∷ rename ∷ replace ∷ []) one_playbook) ≡ 3 ∷ 1 ∷ []
unfolding edits
renamed_twice = refl

replaced : map (λ a. a.id) (actions_of 9 (edits (replace ∷ []) one_playbook).actions) ≡ 5 ∷ 4 ∷ []
unfolding edits
replaced = refl

other_tenant :
    (edit (change sound 300 (λ i. i) 6 9 (record nothing_new { name = value "x" })) one_playbook).1
    ≡ refused playbook_not_found
unfolding edit
other_tenant = refl

null_name :
    (edit (change sound 300 (λ i. i) 5 9 (record nothing_new { name = null })) one_playbook).1
    ≡ refused database_error
unfolding edit
null_name = refl

unconfigured_secret : (edit replace_badly one_playbook).1 ≡ refused unprocessable
unfolding edit
unconfigured_secret = refl

version_pins_plan_example :
    IsLater name_of responder one_playbook (edits (second ∷ rename ∷ replace ∷ []) one_playbook)
version_pins_plan_example =
    version_pins_plan name_of responder (second ∷ rename ∷ replace ∷ []) one_playbook (refl, tt)
      (Memᴰ.head refl)

-- The result of the edit is not audited, but it is made.
abbrev unaudited : Edit
unaudited =
    change (record sound { result_recorded = false }) 300 (λ i. i + 4) 5 9
      (record nothing_new { name = value "first" })

unaudited_is_made : versions (edit unaudited one_playbook).0 ≡ 2 ∷ []
unfolding edit
unaudited_is_made = refl

edit-IsAtomic_example :
    IsAtomic one_playbook (edit replace_badly one_playbook)
    × HasSameTables
        (edit replace_badly one_playbook).0
        (edit (with_result replace_badly) one_playbook).0
edit-IsAtomic_example = edit-IsAtomic replace_badly one_playbook
