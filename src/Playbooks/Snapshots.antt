-- ===== src/Playbooks/Snapshots.antt =====
-- `_normalize_action_plan` of backend/app/services/playbooks.py on the snapshots it made itself: what
-- `execute_playbook` stores with a run and `_execute_run_actions` reads back.
use forjd.Playbooks.Runs.{Delivery}
use forjd.Playbooks.Delivery.{Configuration}
use forjd.Playbooks.Results.{PlanEntry}
use forjd.Playbooks.Plan.{normalize_from, raw_of}
use forjd.Prelude.{
  ℕ, zero, suc, String, ◌≡◌, refl, ap, Option, some, List, [], ◌∷◌, map, nat_eq, first_chars,
}

pub first_chars-twice : (n : ℕ) (s : String) → first_chars n (first_chars n s) ≡ first_chars n s
unfolding first_chars
first_chars-twice zero s = refl
first_chars-twice (suc n) String.[] = refl
first_chars-twice (suc n) (String.◌∷◌ c s) = ap (String.◌∷◌ c) (first_chars-twice n s)

abbrev entry_of : String → Option String → String → Configuration → ℕ → PlanEntry
entry_of key i t c n = record {
  key = key;
  playbook_action_id = i;
  action_type = t;
  configuration = c;
  sort_order = n;
}

abbrev ReadsBack : List String → List PlanEntry → Type 0
ReadsBack seen plan = (ordinal : ℕ) → normalize_from ordinal seen (map raw_of plan) ≡ some plan
