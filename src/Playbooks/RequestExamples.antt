-- ===== src/Playbooks/RequestExamples.antt =====
-- Requests and worker ticks on small tables.
use forjd.Playbooks.Workers.{
  RetryCounts, Round, counts_from, tick_playbook_retries, tick_playbook_continuations,
}
use forjd.Playbooks.Attempts.{
  IsDelivered, IsTransient, recorded, attempt_classified, unsigned_is_never_sent,
}
use Prim.Native.String.{len}
use forjd.Prelude.{
  ◌≤◌, ◌<◌, String, ◌≡◌, refl, ◌↔◌, ◌⊎◌, false, Option, some, List, [], ◌∷◌, length, All,
}
use forjd.Playbooks.Delivery.{
  retry_scheduled, succeeded, failed, absent, ref, response, outcome_of, run_webhook,
}
use forjd.Playbooks.Results.{ActionResult}
use forjd.Playbooks.Plan.{normalize_action_plan, HasDistinctKeys, IsBounded, normalize-IsPlan}
use forjd.Playbooks.Table.{step_row}
use forjd.Playbooks.Runs.{Store, Answer}
use forjd.Playbooks.Handlers.{is_exact_replay}
use forjd.Playbooks.Samples.{
  two_actions, accepted, deliver, raw_actions, store_of, closed_store, alert, refusal,
}

abbrev first_store : Store
first_store = store_of []

-- The refusal comes after the success, and is no replay of it.
other_outcome : is_exact_replay refusal (alert succeeded) ≡ false
unfolding is_exact_replay
other_outcome = refl

-- A claimed row whose first attempt failed, tried again with success.
abbrev waiting : ActionResult
waiting = record (alert retry_scheduled) {
  id = 11;
  action_plan_key = "notify";
  action_type = "webhook";
  max_attempts = 5;
  next_attempt_at = some 1060;
}

abbrev a_round : Round
a_round = record {
  claimed_at = 1100;
  locked = [];
  exchange = accepted;
  meanwhile = [];
  finished_at = 1101;
  deliver = deliver;
}

abbrev ticked : Store × Answer RetryCounts
ticked = tick_playbook_retries 1100 3 10 (a_round ∷ a_round ∷ []) (store_of (waiting ∷ []))

abbrev one_success : RetryCounts
one_success = record (counts_from 0) { claimed = 1; succeeded_count = 1 }

normalize-IsPlan_example :
    HasDistinctKeys two_actions
    × All IsBounded two_actions
    × (length two_actions ≡ length raw_actions)
    × (length raw_actions ≤ 50)
unfolding normalize_action_plan
normalize-IsPlan_example = normalize-IsPlan raw_actions two_actions refl

attempt_classified_example :
    (((recorded (response 503 absent) 1 5).status ≡ succeeded) ↔ IsDelivered (response 503 absent))
    × (((recorded (response 503 absent) 1 5).status ≡ retry_scheduled)
        ↔ (IsTransient (response 503 absent) × (1 < 5)))
    × (((recorded (response 503 absent) 1 5).status ≡ succeeded)
        ⊎ ((recorded (response 503 absent) 1 5).status ≡ retry_scheduled)
        ⊎ ((recorded (response 503 absent) 1 5).status ≡ failed))
attempt_classified_example = attempt_classified (response 503 absent) 1 5

-- The key ring has a secret of seven bytes only.
abbrev short_secrets : Option (List (String × String))
short_secrets = some (("ops", "hunter2") ∷ [])

unsigned_is_never_sent_example :
    ((secret : String) × (16 ≤ len secret)
      × (run_webhook short_secrets
            (λ _. response 204 absent)
            (record { url = "https://example.com/hook"; secret_ref = ref "ops" })
          ≡ outcome_of (response 204 absent)))
    ⊎ ((run_webhook short_secrets
          (λ _. response 204 absent)
          (record { url = "https://example.com/hook"; secret_ref = ref "ops" })).status
        ≡ failed)
      × ((run_webhook short_secrets
            (λ _. response 204 absent)
            (record { url = "https://example.com/hook"; secret_ref = ref "ops" })).retryable
          ≡ false)
unsigned_is_never_sent_example =
    unsigned_is_never_sent short_secrets (λ _. response 204 absent) "ops" "https://example.com/hook"

the_run_is_resumed : (tick_playbook_continuations 1200 10 (λ _. deliver) closed_store).1.resumed ≡ 1
unfolding tick_playbook_continuations run_webhook step_row
the_run_is_resumed = refl
