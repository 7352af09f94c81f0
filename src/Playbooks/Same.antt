-- ===== src/Playbooks/Same.antt =====
-- What it is for two objects, two requests and two decisions to be the same, beside the comparisons of
-- `acknowledge_action` and `_resume_existing_run` in backend/app/services/playbooks.py.
use forjd.Playbooks.Runs.{Run}
use forjd.Playbooks.Handlers.{same_status, Decision, is_exact_replay}
use forjd.Playbooks.Results.{ActionResult}
use forjd.Playbooks.Requests.{
  same_value, has_entry, same_object, same_option, same_text_option, Request, same_request,
}
use forjd.Playbooks.Delivery.{
  ActionStatus, running, retry_scheduled, awaiting_ack, succeeded, failed, unsupported, Value, flag,
  number, text, Metadata,
}
use forjd.Prelude.{
  ℕ, String, ◌≡◌, refl, subst, ◌↔◌, Bool, true, false, ◌&&◌, Option, none, some, List, [], ◌∷◌,
  arith, eq_iff, string_eq, nat_eq, ◌==◌, if◌then◌else◌, all, All, mem-of-any, any-of-mem,
  mem-of-contains, contains-of-mem,
}
use mathlib.Core.List.{Memᴰ}

-- Two dictionaries with the same entries.
abbrev pub IsSameObject : Metadata → Metadata → Type 0
IsSameObject a b = All (λ entry. Memᴰ entry b) a × All (λ entry. Memᴰ entry a) b

same_value_iff : (a b : Value) → (same_value a b ≡ true) ↔ (a ≡ b)
same_value_iff (flag true) (flag true) = (λ h. refl, λ h. refl)
same_value_iff (flag true) (flag false) = ground arith
same_value_iff (flag false) (flag true) = ground arith
same_value_iff (flag false) (flag false) = (λ h. refl, λ h. refl)
same_value_iff (flag a) (number b) = ground arith
same_value_iff (flag a) (text b) = ground arith
same_value_iff (number a) (flag b) = ground arith
same_value_iff (number a) (number b) = ground arith
same_value_iff (number a) (text b) = ground arith
same_value_iff (text a) (flag b) = ground arith
same_value_iff (text a) (number b) = ground arith
same_value_iff (text a) (text b) = ground (arith, eq_iff a b)

has_entry_iff :
    (key : String) (v : Value) (m : Metadata) → (has_entry key v m ≡ true) ↔ Memᴰ (key, v) m
unfolding has_entry
has_entry_iff key v m = (
  λ h.
      let (e, inside, same) = mem-of-any (λ e. e.0 == key && same_value e.1 v) m h in
      let same_key : e.0 ≡ key = (eq_iff e.0 key).0 (ground (arith, same)) in
      let same_v : e.1 ≡ v = (same_value_iff e.1 v).0 (ground (arith, same)) in
      subst (λ k. Memᴰ (k, v) m) same_key (subst (λ w. Memᴰ (e.0, w) m) same_v inside),
  λ inside.
      any-of-mem (λ e. e.0 == key && same_value e.1 v) inside
        (ground (arith, (eq_iff key key).1 refl, (same_value_iff v v).1 refl)),
)

same_text_option_iff : (a b : Option String) → (same_text_option a b ≡ true) ↔ (a ≡ b)
same_text_option_iff none none = (λ h. refl, λ h. refl)
same_text_option_iff none (some b) = ground arith
same_text_option_iff (some a) none = ground arith
same_text_option_iff (some a) (some b) = ground (arith, eq_iff a b)

same_option_iff : (a b : Option ℕ) → (same_option a b ≡ true) ↔ (a ≡ b)
same_option_iff none none = (λ h. refl, λ h. refl)
same_option_iff none (some b) = ground arith
same_option_iff (some a) none = ground arith
same_option_iff (some a) (some b) = ground arith

all_iff :
    {A : Type 0} (p : A → Bool) (P : A → Type 0)
    → ((a : A) → (p a ≡ true) ↔ P a)
    → (l : List A) → (all p l ≡ true) ↔ All P l
all_iff p P h [] = (λ e. tt, λ e. refl)
all_iff p P h (a ∷ rest) = ground (arith, h a, all_iff p P h rest)

same_object_iff : (a b : Metadata) → (same_object a b ≡ true) ↔ IsSameObject a b
unfolding same_object
same_object_iff a b =
    let forth =
      all_iff (λ e. has_entry e.0 e.1 b) (λ e. Memᴰ e b) (λ e. has_entry_iff e.0 e.1 b) a in
    let back =
      all_iff (λ e. has_entry e.0 e.1 a) (λ e. Memᴰ e a) (λ e. has_entry_iff e.0 e.1 a) b in
    (
      λ h. (forth.0 (ground (arith, h)), back.0 (ground (arith, h))),
      λ h. ground (arith, forth.1 h.0, back.1 h.1),
    )

-- The request that a run was created for: the same context, source and signal.
abbrev pub IsSameRequest : Request → Run → Type 0
IsSameRequest request run =
    IsSameObject run.trigger_context request.context
    × (run.trigger_source ≡ request.trigger_source)
    × (run.source_signal_id ≡ request.source_signal_id)

pub same_request-IsSameRequest :
    (request : Request) (run : Run) → (same_request request run ≡ true) ↔ IsSameRequest request run
same_request-IsSameRequest request run =
    let objects = same_object_iff run.trigger_context request.context in
    let sources = eq_iff run.trigger_source request.trigger_source in
    let signals = same_option_iff run.source_signal_id request.source_signal_id in
    (
      λ h. (
        objects.0 (ground (arith, h)),
        sources.0 (ground (arith, h)),
        signals.0 (ground (arith, h)),
      ),
      λ h. ground (arith, objects.1 h.0, sources.1 h.1, signals.1 h.2),
    )

-- The decision that is stored with a result: of a control-plane action, with its outcome, reference
-- and metadata.
abbrev pub IsSameDecision : Decision → ActionResult → Type 0
IsSameDecision decision r =
    Memᴰ r.action_type ("email_alert" ∷ "block_ip" ∷ "revoke_api_key" ∷ [])
    × (r.status ≡ (if decision.ok then succeeded else failed))
    × (r.external_reference ≡ decision.external_reference)
    × IsSameObject r.metadata decision.metadata

decided_status_iff :
    (s : ActionStatus) (ok : Bool)
    → (same_status s (if ok then succeeded else failed) ≡ true)
      ↔ (s ≡ (if ok then succeeded else failed))
decided_status_iff running true = ground arith
decided_status_iff retry_scheduled true = ground arith
decided_status_iff awaiting_ack true = ground arith
decided_status_iff succeeded true = ground arith
decided_status_iff failed true = ground arith
decided_status_iff unsupported true = ground arith
decided_status_iff running false = ground arith
decided_status_iff retry_scheduled false = ground arith
decided_status_iff awaiting_ack false = ground arith
decided_status_iff succeeded false = ground arith
decided_status_iff failed false = ground arith
decided_status_iff unsupported false = ground arith

pub is_exact_replay-IsSameDecision :
    (decision : Decision) (r : ActionResult)
    → (is_exact_replay decision r ≡ true) ↔ IsSameDecision decision r
unfolding is_exact_replay
is_exact_replay-IsSameDecision decision r =
    let controls : List String = "email_alert" ∷ "block_ip" ∷ "revoke_api_key" ∷ [] in
    let statuses = decided_status_iff r.status decision.ok in
    let references = same_text_option_iff r.external_reference decision.external_reference in
    let objects = same_object_iff r.metadata decision.metadata in
    (
      λ h. (
        mem-of-contains controls r.action_type (ground (arith, h)),
        statuses.0 (ground (arith, h)),
        references.0 (ground (arith, h)),
        objects.0 (ground (arith, h)),
      ),
      λ h. ground (
        arith,
        contains-of-mem controls r.action_type h.0,
        statuses.1 h.1,
        references.1 h.2,
        objects.1 h.3,
      ),
    )
