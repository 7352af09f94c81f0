-- ===== src/Playbooks/Attempts.antt =====
-- What the outcome of one webhook attempt leads to.
use Prim.Native.String.{len}
use native.Mathlib.Numerals.{add-one}
use native.Mathlib.Nat.{le_refl, pow-suc}
use forjd.Prelude.{
  ℕ, zero, suc, ◌+◌, ◌-◌, ◌^◌, ◌≤◌, ◌<◌, min, String, ◌≡◌, refl, ◌↔◌, ◌⊎◌, inl, inr, false, Option,
  none, some, List, arith, string_eq, nat_eq, ◌==◌, Bool-cases,
}
use forjd.Playbooks.Delivery.{
  retry_scheduled, succeeded, failed, retry_backoff_seconds, ref, Signing, signing_key, value_error,
  webhook_signing_secret, Transport, response, resolution_failed, network_failed, outcome_of,
  run_webhook, Durable, durable_webhook_outcome,
}

-- The exchanges that count as delivered, and those that may be tried again, written out.
abbrev pub IsDelivered : Transport → Type 0
IsDelivered (response code h) = (200 ≤ code) × (code < 300)
IsDelivered _ = ⊥

abbrev pub IsTransient : Transport → Type 0
IsTransient (response code h) =
    (code ≡ 408) ⊎ (code ≡ 425) ⊎ (code ≡ 429) ⊎ ((500 ≤ code) × (code < 600))
IsTransient resolution_failed = Unit
IsTransient network_failed = Unit
IsTransient _ = ⊥

-- The record of an attempt that ended in a transport.
unfoldable pub recorded : Transport → ℕ → ℕ → Durable
unfolding outcome_of durable_webhook_outcome
recorded t attempt max_attempts = durable_webhook_outcome (outcome_of t) attempt max_attempts

recorded_succeeded :
    (t : Transport) (attempt max_attempts : ℕ)
    → ((recorded t attempt max_attempts).status ≡ succeeded) ↔ IsDelivered t
unfolding recorded
recorded_succeeded (response code h) attempt max_attempts = (λ e. ground arith, λ e. ground arith)
recorded_succeeded _ attempt max_attempts = (λ e. ground arith, λ e. ground arith)

recorded_retry :
    (t : Transport) (attempt max_attempts : ℕ)
    → ((recorded t attempt max_attempts).status ≡ retry_scheduled)
      ↔ (IsTransient t × (attempt < max_attempts))
unfolding recorded
recorded_retry (response code h) attempt max_attempts = (λ e. ground arith, λ e. ground arith)
recorded_retry _ attempt max_attempts = (λ e. ground arith, λ e. ground arith)

recorded_failed :
    (t : Transport) (attempt max_attempts : ℕ)
    → ((recorded t attempt max_attempts).status ≡ succeeded)
      ⊎ ((recorded t attempt max_attempts).status ≡ retry_scheduled)
      ⊎ ((recorded t attempt max_attempts).status ≡ failed)
unfolding recorded
recorded_failed (response code h) attempt max_attempts = ground arith
recorded_failed _ attempt max_attempts = ground arith

-- An attempt is recorded as succeeded exactly when the answer was a 2xx, and is tried again exactly
-- when the failure was transient (408, 425, 429, 5xx, an unresolved name or a network error) and
-- attempts are left; every other attempt is recorded as failed.
pub attempt_classified :
    (t : Transport) (attempt max_attempts : ℕ)
    → (((recorded t attempt max_attempts).status ≡ succeeded) ↔ IsDelivered t)
      × (((recorded t attempt max_attempts).status ≡ retry_scheduled)
          ↔ (IsTransient t × (attempt < max_attempts)))
      × (((recorded t attempt max_attempts).status ≡ succeeded)
          ⊎ ((recorded t attempt max_attempts).status ≡ retry_scheduled)
          ⊎ ((recorded t attempt max_attempts).status ≡ failed))
attempt_classified t attempt max_attempts = (
  recorded_succeeded t attempt max_attempts,
  recorded_retry t attempt max_attempts,
  recorded_failed t attempt max_attempts,
)

power_grows : (k : ℕ) → 2 ^ k ≤ 2 ^ (k + 1)
power_grows k = rw (add-one, pow-suc) (omega arith)

power_pos : (k : ℕ) → 1 ≤ 2 ^ k
power_pos zero = omega arith
power_pos (suc k) = rw pow-suc (omega (arith, power_pos k))

capped_step :
    (attempt : ℕ)
    → (min (attempt + 1 - 1) 10 ≡ min (attempt - 1) 10)
      ⊎ (min (attempt + 1 - 1) 10 ≡ min (attempt - 1) 10 + 1)
capped_step attempt = ground arith

capped_grows : (attempt : ℕ) → 2 ^ min (attempt - 1) 10 ≤ 2 ^ min (attempt + 1 - 1) 10
capped_grows attempt = elim (capped_step attempt) [
  | inl e ↦ rw e (le_refl _)
  | inr e ↦ rw e (power_grows (min (attempt - 1) 10))
]

-- The delay before a retry lies between 5 and 300 seconds, is at least what the server asked for up
-- to 300 seconds, and never shrinks with the attempts.
retry_backoff_bounds :
    (attempt : ℕ) (retry_after : Option ℕ)
    → (5 ≤ retry_backoff_seconds attempt retry_after)
      × (retry_backoff_seconds attempt retry_after ≤ 300)
      × (retry_backoff_seconds attempt retry_after
          ≤ retry_backoff_seconds (attempt + 1) retry_after)
      × ((wait : ℕ)
          → retry_after ≡ some wait
          → min wait 300 ≤ retry_backoff_seconds attempt retry_after)
unfolding retry_backoff_seconds
retry_backoff_bounds attempt retry_after =
    ground (arith, capped_grows attempt, power_pos (min (attempt - 1) 10))

signing_secret-cases :
    (configured : Option (List (String × String))) (name : String)
    → (webhook_signing_secret configured (ref name) ≡ value_error)
      ⊎ ((secret : String) × (16 ≤ len secret)
          × (webhook_signing_secret configured (ref name) ≡ signing_key name secret))
unfolding webhook_signing_secret
signing_secret-cases none name = inl refl
signing_secret-cases (some secrets) name = ground arith

-- A configuration that names a secret is never delivered without a key of at least 16 bytes: where
-- the secret is missing or short nothing is sent, and the failure is final.
pub unsigned_is_never_sent :
    (configured : Option (List (String × String))) (send : Signing → Transport) (name url : String)
    → (((secret : String) × (16 ≤ len secret)
          × (run_webhook configured send (record { url = url; secret_ref = ref name })
              ≡ outcome_of (send (signing_key name secret))))
        ⊎ ((run_webhook configured send (record { url = url; secret_ref = ref name })).status
            ≡ failed)
          × ((run_webhook configured send (record { url = url; secret_ref = ref name })).retryable
              ≡ false))
unfolding run_webhook
unsigned_is_never_sent configured send name url = elim (signing_secret-cases configured name) [
  | inl e ↦ elim (Bool-cases (url == "")) [
    | inl no_url ↦ rw (e, no_url) (inr (refl, refl))
    | inr given ↦ rw (e, given) (inr (refl, refl))
  ]
  | inr (secret, long, e) ↦ elim (Bool-cases (url == "")) [
    | inl no_url ↦ rw (e, no_url) (inr (refl, refl))
    | inr given ↦ rw (e, given) (inl (secret, long, refl))
  ]
]
