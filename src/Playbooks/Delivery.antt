-- ===== src/Playbooks/Delivery.antt =====
-- Webhook delivery of backend/app/services/playbooks.py: the outcome of one attempt, its retry delay,
-- and the durable outcome that the attempt is recorded with.
use Prim.Native.String.{len}
use forjd.Prelude.{
  ℕ, ◌-◌, ◌*◌, ◌^◌, min, max, String, Bool, true, false, not, ◌&&◌, ◌||◌, Option, none, some, List,
  [], ◌∷◌, ltb, leb, string_eq, nat_eq, ◌==◌, if◌then◌else◌, contains,
}

pub data ActionStatus : Type 0 where
  running retry_scheduled awaiting_ack succeeded failed unsupported : ActionStatus

-- A value of a `result_metadata` object.
pub data Value : Type 0 where
  flag : Bool → Value
  number : ℕ → Value
  text : String → Value

-- A JSON object, its keys in the order in which they were put.
abbrev pub Metadata : Type 0
Metadata = List (String × Value)

-- `metadata[key] = value`
unfoldable pub put : String → Value → Metadata → Metadata
put key value [] = (key, value) ∷ []
put key value ((k, v) ∷ rest) =
    if k == key then (key, value) ∷ rest else (k, v) ∷ put key value rest

abbrev pub webhook_max_attempts : ℕ
webhook_max_attempts = 5

abbrev pub retry_base_seconds : ℕ
retry_base_seconds = 5

abbrev pub retry_cap_seconds : ℕ
retry_cap_seconds = 300

abbrev pub webhook_lease_seconds : ℕ
webhook_lease_seconds = 30

-- A whole number of Python: `below n` is -(n + 1).
pub data Whole : Type 0 where
  from_zero : ℕ → Whole
  below : ℕ → Whole

-- `max(0, n)`
abbrev pub max_zero : Whole → ℕ
max_zero (from_zero n) = n
max_zero (below n) = 0

-- The `Retry-After` header as `_parse_retry_after` reads it: the number that `int` accepts, or for a
-- date the seconds until it, rounded up. Reading the text is the standard library's.
pub data RetryAfterHeader : Type 0 where
  absent : RetryAfterHeader
  blank : RetryAfterHeader
  seconds : Whole → RetryAfterHeader
  date : Whole → RetryAfterHeader
  unreadable : RetryAfterHeader

-- `_parse_retry_after`
unfoldable pub parse_retry_after : RetryAfterHeader → Option ℕ
parse_retry_after (seconds n) = some (min (max_zero n) retry_cap_seconds)
parse_retry_after (date n) = some (min (max_zero n) retry_cap_seconds)
parse_retry_after _ = none

-- `_is_retryable_webhook_status`
unfoldable pub is_retryable_webhook_status : ℕ → Bool
is_retryable_webhook_status code =
    contains (408 ∷ 425 ∷ 429 ∷ []) code || (leb 500 code && ltb code 600)

-- `_retry_backoff_seconds`; `max(0, attempt - 1)` is the truncated subtraction.
unfoldable pub retry_backoff_seconds : ℕ → Option ℕ → ℕ
retry_backoff_seconds attempt retry_after =
    let delay = min retry_cap_seconds (retry_base_seconds * 2 ^ min (attempt - 1) 10) in
    min (elim retry_after [ none ↦ delay | some wait ↦ max delay (min wait retry_cap_seconds) ])
      retry_cap_seconds

-- The dictionary that `_run_webhook` returns.
pub record Outcome : Type 0 where
  pub status : ActionStatus
  pub status_code : Option ℕ
  pub error_code : Option String
  pub metadata : Metadata
  pub retryable : Bool
  pub retry_after_seconds : Option ℕ

abbrev pub failure : Option ℕ → String → Bool → Option ℕ → Outcome
failure status_code error_code retryable retry_after = record {
  status = failed;
  status_code = status_code;
  error_code = some error_code;
  metadata = [];
  retryable = retryable;
  retry_after_seconds = retry_after;
}

-- The `secret_ref` of a configuration.
pub data SecretRef : Type 0 where
  unsigned : SecretRef
  not_a_text : SecretRef
  ref : String → SecretRef

lookup_secret : String → List (String × String) → Option String
lookup_secret name [] = none
lookup_secret name ((k, v) ∷ rest) = if k == name then some v else lookup_secret name rest

-- What `_webhook_signing_secret` returns or raises.
pub data Signing : Type 0 where
  no_key : Signing
  signing_key : String → String → Signing
  value_error : Signing

-- `_webhook_signing_secret`; `configured` is what `WEBHOOK_SIGNING_SECRETS_JSON` reads as, `none`
-- where it is no JSON object.
unfoldable pub webhook_signing_secret : Option (List (String × String)) → SecretRef → Signing
unfolding lookup_secret
webhook_signing_secret configured unsigned = no_key
webhook_signing_secret configured not_a_text = value_error
webhook_signing_secret none (ref name) = value_error
webhook_signing_secret (some secrets) (ref name) =
    if name == "" then value_error else elim (lookup_secret name secrets) [
      | none ↦ value_error
      | some secret ↦ if ltb (len secret) 16 then value_error else signing_key name secret
    ]

-- How the attempt to send the request ended.
pub data Transport : Type 0 where
  response : ℕ → RetryAfterHeader → Transport
  destination_rejected : Transport
  resolution_failed : Transport
  network_failed : Transport
  execution_failed : Transport

unfoldable pub error_code_of : ℕ → String
error_code_of code =
    if leb 300 code && ltb code 400
    then "redirect_rejected"
    else if code == 429
    then "rate_limited"
    else if code == 408
    then "request_timeout"
    else if code == 425
    then "too_early"
    else if leb 500 code && ltb code 600
    then "upstream_error"
    else "http_error"

-- What follows the exchange in `_run_webhook`.
unfoldable pub outcome_of : Transport → Outcome
unfolding is_retryable_webhook_status error_code_of parse_retry_after
outcome_of (response code retry_after) =
    if leb 200 code && ltb code 300
    then record {
      status = succeeded;
      status_code = some code;
      error_code = none;
      metadata = [];
      retryable = false;
      retry_after_seconds = none;
    }
    else let retryable = is_retryable_webhook_status code in
      failure (some code) (error_code_of code) retryable
        (if retryable then parse_retry_after retry_after else none)
outcome_of destination_rejected = failure none "destination_rejected" false none
outcome_of resolution_failed = failure none "network_error" true none
outcome_of network_failed = failure none "network_error" true none
outcome_of execution_failed = failure none "execution_error" false none

pub record Configuration : Type 0 where
  pub url : String
  pub secret_ref : SecretRef

-- `_run_webhook`; `url` is the stripped text, and `send` is asked only past the two checks.
unfoldable pub run_webhook :
    Option (List (String × String)) → (Signing → Transport) → Configuration → Outcome
unfolding webhook_signing_secret outcome_of
run_webhook configured send configuration =
    if configuration.url == ""
    then failure none "invalid_configuration" false none
    else elim (webhook_signing_secret configured configuration.secret_ref) [
      | value_error ↦ failure none "signing_secret_unavailable" false none
      | no_key ↦ outcome_of (send no_key)
      | signing_key name secret ↦ outcome_of (send (signing_key name secret))
    ]

-- The dictionary that `_durable_webhook_outcome` returns.
pub record Durable : Type 0 where
  pub status : ActionStatus
  pub status_code : Option ℕ
  pub error_code : Option String
  pub metadata : Metadata
  pub retry_after_seconds : Option ℕ

abbrev pub has_failed : ActionStatus → Bool
has_failed failed = true
has_failed _ = false

-- `_durable_webhook_outcome`
unfoldable pub durable_webhook_outcome : Outcome → ℕ → ℕ → Durable
unfolding put retry_backoff_seconds
durable_webhook_outcome outcome attempt max_attempts =
    let durable : Durable = record {
      status = outcome.status;
      status_code = outcome.status_code;
      error_code = outcome.error_code;
      metadata = outcome.metadata;
      retry_after_seconds = none;
    } in
    if not (has_failed outcome.status) || not outcome.retryable
    then durable
    else if leb max_attempts attempt
    then record durable { metadata = put "retry_exhausted" (flag true) durable.metadata }
    else let delay = retry_backoff_seconds attempt outcome.retry_after_seconds in
      record durable {
        status = retry_scheduled;
        metadata =
            put "retry_after_seconds" (number delay) (put "retryable" (flag true) durable.metadata);
        retry_after_seconds = some delay;
      }
