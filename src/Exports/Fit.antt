-- ===== src/Exports/Fit.antt =====
-- Every call of an attempt leaves a state that fits.
use forjd.Prelude.{
  ℕ, String, ◌≡◌, refl, ap, inl, inr, Bool, true, false, Option, none, some, List, arith,
  Bool-cases,
}
use forjd.Exports.Jobs.{
  ArtifactKey, has_key, Job, is_owner, may_clear, clear, plan, may_renew, renew, Artifact, complete,
  left_pointer, record_failure,
}
use forjd.Exports.Attempts.{
  Stage, begun, cleaned, ready, keyed, planned, renewed, uploaded, discarding, failing, cleaned_up,
  Attempt, Outcome, returns, raises, raises_late, discard_pointer, Effect, clean, clear_stale,
  store_plan, renew_lease, finish, clean_up, fail, advance,
}
use forjd.Exports.Kept.{is_key_within, is_uploaded, job_fits, attempt_fits, IsFit}

left_pointer_within :
    (n : ℕ) (c : Bool) (durable pointer : Option ArtifactKey)
    → is_key_within n pointer ≡ true
    → is_key_within n (left_pointer c durable pointer) ≡ true
left_pointer_within n false durable pointer h = h
left_pointer_within n true none pointer h = h
left_pointer_within n true (some key) pointer h = elim (Bool-cases (has_key pointer key)) [
  | inl e ↦ rw e refl
  | inr e ↦ rw e h
]

module _ (now : ℕ) (deleting : Bool) (a : Attempt) (j : Job) (stored : List ArtifactKey)
    (held : job_fits now j stored deleting ≡ true)
    (fit : attempt_fits j stored deleting a ≡ true) where
  abbrev Fits : Effect → Type 0
  Fits = IsFit now deleting a j

  to_failing-IsFit :
      Fits (record { row = j; objects = stored; rest = some (record a { stage = failing }) })
  to_failing-IsFit = (λ c. held, ground arith)

  finish-IsFit : a.stage ≡ uploaded → (artifact : Artifact) → Fits (finish now artifact a j stored)
  unfolding complete
  finish-IsFit at artifact = elim (Bool-cases (is_owner j.lease_owner a.owner)) [
    | inl e ↦ rw e (λ c. ground (arith, ap is_uploaded at), refl)
    | inr e ↦ rw e (λ c. held, ground arith)
  ]

  fail-IsFit : (error_class : String) (c : Bool) → Fits (fail now error_class c a j stored)
  unfolding record_failure
  fail-IsFit error_class c = elim (Bool-cases (is_owner j.lease_owner a.owner)) [
    | inl e ↦
        rw e (λ h. ground (arith, left_pointer_within j.attempts c a.durable j.object_key), refl)
    | inr e ↦ rw e (λ h. held, refl)
  ]

  store_plan-IsFit : Fits (store_plan a j stored)
  unfolding plan
  store_plan-IsFit = elim (Bool-cases a.lease_lost) [
    | inl lost ↦ rw lost (λ c. held, refl)
    | inr kept ↦ elim (Bool-cases (is_owner j.lease_owner a.owner)) [
      | inl e ↦ rw (kept, e) (λ c. ground arith, ground arith)
      | inr e ↦ rw (kept, e) (λ c. held, refl)
    ]
  ]

  clean-IsFit :
      (durable : Option ArtifactKey) → a.durable ≡ durable → Fits (clean a j stored durable)
  clean-IsFit none e = (λ c. held, ground arith)
  clean-IsFit (some key) e = (λ c. ground arith, ground arith)

  clear_stale-IsFit :
      (durable : Option ArtifactKey) → a.durable ≡ durable → Fits (clear_stale a j stored durable)
  unfolding clear
  clear_stale-IsFit none e = (λ c. held, ground arith)
  clear_stale-IsFit (some key) e = elim (Bool-cases (may_clear a.owner key j)) [
    | inl t ↦ rw t (λ c. ground arith, ground arith)
    | inr t ↦ rw t (λ c. held, refl)
  ]

  renew_lease-IsFit : Fits (renew_lease now a j stored)
  unfolding renew
  renew_lease-IsFit = elim (Bool-cases (may_renew a.owner j)) [
    | inl t ↦ elim (Bool-cases a.lease_lost) [
      | inl lost ↦ rw (t, lost) (λ c. ground arith, refl)
      | inr kept ↦ rw (t, kept) (λ c. ground arith, ground arith)
    ]
    | inr t ↦ rw t (λ c. held, refl)
  ]

  clean_up-IsFit :
      (outcome : Outcome) (durable : Option ArtifactKey)
      → Fits (clean_up outcome a j stored durable)
  clean_up-IsFit returns none = (λ c. held, ground arith)
  clean_up-IsFit returns (some key) = (λ c. ground arith, ground arith)
  clean_up-IsFit raises none = (λ c. held, ground arith)
  clean_up-IsFit raises (some key) = (λ c. held, ground arith)
  clean_up-IsFit raises_late none = (λ c. held, ground arith)
  clean_up-IsFit raises_late (some key) = (λ c. ground arith, ground arith)

  late_delete-IsFit :
      (durable : Option ArtifactKey)
      → a.durable ≡ durable
      → Fits (record {
        row = j;
        objects = discard_pointer durable stored;
        rest = some (record a { stage = failing });
      })
  late_delete-IsFit none e = to_failing-IsFit
  late_delete-IsFit (some key) e = (λ c. ground arith, ground arith)

  module _ (artifact : Artifact) (error_class : String) where
    pub advance-IsFit :
        (s : Stage) (outcome : Outcome)
        → a.stage ≡ s
        → Fits (advance now artifact error_class a j stored s outcome)
    advance-IsFit begun returns at = clean-IsFit a.durable refl
    advance-IsFit begun raises at = to_failing-IsFit
    advance-IsFit begun raises_late at = late_delete-IsFit a.durable refl
    advance-IsFit cleaned returns at = clear_stale-IsFit a.durable refl
    advance-IsFit cleaned raises at = to_failing-IsFit
    advance-IsFit cleaned raises_late at = to_failing-IsFit
    advance-IsFit ready returns at = (λ c. held, ground arith)
    advance-IsFit ready raises at = to_failing-IsFit
    advance-IsFit ready raises_late at = to_failing-IsFit
    advance-IsFit keyed returns at = store_plan-IsFit
    advance-IsFit keyed raises at = to_failing-IsFit
    advance-IsFit keyed raises_late at = to_failing-IsFit
    advance-IsFit planned returns at = renew_lease-IsFit
    advance-IsFit planned raises at = to_failing-IsFit
    advance-IsFit planned raises_late at = to_failing-IsFit
    advance-IsFit renewed returns at = (λ c. ground arith, ground arith)
    advance-IsFit renewed raises at = to_failing-IsFit
    advance-IsFit renewed raises_late at = (λ c. ground arith, ground arith)
    advance-IsFit uploaded returns at = finish-IsFit at artifact
    advance-IsFit uploaded raises at = to_failing-IsFit
    advance-IsFit uploaded raises_late at = to_failing-IsFit
    advance-IsFit discarding returns at = (λ c. ground arith, refl)
    advance-IsFit discarding raises at = to_failing-IsFit
    advance-IsFit discarding raises_late at = (λ c. ground arith, ground arith)
    advance-IsFit failing outcome at = clean_up-IsFit outcome a.durable
    advance-IsFit (cleaned_up c) returns at = fail-IsFit error_class c
    advance-IsFit (cleaned_up c) raises at = (λ h. held, refl)
    advance-IsFit (cleaned_up c) raises_late at = (λ h. held, refl)
