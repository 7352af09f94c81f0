-- ===== src/Exports/Downloads.antt =====
-- A download link opens a stored artifact, and not for longer than it is kept.
use forjd.Exports.Kept.{has}
use forjd.Exports.Attempts.{Export, Event, run, new_export}
use forjd.Exports.Promises.{completed_is_downloadable}
use forjd.Access.Tenancy.{Member, require_tenant_access}
use forjd.Prelude.{
  ℕ, ◌+◌, ◌-◌, ◌≤◌, min, String, ◌≡◌, refl, sym, subst, ap, ◌∙◌, inl, inr, true, false, Option,
  none, some, List, [], ◌∷◌, arith, leb, Bool-cases, find,
}
use forjd.Access.Principals.{AuthUser, Result, returned, raised, ◌>>=◌}
use forjd.Exports.Jobs.{is_completed, ArtifactKey, Job, has_passed}
use forjd.Exports.Requests.{
  Settings, ExportRow, is_export, get_job, Download, presign, presign_until, ready_download,
  found_download, create_download,
}

-- A link for a key that ends with the artifact, which has not expired.
abbrev IsTimely : ℕ → Option ℕ → ArtifactKey → Download → Type 0
IsTimely now expires_at key link =
    (link.key ≡ key)
    × (has_passed now expires_at ≡ false)
    × (link.expires_in ≤ 900)
    × ((t : ℕ) → expires_at ≡ some t → now + link.expires_in ≤ t)

abbrev link_or : Download → Result Download → Download
link_or link (returned other) = other
link_or link (raised failure) = link

module _ (settings : Settings) (now : ℕ) (j : Job) (key : ArtifactKey) (link : Download) where
  presigned :
      (seconds : ℕ)
      → presign settings j key seconds ≡ returned link
      → (link.key ≡ key) × (link.expires_in ≡ seconds)
  presigned seconds h = elim (Bool-cases settings.object_storage_configured) [
    | inl e ↦
        let made = rw e at h in
        (
          ap (λ r. (link_or link r).key) (sym made),
          ap (λ r. (link_or link r).expires_in) (sym made),
        )
    | inr e ↦ let bad = rw e at h in cc
  ]

  timely :
      (expires_at : Option ℕ)
      → presign_until settings now j key expires_at ≡ returned link
      → IsTimely now expires_at key link
  timely none h =
      let (same, seconds) = presigned 900 h in (same, refl, omega (arith, seconds), λ t e. cc)
  timely (some expires) h = elim (Bool-cases (leb (expires - now) 0)) [
    | inl e ↦ let bad = rw e at h in cc
    | inr e ↦
        let (same, seconds) = presigned (min (expires - now) 900) (rw e at h) in
        (same, ground (arith, e), omega (arith, seconds), λ t s. ground (arith, e, seconds, s))
  ]

some_key : (k l : ArtifactKey) → some k ≡ some l → k ≡ l
some_key k l h = cc

ready :
    (settings : Settings) (now : ℕ) (j : Job) (pointer : Option ArtifactKey) (link : Download)
    → ready_download settings now j pointer ≡ returned link
    → (is_completed j.status ≡ true)
      × ((key : ArtifactKey) × (pointer ≡ some key) × IsTimely now j.expires_at key link)
ready settings now j none link h = cc
ready settings now j (some key) link h = elim (Bool-cases (is_completed j.status)) [
  | inl e ↦ (e, (key, refl, timely settings now j key link j.expires_at (rw e at h)))
  | inr e ↦ let bad = rw e at h in cc
]

past_access :
    (settings : Settings) (now : ℕ) (access : Result String) (found : Option ExportRow)
    (link : Download)
    → ((access >>= λ _. returned found) >>= found_download settings now) ≡ returned link
    → found_download settings now found ≡ returned link
past_access settings now (raised failure) found link h = cc
past_access settings now (returned role) found link h = h

-- A download link of an export job, after any history of its workers, expiry, crashes and failures,
-- opens an artifact of the last attempt that is stored, unless a tenant has asked for the deletion
-- of the job, and ends with the job's artifact and within fifteen minutes.
pub link_opens_stored_artifact :
    (start max_attempts : ℕ) (events : List Event) (settings : Settings) (members : List Member)
    (principal : AuthUser) (tenant_id id : String) (table : List ExportRow) (row : ExportRow)
    (link : Download)
    → let e = run events (new_export start max_attempts) in
      find (is_export tenant_id id) table ≡ some row
      → row.job ≡ e.job
      → e.deleting ≡ false
      → create_download settings e.clock members principal tenant_id id table ≡ returned link
      → (has e.stored link.key ≡ true)
        × (link.key.attempt ≡ e.job.attempts)
        × (link.expires_in ≤ 900)
        × ((t : ℕ) → e.job.expires_at ≡ some t → e.clock + link.expires_in ≤ t)
unfolding create_download get_job
link_opens_stored_artifact start max_attempts events settings members principal tenant_id id table
      row link found same kept h =
    let e : Export = run events (new_export start max_attempts) in
    let answer =
      past_access settings e.clock
        (require_tenant_access members principal tenant_id none (some ("exports:read" ∷ [])))
        (find (is_export tenant_id id) table) link h in
    let of_row : ready_download settings e.clock row.job row.job.object_key ≡ returned link =
      sym (ap (found_download settings e.clock) found) ∙ answer in
    let of_job : ready_download settings e.clock e.job e.job.object_key ≡ returned link =
      subst (λ j. ready_download settings e.clock j j.object_key ≡ returned link) same of_row in
    let (done, (key, pointer, (opens, fresh, short, ends))) =
      ready settings e.clock e.job e.job.object_key link of_job in
    let (last, points, attempt, stored) =
      completed_is_downloadable start max_attempts events done kept fresh in
    let chosen : link.key ≡ last = opens ∙ some_key key last (sym pointer ∙ points) in
    (
      subst (λ k. has e.stored k ≡ true) (sym chosen) stored,
      ap (λ k. k.attempt) chosen ∙ attempt,
      short,
      ends,
    )
