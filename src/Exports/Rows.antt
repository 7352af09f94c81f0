-- ===== src/Exports/Rows.antt =====
-- The statements outside the attempts keep a row and its attempts fit.
use forjd.Prelude.{
  ℕ, ◌+◌, ◌≡◌, refl, inl, inr, Bool, true, false, ◌&&◌, ◌||◌, Option, none, some, List, arith,
  string_eq, nat_eq, ◌==◌, Bool-cases, is_none,
}
use forjd.Exports.Jobs.{
  is_completed, is_failed, ArtifactKey, has_key, Job, is_owner, has_passed, recover, claim, renew,
  may_expire, expire, postpone,
}
use forjd.Exports.Attempts.{Attempt, new_attempt}
use forjd.Exports.Kept.{is_key_within, is_pointer_held, job_fits, attempt_fits}

later_passes :
    (now seconds : ℕ) (t : Option ℕ) → has_passed now t ≡ true → has_passed (now + seconds) t ≡ true
later_passes now seconds none h = h
later_passes now seconds (some t) h = ground arith

later_pointer :
    (now seconds n : ℕ) (expires_at : Option ℕ) (stored : List ArtifactKey) (deleting : Bool)
    (pointer : Option ArtifactKey)
    → is_pointer_held now n expires_at stored deleting pointer ≡ true
    → is_pointer_held (now + seconds) n expires_at stored deleting pointer ≡ true
later_pointer now seconds n expires_at stored deleting none h = h
later_pointer now seconds n expires_at stored deleting (some key) h =
    ground (arith, later_passes now seconds expires_at)

excused_pointer :
    (now n : ℕ) (expires_at : Option ℕ) (stored objects : List ArtifactKey) (was deleting : Bool)
    (pointer : Option ArtifactKey)
    → (deleting || has_passed now expires_at) ≡ true
    → is_pointer_held now n expires_at stored was pointer ≡ true
    → is_pointer_held now n expires_at objects deleting pointer ≡ true
excused_pointer now n expires_at stored objects was deleting none excuse h = h
excused_pointer now n expires_at stored objects was deleting (some key) excuse h = ground arith

pub within_next :
    (n : ℕ) (pointer : Option ArtifactKey)
    → is_key_within n pointer ≡ true
    → is_key_within (n + 1) pointer ≡ true
within_next n none h = h
within_next n (some key) h = ground arith

pub no_owner : (lease : Option ℕ) (o : ℕ) → is_none lease ≡ true → is_owner lease o ≡ false
no_owner none o h = refl
no_owner (some k) o h = cc

module _ (now : ℕ) (j : Job) (stored : List ArtifactKey) (deleting : Bool)
    (held : job_fits now j stored deleting ≡ true) where
  pub passes-job_fits : (seconds : ℕ) → job_fits (now + seconds) j stored deleting ≡ true
  passes-job_fits seconds =
      ground (arith, later_pointer now seconds j.attempts j.expires_at stored deleting j.object_key)

  pub recover-job_fits : job_fits now (recover now j) stored deleting ≡ true
  unfolding recover
  recover-job_fits = ground arith

  pub claim-job_fits : (owner : ℕ) → job_fits now (claim now owner j) stored deleting ≡ true
  unfolding claim
  claim-job_fits owner = ground (arith, within_next j.attempts j.object_key)

  pub renew-job_fits : job_fits now (renew now j) stored deleting ≡ true
  unfolding renew
  renew-job_fits = held

  pub postpone-job_fits :
      (key : ArtifactKey) → job_fits now (postpone now key j) stored deleting ≡ true
  unfolding postpone
  postpone-job_fits key = elim (Bool-cases (has_key j.object_key key)) [
    | inl e ↦ rw e held
    | inr e ↦ rw e held
  ]

  pub expire-job_fits : (key : ArtifactKey) → job_fits now (expire now key j) stored deleting ≡ true
  unfolding expire
  expire-job_fits key = elim (Bool-cases (is_completed j.status && has_passed now j.expires_at)) [
    | inl e ↦ rw e (ground arith)
    | inr e ↦ elim (Bool-cases (is_failed j.status && has_key j.object_key key)) [
      | inl f ↦ rw (e, f) (ground arith)
      | inr f ↦ rw (e, f) held
    ]
  ]

  pub deletes-job_fits : (objects : List ArtifactKey) → job_fits now j objects true ≡ true
  deletes-job_fits objects = ground (
    arith,
    excused_pointer now j.attempts j.expires_at stored objects deleting true j.object_key refl,
  )

  pub expiry-job_fits :
      (objects : List ArtifactKey)
      → may_expire now j ≡ true
      → job_fits now j objects deleting ≡ true
  unfolding may_expire
  expiry-job_fits objects h = ground (
    arith,
    excused_pointer now j.attempts j.expires_at stored objects deleting deleting j.object_key,
  )

  pub new-attempt_fits :
      (owner : ℕ) → attempt_fits (claim now owner j) stored deleting (new_attempt owner j) ≡ true
  unfolding claim
  new-attempt_fits owner = ground (arith, within_next j.attempts j.object_key)

  module _ (a : Attempt) (fit : attempt_fits j stored deleting a ≡ true) where
    pub recover-attempt_fits : attempt_fits (recover now j) stored deleting a ≡ true
    unfolding recover
    recover-attempt_fits = ground arith

    pub claim-attempt_fits :
        (owner : ℕ)
        → (a.owner == owner) ≡ false
        → attempt_fits (claim now owner j) stored deleting a ≡ true
    unfolding claim
    claim-attempt_fits owner other = ground arith

    pub renew-attempt_fits : attempt_fits (renew now j) stored deleting a ≡ true
    unfolding renew
    renew-attempt_fits = fit

    pub postpone-attempt_fits :
        (key : ArtifactKey) → attempt_fits (postpone now key j) stored deleting a ≡ true
    unfolding postpone
    postpone-attempt_fits key = elim (Bool-cases (has_key j.object_key key)) [
      | inl e ↦ rw e fit
      | inr e ↦ rw e fit
    ]

    pub expire-attempt_fits :
        (key : ArtifactKey) → attempt_fits (expire now key j) stored deleting a ≡ true
    unfolding expire
    expire-attempt_fits key =
        elim (Bool-cases (is_completed j.status && has_passed now j.expires_at)) [
          | inl e ↦ rw e (ground arith)
          | inr e ↦ elim (Bool-cases (is_failed j.status && has_key j.object_key key)) [
            | inl f ↦ rw (e, f) fit
            | inr f ↦ rw (e, f) fit
          ]
        ]

    pub deletes-attempt_fits : (objects : List ArtifactKey) → attempt_fits j objects true a ≡ true
    deletes-attempt_fits objects = ground arith

    pub expiry-attempt_fits :
        (objects : List ArtifactKey)
        → may_expire now j ≡ true
        → attempt_fits j objects deleting a ≡ true
    unfolding may_expire
    expiry-attempt_fits objects h = ground (arith, no_owner j.lease_owner a.owner)
