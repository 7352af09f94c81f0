-- ===== src/Exports/Sound.antt =====
-- What a call of an attempt leaves alone: the leases and the later artifacts, and the row, unless it
-- owns the lease.
use forjd.Prelude.{
  ℕ, String, ◌≡◌, refl, subst, inl, inr, Bool, true, false, Option, none, some, List, ◌∷◌, arith,
  Bool-cases,
}
use forjd.Exports.Jobs.{
  ArtifactKey, Job, is_owner, may_clear, clear, plan, may_renew, renew, Artifact, complete,
  record_failure,
}
use forjd.Exports.Attempts.{
  Stage, begun, cleaned, ready, keyed, planned, renewed, uploaded, discarding, failing, cleaned_up,
  Attempt, own_key, Outcome, returns, raises, raises_late, discard, discard_pointer, Effect, clean,
  clear_stale, store_plan, renew_lease, finish, clean_up, fail, advance,
}
use forjd.Exports.Kept.{is_key_within, has-discard, has-discard_pointer, IsSound}

module _ (o : ℕ) (l : ArtifactKey) (a : Attempt) (j : Job) (stored : List ArtifactKey)
    (within : is_key_within a.number a.durable ≡ true) where
  abbrev Sound : Effect → Type 0
  Sound = IsSound o l a j stored

  stays : (b : Attempt) → Sound (record { row = j; objects = stored; rest = some b })
  stays b = (refl, λ h. h, λ later h. h, λ h. refl)

  stops : Sound (record { row = j; objects = stored; rest = none })
  stops = (refl, λ h. h, λ later h. h, λ h. refl)

  deletes_pointer :
      (durable : Option ArtifactKey) (rest : Option Attempt)
      → a.durable ≡ durable
      → Sound (record { row = j; objects = discard_pointer durable stored; rest = rest })
  deletes_pointer durable rest e = (
    refl,
    λ h. h,
    has-discard_pointer a.number l durable stored
        (subst (λ d. is_key_within a.number d ≡ true) e within),
    λ h. refl,
  )

  deletes_own :
      (rest : Option Attempt)
      → Sound (record { row = j; objects = discard (own_key a) stored; rest = rest })
  deletes_own rest = (refl, λ h. h, has-discard (own_key a) l stored, λ h. refl)

  uploads : (b : Attempt) → Sound (record { row = j; objects = own_key a ∷ stored; rest = some b })
  uploads b = (refl, λ h. h, λ later h. ground arith, λ h. refl)

  clean-IsSound :
      (durable : Option ArtifactKey) → a.durable ≡ durable → Sound (clean a j stored durable)
  clean-IsSound none e = stays (record a { stage = ready })
  clean-IsSound (some key) e = deletes_pointer (some key) (some (record a { stage = cleaned })) e

  clear_stale-IsSound : (durable : Option ArtifactKey) → Sound (clear_stale a j stored durable)
  unfolding clear may_clear
  clear_stale-IsSound none = stays (record a { stage = ready })
  clear_stale-IsSound (some key) = elim (Bool-cases (may_clear a.owner key j)) [
    | inl t ↦ rw t (refl, λ h. h, λ later h. h, λ h. ground arith)
    | inr t ↦ rw t stops
  ]

  store_plan-IsSound : Sound (store_plan a j stored)
  unfolding plan
  store_plan-IsSound = elim (Bool-cases a.lease_lost) [
    | inl lost ↦ rw lost stops
    | inr kept ↦ elim (Bool-cases (is_owner j.lease_owner a.owner)) [
      | inl e ↦ rw (kept, e) (refl, λ h. h, λ later h. h, λ h. ground arith)
      | inr e ↦ rw (kept, e) (refl, λ h. h, λ later h. h, λ h. refl)
    ]
  ]

  renew_lease-IsSound : (now : ℕ) → Sound (renew_lease now a j stored)
  unfolding renew may_renew
  renew_lease-IsSound now = elim (Bool-cases (may_renew a.owner j)) [
    | inl t ↦ elim (Bool-cases a.lease_lost) [
      | inl lost ↦ rw (t, lost) (refl, λ h. h, λ later h. h, λ h. ground arith)
      | inr kept ↦ rw (t, kept) (refl, λ h. h, λ later h. h, λ h. ground arith)
    ]
    | inr t ↦ rw t stops
  ]

  finish-IsSound : (now : ℕ) (artifact : Artifact) → Sound (finish now artifact a j stored)
  unfolding complete
  finish-IsSound now artifact = elim (Bool-cases (is_owner j.lease_owner a.owner)) [
    | inl e ↦ rw e (refl, λ h. ground arith, λ later h. h, λ h. ground arith)
    | inr e ↦ rw e (refl, λ h. h, λ later h. h, λ h. refl)
  ]

  fail-IsSound :
      (now : ℕ) (error_class : String) (c : Bool) → Sound (fail now error_class c a j stored)
  unfolding record_failure
  fail-IsSound now error_class c = elim (Bool-cases (is_owner j.lease_owner a.owner)) [
    | inl e ↦ rw e (refl, λ h. ground arith, λ later h. h, λ h. ground arith)
    | inr e ↦ rw e (refl, λ h. h, λ later h. h, λ h. refl)
  ]

  clean_up-IsSound :
      (outcome : Outcome) (durable : Option ArtifactKey)
      → a.durable ≡ durable
      → Sound (clean_up outcome a j stored durable)
  clean_up-IsSound returns none e = stays (record a { stage = cleaned_up false })
  clean_up-IsSound returns (some key) e =
      deletes_pointer (some key) (some (record a { stage = cleaned_up true })) e
  clean_up-IsSound raises none e = stays (record a { stage = cleaned_up false })
  clean_up-IsSound raises (some key) e = stays (record a { stage = cleaned_up false })
  clean_up-IsSound raises_late none e = stays (record a { stage = cleaned_up false })
  clean_up-IsSound raises_late (some key) e =
      deletes_pointer (some key) (some (record a { stage = cleaned_up false })) e

  module _ (now : ℕ) (artifact : Artifact) (error_class : String) where
    pub advance-IsSound :
        (s : Stage) (outcome : Outcome)
        → Sound (advance now artifact error_class a j stored s outcome)
    advance-IsSound begun returns = clean-IsSound a.durable refl
    advance-IsSound begun raises = stays (record a { stage = failing })
    advance-IsSound begun raises_late =
        deletes_pointer a.durable (some (record a { stage = failing })) refl
    advance-IsSound cleaned returns = clear_stale-IsSound a.durable
    advance-IsSound cleaned raises = stays (record a { stage = failing })
    advance-IsSound cleaned raises_late = stays (record a { stage = failing })
    advance-IsSound ready returns = stays (record a { durable = some (own_key a); stage = keyed })
    advance-IsSound ready raises = stays (record a { stage = failing })
    advance-IsSound ready raises_late = stays (record a { stage = failing })
    advance-IsSound keyed returns = store_plan-IsSound
    advance-IsSound keyed raises = stays (record a { stage = failing })
    advance-IsSound keyed raises_late = stays (record a { stage = failing })
    advance-IsSound planned returns = renew_lease-IsSound now
    advance-IsSound planned raises = stays (record a { stage = failing })
    advance-IsSound planned raises_late = stays (record a { stage = failing })
    advance-IsSound renewed returns = uploads (record a { stage = uploaded })
    advance-IsSound renewed raises = stays (record a { stage = failing })
    advance-IsSound renewed raises_late = uploads (record a { stage = failing })
    advance-IsSound uploaded returns = finish-IsSound now artifact
    advance-IsSound uploaded raises = stays (record a { stage = failing })
    advance-IsSound uploaded raises_late = stays (record a { stage = failing })
    advance-IsSound discarding returns = deletes_own none
    advance-IsSound discarding raises = stays (record a { stage = failing })
    advance-IsSound discarding raises_late = deletes_own (some (record a { stage = failing }))
    advance-IsSound failing outcome = clean_up-IsSound outcome a.durable refl
    advance-IsSound (cleaned_up c) returns = fail-IsSound now error_class c
    advance-IsSound (cleaned_up c) raises = stops
    advance-IsSound (cleaned_up c) raises_late = stops
