-- ===== src/Exports/Kept.antt =====
-- What holds of an export job and its attempts at any time, as tests on a state, and what one call of an
-- attempt Keeps of them.
use forjd.Prelude.{
  ℕ, ◌≡◌, Bool, true, false, not, ◌&&◌, ◌||◌, Option, none, some, List, [], ◌∷◌, arith, ltb, leb,
  string_eq, nat_eq, ◌==◌, is_none, any,
}
use forjd.Exports.Jobs.{is_running, is_completed, ArtifactKey, same_key, Job, is_owner, has_passed}
use forjd.Exports.Attempts.{Stage, uploaded, Attempt, own_key, discard, discard_pointer, Effect}

abbrev pub has : List ArtifactKey → ArtifactKey → Bool
has stored key = any (λ k. same_key k key) stored

-- A key of an attempt up to the given one.
abbrev pub is_key_within : ℕ → Option ArtifactKey → Bool
is_key_within n none = true
is_key_within n (some key) = leb key.attempt n

abbrev pub is_uploaded : Stage → Bool
is_uploaded uploaded = true
is_uploaded _ = false

-- The pointer of a completed job: the key of the last attempt, and its artifact is stored.
abbrev pub is_pointer_held : ℕ → ℕ → Option ℕ → List ArtifactKey → Bool → Option ArtifactKey → Bool
is_pointer_held now n expires_at stored deleting none = false
is_pointer_held now n expires_at stored deleting (some key) =
    key.attempt == n && (has stored key || (deleting || has_passed now expires_at))

abbrev pub job_fits : ℕ → Job → List ArtifactKey → Bool → Bool
job_fits now j stored deleting =
    is_key_within j.attempts j.object_key
    && (is_running j.status || is_none j.lease_owner)
    && (not (is_completed j.status)
        || is_pointer_held now j.attempts j.expires_at stored deleting j.object_key)

abbrev pub attempt_fits : Job → List ArtifactKey → Bool → Attempt → Bool
attempt_fits j stored deleting a =
    leb a.number j.attempts
    && (not (is_owner j.lease_owner a.owner) || a.number == j.attempts)
    && is_key_within a.number a.durable
    && (not (is_uploaded a.stage && is_owner j.lease_owner a.owner)
        || (has stored (own_key a) || deleting))
    && (not (is_completed j.status) || ltb a.number j.attempts)

abbrev pub rest_fits : Attempt → Effect → Bool → Option Attempt → Bool
rest_fits a effect deleting none = true
rest_fits a effect deleting (some b) =
    b.number == a.number && attempt_fits effect.row effect.objects deleting b

module _ (key l : ArtifactKey) where
  pub has-discard :
      (stored : List ArtifactKey)
      → ltb key.attempt l.attempt ≡ true
      → has stored l ≡ true
      → has (discard key stored) l ≡ true
  unfolding discard
  has-discard [] later h = h
  has-discard (k ∷ rest) later h = ground (arith, has-discard rest later)

pub has-discard_pointer :
    (n : ℕ) (l : ArtifactKey) (pointer : Option ArtifactKey) (stored : List ArtifactKey)
    → is_key_within n pointer ≡ true
    → ltb n l.attempt ≡ true
    → has stored l ≡ true
    → has (discard_pointer pointer stored) l ≡ true
has-discard_pointer n l none stored within later h = h
has-discard_pointer n l (some key) stored within later h = has-discard key l stored (ground arith) h

module _ (o : ℕ) (l : ArtifactKey) (a : Attempt) (j : Job) (stored : List ArtifactKey) where
  -- What a call does to the rest of the state: it takes no lease, deletes no artifact of a later
  -- attempt, and changes the row only as the owner of its lease.
  abbrev pub IsSound : Effect → Type 0
  IsSound effect =
      (effect.row.attempts ≡ j.attempts)
      × (is_owner effect.row.lease_owner o ≡ true → is_owner j.lease_owner o ≡ true)
      × (ltb a.number l.attempt ≡ true → has stored l ≡ true → has effect.objects l ≡ true)
      × (is_owner j.lease_owner a.owner ≡ false → effect.row ≡ j)

-- What a call leaves fits: the row, unless it was completed before, and the attempt itself.
abbrev pub IsFit : ℕ → Bool → Attempt → Job → Effect → Type 0
IsFit now deleting a j effect =
    (is_completed j.status ≡ false → job_fits now effect.row effect.objects deleting ≡ true)
    × (rest_fits a effect deleting effect.rest ≡ true)
