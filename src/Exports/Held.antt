-- ===== src/Exports/Held.antt =====
-- Every event Keeps a state that fits.
use forjd.Exports.Rows.{
  passes-job_fits, recover-job_fits, claim-job_fits, renew-job_fits, postpone-job_fits,
  expire-job_fits, deletes-job_fits, expiry-job_fits, new-attempt_fits, recover-attempt_fits,
  claim-attempt_fits, renew-attempt_fits, postpone-attempt_fits, expire-attempt_fits,
  deletes-attempt_fits, expiry-attempt_fits,
}
use mathlib.Core.List.{Memᴰ}
use forjd.Prelude.{
  ℕ, ◌+◌, String, ◌≡◌, refl, sym, subst, inl, inr, Bool, true, false, not, ◌&&◌, Option, none, some,
  List, [], ◌∷◌, arith, string_eq, same_number_iff, nat_eq, ◌==◌, Bool-cases, any, all, find,
  contains, All, Distinct, All-of-mem, mem-All, passes-of-select, mem-of-select, any-of-mem,
  mem-of-find,
}
use forjd.Exports.Jobs.{
  ArtifactKey, Job, new_job, may_recover, recover, may_claim, claim, may_renew, renew, Artifact,
  may_expire, expire, postpone,
}
use forjd.Exports.Attempts.{
  Attempt, own_key, Outcome, Export, discard_pointer, Effect, Event, passes, recovers, claims, acts,
  beats, crashes, expiry_deletes, expiry_updates, expiry_postpones, deletes, is_number, remove,
  keep_rest, act, beat, new_attempt, handle, run, new_export,
}
use forjd.Exports.Kept.{job_fits, attempt_fits, rest_fits}
use forjd.Exports.Calls.{
  numbers, IsHeld, Distinct-select, removed_number, All-select, parts, other_fits, effect, sound,
  fits, job_fits_after,
}

-- An attempt in the list without number n has another number.
apart_from :
    (n : ℕ) (l : List Attempt) {b : Attempt} → Memᴰ b (remove n l) → (b.number == n) ≡ false
apart_from n l m = let other = passes-of-select (λ a. not (is_number n a)) l m in ground arith

keep-Distinct :
    (n : ℕ) (l : List Attempt) (rest : Option Attempt)
    → Distinct (numbers l)
    → elim rest [ none ↦ true | some b ↦ b.number == n ] ≡ true
    → Distinct (numbers (keep_rest rest (remove n l)))
keep-Distinct n l none d same = Distinct-select (λ a. not (is_number n a)) l d
keep-Distinct n l (some b) d same =
    let number : b.number ≡ n = (same_number_iff b.number n).0 same in
    (
      subst (λ k. contains (numbers (remove n l)) k ≡ false) (sym number) (removed_number n l),
      Distinct-select (λ a. not (is_number n a)) l d,
    )

abbrev Fits : Job → List ArtifactKey → Bool → List Attempt → Type 0
Fits j stored deleting = All (λ a. attempt_fits j stored deleting a ≡ true)

keep-Fits :
    (j : Job) (stored : List ArtifactKey) (deleting : Bool) (rest : Option Attempt)
    (others : List Attempt)
    → elim rest [ none ↦ true | some b ↦ attempt_fits j stored deleting b ] ≡ true
    → Fits j stored deleting others
    → Fits j stored deleting (keep_rest rest others)
keep-Fits j stored deleting none others h all = all
keep-Fits j stored deleting (some b) others h all = (h, all)

rest_number :
    (a : Attempt) (effect : Effect) (deleting : Bool) (rest : Option Attempt) (n : ℕ)
    → a.number ≡ n
    → rest_fits a effect deleting rest ≡ true
    → elim rest [ none ↦ true | some b ↦ b.number == n ] ≡ true
rest_number a effect deleting none n e h = refl
rest_number a effect deleting (some b) n e h = ground (arith, e)

rest_attempt :
    (a : Attempt) (effect : Effect) (deleting : Bool) (rest : Option Attempt)
    → rest_fits a effect deleting rest ≡ true
    → elim rest [ none ↦ true | some b ↦ attempt_fits effect.row effect.objects deleting b ] ≡ true
rest_attempt a effect deleting none h = refl
rest_attempt a effect deleting (some b) h = ground (arith, h)

module _ (n : ℕ) (outcome : Outcome) (artifact : Artifact) (error_class : String) (e : Export)
    (held : IsHeld e) where
  apart : (a b : Attempt) → a.number ≡ n → (b.number == n) ≡ false → (a.number == b.number) ≡ false
  apart a b same other = ground (arith, same)

  found-IsHeld :
      (found : Option Attempt)
      → find (is_number n) e.attempts ≡ found
      → IsHeld (act n outcome artifact error_class e found)
  found-IsHeld none h = held
  found-IsHeld (some a) h =
      let (distinct, row, all) = held in
      let (inside, number) = mem-of-find (is_number n) e.attempts h in
      let same : a.number ≡ n = (same_number_iff a.number n).0 number in
      let fit = mem-All (λ b. attempt_fits e.job e.stored e.deleting b ≡ true) all inside in
      let after =
        effect e.clock n artifact error_class outcome a e.job e.stored e.deleting row fit in
      let rest =
        (fits e.clock n artifact error_class outcome a e.job e.stored e.deleting row fit).1 in
      let others =
        All-of-mem (λ b. attempt_fits after.row after.objects e.deleting b ≡ true)
          (remove n e.attempts)
          λ b m.
            other_fits e.deleting a b e.job e.stored after
              (sound e.clock n artifact error_class outcome a e.job e.stored e.deleting row fit
                b.owner (own_key b))
              fit
              (mem-All (λ c. attempt_fits e.job e.stored e.deleting c ≡ true) all
                (mem-of-select (λ c. not (is_number n c)) e.attempts m))
              (apart a b same (apart_from n e.attempts m)) in
      (
        keep-Distinct n e.attempts after.rest distinct
            (rest_number a after e.deleting after.rest n same rest),
        job_fits_after e.clock n artifact error_class outcome a e.job e.stored e.deleting row fit,
        keep-Fits after.row after.objects e.deleting after.rest (remove n e.attempts)
            (rest_attempt a after e.deleting after.rest rest) others,
      )

-- The events that are not calls of an attempt, over what they change.
another_owner :
    (owner : ℕ) (l : List Attempt) {b : Attempt}
    → any (λ a. a.owner == owner) l ≡ false
    → Memᴰ b l
    → (b.owner == owner) ≡ false
another_owner owner l {b} free m = elim (Bool-cases (b.owner == owner)) [
  | inl e ↦ let taken = any-of-mem (λ a. a.owner == owner) m e in ground arith
  | inr e ↦ e
]

module _ (e : Export) (held : IsHeld e) where
  abbrev Keeps : (j : Job) (stored : List ArtifactKey) (deleting : Bool) → Type 0
  Keeps j stored deleting =
      (a : Attempt)
      → attempt_fits e.job e.stored e.deleting a ≡ true
      → attempt_fits j stored deleting a ≡ true

  all_fit :
      (j : Job) (stored : List ArtifactKey) (deleting : Bool)
      → Keeps j stored deleting
      → Fits j stored deleting e.attempts
  all_fit j stored deleting keep =
      All-of-mem (λ a. attempt_fits j stored deleting a ≡ true) e.attempts
        λ a m. keep a (mem-All (λ c. attempt_fits e.job e.stored e.deleting c ≡ true) held.2 m)

  -- A new row, under which every attempt still fits.
  row-IsHeld :
      (j : Job)
      → job_fits e.clock j e.stored e.deleting ≡ true
      → Keeps j e.stored e.deleting
      → IsHeld (record e { job = j })
  row-IsHeld j row keep = (held.0, row, all_fit j e.stored e.deleting keep)

  recovers-IsHeld : IsHeld (record e { job = recover e.clock e.job })
  recovers-IsHeld =
      row-IsHeld (recover e.clock e.job) (recover-job_fits e.clock e.job e.stored e.deleting held.1)
        (recover-attempt_fits e.clock e.job e.stored e.deleting held.1)

  renews-IsHeld : IsHeld (record e { job = renew e.clock e.job })
  renews-IsHeld =
      row-IsHeld (renew e.clock e.job) (renew-job_fits e.clock e.job e.stored e.deleting held.1)
        (renew-attempt_fits e.clock e.job e.stored e.deleting held.1)

  expires-IsHeld : (key : ArtifactKey) → IsHeld (record e { job = expire e.clock key e.job })
  expires-IsHeld key =
      row-IsHeld (expire e.clock key e.job)
        (expire-job_fits e.clock e.job e.stored e.deleting held.1 key)
        (λ a fit. expire-attempt_fits e.clock e.job e.stored e.deleting held.1 a fit key)

  postpones-IsHeld : (key : ArtifactKey) → IsHeld (record e { job = postpone e.clock key e.job })
  postpones-IsHeld key =
      row-IsHeld (postpone e.clock key e.job)
        (postpone-job_fits e.clock e.job e.stored e.deleting held.1 key)
        (λ a fit. postpone-attempt_fits e.clock e.job e.stored e.deleting held.1 a fit key)

  deletes-IsHeld :
      (objects : List ArtifactKey) → IsHeld (record e { stored = objects; deleting = true })
  deletes-IsHeld objects = (
    held.0,
    deletes-job_fits e.clock e.job e.stored e.deleting held.1 objects,
    all_fit e.job objects true
        (λ a fit. deletes-attempt_fits e.clock e.job e.stored e.deleting held.1 a fit objects),
  )

  expiry_deletes-IsHeld :
      (objects : List ArtifactKey)
      → may_expire e.clock e.job ≡ true
      → IsHeld (record e { stored = objects })
  expiry_deletes-IsHeld objects h = (
    held.0,
    expiry-job_fits e.clock e.job e.stored e.deleting held.1 objects h,
    all_fit e.job objects e.deleting
        (λ a fit. expiry-attempt_fits e.clock e.job e.stored e.deleting held.1 a fit objects h),
  )

  crashes-IsHeld : (n : ℕ) → IsHeld (record e { attempts = remove n e.attempts })
  crashes-IsHeld n = (
    Distinct-select (λ a. not (is_number n a)) e.attempts held.0,
    held.1,
    All-select (λ a. attempt_fits e.job e.stored e.deleting a ≡ true) (λ a. not (is_number n a))
        e.attempts held.2,
  )

  beats-IsHeld :
      (n : ℕ) (found : Option Attempt)
      → find (is_number n) e.attempts ≡ found
      → IsHeld (beat n e found)
  beats-IsHeld n none h = held
  beats-IsHeld n (some a) h = elim (Bool-cases (may_renew a.owner e.job)) [
    | inl t ↦ rw t renews-IsHeld
    | inr t ↦
        let (inside, number) = mem-of-find (is_number n) e.attempts h in
        let fit = mem-All (λ c. attempt_fits e.job e.stored e.deleting c ≡ true) held.2 inside in
        rw t (
          keep-Distinct n e.attempts (some (record a { lease_lost = true })) held.0 number,
          held.1,
          (fit, (crashes-IsHeld n).2),
        )
  ]

  -- The number of a new attempt is above all others.
  fresh_number :
      (l : List Attempt)
      → Fits e.job e.stored e.deleting l
      → contains (numbers l) (e.job.attempts + 1) ≡ false
  fresh_number [] h = refl
  fresh_number (x ∷ rest) h =
      let low = ((parts e.job e.stored e.deleting x).0 h.0).0 in
      ground (arith, fresh_number rest h.1, low)

  claims-IsHeld :
      (owner : ℕ)
      → any (λ a. a.owner == owner) e.attempts ≡ false
      → IsHeld (record e {
        job = claim e.clock owner e.job;
        attempts = new_attempt owner e.job ∷ e.attempts;
      })
  claims-IsHeld owner free = (
    (fresh_number e.attempts held.2, held.0),
    claim-job_fits e.clock e.job e.stored e.deleting held.1 owner,
    (
      new-attempt_fits e.clock e.job e.stored e.deleting held.1 owner,
      All-of-mem (λ a. attempt_fits (claim e.clock owner e.job) e.stored e.deleting a ≡ true)
          e.attempts
          λ a m.
            claim-attempt_fits e.clock e.job e.stored e.deleting held.1 a
              (mem-All (λ c. attempt_fits e.job e.stored e.deleting c ≡ true) held.2 m) owner
              (another_owner owner e.attempts free m),
    ),
  )

handle-IsHeld : (event : Event) (e : Export) → IsHeld e → IsHeld (handle event e)
unfolding handle
handle-IsHeld (passes seconds) e held =
    (held.0, passes-job_fits e.clock e.job e.stored e.deleting held.1 seconds, held.2)
handle-IsHeld recovers e held = elim (Bool-cases (may_recover e.clock e.job)) [
  | inl t ↦ rw t (recovers-IsHeld e held)
  | inr t ↦ rw t held
]
handle-IsHeld (claims owner) e held =
    elim (Bool-cases (may_claim e.clock e.job && not (any (λ a. a.owner == owner) e.attempts))) [
      | inl t ↦ rw t (claims-IsHeld e held owner (ground arith))
      | inr t ↦ rw t held
    ]
handle-IsHeld (acts n outcome artifact error_class) e held =
    found-IsHeld n outcome artifact error_class e held (find (is_number n) e.attempts) refl
handle-IsHeld (beats n) e held = beats-IsHeld e held n (find (is_number n) e.attempts) refl
handle-IsHeld (crashes n) e held = crashes-IsHeld e held n
handle-IsHeld expiry_deletes e held = elim (Bool-cases (may_expire e.clock e.job)) [
  | inl t ↦ rw t (expiry_deletes-IsHeld e held (discard_pointer e.job.object_key e.stored) t)
  | inr t ↦ rw t held
]
handle-IsHeld (expiry_updates key) e held = expires-IsHeld e held key
handle-IsHeld (expiry_postpones key) e held = postpones-IsHeld e held key
handle-IsHeld deletes e held = deletes-IsHeld e held (discard_pointer e.job.object_key e.stored)

pub run-IsHeld : (events : List Event) (e : Export) → IsHeld e → IsHeld (run events e)
unfolding run
run-IsHeld [] e held = held
run-IsHeld (event ∷ events) e held = run-IsHeld events (handle event e) (handle-IsHeld event e held)

pub new_export-IsHeld : (now max_attempts : ℕ) → IsHeld (new_export now max_attempts)
unfolding new_export new_job
new_export-IsHeld now max_attempts = (tt, refl, tt)
