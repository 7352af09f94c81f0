-- ===== src/Exports/Calls.antt =====
-- The call of an attempt Keeps a state that fits: the row, the attempt and the others.
use forjd.Exports.Sound.{advance-IsSound}
use forjd.Exports.Fit.{advance-IsFit}
use forjd.Prelude.{
  ℕ, String, ◌≡◌, refl, sym, subst, ap, ◌↔◌, inl, inr, Bool, true, false, not, ◌&&◌, ◌||◌, Option,
  none, some, List, [], ◌∷◌, map, arith, ltb, leb, string_eq, nat_eq, ◌==◌, Bool-cases, select,
  contains, All, Distinct, All-of-mem, mem-All, mem-of-select,
}
use forjd.Exports.Jobs.{ExportStatus, is_completed, ArtifactKey, Job, is_owner, Artifact}
use forjd.Exports.Attempts.{Attempt, own_key, Outcome, Export, Effect, advance, remove}
use forjd.Exports.Kept.{
  has, is_key_within, is_uploaded, is_pointer_held, job_fits, attempt_fits, IsSound, IsFit,
}

abbrev pub numbers : List Attempt → List ℕ
numbers = map (λ a. a.number)

abbrev pub IsHeld : Export → Type 0
IsHeld e =
    Distinct (numbers e.attempts)
    × (job_fits e.clock e.job e.stored e.deleting ≡ true)
    × All (λ a. attempt_fits e.job e.stored e.deleting a ≡ true) e.attempts

module _ (p : Attempt → Bool) where
  pub absent_number :
      (n : ℕ) (l : List Attempt)
      → contains (numbers l) n ≡ false
      → contains (numbers (select p l)) n ≡ false
  absent_number n [] h = refl
  absent_number n (x ∷ rest) h = ground (arith, absent_number n rest)

  pub Distinct-select : (l : List Attempt) → Distinct (numbers l) → Distinct (numbers (select p l))
  Distinct-select [] d = tt
  Distinct-select (x ∷ rest) d = elim (Bool-cases (p x)) [
    | inl e ↦ rw e (absent_number x.number rest d.0, Distinct-select rest d.1)
    | inr e ↦ rw e (Distinct-select rest d.1)
  ]

pub removed_number : (n : ℕ) (l : List Attempt) → contains (numbers (remove n l)) n ≡ false
removed_number n [] = refl
removed_number n (x ∷ rest) = ground (arith, removed_number n rest)

pub All-select :
    (P : Attempt → Type 0) (p : Attempt → Bool) (l : List Attempt) → All P l → All P (select p l)
All-select P p l h = All-of-mem P (select p l) (λ b m. mem-All P h (mem-of-select p l m))

-- A completed job Keeps its artifact through the calls of the attempts, which are all earlier.
pointer_stays :
    (now n : ℕ) (expires_at : Option ℕ) (stored objects : List ArtifactKey) (deleting : Bool)
    (pointer : Option ArtifactKey)
    → ((l : ArtifactKey) → l.attempt ≡ n → has stored l ≡ true → has objects l ≡ true)
    → is_pointer_held now n expires_at stored deleting pointer ≡ true
    → is_pointer_held now n expires_at objects deleting pointer ≡ true
pointer_stays now n expires_at stored objects deleting none keep h = h
pointer_stays now n expires_at stored objects deleting (some key) keep h = ground (arith, keep key)

pub five :
    (a b c d e : Bool)
    → ((a && b && c && d && e) ≡ true)
      ↔ ((a ≡ true) × (b ≡ true) × (c ≡ true) × (d ≡ true) × (e ≡ true))
five true true true true true = ground arith
five true true true true false = ground arith
five true true true false e = ground arith
five true true false d e = ground arith
five true false c d e = ground arith
five false b c d e = ground arith

-- The five parts of the fit of an attempt, each over what it reads.
abbrev pub number_part : ℕ → Attempt → Bool
number_part attempts b = leb b.number attempts

abbrev pub owner_part : ℕ → Option ℕ → Attempt → Bool
owner_part attempts lease b = not (is_owner lease b.owner) || b.number == attempts

abbrev pub uploaded_part : Option ℕ → List ArtifactKey → Bool → Attempt → Bool
uploaded_part lease stored deleting b =
    not (is_uploaded b.stage && is_owner lease b.owner) || (has stored (own_key b) || deleting)

abbrev pub completed_part : ℕ → ExportStatus → Attempt → Bool
completed_part attempts status b = not (is_completed status) || ltb b.number attempts

pub parts :
    (j : Job) (stored : List ArtifactKey) (deleting : Bool) (b : Attempt)
    → (attempt_fits j stored deleting b ≡ true) ↔ (
        (number_part j.attempts b ≡ true)
        × (owner_part j.attempts j.lease_owner b ≡ true)
        × (is_key_within b.number b.durable ≡ true)
        × (uploaded_part j.lease_owner stored deleting b ≡ true)
        × (completed_part j.attempts j.status b ≡ true))
parts j stored deleting b =
    five (number_part j.attempts b) (owner_part j.attempts j.lease_owner b)
      (is_key_within b.number b.durable) (uploaded_part j.lease_owner stored deleting b)
      (completed_part j.attempts j.status b)

pub owner_stays :
    (n : ℕ) (before after : Option ℕ) (b : Attempt)
    → (is_owner after b.owner ≡ true → is_owner before b.owner ≡ true)
    → owner_part n before b ≡ true
    → owner_part n after b ≡ true
owner_stays n before after b back h = ground arith

upload_stays :
    (n : ℕ) (before after : Option ℕ) (stored objects : List ArtifactKey) (deleting : Bool)
    (a b : Attempt)
    → (is_owner after b.owner ≡ true → is_owner before b.owner ≡ true)
    → (ltb a.number b.number ≡ true
        → has stored (own_key b) ≡ true
        → has objects (own_key b) ≡ true)
    → number_part n a ≡ true
    → owner_part n before b ≡ true
    → (a.number == b.number) ≡ false
    → uploaded_part before stored deleting b ≡ true
    → uploaded_part after objects deleting b ≡ true
upload_stays n before after stored objects deleting a b back keep first own apart h = ground arith

completion_stays :
    (n : ℕ) (lease : Option ℕ) (before after : ExportStatus) (a b : Attempt)
    → (is_owner lease a.owner ≡ false → is_completed after ≡ is_completed before)
    → owner_part n lease a ≡ true
    → number_part n b ≡ true
    → (a.number == b.number) ≡ false
    → completed_part n before b ≡ true
    → completed_part n after b ≡ true
completion_stays n lease before after a b unowned own number apart h = ground arith

-- Another attempt still fits after the call of an attempt.
pub other_fits :
    (deleting : Bool) (a b : Attempt) (j : Job) (stored : List ArtifactKey) (effect : Effect)
    → IsSound b.owner (own_key b) a j stored effect
    → attempt_fits j stored deleting a ≡ true
    → attempt_fits j stored deleting b ≡ true
    → (a.number == b.number) ≡ false
    → attempt_fits effect.row effect.objects deleting b ≡ true
other_fits deleting a b j stored effect (same, back, keep, unowned) fit other apart =
    let (a1, a2, a3, a4, a5) = (parts j stored deleting a).0 fit in
    let (b1, b2, b3, b4, b5) = (parts j stored deleting b).0 other in
    let row = effect.row in
    (parts row effect.objects deleting b).1 (
      subst (λ n. number_part n b ≡ true) (sym same) b1,
      subst (λ n. owner_part n row.lease_owner b ≡ true) (sym same)
          (owner_stays j.attempts j.lease_owner row.lease_owner b back b2),
      b3,
      upload_stays j.attempts j.lease_owner row.lease_owner stored effect.objects deleting a b back
          keep a1 b2 apart b4,
      subst (λ n. completed_part n row.status b ≡ true) (sym same)
          (completion_stays j.attempts j.lease_owner j.status row.status a b
            (λ h. ap (λ r. is_completed r.status) (unowned h)) a2 b1 apart b5),
    )

module _ (now n : ℕ) (artifact : Artifact) (error_class : String) (outcome : Outcome) (a : Attempt)
    (j : Job) (stored : List ArtifactKey) (deleting : Bool)
    (held : job_fits now j stored deleting ≡ true)
    (fit : attempt_fits j stored deleting a ≡ true) where
  abbrev pub effect : Effect
  effect = advance now artifact error_class a j stored a.stage outcome

  pub sound : (o : ℕ) (l : ArtifactKey) → IsSound o l a j stored effect
  sound o l = advance-IsSound o l a j stored (ground arith) now artifact error_class a.stage outcome

  pub fits : IsFit now deleting a j effect
  fits = advance-IsFit now deleting a j stored held fit artifact error_class a.stage outcome refl

  pub job_fits_after : job_fits now effect.row effect.objects deleting ≡ true
  job_fits_after = elim (Bool-cases (is_completed j.status)) [
    | inl c ↦
        let unowned : is_owner j.lease_owner a.owner ≡ false = ground arith in
        let same : effect.row ≡ j = (sound 0 (own_key a)).3 unowned in
        let stays : is_pointer_held now j.attempts j.expires_at effect.objects deleting j.object_key
            ≡ true =
          pointer_stays now j.attempts j.expires_at stored effect.objects deleting j.object_key
            (λ l e. (sound 0 l).2 (ground (arith, e))) (ground arith) in
        subst (λ r. job_fits now r effect.objects deleting ≡ true) (sym same)
          (ground (arith, stays))
    | inr c ↦ fits.0 c
  ]
