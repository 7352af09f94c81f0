-- ===== src/Status/Overall.antt =====
-- The overall status of a page: `_overall_status` and `_honest_overall_status` of
-- backend/app/services/status.py.
use mathlib.Core.List.{Memᴰ}
use forjd.Prelude.{
  ℕ, ◌≤◌, String, ◌≡◌, refl, sym, subst, ap, ◌∙◌, ◌≢◌, ◌⊎◌, inl, inr, Bool, true, false, not, ◌&&◌,
  List, [], ◌∷◌, arith, eq_iff, ltb, string_eq, nat_eq, ◌==◌, if◌then◌else◌, Bool-cases, all,
  contains, All, mem-All, mem-of-contains, contains-of-mem,
}

-- `rank.get(status, 1)`
unfoldable pub rank : String → ℕ
rank s =
    if s == "major_outage"
    then 5
    else if s == "partial_outage"
    then 4
    else if s == "degraded"
    then 3
    else if s == "maintenance"
    then 2
    else if s == "unknown"
    then 1
    else if s == "operational"
    then 0
    else 1

abbrev pub better : String → String → String
better best s = if ltb (rank best) (rank s) then s else best

-- `max(statuses, key=…)`: the first of the greatest, with the one found so far.
unfoldable pub max_status : String → List String → String
unfolding rank
max_status best [] = best
max_status best (s ∷ rest) = max_status (better best s) rest

-- `_overall_status`
unfoldable pub overall_status : List String → String
unfolding max_status
overall_status [] = "unknown"
overall_status (s ∷ rest) = max_status s rest

-- `_honest_overall_status`
unfoldable pub honest_overall_status : List String → Bool → String
unfolding overall_status
honest_overall_status statuses has_probe_samples =
    if overall_status statuses == "operational" && not has_probe_samples
    then "unknown"
    else overall_status statuses

better_is : (best s : String) → (better best s ≡ best) ⊎ (better best s ≡ s)
better_is best s = elim (Bool-cases (ltb (rank best) (rank s))) [
  | inl e ↦ inr (ap (λ t. if t then s else best) e)
  | inr e ↦ inl (ap (λ t. if t then s else best) e)
]

better-rank :
    (best s : String) → (rank best ≤ rank (better best s)) × (rank s ≤ rank (better best s))
better-rank best s = elim (Bool-cases (ltb (rank best) (rank s))) [
  | inl e ↦
      let same : better best s ≡ s = ap (λ t. if t then s else best) e in
      (rw same (ground (arith, e)), rw same (omega arith))
  | inr e ↦
      let same : better best s ≡ best = ap (λ t. if t then s else best) e in
      (rw same (omega arith), rw same (ground (arith, e)))
]

max_status-mem :
    (best : String) (l : List String) → (max_status best l ≡ best) ⊎ Memᴰ (max_status best l) l
unfolding max_status
max_status-mem best [] = inl refl
max_status-mem best (s ∷ rest) = elim (max_status-mem (better best s) rest) [
  | inl e ↦ elim (better_is best s) [
    | inl first ↦ inl (e ∙ first)
    | inr second ↦ inr (Memᴰ.head (e ∙ second))
  ]
  | inr m ↦ inr (Memᴰ.tail m)
]

max_status-worst :
    (best : String) (l : List String)
    → (rank best ≤ rank (max_status best l)) × All (λ s. rank s ≤ rank (max_status best l)) l
unfolding max_status
max_status-worst best [] = (omega arith, tt)
max_status-worst best (s ∷ rest) =
    let (above, all) = max_status-worst (better best s) rest in
    let (of_best, of_s) = better-rank best s in
    (omega (arith, above, of_best), (omega (arith, above, of_s), all))

overall_status-worst :
    (statuses : List String) → All (λ s. rank s ≤ rank (overall_status statuses)) statuses
unfolding overall_status
overall_status-worst [] = tt
overall_status-worst (s ∷ rest) = max_status-worst s rest

overall_status-mem : (s : String) (rest : List String) → Memᴰ (overall_status (s ∷ rest)) (s ∷ rest)
unfolding overall_status
overall_status-mem s rest = elim (max_status-mem s rest) [
  | inl e ↦ Memᴰ.head e
  | inr m ↦ Memᴰ.tail m
]

-- The statuses that a service can have.
abbrev pub severities : List String
severities =
    "major_outage" ∷ "partial_outage" ∷ "degraded" ∷ "maintenance" ∷ "unknown" ∷ "operational" ∷ []

-- What a page is to show: the gravest status that a service has, where operational needs the evidence
-- of probes.
abbrev pub shown : List String → Bool → String
shown statuses has_probe_samples =
    if contains statuses "major_outage"
    then "major_outage"
    else if contains statuses "partial_outage"
    then "partial_outage"
    else if contains statuses "degraded"
    then "degraded"
    else if contains statuses "maintenance"
    then "maintenance"
    else if contains statuses "unknown"
    then "unknown"
    else if contains statuses "operational" && has_probe_samples
    then "operational"
    else "unknown"

not_green : (s : String) → (s == "operational") ≡ false → s ≢ "operational"
not_green s h e = ground (arith, eq_iff s "operational", e)

-- A status that is worse than the worst one does not occur.
absent :
    (statuses : List String) (t s : String)
    → All (λ r. rank r ≤ rank t) statuses
    → ltb (rank t) (rank s) ≡ true
    → contains statuses s ≡ false
absent statuses t s all worse = elim (Bool-cases (contains statuses s)) [
  | inl e ↦
      let below = mem-All (λ r. rank r ≤ rank t) all (mem-of-contains statuses s e) in ground arith
  | inr e ↦ e
]

abbrev admitted_with : Bool → String → String
admitted_with has_probe_samples t =
    if t == "operational" && not has_probe_samples then "unknown" else t

abbrev IsShown : List String → Bool → String → Type 0
IsShown statuses has_probe_samples t =
    All (λ r. rank r ≤ rank t) statuses
    → contains statuses t ≡ true
    → admitted_with has_probe_samples t ≡ shown statuses has_probe_samples

module _ (statuses : List String) (has_probe_samples : Bool) where
  operational-IsShown : IsShown statuses has_probe_samples "operational"
  unfolding rank
  operational-IsShown all here =
      let no = absent statuses "operational" in
      rw
        (
          no "major_outage" all refl,
          no "partial_outage" all refl,
          no "degraded" all refl,
          no "maintenance" all refl,
          no "unknown" all refl,
          here,
        )
        (elim (Bool-cases has_probe_samples) [ inl e ↦ rw e refl | inr e ↦ rw e refl ])

  worst-IsShown : (t : String) → Memᴰ t severities → IsShown statuses has_probe_samples t
  unfolding rank
  worst-IsShown t (Memᴰ.head e) =
      subst (IsShown statuses has_probe_samples) (sym e) (λ all here. rw here refl)
  worst-IsShown t (Memᴰ.tail (Memᴰ.head e)) =
      subst (IsShown statuses has_probe_samples) (sym e) (λ all here.
        let no = absent statuses "partial_outage" in rw (no "major_outage" all refl, here) refl)
  worst-IsShown t (Memᴰ.tail (Memᴰ.tail (Memᴰ.head e))) =
      subst (IsShown statuses has_probe_samples) (sym e) (λ all here.
        let no = absent statuses "degraded" in
        rw (no "major_outage" all refl, no "partial_outage" all refl, here) refl)
  worst-IsShown t (Memᴰ.tail (Memᴰ.tail (Memᴰ.tail (Memᴰ.head e)))) =
      subst (IsShown statuses has_probe_samples) (sym e) (λ all here.
        let no = absent statuses "maintenance" in
        rw (no "major_outage" all refl, no "partial_outage" all refl, no "degraded" all refl, here)
          refl)
  worst-IsShown t (Memᴰ.tail (Memᴰ.tail (Memᴰ.tail (Memᴰ.tail (Memᴰ.head e))))) =
      subst (IsShown statuses has_probe_samples) (sym e) (λ all here.
        let no = absent statuses "unknown" in
        rw
          (
            no "major_outage" all refl,
            no "partial_outage" all refl,
            no "degraded" all refl,
            no "maintenance" all refl,
            here,
          )
          refl)
  worst-IsShown t (Memᴰ.tail (Memᴰ.tail (Memᴰ.tail (Memᴰ.tail (Memᴰ.tail (Memᴰ.head e)))))) =
      subst (IsShown statuses has_probe_samples) (sym e) operational-IsShown
  worst-IsShown t (Memᴰ.tail (Memᴰ.tail (Memᴰ.tail (Memᴰ.tail (Memᴰ.tail (Memᴰ.tail m)))))) =
      elim m [ ]

  honest-admitted :
      honest_overall_status statuses has_probe_samples
      ≡ admitted_with has_probe_samples (overall_status statuses)
  unfolding honest_overall_status
  honest-admitted = refl

of_severities :
    (statuses : List String) (has_probe_samples : Bool)
    → All (λ s. Memᴰ s severities) statuses
    → honest_overall_status statuses has_probe_samples ≡ shown statuses has_probe_samples
unfolding honest_overall_status overall_status
of_severities [] has_probe_samples known = refl
of_severities (s ∷ rest) has_probe_samples known =
    let t = overall_status (s ∷ rest) in
    let inside = overall_status-mem s rest in
    honest-admitted (s ∷ rest) has_probe_samples
    ∙ worst-IsShown (s ∷ rest) has_probe_samples t (mem-All (λ r. Memᴰ r severities) known inside)
        (overall_status-worst (s ∷ rest)) (contains-of-mem (s ∷ rest) t inside)

admitted-without : (t : String) → admitted_with false t ≢ "operational"
admitted-without t = elim (Bool-cases (t == "operational")) [
  | inl e ↦ rw e (not_green "unknown" refl)
  | inr e ↦ rw e (not_green t e)
]

-- The overall status of a page is, for statuses that a service can have, the gravest of them, where
-- major outages come before partial ones, then degraded, maintenance and unknown services; it is
-- operational only with probe evidence and if each service is, and else unknown, as it is for a page
-- without services. For any other texts it is not operational without probe evidence either.
pub overall_status_lem :
    (statuses : List String) (has_probe_samples : Bool)
    → (All (λ s. Memᴰ s severities) statuses
        → honest_overall_status statuses has_probe_samples ≡ shown statuses has_probe_samples)
      × (has_probe_samples ≡ false
          → honest_overall_status statuses has_probe_samples ≢ "operational")
overall_status_lem statuses has_probe_samples = (
  of_severities statuses has_probe_samples,
  λ none_seen green. admitted-without (overall_status statuses) (
      subst (λ b. admitted_with b (overall_status statuses) ≡ "operational") none_seen
        (sym (honest-admitted statuses has_probe_samples) ∙ green)),
)
