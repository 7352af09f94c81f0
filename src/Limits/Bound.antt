-- ===== src/Limits/Bound.antt =====
-- The sliding window admits no more than its limit.
use forjd.Prelude.{
  ℕ, ◌+◌, ◌≤◌, ◌≡◌, refl, ap, ◌∙◌, ◌≢◌, inl, inr, Bool, true, false, ◌&&◌, List, [], ◌∷◌, arith,
  leb, Bool-cases, length, select,
}
use forjd.Limits.Window.{
  is_fresh, Scores, sliding_window, goes_on, too_many, unavailable, absent, errored, connected,
  decide, enforce_sliding_window, admit, admit_all,
}

module _ (p q : ℕ → Bool) where
  length-select-le :
      ((s : ℕ) → p s ≡ true → q s ≡ true) → (l : List ℕ) → length (select p l) ≤ length (select q l)
  length-select-le h [] = omega arith
  length-select-le h (s ∷ rest) = ground (arith, h s, length-select-le h rest)

  select-select :
      ((s : ℕ) → p s ≡ true → q s ≡ true) → (l : List ℕ) → select p (select q l) ≡ select p l
  select-select h [] = refl
  select-select h (s ∷ rest) = elim (Bool-cases (p s)) [
    | inl e ↦ rw (h s e, e) (ap (◌∷◌ s) (select-select h rest))
    | inr e ↦ elim (Bool-cases (q s)) [
      | inl f ↦ rw (f, e) (select-select h rest)
      | inr f ↦ rw (f, e) (select-select h rest)
    ]
  ]

-- Within the window that ends at a time.
abbrev pub in_window : ℕ → ℕ → Bool
in_window t s = is_fresh t s && leb s t

-- At each admission the window behind it had room.
abbrev IsLimited : ℕ → List ℕ → Type 0
IsLimited limit [] = Unit
IsLimited limit (s ∷ older) =
    (length (select (is_fresh s) older) + 1 ≤ limit) × IsLimited limit older

window_bound :
    (limit t : ℕ) (log : List ℕ) → IsLimited limit log → length (select (in_window t) log) ≤ limit
window_bound limit t [] h = omega arith
window_bound limit t (s ∷ older) h = elim (Bool-cases (in_window t s)) [
  | inl e ↦
      let fewer = length-select-le (in_window t) (is_fresh s) (λ x f. ground arith) older in
      rw e (omega (arith, fewer, h.0))
  | inr e ↦ rw e (window_bound limit t older h.1)
]

-- The set has every admission that is still fresh.
record IsTracked (limit last : ℕ) (state : Scores × List ℕ) : Type 0 where
  limited : IsLimited limit state.1
  tracked : (t : ℕ) → last ≤ t → select (is_fresh t) state.0 ≡ select (is_fresh t) state.1

fresh_later : (now t s : ℕ) → now ≤ t → is_fresh t s ≡ true → is_fresh now s ≡ true
fresh_later now t s le h = ground arith

module _ (limit last now : ℕ) (scores log : List ℕ) (le : last ≤ now)
    (h : IsTracked limit last (scores, log)) where
  kept_tracked :
      (t : ℕ)
      → now ≤ t
      → select (is_fresh t) (select (is_fresh now) scores) ≡ select (is_fresh t) log
  kept_tracked t later =
      select-select (is_fresh t) (is_fresh now) (λ s. fresh_later now t s later) scores
      ∙ h.tracked t (omega (arith, le, later))

  added :
      (t : ℕ) (l k : List ℕ)
      → select (is_fresh t) l ≡ select (is_fresh t) k
      → select (is_fresh t) (now ∷ l) ≡ select (is_fresh t) (now ∷ k)
  added t l k e = elim (Bool-cases (is_fresh t now)) [
    | inl f ↦ rw f (ap (◌∷◌ now) e)
    | inr f ↦ rw f e
  ]

  admit-IsTracked : IsTracked limit now (admit limit now (scores, log))
  unfolding admit sliding_window
  admit-IsTracked = elim (Bool-cases (leb limit (length (select (is_fresh now) scores)))) [
    | inl full ↦ rw full (record { limited = h.limited; tracked = kept_tracked })
    | inr room ↦
        let same : select (is_fresh now) scores ≡ select (is_fresh now) log = h.tracked now le in
        let fits : length (select (is_fresh now) log) + 1 ≤ limit =
          ground (arith, room, ap length same) in
        rw room (record {
          limited = (fits, h.limited);
          tracked = λ t later. added t (select (is_fresh now) scores) log (kept_tracked t later);
        })
  ]

-- The clock of the requests does not go back.
abbrev pub IsOrdered : ℕ → List ℕ → Type 0
IsOrdered last [] = Unit
IsOrdered last (now ∷ later) = (last ≤ now) × IsOrdered now later

admit_all-IsLimited :
    (limit last : ℕ) (times scores log : List ℕ)
    → IsOrdered last times
    → IsTracked limit last (scores, log)
    → IsLimited limit (admit_all limit times (scores, log)).1
unfolding admit_all
admit_all-IsLimited limit last [] scores log o h = h.limited
admit_all-IsLimited limit last (now ∷ later) scores log o h =
    admit_all-IsLimited limit now later (admit limit now (scores, log)).0
      (admit limit now (scores, log)).1 o.1 (admit-IsTracked limit last now scores log o.0 h)

-- However the requests of one key arrive, the limiter admits at most the limit of them within any
-- minute; the clock does not go back between them.
pub admitted-le :
    (limit t : ℕ) (times : List ℕ)
    → IsOrdered 0 times
    → length (select (in_window t) (admit_all limit times ([], [])).1) ≤ limit
admitted-le limit t times o =
    window_bound limit t (admit_all limit times ([], [])).1
      (admit_all-IsLimited limit 0 times [] [] o (record { limited = tt; tracked = λ _ _. refl }))

-- A request that is refused finds the limit reached, and is told to wait at least a second; and
-- without Redis production refuses every request where development lets it pass.
pub refusals :
    (is_production : Bool) (now limit : ℕ) (scores : Scores) (wait : ℕ)
    → ((enforce_sliding_window is_production now limit (connected scores)).1 ≡ too_many wait
        → (1 ≤ wait) × (limit ≤ length (select (is_fresh now) scores)))
      × ((enforce_sliding_window is_production now limit (connected scores)).1 ≢ unavailable)
      × ((enforce_sliding_window true now limit absent).1 ≡ unavailable)
      × ((enforce_sliding_window true now limit errored).1 ≡ unavailable)
      × ((enforce_sliding_window false now limit absent).1 ≡ goes_on)
unfolding enforce_sliding_window sliding_window decide
refusals is_production now limit scores wait =
    (λ e. ground arith, λ e. ground arith, refl, refl, refl)
