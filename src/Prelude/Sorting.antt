-- ===== src/Prelude/Sorting.antt =====
-- `ORDER BY` and `sorted`: insertion sort by a Boolean order, with what comes first.
use mathlib.Core.List.{Memᴰ}
use Prim.Native.Nat.{ℕ, zero, suc}
use mathlib.Core.Path.{◌∙◌, ◌≡◌, refl, ap}
use mathlib.Core.Bool.{Bool, true, false, ◌||◌}
use mathlib.Core.Logic.{◌⊎◌, inl, inr}
use mathlib.Core.List.{List, [], ◌∷◌, map}
use native.Mathlib.Omega.{arith}
use forjd.Prelude.Tests.{string_eq, nat_eq, ◌==◌, if◌then◌else◌, Bool-cases}
use forjd.Prelude.Lists.{length, take, contains, All}
use forjd.Prelude.Keys.{mem-All, mem_cons}

module _ {ℓ} {A : Type ℓ} (before : A → A → Bool) where
  unfoldable pub insert_sorted : A → List A → List A
  insert_sorted b [] = b ∷ []
  insert_sorted b (x ∷ xs) = if before b x then b ∷ x ∷ xs else x ∷ insert_sorted b xs

  unfoldable pub sort_by : List A → List A
  unfolding insert_sorted
  sort_by [] = []
  sort_by (b ∷ bs) = insert_sorted b (sort_by bs)

  length-insert_sorted : (b : A) (l : List A) → length (insert_sorted b l) ≡ suc (length l)
  unfolding insert_sorted
  length-insert_sorted b [] = refl
  length-insert_sorted b (x ∷ rest) = ground (arith, length-insert_sorted b rest)

  pub length-sort_by : (l : List A) → length (sort_by l) ≡ length l
  unfolding sort_by
  length-sort_by [] = refl
  length-sort_by (b ∷ rest) = length-insert_sorted b (sort_by rest) ∙ ap suc (length-sort_by rest)

  second_place : (b : A) {a x : A} {k : List A} → Memᴰ a (b ∷ k) → Memᴰ a (b ∷ x ∷ k)
  second_place b (Memᴰ.head e) = Memᴰ.head e
  second_place b (Memᴰ.tail m) = Memᴰ.tail (Memᴰ.tail m)

  swapped :
      (b : A) {a x : A} {l k : List A}
      → Memᴰ a (x ∷ l)
      → (Memᴰ a l → Memᴰ a (b ∷ k))
      → Memᴰ a (b ∷ x ∷ k)
  swapped b (Memᴰ.head e) f = Memᴰ.tail (Memᴰ.head e)
  swapped b (Memᴰ.tail m) f = second_place b (f m)

  mem-insert_sorted_self : (b : A) (l : List A) → Memᴰ b (insert_sorted b l)
  unfolding insert_sorted
  mem-insert_sorted_self b [] = Memᴰ.head refl
  mem-insert_sorted_self b (x ∷ rest) = elim (Bool-cases (before b x)) [
    | inl e ↦ rw e (Memᴰ.head refl)
    | inr e ↦ rw e (Memᴰ.tail (mem-insert_sorted_self b rest))
  ]

  mem-insert_sorted : (b : A) {a : A} {l : List A} → Memᴰ a l → Memᴰ a (insert_sorted b l)
  unfolding insert_sorted
  mem-insert_sorted b (Memᴰ.head {x} {xs = rest} h) = elim (Bool-cases (before b x)) [
    | inl e ↦ rw e (Memᴰ.tail (Memᴰ.head h))
    | inr e ↦ rw e (Memᴰ.head h)
  ]
  mem-insert_sorted b (Memᴰ.tail {x} {xs = rest} m) = elim (Bool-cases (before b x)) [
    | inl e ↦ rw e (Memᴰ.tail (Memᴰ.tail m))
    | inr e ↦ rw e (Memᴰ.tail (mem-insert_sorted b m))
  ]

  pub mem-sort_by : {b : A} {l : List A} → Memᴰ b l → Memᴰ b (sort_by l)
  unfolding sort_by
  mem-sort_by (Memᴰ.head {x} {xs = rest} h) = rw h (mem-insert_sorted_self x (sort_by rest))
  mem-sort_by (Memᴰ.tail {x} m) = mem-insert_sorted x (mem-sort_by m)

  mem-of-insert_sorted : (b : A) {a : A} (l : List A) → Memᴰ a (insert_sorted b l) → Memᴰ a (b ∷ l)
  unfolding insert_sorted
  mem-of-insert_sorted b [] m = m
  mem-of-insert_sorted b (x ∷ rest) m = elim (Bool-cases (before b x)) [
    | inl e ↦ rw e at m
    | inr e ↦ swapped b (rw e at m) (mem-of-insert_sorted b rest)
  ]

  pub mem-of-sort_by : {a : A} (l : List A) → Memᴰ a (sort_by l) → Memᴰ a l
  unfolding sort_by
  mem-of-sort_by [] m = m
  mem-of-sort_by (x ∷ rest) m =
      mem_cons (mem-of-insert_sorted x (sort_by rest) m) (mem-of-sort_by rest)

module _ {ℓ} {A : Type ℓ} (key : A → ℕ) (before : A → A → Bool) (k : ℕ) where
  contains-insert_sorted :
      (b : A) (l : List A)
      → contains (map key (insert_sorted before b l)) k ≡ (key b == k || contains (map key l) k)
  unfolding insert_sorted
  contains-insert_sorted b [] = refl
  contains-insert_sorted b (x ∷ rest) = ground (arith, contains-insert_sorted b rest)

  -- Sorting keeps the keys.
  pub contains-sort_by :
      (l : List A) → contains (map key (sort_by before l)) k ≡ contains (map key l) k
  unfolding sort_by
  contains-sort_by [] = refl
  contains-sort_by (b ∷ rest) =
      ground (arith, contains-insert_sorted b (sort_by before rest), contains-sort_by rest)

module _ {ℓ} {A : Type ℓ} (before : A → A → Bool)
    (transitive : (a b c : A) → before a b ≡ true → before b c ≡ true → before a c ≡ true)
    (total : (a b : A) → (before a b ≡ true) ⊎ (before b a ≡ true)) where
  abbrev Leads : A → List A → Type 0
  Leads a = All (λ b. before a b ≡ true)

  abbrev pub IsSorted : List A → Type 0
  IsSorted [] = Unit
  IsSorted (a ∷ rest) = Leads a rest × IsSorted rest

  Leads-of_before : (a b : A) (l : List A) → before a b ≡ true → Leads b l → Leads a l
  Leads-of_before a b [] h p = tt
  Leads-of_before a b (x ∷ rest) h p = (transitive a b x h p.0, Leads-of_before a b rest h p.1)

  Leads-insert_sorted :
      (a b : A) (l : List A) → before a b ≡ true → Leads a l → Leads a (insert_sorted before b l)
  unfolding insert_sorted
  Leads-insert_sorted a b [] h p = (h, tt)
  Leads-insert_sorted a b (x ∷ rest) h p = elim (Bool-cases (before b x)) [
    | inl e ↦ rw e (h, p)
    | inr e ↦ rw e (p.0, Leads-insert_sorted a b rest h p.1)
  ]

  insert_sorted-IsSorted : (b : A) (l : List A) → IsSorted l → IsSorted (insert_sorted before b l)
  unfolding insert_sorted
  insert_sorted-IsSorted b [] s = (tt, tt)
  insert_sorted-IsSorted b (x ∷ rest) s = elim (Bool-cases (before b x)) [
    | inl e ↦ rw e ((e, Leads-of_before b x rest e s.0), s)
    | inr e ↦
        let x_first : before x b ≡ true = ground (arith, total b x) in
        rw e (Leads-insert_sorted x b rest x_first s.0, insert_sorted-IsSorted b rest s.1)
  ]

  pub sort_by-IsSorted : (l : List A) → IsSorted (sort_by before l)
  unfolding sort_by
  sort_by-IsSorted [] = tt
  sort_by-IsSorted (b ∷ rest) =
      insert_sorted-IsSorted b (sort_by before rest) (sort_by-IsSorted rest)

  -- In a sorted list what is taken comes before what is left.
  pub taken_first :
      (key : A → ℕ) (n : ℕ) {a b : A} (l : List A)
      → IsSorted l
      → Memᴰ a (take n l)
      → Memᴰ b l
      → contains (map key (take n l)) (key b) ≡ false
      → before a b ≡ true
  taken_first key zero l s ma mb out = elim ma [ ]
  taken_first key (suc n) [] s ma mb out = elim ma [ ]
  taken_first key (suc n) {a} {b} (x ∷ rest) s ma (Memᴰ.head e) out =
      let same : key b ≡ key x = ap key e in ground arith
  taken_first key (suc n) {a} {b} (x ∷ rest) s (Memᴰ.head e) (Memᴰ.tail mb) out =
      rw e (mem-All (λ y. before x y ≡ true) s.0 mb)
  taken_first key (suc n) {a} {b} (x ∷ rest) s (Memᴰ.tail ma) (Memᴰ.tail mb) out =
      taken_first key n rest s.1 ma mb (ground arith)

-- What is left out of a prefix is left out because the prefix is full.
pub taken_full {ℓ} :
    {A : Type ℓ} (key : A → ℕ) (n : ℕ) {b : A} (l : List A)
    → Memᴰ b l
    → contains (map key (take n l)) (key b) ≡ false
    → length (take n l) ≡ n
taken_full key zero l m out = refl
taken_full key (suc n) [] m out = elim m [ ]
taken_full key (suc n) {b} (x ∷ rest) (Memᴰ.head e) out =
    let same : key b ≡ key x = ap key e in ground arith
taken_full key (suc n) {b} (x ∷ rest) (Memᴰ.tail m) out =
    ap suc (taken_full key n rest m (ground arith))
