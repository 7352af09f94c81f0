-- ===== src/Prelude/Keys.antt =====
-- Rows with a primary key: a statement that names keys names rows.
use mathlib.Core.List.{Memᴰ}
use Prim.Native.Nat.{ℕ, zero, suc}
use mathlib.Core.Path.{◌≡◌, refl, sym, ap, ◌∙◌}
use mathlib.Core.Bool.{Bool, true, false}
use mathlib.Core.List.{List, [], ◌∷◌, ◌++◌, map}
use mathlib.Core.Logic.{inl, inr}
use native.Mathlib.Omega.{arith}
use forjd.Prelude.Tests.{string_eq, nat_eq, ◌==◌, Bool-cases}
use forjd.Prelude.Rows.{count_where}
use forjd.Prelude.Lists.{take, select, any, any-append, contains, All}

-- `PRIMARY KEY`: no value twice.
abbrev pub Distinct : List ℕ → Type 0
Distinct [] = Unit
Distinct (k ∷ ks) = (contains ks k ≡ false) × Distinct ks

module _ {ℓ} {A : Type ℓ} (key : A → ℕ) where
  pub contains-mem : {b : A} {l : List A} → Memᴰ b l → contains (map key l) (key b) ≡ true
  contains-mem {b} (Memᴰ.head {x} e) = let same : key b ≡ key x = ap key e in ground arith
  contains-mem (Memᴰ.tail m) = ground (arith, contains-mem m)

  pub contains-take :
      (n k : ℕ) (l : List A)
      → contains (map key (take n l)) k ≡ true
      → contains (map key l) k ≡ true
  contains-take zero k l h = cc
  contains-take (suc n) k [] h = h
  contains-take (suc n) k (x ∷ rest) h = ground (arith, contains-take n k rest)

  contains-select :
      (p : A → Bool) (k : ℕ) (l : List A)
      → contains (map key (select p l)) k ≡ true
      → contains (map key l) k ≡ true
  contains-select p k [] h = h
  contains-select p k (x ∷ rest) h = ground (arith, contains-select p k rest)

  module _ (p : A → Bool) where
    -- A row whose key is among the keys of the rows that pass a test passes it itself.
    pub select-mem :
        {b : A} {l : List A}
        → Distinct (map key l)
        → Memᴰ b l
        → contains (map key (select p l)) (key b) ≡ true
        → p b ≡ true
    select-mem {b} d (Memᴰ.head {x} {xs = rest} e) h =
        let same_key : key b ≡ key x = ap key e in
        let same_test : p b ≡ p x = ap p e in ground (arith, contains-select p (key b) rest)
    select-mem {b} d (Memᴰ.tail {x} {xs = rest} m) h =
        let inside : contains (map key rest) (key b) ≡ true = contains-mem m in
        ground (arith, ap (contains (map key rest)) {x = key x} {y = key b}, select-mem d.1 m)

module _ {ℓ κ} {A : Type ℓ} (P : A → Type κ) where
  pub All-of-mem : (l : List A) → ((b : A) → Memᴰ b l → P b) → All P l
  All-of-mem [] h = tt
  All-of-mem (x ∷ rest) h = (h x (Memᴰ.head refl), All-of-mem rest (λ b m. h b (Memᴰ.tail m)))

  pub mem-All : {b : A} {l : List A} → All P l → Memᴰ b l → P b
  mem-All h (Memᴰ.head e) = rw e h.0
  mem-All h (Memᴰ.tail m) = mem-All h.1 m

  pub All-map_mem : (f : A → A) (l : List A) → ((b : A) → Memᴰ b l → P (f b)) → All P (map f l)
  All-map_mem f [] h = tt
  All-map_mem f (x ∷ rest) h = (h x (Memᴰ.head refl), All-map_mem f rest (λ b m. h b (Memᴰ.tail m)))

pub map-mem {ℓ κ} :
    {A : Type ℓ} {B : Type κ} (f : A → B) {b : A} {l : List A} → Memᴰ b l → Memᴰ (f b) (map f l)
map-mem f (Memᴰ.head e) = Memᴰ.head (ap f e)
map-mem f (Memᴰ.tail m) = Memᴰ.tail (map-mem f m)

pub mem_cons {ℓ} :
    {A : Type ℓ} {b x : A} {l k : List A} → Memᴰ b (x ∷ l) → (Memᴰ b l → Memᴰ b k) → Memᴰ b (x ∷ k)
mem_cons (Memᴰ.head e) f = Memᴰ.head e
mem_cons (Memᴰ.tail m) f = Memᴰ.tail (f m)

module _ {ℓ} {A : Type ℓ} (p : A → Bool) where
  first_passes :
      {b x : A} {l : List A} → p x ≡ true → Memᴰ b (x ∷ l) → (Memᴰ b l → p b ≡ true) → p b ≡ true
  first_passes h (Memᴰ.head e) rest = ap p e ∙ h
  first_passes h (Memᴰ.tail m) rest = rest m

  pub passes-of-select : {b : A} (l : List A) → Memᴰ b (select p l) → p b ≡ true
  passes-of-select [] m = elim m [ ]
  passes-of-select (x ∷ rest) m = elim (Bool-cases (p x)) [
    | inl e ↦ first_passes e (rw e at m) (passes-of-select rest)
    | inr e ↦ passes-of-select rest (rw e at m)
  ]

  pub mem-of-select : {b : A} (l : List A) → Memᴰ b (select p l) → Memᴰ b l
  mem-of-select [] m = elim m [ ]
  mem-of-select (x ∷ rest) m = elim (Bool-cases (p x)) [
    | inl e ↦ mem_cons (rw e at m) (mem-of-select rest)
    | inr e ↦ Memᴰ.tail (mem-of-select rest (rw e at m))
  ]

module _ {ℓ κ} {A : Type ℓ} {B : Type κ} (f : A → B) where
  -- An entry of a mapped list is the image of an entry.
  pub mem-of-map : {c : B} (l : List A) → Memᴰ c (map f l) → (b : A) × Memᴰ b l × (c ≡ f b)
  mem-of-map [] m = elim m [ ]
  mem-of-map (x ∷ rest) (Memᴰ.head e) = (x, Memᴰ.head refl, e)
  mem-of-map (x ∷ rest) (Memᴰ.tail m) =
      let (b, inside, e) = mem-of-map rest m in (b, Memᴰ.tail inside, e)

module _ {ℓ} {A : Type ℓ} (key : A → ℕ) (p : A → Bool) (k : ℕ) where
  abbrev NamesKey : A → Type 0
  NamesKey b = p b ≡ true → key b ≡ k

  count_where-absent :
      (named : (b : A) → NamesKey b) (l : List A)
      → contains (map key l) k ≡ false
      → count_where p l ≡ 0
  unfolding count_where
  count_where-absent named [] h = refl
  count_where-absent named (x ∷ rest) h = ground (arith, named x, count_where-absent named rest)

  -- A statement that names a key changes the one row that has it.
  pub count_where-one :
      (named : (b : A) → NamesKey b) {b : A} {l : List A}
      → Distinct (map key l)
      → Memᴰ b l
      → p b ≡ true
      → count_where p l ≡ 1
  unfolding count_where
  count_where-one named {b} d (Memᴰ.head {x} {xs = rest} e) h =
      let same_test : p b ≡ p x = ap p e in
      ground (
        arith,
        ap (contains (map key rest)) {x = key x} {y = k},
        named x,
        count_where-absent named rest,
      )
  count_where-one named {b} d (Memᴰ.tail {x} {xs = rest} m) h =
      let inside : contains (map key rest) (key b) ≡ true = contains-mem key m in
      ground (
        arith,
        ap (contains (map key rest)) {x = key b} {y = key x},
        named x,
        named b,
        count_where-one named d.1 m h,
      )

pub mem-select {ℓ} :
    {A : Type ℓ} (p : A → Bool) {b : A} {l : List A} → p b ≡ true → Memᴰ b l → Memᴰ b (select p l)
mem-select p h (Memᴰ.head {x} {xs = rest} e) = rw (sym (ap p e) ∙ h) (Memᴰ.head e)
mem-select p h (Memᴰ.tail {x} {xs = rest} m) = elim (Bool-cases (p x)) [
  | inl e ↦ rw e (Memᴰ.tail (mem-select p h m))
  | inr e ↦ rw e (mem-select p h m)
]

pub any-map_grow {ℓ} :
    {A : Type ℓ} (p : A → Bool) (f : A → A) (l : List A)
    → ((b : A) → Memᴰ b l → p b ≡ true → p (f b) ≡ true)
    → any p l ≡ true
    → any p (map f l) ≡ true
any-map_grow p f [] grow h = h
any-map_grow p f (x ∷ rest) grow h =
    ground (arith, grow x (Memᴰ.head refl), any-map_grow p f rest (λ b m. grow b (Memᴰ.tail m)))

-- A new row with a fresh key keeps the keys distinct.
pub Distinct-append :
    (ks : List ℕ) (k : ℕ) → Distinct ks → contains ks k ≡ false → Distinct (ks ++ k ∷ [])
Distinct-append [] k d h = (refl, tt)
Distinct-append (j ∷ ks) k d h =
    (ground (arith, any-append (λ i. i == j) ks (k ∷ [])), Distinct-append ks k d.1 (ground arith))
