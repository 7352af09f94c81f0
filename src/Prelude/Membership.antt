-- ===== src/Prelude/Membership.antt =====
-- Membership as a test and as a derivation, and the first entry that passes a test.
use mathlib.Core.List.{Memᴰ}
use mathlib.Core.Path.{◌≡◌, refl, sym, ap, ◌∙◌}
use mathlib.Core.Bool.{Bool, true}
use mathlib.Core.Option.{some}
use mathlib.Core.List.{List, [], ◌∷◌, ◌++◌}
use mathlib.Core.Logic.{inl, inr}
use native.Mathlib.Omega.{arith}
use forjd.Prelude.Tests.{Eq, ◌==◌, Bool-cases}
use forjd.Prelude.Lists.{any, find, contains}

module _ {ℓ} {A : Type ℓ} (p : A → Bool) where
  -- `any(p(x) for x in xs)` by a witness.
  pub mem-of-any : (l : List A) → any p l ≡ true → (a : A) × Memᴰ a l × (p a ≡ true)
  mem-of-any [] h = cc
  mem-of-any (x ∷ rest) h = elim (Bool-cases (p x)) [
    | inl e ↦ (x, Memᴰ.head refl, e)
    | inr e ↦
        let (a, inside, passes) = mem-of-any rest (ground (arith, e)) in
        (a, Memᴰ.tail inside, passes)
  ]

  pub any-of-mem : {a : A} {l : List A} → Memᴰ a l → p a ≡ true → any p l ≡ true
  any-of-mem (Memᴰ.head e) h = rw (sym (ap p e) ∙ h) refl
  any-of-mem (Memᴰ.tail {x} m) h = ground (arith, any-of-mem m h)

  pub mem-of-find : (l : List A) {a : A} → find p l ≡ some a → Memᴰ a l × (p a ≡ true)
  mem-of-find [] h = cc
  mem-of-find (x ∷ rest) {a} h = elim (Bool-cases (p x)) [
    | inl e ↦ let same : x ≡ a = ground (arith, e) in (Memᴰ.head (sym same), rw (sym same) e)
    | inr e ↦
        let (inside, passes) = mem-of-find rest (ground (arith, e)) in (Memᴰ.tail inside, passes)
  ]

module _ {ℓ} {A : Type ℓ} ⦃eq : Eq A⦄ where
  pub mem-of-contains : (l : List A) (k : A) → contains l k ≡ true → Memᴰ k l
  mem-of-contains l k h =
      let (a, inside, same) = mem-of-any (λ x. x == k) l h in
      rw (sym ((eq.equal_right a k).0 same)) inside

  pub contains-of-mem : (l : List A) (k : A) → Memᴰ k l → contains l k ≡ true
  contains-of-mem l k m = any-of-mem (λ x. x == k) m ((eq.equal_right k k).1 refl)

-- An entry stays one when the list grows at its end.
pub append-mem {ℓ} : {A : Type ℓ} {a : A} (l more : List A) → Memᴰ a l → Memᴰ a (l ++ more)
append-mem [] more m = elim m [ ]
append-mem (x ∷ rest) more (Memᴰ.head e) = Memᴰ.head e
append-mem (x ∷ rest) more (Memᴰ.tail m) = Memᴰ.tail (append-mem rest more m)

pub mem-append_last {ℓ} : {A : Type ℓ} (a : A) (l : List A) → Memᴰ a (l ++ a ∷ [])
mem-append_last a [] = Memᴰ.head refl
mem-append_last a (x ∷ rest) = Memᴰ.tail (mem-append_last a rest)
