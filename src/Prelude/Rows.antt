-- ===== src/Prelude/Rows.antt =====
-- Tables as lists of rows, with the SQL statements that the services issue.
use Prim.Native.Nat.{ℕ, suc}
use mathlib.Core.Path.{◌≡◌, refl, ap₂}
use mathlib.Core.Bool.{Bool}
use mathlib.Core.List.{List, [], ◌∷◌, map}
use forjd.Prelude.Tests.{if◌then◌else◌}
use forjd.Prelude.Lists.{All}

module _ {ℓ} {A : Type ℓ} where
  -- `UPDATE rows SET … WHERE …`, one row.
  abbrev pub update_row : (A → Bool) → (A → A) → A → A
  update_row matches change r = if matches r then change r else r

  -- `UPDATE rows SET … WHERE …`
  abbrev pub update : (A → Bool) → (A → A) → List A → List A
  update matches change = map (update_row matches change)

  -- The count in the status that the database returns: `UPDATE n`.
  unfoldable pub count_where : (A → Bool) → List A → ℕ
  count_where matches [] = 0
  count_where matches (r ∷ rs) =
      let rest = count_where matches rs in if matches r then suc rest else rest

module _ {ℓ κ} {A : Type ℓ} (P : A → Type κ) (f : A → A) where
  pub All-map : ((r : A) → P r → P (f r)) → (rs : List A) → All P rs → All P (map f rs)
  All-map keep [] h = tt
  All-map keep (r ∷ rs) h = (keep r h.0, All-map keep rs h.1)

module _ {ℓ κ} {A : Type ℓ} {B : Type κ} (view : A → B) (f : A → A) where
  -- What each row keeps, the table keeps.
  pub map-map_keep :
      ((r : A) → view (f r) ≡ view r) → (rs : List A) → map view (map f rs) ≡ map view rs
  map-map_keep keep [] = refl
  map-map_keep keep (r ∷ rs) = ap₂ ◌∷◌ (keep r) (map-map_keep keep rs)
