-- ===== src/Projections/Advance.antt =====
-- Checkpoints only move forward.
use forjd.Prelude.{
  string_eq, ℕ, ◌≡◌, refl, inl, inr, Bool, true, false, ◌&&◌, Option, none, some, List, [], ◌∷◌,
  ◌++◌, map, arith, if◌then◌else◌, Bool-cases, any, all, All,
}
use forjd.Projections.Checkpoints.{
  Position, is_after, Key, same_key, Checkpoint, Checkpoints, is_behind, move_to,
  advance_checkpoint, MetaRow, latest_of, counted, keep_latest, latest, advance_to,
  advance_checkpoint_from_meta,
}

-- Nothing is behind what a checkpoint has passed.
abbrev pub IsPast : Option Position → Option Position → Type 0
IsPast none after = Unit
IsPast (some p) none = ⊥
IsPast (some p) (some q) = is_after p q ≡ false

after_trans :
    (p q r : Position) → is_after p q ≡ false → is_after q r ≡ false → is_after p r ≡ false
after_trans p q r h k = ground arith

-- The position of a key: that of its row.
unfoldable pub position : Key → Checkpoints → Option Position
position k [] = none
position k (c ∷ rest) = if same_key k c.key then c.last else position k rest

moved_last :
    (k : Key) (p : Position) (c : Checkpoint)
    → (move_to k p c).last ≡ (if same_key k c.key && is_behind p c.last then some p else c.last)
unfolding move_to
moved_last k p c = elim (Bool-cases (same_key k c.key && is_behind p c.last)) [
  | inl e ↦ rw e refl
  | inr e ↦ rw e refl
]

behind-IsPast :
    (same : Bool) (p : Position) (o : Option Position)
    → IsPast o (if same && is_behind p o then some p else o)
behind-IsPast same p none = tt
behind-IsPast same p (some q) = ground arith

moved-IsPast : (k : Key) (p : Position) (c : Checkpoint) → IsPast c.last (move_to k p c).last
moved-IsPast k p c = rw (moved_last k p c) (behind-IsPast (same_key k c.key) p c.last)

key-move_to : (k : Key) (p : Position) (c : Checkpoint) → (move_to k p c).key ≡ c.key
unfolding move_to
key-move_to k p c = ground arith

IsPast-refl : (o : Option Position) → IsPast o o
IsPast-refl none = tt
IsPast-refl (some p) = ground arith

map-IsPast :
    (k : Key) (p : Position) (j : Key) (table : Checkpoints)
    → IsPast (position j table) (position j (map (move_to k p) table))
unfolding position
map-IsPast k p j [] = tt
map-IsPast k p j (c ∷ rest) = elim (Bool-cases (same_key j c.key)) [
  | inl e ↦ rw (key-move_to k p c, e) (moved-IsPast k p c)
  | inr e ↦ rw (key-move_to k p c, e) (map-IsPast k p j rest)
]

append-IsPast :
    (c : Checkpoint) (j : Key) (table : Checkpoints)
    → IsPast (position j table) (position j (table ++ c ∷ []))
unfolding position
append-IsPast c j [] = tt
append-IsPast c j (b ∷ rest) = elim (Bool-cases (same_key j b.key)) [
  | inl e ↦ rw e (IsPast-refl b.last)
  | inr e ↦ rw e (append-IsPast c j rest)
]

same_key_refl : (k : Key) → same_key k k ≡ true
same_key_refl k = ground (
  arith,
  (string_eq.equal_right k.projection_name k.projection_name).1 refl,
  (string_eq.equal_right k.workflow_id k.workflow_id).1 refl,
)

reached_last :
    (p : Position) (o : Option Position) → IsPast (some p) (if is_behind p o then some p else o)
reached_last p none = ground arith
reached_last p (some q) = ground arith

reached :
    (k : Key) (p : Position) (c : Checkpoint)
    → same_key k c.key ≡ true
    → IsPast (some p) (move_to k p c).last
reached k p c e = rw (moved_last k p c, e) (reached_last p c.last)

map-reached :
    (k : Key) (p : Position) (table : Checkpoints)
    → any (λ c. same_key k c.key) table ≡ true
    → IsPast (some p) (position k (map (move_to k p) table))
unfolding position
map-reached k p [] e = ground arith
map-reached k p (c ∷ rest) e = elim (Bool-cases (same_key k c.key)) [
  | inl f ↦ rw (key-move_to k p c, f) (reached k p c f)
  | inr f ↦ rw (key-move_to k p c, f) (map-reached k p rest (ground arith))
]

append-reached :
    (k : Key) (p : Position) (table : Checkpoints)
    → any (λ c. same_key k c.key) table ≡ false
    → position k (table ++ record { key = k; last = some p } ∷ []) ≡ some p
unfolding position
append-reached k p [] e = rw (same_key_refl k) refl
append-reached k p (c ∷ rest) e =
    let other : same_key k c.key ≡ false = ground arith in
    rw other (append-reached k p rest (ground arith))

pub advance_forward :
    (k : Key) (p : Position) (table : Checkpoints)
    → ((j : Key) → IsPast (position j table) (position j (advance_checkpoint k p table)))
      × IsPast (some p) (position k (advance_checkpoint k p table))
unfolding advance_checkpoint
advance_forward k p table = elim (Bool-cases (any (λ c. same_key k c.key) table)) [
  | inl e ↦ rw e (λ j. map-IsPast k p j table, map-reached k p table e)
  | inr e ↦ rw e (
    λ j. append-IsPast (record { key = k; last = some p }) j table,
    rw (append-reached k p table e) (IsPast-refl (some p)),
  )
]

IsPast-trans : (o p q : Option Position) → IsPast o p → IsPast p q → IsPast o q
IsPast-trans none p q h k = tt
IsPast-trans (some a) none q h k = elim h [ ]
IsPast-trans (some a) (some b) none h k = elim k [ ]
IsPast-trans (some a) (some b) (some c) h k = after_trans a b c h k

latest_of-IsPast :
    (o : Option Position) (p : Position)
    → IsPast o (latest_of o p) × IsPast (some p) (latest_of o p)
latest_of-IsPast none p = (tt, ground arith)
latest_of-IsPast (some q) p = ground arith

keep_latest-IsPast :
    (o p : Option Position) → IsPast o (keep_latest o p) × IsPast p (keep_latest o p)
keep_latest-IsPast o none = (IsPast-refl o, tt)
keep_latest-IsPast o (some p) = latest_of-IsPast o p

module _ (stored_at : ℕ → Option ℕ) (tenant_id : ℕ) where
  latest-IsPast :
      (rows : List MetaRow) (current : Option Position)
      → IsPast current (latest stored_at tenant_id rows current)
        × All
            (λ row.
              IsPast (counted stored_at tenant_id row) (latest stored_at tenant_id rows current))
            rows
  unfolding latest
  latest-IsPast [] current = (IsPast-refl current, tt)
  latest-IsPast (row ∷ rest) current =
      let next = keep_latest current (counted stored_at tenant_id row) in
      let (kept, taken) = keep_latest-IsPast current (counted stored_at tenant_id row) in
      let (later, others) = latest-IsPast rest next in
      let last = latest stored_at tenant_id rest next in
      (
        IsPast-trans current next last kept later,
        (IsPast-trans (counted stored_at tenant_id row) next last taken later, others),
      )

advance_to-IsPast :
    (k : Key) (o : Option Position) (table : Checkpoints)
    → ((j : Key) → IsPast (position j table) (position j (advance_to k o table)))
      × IsPast o (position k (advance_to k o table))
unfolding advance_to
advance_to-IsPast k none table = (λ j. IsPast-refl (position j table), tt)
advance_to-IsPast k (some p) table = advance_forward k p table

All-IsPast :
    (stored_at : ℕ → Option ℕ) (tenant_id : ℕ) (rows : List MetaRow) (o q : Option Position)
    → IsPast o q
    → All (λ row. IsPast (counted stored_at tenant_id row) o) rows
    → All (λ row. IsPast (counted stored_at tenant_id row) q) rows
All-IsPast stored_at tenant_id [] o q h all = tt
All-IsPast stored_at tenant_id (row ∷ rest) o q h all = (
  IsPast-trans (counted stored_at tenant_id row) o q all.0 h,
  All-IsPast stored_at tenant_id rest o q h all.1,
)

-- After the events of a batch, in whatever order they come, no checkpoint of any tenant, projection or
-- workflow has moved back, and that of the batch stands at or past each of its events of the tenant
-- that has a time.
pub from_meta_forward :
    (stored_at : ℕ → Option ℕ) (k : Key) (rows : List MetaRow) (table : Checkpoints)
    → ((j : Key)
        → IsPast
            (position j table)
            (position j (advance_checkpoint_from_meta stored_at k rows table)))
      × All
          (λ row.
            IsPast
              (counted stored_at k.tenant_id row)
              (position k (advance_checkpoint_from_meta stored_at k rows table)))
          rows
unfolding advance_checkpoint_from_meta
from_meta_forward stored_at k rows table =
    let o : Option Position = latest stored_at k.tenant_id rows none in
    let (forward, reached_it) = advance_to-IsPast k o table in
    (
      forward,
      All-IsPast stored_at k.tenant_id rows o _ reached_it
          (latest-IsPast stored_at k.tenant_id rows none).1,
    )
