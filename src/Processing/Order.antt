-- ===== src/Processing/Order.antt =====
-- The order in which `_claim_processing_batches` hands rows out.
use mathlib.Core.List.{Memᴰ}
use forjd.Prelude.{
  ℕ, ◌≤◌, ◌<◌, min, max, ◌≡◌, ◌∙◌, ◌⊎◌, true, false, not, ◌&&◌, arith, leb, string_eq, nat_eq,
  length, take, select, contains, length-map, then_by, then_by_trans, then_by_total, mem-select,
  sort_by, mem-sort_by, sort_by-IsSorted, taken_first, taken_full,
}
use forjd.Processing.Batch.{Batch, is_due}
use forjd.Processing.Ledger.{Ledger, comes_before, clamp_batch_size, candidates, Claim, claimed_ids}

leb_trans : (a b c : ℕ) → leb a b ≡ true → leb b c ≡ true → leb a c ≡ true
leb_trans a b c p q = ground arith

comes_before_trans :
    (a b c : Batch) → comes_before a b ≡ true → comes_before b c ≡ true → comes_before a c ≡ true
unfolding comes_before
comes_before_trans a b c = then_by_trans a.created_at b.created_at c.created_at _ _ _ (
    then_by_trans a.acceptance_id b.acceptance_id c.acceptance_id _ _ _ (
      then_by_trans a.group_ordinal b.group_ordinal c.group_ordinal _ _ _
        (leb_trans a.id b.id c.id)))

leb_total : (a b : ℕ) → (leb a b ≡ true) ⊎ (leb b a ≡ true)
leb_total a b = ground arith

comes_before_total : (a b : Batch) → (comes_before a b ≡ true) ⊎ (comes_before b a ≡ true)
unfolding comes_before
comes_before_total a b = then_by_total a.created_at b.created_at _ _ (
    then_by_total a.acceptance_id b.acceptance_id _ _
      (then_by_total a.group_ordinal b.group_ordinal _ _ (leb_total a.id b.id)))

-- The order of the queue: by creation time, then acceptance, then group, then id.
abbrev pub IsOlder : Batch → Batch → Type 0
IsOlder a b =
    (a.created_at < b.created_at)
    ⊎ (a.created_at ≡ b.created_at)
      × ((a.acceptance_id < b.acceptance_id)
          ⊎ (a.acceptance_id ≡ b.acceptance_id)
            × ((a.group_ordinal < b.group_ordinal)
                ⊎ (a.group_ordinal ≡ b.group_ordinal) × (a.id ≤ b.id)))

comes_before-IsOlder : (a b : Batch) → comes_before a b ≡ true → IsOlder a b
unfolding comes_before then_by
comes_before-IsOlder a b h = ground arith

-- A due and unlocked row is left by a claim only where the claim has as many rows as the batch size,
-- bounded by 1 and 100, allows; and then each row that is claimed is older than it, by creation time,
-- then acceptance, then group, then id.
pub claim_oldest_first :
    (c : Claim) {b : Batch} {ledger : Ledger}
    → Memᴰ b ledger
    → is_due c.now c.batch_ids b ≡ true
    → contains c.locked b.id ≡ false
    → contains (claimed_ids c ledger) b.id ≡ false
    → (length (claimed_ids c ledger) ≡ max 1 (min c.batch_size 100))
      × ((a : Batch)
          → Memᴰ a (candidates c.now c.batch_size c.batch_ids c.locked ledger)
          → IsOlder a b)
unfolding candidates claimed_ids
claim_oldest_first c {b} {ledger} m due free left =
    let passes = λ (r : Batch). is_due c.now c.batch_ids r && not (contains c.locked r.id) in
    let queue = sort_by comes_before (select passes ledger) in
    let inside = mem-sort_by comes_before (mem-select passes (ground arith) m) in
    let sorted =
      sort_by-IsSorted comes_before comes_before_trans comes_before_total (select passes ledger) in
    (
      length-map (λ r. r.id) (take (clamp_batch_size c.batch_size) queue)
          ∙ taken_full (λ r. r.id) (clamp_batch_size c.batch_size) queue inside left,
      λ a picked. comes_before-IsOlder a b (
          taken_first comes_before comes_before_trans comes_before_total (λ r. r.id)
            (clamp_batch_size c.batch_size) queue sorted picked inside left),
    )
