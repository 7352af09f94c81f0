-- ===== src/Processing/Claim.antt =====
-- Which rows `_claim_processing_batches` picks.
use mathlib.Core.List.{Memᴰ}
use forjd.Prelude.{
  ◌≡◌, sym, ◌∙◌, true, false, not, ◌&&◌, arith, string_eq, nat_eq, select, contains, Distinct,
  contains-take, select-mem, sort_by, contains-sort_by,
}
use forjd.Processing.Batch.{Batch, is_due}
use forjd.Processing.Ledger.{Ledger, comes_before, clamp_batch_size, ids, Claim, claimed_ids}

abbrev pub IsKeyed : Ledger → Type 0
IsKeyed ledger = Distinct (ids ledger)

-- A row that the claim names is due, and no other transaction holds it.
pub claimed_is_due :
    (c : Claim) {b : Batch} {ledger : Ledger}
    → IsKeyed ledger
    → Memᴰ b ledger
    → contains (claimed_ids c ledger) b.id ≡ true
    → (is_due c.now c.batch_ids b ≡ true) × (contains c.locked b.id ≡ false)
unfolding claimed_ids
claimed_is_due c {b} {ledger} keyed m h =
    let passes = λ (r : Batch). is_due c.now c.batch_ids r && not (contains c.locked r.id) in
    let picked : contains (ids (sort_by comes_before (select passes ledger))) b.id ≡ true =
      contains-take (λ r. r.id) (clamp_batch_size c.batch_size) b.id
        (sort_by comes_before (select passes ledger)) h in
    let due : passes b ≡ true =
      select-mem (λ r. r.id) passes keyed m
        (sym (contains-sort_by (λ r. r.id) comes_before b.id (select passes ledger)) ∙ picked) in
    ground arith
