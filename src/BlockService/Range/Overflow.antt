-- ===== src/BlockService/Range/Overflow.antt =====
-- The range whose end is the largest uint64: `number <= end` never fails, and `end - start + 1` wraps.
use block_explorer_backend.Prelude.{
  ℕ, zero, suc, ◌-◌, ◌≤◌, ◌<◌, ◌≡◌, refl, ◌⊎◌, Bool, false, none, Option, arith, ltb,
}
use block_explorer_backend.Prelude.Int.{two_64}
use block_explorer_backend.Effect.{Result, ok, err, Io}
use block_explorer_backend.Dto.{BlockRangeSyncResult}
use block_explorer_backend.Text.{Unicode}
use block_explorer_backend.Ethereum.{Geth}
use block_explorer_backend.BlockService.Interfaces.{BlockService}
use block_explorer_backend.BlockService.Defs.{sync_block_to_db}
use block_explorer_backend.BlockService.Range.{
  inc64, is_fatal, RangeReturn, after_sync, sync_loop, start_result, sync_block_range_to_db,
}

abbrev pub last : ℕ
last = two_64 - 1

-- The outcome of one block does not end the loop.
abbrev pub GoesOn : Result (Unit {0}) → Type 0
GoesOn (ok _) = Unit
GoesOn (err e) = is_fatal e ≡ false

module _ {W : Type 0} (ctx_done : W → Bool) (sync : ℕ → Io W (Unit {0})) where
  after_sync-none :
      (number : ℕ) (r : BlockRangeSyncResult) (w : W) (o : Result (Unit {0}))
      (next : BlockRangeSyncResult → Option (RangeReturn × W))
      → GoesOn o
      → ((r' : BlockRangeSyncResult) → next r' ≡ none)
      → after_sync number r w o next ≡ none
  after_sync-none number r w (ok _) next g h = h _
  after_sync-none number r w (err e) next g h = rw g (h _)

  sync_loop-none :
      ((w : W) → ctx_done w ≡ false)
      → ((n : ℕ) (w : W) → GoesOn (sync n w).0)
      → (fuel number : ℕ) (r : BlockRangeSyncResult) (w : W) → number < two_64
      → sync_loop ctx_done sync fuel last number r w ≡ none
  unfolding sync_loop
  sync_loop-none live going zero number r w h = refl
  sync_loop-none live going (suc fuel) number r w h =
      let within : ltb last number ≡ false = ground arith in
      rw (within, live w)
        (after_sync-none number r (sync number w).1 (sync number w).0 _ (going number w)
          (λ r'. sync_loop-none live going fuel (inc64 number) r' (sync number w).1 (omega arith)))

-- If the end is the largest uint64 and the start is 0 or one of the last 100 numbers, the range passes
-- both checks, and while no block fails fatally and the context is live, the call never returns:
-- no fuel is enough.
pub sync_block_range_to_db-diverges :
    {W : Type 0} (u : Unicode) (g : Geth) (ctx_done : W → Bool) (s : BlockService W) (start : ℕ)
    → (start ≡ 0) ⊎ (two_64 - 100 ≤ start) × (start < two_64)
    → ((w : W) → ctx_done w ≡ false)
    → ((n : ℕ) (w : W) → GoesOn (sync_block_to_db u g s n w).0)
    → (fuel : ℕ) (w : W) → sync_block_range_to_db u g ctx_done s fuel start last w ≡ none
unfolding sync_block_range_to_db
sync_block_range_to_db-diverges u g ctx_done s start edge live going fuel w =
    let ordered : ltb last start ≡ false = ground arith in
    let passes : ltb 100 (inc64 (last - start)) ≡ false = ground arith in
    rw (ordered, passes)
      (sync_loop-none ctx_done (sync_block_to_db u g s) live going fuel start
        (start_result start last) w (omega arith))
