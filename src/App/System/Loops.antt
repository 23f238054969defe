-- ===== src/App/System/Loops.antt =====
-- `SyncBlockRangeToDB` keeps what each of its synchronisations keeps.
use block_explorer_backend.Prelude.{
  ℕ, zero, suc, ◌-◌, ◌≡◌, inl, inr, Bool, Bool-cases, Option, none, some, ltb,
}
use block_explorer_backend.Effect.{Result, ok, err, Io}
use block_explorer_backend.Dto.{BlockRangeSyncResult}
use block_explorer_backend.BlockService.Range.{
  RangeReturn, is_fatal, after_sync, inc64, start_result, sync_loop, sync_range, max_block_range,
}

-- A loop that synchronises blocks keeps what each synchronisation keeps.
module _ {W : Type 0} (P : W → Type 0) (ctx_done : W → Bool) (sync : ℕ → Io W (Unit {0}))
    (keeps : (n : ℕ) (w : W) → P w → P (sync n w).1) where
  abbrev pub Returns : Option (RangeReturn × W) → Type 0
  Returns none = Unit
  Returns (some (ret, w)) = P w

  after_sync-Returns :
      (number : ℕ) (r : BlockRangeSyncResult) (w : W) (outcome : Result (Unit {0}))
      (next : BlockRangeSyncResult → Option (RangeReturn × W))
      → P w
      → ((r' : BlockRangeSyncResult) → Returns (next r'))
      → Returns (after_sync number r w outcome next)
  after_sync-Returns number r w (ok _) next h k = k _
  after_sync-Returns number r w (err e) next h k = elim (Bool-cases (is_fatal e)) [
    | inl fatal ↦ rw fatal h
    | inr go_on ↦ rw go_on (k _)
  ]

  sync_loop-Returns :
      (fuel end number : ℕ) (r : BlockRangeSyncResult) (w : W)
      → P w
      → Returns (sync_loop ctx_done sync fuel end number r w)
  unfolding sync_loop
  sync_loop-Returns zero end number r w h = tt
  sync_loop-Returns (suc fuel) end number r w h = elim (Bool-cases (ltb end number)) [
    | inl over ↦ rw over h
    | inr more ↦ elim (Bool-cases (ctx_done w)) [
      | inl stop ↦ rw (more, stop) h
      | inr go ↦
          let (outcome, w') = sync number w in
          rw (more, go)
            (after_sync-Returns number r w' outcome
              (λ r'. sync_loop ctx_done sync fuel end (inc64 number) r' w') (keeps number w h)
              (λ r'. sync_loop-Returns fuel end (inc64 number) r' w' (keeps number w h)))
    ]
  ]

  -- What a call of the range leaves, where it returns.
  pub sync_range-Returns :
      (fuel start end : ℕ) (w : W) → P w → Returns (sync_range ctx_done sync fuel start end w)
  unfolding sync_range
  sync_range-Returns fuel start end w h = elim (Bool-cases (ltb end start)) [
    | inl empty ↦ rw empty h
    | inr some_block ↦ elim (Bool-cases (ltb max_block_range (inc64 (end - start)))) [
      | inl large ↦ rw (some_block, large) h
      | inr small ↦
          rw (some_block, small) (sync_loop-Returns fuel end start (start_result start end) w h)
    ]
  ]

  pub Returns-world :
      (o : Option (RangeReturn × W)) (ret : RangeReturn × W) → o ≡ some ret → Returns o → P ret.1
  Returns-world o ret e h = let h' = rw e at h in h'
