-- ===== src/BlockService/Local.antt =====
-- Which rows `SyncBlockToDB` of internal/service/block_service.go touches.
use block_explorer_backend.Prelude.{
  ℕ, ◌≡◌, ◌≢◌, refl, ◌∙◌, inl, inr, List, [], ◌∷◌, is_empty, arith,
}
use block_explorer_backend.Prelude.Int.{ℤ, eqb_ℤ_iff}
use block_explorer_backend.Text.{Unicode}
use block_explorer_backend.Ethereum.{EthBlock, Geth}
use block_explorer_backend.Errors.{error_text}
use block_explorer_backend.Effect.{Result, ok, err, Io, lift}
use block_explorer_backend.Effect.Ensures.{
  Ends, Ends-both, Ensures, Ensures-pure, Ensures-if, Ensures-map_err, Ensures-bind, Ensures-given,
}
use block_explorer_backend.Effect.Keeps.{Keeps, Keeps-lift, Keeps-Ensures}
use block_explorer_backend.Models.{Block, Transaction}
use block_explorer_backend.Mapper.{to_block_model}
use block_explorer_backend.BlockService.Interfaces.{BlockService}
use block_explorer_backend.BlockService.Contract.{
  BlockTable, write_at, marked_synced, marked_failed, Inserted, Updated, Writes, StoreContract,
}
use block_explorer_backend.BlockService.Defs.{
  get_raw_block_by_number, build_transaction_models_from_block, with_sync_state, after_receipts,
  sync_receipts, insert_and_mark, sync_block_to_db,
}
use block_explorer_backend.BlockService.Progress.Steps.{
  validate_block_for_sync-Keeps, validate_transactions-Keeps,
}

-- The tables agree but at one number.
pub record AgreeOff (number : ℕ) (t t' : BlockTable) : Type 0 where
  pub same : (chain : ℤ) (m : ℕ) → m ≢ number → t' chain m ≡ t chain m

write_at-off :
    (c d : ℤ) (n m : ℕ) (b : Block) (t : BlockTable) → m ≢ n → write_at c n b t d m ≡ t d m
write_at-off c d n m b t h = ground (arith, eqb_ℤ_iff c d)

AgreeOff-write :
    (number : ℕ) (t t' : BlockTable) (c : ℤ) (n : ℕ) (b : Block)
    → n ≡ number
    → AgreeOff number t t'
    → AgreeOff number t (write_at c n b t')
AgreeOff-write number t t' c n b here agree = record {
  same = λ chain m other.
      write_at-off c chain n m b t' (λ e. other (e ∙ here)) ∙ agree.same chain m other;
}

module _ {W : Type 0} (u : Unicode) (g : Geth) (s : BlockService W) (c : StoreContract s)
    (number : ℕ) (t₀ : BlockTable) where
  -- Nothing but the row of the number has changed.
  abbrev Off : W → Type 0
  Off w = AgreeOff number t₀ (c.table w)

  writes-Ends :
      (r : Result (Unit {0})) (t : BlockTable) (w' : W) (Change : Type 0)
      → AgreeOff number t₀ t
      → (Change → Off w')
      → Writes r t (c.table w') Change
      → Ends (λ _. Off) Off r w'
  writes-Ends (ok _) t w' Change agree f h = f h
  writes-Ends (err _) t w' Change agree f h = rw h agree

  Inserted-Off :
      (t t' : BlockTable) (b : Block)
      → b.number ≡ number
      → AgreeOff number t₀ t
      → Inserted b t t'
      → AgreeOff number t₀ t'
  Inserted-Off t t' b here agree (inl (taken, same)) = rw same agree
  Inserted-Off t t' b here agree (inr (free, written)) =
      rw written (AgreeOff-write number t₀ t b.chain_id b.number b here agree)

  Updated-Off :
      (f : Block → Block) (t t' : BlockTable)
      → AgreeOff number t₀ t
      → Updated f s.chain_id number t t'
      → AgreeOff number t₀ t'
  Updated-Off f t t' agree (old, stored, written) =
      rw written (AgreeOff-write number t₀ t s.chain_id number (f old) refl agree)

  insert-Ensures :
      (b : Block) (txs : List Transaction)
      → b.number ≡ number
      → Ensures Off (s.block_sync_store.insert_block_with_transactions b txs) (λ _. Off) Off
  insert-Ensures b txs here = record {
    at = λ w agree.
        let (r, w') = s.block_sync_store.insert_block_with_transactions b txs w in
        writes-Ends r (c.table w) w' _ agree (Inserted-Off (c.table w) (c.table w') b here agree)
          (c.insert_writes b txs w);
  }

  -- A mark on the row of the number.
  mark-Ensures :
      (f : Block → Block) (call : Io W (Unit {0}))
      → ((w : W)
          → Writes
              (call w).0
              (c.table w)
              (c.table (call w).1)
              (Updated f s.chain_id number (c.table w) (c.table (call w).1)))
      → Ensures Off call (λ _. Off) Off
  mark-Ensures f call writes = record {
    at = λ w agree.
        writes-Ends (call w).0 (c.table w) (call w).1 _ agree
          (Updated-Off f (c.table w) (c.table (call w).1) agree) (writes w);
  }

  after_receipts-Off :
      (r : Result (Unit {0})) (w : W)
      → Off w
      → Ends (λ _. Off) Off (after_receipts u g s number r w).0 (after_receipts u g s number r w).1
  after_receipts-Off (ok _) w agree =
      (Ensures-map_err _ (
          mark-Ensures marked_synced
            (s.block_sync_store.mark_block_receipts_synced s.chain_id number)
            (c.synced_writes s.chain_id number))).at
        w agree
  after_receipts-Off (err e) w agree =
      let mark =
        s.block_sync_store.mark_block_receipts_sync_failed s.chain_id number (error_text e) in
      Ends-both Off (mark w).0 (mark w).1 (
        (mark-Ensures (marked_failed (error_text e)) mark
            (c.failed_writes s.chain_id number (error_text e))).at
          w agree)

  sync_receipts-Ensures : Ensures Off (sync_receipts u g s number) (λ _. Off) Off
  unfolding sync_receipts
  sync_receipts-Ensures = record {
    at = λ w agree.
        let (r, w') = s.block_receipt_syncer.sync_block_transaction_receipts number w in
        after_receipts-Off r w' (rw (c.receipts_keep number w) agree);
  }

  with_sync_state-number :
      (b : Block) (txs : List Transaction) → (with_sync_state u g s b txs).number ≡ b.number
  with_sync_state-number b [] = refl
  with_sync_state-number b (tx ∷ txs) = refl

  write-Ensures :
      (b : Block) (txs : List Transaction)
      → b.number ≡ number
      → Ensures Off (insert_and_mark u g s number b txs) (λ _. Off) Off
  unfolding insert_and_mark
  write-Ensures b txs here =
      Ensures-bind
        (Ensures-map_err _
          (insert-Ensures (with_sync_state u g s b txs) txs (with_sync_state-number b txs ∙ here)))
        (λ _.
          Ensures-if (is_empty txs) (λ _. Ensures-pure tt (λ w agree. agree))
            (λ _. sync_receipts-Ensures))

  -- A call that leaves the table alone.
  keep-Ensures : {A : Type 0} (m : Io W A) → Keeps c.table m → Ensures Off m (λ _. Off) Off
  keep-Ensures m keeps = Keeps-Ensures (AgreeOff number t₀) keeps

  -- The node's block, with the number that was asked for.
  Named-Ends :
      (r : Result EthBlock) (w : W)
      → Off w
      → ((b : EthBlock) → r ≡ ok b → b.number ≡ number)
      → Ends (λ b w. Off w × (b.number ≡ number)) Off r w
  Named-Ends (ok b) w agree named = (agree, named b refl)
  Named-Ends (err e) w agree named = agree

  fetch-Ensures :
      ((w : W) (b : EthBlock)
        → (s.chain_block_reader.get_block_by_number number w).0 ≡ ok b
        → b.number ≡ number)
      → Ensures Off
          (s.chain_block_reader.get_block_by_number number)
          (λ b w. Off w × (b.number ≡ number))
          Off
  fetch-Ensures named = record {
    at = λ w agree.
        let (r, w') = s.chain_block_reader.get_block_by_number number w in
        Named-Ends r w' (rw (c.node_keeps number w) agree) (named w);
  }

  sync_block_to_db-Off :
      ((w : W) (b : EthBlock)
        → (s.chain_block_reader.get_block_by_number number w).0 ≡ ok b
        → b.number ≡ number)
      → Ensures Off (sync_block_to_db u g s number) (λ _. Off) Off
  unfolding sync_block_to_db get_raw_block_by_number to_block_model
  sync_block_to_db-Off named = Ensures-bind (Ensures-map_err _ (fetch-Ensures named)) (λ block.
      Ensures-given (λ here.
        let model = to_block_model g s.chain_id block in
        Ensures-bind (keep-Ensures _ (validate_block_for_sync-Keeps u g s c model)) (λ _.
          Ensures-bind
            (keep-Ensures (lift (build_transaction_models_from_block u g s block)) (Keeps-lift _))
            (λ txs.
              Ensures-bind
                (Ensures-map_err _ (keep-Ensures _ (validate_transactions-Keeps u g s c txs)))
                (λ _. write-Ensures model txs here)))))

-- If the node gives blocks of the asked number, then however `SyncBlockToDB` ends, it has left alone
-- every stored row of another number, of this chain and of others.
pub sync_block_to_db-AgreeOff :
    {W : Type 0} (u : Unicode) (g : Geth) (s : BlockService W) (c : StoreContract s) (number : ℕ)
    (w : W)
    → ((w : W) (b : EthBlock)
        → (s.chain_block_reader.get_block_by_number number w).0 ≡ ok b
        → b.number ≡ number)
    → AgreeOff number (c.table w) (c.table (sync_block_to_db u g s number w).1)
sync_block_to_db-AgreeOff u g s c number w named =
    Ends-both (λ w'. AgreeOff number (c.table w) (c.table w')) _ _
      ((sync_block_to_db-Off u g s c number (c.table w) named).at w
        (record { same = λ chain m other. refl }))
