-- ===== src/BlockService/Outcome/Calls.antt =====
-- `SyncBlockToDB` of internal/service/block_service.go against a node whose chain stays as it is: what a
-- success and a failure leave at the block's number.
use block_explorer_backend.Prelude.{ℕ, ◌≡◌, ◌≢◌, refl, inl, inr, List, [], ◌∷◌}
use block_explorer_backend.Text.{Unicode}
use block_explorer_backend.Ethereum.{EthBlock, Geth}
use block_explorer_backend.Errors.{error_text}
use block_explorer_backend.Effect.{Result, ok, err}
use block_explorer_backend.Effect.Ensures.{
  Ends, Ends-both, Ensures, Ensures-pure, Ensures-lift, Ensures-map_err, Ensures-bind,
  Ensures-given,
}
use block_explorer_backend.Effect.Keeps.{Keeps-Ensures}
use block_explorer_backend.Models.{Block, Transaction}
use block_explorer_backend.Mapper.{to_block_model}
use block_explorer_backend.BlockService.Interfaces.{BlockService}
use block_explorer_backend.BlockService.Contract.{BlockTable, Inserted, Writes, StoreContract}
use block_explorer_backend.BlockService.Defs.{
  get_raw_block_by_number, build_transaction_models_from_block, with_sync_state, after_receipts,
  sync_receipts, insert_and_mark, sync_block_to_db,
}
use block_explorer_backend.BlockService.Progress.Steps.{
  validate_block_for_sync-Keeps, validate_transactions-Keeps,
}
use block_explorer_backend.BlockService.Outcome.{
  Follows, Mirrors, Open, Completed, Pending, Waiting, Settled, Ended, built-empty, built-some,
  insert_empty-Settled, insert_some-Pending, synced-Settled, failed-Pending,
}

module _ {W : Type 0} (u : Unicode) (g : Geth) (s : BlockService W) (c : StoreContract s)
    (chain : ℕ → EthBlock) (follows : Follows g s chain) (number : ℕ) where
  writes-Ends :
      (Q : BlockTable → Type 0) (r : Result (Unit {0})) (t : BlockTable) (w' : W) (Change : Type 0)
      → (Pending u g s c chain follows number) t
      → (Change → Q (c.table w'))
      → Writes r t (c.table w') Change
      → Ends (λ _ w. Q (c.table w)) (Waiting u g s c chain follows number) r w'
  writes-Ends Q (ok _) t w' Change p f h = f h
  writes-Ends Q (err e) t w' Change p f h = rw h p

  synced-Ensures :
      Ensures
        (Waiting u g s c chain follows number)
        (s.block_sync_store.mark_block_receipts_synced s.chain_id number)
        (λ _. Ended u g s c chain follows number)
        (Waiting u g s c chain follows number)
  synced-Ensures = record {
    at = λ w p.
        let (r, w') = s.block_sync_store.mark_block_receipts_synced s.chain_id number w in
        writes-Ends (Settled u g s c chain follows number) r (c.table w) w' _ p
          (synced-Settled u g s c chain follows number (c.table w) (c.table w') p)
          (c.synced_writes s.chain_id number w);
  }

  after_receipts-Ends :
      (r : Result (Unit {0})) (w : W)
      → (chain number).transactions ≢ []
      → (Waiting u g s c chain follows number) w
      → Ends
          (λ _. Ended u g s c chain follows number)
          (Waiting u g s c chain follows number)
          (after_receipts u g s number r w).0
          (after_receipts u g s number r w).1
  after_receipts-Ends (ok _) w some_there p = (Ensures-map_err _ synced-Ensures).at w p
  after_receipts-Ends (err e) w some_there p =
      let (r, w') =
        s.block_sync_store.mark_block_receipts_sync_failed s.chain_id number (error_text e) w in
      Ends-both (Waiting u g s c chain follows number) r w' (
        writes-Ends (Pending u g s c chain follows number) r (c.table w) w' _ p
          (failed-Pending u g s c chain follows number (c.table w) (c.table w') (error_text e)
            some_there p)
          (c.failed_writes s.chain_id number (error_text e) w))

  sync_receipts-Ensures :
      (chain number).transactions ≢ []
      → Ensures
          (Waiting u g s c chain follows number)
          (sync_receipts u g s number)
          (λ _. Ended u g s c chain follows number)
          (Waiting u g s c chain follows number)
  unfolding sync_receipts
  sync_receipts-Ensures some_there = record {
    at = λ w p.
        let (r, w') = s.block_receipt_syncer.sync_block_transaction_receipts number w in
        after_receipts-Ends r w' some_there (rw (c.receipts_keep number w) p);
  }

  -- The row as it is inserted.
  abbrev inserted : List Transaction → Block
  inserted txs = with_sync_state u g s (to_block_model g s.chain_id (chain number)) txs

  insert-Ensures :
      (txs : List Transaction) (Q : BlockTable → Type 0)
      → ((t t' : BlockTable)
          → Pending u g s c chain follows number t
          → Inserted (inserted txs) t t'
          → Q t')
      → Ensures
          (Waiting u g s c chain follows number)
          (s.block_sync_store.insert_block_with_transactions (inserted txs) txs)
          (λ _ w. Q (c.table w))
          (Waiting u g s c chain follows number)
  insert-Ensures txs Q change = record {
    at = λ w p.
        let (r, w') = s.block_sync_store.insert_block_with_transactions (inserted txs) txs w in
        writes-Ends Q r (c.table w) w' _ p (change (c.table w) (c.table w') p)
          (c.insert_writes (inserted txs) txs w);
  }

  write-Ensures :
      (txs : List Transaction)
      → build_transaction_models_from_block u g s (chain number) ≡ ok txs
      → Ensures
          (Waiting u g s c chain follows number)
          (insert_and_mark u g s number (to_block_model g s.chain_id (chain number)) txs)
          (λ _. Ended u g s c chain follows number)
          (Waiting u g s c chain follows number)
  unfolding insert_and_mark to_block_model build_transaction_models_from_block
  write-Ensures [] built =
      let empty = built-empty u g s (chain number) 0 (chain number).transactions built in
      Ensures-bind
        (Ensures-map_err _ (
          insert-Ensures [] (Settled u g s c chain follows number) (λ t t' p change.
            insert_empty-Settled u g s c chain follows number t t' (inserted []) p refl
              (follows.numbered number) refl empty (refl, inl (refl, refl, refl)) (refl, refl, refl)
              change)))
        (λ _. Ensures-pure tt (λ w q. q))
  write-Ensures (row ∷ rows) built =
      let some_there =
        built-some u g s (chain number) 0 (chain number).transactions row rows built in
      Ensures-bind
        (Ensures-map_err _ (
          insert-Ensures (row ∷ rows) (Pending u g s c chain follows number) (λ t t' p change.
            insert_some-Pending u g s c chain follows number t t' (inserted (row ∷ rows)) p refl
              (follows.numbered number) refl some_there (refl, inr (inl (refl, refl, refl))) refl
              change)))
        (λ _. sync_receipts-Ensures some_there)

  fetched-Ends :
      (r : Result EthBlock) (w : W)
      → ((b : EthBlock) → r ≡ ok b → b ≡ chain number)
      → Waiting u g s c chain follows number w
      → Ends
          (λ b w. Waiting u g s c chain follows number w × (b ≡ chain number))
          (Waiting u g s c chain follows number)
          r
          w
  fetched-Ends (ok b) w own p = (p, own b refl)
  fetched-Ends (err e) w own p = p

  fetch-Ensures :
      Ensures
        (Waiting u g s c chain follows number)
        (s.chain_block_reader.get_block_by_number number)
        (λ b w. Waiting u g s c chain follows number w × (b ≡ chain number))
        (Waiting u g s c chain follows number)
  fetch-Ensures = record {
    at = λ w p.
        let (r, w') = s.chain_block_reader.get_block_by_number number w in
        fetched-Ends r w' (follows.gives number w) (rw (c.node_keeps number w) p);
  }

  pub run-Ensures :
      Ensures
        (Waiting u g s c chain follows number)
        (sync_block_to_db u g s number)
        (λ _. Ended u g s c chain follows number)
        (Waiting u g s c chain follows number)
  unfolding sync_block_to_db get_raw_block_by_number
  run-Ensures = Ensures-bind (Ensures-map_err _ fetch-Ensures) (λ block. Ensures-given (λ same.
      rw same (
        Ensures-bind
          (Keeps-Ensures (Pending u g s c chain follows number)
            (validate_block_for_sync-Keeps u g s c (to_block_model g s.chain_id (chain number))))
          (λ _.
            Ensures-bind
              (Ensures-lift
                {Q = λ txs w.
                  Waiting u g s c chain follows number w
                  × (build_transaction_models_from_block u g s (chain number) ≡ ok txs)}
                (build_transaction_models_from_block u g s (chain number)) (λ txs e w p. (p, e))
                (λ w p. p))
              (λ txs. Ensures-given (λ built.
                Ensures-bind
                  (Ensures-map_err _ (
                    Keeps-Ensures (Pending u g s c chain follows number)
                      (validate_transactions-Keeps u g s c txs)))
                  (λ _. write-Ensures txs built)))))))

  apart :
      (r : Result (Unit {0})) (w : W)
      → Ends (λ _. Ended u g s c chain follows number) (Waiting u g s c chain follows number) r w
      → Mirrors g s chain (c.table w)
        × Ends
            (λ _ w. Completed g s chain number (c.table w))
            (λ w. Open g s chain number (c.table w))
            r
            w
  apart (ok _) w h = h
  apart (err e) w h = h

-- The node answers from a chain of numbered blocks with distinct hashes, the stored blocks are those of
-- that chain with consistent columns, completed where they have no transactions, and the block's row, when there is one, has no receipts yet. Then
-- a success of `SyncBlockToDB` leaves the row of the block stored and completed, under the hash of the
-- node's block; a failure leaves no row of it that claims the receipts; and either way the stored blocks
-- are still those of the chain.
pub sync_block_to_db-Settles :
    {W : Type 0} (u : Unicode) (g : Geth) (s : BlockService W) (c : StoreContract s)
    (chain : ℕ → EthBlock) (number : ℕ) (w : W)
    → Follows g s chain
    → Mirrors g s chain (c.table w)
    → Open g s chain number (c.table w)
    → let (r, w') = sync_block_to_db u g s number w in
      Mirrors g s chain (c.table w')
      × Ends
          (λ _ w. Completed g s chain number (c.table w))
          (λ w. Open g s chain number (c.table w))
          r
          w'
sync_block_to_db-Settles u g s c chain number w follows mirrors waits =
    let (r, w') = sync_block_to_db u g s number w in
    apart u g s c chain follows number r w'
      ((run-Ensures u g s c chain follows number).at w (mirrors, waits))
