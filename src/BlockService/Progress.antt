-- ===== src/BlockService/Progress.antt =====
-- A run of `SyncBlockToDB` of internal/service/block_service.go that meets no failure.
pub mod Steps
pub mod Writes
use block_explorer_backend.Prelude.{ℕ, ◌-◌, ◌≡◌, refl, ap, some, List, map}
use block_explorer_backend.Text.{Unicode}
use block_explorer_backend.Ethereum.{EthBlock, Geth}
use block_explorer_backend.Effect.{Result, ok, err, map_err, lift}
use block_explorer_backend.Effect.Ensures.{
  Ends, Ensures, Ensures-map_err, Ensures-bind, Ensures-given,
}
use block_explorer_backend.Effect.Keeps.{Never}
use block_explorer_backend.Models.{Block, Transaction}
use block_explorer_backend.Mapper.{to_block_model}
use block_explorer_backend.BlockService.Interfaces.{BlockService}
use block_explorer_backend.BlockService.Contract.{BlockTable, StoreContract}
use block_explorer_backend.BlockService.States.{IsCompleted}
use block_explorer_backend.BlockService.Defs.{
  get_raw_block_by_number, validate_block_for_sync, build_transaction_models_from_block,
  sync_block_to_db,
}
use block_explorer_backend.BlockService.Progress.Writes.{write-Ensures}
use block_explorer_backend.BlockService.Progress.Steps.{
  Answers, IsNew, Done, told-Ensures, validate_block_for_sync-Ensures,
  validate_transactions-Ensures,
}

module _ {W : Type 0} (u : Unicode) (g : Geth) (s : BlockService W) (c : StoreContract s)
    (number : ℕ) (block : EthBlock) (txs : List Transaction) (t : BlockTable)
    (Before After Received : W → Type 0)
    (answers : Answers u g s c number block txs t Before After Received)
    (built : build_transaction_models_from_block u g s block ≡ ok txs) where
  sync-Ensures :
      block.number ≡ number
      → IsNew u g s c t (to_block_model g s.chain_id block)
      → Ensures Before
          (sync_block_to_db u g s number)
          (λ _. Done u g s c number (to_block_model g s.chain_id block).hash)
          Never
  unfolding sync_block_to_db get_raw_block_by_number
  sync-Ensures here new =
      let model = to_block_model g s.chain_id block in
      Ensures-bind (Ensures-map_err _ (told-Ensures Before Before block _ answers.gives)) (λ b.
        Ensures-given (λ e. rw e (
          Ensures-bind
            (validate_block_for_sync-Ensures u g s c number block txs t Before After Received
              answers model new)
            (λ _.
              Ensures-bind
                (told-Ensures Before Before txs
                  (lift (build_transaction_models_from_block u g s block)) (λ w h. (built, h)))
                (λ txs'. Ensures-given (λ f. rw f (
                  Ensures-bind
                    (Ensures-map_err _ (
                      validate_transactions-Ensures u g s c number block txs t Before After Received
                        answers))
                    (λ _.
                      write-Ensures u g s c number block txs t Before After Received answers here
                        new))))))))

succeeded :
    {W : Type 0} (Q : W → Type 0) (r : Result (Unit {0})) (w : W)
    → Ends (λ _. Q) Never r w
    → (r ≡ ok tt) × Q w
succeeded Q (ok _) w h = (refl, h)
succeeded Q (err e) w h = absurd h

-- If the node gives a block that is new, may follow the stored chain, and has a hash that no stored
-- block has, if its senders are known and its transactions meet no conflict, and if the calls that the
-- run makes of the node, of the store and of the receipts succeed in the worlds that they are made in,
-- then `SyncBlockToDB` succeeds, and the block is stored with its hash and is completed.
pub sync_block_to_db-completes :
    {W : Type 0} (u : Unicode) (g : Geth) (s : BlockService W) (c : StoreContract s) (number : ℕ)
    (block : EthBlock) (txs : List Transaction) (Before After Received : W → Type 0) (w : W)
    → Answers u g s c number block txs (c.table w) Before After Received
    → build_transaction_models_from_block u g s block ≡ ok txs
    → block.number ≡ number
    → IsNew u g s c (c.table w) (to_block_model g s.chain_id block)
    → Before w
    → let (r, w') = sync_block_to_db u g s number w in
      (r ≡ ok tt)
      × (b : Block) × (c.table w' s.chain_id number ≡ some b)
      × (b.hash ≡ g.hash_hex block.hash)
      × IsCompleted b
unfolding to_block_model
sync_block_to_db-completes u g s c number block txs Before After Received w answers built here new
      h =
    let (r, w') = sync_block_to_db u g s number w in
    let (fine, done) =
      succeeded (Done u g s c number (to_block_model g s.chain_id block).hash) r w' (
        (sync-Ensures u g s c number block txs (c.table w) Before After Received answers built here
            new).at
          w h) in
    let (b, stored, hash, state) = done in (fine, b, stored, hash, state)
