-- ===== src/BlockService/Defs.antt =====
-- The methods of `BlockService`, but for the synchronisation of a range.
use block_explorer_backend.Prelude.{
  ℕ, ◌+◌, ◌-◌, Bool, true, false, not, ◌||◌, Option, none, some, List, [], ◌∷◌, map, ltb, ◌==◌,
  is_empty, if◌then◌else◌,
}
use block_explorer_backend.Text.{Text, Unicode, equal_fold}
use block_explorer_backend.Errors.{
  GoError, sentinel, wrapf, errors_is, error_text, block_not_found, reorg_detected,
  chain_discontinuity, chain_data_conflict,
}
use block_explorer_backend.Effect.{Result, ok, err, Io, pure, lift, ◌>>=◌, ◌>>◌, map_err, context}
use block_explorer_backend.Ethereum.{EthTransaction, EthBlock, Geth, recover_sender}
use block_explorer_backend.Models.{
  Block, Transaction, BlockQueryResult, transactions_synced, completed,
}
use block_explorer_backend.Mapper.{
  map_block_entity_to_query_result, map_rpc_block_to_query_result, to_block_model,
  to_transaction_model,
}
use block_explorer_backend.BlockService.Interfaces.{BlockService}

module _ {W : Type 0} (u : Unicode) (g : Geth) (s : BlockService W) where
  open s use {
    chain_id, chain_block_reader, block_sync_store, block_receipt_syncer,
    transaction_conflict_reader, start_block,
  }

  unfoldable pub get_raw_block_by_number : ℕ → Io W EthBlock
  get_raw_block_by_number number = chain_block_reader.get_block_by_number number

  -- The error of the node, as `GetBlockByNumber` passes it on.
  abbrev pub block_query_error : GoError → GoError
  block_query_error e =
      if errors_is e block_not_found
      then sentinel block_not_found
      else wrapf "get block detail by number: " e

  unfoldable pub get_block_by_number : ℕ → Io W BlockQueryResult
  unfolding get_raw_block_by_number
  get_block_by_number number = do
    found ← context "get block from db: " (block_sync_store.get_block_by_number chain_id number)
    elim found [
      | some db_block ↦ pure (map_block_entity_to_query_result db_block)
      | none ↦ do
        rpc_block ← map_err block_query_error (get_raw_block_by_number number)
        pure (map_rpc_block_to_query_result g chain_id rpc_block)
    ]

  -- The verdict on a block whose number is stored already.
  abbrev pub check_existing : Block → Block → Result (Unit {0})
  check_existing existing b =
      if equal_fold u existing.hash b.hash
      then ok tt
      else err (wrapf "reorg detected at block: " (sentinel reorg_detected))

  -- The verdict by the parent's row.
  abbrev pub check_parent : Option Block → Block → Result (Unit {0})
  check_parent none b =
      if b.number == start_block
      then ok tt
      else err (wrapf "parent block missing: " (sentinel chain_discontinuity))
  check_parent (some parent) b =
      if not (equal_fold u b.parent_hash parent.hash)
      then err (wrapf "chain discontinuity at block: " (sentinel chain_discontinuity))
      else ok tt

  -- What follows the look-up of the block's number.
  abbrev pub validate_found : Option Block → Block → Io W (Unit {0})
  validate_found (some existing) b = lift (check_existing existing b)
  validate_found none b =
      if ltb 0 b.number
      then (do
        parent ←
            context "query parent block from db: "
              (block_sync_store.get_block_by_number chain_id (b.number - 1))
        lift (check_parent parent b))
      else pure tt

  unfoldable pub validate_block_for_sync : Block → Io W (Unit {0})
  validate_block_for_sync b = do
    found ← context "query block from db: " (block_sync_store.get_block_by_number chain_id b.number)
    validate_found found b

  -- The loop of `buildTransactionModelsFromBlock`, from index `i`.
  unfoldable pub build_transaction_models_from :
      EthBlock → ℕ → List EthTransaction → Result (List Transaction)
  build_transaction_models_from b i [] = ok []
  build_transaction_models_from b i (tx ∷ txs) = elim (recover_sender g chain_id (some tx)) [
    | err e ↦ err (wrapf "recover sender for tx: " e)
    | ok from ↦ elim (build_transaction_models_from b (i + 1) txs) [
      | err e ↦ err e
      | ok models ↦ ok (to_transaction_model u g chain_id b tx i from ∷ models)
    ]
  ]

  unfoldable pub build_transaction_models_from_block : EthBlock → Result (List Transaction)
  build_transaction_models_from_block b = build_transaction_models_from b 0 b.transactions

  -- A stored row that is at another place of the chain than the new one.
  abbrev pub differs : Transaction → Transaction → Bool
  differs old new =
      not (old.block_number == new.block_number)
      || not (equal_fold u old.block_hash new.block_hash)
      || not (old.tx_index == new.tx_index)

  unfoldable pub check_conflicts :
      (Text → Option Transaction) → List Transaction → Result (Unit {0})
  check_conflicts existing [] = ok tt
  check_conflicts existing (tx ∷ txs) =
      let rest = check_conflicts existing txs in
      elim (existing tx.hash) [
        | none ↦ rest
        | some old ↦
            if differs old tx
            then err (wrapf "transaction conflict: " (sentinel chain_data_conflict))
            else rest
      ]

  unfoldable pub validate_transactions_for_sync : List Transaction → Io W (Unit {0})
  validate_transactions_for_sync txs = if is_empty txs then pure tt else do
    existing ←
        context "query existing transactions by hashes: " (
          transaction_conflict_reader.get_transactions_by_hashes chain_id (map (λ tx. tx.hash) txs))
    lift (check_conflicts existing txs)

  -- The flags that the block is inserted with.
  abbrev pub with_sync_state : Block → List Transaction → Block
  with_sync_state b [] = record b {
    transactions_synced = true;
    receipts_synced = true;
    sync_status = completed;
  }
  with_sync_state b (tx ∷ txs) = record b {
    transactions_synced = true;
    receipts_synced = false;
    sync_status = transactions_synced;
  }

  -- The error of the receipts, once the mark of the failure has been tried.
  abbrev pub after_failed_mark : GoError → Result (Unit {0}) → GoError
  after_failed_mark e (ok _) = wrapf "sync receipts for block: " e
  after_failed_mark e (err mark_err) =
      wrapf "sync receipts for block failed; additionally failed to mark receipts sync failed: " e

  -- The mark that the receipts leave on their block.
  abbrev pub after_receipts : ℕ → Result (Unit {0}) → Io W (Unit {0})
  after_receipts number (ok _) =
      context "mark block receipts synced: "
        (block_sync_store.mark_block_receipts_synced chain_id number)
  after_receipts number (err e) = λ w.
      let (m, w') =
        block_sync_store.mark_block_receipts_sync_failed chain_id number (error_text e) w in
      (err (after_failed_mark e m), w')

  -- The receipts of an inserted block.
  unfoldable pub sync_receipts : ℕ → Io W (Unit {0})
  sync_receipts number w =
      let (r, w') = block_receipt_syncer.sync_block_transaction_receipts number w in
      after_receipts number r w'

  -- The writes of `SyncBlockToDB`, once the block and its transactions have been checked.
  unfoldable pub insert_and_mark : ℕ → Block → List Transaction → Io W (Unit {0})
  insert_and_mark number model txs = do
    context "insert block into db: "
        (block_sync_store.insert_block_with_transactions (with_sync_state model txs) txs)
    if is_empty txs then pure tt else sync_receipts number

  unfoldable pub sync_block_to_db : ℕ → Io W (Unit {0})
  sync_block_to_db number = do
    block ← context "fetch block from rpc: " (get_raw_block_by_number number)
    let model = to_block_model g chain_id block
    validate_block_for_sync model
    txs ← lift (build_transaction_models_from_block block)
    context "validate transactions for block: " (validate_transactions_for_sync txs)
    insert_and_mark number model txs
