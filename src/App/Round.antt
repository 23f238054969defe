-- ===== src/App/Round.antt =====
-- A round of the wired indexer on the rows of the blocks.
use block_explorer_backend.Prelude.{
  ℕ, ◌+◌, ◌<◌, ◌≡◌, ◌≢◌, refl, ◌∙◌, ap, true, not, some, arith, Among,
}
use block_explorer_backend.Prelude.Int.{eqb_ℤ_iff, two_64}
use block_explorer_backend.Text.{Unicode}
use block_explorer_backend.Ethereum.{EthBlock, Geth}
use block_explorer_backend.Effect.{Result, ok, err}
use block_explorer_backend.Effect.Ensures.{
  Ends, Ends-both, Ensures, Ensures-pure, Ensures-if, Ensures-map_err, Ensures-bind, Ensures-given,
  on_error-eq-ok,
}
use block_explorer_backend.Effect.Keeps.{always}
use block_explorer_backend.Models.{Block}
use block_explorer_backend.Config.{Config}
use block_explorer_backend.Dto.{IndexerStatus}
use block_explorer_backend.Gorm.{Database}
use block_explorer_backend.Gorm.Contract.{DatabaseContract}
use block_explorer_backend.Rpc.{EthClient, block_by_number}
use block_explorer_backend.BlockService.{sync_block_to_db}
use block_explorer_backend.BlockService.Local.{sync_block_to_db-AgreeOff}
use block_explorer_backend.Indexer.{
  BlockIndexer, get_next_block_to_sync, run_from, run_indexer_once,
}
use block_explorer_backend.Repo.Blocks.{fully_synced}
use block_explorer_backend.Repo.Blocks.Table.{table_of, table_of-Among}
use block_explorer_backend.App.Wiring.{block_service, block_indexer}
use block_explorer_backend.App.Keeps.{NodeContract}
use block_explorer_backend.App.ReadOnly.{get_next_block_to_sync-Keeps}
use block_explorer_backend.App.Contracts.{store_contract}
use block_explorer_backend.App.Next.{IsNext, get_next_block_to_sync-IsNext}

module _ {W : Type 0} (u : Unicode) (g : Geth) (db : Database W) (client : EthClient W)
    (cfg : Config) (d : DatabaseContract db) (node : NodeContract client db d)
    (named : (n : ℕ) (w : W) (b : EthBlock) → (client.block_by_number n w).0 ≡ ok b → b.number ≡ n)
    (w : W) (small : (x : Block) → Among x (d.blocks w) → x.number + 1 < two_64) where
  abbrev indexer : BlockIndexer W
  indexer = block_indexer u g db client cfg

  -- Every row that was fully synced is at its place as it was.
  abbrev Safe : W → Type 0
  Safe w' =
      (x : Block)
      → Among x (d.blocks w)
      → fully_synced cfg.rpc.chain_id x ≡ true
      → table_of (d.blocks w') cfg.rpc.chain_id x.number ≡ some x

  abbrev Same : W → Type 0
  Same w' = d.blocks w' ≡ d.blocks w

  Same-Safe : (w' : W) → Same w' → Safe w'
  Same-Safe w' same x i synced =
      let chain : x.chain_id ≡ cfg.rpc.chain_id =
        ground (arith, eqb_ℤ_iff x.chain_id cfg.rpc.chain_id) in
      rw (same, ← chain) (table_of-Among (d.blocks w) x (d.block_table.unique w) i)

  named_service :
      (n : ℕ) (w : W) (b : EthBlock) → (block_by_number g client n w).0 ≡ ok b → b.number ≡ n
  unfolding block_by_number
  named_service n w b h = named n w b (on_error-eq-ok _ (client.block_by_number n w).0 b h)

  -- A synchronisation of a block above every fully synced one.
  sync-Safe :
      (n : ℕ)
      → IsNext cfg.rpc.chain_id cfg.indexer.start_block (d.blocks w) n
      → (w' : W) → Same w'
      → Safe (sync_block_to_db u g (block_service u g db client cfg) n w').1
  sync-Safe n next w' same x i synced =
      let agree =
        sync_block_to_db-AgreeOff u g (block_service u g db client cfg)
          (store_contract u g db client cfg d node) n w' (named_service n) in
      let below = next.passes x i synced in
      let other : x.number ≢ n = λ e. absurd (omega arith) in
      agree.same cfg.rpc.chain_id x.number other ∙ Same-Safe w' same x i synced

  synced-Ensures :
      (n : ℕ)
      → IsNext cfg.rpc.chain_id cfg.indexer.start_block (d.blocks w) n
      → Ensures Same (sync_block_to_db u g (block_service u g db client cfg) n) (λ _. Safe) Safe
  synced-Ensures n next = record { at = λ w' same. always Safe _ _ (sync-Safe n next w' same) }

  run_from-Ensures :
      (status : IndexerStatus)
      → IsNext cfg.rpc.chain_id cfg.indexer.start_block (d.blocks w) status.next
      → Ensures Same (run_from indexer status) (λ _. Safe) Safe
  run_from-Ensures status next =
      Ensures-if (not status.should_sync) (λ _. Ensures-pure _ Same-Safe)
        (λ _.
          Ensures-bind (Ensures-map_err _ (synced-Ensures status.next next))
            (λ _. Ensures-pure _ (λ w' safe. safe)))

  status-Ends :
      (r : Result IndexerStatus) (w' : W)
      → Same w'
      → ((status : IndexerStatus)
          → r ≡ ok status
          → IsNext cfg.rpc.chain_id cfg.indexer.start_block (d.blocks w) status.next)
      → Ends
          (λ status w'.
            Same w' × IsNext cfg.rpc.chain_id cfg.indexer.start_block (d.blocks w) status.next)
          Safe
          r
          w'
  status-Ends (ok status) w' same next = (same, next status refl)
  status-Ends (err e) w' same next = Same-Safe w' same

  status-Ensures :
      Ensures
        (λ w'. w' ≡ w)
        (get_next_block_to_sync indexer)
        (λ status w'.
          Same w' × IsNext cfg.rpc.chain_id cfg.indexer.start_block (d.blocks w) status.next)
        Safe
  status-Ensures = record {
    at = λ w' here. rw here (
        status-Ends (get_next_block_to_sync indexer w).0 (get_next_block_to_sync indexer w).1
          (ap (λ rows. rows.0) ((get_next_block_to_sync-Keeps u g db client cfg d node).at w))
          (λ status e. get_next_block_to_sync-IsNext u g db client cfg d w status small e));
  }

  run_indexer_once-Ensures : Ensures (λ w'. w' ≡ w) (run_indexer_once indexer) (λ _. Safe) Safe
  unfolding run_indexer_once
  run_indexer_once-Ensures =
      Ensures-bind (Ensures-map_err _ status-Ensures)
        (λ status. Ensures-given (λ next. run_from-Ensures status next))

-- However a round of the wired indexer ends, every fully synced block of the chain keeps its row as it
-- was: if the node gives blocks of the asked number, and the stored numbers are below the largest uint64.
pub run_indexer_once_keeps_synced :
    {W : Type 0} (u : Unicode) (g : Geth) (db : Database W) (client : EthClient W) (cfg : Config)
    (d : DatabaseContract db) (node : NodeContract client db d) (w : W) (x : Block)
    → ((n : ℕ) (w : W) (b : EthBlock) → (client.block_by_number n w).0 ≡ ok b → b.number ≡ n)
    → ((x : Block) → Among x (d.blocks w) → x.number + 1 < two_64)
    → Among x (d.blocks w)
    → fully_synced cfg.rpc.chain_id x ≡ true
    → table_of
        (d.blocks (run_indexer_once (block_indexer u g db client cfg) w).1)
        cfg.rpc.chain_id
        x.number
      ≡ some x
run_indexer_once_keeps_synced u g db client cfg d node w x named small i synced =
    Ends-both
      (λ w'.
        (y : Block)
        → Among y (d.blocks w)
        → fully_synced cfg.rpc.chain_id y ≡ true
        → table_of (d.blocks w') cfg.rpc.chain_id y.number ≡ some y)
      (run_indexer_once (block_indexer u g db client cfg) w).0
      (run_indexer_once (block_indexer u g db client cfg) w).1
      ((run_indexer_once-Ensures u g db client cfg d node named w small).at w refl) x i synced
