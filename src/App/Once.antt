-- ===== src/App/Once.antt =====
-- `RunIndexerOnce` of the wired indexer, against a node whose chain stays as it is.
use block_explorer_backend.App.Keeps.{NodeContract}
use block_explorer_backend.App.Next.{IsNext, get_next_block_to_sync-IsNext}
use block_explorer_backend.App.ReadOnly.{get_next_block_to_sync-Keeps}
use block_explorer_backend.App.Wiring.{block_service, block_indexer}
use block_explorer_backend.BlockService.Outcome.{Follows, Completed}
use block_explorer_backend.Config.{Config}
use block_explorer_backend.Dto.{IndexerStatus, IndexerOnceResult}
use block_explorer_backend.Effect.Ensures.{
  Ends, Ensures, Ensures-pure, Ensures-if, Ensures-map_err, Ensures-bind, Ensures-given,
}
use block_explorer_backend.Effect.{Result, ok, err}
use block_explorer_backend.Ethereum.{EthBlock, Geth}
use block_explorer_backend.Gorm.Contract.{DatabaseContract}
use block_explorer_backend.Gorm.{Database}
use block_explorer_backend.Indexer.Status.{NamesTarget, target-told}
use block_explorer_backend.Indexer.{
  BlockIndexer, get_next_block_to_sync, run_from, run_indexer_once,
}
use block_explorer_backend.Models.{Block}
use block_explorer_backend.Prelude.Int.{two_64}
use block_explorer_backend.Prelude.{
  ℕ, ◌+◌, ◌<◌, ◌≡◌, refl, inl, inr, true, some, arith, Among, ◌≤◌, ap, ◌⊎◌, false, not, none, leb,
  leb→le,
}
use block_explorer_backend.Repo.Blocks.Table.{table_of}
use block_explorer_backend.Rpc.{EthClient}
use block_explorer_backend.Text.{Unicode}
use block_explorer_backend.App.Advance.{Mirrored, Same, Kept, Same-Kept, next_block-Ensures}

module _ {W : Type 0} (u : Unicode) (g : Geth) (db : Database W) (client : EthClient W)
    (cfg : Config) (d : DatabaseContract db) (chain : ℕ → EthBlock) where
  -- A round that answers: the block is the next one by the rows in `w`, the target is the node's, and
  -- it is either below the block, and then nothing is written, or the block is completed
  -- and the one after it is next.
  pub record IsRound (w w' : W) (result : IndexerOnceResult) : Type 0 where
    pub next : IsNext cfg.rpc.chain_id cfg.indexer.start_block (d.blocks w) result.next_to_sync
    pub target : NamesTarget (block_indexer u g db client cfg) w result.rpc_target
    pub mirrors : Mirrored u g db client cfg d chain w'
    pub outcome :
        ((result.rpc_target < result.next_to_sync)
          × (result.synced ≡ false)
          × (result.synced_block ≡ none)
          × (d.blocks w' ≡ d.blocks w))
        ⊎ ((result.next_to_sync ≤ result.rpc_target)
            × (result.synced ≡ true)
            × (result.synced_block ≡ some result.next_to_sync)
            × Completed g
                (block_service u g db client cfg)
                chain
                result.next_to_sync
                (table_of (d.blocks w'))
            × IsNext cfg.rpc.chain_id cfg.indexer.start_block
                (d.blocks w')
                (result.next_to_sync + 1))

module _ {W : Type 0} (u : Unicode) (g : Geth) (db : Database W) (client : EthClient W)
    (cfg : Config) (d : DatabaseContract db) (node : NodeContract client db d)
    (chain : ℕ → EthBlock) (follows : Follows g (block_service u g db client cfg) chain) (w : W)
    (small : (x : Block) → Among x (d.blocks w) → x.number + 1 < two_64)
    (start : Mirrored u g db client cfg d chain w) where
  abbrev indexer : BlockIndexer W
  indexer = block_indexer u g db client cfg

  -- What the status says of the world that the round starts in.
  abbrev Told : IndexerStatus → Type 0
  Told status =
      IsNext cfg.rpc.chain_id cfg.indexer.start_block (d.blocks w) status.next
      × NamesTarget indexer w status.rpc_target
      × (status.should_sync ≡ leb status.next status.rpc_target)

  run_from-Ensures :
      (status : IndexerStatus)
      → Told status
      → Ensures
          (Same u g db client cfg d node chain follows w small start)
          (run_from indexer status)
          (λ result w'. IsRound u g db client cfg d chain w w' result)
          (Kept u g db client cfg d node chain follows w small start)
  run_from-Ensures status (next, target, decided) =
      Ensures-if (not status.should_sync)
        (λ rests. Ensures-pure _ (λ w' same. record {
          next = next;
          target = target;
          mirrors = Same-Kept u g db client cfg d node chain follows w small start w' same;
          outcome = inl (ground arith, refl, refl, same);
        }))
        (λ goes.
          Ensures-bind
            (Ensures-map_err _ (
              next_block-Ensures u g db client cfg d node chain follows w small start status.next
                next))
            (λ _. Ensures-pure _ (λ w' (kept, (done, after)). record {
              next = next;
              target = target;
              mirrors = kept;
              outcome =
                  inr
                    (leb→le status.next status.rpc_target (ground arith), refl, refl, done, after);
            })))

  status-Ends :
      (r : Result IndexerStatus) (w' : W)
      → Same u g db client cfg d node chain follows w small start w'
      → ((status : IndexerStatus) → r ≡ ok status → Told status)
      → Ends
          (λ status w'. Same u g db client cfg d node chain follows w small start w' × Told status)
          (Kept u g db client cfg d node chain follows w small start)
          r
          w'
  status-Ends (ok status) w' same told = (same, told status refl)
  status-Ends (err e) w' same told =
      Same-Kept u g db client cfg d node chain follows w small start w' same

  status-Ensures :
      Ensures
        (λ w'. w' ≡ w)
        (get_next_block_to_sync indexer)
        (λ status w'. Same u g db client cfg d node chain follows w small start w' × Told status)
        (Kept u g db client cfg d node chain follows w small start)
  status-Ensures = record {
    at = λ w' here. rw here (
        status-Ends (get_next_block_to_sync indexer w).0 (get_next_block_to_sync indexer w).1
          (ap (λ rows. rows.0) ((get_next_block_to_sync-Keeps u g db client cfg d node).at w))
          (λ status e.
            let (target, decided) = target-told indexer w status e in
            (get_next_block_to_sync-IsNext u g db client cfg d w status small e, target, decided)));
  }

  once-Ensures :
      Ensures
        (λ w'. w' ≡ w)
        (run_indexer_once indexer)
        (λ result w'. IsRound u g db client cfg d chain w w' result)
        (Kept u g db client cfg d node chain follows w small start)
  unfolding run_indexer_once
  once-Ensures =
      Ensures-bind (Ensures-map_err _ status-Ensures)
        (λ status. Ensures-given (λ told. run_from-Ensures status told))

-- The node answers from a chain of numbered blocks with distinct hashes, the stored blocks are those of
-- that chain with consistent columns, completed where they have no transactions, and their numbers are
-- below the largest uint64. Then a round of the
-- wired indexer that answers names the next block by the stored rows and the node's target; if the target
-- is below the block nothing is written, and else the block is reported as copied, its row is stored and
-- completed, and the next block by the stored rows is the following one. However the round ends, the stored blocks are still
-- those of the chain.
pub run_indexer_once-IsRound :
    {W : Type 0} (u : Unicode) (g : Geth) (db : Database W) (client : EthClient W) (cfg : Config)
    (d : DatabaseContract db) (node : NodeContract client db d) (chain : ℕ → EthBlock) (w : W)
    → Follows g (block_service u g db client cfg) chain
    → ((x : Block) → Among x (d.blocks w) → x.number + 1 < two_64)
    → Mirrored u g db client cfg d chain w
    → let (r, w') = run_indexer_once (block_indexer u g db client cfg) w in
      Ends
        (λ result w'. IsRound u g db client cfg d chain w w' result)
        (Mirrored u g db client cfg d chain)
        r
        w'
run_indexer_once-IsRound u g db client cfg d node chain w follows small mirrors =
    (once-Ensures u g db client cfg d node chain follows w small mirrors).at w refl
