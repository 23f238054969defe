-- ===== src/Examples/Blocks.antt =====
-- A database in memory for `BlockService`, and its chain.
use block_explorer_backend.Prelude.{ℕ, ◌≡◌, ◌↔◌, refl, inl, inr, Option, none, some, arith}
use block_explorer_backend.Prelude.Int.{ℤ, pos}
use block_explorer_backend.Errors.{errorf}
use block_explorer_backend.Effect.{ok, err, Io, pure}
use block_explorer_backend.Models.{Block}
use block_explorer_backend.BlockService.{validate_block_for_sync, sync_block_to_db}
use block_explorer_backend.BlockService.Interfaces.{BlockService}
use block_explorer_backend.BlockService.Contract.{
  BlockTable, write_at, marked_synced, marked_failed, Inserted, Updated, Writes, StoreContract,
}
use block_explorer_backend.BlockService.Link.{IsLinked, Extends, validate_block_for_sync_iff}
use block_explorer_backend.BlockService.Chain.Sync.{
  sync_block_to_db-IsLinked, sync_block_to_db-IsLinked-shared, sync_block_to_db-Respects,
  Respects-none,
}
use block_explorer_backend.BlockService.Shared.{shared, Grows}
use block_explorer_backend.Mapper.{to_block_model}
use block_explorer_backend.BlockService.Local.{AgreeOff, sync_block_to_db-AgreeOff}
use block_explorer_backend.Examples.Common.{
  eth_block-number, ok-injective, plain, geth, eth_block, genesis,
}

-- The outcome of an insertion and of an update, by the row that is there.
abbrev insert_at : Option Block → Block → Io BlockTable (Unit {0})
insert_at (some old) b t = (ok tt, t)
insert_at none b t = (ok tt, write_at b.chain_id b.number b t)

abbrev update_at : (Block → Block) → ℤ → ℕ → Option Block → Io BlockTable (Unit {0})
update_at f c n none t = (err (errorf "no row"), t)
update_at f c n (some old) t = (ok tt, write_at c n (f old) t)

abbrev pub service : BlockService BlockTable
service = record {
  chain_id = pos 1;
  chain_block_reader = record { get_block_by_number = λ n. pure (eth_block n) };
  block_sync_store = record {
    get_block_by_number = λ c n t. (ok (t c n), t);
    insert_block_with_transactions = λ b txs t. insert_at (t b.chain_id b.number) b t;
    mark_block_receipts_synced = λ c n t. update_at marked_synced c n (t c n) t;
    mark_block_receipts_sync_failed =
        λ c n reason t. update_at (marked_failed reason) c n (t c n) t;
  };
  block_receipt_syncer = record { sync_block_transaction_receipts = λ n. pure tt };
  transaction_conflict_reader = record {
    get_transactions_by_hashes = λ c hashes. pure (λ h. none);
  };
  start_block = 0;
}

abbrev pub stored : BlockTable
stored = write_at (pos 1) 0 genesis (λ c n. none)

insert_at-Writes :
    (found : Option Block) (b : Block) (t : BlockTable)
    → t b.chain_id b.number ≡ found
    → let (r, t') = insert_at found b t in Writes r t t' (Inserted b t t')
insert_at-Writes (some old) b t e = inl (inl (old, e), refl)
insert_at-Writes none b t e = inr (e, refl)

update_at-Writes :
    (f : Block → Block) (c : ℤ) (n : ℕ) (found : Option Block) (t : BlockTable)
    → t c n ≡ found
    → let (r, t') = update_at f c n found t in Writes r t t' (Updated f c n t t')
update_at-Writes f c n none t e = refl
update_at-Writes f c n (some old) t e = (old, e, refl)

abbrev contract : StoreContract service
contract = record {
  table = λ t. t;
  node_keeps = λ n t. refl;
  read_keeps = λ c n t. refl;
  read_finds = λ c n t found e. ok-injective (t c n) found e;
  conflicts_keep = λ c hashes t. refl;
  receipts_keep = λ n t. refl;
  insert_writes = λ b txs t. insert_at-Writes (t b.chain_id b.number) b t refl;
  synced_writes = λ c n t. update_at-Writes marked_synced c n (t c n) t refl;
  failed_writes = λ c n reason t. update_at-Writes (marked_failed reason) c n (t c n) t refl;
}

stored-IsLinked : IsLinked plain service stored
stored-IsLinked = record { parent_of = λ n b e other. ground arith }

-- The chain after a synchronisation of block 1.
block_1-IsLinked : IsLinked plain service (sync_block_to_db plain geth service 1 stored).1
block_1-IsLinked = sync_block_to_db-IsLinked plain geth service contract 1 stored stored-IsLinked

-- The synchronisation of block 2, while another one of block 1 runs between its calls.
abbrev other_sync : BlockTable → BlockTable
other_sync t = (sync_block_to_db plain geth service 1 t).1

sync_block_to_db-IsLinked-shared_example :
    let t' = (sync_block_to_db plain geth (shared other_sync service) 2 stored).1 in
    IsLinked plain service t' × Grows plain service stored t'
sync_block_to_db-IsLinked-shared_example =
    sync_block_to_db-IsLinked-shared plain geth service contract other_sync 2 stored
      (sync_block_to_db-Respects plain geth service contract (λ t. t) 1
        (Respects-none plain service (λ t. t)))
      stored-IsLinked

validate_block_for_sync_iff_example :
    ((validate_block_for_sync plain geth service
        (to_block_model geth (pos 1) (eth_block 1))
        stored).0
      ≡ ok tt)
    ↔ Extends plain service stored (to_block_model geth (pos 1) (eth_block 1))
validate_block_for_sync_iff_example =
    validate_block_for_sync_iff plain geth service contract (λ n t. refl)
      (to_block_model geth (pos 1) (eth_block 1)) stored

sync_block_to_db-AgreeOff_example :
    AgreeOff 1 stored (sync_block_to_db plain geth service 1 stored).1
sync_block_to_db-AgreeOff_example =
    sync_block_to_db-AgreeOff plain geth service contract 1 stored (λ w b e. eth_block-number 1 b e)
