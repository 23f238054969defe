-- ===== src/Examples/Memory.antt =====
-- A database of two tables in memory, a node that answers every call, and what the program relies on
-- of both.
use block_explorer_backend.Prelude.{◌≡◌, refl, ap, true, false, some, List, [], ◌∷◌}
use block_explorer_backend.Prelude.Int.{pos}
use block_explorer_backend.Text.{codes}
use block_explorer_backend.Errors.{GoError}
use block_explorer_backend.Effect.{Result, ok, err, pure}
use block_explorer_backend.Effect.Keeps.{Keeps-pure}
use block_explorer_backend.Models.{Block, Transaction}
use block_explorer_backend.Gorm.{Database}
use block_explorer_backend.Gorm.Contract.{DatabaseContract, block_conflict, transaction_conflict}
use block_explorer_backend.Rpc.{EthClient}
use block_explorer_backend.App.Keeps.{NodeContract}
use block_explorer_backend.Examples.Common.{eth_block, eth_transaction, receipt_of, genesis, row}
use block_explorer_backend.Examples.Memory.Rows.{is_unique}
use block_explorer_backend.Examples.Memory.Tables.{memory_table, memory_contract}
pub mod Rows
pub mod Tables

pub record World : Type 0 where
  pub blocks : List Block
  pub transactions : List Transaction
  pub blocks_unique : is_unique block_conflict blocks ≡ true
  pub transactions_unique : is_unique transaction_conflict transactions ≡ true

-- A failed transaction leaves the world as it was.
abbrev pub settle : World → Result (Unit {0}) → World → Result (Unit {0}) × World
settle w (ok a) w' = (ok a, w')
settle w (err e) w' = (err e, w)

abbrev put_blocks : (new : List Block) → is_unique block_conflict new ≡ true → World → World
put_blocks new e w = record w { blocks = new; blocks_unique = e }

abbrev put_transactions :
    (new : List Transaction) → is_unique transaction_conflict new ≡ true → World → World
put_transactions new e w = record w { transactions = new; transactions_unique = e }

abbrev pub memory : Database World
memory = record {
  blocks = memory_table (λ w. w.blocks) (λ w. w.transactions) block_conflict put_blocks;
  transactions =
      memory_table (λ w. w.transactions) (λ w. w.blocks) transaction_conflict put_transactions;
  transaction = λ body w. let (r, w') = body w in settle w r w';
}

pub settle-commits :
    (w : World) (r : Result (Unit {0})) (w' : World)
    → (settle w r w').0 ≡ ok tt
    → (r ≡ ok tt) × ((settle w r w').1 ≡ w')
settle-commits w (ok a) w' h = (h, refl)
settle-commits w (err e) w' h = absurd (cc)

pub settle-rolls_back :
    (w : World) (r : Result (Unit {0})) (w' : World) (e : GoError)
    → (settle w r w').0 ≡ err e
    → (settle w r w').1 ≡ w
settle-rolls_back w (ok a) w' e h = absurd (cc)
settle-rolls_back w (err x) w' e h = refl

abbrev pub memory_database : DatabaseContract memory
memory_database = record {
  blocks = λ w. w.blocks;
  transactions = λ w. w.transactions;
  block_table =
      memory_contract (λ w. w.blocks) (λ w. w.transactions) block_conflict put_blocks
        (λ w. w.blocks_unique) (λ new e w. (refl, refl));
  transaction_table =
      memory_contract (λ w. w.transactions) (λ w. w.blocks) transaction_conflict put_transactions
        (λ w. w.transactions_unique) (λ new e w. (refl, refl));
  commits = λ body w h.
      let (r, w') = body w in
      let (done, after) = settle-commits w r w' h in
      (w, refl, refl, done, ap (λ x. x.blocks) after, ap (λ x. x.transactions) after);
  rolls_back = λ body w e h.
      let (r, w') = body w in
      let before = settle-rolls_back w r w' e h in
      (ap (λ x. x.blocks) before, ap (λ x. x.transactions) before);
}

-- The chain of the examples; its latest blocks are asked for by tag.
abbrev pub node : EthClient World
node = record {
  block_by_number = λ n. pure (eth_block n);
  block_number = pure 5;
  chain_id = pure (pos 1);
  header_by_tag = λ tag. pure (some (codes "0x5"));
  transaction_by_hash = λ h. pure (eth_transaction h, false);
  transaction_receipt = λ h. pure (receipt_of h);
  balance_at = λ a. pure 10;
  nonce_at = λ a. pure 1;
  code_at = λ a. pure [];
}

abbrev pub node_keeps : NodeContract node memory memory_database
node_keeps = record {
  block_keeps = λ n. Keeps-pure _;
  chain_keeps = Keeps-pure _;
  header_keeps = λ tag. Keeps-pure _;
  transaction_keeps = λ h. Keeps-pure _;
  receipt_keeps = λ h. Keeps-pure _;
  balance_keeps = λ a. Keeps-pure _;
  nonce_keeps = λ a. Keeps-pure _;
  code_keeps = λ a. Keeps-pure _;
}

-- The genesis block and one row of a transaction.
abbrev pub seeded : World
seeded = record {
  blocks = genesis ∷ [];
  transactions = row 201 ∷ [];
  blocks_unique = refl;
  transactions_unique = refl;
}
