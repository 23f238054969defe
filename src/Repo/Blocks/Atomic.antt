-- ===== src/Repo/Blocks/Atomic.antt =====
-- `InsertBlockWithTransactions` on the rows of both tables.
use block_explorer_backend.Prelude.{◌≡◌, refl, ap, ◌∙◌, List, [], ◌∷◌}
use block_explorer_backend.Errors.{GoError}
use block_explorer_backend.Effect.{Result, ok, err, continue, on_error}
use block_explorer_backend.Effect.Ensures.{Ends}
use block_explorer_backend.Models.{Block, Transaction}
use block_explorer_backend.Gorm.{Database}
use block_explorer_backend.Gorm.Contract.{
  Writes, DatabaseContract, insert_rows, block_conflict, transaction_conflict,
}
use block_explorer_backend.Gorm.Inserts.{IsInserted, insert_rows-IsInserted}
use block_explorer_backend.Repo.Blocks.{insert_both, insert_txs, insert_block_with_transactions}

module _ {W : Type 0} (db : Database W) (c : DatabaseContract db) where
  open c use {blocks, transactions, block_table, transaction_table}

  -- The rows that the two insertions leave.
  abbrev Inserts : Block → List Transaction → W → W → Type 0
  Inserts b txs w w' =
      (blocks w' ≡ insert_rows block_conflict (b ∷ []) (blocks w))
      × (transactions w' ≡ insert_rows transaction_conflict txs (transactions w))

  written :
      {V : Type 0} (f : GoError → GoError) (r : Result (Unit {0})) (before after : V)
      (Change : Type 0)
      → on_error f r ≡ ok tt
      → Writes r before after (λ _. Change)
      → Change
  written f (ok _) before after Change e h = h
  written f (err x) before after Change e h = absurd (cc)

  insert_txs-rows :
      (txs : List Transaction) (w : W)
      → (insert_txs db txs w).0 ≡ ok tt
      → (blocks (insert_txs db txs w).1 ≡ blocks w)
        × (transactions (insert_txs db txs w).1
            ≡ insert_rows transaction_conflict txs (transactions w))
  insert_txs-rows [] w h = (refl, refl)
  insert_txs-rows (tx ∷ txs) w h =
      let (writes, keeps) = transaction_table.create_writes (tx ∷ txs) w in
      let (r, w') = db.transactions.create (tx ∷ txs) w in
      (keeps, written _ r (transactions w) (transactions w') _ h writes)

  insert_both-rows :
      (f : GoError → GoError) (r : Result (Unit {0})) (b : Block) (txs : List Transaction)
      (w w' : W)
      → Writes r
          (blocks w)
          (blocks w')
          (λ _. blocks w' ≡ insert_rows block_conflict (b ∷ []) (blocks w))
      → transactions w' ≡ transactions w
      → (continue (on_error f r) (λ _. insert_txs db txs) w').0 ≡ ok tt
      → Inserts b txs w (continue (on_error f r) (λ _. insert_txs db txs) w').1
  insert_both-rows f (ok _) b txs w w' rows same h =
      let (kept, new) = insert_txs-rows txs w' h in
      (kept ∙ rows, new ∙ ap (insert_rows transaction_conflict txs) same)
  insert_both-rows f (err e) b txs w w' rows same h = absurd (cc)

  transaction-rows :
      (b : Block) (txs : List Transaction) (w : W)
      → (db.transaction (insert_both db b txs) w).0 ≡ ok tt
      → Inserts b txs w (db.transaction (insert_both db b txs) w).1
  transaction-rows b txs w h =
      let (w₁, same, same_txs, done, after, after_txs) = c.commits (insert_both db b txs) w h in
      let (writes, keeps) = block_table.create_writes (b ∷ []) w₁ in
      let (r, w') = db.blocks.create (b ∷ []) w₁ in
      let (new, new_txs) = insert_both-rows _ r b txs w₁ w' writes keeps done in
      (
        after ∙ new ∙ ap (insert_rows block_conflict (b ∷ [])) same,
        after_txs ∙ new_txs ∙ ap (insert_rows transaction_conflict txs) same_txs,
      )

  -- Both tables take in their rows.
  abbrev pub BothInserted : Block → List Transaction → W → W → Type 0
  BothInserted b txs w w' =
      IsInserted block_conflict (b ∷ []) (blocks w) (blocks w')
      × IsInserted transaction_conflict txs (transactions w) (transactions w')

  -- Neither table changes.
  abbrev pub NoneInserted : W → W → Type 0
  NoneInserted w w' = (blocks w' ≡ blocks w) × (transactions w' ≡ transactions w)

  Inserts-BothInserted :
      (b : Block) (txs : List Transaction) (w w' : W) → Inserts b txs w w' → BothInserted b txs w w'
  Inserts-BothInserted b txs w w' (rows, new) = (
    rw rows (insert_rows-IsInserted block_conflict (b ∷ []) (blocks w)),
    rw new (insert_rows-IsInserted transaction_conflict txs (transactions w)),
  )

  transaction-Ends :
      (b : Block) (txs : List Transaction) (w : W) (r : Result (Unit {0}))
      → (db.transaction (insert_both db b txs) w).0 ≡ r
      → Ends
          (λ _. BothInserted b txs w)
          (NoneInserted w)
          r
          (db.transaction (insert_both db b txs) w).1
  transaction-Ends b txs w (ok _) e = Inserts-BothInserted b txs w _ (transaction-rows b txs w e)
  transaction-Ends b txs w (err x) e = c.rolls_back (insert_both db b txs) w x e

-- `InsertBlockWithTransactions` does all or nothing. If it succeeds, the block and each of the
-- transactions is stored, or a row that has its place in a unique index, no row is lost, and no row has
-- come in but the block and the transactions. If it fails, both tables are as they were.
pub insert_block_with_transactions-IsAtomic :
    {W : Type 0} (db : Database W) (c : DatabaseContract db) (b : Block) (txs : List Transaction)
    (w : W)
    → Ends
        (λ _. BothInserted db c b txs w)
        (NoneInserted db c w)
        (insert_block_with_transactions db b txs w).0
        (insert_block_with_transactions db b txs w).1
unfolding insert_block_with_transactions
insert_block_with_transactions-IsAtomic db c b txs w = transaction-Ends db c b txs w _ refl
