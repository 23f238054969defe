-- ===== src/BlockService/Progress/Writes.antt =====
-- The writes of `SyncBlockToDB`, when they succeed.
use block_explorer_backend.Prelude.{ℕ, ◌≡◌, refl, ap, ◌∙◌, inl, inr, some, List, [], ◌∷◌}
use mathlib.Core.Path.{subst}
use block_explorer_backend.Text.{Unicode}
use block_explorer_backend.Ethereum.{EthBlock, Geth}
use block_explorer_backend.Effect.{Result, ok, err}
use block_explorer_backend.Effect.Ensures.{
  Ends, Ensures, Ensures-pure, Ensures-map_err, Ensures-bind,
}
use block_explorer_backend.Effect.Keeps.{Never}
use block_explorer_backend.Mapper.{to_block_model}
use block_explorer_backend.Models.{Block, Transaction}
use block_explorer_backend.BlockService.Interfaces.{BlockService}
use block_explorer_backend.BlockService.Contract.{
  BlockTable, write_at, marked_synced, Inserted, Updated, Writes, StoreContract,
}
use block_explorer_backend.BlockService.Linked.{write_at_self}
use block_explorer_backend.BlockService.Defs.{with_sync_state, sync_receipts, insert_and_mark}
use block_explorer_backend.BlockService.Progress.Steps.{Answers, IsNew, Shows, Done}

module _ {W : Type 0} (u : Unicode) (g : Geth) (s : BlockService W) (c : StoreContract s) where
  placed-at :
      (t : BlockTable) (b : Block) (number : ℕ)
      → b.number ≡ number
      → write_at s.chain_id b.number b t s.chain_id number ≡ some b
  placed-at t b number here =
      subst (λ n. write_at s.chain_id b.number b t s.chain_id n ≡ some b) here
        (write_at_self s.chain_id b.number b t)

  -- The columns of the synchronisation do not matter for a new block.
  with_sync_state-IsNew :
      (t : BlockTable) (b : Block) (txs : List Transaction)
      → IsNew u g s c t b
      → IsNew u g s c t (with_sync_state u g s b txs)
  with_sync_state-IsNew t b [] new = record {
    free = new.free;
    follows = new.follows;
    own_hash = new.own_hash;
  }
  with_sync_state-IsNew t b (tx ∷ txs) new = record {
    free = new.free;
    follows = new.follows;
    own_hash = new.own_hash;
  }

  Inserted-new :
      (t t' : BlockTable) (b : Block)
      → b.chain_id ≡ s.chain_id
      → IsNew u g s c t b
      → Inserted b t t'
      → t' ≡ write_at s.chain_id b.number b t
  Inserted-new t t' b own new (inl (inl (old, e), _)) =
      let e' : t s.chain_id b.number ≡ some old = rw own at e in let free = new.free in absurd (cc)
  Inserted-new t t' b own new (inl (inr (m, old, e, hash), _)) =
      absurd (new.own_hash m old (rw own at e) hash)
  Inserted-new t t' b own new (inr (_, written)) = written ∙ ap (λ d. write_at d b.number b t) own

  insert-Ends :
      (After : W → Type 0) (t : BlockTable) (b : Block) (r : Result (Unit {0})) (w w' : W)
      → b.chain_id ≡ s.chain_id
      → IsNew u g s c t b
      → Shows u g s c t w
      → r ≡ ok tt
      → After w'
      → Writes r (c.table w) (c.table w') (Inserted b (c.table w) (c.table w'))
      → Ends (λ _ w. After w × Shows u g s c (write_at s.chain_id b.number b t) w) Never r w'
  insert-Ends After t b (ok _) w w' own new h e after writes =
      (after, Inserted-new t (c.table w') b own new (rw h at writes))
  insert-Ends After t b (err x) w w' own new h e after writes = absurd (cc)

  mark-Ends :
      (t : BlockTable) (number : ℕ) (old : Block) (r : Result (Unit {0})) (w w' : W)
      → t s.chain_id number ≡ some old
      → Shows u g s c t w
      → r ≡ ok tt
      → Writes r
          (c.table w)
          (c.table w')
          (Updated marked_synced s.chain_id number (c.table w) (c.table w'))
      → Ends (λ _. Done u g s c number old.hash) Never r w'
  mark-Ends t number old (ok _) w w' stored h e (x, found, written) =
      let found' : t s.chain_id number ≡ some x = rw h at found in
      let same : x ≡ old = cc in
      (
        marked_synced x,
        rw written (write_at_self s.chain_id number (marked_synced x) (c.table w)),
        ap (λ b. b.hash) same,
        (refl, refl, refl),
      )
  mark-Ends t number old (err x) w w' stored h e writes = absurd (cc)

module _ {W : Type 0} (u : Unicode) (g : Geth) (s : BlockService W) (c : StoreContract s)
    (number : ℕ) (block : EthBlock) (txs : List Transaction) (t : BlockTable)
    (Before After Received : W → Type 0)
    (answers : Answers u g s c number block txs t Before After Received) where
  -- The block as it is inserted, and the table with it.
  abbrev inserted : Block
  inserted = with_sync_state u g s (to_block_model g s.chain_id block) txs

  abbrev with_inserted : BlockTable
  with_inserted = write_at s.chain_id inserted.number inserted t

  insert-Ensures :
      inserted.chain_id ≡ s.chain_id
      → IsNew u g s c t inserted
      → Ensures Before
          (s.block_sync_store.insert_block_with_transactions inserted txs)
          (λ _ w. After w × Shows u g s c with_inserted w)
          Never
  insert-Ensures own new = record {
    at = λ w h.
        let (done, after) = answers.inserts w h in
        insert-Ends u g s c After t inserted _ w _ own new (answers.shows w h) done after
          (c.insert_writes inserted txs w);
  }

  mark-Ensures :
      with_inserted s.chain_id number ≡ some inserted
      → Ensures
          (λ w. Received w × Shows u g s c with_inserted w)
          (s.block_sync_store.mark_block_receipts_synced s.chain_id number)
          (λ _. Done u g s c number inserted.hash)
          Never
  mark-Ensures stored = record {
    at = λ w (received, h).
        mark-Ends u g s c with_inserted number inserted _ w _ stored h (answers.marks w received)
          (c.synced_writes s.chain_id number w);
  }

  receipts-Ensures :
      with_inserted s.chain_id number ≡ some inserted
      → Ensures
          (λ w. After w × Shows u g s c with_inserted w)
          (sync_receipts u g s number)
          (λ _. Done u g s c number inserted.hash)
          Never
  unfolding sync_receipts
  receipts-Ensures stored = record {
    at = λ w (after, h).
        let w' = (s.block_receipt_syncer.sync_block_transaction_receipts number w).1 in
        let (done, received) = answers.receipts w after in
        rw done (
          (Ensures-map_err _ (mark-Ensures stored)).at w' (received, c.receipts_keep number w ∙ h));
  }

-- The writes, by whether there are transactions.
pub write-Ensures :
    {W : Type 0} (u : Unicode) (g : Geth) (s : BlockService W) (c : StoreContract s) (number : ℕ)
    (block : EthBlock) (txs : List Transaction) (t : BlockTable)
    (Before After Received : W → Type 0)
    → Answers u g s c number block txs t Before After Received
    → block.number ≡ number
    → IsNew u g s c t (to_block_model g s.chain_id block)
    → Ensures Before
        (insert_and_mark u g s number (to_block_model g s.chain_id block) txs)
        (λ _. Done u g s c number (to_block_model g s.chain_id block).hash)
        Never
unfolding insert_and_mark to_block_model
write-Ensures u g s c number block [] t Before After Received answers here new =
    let model = to_block_model g s.chain_id block in
    let stored = with_sync_state u g s model [] in
    Ensures-bind
      (Ensures-map_err _ (
        insert-Ensures u g s c number block [] t Before After Received answers refl
          (with_sync_state-IsNew u g s c t model [] new)))
      (λ _. Ensures-pure tt (λ w (after, h).
        (stored, rw h (placed-at u g s c t stored number here), refl, (refl, refl, refl))))
write-Ensures u g s c number block (tx ∷ txs) t Before After Received answers here new =
    let model = to_block_model g s.chain_id block in
    let stored = with_sync_state u g s model (tx ∷ txs) in
    Ensures-bind
      (Ensures-map_err _ (
        insert-Ensures u g s c number block (tx ∷ txs) t Before After Received answers refl
          (with_sync_state-IsNew u g s c t model (tx ∷ txs) new)))
      (λ _.
        receipts-Ensures u g s c number block (tx ∷ txs) t Before After Received answers
          (placed-at u g s c t stored number here))
