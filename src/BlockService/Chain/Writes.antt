-- ===== src/BlockService/Chain/Writes.antt =====
-- The writes of `SyncBlockToDB`, among others that act between its calls: they keep what a new block
-- with a place and the marks on it do not break.
use block_explorer_backend.Prelude.{ℕ, ◌≡◌, refl, inl, inr, ◌∙◌, List, [], ◌∷◌, is_empty, sym, none}
use mathlib.Core.Path.{subst}
use block_explorer_backend.Text.{Unicode}
use block_explorer_backend.Ethereum.{Geth}
use block_explorer_backend.Errors.{error_text}
use block_explorer_backend.Effect.{Result, ok, err, Io}
use block_explorer_backend.Effect.Ensures.{
  Ends, Ends-both, Ensures, Ensures-pure, Ensures-if, Ensures-map_err, Ensures-bind, Ensures-weaken,
}
use block_explorer_backend.Models.{Block, Transaction}
use block_explorer_backend.BlockService.Interfaces.{BlockService}
use block_explorer_backend.BlockService.Contract.{
  BlockTable, write_at, Inserted, Updated, Writes, StoreContract,
}
use block_explorer_backend.BlockService.States.{Mark, synced, failed, marked, IsFresh}
use block_explorer_backend.BlockService.Shared.{preceded, shared, Fits, Respects, Kept}
use block_explorer_backend.BlockService.Chain.{Fitting-aside}
use block_explorer_backend.BlockService.Defs.{
  with_sync_state, after_receipts, sync_receipts, insert_and_mark,
}

module _ {W : Type 0} (u : Unicode) (g : Geth) (s : BlockService W) (c : StoreContract s)
    (others : W → W) (r : Respects u s c.table others) (J : BlockTable → Type 0)
    (k : Kept u s c.table others J) where
  abbrev Held : W → Type 0
  Held w = J (c.table w)

  abbrev Ready : Block → W → Type 0
  Ready b w = J (c.table w) × Fits u s (c.table w) b

  -- An insert of a block that fits.
  Inserted-Held :
      (t t' : BlockTable) (b : Block)
      → b.chain_id ≡ s.chain_id
      → IsFresh b
      → J t
      → Fits u s t b
      → Inserted b t t'
      → J t'
  Inserted-Held t t' b own fresh j fits (inl (taken, same)) = rw same j
  Inserted-Held t t' b own fresh j (inl (old, found)) (inr (free, written)) =
      let free' : t s.chain_id b.number ≡ none = rw own at free in absurd (cc)
  Inserted-Held t t' b own fresh j (inr placed) (inr (free, written)) =
      let free' : t s.chain_id b.number ≡ none = rw own at free in
      rw written
        (subst (λ d. J (write_at d b.number b t)) (sym own) (k.placed t b fresh j free' placed))

  Updated-Held :
      (t t' : BlockTable) (m : Mark) (n : ℕ) → J t → Updated (marked m) s.chain_id n t t' → J t'
  Updated-Held t t' m n j (old, found, written) = rw written (k.updated t m n old j found)

  writes-Ends :
      (res : Result (Unit {0})) (t t' : BlockTable) (w' : W) (Change : Type 0)
      → c.table w' ≡ t'
      → J t
      → (Change → J t')
      → Writes res t t' Change
      → Ends (λ _. Held) Held res w'
  writes-Ends (ok _) t t' w' Change e j f h = rw e (f h)
  writes-Ends (err _) t t' w' Change e j f h = rw (e, h) j

  insert-Ensures :
      (b : Block) (txs : List Transaction)
      → b.chain_id ≡ s.chain_id
      → IsFresh b
      → Ensures
          (Ready b)
          (preceded others (s.block_sync_store.insert_block_with_transactions b txs))
          (λ _. Held)
          Held
  insert-Ensures b txs own fresh = record {
    at = λ w p.
        let v = others w in
        let (res, v') = s.block_sync_store.insert_block_with_transactions b txs v in
        let (j, fits) = Fitting-aside u g s c others r J k b w p in
        writes-Ends res (c.table v) (c.table v') v' _ refl j
          (Inserted-Held (c.table v) (c.table v') b own fresh j fits) (c.insert_writes b txs v);
  }

  -- A mark on a row of the chain.
  mark-Ensures :
      (m : Mark) (n : ℕ) (call : Io W (Unit {0}))
      → ((w : W)
          → Writes
              (call w).0
              (c.table w)
              (c.table (call w).1)
              (Updated (marked m) s.chain_id n (c.table w) (c.table (call w).1)))
      → Ensures Held (preceded others call) (λ _. Held) Held
  mark-Ensures m n call writes = record {
    at = λ w j.
        let v = others w in
        writes-Ends (call v).0 (c.table v) (c.table (call v).1) (call v).1 _ refl (k.aside w j)
          (Updated-Held (c.table v) (c.table (call v).1) m n (k.aside w j)) (writes v);
  }

  after_receipts-Held :
      (number : ℕ) (res : Result (Unit {0})) (w : W)
      → Held w
      → Ends
          (λ _. Held)
          Held
          (after_receipts u g (shared others s) number res w).0
          (after_receipts u g (shared others s) number res w).1
  after_receipts-Held number (ok _) w j =
      (Ensures-map_err _ (
          mark-Ensures synced number
            (s.block_sync_store.mark_block_receipts_synced s.chain_id number)
            (c.synced_writes s.chain_id number))).at
        w j
  after_receipts-Held number (err e) w j =
      let mark =
        s.block_sync_store.mark_block_receipts_sync_failed s.chain_id number (error_text e) in
      Ends-both Held (mark (others w)).0 (mark (others w)).1 (
        (mark-Ensures (failed (error_text e)) number mark
            (c.failed_writes s.chain_id number (error_text e))).at
          w j)

  sync_receipts-Ensures :
      (number : ℕ) → Ensures Held (sync_receipts u g (shared others s) number) (λ _. Held) Held
  unfolding sync_receipts
  sync_receipts-Ensures number = record {
    at = λ w j.
        let (res, w') = s.block_receipt_syncer.sync_block_transaction_receipts number (others w) in
        after_receipts-Held number res w' (rw (c.receipts_keep number (others w)) (k.aside w j));
  }

  -- The flags that the block gets change neither its place nor its hashes.
  with_sync_state-Ready :
      (b : Block) (txs : List Transaction) (w : W)
      → Ready b w
      → Ready (with_sync_state u g (shared others s) b txs) w
  with_sync_state-Ready b [] w h = h
  with_sync_state-Ready b (tx ∷ txs) w h = h

  with_sync_state-chain_id :
      (b : Block) (txs : List Transaction)
      → (with_sync_state u g (shared others s) b txs).chain_id ≡ b.chain_id
  with_sync_state-chain_id b [] = refl
  with_sync_state-chain_id b (tx ∷ txs) = refl

  with_sync_state-IsFresh :
      (b : Block) (txs : List Transaction)
      → b.last_sync_error ≡ none
      → IsFresh (with_sync_state u g (shared others s) b txs)
  with_sync_state-IsFresh b [] clean = (refl, inl (refl, refl, clean))
  with_sync_state-IsFresh b (tx ∷ txs) clean = (refl, inr (refl, refl, clean))

  pub write-Ensures :
      (number : ℕ) (b : Block) (txs : List Transaction)
      → b.chain_id ≡ s.chain_id
      → b.last_sync_error ≡ none
      → Ensures (Ready b) (insert_and_mark u g (shared others s) number b txs) (λ _. Held) Held
  unfolding insert_and_mark
  write-Ensures number b txs own clean =
      Ensures-bind
        (Ensures-map_err _ (
          Ensures-weaken
            (insert-Ensures (with_sync_state u g (shared others s) b txs) txs
              (with_sync_state-chain_id b txs ∙ own) (with_sync_state-IsFresh b txs clean))
            (with_sync_state-Ready b txs) (λ a w q. q) (λ w e. e)))
        (λ _.
          Ensures-if (is_empty txs) (λ _. Ensures-pure tt (λ w p. p))
            (λ _. sync_receipts-Ensures number))
