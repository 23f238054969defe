-- ===== src/BlockService/Progress/Steps.antt =====
-- The calls of `SyncBlockToDB` before its writes, when they answer.
use block_explorer_backend.Prelude.{
  ℕ, ◌-◌, ◌≡◌, ◌≢◌, sym, ◌∙◌, ltb→lt, Option, none, some, List, [], ◌∷◌, is_empty, map, ltb,
}
use block_explorer_backend.Text.{Text, Unicode}
use block_explorer_backend.Ethereum.{EthBlock, Geth}
use block_explorer_backend.Errors.{wrapf}
use block_explorer_backend.Effect.{Result, ok, err, Io}
use block_explorer_backend.Effect.Ensures.{
  Ends, Ensures, Ensures-pure, Ensures-if, Ensures-map_err, Ensures-bind, Ensures-given,
}
use block_explorer_backend.Effect.Keeps.{
  Keeps, Keeps-pure, Keeps-lift, Keeps-if, Keeps-map_err, Keeps-bind, Never,
}
use block_explorer_backend.Models.{Block, Transaction}
use block_explorer_backend.BlockService.Interfaces.{BlockService}
use block_explorer_backend.BlockService.Contract.{BlockTable, StoreContract}
use block_explorer_backend.BlockService.Link.{MayFollow, check_parent_iff}
use block_explorer_backend.Mapper.{to_block_model}
use block_explorer_backend.BlockService.States.{IsCompleted}
use block_explorer_backend.BlockService.Defs.{
  validate_found, validate_block_for_sync, check_parent, check_conflicts,
  validate_transactions_for_sync, with_sync_state,
}

module _ {W : Type 0} where
  told-Ends :
      {A : Type 0} (P : W → Type 0) (a : A) (r : Result A) (w : W)
      → r ≡ ok a
      → P w
      → Ends (λ x w. P w × (x ≡ a)) Never r w
  told-Ends P a (ok x) w e h = (h, cc)
  told-Ends P a (err x) w e h = absurd (cc)

  -- A call whose answer is known in the worlds that it is made in.
  pub told-Ensures :
      {A : Type 0} (P Q : W → Type 0) (a : A) (m : Io W A)
      → ((w : W) → P w → ((m w).0 ≡ ok a) × Q (m w).1)
      → Ensures P m (λ x w. Q w × (x ≡ a)) Never
  told-Ensures P Q a m answers = record {
    at = λ w h. let (e, q) = answers w h in told-Ends Q a (m w).0 (m w).1 e q;
  }

module _ {W : Type 0} (u : Unicode) (g : Geth) (s : BlockService W) (c : StoreContract s) where
  -- The block is new, it may follow, and no stored block has its hash.
  pub record IsNew (t : BlockTable) (b : Block) : Type 0 where
    pub free : t s.chain_id b.number ≡ none
    pub follows : MayFollow u s t b
    pub own_hash : (m : ℕ) (old : Block) → t s.chain_id m ≡ some old → old.hash ≢ b.hash

  abbrev pub Shows : BlockTable → W → Type 0
  Shows t w = c.table w ≡ t

  -- The calls of one run answer, in the worlds that they are made in: those before the insertion, in
  -- which the table is `t`, those after it, and those after the receipts.
  pub record Answers (number : ℕ) (block : EthBlock) (txs : List Transaction) (t : BlockTable)
      (Before After Received : W → Type 0) : Type 0 where
    pub shows : (w : W) → Before w → Shows t w
    pub gives :
        (w : W)
        → Before w
        → let (r, w') = s.chain_block_reader.get_block_by_number number w in
          (r ≡ ok block) × Before w'
    pub reads :
        (n : ℕ) (w : W)
        → Before w
        → let (r, w') = s.block_sync_store.get_block_by_number s.chain_id n w in
          (r ≡ ok (t s.chain_id n)) × Before w'
    pub agrees :
        (w : W)
        → Before w
        → let (r, w') =
            s.transaction_conflict_reader.get_transactions_by_hashes s.chain_id
              (map (λ tx. tx.hash) txs)
              w in
          (existing : Text → Option Transaction) × (r ≡ ok existing)
          × (check_conflicts u g s existing txs ≡ ok tt)
          × Before w'
    pub inserts :
        (w : W)
        → Before w
        → let model = to_block_model g s.chain_id block in
          let (r, w') =
            s.block_sync_store.insert_block_with_transactions
              (with_sync_state u g s model txs)
              txs
              w in
          (r ≡ ok tt) × After w'
    pub receipts :
        (w : W)
        → After w
        → let (r, w') = s.block_receipt_syncer.sync_block_transaction_receipts number w in
          (r ≡ ok tt) × Received w'
    pub marks :
        (w : W)
        → Received w
        → (s.block_sync_store.mark_block_receipts_synced s.chain_id number w).0 ≡ ok tt

  -- The block is stored with its hash, and completed.
  abbrev pub Done : ℕ → Text → W → Type 0
  Done number hash w =
      (b : Block) × (c.table w s.chain_id number ≡ some b) × (b.hash ≡ hash) × IsCompleted b

  read-Keeps : (n : ℕ) → Keeps c.table (s.block_sync_store.get_block_by_number s.chain_id n)
  read-Keeps n = record { at = c.read_keeps s.chain_id n }

  conflicts-Keeps :
      (hashes : List Text)
      → Keeps c.table (s.transaction_conflict_reader.get_transactions_by_hashes s.chain_id hashes)
  conflicts-Keeps hashes = record { at = c.conflicts_keep s.chain_id hashes }

  validate_found-Keeps :
      (found : Option Block) (b : Block) → Keeps c.table (validate_found u g s found b)
  validate_found-Keeps (some old) b = Keeps-lift _
  validate_found-Keeps none b =
      Keeps-if (ltb 0 b.number)
        (Keeps-bind
          (Keeps-map_err (wrapf "query parent block from db: ") (read-Keeps (b.number - 1)))
          (λ parent. Keeps-lift (check_parent u g s parent b)))
        (Keeps-pure tt)

  pub validate_block_for_sync-Keeps : (b : Block) → Keeps c.table (validate_block_for_sync u g s b)
  unfolding validate_block_for_sync
  validate_block_for_sync-Keeps b =
      Keeps-bind (Keeps-map_err _ (read-Keeps b.number)) (λ found. validate_found-Keeps found b)

  pub validate_transactions-Keeps :
      (txs : List Transaction) → Keeps c.table (validate_transactions_for_sync u g s txs)
  unfolding validate_transactions_for_sync
  validate_transactions-Keeps txs = Keeps-if (is_empty txs) (Keeps-pure tt) (
      Keeps-bind
        (Keeps-map_err (wrapf "query existing transactions by hashes: ")
          (conflicts-Keeps (map (λ tx. tx.hash) txs)))
        (λ existing. Keeps-lift (check_conflicts u g s existing txs)))

module _ {W : Type 0} (u : Unicode) (g : Geth) (s : BlockService W) (c : StoreContract s)
    (number : ℕ) (block : EthBlock) (txs : List Transaction) (t : BlockTable)
    (Before After Received : W → Type 0)
    (answers : Answers u g s c number block txs t Before After Received) where
  read-Ensures :
      (n : ℕ)
      → Ensures Before
          (s.block_sync_store.get_block_by_number s.chain_id n)
          (λ found w. Before w × (found ≡ t s.chain_id n))
          Never
  read-Ensures n = told-Ensures Before Before (t s.chain_id n) _ (answers.reads n)

  validate_found-Ensures :
      (b : Block)
      → MayFollow u s t b
      → Ensures Before (validate_found u g s none b) (λ _. Before) Never
  validate_found-Ensures b follows =
      Ensures-if (ltb 0 b.number)
        (λ above.
          Ensures-bind
            (Ensures-map_err (wrapf "query parent block from db: ") (read-Ensures (b.number - 1)))
            (λ parent. Ensures-given (λ e.
              let accepted =
                (check_parent_iff u g s t b parent (ltb→lt 0 b.number above) (sym e)).1 follows in
              record { at = λ w h. rw accepted h })))
        (λ genesis. Ensures-pure tt (λ w h. h))

  pub validate_block_for_sync-Ensures :
      (b : Block)
      → IsNew u g s c t b
      → Ensures Before (validate_block_for_sync u g s b) (λ _. Before) Never
  unfolding validate_block_for_sync
  validate_block_for_sync-Ensures b new =
      Ensures-bind (Ensures-map_err (wrapf "query block from db: ") (read-Ensures b.number))
        (λ found. Ensures-given (λ e.
          let none_there : found ≡ none = e ∙ new.free in
          rw none_there (validate_found-Ensures b new.follows)))

pub validate_transactions-Ensures :
    {W : Type 0} (u : Unicode) (g : Geth) (s : BlockService W) (c : StoreContract s) (number : ℕ)
    (block : EthBlock) (txs : List Transaction) (t : BlockTable)
    (Before After Received : W → Type 0)
    → Answers u g s c number block txs t Before After Received
    → Ensures Before (validate_transactions_for_sync u g s txs) (λ _. Before) Never
unfolding validate_transactions_for_sync
validate_transactions-Ensures u g s c number block [] t Before After Received answers =
    Ensures-pure tt (λ w h. h)
validate_transactions-Ensures u g s c number block (tx ∷ txs) t Before After Received answers =
    record {
      at = λ w h.
          let (existing, answered, agreed, after) = answers.agrees w h in
          rw (answered, agreed) after;
    }
