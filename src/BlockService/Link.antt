-- ===== src/BlockService/Link.antt =====
-- The link between blocks, and that `validateBlockForSync` decides it.
use block_explorer_backend.Prelude.{
  ℕ, suc, ◌-◌, ◌<◌, ◌≡◌, ◌≢◌, refl, ◌↔◌, ◌⊎◌, inl, inr, true, Option, none, some, arith, ltb,
  ltb→lt, lt→ltb, Bool-cases,
}
use block_explorer_backend.Text.{Unicode, equal_fold}
use block_explorer_backend.Ethereum.{Geth}
use block_explorer_backend.Effect.{ok}
use block_explorer_backend.Models.{Block}
use block_explorer_backend.BlockService.Interfaces.{BlockService}
use block_explorer_backend.BlockService.Contract.{BlockTable, StoreContract}
use block_explorer_backend.BlockService.Defs.{check_parent, validate_found, validate_block_for_sync}

module _ {W : Type 0} (u : Unicode) (s : BlockService W) where
  -- The stored parent of a block at `number` has the hash that the block names.
  abbrev pub HasParent : BlockTable → Block → ℕ → Type 0
  HasParent t b n =
      (p : Block) × (t s.chain_id n ≡ some p) × (equal_fold u b.parent_hash p.hash ≡ true)

  -- A new block may be added: it is the genesis block, or its parent is stored and is the one that it
  -- names, or it is the start block and its parent is not stored.
  abbrev pub MayFollow : BlockTable → Block → Type 0
  MayFollow t b =
      (b.number ≡ 0)
      ⊎ (0 < b.number) × HasParent t b (b.number - 1)
      ⊎ (0 < b.number) × (t s.chain_id (b.number - 1) ≡ none) × (b.number ≡ s.start_block)

  -- A block is stored already with the same hash, or it may be added.
  abbrev pub Extends : BlockTable → Block → Type 0
  Extends t b =
      ((old : Block) × (t s.chain_id b.number ≡ some old) × (equal_fold u old.hash b.hash ≡ true))
      ⊎ (t s.chain_id b.number ≡ none) × MayFollow t b

  -- Every stored block above genesis, but the start block, has its parent stored, with the hash
  -- that it names.
  pub record IsLinked (t : BlockTable) : Type 0 where
    pub parent_of :
        (n : ℕ) (b : Block)
        → t s.chain_id (suc n) ≡ some b
        → suc n ≢ s.start_block
        → HasParent t b n

module _ {W : Type 0} (u : Unicode) (g : Geth) (s : BlockService W) where
  pub check_parent_iff :
      (t : BlockTable) (b : Block) (parent : Option Block)
      → 0 < b.number
      → t s.chain_id (b.number - 1) ≡ parent
      → (check_parent u g s parent b ≡ ok tt) ↔ MayFollow u s t b
  check_parent_iff t b none pos e = (λ h. inr (inr (pos, e, ground arith)), λ m. ground arith)
  check_parent_iff t b (some p) pos e =
      (λ h. inr (inl (pos, (p, e, ground arith))), λ m. ground arith)

module _ {W : Type 0} (u : Unicode) (g : Geth) (s : BlockService W) (c : StoreContract s)
    (reads : (n : ℕ) (w : W)
      → (s.block_sync_store.get_block_by_number s.chain_id n w).0
        ≡ ok (c.table w s.chain_id n)) where
  -- The parent is read after the look-up has left the table as it was.
  validate_new_iff :
      (b : Block) (w : W)
      → c.table w s.chain_id b.number ≡ none
      → 0 < b.number
      → ((validate_found u g s none b w).0 ≡ ok tt) ↔ Extends u s (c.table w) b
  validate_new_iff b w e pos =
      let test : ltb 0 b.number ≡ true = lt→ltb 0 b.number pos in
      let parent =
        check_parent_iff u g s (c.table w) b (c.table w s.chain_id (b.number - 1)) pos refl in
      rw (test, reads (b.number - 1) w) (λ h. inr (e, parent.0 h), λ x. ground (arith, parent.1))

  validate_found_iff :
      (b : Block) (found : Option Block) (w : W)
      → c.table w s.chain_id b.number ≡ found
      → ((validate_found u g s found b w).0 ≡ ok tt) ↔ Extends u s (c.table w) b
  validate_found_iff b (some old) w e = (λ h. inl (old, e, ground arith), λ x. ground arith)
  validate_found_iff b none w e = elim (Bool-cases (ltb 0 b.number)) [
    | inl above ↦ validate_new_iff b w e (ltb→lt 0 b.number above)
    | inr genesis ↦ rw genesis (λ h. inr (e, inl (ground arith)), λ x. refl)
  ]

  -- With a store that answers, a block passes validation exactly when it extends the stored chain.
  pub validate_block_for_sync_iff :
      (b : Block) (w : W)
      → ((validate_block_for_sync u g s b w).0 ≡ ok tt) ↔ Extends u s (c.table w) b
  unfolding validate_block_for_sync
  validate_block_for_sync_iff b w =
      let w' = (s.block_sync_store.get_block_by_number s.chain_id b.number w).1 in
      let same = c.read_keeps s.chain_id b.number w in
      rw (reads b.number w, ← same) (validate_found_iff b (c.table w' s.chain_id b.number) w' refl)
