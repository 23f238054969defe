-- ===== src/BlockService/Shared.antt =====
-- The block service among other users of the same database: before each of its calls the others may
-- act, as the handlers and the runner do that app.go starts side by side.
use block_explorer_backend.Prelude.{ℕ, ◌<◌, ◌-◌, ◌≡◌, refl, ◌∙◌, ◌⊎◌, inl, inr, none, some}
use block_explorer_backend.Text.{Unicode}
use block_explorer_backend.Effect.{Io}
use block_explorer_backend.Models.{Block}
use block_explorer_backend.BlockService.Interfaces.{BlockService}
use block_explorer_backend.BlockService.Contract.{BlockTable, write_at}
use block_explorer_backend.BlockService.States.{Mark, marked, IsFresh}
use block_explorer_backend.BlockService.Link.{HasParent, IsLinked}

-- What the others do, and then the call.
abbrev pub preceded : {W A : Type 0} → (W → W) → Io W A → Io W A
preceded others m w = m (others w)

abbrev pub shared : {W : Type 0} → (W → W) → BlockService W → BlockService W
shared others s = record s {
  chain_block_reader = record {
    get_block_by_number = λ n. preceded others (s.chain_block_reader.get_block_by_number n);
  };
  block_sync_store = record {
    get_block_by_number = λ c n. preceded others (s.block_sync_store.get_block_by_number c n);
    insert_block_with_transactions =
        λ b txs. preceded others (s.block_sync_store.insert_block_with_transactions b txs);
    mark_block_receipts_synced =
        λ c n. preceded others (s.block_sync_store.mark_block_receipts_synced c n);
    mark_block_receipts_sync_failed = λ c n reason.
        preceded others (s.block_sync_store.mark_block_receipts_sync_failed c n reason);
  };
  block_receipt_syncer = record {
    sync_block_transaction_receipts =
        λ n. preceded others (s.block_receipt_syncer.sync_block_transaction_receipts n);
  };
  transaction_conflict_reader = record {
    get_transactions_by_hashes = λ c hashes.
        preceded others (s.transaction_conflict_reader.get_transactions_by_hashes c hashes);
  };
}

module _ {W : Type 0} (u : Unicode) (s : BlockService W) where
  -- Every stored block of the chain is still stored, with the same hash.
  pub record Grows (t t' : BlockTable) : Type 0 where
    pub stays :
        (n : ℕ) (b : Block)
        → t s.chain_id n ≡ some b
        → (b' : Block) × (t' s.chain_id n ≡ some b') × (b'.hash ≡ b.hash)

  pub Grows-refl : (t : BlockTable) → Grows t t
  Grows-refl t = record { stays = λ n b e. (b, e, refl) }

  pub Grows-trans : (t t' t'' : BlockTable) → Grows t t' → Grows t' t'' → Grows t t''
  Grows-trans t t' t'' g h = record {
    stays = λ n b e.
        let (b', e', same) = g.stays n b e in
        let (b'', e'', same') = h.stays n b' e' in (b'', e'', same' ∙ same);
  }

  -- A new block has a place in a linked chain: it is the genesis block or the start block, or its
  -- parent is stored and is the one that it names.
  abbrev pub Supported : BlockTable → Block → Type 0
  Supported t b =
      (b.number ≡ 0)
      ⊎ ((0 < b.number) × HasParent u s t b (b.number - 1))
      ⊎ (b.number ≡ s.start_block)

  -- A block whose number is taken, or which has a place.
  abbrev pub Fits : BlockTable → Block → Type 0
  Fits t b = ((old : Block) × (t s.chain_id b.number ≡ some old)) ⊎ Supported t b

  pub Grows-Fits : (t t' : BlockTable) (b : Block) → Grows t t' → Fits t b → Fits t' b
  Grows-Fits t t' b grows (inl (old, e)) =
      let (old', e', _) = grows.stays b.number old e in inl (old', e')
  Grows-Fits t t' b grows (inr (inl genesis)) = inr (inl genesis)
  Grows-Fits t t' b grows (inr (inr (inl (above, (p, e, h))))) =
      let (p', e', same) = grows.stays (b.number - 1) p e in
      inr (inr (inl (above, (p', e', rw same h))))
  Grows-Fits t t' b grows (inr (inr (inr starts))) = inr (inr (inr starts))

  -- The others keep the chain linked and its blocks stored.
  pub record Respects (table : W → BlockTable) (others : W → W) : Type 0 where
    pub linked : (w : W) → IsLinked u s (table w) → IsLinked u s (table (others w))
    pub grows : (w : W) → Grows (table w) (table (others w))

  -- What a synchronisation keeps: a property of the table that the others keep too, and that neither a
  -- new block with a place nor a mark on a stored one breaks.
  pub record Kept (table : W → BlockTable) (others : W → W) (J : BlockTable → Type 0) : Type 0 where
    pub aside : (w : W) → J (table w) → J (table (others w))
    pub placed :
        (t : BlockTable) (b : Block)
        → IsFresh b
        → J t
        → t s.chain_id b.number ≡ none
        → Supported t b
        → J (write_at s.chain_id b.number b t)
    pub updated :
        (t : BlockTable) (m : Mark) (n : ℕ) (old : Block)
        → J t
        → t s.chain_id n ≡ some old
        → J (write_at s.chain_id n (marked m old) t)
