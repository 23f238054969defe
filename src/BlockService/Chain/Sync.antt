-- ===== src/BlockService/Chain/Sync.antt =====
-- The stored chain stays linked through `SyncBlockToDB`, however the call ends, and whatever else goes on
-- between its calls that keeps the chain linked.
use block_explorer_backend.Prelude.{
  ◌==◌, ==_iff, ◌≡◌, ◌∙◌, Bool-cases, some, inl, inr, sym, arith, ℕ, refl, List, is_empty, map,
}
use block_explorer_backend.Text.{Unicode}
use block_explorer_backend.Ethereum.{Geth}
use block_explorer_backend.Errors.{wrapf}
use block_explorer_backend.Effect.Ensures.{
  Ends-both, Ensures, Ensures-pure, Ensures-lift, Ensures-if, Ensures-map_err, Ensures-bind,
  Ensures-weaken,
}
use block_explorer_backend.Models.{Block, Transaction}
use block_explorer_backend.Mapper.{to_block_model}
use block_explorer_backend.BlockService.Interfaces.{BlockService}
use block_explorer_backend.BlockService.Contract.{BlockTable, write_at, StoreContract}
use block_explorer_backend.BlockService.Link.{IsLinked}
use block_explorer_backend.BlockService.Linked.{
  write_at_ne, write_at_row, write_new-IsLinked, update-IsLinked, write_new-Grows, update-Grows,
}
use block_explorer_backend.BlockService.States.{
  marked, marked-hash, marked-parent_hash, IsConsistent, IsFresh-IsConsistent, marked-IsConsistent,
}
use block_explorer_backend.BlockService.Shared.{
  shared, Grows, Grows-refl, Grows-trans, Fits, Respects, Kept,
}
use block_explorer_backend.BlockService.Chain.{
  Fitting-aside, aside-Ensures, validate_block_for_sync-Ensures,
}
use block_explorer_backend.BlockService.Chain.Writes.{write-Ensures}
use block_explorer_backend.BlockService.Defs.{
  get_raw_block_by_number, build_transaction_models_from_block, check_conflicts,
  validate_transactions_for_sync, sync_block_to_db,
}

module _ {W : Type 0} (u : Unicode) (g : Geth) (s : BlockService W) (c : StoreContract s)
    (others : W → W) (r : Respects u s c.table others) (J : BlockTable → Type 0)
    (k : Kept u s c.table others J) where
  abbrev Ready : Block → W → Type 0
  Ready b w = J (c.table w) × Fits u s (c.table w) b

  conflicts-Ensures :
      (b : Block) (txs : List Transaction)
      → Ensures
          (Ready b)
          (validate_transactions_for_sync u g (shared others s) txs)
          (λ _. Ready b)
          (Ready b)
  unfolding validate_transactions_for_sync
  conflicts-Ensures b txs =
      Ensures-if (is_empty txs) (λ _. Ensures-pure tt (λ w p. p))
        (λ _.
          Ensures-bind
            (Ensures-map_err (wrapf "query existing transactions by hashes: ") (
              aside-Ensures u g s c others r J k (λ t. J t × Fits u s t b)
                (s.transaction_conflict_reader.get_transactions_by_hashes s.chain_id
                  (map (λ tx. tx.hash) txs))
                (Fitting-aside u g s c others r J k b)
                (c.conflicts_keep s.chain_id (map (λ tx. tx.hash) txs))))
            (λ existing.
              Ensures-lift (check_conflicts u g (shared others s) existing txs) (λ a e w p. p)
                (λ w p. p)))

  pub sync_block_to_db-Ensures :
      (number : ℕ)
      → Ensures
          (λ w. J (c.table w))
          (sync_block_to_db u g (shared others s) number)
          (λ _ w. J (c.table w))
          (λ w. J (c.table w))
  unfolding sync_block_to_db get_raw_block_by_number
  sync_block_to_db-Ensures number =
      Ensures-bind
        (Ensures-map_err (wrapf "fetch block from rpc: ") (
          aside-Ensures u g s c others r J k J (s.chain_block_reader.get_block_by_number number)
            k.aside (c.node_keeps number)))
        (λ block.
          let model = to_block_model g s.chain_id block in
          Ensures-bind (validate_block_for_sync-Ensures u g s c others r J k model) (λ _.
            Ensures-bind
              (Ensures-lift (build_transaction_models_from_block u g (shared others s) block)
                (λ txs e w p. p) (λ w (j, _). j))
              (λ txs.
                Ensures-bind
                  (Ensures-weaken (Ensures-map_err _ (conflicts-Ensures model txs)) (λ w p. p)
                    (λ a w q. q) (λ w (j, _). j))
                  (λ _.
                    write-Ensures u g s c others r J k number model txs
                      (unfold to_block_model in refl) (unfold to_block_model in refl)))))

module _ {W : Type 0} (u : Unicode) (s : BlockService W) (table : W → BlockTable) (others : W → W)
    (r : Respects u s table others) where
  pub Linked-Kept : Kept u s table others (IsLinked u s)
  Linked-Kept = record {
    aside = r.linked;
    placed = λ t b fresh linked free placed. write_new-IsLinked u s t linked b free placed;
    updated = λ t m n old linked stored.
        update-IsLinked u s t linked (marked m) n old (marked-hash m) (marked-parent_hash m) stored;
  }

  Grown-Kept : (t₀ : BlockTable) → Kept u s table others (Grows u s t₀)
  Grown-Kept t₀ = record {
    aside = λ w grown. Grows-trans u s t₀ (table w) (table (others w)) grown (r.grows w);
    placed = λ t b fresh grown free placed. write_new-Grows u s t₀ t grown b free;
    updated = λ t m n old grown stored.
        update-Grows u s t₀ t grown (marked m) n old (marked-hash m) stored;
  }

written-IsConsistent :
    {W : Type 0} (s : BlockService W) (t : BlockTable) (n : ℕ) (b : Block)
    → IsConsistent b
    → ((k : ℕ) (x : Block) → t s.chain_id k ≡ some x → IsConsistent x)
    → (k : ℕ) (x : Block) → write_at s.chain_id n b t s.chain_id k ≡ some x
    → IsConsistent x
written-IsConsistent s t n b own all k x e = elim (Bool-cases (k == n)) [
  | inl here ↦ let same = write_at_row s.chain_id n k b x t ((==_iff k n).0 here) e in rw same own
  | inr there ↦ all k x (sym (write_at_ne s.chain_id n k b t (ground arith)) ∙ e)
]

-- Every stored block of the chain has consistent columns.
abbrev pub AllConsistent : {W : Type 0} → BlockService W → BlockTable → Type 0
AllConsistent s t = (n : ℕ) (b : Block) → t s.chain_id n ≡ some b → IsConsistent b

pub AllConsistent-Kept :
    {W : Type 0} (u : Unicode) (s : BlockService W) (table : W → BlockTable)
    → Kept u s table (λ w. w) (AllConsistent s)
AllConsistent-Kept u s table = record {
  aside = λ w h. h;
  placed = λ t b fresh h free placed n x e.
      written-IsConsistent s t b.number b (IsFresh-IsConsistent b fresh) h n x e;
  updated = λ t m n old h stored k x e.
      written-IsConsistent s t n (marked m old) (marked-IsConsistent m old (h n old stored)) h k x
        e;
}

-- A synchronisation among others respects the chain as they do.
pub sync_block_to_db-Respects :
    {W : Type 0} (u : Unicode) (g : Geth) (s : BlockService W) (c : StoreContract s)
    (others : W → W) (number : ℕ)
    → Respects u s c.table others
    → Respects u s c.table (λ w. (sync_block_to_db u g (shared others s) number w).1)
sync_block_to_db-Respects u g s c others number r = record {
  linked = λ w linked.
      Ends-both (λ w'. IsLinked u s (c.table w')) _ _
        ((sync_block_to_db-Ensures u g s c others r _ (Linked-Kept u s c.table others r) number).at
          w linked);
  grows = λ w.
      Ends-both (λ w'. Grows u s (c.table w) (c.table w')) _ _
        ((sync_block_to_db-Ensures u g s c others r _ (Grown-Kept u s c.table others r (c.table w))
            number).at
          w (Grows-refl u s (c.table w)));
}

-- Between the calls of `SyncBlockToDB` others may change the tables in any way that keeps the chain
-- linked and its blocks stored. Then, however the call ends, a chain that was linked before is linked
-- after, and the blocks that were stored before are stored after with the same hashes.
pub sync_block_to_db-IsLinked-shared :
    {W : Type 0} (u : Unicode) (g : Geth) (s : BlockService W) (c : StoreContract s)
    (others : W → W) (number : ℕ) (w : W)
    → Respects u s c.table others
    → IsLinked u s (c.table w)
    → let w' = (sync_block_to_db u g (shared others s) number w).1 in
      IsLinked u s (c.table w') × Grows u s (c.table w) (c.table w')
sync_block_to_db-IsLinked-shared u g s c others number w r linked =
    let same = sync_block_to_db-Respects u g s c others number r in
    (same.linked w linked, same.grows w)

pub Respects-none :
    {W : Type 0} (u : Unicode) (s : BlockService W) (table : W → BlockTable)
    → Respects u s table (λ w. w)
Respects-none u s table = record { linked = λ w h. h; grows = λ w. Grows-refl u s (table w) }

-- However `SyncBlockToDB` ends, a chain that was linked before is linked after: every stored block
-- above genesis, but the start block, has its parent stored, with the hash that it names.
pub sync_block_to_db-IsLinked :
    {W : Type 0} (u : Unicode) (g : Geth) (s : BlockService W) (c : StoreContract s) (number : ℕ)
    (w : W)
    → IsLinked u s (c.table w)
    → IsLinked u s (c.table (sync_block_to_db u g s number w).1)
sync_block_to_db-IsLinked u g s c number w linked =
    (sync_block_to_db-IsLinked-shared u g s c (λ w. w) number w (Respects-none u s c.table)
      linked).0
