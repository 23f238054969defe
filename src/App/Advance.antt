-- ===== src/App/Advance.antt =====
-- The next block of the wired indexer, and what its synchronisation makes of it against a node whose chain
-- stays as it is.
use block_explorer_backend.App.Contracts.{store_contract}
use block_explorer_backend.App.Keeps.{NodeContract}
use block_explorer_backend.App.Next.{IsNext}
use block_explorer_backend.App.System.Invariants.{completed-fully_synced}
use block_explorer_backend.App.Wiring.{block_service}
use block_explorer_backend.BlockService.Local.{AgreeOff, sync_block_to_db-AgreeOff}
use block_explorer_backend.BlockService.Outcome.Calls.{run-Ensures}
use block_explorer_backend.BlockService.Outcome.{Follows, Mirrors, Open, Completed}
use block_explorer_backend.BlockService.States.{IsCompleted, IsConsistent}
use block_explorer_backend.BlockService.{sync_block_to_db}
use block_explorer_backend.Config.{Config}
use block_explorer_backend.Effect.Ensures.{Ends, Ensures}
use block_explorer_backend.Effect.{Result, ok, err}
use block_explorer_backend.Ethereum.{EthBlock, Geth}
use block_explorer_backend.Gorm.Contract.{DatabaseContract}
use block_explorer_backend.Gorm.{Database}
use block_explorer_backend.Models.{Block}
use block_explorer_backend.Prelude.Int.{two_64, ℤ, eqb_ℤ_iff}
use block_explorer_backend.Prelude.{
  ℕ, ◌+◌, ◌<◌, ◌≡◌, ◌≢◌, refl, sym, ◌∙◌, inl, inr, true, ltb, ltb→lt, Bool-cases, some, List, arith,
  Among, ap,
}
use block_explorer_backend.Repo.Blocks.Table.{table_of, table_of-Among, table_of-stored, IsUnique}
use block_explorer_backend.Repo.Blocks.{fully_synced}
use block_explorer_backend.Rpc.{EthClient, block_by_number}
use block_explorer_backend.Text.{Unicode}
use mathlib.Core.Path.{subst}

fully_synced-own : (chain : ℤ) (x : Block) → fully_synced chain x ≡ true → x.chain_id ≡ chain
fully_synced-own chain x synced = ground (arith, eqb_ℤ_iff x.chain_id chain)

module _ (chain : ℤ) (start n : ℕ) (rows rows' : List Block) (unique : IsUnique rows')
    (agree : AgreeOff n (table_of rows) (table_of rows')) where
  -- A row of another number was there before.
  old_row : (x : Block) → Among x rows' → fully_synced chain x ≡ true → x.number ≢ n → Among x rows
  old_row x i synced other =
      let own = fully_synced-own chain x synced in
      let found : table_of rows' chain x.number ≡ some x =
        rw (← own) (table_of-Among rows' x unique i) in
      let (before, _, _) =
        table_of-stored rows chain x.number x (sym (agree.same chain x.number other) ∙ found) in
      before

  passed :
      IsNext chain start rows n
      → (x : Block) → Among x rows'
      → fully_synced chain x ≡ true
      → x.number < n + 1
  passed next x i synced = elim (Bool-cases (ltb n x.number)) [
    | inl above ↦
        let over = ltb→lt n x.number above in
        let below = next.passes x (old_row x i synced (λ e. absurd (omega arith))) synced in
        absurd (omega arith)
    | inr within ↦ ground arith
  ]

  -- With the block completed, and nothing else changed, the next one is the following one.
  pub completed-IsNext :
      (b : Block)
      → IsNext chain start rows n
      → table_of rows' chain n ≡ some b
      → IsConsistent b
      → IsCompleted b
      → IsNext chain start rows' (n + 1)
  completed-IsNext b next stored consistent (_, receipts, _) =
      let (i, own, here) = table_of-stored rows' chain n b stored in
      let synced = completed-fully_synced chain b own consistent in
      record { passes = passed next; least = inr (b, i, synced ∙ receipts, rw here refl) }

module _ {W : Type 0} (u : Unicode) (g : Geth) (db : Database W) (client : EthClient W)
    (cfg : Config) (d : DatabaseContract db) (chain : ℕ → EthBlock) where
  abbrev pub Mirrored : W → Type 0
  Mirrored w = Mirrors g (block_service u g db client cfg) chain (table_of (d.blocks w))

  -- The next block has no row yet, or one whose receipts are not stored.
  next-Open :
      (w : W) (n : ℕ)
      → Mirrored w
      → IsNext cfg.rpc.chain_id cfg.indexer.start_block (d.blocks w) n
      → Open g (block_service u g db client cfg) chain n (table_of (d.blocks w))
  next-Open w n mirrors next b e = elim (Bool-cases b.receipts_synced) [
    | inl done ↦
        let (i, own, here) = table_of-stored (d.blocks w) cfg.rpc.chain_id n b e in
        let synced = completed-fully_synced cfg.rpc.chain_id b own (mirrors.consistent n b e) in
        let below = next.passes b i (cc) in absurd (omega arith)
    | inr waits ↦ waits
  ]

module _ {W : Type 0} (u : Unicode) (g : Geth) (db : Database W) (client : EthClient W)
    (cfg : Config) (d : DatabaseContract db) (node : NodeContract client db d)
    (chain : ℕ → EthBlock) (follows : Follows g (block_service u g db client cfg) chain) (w : W)
    (small : (x : Block) → Among x (d.blocks w) → x.number + 1 < two_64)
    (start : Mirrored u g db client cfg d chain w) where
  abbrev pub Same : W → Type 0
  Same w' = d.blocks w' ≡ d.blocks w

  abbrev pub Kept : W → Type 0
  Kept w' = Mirrored u g db client cfg d chain w'

  pub Same-Kept : (w' : W) → Same w' → Kept w'
  Same-Kept w' same = rw same start

  -- The block is completed, and the next round begins at the following one.
  abbrev pub Advanced : ℕ → W → Type 0
  Advanced n w' =
      Completed g (block_service u g db client cfg) chain n (table_of (d.blocks w'))
      × IsNext cfg.rpc.chain_id cfg.indexer.start_block (d.blocks w') (n + 1)

  named_service :
      (n : ℕ) (w : W) (b : EthBlock) → (block_by_number g client n w).0 ≡ ok b → b.number ≡ n
  named_service n w b e = ap (λ b. b.number) (follows.gives n w b e) ∙ follows.numbered n

  settled-Ends :
      (n : ℕ) (r : Result (Unit {0})) (w' : W)
      → IsNext cfg.rpc.chain_id cfg.indexer.start_block (d.blocks w) n
      → AgreeOff n (table_of (d.blocks w)) (table_of (d.blocks w'))
      → Ends
          (λ _ w'.
            Kept w'
            × Completed g (block_service u g db client cfg) chain n (table_of (d.blocks w')))
          (λ w'.
            Kept w' × Open g (block_service u g db client cfg) chain n (table_of (d.blocks w')))
          r
          w'
      → Ends (λ _ w'. Kept w' × Advanced n w') Kept r w'
  settled-Ends n (ok _) w' next agree (kept, (b, stored, done)) = (
    kept,
    (
      (b, stored, done),
      completed-IsNext cfg.rpc.chain_id cfg.indexer.start_block n (d.blocks w) (d.blocks w')
          (d.block_table.unique w') agree b next stored (kept.consistent n b stored) done,
    ),
  )
  settled-Ends n (err e) w' next agree (kept, _) = kept

  pub next_block-Ensures :
      (n : ℕ)
      → IsNext cfg.rpc.chain_id cfg.indexer.start_block (d.blocks w) n
      → Ensures Same
          (sync_block_to_db u g (block_service u g db client cfg) n)
          (λ _ w'. Kept w' × Advanced n w')
          Kept
  next_block-Ensures n next = record {
    at = λ w' same.
        let s = block_service u g db client cfg in
        let c = store_contract u g db client cfg d node in
        let (r, w'') = sync_block_to_db u g s n w' in
        let agree = sync_block_to_db-AgreeOff u g s c n w' (named_service n) in
        settled-Ends n r w'' next
          (subst (λ rows. AgreeOff n (table_of rows) (table_of (d.blocks w''))) same agree)
          ((run-Ensures u g s c chain follows n).at w'
            (rw same (start, next-Open u g db client cfg d chain w n start next)));
  }
