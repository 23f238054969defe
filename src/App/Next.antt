-- ===== src/App/Next.antt =====
-- The block that the wired indexer looks at next, by the stored rows.
use block_explorer_backend.Prelude.{
  ℕ, ◌+◌, ◌%◌, ◌<◌, ◌≡◌, ◌≢◌, refl, ◌⊎◌, inl, inr, true, Option, none, some, List, [], keep, arith,
  Among,
}
use mathlib.Core.Path.{subst}
use block_explorer_backend.Prelude.Int.{ℤ, two_64}
use block_explorer_backend.Text.{Unicode}
use block_explorer_backend.Ethereum.{Geth}
use block_explorer_backend.Effect.{Result, ok, err}
use block_explorer_backend.Effect.Ensures.{
  Ends, Ensures, Ensures-pure, Ensures-map_err, Ensures-bind, Ensures-given,
}
use block_explorer_backend.Effect.Keeps.{always}
use block_explorer_backend.Models.{Block}
use block_explorer_backend.Config.{Config}
use block_explorer_backend.Dto.{IndexerStatus}
use block_explorer_backend.Gorm.{Database}
use block_explorer_backend.Gorm.Contract.{DatabaseContract}
use block_explorer_backend.Gorm.Rows.{Among-keep, keep-Among}
use block_explorer_backend.Rpc.{EthClient}
use block_explorer_backend.Indexer.{BlockIndexer, next_after, status_of, get_next_block_to_sync}
use block_explorer_backend.Repo.Blocks.{fully_synced, get_latest_fully_synced_block_number}
use block_explorer_backend.Repo.Latest.{IsTop, latest-IsTop}
use block_explorer_backend.App.Wiring.{block_indexer}

-- The least number above every fully synced block of the chain, if there is one, and else the start
-- block.
pub record IsNext (chain : ℤ) (start : ℕ) (rows : List Block) (next : ℕ) : Type 0 where
  pub passes : (x : Block) → Among x rows → fully_synced chain x ≡ true → x.number < next
  pub least :
      (((x : Block) → Among x rows → fully_synced chain x ≢ true) × (next ≡ start))
      ⊎ ((x : Block) × Among x rows × (fully_synced chain x ≡ true) × (next ≡ x.number + 1))

module _ (chain : ℤ) (start : ℕ) (rows : List Block)
    (small : (x : Block) → Among x rows → x.number + 1 < two_64) where
  none-IsNext : keep (fully_synced chain) rows ≡ [] → IsNext chain start rows start
  none-IsNext e =
      let synced_none : (x : Block) → Among x rows → fully_synced chain x ≢ true = λ x i h.
        let j : Among x [] = subst (Among x) e (keep-Among (fully_synced chain) x rows i h) in
        absurd j in
      record { passes = λ x i h. absurd (synced_none x i h); least = inl (synced_none, refl) }

  some-IsNext :
      (n : ℕ)
      → IsTop (keep (fully_synced chain) rows) (some n)
      → IsNext chain start rows ((n + 1) % two_64)
  some-IsNext n (r, same, i, top) =
      let (stored, synced) = Among-keep (fully_synced chain) r rows i in
      let bound = small r stored in
      let next : (n + 1) % two_64 ≡ r.number + 1 = omega arith in
      rw next (record {
        passes =
            λ x j h. let below = top x (keep-Among (fully_synced chain) x rows j h) in omega arith;
        least = inr (r, stored, synced, refl);
      })

module _ {W : Type 0} (u : Unicode) (g : Geth) (db : Database W) (client : EthClient W)
    (cfg : Config) (d : DatabaseContract db) (w : W)
    (small : (x : Block) → Among x (d.blocks w) → x.number + 1 < two_64) where
  abbrev indexer : BlockIndexer W
  indexer = block_indexer u g db client cfg

  found-IsNext :
      (found : Option ℕ)
      → IsTop (keep (fully_synced cfg.rpc.chain_id) (d.blocks w)) found
      → IsNext cfg.rpc.chain_id cfg.indexer.start_block (d.blocks w) (next_after indexer found)
  found-IsNext none h = none-IsNext cfg.rpc.chain_id cfg.indexer.start_block (d.blocks w) small h
  found-IsNext (some n) h =
      some-IsNext cfg.rpc.chain_id cfg.indexer.start_block (d.blocks w) small n h

  latest-Ends :
      (r : Result (Option ℕ)) (w' : W)
      → ((found : Option ℕ)
          → r ≡ ok found
          → IsTop (keep (fully_synced cfg.rpc.chain_id) (d.blocks w)) found)
      → Ends
          (λ found _. Unit {0} × IsTop (keep (fully_synced cfg.rpc.chain_id) (d.blocks w)) found)
          (λ _. Unit {0})
          r
          w'
  latest-Ends (ok found) w' h = (tt, h found refl)
  latest-Ends (err e) w' h = tt

  latest-Ensures :
      Ensures
        (λ w'. w' ≡ w)
        (get_latest_fully_synced_block_number db cfg.rpc.chain_id)
        (λ found _. Unit {0} × IsTop (keep (fully_synced cfg.rpc.chain_id) (d.blocks w)) found)
        (λ _. Unit {0})
  latest-Ensures = record {
    at = λ w' same. rw same (
        latest-Ends (get_latest_fully_synced_block_number db cfg.rpc.chain_id w).0
          (get_latest_fully_synced_block_number db cfg.rpc.chain_id w).1
          (λ found e.
            latest-IsTop db d cfg.rpc.chain_id w (λ x i. let bound = small x i in omega arith) found
              e));
  }

  target-Ensures :
      Ensures
        (λ _. Unit {0})
        (indexer.sync_target_reader.get_block_number_by_tag indexer.sync_target)
        (λ _ _. Unit {0})
        (λ _. Unit {0})
  target-Ensures = record {
    at = λ w' p.
        let (r, after) =
          indexer.sync_target_reader.get_block_number_by_tag indexer.sync_target w' in
        always (λ _. Unit {0}) r after tt;
  }

  next-Ensures :
      Ensures
        (λ w'. w' ≡ w)
        (get_next_block_to_sync indexer)
        (λ status _. IsNext cfg.rpc.chain_id cfg.indexer.start_block (d.blocks w) status.next)
        (λ _. Unit {0})
  unfolding get_next_block_to_sync
  next-Ensures = Ensures-bind (Ensures-map_err _ latest-Ensures) (λ found. Ensures-given (λ top.
      Ensures-bind (Ensures-map_err _ target-Ensures)
        (λ target. Ensures-pure (status_of indexer found target) (λ w' p. found-IsNext found top))))

-- The wired indexer's next block, by the rows that it starts from, whose numbers are below the largest
-- uint64: if `GetNextBlockToSync` answers, the next block is above every fully synced block of the chain,
-- whatever blocks below are missing or failed, and it is the one after such a block, or the start block if
-- there is none.
pub get_next_block_to_sync-IsNext :
    {W : Type 0} (u : Unicode) (g : Geth) (db : Database W) (client : EthClient W) (cfg : Config)
    (d : DatabaseContract db) (w : W) (status : IndexerStatus)
    → ((x : Block) → Among x (d.blocks w) → x.number + 1 < two_64)
    → (get_next_block_to_sync (block_indexer u g db client cfg) w).0 ≡ ok status
    → IsNext cfg.rpc.chain_id cfg.indexer.start_block (d.blocks w) status.next
get_next_block_to_sync-IsNext u g db client cfg d w status small h =
    subst
      (λ r.
        Ends (λ status _. IsNext cfg.rpc.chain_id cfg.indexer.start_block (d.blocks w) status.next)
          (λ _. Unit {0}) r (get_next_block_to_sync (block_indexer u g db client cfg) w).1)
      h ((next-Ensures u g db client cfg d w small).at w refl)
