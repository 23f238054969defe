-- ===== src/Indexer/Status.antt =====
-- `GetNextBlockToSync` of internal/indexer/block_indexer.go: what a status says.
use block_explorer_backend.Prelude.{ℕ, ◌≡◌, refl, leb}
use block_explorer_backend.Effect.{Result, ok, err, Io}
use block_explorer_backend.Effect.Ensures.{
  Ends, Ensures, Ensures-pure, Ensures-map_err, Ensures-bind, Ensures-given,
}
use block_explorer_backend.Dto.{IndexerStatus}
use block_explorer_backend.Indexer.{BlockIndexer, status_of, get_next_block_to_sync}

-- What a call answers, in the one world that it is made in.
answer-Ends :
    {W A : Type 0} (r : Result A) (w : W) → Ends (λ a w'. (w' ≡ w) × (r ≡ ok a)) (λ _. Unit {0}) r w
answer-Ends (ok a) w = (refl, refl)
answer-Ends (err e) w = tt

answer-Ensures :
    {W A : Type 0} (m : Io W A) (w : W)
    → Ensures (λ w'. w' ≡ w) m (λ a w'. (w' ≡ (m w).1) × ((m w).0 ≡ ok a)) (λ _. Unit {0})
answer-Ensures m w = record { at = λ w' here. rw here (answer-Ends (m w).0 (m w).1) }

-- The status of an indexer: its target is what the node answers, and the block is to be copied exactly
-- if it is not above the target.
module _ {W : Type 0} (s : BlockIndexer W) (w : W) where
  -- The world in which the node is asked.
  abbrev asked_in : W
  asked_in = (s.block_sync_progress_reader.get_latest_fully_synced_block_number s.chain_id w).1

  abbrev pub NamesTarget : ℕ → Type 0
  NamesTarget target =
      (s.sync_target_reader.get_block_number_by_tag s.sync_target asked_in).0 ≡ ok target

  target-Ensures :
      Ensures
        (λ w'. w' ≡ w)
        (get_next_block_to_sync s)
        (λ status _.
          NamesTarget status.rpc_target × (status.should_sync ≡ leb status.next status.rpc_target))
        (λ _. Unit {0})
  unfolding get_next_block_to_sync
  target-Ensures =
      Ensures-bind
        (Ensures-map_err _ (
          answer-Ensures
            (s.block_sync_progress_reader.get_latest_fully_synced_block_number s.chain_id) w))
        (λ latest. Ensures-given (λ _.
          Ensures-bind
            (Ensures-map_err _ (
              answer-Ensures (s.sync_target_reader.get_block_number_by_tag s.sync_target) asked_in))
            (λ target.
              Ensures-given
                (λ told. Ensures-pure (status_of s latest target) (λ w' p. (told, refl))))))

  target_of :
      (r : Result IndexerStatus) (w' : W) (status : IndexerStatus)
      → r ≡ ok status
      → Ends
          (λ status _.
            NamesTarget status.rpc_target
            × (status.should_sync ≡ leb status.next status.rpc_target))
          (λ _. Unit {0})
          r
          w'
      → NamesTarget status.rpc_target × (status.should_sync ≡ leb status.next status.rpc_target)
  target_of (ok x) w' status e h = let same : x ≡ status = cc in rw (← same) h
  target_of (err x) w' status e h = absurd (cc)

  pub target-told :
      (status : IndexerStatus)
      → (get_next_block_to_sync s w).0 ≡ ok status
      → NamesTarget status.rpc_target × (status.should_sync ≡ leb status.next status.rpc_target)
  target-told status e =
      target_of (get_next_block_to_sync s w).0 (get_next_block_to_sync s w).1 status e
        (target-Ensures.at w refl)
