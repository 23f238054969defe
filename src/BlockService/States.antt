-- ===== src/BlockService/States.antt =====
-- The columns that say how far a block is synchronised: what they are when a block is inserted, what
-- the two marks write, and which combinations occur.
use block_explorer_backend.Prelude.{◌≡◌, refl, ◌⊎◌, inl, inr, String, true, false, none, some}
use block_explorer_backend.Models.{Block, transactions_synced, receipts_failed, completed}
use block_explorer_backend.BlockService.Contract.{marked_synced, marked_failed}

-- `MarkBlockReceiptsSynced` and `MarkBlockReceiptsSyncFailed`.
pub data Mark : Type 0 where
  synced : Mark
  failed : String → Mark

abbrev pub marked : Mark → Block → Block
marked synced = marked_synced
marked (failed reason) = marked_failed reason

pub marked-hash : (m : Mark) (b : Block) → (marked m b).hash ≡ b.hash
marked-hash synced b = refl
marked-hash (failed reason) b = refl

pub marked-parent_hash : (m : Mark) (b : Block) → (marked m b).parent_hash ≡ b.parent_hash
marked-parent_hash synced b = refl
marked-parent_hash (failed reason) b = refl

abbrev pub IsCompleted : Block → Type 0
IsCompleted b =
    (b.sync_status ≡ completed) × (b.receipts_synced ≡ true) × (b.last_sync_error ≡ none)

abbrev pub IsAwaiting : Block → Type 0
IsAwaiting b =
    (b.sync_status ≡ transactions_synced) × (b.receipts_synced ≡ false) × (b.last_sync_error ≡ none)

abbrev pub IsFailed : Block → Type 0
IsFailed b =
    (b.sync_status ≡ receipts_failed)
    × (b.receipts_synced ≡ false)
    × ((reason : String) × (b.last_sync_error ≡ some reason))

-- The columns of a block that is inserted.
abbrev pub IsFresh : Block → Type 0
IsFresh b = (b.transactions_synced ≡ true) × (IsCompleted b ⊎ IsAwaiting b)

-- The columns of a stored block: its transactions are stored, and its receipts are stored, awaited, or
-- have failed with a reason.
abbrev pub IsConsistent : Block → Type 0
IsConsistent b = (b.transactions_synced ≡ true) × (IsCompleted b ⊎ IsAwaiting b ⊎ IsFailed b)

pub IsFresh-IsConsistent : (b : Block) → IsFresh b → IsConsistent b
IsFresh-IsConsistent b (stored, inl done) = (stored, inl done)
IsFresh-IsConsistent b (stored, inr awaiting) = (stored, inr (inl awaiting))

pub marked-IsConsistent : (m : Mark) (b : Block) → IsConsistent b → IsConsistent (marked m b)
marked-IsConsistent synced b (stored, _) = (stored, inl (refl, refl, refl))
marked-IsConsistent (failed reason) b (stored, _) = (stored, inr (inr (refl, refl, (reason, refl))))
