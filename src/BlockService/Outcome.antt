-- ===== src/BlockService/Outcome.antt =====
-- The stored blocks that are those of a node's chain, which stays as it is, and what the writes of
-- `SyncBlockToDB` of internal/service/block_service.go make of them.
pub mod Calls
use block_explorer_backend.Prelude.{
  ℕ, ◌+◌, ◌⊎◌, String, ◌≡◌, ◌≢◌, refl, sym, ◌∙◌, ap, inl, inr, ◌==◌, ==_iff, Bool-cases, false,
  some, List, [], ◌∷◌, arith,
}
use block_explorer_backend.Text.{Unicode}
use block_explorer_backend.Ethereum.{EthBlock, EthTransaction, Geth, recover_sender}
use block_explorer_backend.Effect.{Result, ok, err}
use block_explorer_backend.Models.{Block, Transaction}
use block_explorer_backend.BlockService.Interfaces.{BlockService}
use block_explorer_backend.BlockService.Contract.{
  BlockTable, write_at, marked_synced, marked_failed, Inserted, Updated, StoreContract,
}
use block_explorer_backend.BlockService.Linked.{write_at_self, write_at_ne, write_at_row}
use block_explorer_backend.BlockService.States.{IsCompleted, IsConsistent}
use block_explorer_backend.BlockService.Defs.{build_transaction_models_from}

module _ {W : Type 0} (g : Geth) (s : BlockService W) (chain : ℕ → EthBlock) where
  -- The node answers from one chain, whose blocks have their own numbers and hashes.
  pub record Follows : Type 0 where
    pub gives :
        (n : ℕ) (w : W) (b : EthBlock)
        → (s.chain_block_reader.get_block_by_number n w).0 ≡ ok b
        → b ≡ chain n
    pub numbered : (n : ℕ) → (chain n).number ≡ n
    pub distinct : (m n : ℕ) → g.hash_hex (chain m).hash ≡ g.hash_hex (chain n).hash → m ≡ n

  -- The stored blocks are those of the node's chain, their columns are consistent, and a block without
  -- transactions is completed.
  pub record Mirrors (t : BlockTable) : Type 0 where
    pub hashes : (m : ℕ) (b : Block) → t s.chain_id m ≡ some b → b.hash ≡ g.hash_hex (chain m).hash
    pub consistent : (m : ℕ) (b : Block) → t s.chain_id m ≡ some b → IsConsistent b
    pub empty_done :
        (m : ℕ) (b : Block) → t s.chain_id m ≡ some b → (chain m).transactions ≡ [] → IsCompleted b

  Mirrors-write :
      (t : BlockTable) (n : ℕ) (b : Block)
      → Mirrors t
      → b.hash ≡ g.hash_hex (chain n).hash
      → IsConsistent b
      → ((chain n).transactions ≡ [] → IsCompleted b)
      → Mirrors (write_at s.chain_id n b t)
  Mirrors-write t n b mirrors hash consistent empty = record {
    hashes = λ m x e. elim (Bool-cases (m == n)) [
      | inl here ↦
          let at_n = (==_iff m n).0 here in
          let same = write_at_row s.chain_id n m b x t at_n e in rw (same, at_n) hash
      | inr there ↦ mirrors.hashes m x (sym (write_at_ne s.chain_id n m b t (ground arith)) ∙ e)
    ];
    consistent = λ m x e. elim (Bool-cases (m == n)) [
      | inl here ↦
          let at_n = (==_iff m n).0 here in
          let same = write_at_row s.chain_id n m b x t at_n e in rw same consistent
      | inr there ↦ mirrors.consistent m x (sym (write_at_ne s.chain_id n m b t (ground arith)) ∙ e)
    ];
    empty_done = λ m x e none_there. elim (Bool-cases (m == n)) [
      | inl here ↦
          let at_n = (==_iff m n).0 here in
          let same = write_at_row s.chain_id n m b x t at_n e in
          rw same (empty (rw at_n at none_there))
      | inr there ↦
          mirrors.empty_done m x (sym (write_at_ne s.chain_id n m b t (ground arith)) ∙ e)
            none_there
    ];
  }

  -- No row of the number has its receipts.
  abbrev pub Open : ℕ → BlockTable → Type 0
  Open n t = (b : Block) → t s.chain_id n ≡ some b → b.receipts_synced ≡ false

  -- The row of the number is there and completed.
  abbrev pub Completed : ℕ → BlockTable → Type 0
  Completed n t = (b : Block) × (t s.chain_id n ≡ some b) × IsCompleted b

module _ {W : Type 0} (u : Unicode) (g : Geth) (s : BlockService W) where
  -- The rows of a block's transactions are as many as its transactions: none for none.
  built-cons :
      (b : EthBlock) (i : ℕ) (tx : EthTransaction) (txs : List EthTransaction) (from : Result ℕ)
      (rest : Result (List Transaction))
      → g.sender s.chain_id tx ≡ from
      → build_transaction_models_from u g s b (i + 1) txs ≡ rest
      → build_transaction_models_from u g s b i (tx ∷ txs) ≢ ok []
  unfolding build_transaction_models_from recover_sender
  built-cons b i tx txs (err x) rest h k =
      λ e. let e' = rw (h, build_transaction_models_from) at e in absurd (cc)
  built-cons b i tx txs (ok from) (err x) h k =
      λ e. let e' = rw (h, k, build_transaction_models_from) at e in absurd (cc)
  built-cons b i tx txs (ok from) (ok rows) h k =
      λ e. let e' = rw (h, k, build_transaction_models_from) at e in absurd (cc)

  pub built-empty :
      (b : EthBlock) (i : ℕ) (txs : List EthTransaction)
      → build_transaction_models_from u g s b i txs ≡ ok []
      → txs ≡ []
  built-empty b i [] e = refl
  built-empty b i (tx ∷ txs) e = absurd (built-cons b i tx txs _ _ refl refl e)

  pub built-some :
      (b : EthBlock) (i : ℕ) (txs : List EthTransaction) (row : Transaction)
      (rows : List Transaction)
      → build_transaction_models_from u g s b i txs ≡ ok (row ∷ rows)
      → txs ≢ []
  unfolding build_transaction_models_from
  built-some b i [] row rows e = λ h. absurd (cc)
  built-some b i (tx ∷ txs) row rows e = λ h. absurd (cc)

module _ {W : Type 0} (u : Unicode) (g : Geth) (s : BlockService W) (c : StoreContract s)
    (chain : ℕ → EthBlock) (follows : Follows g s chain) (number : ℕ) where
  -- Before the receipts, and at every failure.
  abbrev pub Pending : BlockTable → Type 0
  Pending t = Mirrors g s chain t × Open g s chain number t

  abbrev pub Waiting : W → Type 0
  Waiting w = Pending (c.table w)

  abbrev pub Settled : BlockTable → Type 0
  Settled t = Mirrors g s chain t × Completed g s chain number t

  abbrev pub Ended : W → Type 0
  Ended w = Settled (c.table w)

  abbrev OwnHash : Block → Type 0
  OwnHash b = b.hash ≡ g.hash_hex (chain number).hash

  -- Every conflict of the node's block is with the row of its own number.
  Inserted-cases :
      (t t' : BlockTable) (b : Block)
      → Mirrors g s chain t
      → b.chain_id ≡ s.chain_id
      → b.number ≡ number
      → OwnHash b
      → Inserted b t t'
      → ((old : Block) × (t s.chain_id number ≡ some old) × (t' ≡ t))
        ⊎ (t' ≡ write_at s.chain_id number b t)
  Inserted-cases t t' b mirrors own here hash (inl (inl (old, e), same)) =
      inl (old, rw (own, here) at e, same)
  Inserted-cases t t' b mirrors own here hash (inl (inr (m, old, e, twin), same)) =
      let e' : t s.chain_id m ≡ some old = rw own at e in
      let at_number = follows.distinct m number (sym (mirrors.hashes m old e') ∙ twin ∙ hash) in
      inl (old, rw at_number at e', same)
  Inserted-cases t t' b mirrors own here hash (inr (free, written)) =
      inr
        (written ∙ ap (λ d. write_at d b.number b t) own ∙ ap (λ n. write_at s.chain_id n b t) here)

  written-Open :
      (t : BlockTable) (b : Block)
      → b.receipts_synced ≡ false
      → Open g s chain number (write_at s.chain_id number b t)
  written-Open t b waits x e =
      let same = write_at_row s.chain_id number number b x t refl e in rw same waits

  -- What an insertion leaves, without transactions and with some.
  pub insert_empty-Settled :
      (t t' : BlockTable) (b : Block)
      → Pending t
      → b.chain_id ≡ s.chain_id
      → b.number ≡ number
      → OwnHash b
      → (chain number).transactions ≡ []
      → IsConsistent b
      → IsCompleted b
      → Inserted b t t'
      → Settled t'
  insert_empty-Settled t t' b (mirrors, waits) own here hash empty consistent done inserted =
      elim (Inserted-cases t t' b mirrors own here hash inserted) [
        | inl (old, stored, same) ↦
            rw same (mirrors, (old, stored, mirrors.empty_done number old stored empty))
        | inr written ↦ rw written (
          Mirrors-write g s chain t number b mirrors hash consistent (λ _. done),
          (b, write_at_self s.chain_id number b t, done),
        )
      ]

  pub insert_some-Pending :
      (t t' : BlockTable) (b : Block)
      → Pending t
      → b.chain_id ≡ s.chain_id
      → b.number ≡ number
      → OwnHash b
      → (chain number).transactions ≢ []
      → IsConsistent b
      → b.receipts_synced ≡ false
      → Inserted b t t'
      → Pending t'
  insert_some-Pending t t' b (mirrors, before) own here hash some_there consistent waits inserted =
      elim (Inserted-cases t t' b mirrors own here hash inserted) [
        | inl (old, stored, same) ↦ rw same (mirrors, before)
        | inr written ↦ rw written (
          Mirrors-write g s chain t number b mirrors hash consistent
              (λ none_there. absurd (some_there none_there)),
          written-Open t b waits,
        )
      ]

  pub synced-Settled :
      (t t' : BlockTable) → Pending t → Updated marked_synced s.chain_id number t t' → Settled t'
  synced-Settled t t' (mirrors, waits) (old, stored, written) =
      let (flag, _) = mirrors.consistent number old stored in
      rw written (
        Mirrors-write g s chain t number (marked_synced old) mirrors
            (mirrors.hashes number old stored) (flag, inl (refl, refl, refl))
            (λ _. (refl, refl, refl)),
        (
          marked_synced old,
          write_at_self s.chain_id number (marked_synced old) t,
          (refl, refl, refl),
        ),
      )

  pub failed-Pending :
      (t t' : BlockTable) (reason : String)
      → (chain number).transactions ≢ []
      → Pending t
      → Updated (marked_failed reason) s.chain_id number t t'
      → Pending t'
  failed-Pending t t' reason some_there (mirrors, waits) (old, stored, written) =
      let (flag, _) = mirrors.consistent number old stored in
      rw written (
        Mirrors-write g s chain t number (marked_failed reason old) mirrors
            (mirrors.hashes number old stored) (flag, inr (inr (refl, refl, (reason, refl))))
            (λ none_there. absurd (some_there none_there)),
        written-Open t (marked_failed reason old) refl,
      )
