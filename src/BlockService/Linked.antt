-- ===== src/BlockService/Linked.antt =====
-- What the writes of the store do to a linked chain.
use block_explorer_backend.Prelude.{
  ℕ, suc, ◌-◌, ◌≡◌, ◌≢◌, refl, sym, ◌∙◌, inl, inr, none, some, arith, ◌==◌, Bool-cases, ==_iff,
}
use block_explorer_backend.Prelude.Int.{ℤ, eqb_ℤ_iff}
use block_explorer_backend.Text.{Unicode}
use block_explorer_backend.Models.{Block}
use block_explorer_backend.BlockService.Interfaces.{BlockService}
use block_explorer_backend.BlockService.Contract.{BlockTable, write_at}
use block_explorer_backend.BlockService.Link.{HasParent, IsLinked}
use block_explorer_backend.BlockService.Shared.{Grows, Supported}

pub write_at_self : (c : ℤ) (n : ℕ) (b : Block) (t : BlockTable) → write_at c n b t c n ≡ some b
write_at_self c n b t = ground (arith, eqb_ℤ_iff c c)

pub write_at_ne :
    (c : ℤ) (n m : ℕ) (b : Block) (t : BlockTable) → m ≢ n → write_at c n b t c m ≡ t c m
write_at_ne c n m b t h = ground (arith, eqb_ℤ_iff c c)

pub write_at_row :
    (c : ℤ) (n m : ℕ) (b x : Block) (t : BlockTable) → m ≡ n → write_at c n b t c m ≡ some x → x ≡ b
write_at_row c n m b x t h e = ground (arith, eqb_ℤ_iff c c)

module _ (c : ℤ) (n : ℕ) (old : Block) (f : Block → Block) (t : BlockTable)
    (stored : t c n ≡ some old) where
  -- A row of the updated table stems from a row of the table.
  update_before :
      (m : ℕ) (x : Block)
      → ((b : Block) → (f b).parent_hash ≡ b.parent_hash)
      → write_at c n (f old) t c m ≡ some x
      → (x' : Block) × (t c m ≡ some x') × (x.parent_hash ≡ x'.parent_hash)
  update_before m x keeps e = elim (Bool-cases (m == n)) [
    | inl here ↦
        let at_n : m ≡ n = (==_iff m n).0 here in
        let same : x ≡ f old = write_at_row c n m (f old) x t at_n e in
        (old, rw at_n stored, rw same (keeps old))
    | inr there ↦ (x, sym (write_at_ne c n m (f old) t (ground arith)) ∙ e, refl)
  ]

  -- A row of the table is there after the update, with its hash.
  update_after :
      (m : ℕ) (p : Block)
      → ((b : Block) → (f b).hash ≡ b.hash)
      → t c m ≡ some p
      → (p' : Block) × (write_at c n (f old) t c m ≡ some p') × (p'.hash ≡ p.hash)
  update_after m p keeps e = elim (Bool-cases (m == n)) [
    | inl here ↦
        let at_n : m ≡ n = (==_iff m n).0 here in
        let same : p ≡ old = cc in
        (f old, rw at_n (write_at_self c n (f old) t), rw same (keeps old))
    | inr there ↦ (p, write_at_ne c n m (f old) t (ground arith) ∙ e, refl)
  ]

module _ {W : Type 0} (u : Unicode) (s : BlockService W) (t : BlockTable)
    (linked : IsLinked u s t) where
  followed_parent :
      (b : Block) (n : ℕ)
      → suc n ≡ b.number
      → suc n ≢ s.start_block
      → Supported u s t b
      → HasParent u s t b n
  followed_parent b n e other (inl genesis) = absurd (omega arith)
  followed_parent b n e other (inr (inl (pos, h))) =
      let below : b.number - 1 ≡ n = omega arith in rw below at h
  followed_parent b n e other (inr (inr starts)) = absurd (other (e ∙ starts))

  -- A new row that has a place keeps the chain linked.
  pub write_new-IsLinked :
      (b : Block)
      → t s.chain_id b.number ≡ none
      → Supported u s t b
      → IsLinked u s (write_at s.chain_id b.number b t)
  write_new-IsLinked b new follows = record {
    parent_of = λ n x e other. elim (Bool-cases (suc n == b.number)) [
      | inl here ↦
          let at_b : suc n ≡ b.number = (==_iff (suc n) b.number).0 here in
          let old : write_at s.chain_id b.number b t s.chain_id n ≡ t s.chain_id n =
            write_at_ne s.chain_id b.number n b t (omega arith) in
          let same : x ≡ b = write_at_row s.chain_id b.number (suc n) b x t at_b e in
          let (p, e', h) = followed_parent b n at_b other follows in (p, old ∙ e', rw same h)
      | inr there ↦
          let away : suc n ≢ b.number = ground arith in
          let (p, e', h) =
            linked.parent_of n x (sym (write_at_ne s.chain_id b.number (suc n) b t away) ∙ e)
              other in
          (p, write_at_ne s.chain_id b.number n b t (λ q. ground arith) ∙ e', h)
    ];
  }

  -- So does an update of a stored row that keeps its hashes.
  pub update-IsLinked :
      (f : Block → Block) (n : ℕ) (old : Block)
      → ((b : Block) → (f b).hash ≡ b.hash)
      → ((b : Block) → (f b).parent_hash ≡ b.parent_hash)
      → t s.chain_id n ≡ some old
      → IsLinked u s (write_at s.chain_id n (f old) t)
  update-IsLinked f n old keeps_hash keeps_parent stored = record {
    parent_of = λ m x e other.
        let (x', at_m, same_parent) =
          update_before s.chain_id n old f t stored (suc m) x keeps_parent e in
        let (p, e', h) = linked.parent_of m x' at_m other in
        let (p', at_p, same_hash) = update_after s.chain_id n old f t stored m p keeps_hash e' in
        (p', at_p, rw same_parent (rw same_hash h));
  }

module _ {W : Type 0} (u : Unicode) (s : BlockService W) (t₀ t : BlockTable)
    (grown : Grows u s t₀ t) where
  -- A write at a free place takes no block away.
  pub write_new-Grows :
      (b : Block) → t s.chain_id b.number ≡ none → Grows u s t₀ (write_at s.chain_id b.number b t)
  write_new-Grows b free = record {
    stays = λ m x e.
        let (x', e', same) = grown.stays m x e in
        (x', write_at_ne s.chain_id b.number m b t (λ here. ground arith) ∙ e', same);
  }

  -- Nor does an update that keeps the hash.
  pub update-Grows :
      (f : Block → Block) (n : ℕ) (old : Block)
      → ((b : Block) → (f b).hash ≡ b.hash)
      → t s.chain_id n ≡ some old
      → Grows u s t₀ (write_at s.chain_id n (f old) t)
  update-Grows f n old keeps_hash stored = record {
    stays = λ m x e.
        let (x', e', same) = grown.stays m x e in
        let (y, at_y, same_y) = update_after s.chain_id n old f t stored m x' keeps_hash e' in
        (y, at_y, same_y ∙ same);
  }
