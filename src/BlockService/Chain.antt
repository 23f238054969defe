-- ===== src/BlockService/Chain.antt =====
-- The validation of a block, among others that act between its calls: what is known of the block once
-- it has passed.
pub mod Writes
pub mod Sync
use block_explorer_backend.Prelude.{
  ℕ, ◌-◌, ◌<◌, ◌≡◌, refl, inl, inr, Option, none, some, arith, ltb, ltb→lt,
}
use block_explorer_backend.Text.{Unicode}
use block_explorer_backend.Ethereum.{Geth}
use block_explorer_backend.Effect.{Result, ok, err, Io, lift}
use block_explorer_backend.Effect.Ensures.{
  Ends, Ensures, Ensures-pure, Ensures-lift, Ensures-if, Ensures-map_err, Ensures-bind,
  Ensures-weaken,
}
use block_explorer_backend.Effect.Keeps.{always}
use block_explorer_backend.Models.{Block}
use block_explorer_backend.BlockService.Interfaces.{BlockService}
use block_explorer_backend.BlockService.Contract.{BlockTable, StoreContract}
use block_explorer_backend.BlockService.Shared.{
  preceded, shared, Supported, Fits, Grows-Fits, Respects, Kept,
}
use block_explorer_backend.BlockService.Defs.{
  check_existing, check_parent, validate_found, validate_block_for_sync,
}

module _ {W : Type 0} (u : Unicode) (g : Geth) (s : BlockService W) (c : StoreContract s)
    (others : W → W) (r : Respects u s c.table others) (J : BlockTable → Type 0)
    (k : Kept u s c.table others J) where
  -- The world shows a table with `J`.
  abbrev pub Holds : W → Type 0
  Holds w = J (c.table w)

  -- So it does, and the block fits.
  abbrev pub Fitting : Block → W → Type 0
  Fitting b w = J (c.table w) × Fits u s (c.table w) b

  pub Fitting-aside : (b : Block) (w : W) → Fitting b w → Fitting b (others w)
  Fitting-aside b w (j, f) =
      (k.aside w j, Grows-Fits u s (c.table w) (c.table (others w)) b (r.grows w) f)

  -- A call that leaves the table alone, after the others.
  pub aside-Ensures :
      {A : Type 0} (P : BlockTable → Type 0) (m : Io W A)
      → ((w : W) → P (c.table w) → P (c.table (others w)))
      → ((w : W) → c.table (m w).1 ≡ c.table w)
      → Ensures (λ w. P (c.table w)) (preceded others m) (λ a w. P (c.table w)) (λ w. P (c.table w))
  aside-Ensures P m stable keeps = record {
    at = λ w p.
        always (λ w. P (c.table w)) (m (others w)).0 (m (others w)).1
          (rw (keeps (others w)) (stable w p));
  }

  -- A row that was found is a row of the table.
  abbrev Seen : ℕ → Option Block → BlockTable → Type 0
  Seen n none t = Unit {0}
  Seen n (some b) t = t s.chain_id n ≡ some b

  Seen-Ends :
      (n : ℕ) (res : Result (Option Block)) (w : W)
      → Holds w
      → ((found : Option Block) → res ≡ ok found → c.table w s.chain_id n ≡ found)
      → Ends (λ found w. Holds w × Seen n found (c.table w)) Holds res w
  Seen-Ends n (ok none) w j finds = (j, tt)
  Seen-Ends n (ok (some b)) w j finds = (j, finds (some b) refl)
  Seen-Ends n (err e) w j finds = j

  read-Ensures :
      (n : ℕ)
      → Ensures Holds
          (preceded others (s.block_sync_store.get_block_by_number s.chain_id n))
          (λ found w. Holds w × Seen n found (c.table w))
          Holds
  read-Ensures n = record {
    at = λ w p.
        let v = others w in
        let (res, v') = s.block_sync_store.get_block_by_number s.chain_id n v in
        let same = c.read_keeps s.chain_id n v in
        Seen-Ends n res v' (rw same (k.aside w p))
          (λ found e. rw same (c.read_finds s.chain_id n v found e));
  }

  check_parent-Supported :
      (b : Block) (parent : Option Block) (t : BlockTable)
      → 0 < b.number
      → Seen (b.number - 1) parent t
      → check_parent u g (shared others s) parent b ≡ ok tt
      → Supported u s t b
  check_parent-Supported b none t above seen accepted = inr (inr (ground arith))
  check_parent-Supported b (some p) t above seen accepted =
      inr (inl (above, (p, seen, ground arith)))

  check_parent-Ensures :
      (b : Block) (parent : Option Block)
      → 0 < b.number
      → Ensures
          (λ w. Holds w × Seen (b.number - 1) parent (c.table w))
          (lift (check_parent u g (shared others s) parent b))
          (λ _. Fitting b)
          Holds
  check_parent-Ensures b parent above =
      Ensures-lift (check_parent u g (shared others s) parent b)
        (λ a accepted w (j, seen).
          (j, inr (check_parent-Supported b parent (c.table w) above seen accepted)))
        (λ w (j, seen). j)

  validate_found-Ensures :
      (b : Block) (found : Option Block)
      → Ensures
          (λ w. Holds w × Seen b.number found (c.table w))
          (validate_found u g (shared others s) found b)
          (λ _. Fitting b)
          Holds
  validate_found-Ensures b (some old) =
      Ensures-lift (check_existing u g (shared others s) old b)
        (λ a accepted w (j, seen). (j, inl (old, seen))) (λ w (j, seen). j)
  validate_found-Ensures b none =
      Ensures-if (ltb 0 b.number)
        (λ above.
          Ensures-bind
            (Ensures-weaken (Ensures-map_err _ (read-Ensures (b.number - 1))) (λ w (j, _). j)
              (λ a w q. q) (λ w e. e))
            (λ parent. check_parent-Ensures b parent (ltb→lt 0 b.number above)))
        (λ genesis. Ensures-pure tt (λ w (j, seen). (j, inr (inl (ground arith)))))

  pub validate_block_for_sync-Ensures :
      (b : Block)
      → Ensures Holds (validate_block_for_sync u g (shared others s) b) (λ _. Fitting b) Holds
  unfolding validate_block_for_sync
  validate_block_for_sync-Ensures b =
      Ensures-bind (Ensures-map_err _ (read-Ensures b.number))
        (λ found. validate_found-Ensures b found)
