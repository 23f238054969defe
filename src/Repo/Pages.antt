-- ===== src/Repo/Pages.antt =====
-- The page of completed blocks that the wallet reads.
use mathlib.Core.List.Permᴰ
use block_explorer_backend.Prelude.{
  ℕ, suc, ◌<◌, ◌≤◌, ◌≡◌, refl, ◌⊎◌, inl, inr, true, false, List, length, take, Among, All-Among,
  arith, ltb, leb, lt→ltb, ◌&&◌,
}
use block_explorer_backend.Prelude.Int.{ℤ, pos, two_64, ltb_ℤ, leb_ℤ}
use block_explorer_backend.Effect.{ok}
use block_explorer_backend.Effect.Ensures.{on_error-eq-ok}
use block_explorer_backend.Models.{Block}
use block_explorer_backend.Gorm.{Database}
use block_explorer_backend.Gorm.Contract.{DatabaseContract, IsOrdered, IsAnswer}
use block_explorer_backend.Gorm.Rows.{Among-keep, keep-Among}
use block_explorer_backend.Gorm.Answers.{
  Permᴰ-Among, take-Among, length-take, take-IsOrdered, take-cut,
}
use block_explorer_backend.Repo.Blocks.{
  fully_synced, wallet_query, list_wallet_completed_block_rows,
}
use block_explorer_backend.Repo.Latest.{to_uint64-small}

-- A page from a number on: fully synced blocks of the chain in the order of their numbers, at most
-- `limit` of them, and none left out: a block that is not on it comes after a full page.
pub record IsPage (chain : ℤ) (from limit : ℕ) (rows page : List Block) : Type 0 where
  pub stored :
      (x : Block) → Among x page → Among x rows × (fully_synced chain x ≡ true) × (from ≤ x.number)
  pub ordered : IsOrdered (λ a b. ltb a.number b.number) page
  pub bounded : length page ≤ limit
  pub complete :
      (x : Block)
      → Among x rows
      → fully_synced chain x ≡ true
      → from ≤ x.number
      → Among x page ⊎ ((length page ≡ limit) × ((y : Block) → Among y page → y.number ≤ x.number))

module _ (chain : ℤ) (from k : ℕ) (rows page : List Block)
    (a : IsAnswer (wallet_query chain from (pos (suc k))) rows page) where
  cut_page : page ≡ take (suc k) a.arranged
  cut_page = a.cut 0 (take (suc k) a.arranged) refl refl

  page_stored :
      (x : Block) → Among x page → Among x rows × (fully_synced chain x ≡ true) × (from ≤ x.number)
  page_stored x i =
      let i' : Among x (take (suc k) a.arranged) = rw cut_page at i in
      let (stored, matches) =
        Among-keep (wallet_query chain from (pos (suc k))).matches x rows
          (Permᴰ-Among x a.same_rows (take-Among (suc k) a.arranged x i')) in
      (stored, ground arith, ground arith)

  page_complete :
      (x : Block)
      → Among x rows
      → fully_synced chain x ≡ true
      → from ≤ x.number
      → Among x page ⊎ ((length page ≡ suc k) × ((y : Block) → Among y page → y.number ≤ x.number))
  page_complete x i synced above =
      let matches : (fully_synced chain x && leb from x.number) ≡ true = ground arith in
      let j =
        Permᴰ-Among x (Permᴰ.symm a.same_rows)
          (keep-Among (wallet_query chain from (pos (suc k))).matches x rows i matches) in
      rw cut_page (elim (take-cut (λ a b. ltb a.number b.number) (suc k) a.arranged x a.ordered j) [
        | inl there ↦ inl there
        | inr (full, later) ↦ inr (
          full,
          λ y m.
              let not_before : ltb x.number y.number ≡ false =
                All-Among (λ y. ltb x.number y.number ≡ false) (take (suc k) a.arranged) y later
                  m in
              ground (arith, lt→ltb x.number y.number),
        )
      ])

  answer-IsPage : IsPage chain from (suc k) rows page
  answer-IsPage = record {
    stored = page_stored;
    ordered =
        rw cut_page (take-IsOrdered (λ a b. ltb a.number b.number) (suc k) a.arranged a.ordered);
    bounded = rw cut_page (length-take (suc k) a.arranged);
    complete = page_complete;
  }

-- A page that the wallet reads holds stored blocks of the chain from the asked number on that are
-- fully synced, in the order of their numbers and at most as many as asked for, and leaves none out:
-- such a block that is not on the page comes after a full page.
pub list_wallet_completed_block_rows-IsPage :
    {W : Type 0} (db : Database W) (c : DatabaseContract db) (chain : ℤ) (from k : ℕ) (w : W)
    (page : List Block)
    → from < two_64
    → (list_wallet_completed_block_rows db chain (pos from) (pos (suc k)) w).0 ≡ ok page
    → IsPage chain from (suc k) (c.blocks w) page
unfolding list_wallet_completed_block_rows
list_wallet_completed_block_rows-IsPage db c chain from k w page small h =
    let from_zero : ltb_ℤ (pos from) (pos 0) ≡ false = ground arith in
    let positive : leb_ℤ (pos (suc k)) (pos 0) ≡ false = ground arith in
    let query = wallet_query chain from (pos (suc k)) in
    let h' = rw (from_zero, positive, to_uint64-small from small) at h in
    answer-IsPage chain from k (c.blocks w) page
      (c.block_table.find_finds query w page (on_error-eq-ok _ (db.blocks.find query w).0 page h'))
