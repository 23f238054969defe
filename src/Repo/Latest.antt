-- ===== src/Repo/Latest.antt =====
-- The two queries for the latest completed block: its number for the indexer, its row for the wallet.
use block_explorer_backend.Prelude.{
  ℕ, ◌<◌, ◌≤◌, ◌≡◌, refl, ap, ◌∙◌, inl, inr, String, false, Bool-cases, Option, none, some, List,
  [], keep, ltb, lt→ltb, arith, Among, All-Among,
}
use block_explorer_backend.Prelude.Int.{ℤ, pos, leb_ℤ, to_uint64, two_64}
use block_explorer_backend.Errors.{GoError}
use block_explorer_backend.Errors.Upstream.{is_record_not_found}
use block_explorer_backend.Effect.{Result, ok, err, continue, on_error}
use block_explorer_backend.Models.{Block}
use block_explorer_backend.Gorm.{Database}
use block_explorer_backend.Gorm.Contract.{DatabaseContract}
use block_explorer_backend.Gorm.Rows.{Among-keep}
use block_explorer_backend.Repo.{found_row}
use block_explorer_backend.Repo.Blocks.{
  fully_synced, latest_query, max_of, get_latest_fully_synced_block_number,
  get_latest_completed_block,
}

-- The greatest of the rows, by the number: none for no row.
abbrev pub IsTop : List Block → Option ℕ → Type 0
IsTop rows none = rows ≡ []
IsTop rows (some n) =
    (r : Block) × (n ≡ r.number) × Among r rows × ((x : Block) → Among x rows → x.number ≤ r.number)

IsTop-unique : (rows : List Block) (a b : Option ℕ) → IsTop rows a → IsTop rows b → a ≡ b
IsTop-unique rows none none h k = refl
IsTop-unique rows none (some b) h (r, _, i, _) = let i' : Among r [] = rw h at i in absurd i'
IsTop-unique rows (some a) none (r, _, i, _) k = let i' : Among r [] = rw k at i in absurd i'
IsTop-unique rows (some a) (some b) (r, e, i, top) (s, f, j, top') =
    let below = top s j in let above = top' r i in let same : a ≡ b = omega arith in ap some same

pub to_uint64-small : (n : ℕ) → n < two_64 → to_uint64 (pos n) ≡ n
unfolding to_uint64
to_uint64-small n h = omega arith

module _ {W : Type 0} (db : Database W) (c : DatabaseContract db) (chain : ℤ) (w : W) where
  open c use {blocks, block_table}

  abbrev pub completed_rows : List Block
  completed_rows = keep (fully_synced chain) (blocks w)

  max-IsTop :
      ((x : Block) → Among x (blocks w) → x.number < two_64)
      → (message : GoError → GoError) (r : Result (Option ℤ)) (w' : W) (n : Option ℕ)
      → (db.blocks.max (fully_synced chain) (λ b. b.number) w).0 ≡ r
      → (continue (on_error message r) (λ latest w. (ok (max_of latest), w)) w').0 ≡ ok n
      → IsTop completed_rows n
  max-IsTop small message (err e) w' n h k = absurd (cc)
  max-IsTop small message (ok none) w' n h k =
      let same : none ≡ n = cc in
      rw (← same) (block_table.max_misses (fully_synced chain) (λ b. b.number) w h)
  max-IsTop small message (ok (some m)) w' n h k =
      let (r, value, i, top) = block_table.max_finds (fully_synced chain) (λ b. b.number) w m h in
      let same : some (to_uint64 m) ≡ n = cc in
      let bound = small r (Among-keep (fully_synced chain) r (blocks w) i).0 in
      let number = ap to_uint64 value ∙ to_uint64-small r.number bound in
      rw (← same) (r, number, i, λ x j. All-Among (λ x. x.number ≤ r.number) completed_rows x top j)

  first-IsTop :
      (message : String) (r : Result Block) (found : Option Block)
      → (db.blocks.first (latest_query chain) w).0 ≡ r
      → found_row message r ≡ ok found
      → IsTop completed_rows (elim found [ some b ↦ some b.number | none ↦ none ])
  first-IsTop message (ok b) found h k =
      let same : some b ≡ found = cc in
      let (i, top) = block_table.first_finds (latest_query chain) w b h in
      rw (← same) (
        b,
        refl,
        i,
        λ x j.
            let not_before : ltb b.number x.number ≡ false =
              All-Among (λ x. ltb b.number x.number ≡ false) completed_rows x top j in
            ground (arith, lt→ltb b.number x.number),
      )
  first-IsTop message (err e) found h k = elim (Bool-cases (is_record_not_found e)) [
    | inl missing ↦
        let k' : ◌≡◌ {A = Result (Option Block)} (ok none) (ok found) = rw missing at k in
        let same : none ≡ found = cc in
        rw (← same) (block_table.first_misses (latest_query chain) w e h missing)
    | inr failed ↦ let k' = rw failed at k in absurd (cc)
  ]

  pub latest-IsTop :
      ((x : Block) → Among x (blocks w) → x.number < two_64)
      → (n : Option ℕ) → (get_latest_fully_synced_block_number db chain w).0 ≡ ok n
      → IsTop completed_rows n
  unfolding get_latest_fully_synced_block_number
  latest-IsTop small n h = elim (Bool-cases (leb_ℤ chain (pos 0))) [
    | inl bad ↦ let h' = rw bad at h in absurd (cc)
    | inr good ↦
        max-IsTop small _ (db.blocks.max (fully_synced chain) (λ b. b.number) w).0 _ n refl
          (rw good at h)
  ]

-- The two queries agree: from the same rows, whose numbers are uint64, the number that the indexer gets
-- for the latest fully synced block is that of the row that the wallet gets, and there is none if there
-- is no row.
pub get_latest-agree :
    {W : Type 0} (db : Database W) (c : DatabaseContract db) (chain : ℤ) (w : W) (n : Option ℕ)
    (found : Option Block)
    → ((x : Block) → Among x (c.blocks w) → x.number < two_64)
    → (get_latest_fully_synced_block_number db chain w).0 ≡ ok n
    → (get_latest_completed_block db chain w).0 ≡ ok found
    → n ≡ elim found [ some b ↦ some b.number | none ↦ none ]
unfolding get_latest_completed_block
get_latest-agree db c chain w n found small h k =
    IsTop-unique (keep (fully_synced chain) (c.blocks w)) n _ (latest-IsTop db c chain w small n h)
      (first-IsTop db c chain w "get latest completed block: "
        (db.blocks.first (latest_query chain) w).0 found refl k)
