-- ===== src/Gorm/Inserts.antt =====
-- The rows of a table after an insertion that passes over conflicts.
use block_explorer_backend.Prelude.{
  ◌≡◌, refl, ◌⊎◌, inl, inr, Bool, true, false, List, [], ◌∷◌, ◌++◌, Among,
}
use block_explorer_backend.Gorm.Contract.{any, insert_row, insert_rows}
use block_explorer_backend.Gorm.Rows.{any-cases}

module _ {Row : Type 0} where
  Among-append : (xs ys : List Row) (a : Row) → Among a xs ⊎ Among a ys → Among a (xs ++ ys)
  Among-append [] ys a (inl i) = absurd i
  Among-append [] ys a (inr j) = j
  Among-append (x ∷ xs) ys a (inl (inl same)) = inl same
  Among-append (x ∷ xs) ys a (inl (inr i)) = inr (Among-append xs ys a (inl i))
  Among-append (x ∷ xs) ys a (inr j) = inr (Among-append xs ys a (inr j))

  append-Among : (xs ys : List Row) (a : Row) → Among a (xs ++ ys) → Among a xs ⊎ Among a ys
  append-Among [] ys a j = inr j
  append-Among (x ∷ xs) ys a (inl same) = inl (inl same)
  append-Among (x ∷ xs) ys a (inr i) = elim (append-Among xs ys a i) [
    | inl j ↦ inl (inr j)
    | inr j ↦ inr j
  ]

-- A row is there, or one that takes its place in a unique index.
abbrev pub IsTaken : {Row : Type 0} → (Row → Row → Bool) → Row → List Row → Type 0
IsTaken {Row} conflict r rows = (x : Row) × Among x rows × ((x ≡ r) ⊎ (conflict r x ≡ true))

-- An insertion loses no row, finds each place taken, and brings in no rows but those asked for.
pub record IsInserted {Row : Type 0} (conflict : Row → Row → Bool) (new before after : List Row)
    : Type 0 where
  pub keeps : (x : Row) → Among x before → Among x after
  pub takes : (x : Row) → Among x new → IsTaken conflict x after
  pub only : (x : Row) → Among x after → Among x before ⊎ Among x new

module _ {Row : Type 0} (conflict : Row → Row → Bool) where
  insert_row-keeps :
      (r x : Row) (rows : List Row) (b : Bool)
      → Among x rows
      → Among x (insert_row conflict r rows b)
  insert_row-keeps r x rows true i = i
  insert_row-keeps r x rows false i = Among-append rows (r ∷ []) x (inl i)

  insert_row-only :
      (r x : Row) (rows : List Row) (b : Bool)
      → Among x (insert_row conflict r rows b)
      → Among x rows ⊎ Among x (r ∷ [])
  insert_row-only r x rows true i = inl i
  insert_row-only r x rows false i = append-Among rows (r ∷ []) x i

  insert_row-IsTaken :
      (r : Row) (rows : List Row)
      → IsTaken conflict r (insert_row conflict r rows (any (conflict r) rows))
  insert_row-IsTaken r rows = elim (any-cases (conflict r) rows) [
    | inl (free, other) ↦ rw free (r, Among-append rows (r ∷ []) r (inr (inl refl)), inl refl)
    | inr (taken, (x, i, same)) ↦ rw taken (x, i, inr same)
  ]

  insert_rows-keeps :
      (rs rows : List Row) (x : Row) → Among x rows → Among x (insert_rows conflict rs rows)
  insert_rows-keeps [] rows x i = i
  insert_rows-keeps (r ∷ rs) rows x i =
      insert_rows-keeps rs _ x (insert_row-keeps r x rows (any (conflict r) rows) i)

  insert_rows-takes :
      (rs rows : List Row) (x : Row)
      → Among x rs
      → IsTaken conflict x (insert_rows conflict rs rows)
  insert_rows-takes [] rows x i = absurd i
  insert_rows-takes (r ∷ rs) rows x (inl same) =
      let (y, j, taken) = insert_row-IsTaken r rows in
      rw same (y, insert_rows-keeps rs _ y j, taken)
  insert_rows-takes (r ∷ rs) rows x (inr i) = insert_rows-takes rs _ x i

  insert_rows-only :
      (rs rows : List Row) (x : Row)
      → Among x (insert_rows conflict rs rows)
      → Among x rows ⊎ Among x rs
  insert_rows-only [] rows x i = inl i
  insert_rows-only (r ∷ rs) rows x i = elim (insert_rows-only rs _ x i) [
    | inl j ↦ elim (insert_row-only r x rows (any (conflict r) rows) j) [
      | inl k ↦ inl k
      | inr k ↦ elim k [ inl same ↦ inr (inl same) | inr none ↦ absurd none ]
    ]
    | inr j ↦ inr (inr j)
  ]

  pub insert_rows-IsInserted :
      (new rows : List Row) → IsInserted conflict new rows (insert_rows conflict new rows)
  insert_rows-IsInserted new rows = record {
    keeps = insert_rows-keeps new rows;
    takes = insert_rows-takes new rows;
    only = insert_rows-only new rows;
  }
