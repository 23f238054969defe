-- ===== src/Repo/Blocks/Table.antt =====
-- The rows of the blocks as a table by chain and number, and what the statements do to that table.
use mathlib.Core.Path.{fun_ext}
use block_explorer_backend.Prelude.{
  ℕ, ◌≡◌, ◌≢◌, ◌↔◌, refl, sym, ap, ◌∙◌, ◌⊎◌, inl, inr, true, false, ◌&&◌, none, some, List, [], ◌∷◌,
  ◌++◌, arith, keep, find_first, Among, Bool-cases, ◌==◌, if◌then◌else◌,
}
use block_explorer_backend.Prelude.Int.{ℤ, eqb_ℤ, eqb_ℤ_iff}
use block_explorer_backend.Text.{text_eq_iff}
use block_explorer_backend.Models.{Block}
use block_explorer_backend.BlockService.Contract.{
  BlockTable, write_at, Conflicts, Inserted, Updated,
}
use block_explorer_backend.Gorm.Contract.{insert_rows, update_rows, block_conflict}
use block_explorer_backend.Gorm.Rows.{
  Among-keep, keep-Among, or_else, or_else-none, find_first-cases, find_first-none,
  find_first-append, any-cases, find_first-update_self, find_first-update_other,
}
use block_explorer_backend.Repo.Blocks.{at_number}

abbrev pub table_of : List Block → BlockTable
table_of rows c n = find_first (at_number c n) rows

-- The two unique indexes.
abbrev pub IsUnique : List Block → Type 0
IsUnique rows = (a b : Block) → Among a rows → Among b rows → block_conflict a b ≡ true → a ≡ b

at_number_iff :
    (c : ℤ) (n : ℕ) (b : Block) → (at_number c n b ≡ true) ↔ ((b.chain_id ≡ c) × (b.number ≡ n))
at_number_iff c n b = ground (arith, eqb_ℤ_iff b.chain_id c)

at_number_self : (b : Block) → at_number b.chain_id b.number b ≡ true
at_number_self b = (at_number_iff b.chain_id b.number b).1 (refl, refl)

conflict_iff :
    (a b : Block)
    → (block_conflict a b ≡ true)
      ↔ ((a.chain_id ≡ b.chain_id) × ((a.number ≡ b.number) ⊎ (a.hash ≡ b.hash)))
conflict_iff a b = ground (arith, eqb_ℤ_iff a.chain_id b.chain_id, text_eq_iff a.hash b.hash)

-- By the unique index a row is the one that the table has at its place.
pub table_of-Among :
    (rows : List Block) (b : Block)
    → IsUnique rows
    → Among b rows
    → table_of rows b.chain_id b.number ≡ some b
table_of-Among rows b unique i = elim (find_first-cases (at_number b.chain_id b.number) rows) [
  | inl (e, empty) ↦
      let other : at_number b.chain_id b.number b ≡ false =
        find_first-none (at_number b.chain_id b.number) rows b e i in
      let self = at_number_self b in absurd (cc)
  | inr (x, e, j, k) ↦
      let (chain, number) = (at_number_iff b.chain_id b.number x).0 k in
      e ∙ ap some (unique x b j i ((conflict_iff x b).1 (chain, inl number)))
]

pub table_of-matching :
    (rows : List Block) (c : ℤ) (n : ℕ) (b : Block)
    → IsUnique rows
    → Among b (keep (at_number c n) rows)
    → table_of rows c n ≡ some b
table_of-matching rows c n b unique i =
    let (j, k) = Among-keep (at_number c n) b rows i in
    let (chain, number) = (at_number_iff c n b).0 k in
    rw (← chain, ← number) (table_of-Among rows b unique j)

pub table_of-none :
    (rows : List Block) (c : ℤ) (n : ℕ) → keep (at_number c n) rows ≡ [] → table_of rows c n ≡ none
table_of-none rows c n empty = elim (find_first-cases (at_number c n) rows) [
  | inl (e, _) ↦ e
  | inr (x, e, i, k) ↦
      let match : Among x (keep (at_number c n) rows) = keep-Among (at_number c n) x rows i k in
      absurd (rw empty at match)
]

pub table_of-stored :
    (rows : List Block) (c : ℤ) (n : ℕ) (b : Block)
    → table_of rows c n ≡ some b
    → Among b rows × (b.chain_id ≡ c) × (b.number ≡ n)
table_of-stored rows c n b e = elim (find_first-cases (at_number c n) rows) [
  | inl (missing, _) ↦ absurd (cc)
  | inr (x, found, i, k) ↦
      let same : x ≡ b = cc in
      let (chain, number) = (at_number_iff c n x).0 k in rw (← same) (i, chain, number)
]

pub table_of-chain :
    (rows : List Block) (c : ℤ) (n : ℕ) (b : Block) → table_of rows c n ≡ some b → b.chain_id ≡ c
table_of-chain rows c n b e = let (_, chain, _) = table_of-stored rows c n b e in chain

append-place :
    (rows : List Block) (b : Block)
    → table_of rows b.chain_id b.number ≡ none
    → (c : ℤ) (n : ℕ)
    → or_else (find_first (at_number c n) rows) (if at_number c n b then some b else none)
      ≡ write_at b.chain_id b.number b (table_of rows) c n
append-place rows b free c n = elim (Bool-cases (at_number c n b)) [
  | inl e ↦
      let (chain, number) = (at_number_iff c n b).0 e in
      let none_there : find_first (at_number c n) rows ≡ none = rw (← chain, ← number) free in
      rw (e, none_there) refl
  | inr e ↦ rw e (or_else-none (find_first (at_number c n) rows))
]

append-write_at :
    (rows : List Block) (b : Block)
    → table_of rows b.chain_id b.number ≡ none
    → table_of (rows ++ b ∷ []) ≡ write_at b.chain_id b.number b (table_of rows)
append-write_at rows b free =
    fun_ext
      (λ c. fun_ext (λ n. find_first-append (at_number c n) rows b ∙ append-place rows b free c n))

no_place :
    (rows : List Block) (b : Block)
    → ((a : Block) → Among a rows → block_conflict b a ≡ false)
    → table_of rows b.chain_id b.number ≡ none
no_place rows b apart = elim (find_first-cases (at_number b.chain_id b.number) rows) [
  | inl (e, _) ↦ e
  | inr (x, e, i, k) ↦
      let (chain, number) = (at_number_iff b.chain_id b.number x).0 k in
      let clash = (conflict_iff b x).1 (sym chain, inl (sym number)) in
      let free = apart x i in absurd (cc)
]

place_taken :
    (rows : List Block) (b x : Block)
    → IsUnique rows
    → Among x rows
    → (b.chain_id ≡ x.chain_id) × ((b.number ≡ x.number) ⊎ (b.hash ≡ x.hash))
    → Conflicts b (table_of rows)
place_taken rows b x unique i (chain, inl number) =
    inl (x, rw (chain, number) (table_of-Among rows x unique i))
place_taken rows b x unique i (chain, inr hash) =
    inr (x.number, x, rw chain (table_of-Among rows x unique i), sym hash)

-- A row that is inserted takes a free place, or meets a conflict and is dropped.
pub insert_rows-Inserted :
    (rows : List Block) (b : Block)
    → IsUnique rows
    → Inserted b (table_of rows) (table_of (insert_rows block_conflict (b ∷ []) rows))
insert_rows-Inserted rows b unique = elim (any-cases (block_conflict b) rows) [
  | inl (free, apart) ↦
      rw free (inr (no_place rows b apart, append-write_at rows b (no_place rows b apart)))
  | inr (taken, (x, i, k)) ↦
      rw taken (inl (place_taken rows b x unique i ((conflict_iff b x).0 k), refl))
]

update-place :
    (rows : List Block) (c : ℤ) (n : ℕ) (f : Block → Block)
    → ((b : Block) → (f b).chain_id ≡ b.chain_id)
    → ((b : Block) → (f b).number ≡ b.number)
    → (old : Block) → table_of rows c n ≡ some old
    → (d : ℤ) (m : ℕ)
    → table_of (update_rows (at_number c n) f rows) d m ≡ write_at c n (f old) (table_of rows) d m
update-place rows c n f chain number old e d m =
    let keeps : (d : ℤ) (m : ℕ) (r : Block) → at_number d m (f r) ≡ at_number d m r =
      λ d m r. rw (chain r, number r) refl in
    elim (Bool-cases (eqb_ℤ c d && n == m)) [
      | inl here ↦
          let same_chain : c ≡ d = ground (arith, eqb_ℤ_iff c d) in
          let same_number : n ≡ m = ground arith in
          rw (here, ← same_chain, ← same_number)
            (find_first-update_self (at_number c n) (at_number c n) f rows old (keeps c n) e)
      | inr there ↦ rw there (
          find_first-update_other (at_number c n) (at_number d m) f rows (keeps d m)
            (λ r k. ground (arith, at_number_iff c n r, eqb_ℤ_iff c d, eqb_ℤ_iff r.chain_id d)))
    ]

pub update_rows-Updated :
    (rows : List Block) (c : ℤ) (n : ℕ) (f : Block → Block)
    → ((b : Block) → (f b).chain_id ≡ b.chain_id)
    → ((b : Block) → (f b).number ≡ b.number)
    → keep (at_number c n) rows ≢ []
    → Updated f c n (table_of rows) (table_of (update_rows (at_number c n) f rows))
update_rows-Updated rows c n f chain number some_row =
    elim (find_first-cases (at_number c n) rows) [
      | inl (e, empty) ↦ absurd (some_row empty)
      | inr (old, e, i, k) ↦
          (old, e, fun_ext (λ d. fun_ext (λ m. update-place rows c n f chain number old e d m)))
    ]
