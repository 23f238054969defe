-- ===== src/Gorm/Contract.antt =====
-- What the program relies on of gorm and PostgreSQL: a view of the world as the rows of the two
-- tables, and what each statement answers and does to that view.
use mathlib.Core.List.{Permᴰ}
use block_explorer_backend.Prelude.{
  ℕ, suc, ◌≤◌, ◌≡◌, Bool, true, false, ◌||◌, ◌&&◌, Option, none, some, List, [], ◌∷◌, ◌++◌, map,
  keep, length, take, drop, All, Among, ◌==◌, if◌then◌else◌,
}
use block_explorer_backend.Prelude.Int.{ℤ, pos, eqb_ℤ}
use block_explorer_backend.Text.{text_eq}
use block_explorer_backend.Errors.{GoError}
use block_explorer_backend.Errors.Upstream.{is_record_not_found}
use block_explorer_backend.Effect.{Result, ok, err, Io}
use block_explorer_backend.Models.{Block, Transaction}
use block_explorer_backend.Gorm.{Query, Table, Database}

-- No row stands before an earlier one.
abbrev pub IsOrdered : {Row : Type 0} → (Row → Row → Bool) → List Row → Type 0
IsOrdered before [] = Unit
IsOrdered before (r ∷ rs) = All (λ x. before x r ≡ false) rs × IsOrdered before rs

-- A limit and an offset that are not negative, and a limit that is not 0.
abbrev pub skipped : Option ℤ → Option ℕ
skipped (some (pos n)) = some n
skipped none = some 0
skipped _ = none

abbrev pub limited : {Row : Type 0} → Option ℤ → List Row → Option (List Row)
limited (some (pos (suc n))) rs = some (take (suc n) rs)
limited none rs = some rs
limited _ rs = none

-- The answer to a query: an arrangement of the rows that match, in the asked order, less those before
-- the offset and those past the limit. A query with another limit or offset is answered by anything.
pub record IsAnswer {Row : Type 0} (q : Query Row) (rows answer : List Row) : Type 0 where
  pub arranged : List Row
  pub same_rows : Permᴰ arranged (keep q.matches rows)
  pub ordered : IsOrdered q.before arranged
  pub cut :
      (n : ℕ) (rest : List Row)
      → skipped q.offset ≡ some n
      → limited q.limit (drop n arranged) ≡ some rest
      → answer ≡ rest

-- `INSERT … ON CONFLICT DO NOTHING`, row after row.
abbrev pub insert_row : {Row : Type 0} → (Row → Row → Bool) → Row → List Row → Bool → List Row
insert_row conflict r rows true = rows
insert_row conflict r rows false = rows ++ r ∷ []

abbrev pub any : {A : Type 0} → (A → Bool) → List A → Bool
any p [] = false
any p (x ∷ xs) = p x || any p xs

abbrev pub insert_rows : {Row : Type 0} → (Row → Row → Bool) → List Row → List Row → List Row
insert_rows conflict [] rows = rows
insert_rows conflict (r ∷ rs) rows =
    insert_rows conflict rs (insert_row conflict r rows (any (conflict r) rows))

abbrev pub update_rows : {Row : Type 0} → (Row → Bool) → (Row → Row) → List Row → List Row
update_rows p f rows = map (λ r. if p r then f r else r) rows

abbrev pub Unchanged : {A : Type 0} → A → A → Type 0
Unchanged a b = b ≡ a

-- A statement that writes: what it does if it succeeds, and nothing if it fails.
abbrev pub Writes : {A V : Type 0} → Result A → V → V → (A → Type 0) → Type 0
Writes (ok a) v v' Change = Change a
Writes (err e) v v' Change = Unchanged v v'

-- `rows` is the table, `other` the rest of what the program sees of the world.
pub record TableContract {W Row V : Type 0} (t : Table W Row) (rows : W → List Row) (other : W → V)
    (conflict : Row → Row → Bool) : Type 0 where
  -- The unique indexes hold.
  pub unique :
      (w : W) (a b : Row) → Among a (rows w) → Among b (rows w) → conflict a b ≡ true → a ≡ b
  pub find_keeps :
      (q : Query Row) (w : W) → (rows (t.find q w).1 ≡ rows w) × (other (t.find q w).1 ≡ other w)
  pub find_finds :
      (q : Query Row) (w : W) (rs : List Row) → (t.find q w).0 ≡ ok rs → IsAnswer q (rows w) rs
  pub take_keeps :
      (q : Query Row) (w : W) → (rows (t.take q w).1 ≡ rows w) × (other (t.take q w).1 ≡ other w)
  pub take_finds :
      (q : Query Row) (w : W) (r : Row) → (t.take q w).0 ≡ ok r → Among r (keep q.matches (rows w))
  pub take_misses :
      (q : Query Row) (w : W) (e : GoError)
      → (t.take q w).0 ≡ err e
      → is_record_not_found e ≡ true
      → keep q.matches (rows w) ≡ []
  pub first_keeps :
      (q : Query Row) (w : W) → (rows (t.first q w).1 ≡ rows w) × (other (t.first q w).1 ≡ other w)
  pub first_finds :
      (q : Query Row) (w : W) (r : Row)
      → (t.first q w).0 ≡ ok r
      → Among r (keep q.matches (rows w))
        × All (λ x. q.before x r ≡ false) (keep q.matches (rows w))
  pub first_misses :
      (q : Query Row) (w : W) (e : GoError)
      → (t.first q w).0 ≡ err e
      → is_record_not_found e ≡ true
      → keep q.matches (rows w) ≡ []
  pub create_writes :
      (rs : List Row) (w : W)
      → let (res, w') = t.create rs w in
        Writes res (rows w) (rows w') (λ _. rows w' ≡ insert_rows conflict rs (rows w))
        × (other w' ≡ other w)
  pub updates_writes :
      (p : Row → Bool) (f : Row → Row) (w : W)
      → let (res, w') = t.updates p f w in
        Writes res
          (rows w)
          (rows w')
          (λ n. (rows w' ≡ update_rows p f (rows w)) × (n ≡ length (keep p (rows w))))
        × (other w' ≡ other w)
  pub max_keeps :
      (p : Row → Bool) (key : Row → ℕ) (w : W)
      → (rows (t.max p key w).1 ≡ rows w) × (other (t.max p key w).1 ≡ other w)
  pub max_finds :
      (p : Row → Bool) (key : Row → ℕ) (w : W) (n : ℤ)
      → (t.max p key w).0 ≡ ok (some n)
      → (r : Row) × (n ≡ pos (key r))
        × Among r (keep p (rows w))
        × All (λ x. key x ≤ key r) (keep p (rows w))
  pub max_misses :
      (p : Row → Bool) (key : Row → ℕ) (w : W) → (t.max p key w).0 ≡ ok none → keep p (rows w) ≡ []

-- The unique indexes of internal/db/models: chain and number, and chain and hash.
abbrev pub block_conflict : Block → Block → Bool
block_conflict a b = eqb_ℤ a.chain_id b.chain_id && (a.number == b.number || text_eq a.hash b.hash)

abbrev pub transaction_conflict : Transaction → Transaction → Bool
transaction_conflict a b = eqb_ℤ a.chain_id b.chain_id && text_eq a.hash b.hash

pub record DatabaseContract {W : Type 0} (db : Database W) : Type 0 where
  pub blocks : W → List Block
  pub transactions : W → List Transaction
  pub block_table : TableContract db.blocks blocks transactions block_conflict
  pub transaction_table : TableContract db.transactions transactions blocks transaction_conflict
  -- A transaction that succeeds has done what its function did, from the same rows; one that fails has
  -- done nothing.
  pub commits :
      (body : Io W (Unit {0})) (w : W)
      → (db.transaction body w).0 ≡ ok tt
      → (w₁ : W) × (blocks w₁ ≡ blocks w)
        × (transactions w₁ ≡ transactions w)
        × ((body w₁).0 ≡ ok tt)
        × (blocks (db.transaction body w).1 ≡ blocks (body w₁).1)
        × (transactions (db.transaction body w).1 ≡ transactions (body w₁).1)
  pub rolls_back :
      (body : Io W (Unit {0})) (w : W) (e : GoError)
      → (db.transaction body w).0 ≡ err e
      → (blocks (db.transaction body w).1 ≡ blocks w)
        × (transactions (db.transaction body w).1 ≡ transactions w)
