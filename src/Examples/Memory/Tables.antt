-- ===== src/Examples/Memory/Tables.antt =====
-- A table in memory with a unique index, as an instance of the statements of gorm.
use block_explorer_backend.Prelude.{◌≡◌, refl, Bool, true, false, List, keep, length, ltb, is_empty}
use block_explorer_backend.Errors.{errorf}
use block_explorer_backend.Effect.{ok, err, Io}
use block_explorer_backend.Gorm.{Table}
use block_explorer_backend.Gorm.Contract.{insert_rows, update_rows, Writes, TableContract}
use block_explorer_backend.Examples.Memory.Rows.{
  is_unique, is_unique-Among, answer, answer-IsAnswer, foremost, first_of, take_of, max_of,
  take_of-finds, take_of-misses, foremost-finds, is_empty-nil, first_of-finds, first_of-misses,
  max_of-finds, max_of-misses, not_above,
}

module _ {W Row V : Type 0} (rows : W → List Row) (other : W → V) (conflict : Row → Row → Bool)
    (put : (new : List Row) → is_unique conflict new ≡ true → W → W) where
  -- A write is refused if it would break the index.
  abbrev write_rows :
      {A : Type 0} → (new : List Row) → A → (b : Bool) → is_unique conflict new ≡ b → Io W A
  write_rows new a true e w = (ok a, put new e w)
  write_rows new a false e w = (err (errorf "unique index"), w)

  abbrev pub memory_table : Table W Row
  memory_table = record {
    find = λ q w. (answer q (keep q.matches (rows w)), w);
    take = λ q w. (take_of (keep q.matches (rows w)), w);
    first = λ q w. (
      first_of (foremost q.before (keep q.matches (rows w))) (is_empty (keep q.matches (rows w))),
      w,
    );
    create = λ rs w.
        let new = insert_rows conflict rs (rows w) in
        write_rows new tt (is_unique conflict new) refl w;
    updates = λ p f w.
        let new = update_rows p f (rows w) in
        write_rows new (length (keep p (rows w))) (is_unique conflict new) refl w;
    max = λ p key w. (
      max_of key (foremost (λ a b. ltb (key b) (key a)) (keep p (rows w)))
          (is_empty (keep p (rows w))),
      w,
    );
  }

  abbrev Put : W → W → List Row → Type 0
  Put w w' new = (rows w' ≡ new) × (other w' ≡ other w)

  module _ (unique : (w : W) → is_unique conflict (rows w) ≡ true)
      (puts : (new : List Row) (e : is_unique conflict new ≡ true) (w : W)
        → Put w (put new e w) new) where
    write_rows-Writes :
        {A : Type 0} (new : List Row) (a : A) (b : Bool) (e : is_unique conflict new ≡ b) (w : W)
        (Change : List Row → A → Type 0)
        → Change new a
        → let (res, w') = write_rows new a b e w in
          Writes res (rows w) (rows w') (Change (rows w')) × (other w' ≡ other w)
    write_rows-Writes new a true e w Change h =
        let (same, others) = puts new e w in (rw same h, others)
    write_rows-Writes new a false e w Change h = (refl, refl)

    pub memory_contract : TableContract memory_table rows other conflict
    memory_contract = record {
      unique = λ w. is_unique-Among conflict (rows w) (unique w);
      find_keeps = λ q w. (refl, refl);
      find_finds = λ q w rs h. answer-IsAnswer q (rows w) rs h;
      take_keeps = λ q w. (refl, refl);
      take_finds = λ q w r h. take_of-finds (keep q.matches (rows w)) r h;
      take_misses = λ q w e h k. take_of-misses (keep q.matches (rows w)) e h;
      first_keeps = λ q w. (refl, refl);
      first_finds = λ q w r h.
          foremost-finds q.before (keep q.matches (rows w)) r
            (first_of-finds _ (is_empty (keep q.matches (rows w))) r h);
      first_misses = λ q w e h k.
          is_empty-nil (keep q.matches (rows w))
            (first_of-misses (foremost q.before (keep q.matches (rows w))) _ e h k);
      create_writes = λ rs w.
          write_rows-Writes (insert_rows conflict rs (rows w)) tt _ refl w
            (λ new a. new ≡ insert_rows conflict rs (rows w)) refl;
      updates_writes = λ p f w.
          write_rows-Writes (update_rows p f (rows w)) (length (keep p (rows w))) _ refl w
            (λ new n. (new ≡ update_rows p f (rows w)) × (n ≡ length (keep p (rows w))))
            (refl, refl);
      max_keeps = λ p key w. (refl, refl);
      max_finds = λ p key w n h.
          let (r, value, o) =
            max_of-finds key (foremost (λ a b. ltb (key b) (key a)) (keep p (rows w)))
              (is_empty (keep p (rows w))) n h in
          let (i, top) = foremost-finds (λ a b. ltb (key b) (key a)) (keep p (rows w)) r o in
          (r, value, i, not_above key r (keep p (rows w)) top);
      max_misses = λ p key w h.
          is_empty-nil (keep p (rows w))
            (max_of-misses key (foremost (λ a b. ltb (key b) (key a)) (keep p (rows w))) _ h);
    }
