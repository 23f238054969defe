-- ===== src/Examples/Memory/Rows.antt =====
-- Rows in memory: a unique index, and the answers to queries.
use mathlib.Core.List.{Permᴰ}
use mathlib.Core.List.Permᴰ
use block_explorer_backend.Prelude.{
  ℕ, ◌≤◌, ◌≡◌, refl, sym, ◌∙◌, inl, inr, Bool, true, false, not, ◌||◌, ◌&&◌, Bool-cases, Option,
  none, some, List, [], ◌∷◌, arith, keep, drop, find_first, All, Among, ltb, lt→ltb, is_empty,
  if◌then◌else◌,
}
use block_explorer_backend.Prelude.Int.{ℤ, pos}
use block_explorer_backend.Errors.{GoError, foreign, errorf}
use block_explorer_backend.Errors.Upstream.{is_record_not_found}
use block_explorer_backend.Effect.{Result, ok, err}
use block_explorer_backend.Gorm.{Query}
use block_explorer_backend.Gorm.Contract.{IsOrdered, skipped, limited, IsAnswer, any}
use block_explorer_backend.Gorm.Rows.{any-cases, find_first-cases}

abbrev record_missing : GoError
record_missing = foreign (record {
  is_deadline = false;
  is_canceled = false;
  is_record_not_found = true;
  is_not_found = false;
  text = "record not found";
})

module _ {Row : Type 0} where
  abbrev pub is_unique : (Row → Row → Bool) → List Row → Bool
  is_unique conflict [] = true
  is_unique conflict (r ∷ rs) =
      not (any (λ x. conflict r x || conflict x r) rs) && is_unique conflict rs

  apart-from :
      (conflict : Row → Row → Bool) (r b : Row) (rs : List Row)
      → any (λ x. conflict r x || conflict x r) rs ≡ false
      → Among b rs
      → (conflict r b || conflict b r) ≡ false
  apart-from conflict r b rs e i = elim (any-cases (λ x. conflict r x || conflict x r) rs) [
    | inl (_, apart) ↦ apart b i
    | inr (taken, _) ↦ absurd (cc)
  ]

  pub is_unique-Among :
      (conflict : Row → Row → Bool) (rows : List Row)
      → is_unique conflict rows ≡ true
      → (a b : Row) → Among a rows
      → Among b rows
      → conflict a b ≡ true
      → a ≡ b
  is_unique-Among conflict [] e a b i j k = absurd i
  is_unique-Among conflict (r ∷ rs) e a b (inl i) (inl j) k = i ∙ sym j
  is_unique-Among conflict (r ∷ rs) e a b (inl i) (inr j) k =
      let apart = apart-from conflict r b rs (ground arith) j in
      let k' : conflict r b ≡ true = rw (← i) k in absurd (ground arith)
  is_unique-Among conflict (r ∷ rs) e a b (inr i) (inl j) k =
      let apart = apart-from conflict r a rs (ground arith) i in
      let k' : conflict a r ≡ true = rw (← j) k in absurd (ground arith)
  is_unique-Among conflict (r ∷ rs) e a b (inr i) (inr j) k =
      is_unique-Among conflict rs (ground arith) a b i j k

  -- Insertion sort.
  abbrev place : (Row → Row → Bool) → Row → List Row → List Row
  place before r [] = r ∷ []
  place before r (x ∷ xs) = if before x r then x ∷ place before r xs else r ∷ x ∷ xs

  abbrev arrange : (Row → Row → Bool) → List Row → List Row
  arrange before [] = []
  arrange before (r ∷ rs) = place before r (arrange before rs)

  place-Perm :
      (before : Row → Row → Bool) (r : Row) (xs : List Row) → Permᴰ (place before r xs) (r ∷ xs)
  place-Perm before r [] = Permᴰ.refl (r ∷ [])
  place-Perm before r (x ∷ xs) = elim (Bool-cases (before x r)) [
    | inl e ↦ rw e (Permᴰ.trans (Permᴰ.cons refl (place-Perm before r xs)) (Permᴰ.swap refl refl))
    | inr e ↦ rw e (Permᴰ.refl (r ∷ x ∷ xs))
  ]

  arrange-Perm : (before : Row → Row → Bool) (rows : List Row) → Permᴰ (arrange before rows) rows
  arrange-Perm before [] = Permᴰ.nil
  arrange-Perm before (r ∷ rs) =
      Permᴰ.trans (place-Perm before r (arrange before rs))
        (Permᴰ.cons refl (arrange-Perm before rs))

  abbrev is_ordered : (Row → Row → Bool) → List Row → Bool
  is_ordered before [] = true
  is_ordered before (r ∷ rs) = not (any (λ x. before x r) rs) && is_ordered before rs

  any-All : (p : Row → Bool) (rows : List Row) → any p rows ≡ false → All (λ x. p x ≡ false) rows
  any-All p [] e = tt
  any-All p (r ∷ rs) e = (ground arith, any-All p rs (ground arith))

  is_ordered-IsOrdered :
      (before : Row → Row → Bool) (rows : List Row)
      → is_ordered before rows ≡ true
      → IsOrdered before rows
  is_ordered-IsOrdered before [] e = tt
  is_ordered-IsOrdered before (r ∷ rs) e =
      (any-All (λ x. before x r) rs (ground arith), is_ordered-IsOrdered before rs (ground arith))

  -- What a query answers; one that these orders, limits and offsets do not admit fails.
  abbrev of_rows : Option (List Row) → Result (List Row)
  of_rows none = err (errorf "invalid limit")
  of_rows (some rs) = ok rs

  abbrev cut_rows : Option ℕ → Option ℤ → List Row → Result (List Row)
  cut_rows none limit rows = err (errorf "invalid offset")
  cut_rows (some n) limit rows = of_rows (limited limit (drop n rows))

  abbrev pub answer : Query Row → List Row → Result (List Row)
  answer q rows =
      if is_ordered q.before (arrange q.before rows)
      then cut_rows (skipped q.offset) q.limit (arrange q.before rows)
      else err (errorf "invalid order")

  pub answer-IsAnswer :
      (q : Query Row) (rows rs : List Row)
      → answer q (keep q.matches rows) ≡ ok rs
      → IsAnswer q rows rs
  answer-IsAnswer q rows rs h =
      elim (Bool-cases (is_ordered q.before (arrange q.before (keep q.matches rows)))) [
        | inl e ↦
            let h' : cut_rows (skipped q.offset) q.limit (arrange q.before (keep q.matches rows))
                ≡ ok rs =
              rw e at h in
            record {
              arranged = arrange q.before (keep q.matches rows);
              same_rows = arrange-Perm q.before (keep q.matches rows);
              ordered = is_ordered-IsOrdered q.before _ e;
              cut = λ n rest offset limit.
                  let h'' : of_rows
                        (limited q.limit (drop n (arrange q.before (keep q.matches rows))))
                      ≡ ok rs =
                    rw offset at h' in
                  let h3 : ◌≡◌ {A = Result (List Row)} (ok rest) (ok rs) = rw limit at h'' in cc;
            }
        | inr e ↦ let h' = rw e at h in absurd (cc)
      ]

  -- The first row that no other one stands before.
  abbrev pub foremost : (Row → Row → Bool) → List Row → Option Row
  foremost before rows = find_first (λ r. not (any (λ x. before x r) rows)) rows

  abbrev pub first_of : Option Row → Bool → Result Row
  first_of (some r) empty = ok r
  first_of none true = err record_missing
  first_of none false = err (errorf "invalid order")

  abbrev pub take_of : List Row → Result Row
  take_of [] = err record_missing
  take_of (r ∷ rs) = ok r

  abbrev pub max_of : (Row → ℕ) → Option Row → Bool → Result (Option ℤ)
  max_of key (some r) empty = ok (some (pos (key r)))
  max_of key none true = ok none
  max_of key none false = err (errorf "no maximum")

  pub take_of-finds : (rows : List Row) (r : Row) → take_of rows ≡ ok r → Among r rows
  take_of-finds [] r h = absurd (cc)
  take_of-finds (x ∷ xs) r h = inl (cc)

  pub take_of-misses : (rows : List Row) (e : GoError) → take_of rows ≡ err e → rows ≡ []
  take_of-misses [] e h = refl
  take_of-misses (x ∷ xs) e h = absurd (cc)

  pub foremost-finds :
      (before : Row → Row → Bool) (rows : List Row) (r : Row)
      → foremost before rows ≡ some r
      → Among r rows × All (λ x. before x r ≡ false) rows
  foremost-finds before rows r h =
      elim (find_first-cases (λ r. not (any (λ x. before x r) rows)) rows) [
        | inl (e, _) ↦ absurd (cc)
        | inr (x, e, i, k) ↦
            let same : x ≡ r = cc in rw (← same) (i, any-All (λ y. before y x) rows (ground arith))
      ]

  pub is_empty-nil : (rows : List Row) → is_empty rows ≡ true → rows ≡ []
  is_empty-nil [] h = refl
  is_empty-nil (x ∷ xs) h = absurd (cc)

  pub first_of-finds :
      (o : Option Row) (empty : Bool) (r : Row) → first_of o empty ≡ ok r → o ≡ some r
  first_of-finds (some x) empty r h = cc
  first_of-finds none true r h = absurd (cc)
  first_of-finds none false r h = absurd (cc)

  pub first_of-misses :
      (o : Option Row) (empty : Bool) (e : GoError)
      → first_of o empty ≡ err e
      → is_record_not_found e ≡ true
      → empty ≡ true
  unfolding is_record_not_found
  first_of-misses (some x) empty e h k = absurd (cc)
  first_of-misses none true e h k = refl
  first_of-misses none false e h k =
      let same : e ≡ errorf "invalid order" = cc in let k' = rw same at k in absurd (cc)

  pub max_of-finds :
      (key : Row → ℕ) (o : Option Row) (empty : Bool) (n : ℤ)
      → max_of key o empty ≡ ok (some n)
      → (r : Row) × (n ≡ pos (key r)) × (o ≡ some r)
  max_of-finds key (some x) empty n h = (x, cc, refl)
  max_of-finds key none true n h = absurd (cc)
  max_of-finds key none false n h = absurd (cc)

  pub max_of-misses :
      (key : Row → ℕ) (o : Option Row) (empty : Bool) → max_of key o empty ≡ ok none → empty ≡ true
  max_of-misses key (some x) empty h = absurd (cc)
  max_of-misses key none true h = refl
  max_of-misses key none false h = absurd (cc)

  pub not_above :
      (key : Row → ℕ) (r : Row) (rows : List Row)
      → All (λ x. ltb (key r) (key x) ≡ false) rows
      → All (λ x. key x ≤ key r) rows
  not_above key r [] h = tt
  not_above key r (x ∷ xs) (h, hs) = (ground (arith, lt→ltb (key r) (key x)), not_above key r xs hs)
