-- ===== src/Gorm/Rows.antt =====
-- Rows that match, after the statements that read and write them.
use block_explorer_backend.Prelude.{
  suc, ◌≡◌, refl, ap, ◌⊎◌, inl, inr, Bool, true, false, Option, none, some, List, [], ◌∷◌, ◌++◌,
  arith, keep, length, find_first, Among, Bool-cases, if◌then◌else◌,
}
use block_explorer_backend.Gorm.Contract.{any, update_rows}

abbrev pub or_else : {A : Type 0} → Option A → Option A → Option A
or_else (some x) o = some x
or_else none o = o

pub or_else-none : {A : Type 0} (o : Option A) → or_else o none ≡ o
or_else-none (some x) = refl
or_else-none none = refl

module _ {Row : Type 0} (p : Row → Bool) where
  Among-keep-cons :
      (a r : Row) (rows : List Row)
      → p r ≡ true
      → (Among a (keep p rows) → Among a rows × (p a ≡ true))
      → Among a (r ∷ keep p rows)
      → Among a (r ∷ rows) × (p a ≡ true)
  Among-keep-cons a r rows e rest (inl same) = (inl same, rw same e)
  Among-keep-cons a r rows e rest (inr i) = let (j, k) = rest i in (inr j, k)

  pub Among-keep : (a : Row) (rows : List Row) → Among a (keep p rows) → Among a rows × (p a ≡ true)
  Among-keep a [] h = absurd h
  Among-keep a (r ∷ rows) h = elim (Bool-cases (p r)) [
    | inl e ↦ Among-keep-cons a r rows e (Among-keep a rows) (rw e at h)
    | inr e ↦ let (i, k) = Among-keep a rows (rw e at h) in (inr i, k)
  ]

  pub keep-Among : (a : Row) (rows : List Row) → Among a rows → p a ≡ true → Among a (keep p rows)
  keep-Among a [] h k = absurd h
  keep-Among a (r ∷ rows) (inl e) k = let e' : p r ≡ true = rw (← e) k in rw e' (inl e)
  keep-Among a (r ∷ rows) (inr i) k = elim (Bool-cases (p r)) [
    | inl e ↦ rw e (inr (keep-Among a rows i k))
    | inr e ↦ rw e (keep-Among a rows i k)
  ]

  find_first-later :
      (r : Row) (rows : List Row)
      → ((find_first p rows ≡ none) × (keep p rows ≡ []))
        ⊎ ((x : Row) × (find_first p rows ≡ some x) × Among x rows × (p x ≡ true))
      → ((find_first p rows ≡ none) × (keep p rows ≡ []))
        ⊎ ((x : Row) × (find_first p rows ≡ some x) × Among x (r ∷ rows) × (p x ≡ true))
  find_first-later r rows (inl h) = inl h
  find_first-later r rows (inr (x, e, i, k)) = inr (x, e, inr i, k)

  -- The first match, if there is any.
  pub find_first-cases :
      (rows : List Row)
      → ((find_first p rows ≡ none) × (keep p rows ≡ []))
        ⊎ ((r : Row) × (find_first p rows ≡ some r) × Among r rows × (p r ≡ true))
  find_first-cases [] = inl (refl, refl)
  find_first-cases (r ∷ rows) = elim (Bool-cases (p r)) [
    | inl e ↦ inr (r, rw e refl, inl refl, e)
    | inr e ↦ rw e (find_first-later r rows (find_first-cases rows))
  ]

  pub find_first-none :
      (rows : List Row) (a : Row) → find_first p rows ≡ none → Among a rows → p a ≡ false
  find_first-none [] a e h = absurd h
  find_first-none (r ∷ rows) a e (inl same) = rw same (ground arith)
  find_first-none (r ∷ rows) a e (inr i) = find_first-none rows a (ground arith) i

  pub find_first-append :
      (rows : List Row) (r : Row)
      → find_first p (rows ++ r ∷ []) ≡ or_else (find_first p rows) (if p r then some r else none)
  find_first-append [] r = refl
  find_first-append (x ∷ rows) r = elim (Bool-cases (p x)) [
    | inl e ↦ rw e refl
    | inr e ↦ rw e (find_first-append rows r)
  ]

  pub any-cases :
      (rows : List Row)
      → ((any p rows ≡ false) × ((a : Row) → Among a rows → p a ≡ false))
        ⊎ ((any p rows ≡ true) × ((r : Row) × Among r rows × (p r ≡ true)))
  any-cases [] = inl (refl, λ a h. absurd h)
  any-cases (r ∷ rows) = elim (Bool-cases (p r)) [
    | inl e ↦ inr (rw e refl, (r, inl refl, e))
    | inr e ↦ elim (any-cases rows) [
      | inl (f, h) ↦ inl (rw (e, f) refl, λ a i. elim i [ inl same ↦ rw same e | inr j ↦ h a j ])
      | inr (t, (x, i, k)) ↦ inr (rw (e, t) refl, (x, inr i, k))
    ]
  ]

module _ {Row : Type 0} (p q : Row → Bool) (f : Row → Row) where
  -- An update of the rows that match, seen through a test that it does not change.
  pub find_first-update_self :
      (rows : List Row) (old : Row)
      → ((r : Row) → p (f r) ≡ p r)
      → find_first p rows ≡ some old
      → find_first p (update_rows p f rows) ≡ some (f old)
  find_first-update_self [] old keeps e = cc
  find_first-update_self (r ∷ rows) old keeps e = elim (Bool-cases (p r)) [
    | inl k ↦ let same : r ≡ old = ground arith in rw (k, keeps r, k, same) refl
    | inr k ↦ rw (k, k) (find_first-update_self rows old keeps (ground arith))
  ]

  pub find_first-update_other :
      (rows : List Row)
      → ((r : Row) → q (f r) ≡ q r)
      → ((r : Row) → p r ≡ true → q r ≡ false)
      → find_first q (update_rows p f rows) ≡ find_first q rows
  find_first-update_other [] keeps apart = refl
  find_first-update_other (r ∷ rows) keeps apart = elim (Bool-cases (p r)) [
    | inl k ↦ rw (k, keeps r, apart r k) (find_first-update_other rows keeps apart)
    | inr k ↦ rw (k, find_first-update_other rows keeps apart) refl
  ]

-- With no match an update changes nothing.
pub update_rows-none :
    {Row : Type 0} (p : Row → Bool) (f : Row → Row) (rows : List Row)
    → length (keep p rows) ≡ 0
    → update_rows p f rows ≡ rows
update_rows-none p f [] h = refl
update_rows-none p f (r ∷ rows) h = elim (Bool-cases (p r)) [
  | inl e ↦ let h' : suc (length (keep p rows)) ≡ 0 = rw e at h in absurd (omega arith)
  | inr e ↦ rw e (ap (◌∷◌ r) (update_rows-none p f rows (rw e at h)))
]
