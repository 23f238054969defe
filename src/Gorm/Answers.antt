-- ===== src/Gorm/Answers.antt =====
-- What the answer to an ordered query with a limit holds, and what it leaves out.
use mathlib.Core.List.{Permᴰ}
use block_explorer_backend.Prelude.{
  ℕ, zero, suc, ◌≡◌, ◌≤◌, refl, ap, ◌∙◌, ◌⊎◌, inl, inr, Bool, false, List, [], ◌∷◌, length, take,
  All, Among, All-Among, arith,
}
use block_explorer_backend.Gorm.Contract.{IsOrdered}

module _ {Row : Type 0} where
  pub Permᴰ-Among : {xs ys : List Row} (a : Row) → Permᴰ xs ys → Among a xs → Among a ys
  Permᴰ-Among a Permᴰ.nil i = i
  Permᴰ-Among a (Permᴰ.cons e p) (inl h) = inl (h ∙ e)
  Permᴰ-Among a (Permᴰ.cons e p) (inr i) = inr (Permᴰ-Among a p i)
  Permᴰ-Among a (Permᴰ.swap e f) (inl h) = inr (inl (h ∙ e))
  Permᴰ-Among a (Permᴰ.swap e f) (inr (inl h)) = inl (h ∙ f)
  Permᴰ-Among a (Permᴰ.swap e f) (inr (inr i)) = inr (inr i)
  Permᴰ-Among a (Permᴰ.trans p q) i = Permᴰ-Among a q (Permᴰ-Among a p i)

  pub take-Among : (n : ℕ) (xs : List Row) (a : Row) → Among a (take n xs) → Among a xs
  take-Among zero xs a i = absurd i
  take-Among (suc n) [] a i = i
  take-Among (suc n) (x ∷ xs) a (inl e) = inl e
  take-Among (suc n) (x ∷ xs) a (inr i) = inr (take-Among n xs a i)

  pub length-take : (n : ℕ) (xs : List Row) → length (take n xs) ≤ n
  length-take zero xs = omega arith
  length-take (suc n) [] = omega arith
  length-take (suc n) (x ∷ xs) = omega (arith, length-take n xs)

  take-All : (P : Row → Type 0) (n : ℕ) (xs : List Row) → All P xs → All P (take n xs)
  take-All P zero xs h = tt
  take-All P (suc n) [] h = tt
  take-All P (suc n) (x ∷ xs) (h, hs) = (h, take-All P n xs hs)

  pub take-IsOrdered :
      (before : Row → Row → Bool) (n : ℕ) (xs : List Row)
      → IsOrdered before xs
      → IsOrdered before (take n xs)
  take-IsOrdered before zero xs h = tt
  take-IsOrdered before (suc n) [] h = tt
  take-IsOrdered before (suc n) (x ∷ xs) (h, hs) =
      (take-All (λ y. before y x ≡ false) n xs h, take-IsOrdered before n xs hs)

  -- A row is among the first ones, or those are as many as asked for and it stands before none of them.
  pub take-cut :
      (before : Row → Row → Bool) (n : ℕ) (xs : List Row) (a : Row)
      → IsOrdered before xs
      → Among a xs
      → Among a (take n xs) ⊎ ((length (take n xs) ≡ n) × All (λ x. before a x ≡ false) (take n xs))
  take-cut before zero xs a h i = inr (refl, tt)
  take-cut before (suc n) [] a h i = absurd i
  take-cut before (suc n) (x ∷ xs) a (h, hs) (inl e) = inl (inl e)
  take-cut before (suc n) (x ∷ xs) a (h, hs) (inr i) = elim (take-cut before n xs a hs i) [
    | inl j ↦ inl (inr j)
    | inr (full, later) ↦ inr (ap suc full, (All-Among (λ y. before y x ≡ false) xs a h i, later))
  ]
