-- ===== src/Text/Laws.antt =====
-- Laws of the string functions that the components share.
use block_explorer_backend.Prelude.{◌≡◌, refl, ◌↔◌, true, [], ◌∷◌, ◌++◌, map, arith, sym, ◌∙◌}
use block_explorer_backend.Text.{
  Text, Unicode, codes, text_eq, text_eq_iff, fold_rune, equal_fold, has_prefix, drop_two,
}

pub text_eq_refl : (s : Text) → text_eq s s ≡ true
text_eq_refl s = (text_eq_iff s s).1 refl

pub equal_fold_iff :
    (u : Unicode) (s t : Text)
    → (equal_fold u s t ≡ true) ↔ (map (fold_rune u) s ≡ map (fold_rune u) t)
unfolding equal_fold
equal_fold_iff u s t = text_eq_iff (map (fold_rune u) s) (map (fold_rune u) t)

pub equal_fold_refl : (u : Unicode) (s : Text) → equal_fold u s s ≡ true
equal_fold_refl u s = (equal_fold_iff u s s).1 refl

pub equal_fold_sym : (u : Unicode) (s t : Text) → equal_fold u s t ≡ true → equal_fold u t s ≡ true
equal_fold_sym u s t h = (equal_fold_iff u t s).1 (sym ((equal_fold_iff u s t).0 h))

pub equal_fold_trans :
    (u : Unicode) (s t r : Text)
    → equal_fold u s t ≡ true
    → equal_fold u t r ≡ true
    → equal_fold u s r ≡ true
equal_fold_trans u s t r h k =
    (equal_fold_iff u s r).1 ((equal_fold_iff u s t).0 h ∙ (equal_fold_iff u t r).0 k)

-- A text with the prefix "0x" is "0x" and what `s[2:]` leaves.
pub has_prefix-drop_two :
    (s : Text) → has_prefix (codes "0x") s ≡ true → s ≡ codes "0x" ++ drop_two s
unfolding has_prefix
has_prefix-drop_two [] h = cc
has_prefix-drop_two (c ∷ []) h = ground arith
has_prefix-drop_two (c ∷ d ∷ s) h = ground arith
