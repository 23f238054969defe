-- ===== src/Text.antt =====
-- Go's strings as lists of code points, and the functions of Go's `strings` package that the program
-- calls. A string is taken to be valid UTF-8; `len` counts the bytes of its encoding.
use Prim.Native.Char.{code}
use block_explorer_backend.Prelude.{
  ℕ, ◌+◌, ◌≡◌, ◌↔◌, String, Bool, true, false, ◌&&◌, ◌||◌, List, [], ◌∷◌, map, arith, ap, ltb, leb,
  ◌==◌, is_empty, if◌then◌else◌,
}
pub mod Numbers
pub mod Laws

abbrev pub Text : Type 0
Text = List ℕ

-- A literal of the source.
abbrev pub codes : String → Text
codes String.[] = []
codes (String.◌∷◌ c s) = code c ∷ codes s

-- `s == t`
unfoldable pub text_eq : Text → Text → Bool
text_eq [] [] = true
text_eq (c ∷ s) (d ∷ t) = c == d && text_eq s t
text_eq _ _ = false

pub text_eq_iff : (s t : Text) → (text_eq s t ≡ true) ↔ (s ≡ t)
unfolding text_eq
text_eq_iff [] [] = ground arith
text_eq_iff (c ∷ s) (d ∷ t) = ground (arith, text_eq_iff s t)
text_eq_iff [] (d ∷ t) = ground arith
text_eq_iff (c ∷ s) [] = ground arith

-- The tables of Go's `unicode` package beyond ASCII: the lower case of a code point, and one
-- representative for the code points that simple case folding identifies.
pub record Unicode : Type 0 where
  pub lower : ℕ → ℕ
  pub fold : ℕ → ℕ

abbrev pub ascii_lower : ℕ → ℕ
ascii_lower c = if leb b'A' c && leb c b'Z' then c + 32 else c

abbrev pub lower_rune : Unicode → ℕ → ℕ
lower_rune u c = if ltb c 128 then ascii_lower c else u.lower c

abbrev pub fold_rune : Unicode → ℕ → ℕ
fold_rune u c = if ltb c 128 then ascii_lower c else u.fold c

-- `strings.ToLower`
unfoldable pub to_lower : Unicode → Text → Text
to_lower u = map (lower_rune u)

-- `strings.EqualFold`
unfoldable pub equal_fold : Unicode → Text → Text → Bool
unfolding text_eq
equal_fold u s t = text_eq (map (fold_rune u) s) (map (fold_rune u) t)

-- `unicode.IsSpace`
unfoldable pub is_space : ℕ → Bool
is_space c =
    leb 9 c && leb c 13
    || c == 32
    || c == 0x85
    || c == 0xa0
    || c == 0x1680
    || leb 0x2000 c && leb c 0x200a
    || c == 0x2028
    || c == 0x2029
    || c == 0x202f
    || c == 0x205f
    || c == 0x3000

trim_left : Text → Text
unfolding is_space
trim_left [] = []
trim_left (c ∷ s) = let rest = trim_left s in if is_space c then rest else c ∷ s

trim_right : Text → Text
unfolding is_space
trim_right [] = []
trim_right (c ∷ s) = let rest = trim_right s in if is_space c && is_empty rest then [] else c ∷ rest

-- `strings.TrimSpace`
unfoldable pub trim_space : Text → Text
unfolding trim_left trim_right
trim_space s = trim_right (trim_left s)

-- `strings.HasPrefix`, the prefix first.
unfoldable pub has_prefix : Text → Text → Bool
has_prefix [] s = true
has_prefix (c ∷ p) [] = false
has_prefix (c ∷ p) (d ∷ s) = c == d && has_prefix p s

abbrev rune_width : ℕ → ℕ
rune_width c = if ltb c 0x80 then 1 else if ltb c 0x800 then 2 else if ltb c 0x10000 then 3 else 4

-- `len(s)`
unfoldable pub byte_len : Text → ℕ
byte_len [] = 0
byte_len (c ∷ s) = rune_width c + byte_len s

-- `s[2:]`, where the first two code points are ASCII.
abbrev pub drop_two : Text → Text
drop_two (c ∷ d ∷ s) = s
drop_two _ = []
