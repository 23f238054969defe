-- ===== src/Text/Numbers.antt =====
-- `strconv.ParseUint`, `ParseInt` and `Atoi` at 64 bits, and decimal printing. An error of these
-- functions is `none`: the program never looks into it.
use block_explorer_backend.Prelude.{
  ℕ, zero, suc, List, ◌+◌, ◌-◌, ◌*◌, ◌/◌, ◌%◌, ◌<◌, ◌≡◌, ◌∙◌, refl, Bool, true, false, ◌&&◌, Option,
  none, some, [], ◌∷◌, ◌++◌, arith, ltb, leb, ltb→lt, ◌==◌, Bool-cases, inl, inr, ap, sym, ◌≢◌,
  if◌then◌else◌,
}
use block_explorer_backend.Prelude.Int.{ℤ, pos, negsuc, two_63, two_64}
use block_explorer_backend.Text.{Text}
use mathlib.Core.List.{append_assoc, append-nil}

-- The value of a digit of base 36, in either case.
abbrev pub digit_value : ℕ → Option ℕ
digit_value c =
    if leb b'0' c && leb c b'9'
    then some (c - b'0')
    else if leb b'a' c && leb c b'z'
    then some (c - b'a' + 10)
    else if leb b'A' c && leb c b'Z'
    then some (c - b'A' + 10)
    else none

-- One digit: a syntax error outside the base, a range error past 64 bits.
abbrev pub push_digit : ℕ → ℕ → ℕ → Option ℕ
push_digit base acc c = elim (digit_value c) [
  | none ↦ none
  | some d ↦
      if leb base d then none else let n = acc * base + d in if ltb n two_64 then some n else none
]

unfoldable pub scan_digits : ℕ → ℕ → Text → Option ℕ
scan_digits base acc [] = some acc
scan_digits base acc (c ∷ s) = elim (push_digit base acc c) [
  | none ↦ none
  | some n ↦ scan_digits base n s
]

-- `strconv.ParseUint(s, base, 64)`, at a base from 2 to 36.
unfoldable pub parse_uint : ℕ → Text → Option ℕ
unfolding scan_digits
parse_uint base [] = none
parse_uint base (c ∷ s) = scan_digits base 0 (c ∷ s)

abbrev negate : ℕ → ℤ
negate zero = pos 0
negate (suc n) = negsuc n

abbrev signed : Bool → Option ℕ → Option ℤ
signed neg none = none
signed true (some n) = if leb n two_63 then some (negate n) else none
signed false (some n) = if ltb n two_63 then some (pos n) else none

-- `strconv.ParseInt(s, 10, 64)` and `strconv.Atoi(s)` on a 64-bit machine.
unfoldable pub parse_int : Text → Option ℤ
unfolding parse_uint
parse_int [] = none
parse_int (c ∷ s) =
    if c == b'-'
    then signed true (parse_uint 10 s)
    else if c == b'+'
    then signed false (parse_uint 10 s)
    else signed false (parse_uint 10 (c ∷ s))

print_digits : ℕ → ℕ → Text
print_digits zero n = []
print_digits (suc fuel) n = elim (ltb n 10) [
  | true ↦ (b'0' + n) ∷ []
  | false ↦ print_digits fuel (n / 10) ++ (b'0' + n % 10) ∷ []
]

-- `(*big.Int).String()` of a number that is not negative, and `%d`.
unfoldable pub decimal : ℕ → Text
unfolding print_digits
decimal n = print_digits (n + 1) n

scan-digit :
    (acc d : ℕ) (s : Text)
    → d < 10
    → acc * 10 + d < two_64
    → scan_digits 10 acc ((b'0' + d) ∷ s) ≡ scan_digits 10 (acc * 10 + d) s
unfolding scan_digits
scan-digit acc d s h k = ground arith

print_digits-small : (fuel n : ℕ) → n < 10 → print_digits (suc fuel) n ≡ (b'0' + n) ∷ []
unfolding print_digits
print_digits-small fuel n h = ground arith

print_digits-large :
    (fuel n : ℕ)
    → ltb n 10 ≡ false
    → print_digits (suc fuel) n ≡ print_digits fuel (n / 10) ++ (b'0' + n % 10) ∷ []
unfolding print_digits
print_digits-large fuel n h = ground arith

scan-first : (d : ℕ) (s : Text) → d < 10 → scan_digits 10 0 ((b'0' + d) ∷ s) ≡ scan_digits 10 d s
scan-first d s h = scan-digit 0 d s h (omega arith) ∙ ap (λ m. scan_digits 10 m s) (omega arith)

scan-print :
    (fuel n : ℕ) (s : Text)
    → n < fuel
    → n < two_64
    → scan_digits 10 0 (print_digits fuel n ++ s) ≡ scan_digits 10 n s
scan-print zero n s h k = absurd (omega arith)
scan-print (suc fuel) n s h k = elim (Bool-cases (ltb n 10)) [
  | inl small ↦
      rw (print_digits-small fuel n (ltb→lt n 10 small)) (scan-first n s (ltb→lt n 10 small))
  | inr large ↦
      rw (print_digits-large fuel n large, append_assoc)
        (scan-print fuel (n / 10) ((b'0' + n % 10) ∷ s) (ground arith) (omega arith)
          ∙ scan-digit (n / 10) (n % 10) s (omega arith) (omega arith)
          ∙ ap (λ m. scan_digits 10 m s) (omega arith))
]

parse_uint-cons : (base : ℕ) (s : Text) → s ≢ [] → parse_uint base s ≡ scan_digits base 0 s
unfolding parse_uint
parse_uint-cons base [] h = absurd (h refl)
parse_uint-cons base (c ∷ s) h = refl

snoc-ne-nil : (s : Text) (c : ℕ) → s ++ c ∷ [] ≢ []
snoc-ne-nil [] c e = cc
snoc-ne-nil (d ∷ s) c e = cc

print_digits-ne-nil : (fuel n : ℕ) → n < fuel → print_digits fuel n ≢ []
print_digits-ne-nil zero n h = absurd (omega arith)
print_digits-ne-nil (suc fuel) n h = elim (Bool-cases (ltb n 10)) [
  | inl small ↦ rw (print_digits-small fuel n (ltb→lt n 10 small)) (snoc-ne-nil [] (b'0' + n))
  | inr large ↦
      rw (print_digits-large fuel n large)
        (snoc-ne-nil (print_digits fuel (n / 10)) (b'0' + n % 10))
]

-- Every uint64 is read back from its decimal digits.
pub parse_uint-decimal : (n : ℕ) → n < two_64 → parse_uint 10 (decimal n) ≡ some n
unfolding decimal scan_digits
parse_uint-decimal n h =
    parse_uint-cons 10 (decimal n) (print_digits-ne-nil (n + 1) n (omega arith))
    ∙ ap (scan_digits 10 0) (sym (append-nil (decimal n)))
    ∙ scan-print (n + 1) n [] (omega arith) h
    ∙ refl

abbrev nibble : ℕ → ℕ
nibble d = if ltb d 10 then b'0' + d else b'a' + (d - 10)

-- `%x` of a byte slice.
unfoldable pub hex_bytes : List ℕ → Text
hex_bytes [] = []
hex_bytes (b ∷ bs) = nibble (b / 16) ∷ nibble (b % 16) ∷ hex_bytes bs
