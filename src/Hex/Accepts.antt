-- ===== src/Hex/Accepts.antt =====
-- What the checks of hex.go accept, stated without the code's tests.
use block_explorer_backend.Prelude.{
  ℕ, ◌+◌, ◌≤◌, ◌≡◌, refl, ◌↔◌, ◌⊎◌, true, none, some, inl, inr, Option-cases, [], ◌∷◌, ◌++◌, arith,
  length, All, ap,
}
use block_explorer_backend.Errors.{GoError, sentinel, invalid_tx_hash, invalid_address}
use block_explorer_backend.Text.{Text, codes, has_prefix, byte_len, drop_two}
use block_explorer_backend.Text.Laws.{has_prefix-drop_two}
use block_explorer_backend.Hex.{is_hex_char, all_hex, validate_tx_hash, validate_address}

-- A hex digit, in either case.
abbrev pub IsHexDigit : ℕ → Type 0
IsHexDigit c = (b'0' ≤ c) × (c ≤ b'9') ⊎ (b'a' ≤ c) × (c ≤ b'f') ⊎ (b'A' ≤ c) × (c ≤ b'F')

-- "0x" and then exactly `n` hex digits.
pub record IsHexText (n : ℕ) (s : Text) : Type 0 where
  pub digits : Text
  pub shape : s ≡ codes "0x" ++ digits
  pub count : length digits ≡ n
  pub all_digits : All IsHexDigit digits

is_hex_char-IsHexDigit : (c : ℕ) → is_hex_char c ≡ true → IsHexDigit c
unfolding is_hex_char
is_hex_char-IsHexDigit c h = ground arith

is_hex_char_of_digit : (c : ℕ) → IsHexDigit c → is_hex_char c ≡ true
unfolding is_hex_char
is_hex_char_of_digit c h = ground arith

all_hex-All : (s : Text) → all_hex s ≡ true → All IsHexDigit s
unfolding all_hex
all_hex-All [] h = tt
all_hex-All (c ∷ s) h = (is_hex_char-IsHexDigit c (ground arith), all_hex-All s (ground arith))

all_hex_of_digits : (s : Text) → All IsHexDigit s → all_hex s ≡ true
unfolding all_hex
all_hex_of_digits [] h = refl
all_hex_of_digits (c ∷ s) h = rw (is_hex_char_of_digit c h.0) (all_hex_of_digits s h.1)

byte_len-hex : (s : Text) → All IsHexDigit s → byte_len s ≡ length s
unfolding byte_len
byte_len-hex [] h = refl
byte_len-hex (c ∷ s) h = ground (arith, byte_len-hex s h.1)

byte_len-prefix : (s : Text) → byte_len (codes "0x" ++ s) ≡ byte_len s + 2
unfolding byte_len
byte_len-prefix s = omega arith

tests-IsHexText :
    (n : ℕ) (s : Text)
    → has_prefix (codes "0x") s ≡ true
    → byte_len s ≡ n + 2
    → all_hex (drop_two s) ≡ true
    → IsHexText n s
tests-IsHexText n s p l d =
    let shape = has_prefix-drop_two s p in
    let digits = all_hex-All (drop_two s) d in
    record {
      digits = drop_two s;
      shape = shape;
      count = omega (
        arith,
        ap byte_len shape,
        byte_len-prefix (drop_two s),
        byte_len-hex (drop_two s) digits,
        l,
      );
      all_digits = digits;
    }

tests_of_hex_text :
    (n : ℕ) (s : Text)
    → IsHexText n s
    → (has_prefix (codes "0x") s ≡ true) × (byte_len s ≡ n + 2) × (all_hex (drop_two s) ≡ true)
unfolding has_prefix
tests_of_hex_text n s h = rw h.shape (
  refl,
  omega (arith, byte_len-prefix h.digits, byte_len-hex h.digits h.all_digits, h.count),
  all_hex_of_digits h.digits h.all_digits,
)

-- A transaction hash passes the check exactly when it is "0x" and 64 hex digits.
pub validate_tx_hash_iff : (s : Text) → (validate_tx_hash s ≡ none) ↔ IsHexText 64 s
unfolding validate_tx_hash
validate_tx_hash_iff s = (
  λ h. tests-IsHexText 64 s (ground arith) (ground arith) (ground arith),
  λ h. ground (arith, tests_of_hex_text 64 s h),
)

-- An address passes the check exactly when it is "0x" and 40 hex digits.
pub validate_address_iff : (s : Text) → (validate_address s ≡ none) ↔ IsHexText 40 s
unfolding validate_address
validate_address_iff s = (
  λ h. tests-IsHexText 40 s (ground arith) (ground arith) (ground arith),
  λ h. ground (arith, tests_of_hex_text 40 s h),
)

only_address :
    (s : Text) (e : GoError)
    → validate_address s ≡ some e
    → validate_address s ≡ some (sentinel invalid_address)
unfolding validate_address
only_address s e h = ground arith

only_tx_hash :
    (s : Text) (e : GoError)
    → validate_tx_hash s ≡ some e
    → validate_tx_hash s ≡ some (sentinel invalid_tx_hash)
unfolding validate_tx_hash
only_tx_hash s e h = ground arith

-- The only error of the check.
pub validate_address-error :
    (s : Text) → ¬ IsHexText 40 s → validate_address s ≡ some (sentinel invalid_address)
validate_address-error s bad = elim (Option-cases (validate_address s)) [
  | inl accepted ↦ absurd (bad ((validate_address_iff s).0 accepted))
  | inr (e, refused) ↦ only_address s e refused
]

pub validate_tx_hash-error :
    (s : Text) → ¬ IsHexText 64 s → validate_tx_hash s ≡ some (sentinel invalid_tx_hash)
validate_tx_hash-error s bad = elim (Option-cases (validate_tx_hash s)) [
  | inl accepted ↦ absurd (bad ((validate_tx_hash_iff s).0 accepted))
  | inr (e, refused) ↦ only_tx_hash s e refused
]
