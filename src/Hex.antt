-- ===== src/Hex.antt =====
-- internal/utils/hex.go: the checks on hashes and addresses that come from outside.
use block_explorer_backend.Prelude.{
  ℕ, Bool, true, false, not, ◌&&◌, Option, none, some, [], ◌∷◌, leb, ◌==◌, if◌then◌else◌,
}
use block_explorer_backend.Errors.{GoError, sentinel, invalid_tx_hash, invalid_address}
use block_explorer_backend.Text.{Text, codes, has_prefix, byte_len, drop_two}
pub mod Accepts

unfoldable pub is_hex_char : ℕ → Bool
is_hex_char ch =
    if leb b'0' ch && leb ch b'9'
    then true
    else if leb b'a' ch && leb ch b'f'
    then true
    else leb b'A' ch && leb ch b'F'

-- The loop over `s[2:]`, which leaves at the first character that is no hex digit.
unfoldable pub all_hex : Text → Bool
all_hex [] = true
all_hex (ch ∷ s) = if not (is_hex_char ch) then false else all_hex s

unfoldable pub validate_tx_hash : Text → Option GoError
validate_tx_hash hash =
    if not (has_prefix (codes "0x") hash)
    then some (sentinel invalid_tx_hash)
    else if not (byte_len hash == 66)
    then some (sentinel invalid_tx_hash)
    else if all_hex (drop_two hash)
    then none
    else some (sentinel invalid_tx_hash)

unfoldable pub validate_address : Text → Option GoError
validate_address address =
    if not (has_prefix (codes "0x") address)
    then some (sentinel invalid_address)
    else if not (byte_len address == 42)
    then some (sentinel invalid_address)
    else if all_hex (drop_two address)
    then none
    else some (sentinel invalid_address)
