-- ===== src/AddressService/Guards.antt =====
-- What `AddressService` refuses before it asks anybody, and what `GetAddress` answers.
use block_explorer_backend.Prelude.{ℕ, ◌≡◌, ◌≢◌, ◌↔◌, refl, true, none, arith}
use block_explorer_backend.Prelude.Int.{ℤ, pos}
use block_explorer_backend.Text.{Text, Unicode, codes, text_eq_iff, trim_space, to_lower}
use block_explorer_backend.Errors.{sentinel, invalid_address}
use block_explorer_backend.Effect.{Result, ok, err, Io}
use block_explorer_backend.Effect.Ensures.{
  Ends, Ensures, Ensures-pure, Ensures-map_err, Ensures-bind, Ensures-given,
}
use block_explorer_backend.Dto.{AddressInfo}
use block_explorer_backend.Hex.{validate_address}
use block_explorer_backend.Hex.Accepts.{IsHexText, validate_address_iff, validate_address-error}
use block_explorer_backend.AddressService.{
  AddressService, info_of, get_address, get_indexed_transactions_by_address,
}

-- An address that is not "0x" and 40 hex digits, once it is trimmed and in lower case, is refused by
-- both calls, and neither the node nor the database is asked.
pub bad_address-refused :
    {W : Type 0} (u : Unicode) (s : AddressService W) (raw : Text) (page page_size : ℤ) (w : W)
    → ¬ IsHexText 40 (to_lower u (trim_space raw))
    → (get_address u s raw w ≡ (err (sentinel invalid_address), w))
      × (get_indexed_transactions_by_address u s raw page page_size w
          ≡ (err (sentinel invalid_address), w))
unfolding get_address get_indexed_transactions_by_address
bad_address-refused u s raw page page_size w bad =
    let refused = validate_address-error (to_lower u (trim_space raw)) bad in
    (rw refused, rw refused)

-- What an answer of `GetAddress` holds.
pub record IsInfo {W : Type 0} (s : AddressService W) (address : Text) (info : AddressInfo)
    : Type 0 where
  pub contract_code : Text
  pub same_address : info.address ≡ address
  pub no_chain_id : info.chain_id ≡ pos 0
  pub contract_iff : (info.is_contract ≡ true) ↔ (contract_code ≢ codes "0x")
  pub asked : (w : W) × ((s.address_state_reader.get_code address w).0 ≡ ok contract_code)

module _ {W A : Type 0} (m : Io W A) where
  -- The call has given this answer, in some world.
  abbrev Answers : A → Type 0
  Answers a = (w : W) × ((m w).0 ≡ ok a)

  Answers-Ends :
      (r : Result A) (w₀ w : W)
      → (m w₀).0 ≡ r
      → Ends (λ a w. Unit {0} × Answers a) (λ w. Unit {0}) r w
  Answers-Ends (ok a) w₀ w e = (tt, (w₀, e))
  Answers-Ends (err x) w₀ w e = tt

  Answers-Ensures : Ensures (λ w. Unit {0}) m (λ a w. Unit {0} × Answers a) (λ w. Unit {0})
  Answers-Ensures = record { at = λ w p. Answers-Ends (m w).0 w (m w).1 refl }

module _ {W : Type 0} (u : Unicode) (s : AddressService W) where
  info_of-IsInfo :
      (address balance : Text) (nonce : ℕ) (contract_code : Text)
      → Answers (s.address_state_reader.get_code address) contract_code
      → IsInfo s address (info_of address balance nonce contract_code)
  info_of-IsInfo address balance nonce contract_code asked = record {
    contract_code = contract_code;
    same_address = refl;
    no_chain_id = refl;
    contract_iff = ground (arith, text_eq_iff contract_code (codes "0x"));
    asked = asked;
  }

  get_address-Ensures :
      (raw : Text)
      → validate_address (to_lower u (trim_space raw)) ≡ none
      → Ensures
          (λ w. Unit {0})
          (get_address u s raw)
          (λ info w. IsInfo s (trim_space raw) info)
          (λ w. Unit {0})
  unfolding get_address
  get_address-Ensures raw accepted =
      let address = trim_space raw in
      rw accepted (
        Ensures-bind
          (Ensures-map_err _ (Answers-Ensures (s.address_state_reader.get_balance address)))
          (λ balance. Ensures-given (λ _.
            Ensures-bind
              (Ensures-map_err _ (Answers-Ensures (s.address_state_reader.get_nonce address)))
              (λ nonce. Ensures-given (λ _.
                Ensures-bind
                  (Ensures-map_err _ (Answers-Ensures (s.address_state_reader.get_code address)))
                  (λ contract_code. Ensures-given (λ asked.
                    Ensures-pure (info_of address balance nonce contract_code)
                      (λ w p. info_of-IsInfo address balance nonce contract_code asked))))))))

-- If `GetAddress` accepts the address and answers, the answer repeats the trimmed address, calls it a
-- contract exactly if the code that the node gave for it is not "0x", and has the chain id 0, whatever
-- the chain of the service is.
pub get_address-IsInfo :
    {W : Type 0} (u : Unicode) (s : AddressService W) (raw : Text) (w : W)
    → IsHexText 40 (to_lower u (trim_space raw))
    → Ends
        (λ info w'. IsInfo s (trim_space raw) info)
        (λ w'. Unit {0})
        (get_address u s raw w).0
        (get_address u s raw w).1
get_address-IsInfo u s raw w shape =
    (get_address-Ensures u s raw ((validate_address_iff (to_lower u (trim_space raw))).1 shape)).at
      w tt
