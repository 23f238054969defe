-- ===== src/Controllers/Guards.antt =====
-- What the handlers pass on to the services.
use block_explorer_backend.Prelude.{
  ℕ, ◌<◌, ◌≡◌, refl, ◌⊎◌, inl, inr, String, Bool, false, Bool-cases, Option, none, some, [], ◌∷◌,
  is_empty,
}
use block_explorer_backend.Prelude.Int.{ℤ, pos, ltb_ℤ, leb_ℤ, two_64}
use block_explorer_backend.Text.{Text, trim_space}
use block_explorer_backend.Text.Numbers.{parse_uint, parse_int, decimal, parse_uint-decimal}
use block_explorer_backend.Mapper.{map_block_query_result_to_dto}
use block_explorer_backend.Dto.{WalletCompletedBlocksResponse}
use block_explorer_backend.Controllers.{Request, parsed, refused, answer_with}
use block_explorer_backend.Controllers.Blocks.{BlockController, parse_block_number, get_block}
use block_explorer_backend.Controllers.Wallets.{
  WalletController, WalletReply, bad_request, above, checked, required, parse_required_int64_query,
  parse_required_positive_int64_query, parse_required_int_query, reply_with, list_limited,
  wallet_completed_blocks,
}

parsed-filled : (s : Text) (n : ℕ) → parse_uint 10 s ≡ some n → is_empty s ≡ false
unfolding parse_uint
parsed-filled [] n e = absurd cc
parsed-filled (c ∷ s) n e = refl

module _ {W : Type 0} (ctl : BlockController W) (c : Request) where
  -- A request for the decimal digits of a uint64 is answered by the service for that number.
  pub get_block-decimal :
      (n : ℕ) (w : W)
      → n < two_64
      → c.param "number" ≡ decimal n
      → get_block ctl c w ≡ answer_with map_block_query_result_to_dto (ctl.get_block_by_number n) w
  unfolding get_block parse_block_number
  get_block-decimal n w small digits =
      let read = parse_uint-decimal n small in
      rw (digits, parsed-filled (decimal n) n read, read) refl

-- A handled request was refused and has asked nobody, or it has called the service with a positive
-- chain id, a block number that is not negative, and a limit from 1 to 100.
pub data IsGuarded {W : Type 0} (ctl : WalletController W) (w : W)
    (r : WalletReply WalletCompletedBlocksResponse × W) : Type 0 where
  turned_away : (message : String) → r ≡ (bad_request message, w) → IsGuarded ctl w r
  passed_on :
      (chain_id from_block limit : ℤ)
      → leb_ℤ chain_id (pos 0) ≡ false
      → ltb_ℤ from_block (pos 0) ≡ false
      → leb_ℤ limit (pos 0) ≡ false
      → ltb_ℤ (pos 100) limit ≡ false
      → r ≡ reply_with (ctl.list_completed_blocks chain_id from_block limit) w
      → IsGuarded ctl w r

-- A parsed parameter is refused, or it is not `bad`.
above-cases :
    (bad : ℤ → Bool) (message : String) (v : ℤ)
    → ((m : String) × (above (bad v) message v ≡ refused m))
      ⊎ ((x : ℤ) × (above (bad v) message v ≡ parsed x) × (bad x ≡ false))
above-cases bad message v = elim (Bool-cases (bad v)) [
  | inl e ↦ inl (message, rw e refl)
  | inr e ↦ inr (v, rw e refl, e)
]

checked-cases :
    (bad : ℤ → Bool) (invalid message : String) (o : Option ℤ)
    → ((m : String) × (checked bad invalid message o ≡ refused m))
      ⊎ ((x : ℤ) × (checked bad invalid message o ≡ parsed x) × (bad x ≡ false))
checked-cases bad invalid message none = inl (invalid, refl)
checked-cases bad invalid message (some v) = above-cases bad message v

required-cases :
    (bad : ℤ → Bool) (invalid message : String) (s : Text)
    → ((m : String) × (required bad invalid message s ≡ refused m))
      ⊎ ((x : ℤ) × (required bad invalid message s ≡ parsed x) × (bad x ≡ false))
required-cases bad invalid message s = elim (Bool-cases (is_empty (trim_space s))) [
  | inl e ↦ inl ("is required", rw e refl)
  | inr e ↦ rw e (checked-cases bad invalid message (parse_int (trim_space s)))
]

module _ {W : Type 0} (ctl : WalletController W) (w : W) where
  list_limited-IsGuarded :
      (chain_id from_block limit : ℤ)
      → leb_ℤ chain_id (pos 0) ≡ false
      → ltb_ℤ from_block (pos 0) ≡ false
      → leb_ℤ limit (pos 0) ≡ false
      → IsGuarded ctl w (list_limited ctl chain_id from_block limit w)
  list_limited-IsGuarded chain_id from_block limit h k l =
      elim (Bool-cases (ltb_ℤ (pos 100) limit)) [
        | inl e ↦ turned_away "limit must be less than or equal to 100" (rw e refl)
        | inr e ↦ passed_on chain_id from_block limit h k l e (rw e refl)
      ]

-- Every request for completed blocks is refused before anything is asked, or it reaches the service
-- with a positive chain id, a block number that is not negative, and a limit from 1 to 100.
pub wallet_completed_blocks-IsGuarded :
    {W : Type 0} (ctl : WalletController W) (c : Request) (w : W)
    → IsGuarded ctl w (wallet_completed_blocks ctl c w)
unfolding wallet_completed_blocks parse_required_int64_query parse_required_positive_int64_query
    parse_required_int_query
wallet_completed_blocks-IsGuarded ctl c w =
    elim (required-cases (λ v. leb_ℤ v (pos 0)) "must be a valid int64" "must be positive"
      (c.query "chain_id")) [
        | inl (m, e) ↦ turned_away m (rw e refl)
        | inr (chain_id, e, h) ↦
            elim (required-cases (λ v. ltb_ℤ v (pos 0)) "must be a valid int64"
              "must be non-negative" (c.query "from_block")) [
                | inl (m, e') ↦ turned_away m (rw (e, e') refl)
                | inr (from_block, e', k) ↦
                    elim (required-cases (λ v. leb_ℤ v (pos 0)) "must be a valid integer"
                      "must be positive" (c.query "limit")) [
                        | inl (m, e'') ↦ turned_away m (rw (e, e', e'') refl)
                        | inr (limit, e'', l) ↦
                            rw (e, e', e'')
                              (list_limited-IsGuarded ctl w chain_id from_block limit h k l)
                      ]
              ]
      ]
