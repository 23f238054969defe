-- ===== src/Controllers/Wallets.antt =====
-- internal/controller/wallet_internal_controller.go.
use block_explorer_backend.Prelude.{ℕ, String, Bool, Option, none, some, is_empty, if◌then◌else◌}
use block_explorer_backend.Prelude.Int.{ℤ, pos, ltb_ℤ, leb_ℤ}
use block_explorer_backend.Text.{Text, trim_space}
use block_explorer_backend.Text.Numbers.{parse_int}
use block_explorer_backend.Errors.Http.{ErrorResponse, map_error}
use block_explorer_backend.Effect.{Result, ok, err, Io}
use block_explorer_backend.Dto.{WalletCompletedBlocksResponse, GetSyncStatusResponse}
use block_explorer_backend.Controllers.{Request, Parsed, parsed, refused}

pub record WalletController (W : Type 0) : Type 0 where
  pub list_completed_blocks : ℤ → ℤ → ℤ → Io W WalletCompletedBlocksResponse
  pub get_sync_status : ℤ → Io W GetSyncStatusResponse

-- What these handlers write: the result itself, `gin.H{"error": …}` with 400, or a mapped error.
pub data WalletReply (T : Type 0) : Type 0 where
  done : T → WalletReply T
  bad_request : String → WalletReply T
  mapped : ℕ → ErrorResponse → WalletReply T

abbrev pub max_wallet_completed_blocks_limit : ℤ
max_wallet_completed_blocks_limit = pos 100

-- The messages leave out the name of the parameter.
-- A value is refused if it is `bad`.
abbrev pub above : Bool → String → ℤ → Parsed ℤ
above bad message value = if bad then refused message else parsed value

abbrev pub checked : (ℤ → Bool) → String → String → Option ℤ → Parsed ℤ
checked bad invalid message none = refused invalid
checked bad invalid message (some value) = above (bad value) message value

abbrev pub required : (ℤ → Bool) → String → String → Text → Parsed ℤ
required bad invalid message text =
    let raw = trim_space text in
    if is_empty raw then refused "is required" else checked bad invalid message (parse_int raw)

unfoldable pub parse_required_int64_query : Request → String → Parsed ℤ
parse_required_int64_query c name =
    required (λ v. ltb_ℤ v (pos 0)) "must be a valid int64" "must be non-negative" (c.query name)

unfoldable pub parse_required_positive_int64_query : Request → String → Parsed ℤ
parse_required_positive_int64_query c name =
    required (λ v. leb_ℤ v (pos 0)) "must be a valid int64" "must be positive" (c.query name)

unfoldable pub parse_required_int_query : Request → String → Parsed ℤ
parse_required_int_query c name =
    required (λ v. leb_ℤ v (pos 0)) "must be a valid integer" "must be positive" (c.query name)

abbrev pub reply : {T : Type 0} → Result T → WalletReply T
reply (ok resp) = done resp
reply (err e) = mapped (map_error e).0 (map_error e).1

abbrev pub reply_with : {W T : Type 0} → Io W T → W → WalletReply T × W
reply_with m w = let (r, w') = m w in (reply r, w')

abbrev pub when_given :
    {W T : Type 0} → Parsed ℤ → (ℤ → W → WalletReply T × W) → W → WalletReply T × W
when_given (parsed value) f w = f value w
when_given (refused message) f w = (bad_request message, w)

module _ {W : Type 0} (ctl : WalletController W) where
  abbrev pub list_limited : ℤ → ℤ → ℤ → W → WalletReply WalletCompletedBlocksResponse × W
  list_limited chain_id from_block limit =
      if ltb_ℤ max_wallet_completed_blocks_limit limit
      then (λ w. (bad_request "limit must be less than or equal to 100", w))
      else reply_with (ctl.list_completed_blocks chain_id from_block limit)

  unfoldable pub wallet_completed_blocks :
      Request → W → WalletReply WalletCompletedBlocksResponse × W
  unfolding parse_required_int64_query parse_required_positive_int64_query parse_required_int_query
  wallet_completed_blocks c =
      when_given (parse_required_positive_int64_query c "chain_id") (λ chain_id.
        when_given (parse_required_int64_query c "from_block") (λ from_block.
          when_given (parse_required_int_query c "limit")
            (λ limit. list_limited chain_id from_block limit)))

  unfoldable pub wallet_sync_status : Request → W → WalletReply GetSyncStatusResponse × W
  unfolding parse_required_positive_int64_query
  wallet_sync_status c =
      when_given (parse_required_positive_int64_query c "chain_id")
        (λ chain_id. reply_with (ctl.get_sync_status chain_id))
