-- ===== src/Examples/Handlers.antt =====
-- Handlers over services in memory, and a configuration.
use block_explorer_backend.Prelude.{◌≡◌, ◌↔◌, refl, none, []}
use block_explorer_backend.Prelude.Int.{pos}
use block_explorer_backend.Text.{Text, codes, text_eq}
use block_explorer_backend.Effect.{ok, pure}
use block_explorer_backend.Mapper.{map_rpc_block_to_query_result}
use block_explorer_backend.Controllers.{Request}
use block_explorer_backend.Controllers.Blocks.{BlockController}
use block_explorer_backend.Controllers.Wallets.{WalletController, wallet_completed_blocks}
use block_explorer_backend.Controllers.Guards.{IsGuarded, wallet_completed_blocks-IsGuarded}
use block_explorer_backend.Config.{with_defaults, check_config}
use block_explorer_backend.Config.Checks.{IsGiven, check_config_iff}
use block_explorer_backend.Examples.Common.{geth, eth_block, given}

-- Every parameter has the same text.
abbrev request : Text → Request
request t = record { param = λ name. t; query = λ name. t }

abbrev controller : BlockController (Unit {0})
controller = record {
  get_block_by_number = λ n. pure (map_rpc_block_to_query_result geth (pos 1) (eth_block n));
  sync_block_to_db = λ n. pure tt;
  sync_block_range_to_db = λ start end w. ((none, none), w);
}

abbrev wallet : WalletController (Unit {0})
wallet = record {
  list_completed_blocks = λ c from_block limit. pure (record { chain_id = c; blocks = [] });
  get_sync_status = λ c. pure (record {
    chain_id = c;
    sync_target = codes "safe";
    latest_completed_block = record { number = pos 3; hash = codes "0x" };
  });
}

wallet_completed_blocks-IsGuarded_example :
    IsGuarded wallet tt (wallet_completed_blocks wallet (request (codes "20")) tt)
wallet_completed_blocks-IsGuarded_example =
    wallet_completed_blocks-IsGuarded wallet (request (codes "20")) tt

-- The given configuration passes the checks.
given-accepted : check_config given ≡ ok (with_defaults given)
unfolding check_config text_eq
given-accepted = refl

check_config_iff_example :
    (check_config given ≡ ok (with_defaults given))
    ↔ (IsGiven given × (with_defaults given ≡ with_defaults given))
check_config_iff_example = check_config_iff given (with_defaults given)
