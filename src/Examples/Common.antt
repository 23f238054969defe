-- ===== src/Examples/Common.antt =====
-- The parameters of the model at concrete functions, and values that the examples share.
use block_explorer_backend.Prelude.{refl, ℕ, ◌≡◌, ◌+◌, true, none, some, [], ◌∷◌}
use block_explorer_backend.Prelude.Int.{pos, negsuc}
use block_explorer_backend.Text.{Text, Unicode, codes}
use block_explorer_backend.Text.Numbers.{hex_bytes}
use block_explorer_backend.Ethereum.{EthTransaction, EthBlock, Receipt, Geth}
use block_explorer_backend.Effect.{Result, ok}
use block_explorer_backend.Config.{Config}
use block_explorer_backend.Models.{Block, Transaction, completed}

-- No letters but ASCII ones.
abbrev pub plain : Unicode
plain = record { lower = λ c. c; fold = λ c. c }

-- A hash prints as one code point.
abbrev spelled : Text → ℕ
spelled [] = 0
spelled (c ∷ s) = c

abbrev pub geth : Geth
geth = record {
  hash_hex = λ h. h ∷ [];
  address_hex = λ a. a ∷ [];
  hex_to_hash = spelled;
  hex_to_address = spelled;
  bytes_to_hex = hex_bytes;
  encode = λ bs. codes "0x";
  sender = λ chain tx. ok 7;
}

abbrev pub eth_transaction : ℕ → EthTransaction
eth_transaction h = record {
  hash = h;
  to = some 8;
  nonce = 0;
  value = 5;
  gas = 21000;
  gas_price = some 3;
  payload = 255 ∷ [];
}

-- The block at `n`, with one transaction.
abbrev pub eth_block : ℕ → EthBlock
eth_block n = record {
  number = n;
  hash = n + 100;
  parent_hash = n + 99;
  time = 12;
  coinbase = 9;
  gas_limit = 30000;
  gas_used = 21000;
  transactions = eth_transaction (n + 200) ∷ [];
}

abbrev pub genesis : Block
genesis = record {
  chain_id = pos 1;
  number = 0;
  hash = 100 ∷ [];
  parent_hash = 99 ∷ [];
  timestamp = 12;
  miner = 9 ∷ [];
  tx_count = 0;
  gas_used = 0;
  gas_limit = 30000;
  transactions_synced = true;
  receipts_synced = true;
  sync_status = completed;
  last_sync_error = none;
}

-- A row without its receipt.
abbrev pub row : ℕ → Transaction
row h = record {
  chain_id = pos 1;
  hash = h ∷ [];
  block_number = 1;
  block_hash = 101 ∷ [];
  tx_index = 0;
  from_address = 7 ∷ [];
  from_address_lower = 7 ∷ [];
  to_address = 8 ∷ [];
  to_address_lower = 8 ∷ [];
  receipt_status = none;
  receipt_gas_used = none;
  nonce = 0;
  value_wei = codes "5";
  gas_limit = 21000;
  gas_price_wei = codes "3";
  input_data = codes "ff";
}

abbrev pub receipt_of : ℕ → Receipt
receipt_of h = record {
  tx_hash = h;
  block_number = some 1;
  block_hash = 101;
  status = 1;
  gas_used = 21000;
}

pub ok-injective : {A : Type 0} (a b : A) → ok a ≡ ok b → a ≡ b
ok-injective a b e = cc

-- A configuration as the file gives it.
abbrev pub given : Config
given = record {
  server = record { port = [] };
  rpc = record { chain_id = pos 1; rpc_url = codes "http://node"; timeout_seconds = pos 0 };
  db = record { dsn = codes "db" };
  indexer = record {
    auto_start = true;
    interval_seconds = negsuc 4;
    run_timeout_seconds = pos 5;
    sync_target = [];
    start_block = 10;
  };
}

pub eth_block-number :
    (n : ℕ) (b : EthBlock) → ◌≡◌ {A = Result EthBlock} (ok (eth_block n)) (ok b) → b.number ≡ n
eth_block-number n b e = let same = ok-injective (eth_block n) b e in rw (← same) refl
