-- ===== src/App/Addresses.antt =====
-- A page of the transactions of an address, from the stored rows.
use mathlib.Core.List.{Permᴰ}
use block_explorer_backend.Prelude.{ℕ, ◌-◌, ◌*◌, ◌≡◌, List, map, take, drop, keep}
use block_explorer_backend.Prelude.Int.{ℤ, pos}
use block_explorer_backend.Text.{Text, Unicode}
use block_explorer_backend.Ethereum.{Geth}
use block_explorer_backend.Models.{Transaction}
use block_explorer_backend.Dto.{AddressTransactionDto}
use block_explorer_backend.Mapper.{to_address_transaction_dto}
use block_explorer_backend.Config.{Config}
use block_explorer_backend.Gorm.{Database}
use block_explorer_backend.Gorm.Contract.{DatabaseContract, IsOrdered}
use block_explorer_backend.Rpc.{EthClient}
use block_explorer_backend.Repo.Transactions.{address_query}
use block_explorer_backend.AddressService.{AddressService}
use block_explorer_backend.App.Wiring.{address_service}

-- The page of some arrangement of the rows of the chain that the address sends or receives, the latest
-- first: `size` of them, after those of the pages before.
pub record IsAddressPage (chain : ℤ) (address : Text) (page size : ℕ) (rows : List Transaction)
    (items : List AddressTransactionDto) : Type 0 where
  pub arranged : List Transaction
  pub same_rows : Permᴰ arranged (keep (address_query chain address (pos 0) (pos 0)).matches rows)
  pub latest_first : IsOrdered (address_query chain address (pos 0) (pos 0)).before arranged
  pub items_of_rows :
      items
      ≡ map
          (λ tx. to_address_transaction_dto tx address)
          (take size (drop ((page - 1) * size) arranged))

module _ {W : Type 0} (u : Unicode) (g : Geth) (db : Database W) (client : EthClient W)
    (cfg : Config) (d : DatabaseContract db) where
  abbrev service : AddressService W
  service = address_service u g db client cfg
