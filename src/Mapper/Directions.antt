-- ===== src/Mapper/Directions.antt =====
-- The direction and the counterparty of an address's transactions.
use block_explorer_backend.Prelude.{◌≡◌, ◌≢◌, ◌↔◌, arith}
use block_explorer_backend.Text.{Text, codes, text_eq_iff}
use block_explorer_backend.Models.{Transaction}
use block_explorer_backend.Dto.{Direction, to_self, outgoing, incoming, unknown}
use block_explorer_backend.Mapper.{to_address_transaction_dto}

-- The direction by who sends and who receives, and the counterparty as the other party.
pub record IsDirected (tx : Transaction) (q : Text) (d : Direction) (other : Text) : Type 0 where
  pub self_iff : (d ≡ to_self) ↔ ((tx.from_address_lower ≡ q) × (tx.to_address_lower ≡ q))
  pub out_iff : (d ≡ outgoing) ↔ ((tx.from_address_lower ≡ q) × (tx.to_address_lower ≢ q))
  pub in_iff : (d ≡ incoming) ↔ ((tx.from_address_lower ≢ q) × (tx.to_address_lower ≡ q))
  pub unknown_iff : (d ≡ unknown) ↔ ((tx.from_address_lower ≢ q) × (tx.to_address_lower ≢ q))
  pub from_q : tx.from_address_lower ≡ q → other ≡ tx.to_address
  pub to_q : d ≡ incoming → other ≡ tx.from_address
  pub nobody : d ≡ unknown → other ≡ codes ""

-- For every row and query address the direction is to_self, outgoing, incoming or unknown by whether
-- the sender, the receiver, both or neither is the address, and the counterparty is the receiver if
-- the address sends, the sender if it only receives, and empty otherwise.
pub to_address_transaction_dto-IsDirected :
    (tx : Transaction) (q : Text)
    → IsDirected tx q
        (to_address_transaction_dto tx q).direction
        (to_address_transaction_dto tx q).counterparty_address
unfolding to_address_transaction_dto
to_address_transaction_dto-IsDirected tx q =
    ground (arith, text_eq_iff tx.from_address_lower q, text_eq_iff tx.to_address_lower q)
