-- ===== src/Rpc/Failures.antt =====
-- Which failures of the node mean that it does not know a receipt or a block.
use block_explorer_backend.Prelude.{
  ℕ, ◌≡◌, ◌↔◌, refl, inl, inr, String, true, false, Bool-cases, Option, none, some, arith, ap,
  if◌then◌else◌,
}
use block_explorer_backend.Text.{Text}
use block_explorer_backend.Errors.{
  GoError, Sentinel, sentinel, foreign, errorf, wrapf, tag, errors_is, block_not_found,
  tx_receipt_not_found, rpc_timeout, request_canceled,
}
use block_explorer_backend.Errors.Http.{root, map_error, map_error-root, answer_of}
use block_explorer_backend.Errors.Upstream.{is_timeout, is_canceled, map_rpc_error, rpc_failure}
use block_explorer_backend.Effect.{err}
use block_explorer_backend.Ethereum.{Geth}
use block_explorer_backend.Rpc.{
  EthClient, is_not_found, lookup_failure, block_by_number, transaction_receipt,
}

-- An error of foreign code holds none of the program's sentinels.
root-errors_is : (e : GoError) (s : Sentinel) → root e ≡ none → errors_is e s ≡ false
unfolding errors_is
root-errors_is (sentinel t) s h = absurd cc
root-errors_is (foreign f) s h = refl
root-errors_is (errorf m) s h = refl
root-errors_is (wrapf m e) s h = root-errors_is e s h

rpc_failure-eq :
    (message : String) (e : GoError)
    → rpc_failure message e ≡ (
        if is_timeout e
        then sentinel rpc_timeout
        else if is_canceled e
        then sentinel request_canceled
        else wrapf message e)
unfolding rpc_failure map_rpc_error
rpc_failure-eq message e = ground arith

-- The root of what a failed look-up becomes.
abbrev pub failure_root : Sentinel → GoError → Option Sentinel
failure_root missing e =
    if is_not_found e
    then some missing
    else if is_timeout e
    then some rpc_timeout
    else if is_canceled e
    then some request_canceled
    else none

root-lookup_failure :
    (missing : Sentinel) (message : String) (e : GoError)
    → root e ≡ none
    → root (lookup_failure missing message e) ≡ failure_root missing e
unfolding lookup_failure
root-lookup_failure missing message e h = elim (Bool-cases (is_not_found e)) [
  | inl n ↦ rw n refl
  | inr n ↦ elim (Bool-cases (is_timeout e)) [
    | inl t ↦ rw (n, rpc_failure-eq message e, t) refl
    | inr t ↦ elim (Bool-cases (is_canceled e)) [
      | inl c ↦ rw (n, rpc_failure-eq message e, t, c) refl
      | inr c ↦ rw (n, rpc_failure-eq message e, t, c) h
    ]
  ]
]

errors_is-lookup_failure :
    (message : String) (e : GoError)
    → root e ≡ none
    → (errors_is (lookup_failure tx_receipt_not_found message e) tx_receipt_not_found ≡ true)
      ↔ (is_not_found e ≡ true)
unfolding lookup_failure errors_is tag
errors_is-lookup_failure message e h = elim (Bool-cases (is_not_found e)) [
  | inl n ↦ rw n (λ x. refl, λ x. refl)
  | inr n ↦ elim (Bool-cases (is_timeout e)) [
    | inl t ↦ rw (n, rpc_failure-eq message e, t) (λ x. x, λ x. x)
    | inr t ↦ elim (Bool-cases (is_canceled e)) [
      | inl c ↦ rw (n, rpc_failure-eq message e, t, c) (λ x. x, λ x. x)
      | inr c ↦
          rw (n, rpc_failure-eq message e, t, c, root-errors_is e tx_receipt_not_found h)
            (λ x. x, λ x. x)
    ]
  ]
]

-- If the node fails to give a block with an error that holds no sentinel of the program, the HTTP
-- answer to it is the one for a missing block, a timeout or a cancelled request by what the error is,
-- and else the answer for an internal error.
pub block_by_number-answer :
    {W : Type 0} (g : Geth) (client : EthClient W) (number : ℕ) (w w' : W) (e : GoError)
    → client.block_by_number number w ≡ (err e, w')
    → root e ≡ none
    → (e' : GoError) × (block_by_number g client number w ≡ (err e', w'))
      × (map_error e' ≡ answer_of (failure_root block_not_found e))
unfolding block_by_number
block_by_number-answer g client number w w' e failed h =
    let e' = lookup_failure block_not_found "get block by number: " e in
    (
      e',
      rw failed refl,
      rw (map_error-root e')
          (ap answer_of (root-lookup_failure block_not_found "get block by number: " e h)),
    )

-- Of an error of the client that holds no sentinel, `TransactionReceipt` makes the missing receipt
-- that the service passes over exactly if the error is `ethereum.NotFound`.
pub transaction_receipt-missing :
    {W : Type 0} (g : Geth) (client : EthClient W) (hash : Text) (w w' : W) (e : GoError)
    → client.transaction_receipt (g.hex_to_hash hash) w ≡ (err e, w')
    → root e ≡ none
    → (e' : GoError) × (transaction_receipt g client hash w ≡ (err e', w'))
      × ((errors_is e' tx_receipt_not_found ≡ true) ↔ (is_not_found e ≡ true))
unfolding transaction_receipt
transaction_receipt-missing g client hash w w' e failed h = (
  lookup_failure tx_receipt_not_found "rpc: get transaction receipt: " e,
  rw failed refl,
  errors_is-lookup_failure "rpc: get transaction receipt: " e h,
)
