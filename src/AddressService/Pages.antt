-- ===== src/AddressService/Pages.antt =====
-- The rows that a page asks for.
use block_explorer_backend.Prelude.{ℕ, ◌+◌, ◌-◌, ◌*◌, ◌≤◌, ◌<◌, ◌≡◌, refl, arith, false, List}
use block_explorer_backend.Prelude.Int.{
  ℤ, pos, two_63, two_64, pos_pred, pos_mul, wrap_pos, wrap_pos-add,
}
use block_explorer_backend.Text.{Text, Unicode}
use block_explorer_backend.Effect.{Result, ok, err, Io, continue, ◌>>=◌, context, pure}
use block_explorer_backend.Models.{Transaction}
use block_explorer_backend.Dto.{AddressTransactionDto, AddressTransactionListDto}
use block_explorer_backend.AddressService.{
  AddressService, page_offset, bad_pagination, list_of, list_page,
}

-- While it fits in an int64, the offset of a page is the number of rows on the pages before it.
pub page_offset-eq :
    (page page_size : ℕ)
    → 0 < page
    → page < two_63
    → (page - 1) * page_size < two_63
    → page_offset (pos page) (pos page_size) ≡ pos ((page - 1) * page_size)
unfolding page_offset
page_offset-eq page page_size h small fits =
    rw (pos_pred page h, wrap_pos (page - 1) (omega arith), pos_mul (page - 1) page_size)
      (wrap_pos ((page - 1) * page_size) fits)

-- 2 ^ 58 pages of 64 rows are 2 ^ 64 rows.
abbrev pub wrap_pages : ℕ
wrap_pages = 288230376151711744

page_offset-wraps :
    (page : ℕ)
    → 0 < page
    → page + wrap_pages < two_63
    → page_offset (pos (page + wrap_pages)) (pos 64) ≡ page_offset (pos page) (pos 64)
unfolding page_offset
page_offset-wraps page h small =
    let far : (page + wrap_pages - 1) * 64 ≡ (page - 1) * 64 + two_64 = omega arith in
    rw
      (
        pos_pred page h,
        pos_pred (page + wrap_pages) (omega arith),
        wrap_pos (page - 1) (omega arith),
        wrap_pos (page + wrap_pages - 1) (omega arith),
        pos_mul (page - 1) 64,
        pos_mul (page + wrap_pages - 1) 64,
        far,
      )
      (wrap_pos-add ((page - 1) * 64))

-- The rows of an answer.
abbrev pub items_of : Result AddressTransactionListDto → Result (List AddressTransactionDto)
items_of (ok list) = ok list.items
items_of (err e) = err e

good_pagination :
    (page page_size : ℕ)
    → 0 < page
    → 0 < page_size
    → page_size ≤ 100
    → bad_pagination (pos page) (pos page_size) ≡ false
good_pagination page page_size h k l = ground arith

module _ {W : Type 0} (u : Unicode) (s : AddressService W) where
  -- The call of the reader for a page, and its rows.
  abbrev pub page_call : Text → ℤ → ℤ → Io W (List Transaction)
  page_call address limit offset =
      context "list indexed transactions by address: "
        (s.address_transaction_reader.list_transactions_by_address s.chain_id address limit offset)

  -- A page in range is the reader's answer for its rows: at most `page_size` of them, after those of
  -- the pages before.
  pub list_page-eq :
      (address : Text) (page page_size : ℕ) (w : W)
      → 0 < page
      → page < two_63
      → 0 < page_size
      → page_size ≤ 100
      → (page - 1) * page_size < two_63
      → list_page u s address (pos page) (pos page_size) w
        ≡ (page_call address (pos page_size) (pos ((page - 1) * page_size)) >>= λ txs.
              pure (list_of u s address (pos page) (pos page_size) txs))
            w
  unfolding list_page
  list_page-eq address page page_size w h small k l fits =
      rw (good_pagination page page_size h k l, page_offset-eq page page_size h small fits)

  items-continue :
      (address : Text) (page page' : ℤ) (size : ℤ) (r : Result (List Transaction)) (w : W)
      → items_of (continue r (λ txs. pure (list_of u s address page size txs)) w).0
        ≡ items_of (continue r (λ txs. pure (list_of u s address page' size txs)) w).0
  items-continue address page page' size (ok txs) w = refl
  items-continue address page page' size (err e) w = refl

-- Far pages come round: at 64 rows a page, the page 2 ^ 58 further on has the rows of this page.
pub list_page-wraps :
    {W : Type 0} (u : Unicode) (s : AddressService W) (address : Text) (page : ℕ) (w : W)
    → 0 < page
    → page + wrap_pages < two_63
    → items_of (list_page u s address (pos (page + wrap_pages)) (pos 64) w).0
      ≡ items_of (list_page u s address (pos page) (pos 64) w).0
unfolding list_page
list_page-wraps u s address page w h small =
    rw
      (
        good_pagination page 64 h (omega arith) (omega arith),
        good_pagination (page + wrap_pages) 64 (omega arith) (omega arith) (omega arith),
        page_offset-wraps page h small,
      )
      (items-continue u s address _ _ (pos 64) _ _)
