-- ===== src/App/Routes.antt =====
-- The routes that only read: every GET route, and every route outside `/internal`.
use block_explorer_backend.Prelude.{
  ℕ, ◌≡◌, refl, ap, ◌⊎◌, inl, inr, Bool, true, false, Bool-cases, Option, none, some, List, ◌∷◌,
  All, Among, All-Among, is_empty, if◌then◌else◌,
}
use block_explorer_backend.Prelude.Int.{ℤ, ltb_ℤ}
use block_explorer_backend.Text.{Text, Unicode}
use block_explorer_backend.Ethereum.{Geth}
use block_explorer_backend.Config.{Config}
use block_explorer_backend.Gorm.{Database}
use block_explorer_backend.Gorm.Contract.{DatabaseContract}
use block_explorer_backend.Rpc.{EthClient}
use block_explorer_backend.Controllers.{Request, Parsed, parsed, refused, Handler, when_parsed}
use block_explorer_backend.Controllers.Blocks.{
  parse_block_number, get_block, get_sync_status_of_indexer,
}
use block_explorer_backend.Controllers.Queries.{
  get_tx_detail, get_indexed_transaction, address_info, list_for, address_transactions,
}
use block_explorer_backend.Controllers.Wallets.{
  WalletReply, when_given, list_limited, max_wallet_completed_blocks_limit,
  parse_required_int64_query, parse_required_positive_int64_query, parse_required_int_query,
  wallet_completed_blocks, wallet_sync_status,
}
use block_explorer_backend.BlockService.Range.{RangeReturn}
use block_explorer_backend.App.Wiring.{address_controller, wallet_controller}
use block_explorer_backend.App.Router.{
  get, post, Segment, fixed, Endpoint, Route, routes, internal_routes, group, Serves,
}
use block_explorer_backend.App.Keeps.{rows_of, NodeContract}
use block_explorer_backend.App.ReadOnly.{
  get_block_by_number-Keeps, get_tx_detail_by_hash_from_rpc-Keeps,
  get_indexed_transaction_by_hash-Keeps, get_address-Keeps,
  get_indexed_transactions_by_address-Keeps, list_completed_blocks-Keeps, get_sync_status-Keeps,
  get_next_block_to_sync-Keeps,
}

-- The endpoints that change nothing.
abbrev pub Reads : Endpoint → Type 0
Reads Endpoint.run_indexer = ⊥
Reads Endpoint.sync_range = ⊥
Reads Endpoint.sync_one = ⊥
Reads _ = Unit

-- The route lies in the group `/internal`.
abbrev pub IsInternal : Route → Type 0
IsInternal r = (rest : List Segment) × (r.pattern ≡ fixed "internal" ∷ rest)

record Guarded (r : Route) : Type 0 where
  reads : (r.method ≡ get) ⊎ (¬ IsInternal r) → Reads r.endpoint

read : {r : Route} → Reads r.endpoint → Guarded r
read h = record { reads = λ _. h }

written : {r : Route} → r.method ≡ post → IsInternal r → Guarded r
written e i = record { reads = λ h. elim h [ inl h ↦ absurd (cc) | inr h ↦ absurd (h i) ] }

routes-Guarded : All Guarded routes
unfolding routes internal_routes group
routes-Guarded = (
  read tt,
  (
    read tt,
    (
      read tt,
      (
        read tt,
        (
          read tt,
          (
            read tt,
            (
              read tt,
              (
                read tt,
                (
                  read tt,
                  (
                    read tt,
                    (
                      written refl (_, refl),
                      (written refl (_, refl), (written refl (_, refl), tt)),
                    ),
                  ),
                ),
              ),
            ),
          ),
        ),
      ),
    ),
  ),
)

-- A handler that leaves the view alone, whatever it parses.
module _ {W V A T : Type 0} (view : W → V) where
  when_parsed-Keeps :
      (p : Parsed A) (f : A → Handler W T) (w : W)
      → ((a : A) → view (f a w).1 ≡ view w)
      → view (when_parsed p f w).1 ≡ view w
  when_parsed-Keeps (parsed a) f w h = h a
  when_parsed-Keeps (refused message) f w h = refl

module _ {W V T : Type 0} (view : W → V) where
  when_given-Keeps :
      (p : Parsed ℤ) (f : ℤ → W → WalletReply T × W) (w : W)
      → ((a : ℤ) → view (f a w).1 ≡ view w)
      → view (when_given p f w).1 ≡ view w
  when_given-Keeps (parsed a) f w h = h a
  when_given-Keeps (refused message) f w h = refl

  unless-Keeps :
      (b : Bool) (h k : W → T × W) (w : W)
      → view (h w).1 ≡ view w
      → view (k w).1 ≡ view w
      → view ((if b then h else k) w).1 ≡ view w
  unless-Keeps true h k w e f = e
  unless-Keeps false h k w e f = f

module _ {W : Type 0} (u : Unicode) (g : Geth) (db : Database W) (client : EthClient W)
    (cfg : Config) (ctx_done : W → Bool) (d : DatabaseContract db)
    (node : NodeContract client db d) where
  list_for-Keeps :
      (address : Text) (page page_size : Option ℤ) (w : W)
      → rows_of d (list_for (address_controller u g db client cfg) address page page_size w).1
        ≡ rows_of d w
  list_for-Keeps address none page_size w = refl
  list_for-Keeps address (some page) none w = refl
  list_for-Keeps address (some page) (some page_size) w =
      (get_indexed_transactions_by_address-Keeps u g db client cfg d node address page page_size).at
        w

  list_limited-Keeps :
      (chain from limit : ℤ) (w : W)
      → rows_of d (list_limited (wallet_controller u g db client cfg) chain from limit w).1
        ≡ rows_of d w
  list_limited-Keeps chain from limit w =
      elim (Bool-cases (ltb_ℤ max_wallet_completed_blocks_limit limit)) [
        | inl large ↦ rw large refl
        | inr small ↦
            rw small ((list_completed_blocks-Keeps u g db client cfg d node chain from limit).at w)
      ]

  pub Serves-Keeps :
      (range : ℕ → ℕ → W → RangeReturn × W) (c : Request) (w : W) (e : Endpoint) (w' : W)
      → Serves u g db client cfg ctx_done range c w e w'
      → Reads e
      → rows_of d w' ≡ rows_of d w
  unfolding get_tx_detail get_block address_info get_indexed_transaction address_transactions
      wallet_completed_blocks wallet_sync_status get_sync_status_of_indexer parse_block_number
  Serves-Keeps range c w _ _ Serves.health h = refl
  Serves-Keeps range c w _ _ Serves.db_stats h = refl
  Serves-Keeps range c w _ _ Serves.tx_detail h =
      unless-Keeps (rows_of d) (is_empty (c.param "hash")) _ _ w refl
        ((get_tx_detail_by_hash_from_rpc-Keeps u g db client cfg d node _).at w)
  Serves-Keeps range c w _ _ Serves.block h =
      when_parsed-Keeps (rows_of d) (parse_block_number c) _ w
        (λ n. (get_block_by_number-Keeps u g db client cfg d node n).at w)
  Serves-Keeps range c w _ _ Serves.address h =
      unless-Keeps (rows_of d) (is_empty (c.param "address")) _ _ w refl
        ((get_address-Keeps u g db client cfg d node _).at w)
  Serves-Keeps range c w _ _ Serves.indexed_tx h =
      unless-Keeps (rows_of d) (is_empty (c.param "hash")) _ _ w refl
        ((get_indexed_transaction_by_hash-Keeps u g db client cfg d node _).at w)
  Serves-Keeps range c w _ _ Serves.indexed_transactions h =
      unless-Keeps (rows_of d) (is_empty (c.param "address")) _ _ w refl (list_for-Keeps _ _ _ w)
  Serves-Keeps range c w _ _ Serves.completed_blocks h =
      when_given-Keeps (rows_of d) (parse_required_positive_int64_query c "chain_id") _ w (λ chain.
        when_given-Keeps (rows_of d) (parse_required_int64_query c "from_block") _ w (λ from.
          when_given-Keeps (rows_of d) (parse_required_int_query c "limit") _ w
            (λ limit. list_limited-Keeps chain from limit w)))
  Serves-Keeps range c w _ _ Serves.wallet_status h =
      when_given-Keeps (rows_of d) (parse_required_positive_int64_query c "chain_id") _ w
        (λ chain. (get_sync_status-Keeps u g db client cfg d node chain).at w)
  Serves-Keeps range c w _ _ Serves.indexer_status h =
      (get_next_block_to_sync-Keeps u g db client cfg d node).at w
  Serves-Keeps range c w _ _ Serves.run_indexer h = absurd h
  Serves-Keeps range c w _ _ Serves.sync_one h = absurd h
  Serves-Keeps range c w _ _ (Serves.sync_range returns) h = absurd h

-- A request to a route of the router leaves the rows of both tables as they are, if the route's method
-- is GET, or if the route lies outside the group `/internal`.
pub routes-keep :
    {W : Type 0} (u : Unicode) (g : Geth) (db : Database W) (client : EthClient W) (cfg : Config)
    (ctx_done : W → Bool) (d : DatabaseContract db) (node : NodeContract client db d)
    (range : ℕ → ℕ → W → RangeReturn × W) (c : Request) (r : Route) (w w' : W)
    → Among r routes
    → (r.method ≡ get) ⊎ (¬ IsInternal r)
    → Serves u g db client cfg ctx_done range c w r.endpoint w'
    → (d.blocks w' ≡ d.blocks w) × (d.transactions w' ≡ d.transactions w)
routes-keep u g db client cfg ctx_done d node range c r w w' i h s =
    let kept =
      Serves-Keeps u g db client cfg ctx_done d node range c w r.endpoint w' s
        ((All-Among Guarded routes r routes-Guarded i).reads h) in
    (ap (λ rows. rows.0) kept, ap (λ rows. rows.1) kept)
