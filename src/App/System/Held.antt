-- ===== src/App/System/Held.antt =====
-- Every step of the program keeps what a synchronisation keeps of the stored blocks.
use block_explorer_backend.Prelude.{
  ℕ, ◌≡◌, refl, sym, inl, inr, Bool, not, Bool-cases, Option, none, some, ◌||◌, String, is_empty,
}
use mathlib.Core.Path.{subst}
use block_explorer_backend.Text.{Unicode}
use block_explorer_backend.Text.Numbers.{parse_uint}
use block_explorer_backend.Effect.Ensures.{
  Ends-both, Ensures, Ensures-pure, Ensures-if, Ensures-map_err, Ensures-bind,
}
use block_explorer_backend.Effect.Keeps.{Keeps-Ensures}
use block_explorer_backend.Ethereum.{Geth}
use block_explorer_backend.Config.{Config}
use block_explorer_backend.Gorm.{Database}
use block_explorer_backend.Gorm.Contract.{DatabaseContract}
use block_explorer_backend.Rpc.{EthClient}
use block_explorer_backend.Controllers.Blocks.{
  parse_block_number, sync_block, sync_block_range, run_once, uint_or, sync_from,
}
use block_explorer_backend.App.Routes.{Reads, Serves-Keeps}
use block_explorer_backend.Controllers.{Request, Handler, Parsed, parsed, refused, when_parsed}
use block_explorer_backend.BlockService.{sync_block_to_db}
use block_explorer_backend.BlockService.Range.{RangeReturn, sync_range, sync_block_range_to_db}
use block_explorer_backend.BlockService.Contract.{BlockTable}
use block_explorer_backend.BlockService.Shared.{Kept}
use block_explorer_backend.BlockService.Chain.Sync.{sync_block_to_db-Ensures, Respects-none}
use block_explorer_backend.App.System.{Step, Reaches}
use block_explorer_backend.App.System.Loops.{sync_range-Returns, Returns-world}
use block_explorer_backend.Indexer.{run_indexer_once}
use block_explorer_backend.Repo.Blocks.Table.{table_of}
use block_explorer_backend.App.Wiring.{block_service, block_controller, block_indexer}
use block_explorer_backend.App.Router.{Endpoint, Serves}
use block_explorer_backend.App.Keeps.{rows_of, NodeContract}
use block_explorer_backend.App.ReadOnly.{get_next_block_to_sync-Keeps}
use block_explorer_backend.App.Contracts.{store_contract}

uint_or-parsed :
    (message : String) (o : Option ℕ) (n : ℕ) → uint_or message o ≡ parsed n → o ≡ some n
uint_or-parsed message (some m) n e = cc
uint_or-parsed message none n e = absurd (cc)

module _ {W : Type 0} (u : Unicode) (g : Geth) (db : Database W) (client : EthClient W)
    (cfg : Config) (ctx_done : W → Bool) (d : DatabaseContract db) (node : NodeContract client db d)
    (J : BlockTable → Type 0)
    (keeps : Kept u (block_service u g db client cfg) (λ w. table_of (d.blocks w)) (λ w. w) J) where
  abbrev Held : W → Type 0
  Held w = J (table_of (d.blocks w))

  sync-Ensures :
      (n : ℕ)
      → Ensures Held (sync_block_to_db u g (block_service u g db client cfg) n) (λ r. Held) Held
  sync-Ensures n =
      sync_block_to_db-Ensures u g (block_service u g db client cfg)
        (store_contract u g db client cfg d node) (λ w. w)
        (Respects-none u (block_service u g db client cfg) (λ w. table_of (d.blocks w))) J keeps n

  sync-Held :
      (n : ℕ) (w : W) → Held w → Held (sync_block_to_db u g (block_service u g db client cfg) n w).1
  sync-Held n w h = Ends-both Held _ _ ((sync-Ensures n).at w h)

  round-Ensures : Ensures Held (run_indexer_once (block_indexer u g db client cfg)) (λ r. Held) Held
  unfolding run_indexer_once
  round-Ensures =
      Ensures-bind
        (Ensures-map_err _ (
          Keeps-Ensures (λ rows. J (table_of rows.0))
            (get_next_block_to_sync-Keeps u g db client cfg d node)))
        (λ status.
          Ensures-if (not status.should_sync) (λ _. Ensures-pure _ (λ w h. h))
            (λ _.
              Ensures-bind (Ensures-map_err _ (sync-Ensures status.next))
                (λ _. Ensures-pure _ (λ w h. h))))

  kept : {w w' : W} → rows_of d w' ≡ rows_of d w → Held w → Held w'
  kept e h = subst (λ rows. J (table_of rows.0)) (sym e) h

  when_parsed-Held :
      {A T : Type 0} (p : Parsed A) (f : A → Handler W T) (w : W)
      → Held w
      → ((a : A) → p ≡ parsed a → Held (f a w).1)
      → Held (when_parsed p f w).1
  when_parsed-Held (parsed a) f w h k = k a refl
  when_parsed-Held (refused message) f w h k = h

  range-Held :
      (fuel start end : ℕ) (w : W) (ret : RangeReturn × W)
      → sync_block_range_to_db u g ctx_done (block_service u g db client cfg) fuel start end w
        ≡ some ret
      → Held w
      → Held ret.1
  unfolding sync_block_range_to_db
  range-Held fuel start end w ret e h =
      let sync = sync_block_to_db u g (block_service u g db client cfg) in
      Returns-world Held ctx_done sync sync-Held (sync_range ctx_done sync fuel start end w) ret e
        (sync_range-Returns Held ctx_done sync sync-Held fuel start end w h)

  request-Held :
      (range : ℕ → ℕ → W → RangeReturn × W) (c : Request) (w : W) (e : Endpoint) (w' : W)
      → Serves u g db client cfg ctx_done range c w e w'
      → (Reads e → rows_of d w' ≡ rows_of d w)
      → Held w
      → Held w'
  unfolding sync_block run_once sync_block_range
  request-Held range c w _ _ Serves.health k h = h
  request-Held range c w _ _ Serves.db_stats k h = h
  request-Held range c w _ _ Serves.tx_detail k h = kept (k tt) h
  request-Held range c w _ _ Serves.block k h = kept (k tt) h
  request-Held range c w _ _ Serves.address k h = kept (k tt) h
  request-Held range c w _ _ Serves.indexed_tx k h = kept (k tt) h
  request-Held range c w _ _ Serves.indexed_transactions k h = kept (k tt) h
  request-Held range c w _ _ Serves.completed_blocks k h = kept (k tt) h
  request-Held range c w _ _ Serves.wallet_status k h = kept (k tt) h
  request-Held range c w _ _ Serves.indexer_status k h = kept (k tt) h
  request-Held range c w _ _ Serves.run_indexer k h = Ends-both Held _ _ (round-Ensures.at w h)
  request-Held range c w _ _ Serves.sync_one k h =
      when_parsed-Held (parse_block_number c) _ w h (λ n e. sync-Held n w h)
  request-Held range c w _ _ (Serves.sync_range returns) k h =
      elim (Bool-cases (is_empty (c.query "start") || is_empty (c.query "end"))) [
        | inl missing ↦ rw missing h
        | inr given ↦ rw given (
            when_parsed-Held (uint_or "invalid start" (parse_uint 10 (c.query "start"))) _ w h
              (λ start p.
                when_parsed-Held (uint_or "invalid end" (parse_uint 10 (c.query "end")))
                  (sync_from (block_controller u g db client cfg range) start) w h
                  (λ end q.
                    let (fuel, run) =
                      returns start end (uint_or-parsed "invalid start" _ start p)
                        (uint_or-parsed "invalid end" _ end q) in
                    range-Held fuel start end w (range start end w) run h)))
      ]

  Step-Held : (w w' : W) → Step u g db client cfg ctx_done d w w' → Held w → Held w'
  Step-Held w w' (Step.request range c r _ i s) h =
      request-Held range c w r.endpoint w' s
        (Serves-Keeps u g db client cfg ctx_done d node range c w r.endpoint w' s) h
  Step-Held w _ Step.round h = Ends-both Held _ _ (round-Ensures.at w h)
  Step-Held w w' (Step.elsewhere _ e) h = kept e h

  pub Reaches-Held : (w w' : W) → Reaches u g db client cfg ctx_done d w w' → Held w → Held w'
  Reaches-Held w _ Reaches.stay h = h
  Reaches-Held w w' (Reaches.after w₁ _ before step) h =
      Step-Held w₁ w' step (Reaches-Held w w₁ before h)
