-- ===== src/App/Startup/Verified.antt =====
-- What has been done when `Run` begins to serve, and that it serves in no other case.
use block_explorer_backend.Prelude.{ℕ, zero, suc, ◌≡◌, refl, ◌∙◌, ap, ◌⊎◌, inl, inr, List, [], ◌∷◌}
use block_explorer_backend.Prelude.Int.{ℤ, pos, eqb_ℤ, eqb_ℤ_iff}
use block_explorer_backend.Text.{Text, codes}
use block_explorer_backend.Errors.{GoError, wrapf}
use block_explorer_backend.Effect.{Result, ok, err, Io, ◌>>◌, context, lift, continue}
use block_explorer_backend.Effect.Ensures.{
  Ends, Ensures, Ensures-pure, Ensures-lift, Ensures-if, Ensures-map_err, Ensures-bind,
  Ensures-given,
}
use block_explorer_backend.Effect.Keeps.{Keeps}
use block_explorer_backend.Config.{Config, load, check_config}
use block_explorer_backend.Config.Checks.{IsUsable, check_config-IsUsable}
use block_explorer_backend.Db.{act, new_db}
use block_explorer_backend.App.Startup.{
  Platform, Serving, serving, check_chain, new_eth_client, start_up, run,
}

-- What the machine has seen: a ping that was answered, the tables made, the chain id that the node has
-- named, and the server run.
pub data Event : Type 0 where
  pinged : Event
  migrated : Event
  named : ℤ → Event
  served : Serving → Event

-- How often the server was run.
abbrev pub count_served : List Event → ℕ
count_served [] = zero
count_served (pinged ∷ es) = count_served es
count_served (migrated ∷ es) = count_served es
count_served (named n ∷ es) = count_served es
count_served (served s ∷ es) = suc (count_served es)

-- A call that adds an event if it succeeds, and none if it fails.
abbrev pub Adds : {A : Type 0} → (A → Event) → Result A → List Event → List Event → Type 0
Adds event (ok a) es es' = es' ≡ event a ∷ es
Adds event (err e) es es' = es' ≡ es

-- The machine keeps a record of those four calls, the latest event first.
pub record Records {W : Type 0} (p : Platform W) (events : W → List Event) : Type 0 where
  pub read_keeps : (path : Text) → Keeps events (p.read_file path)
  pub open_keeps : (dsn : Text) → Keeps events (p.driver.open_db dsn)
  pub sql_keeps : Keeps events p.driver.sql_db
  pub pool_keeps :
      (opened idle lifetime : ℕ) → Keeps events (act (p.driver.set_pool opened idle lifetime))
  pub dial_keeps : (url : Text) → Keeps events (p.dial url)
  pub shutdown_keeps : (seconds : ℤ) → Keeps events (p.shutdown seconds)
  pub ping_adds :
      (w : W) → Adds (λ _. pinged) (p.driver.ping w).0 (events w) (events (p.driver.ping w).1)
  pub migrate_adds :
      (w : W) → Adds (λ _. migrated) (p.auto_migrate w).0 (events w) (events (p.auto_migrate w).1)
  pub chain_adds :
      (seconds : ℤ) (w : W)
      → Adds named (p.chain_id seconds w).0 (events w) (events (p.chain_id seconds w).1)
  pub serve_adds : (s : Serving) (w : W) → events (p.serve s w) ≡ served s ∷ events w

module _ {W : Type 0} (p : Platform W) (es : List Event) where
  -- What the server is run with, and what has been seen by then.
  pub record IsVerified (s : Serving) (now : List Event) : Type 0 where
    pub usable : IsUsable s.config
    pub actual : ℤ
    pub same_chain : p.int64_of actual ≡ s.config.rpc.chain_id
    pub history : now ≡ named actual ∷ migrated ∷ pinged ∷ es

  -- The run has failed and has not run the server, or it has run it once, after all the checks.
  abbrev pub Outcome : Result (Unit {0}) → List Event → Type 0
  Outcome r now =
      (((e : GoError) × (r ≡ err e)) × (count_served now ≡ count_served es))
      ⊎ ((s : Serving) × (before : List Event) × IsVerified s before × (now ≡ served s ∷ before))

module _ {W : Type 0} (p : Platform W) (events : W → List Event) (records : Records p events)
    (es : List Event) where
  -- The server has not been run since.
  abbrev Unserved : W → Type 0
  Unserved w = count_served (events w) ≡ count_served es

  abbrev At : List Event → W → Type 0
  At now w = events w ≡ now

  kept-Ends :
      {A : Type 0} (now : List Event) (r : Result A) (w : W)
      → count_served now ≡ count_served es
      → At now w
      → Ends (λ a. At now) Unserved r w
  kept-Ends now (ok a) w none h = h
  kept-Ends now (err e) w none h = ap count_served h ∙ none

  -- A call that adds no event.
  kept-Ensures :
      {A : Type 0} (now : List Event) (m : Io W A)
      → count_served now ≡ count_served es
      → Keeps events m
      → Ensures (At now) m (λ a. At now) Unserved
  kept-Ensures now m none keeps = record {
    at = λ w h. kept-Ends now (m w).0 (m w).1 none (keeps.at w ∙ h);
  }

  added-Ends :
      {A : Type 0} (event : A → Event) (now : List Event) (r : Result A) (w : W)
      (before : List Event)
      → count_served now ≡ count_served es
      → before ≡ now
      → Adds event r before (events w)
      → Ends (λ a. At (event a ∷ now)) Unserved r w
  added-Ends event now (ok a) w before none same h = h ∙ ap (λ es. event a ∷ es) same
  added-Ends event now (err e) w before none same h = ap count_served (h ∙ same) ∙ none

  added-Ensures :
      {A : Type 0} (event : A → Event) (now : List Event) (m : Io W A)
      → count_served now ≡ count_served es
      → ((w : W) → Adds event (m w).0 (events w) (events (m w).1))
      → Ensures (At now) m (λ a. At (event a ∷ now)) Unserved
  added-Ensures event now m none adds = record {
    at = λ w h. added-Ends event now (m w).0 (m w).1 (events w) none h (adds w);
  }

  load-Ensures :
      Ensures
        (At es)
        (load p.read_file p.unmarshal (codes "configs/config.yaml"))
        (λ c w. At es w × IsUsable c)
        Unserved
  unfolding load
  load-Ensures =
      Ensures-bind
        (Ensures-map_err _
          (kept-Ensures es (p.read_file (codes "configs/config.yaml")) refl (records.read_keeps _)))
        (λ bytes.
          Ensures-bind
            (Ensures-map_err _
              (kept-Ensures es (lift (p.unmarshal bytes)) refl (record { at = λ w. refl })))
            (λ c.
              Ensures-lift (check_config c) (λ c' e w h. (h, check_config-IsUsable c c' e))
                (λ w h. ap count_served h)))

  new_db-Ensures :
      (cfg : Config) → Ensures (At es) (new_db p.driver cfg) (λ _. At (pinged ∷ es)) Unserved
  unfolding new_db
  new_db-Ensures cfg =
      Ensures-bind (Ensures-map_err _ (kept-Ensures es _ refl (records.open_keeps cfg.db.dsn)))
        (λ _. Ensures-bind (Ensures-map_err _ (kept-Ensures es _ refl records.sql_keeps)) (λ _.
          Ensures-bind (kept-Ensures es _ refl (records.pool_keeps 20 10 3600)) (λ _.
            Ensures-map_err (wrapf "ping database failed: ")
              (added-Ensures (λ _. pinged) es p.driver.ping refl records.ping_adds))))

  check_chain-Ensures :
      (cfg : Config) (actual : ℤ) (now : List Event)
      → count_served now ≡ count_served es
      → Ensures
          (At now)
          (check_chain p cfg actual)
          (λ _ w. At now w × (p.int64_of actual ≡ cfg.rpc.chain_id))
          Unserved
  check_chain-Ensures cfg actual now none =
      Ensures-if (eqb_ℤ (p.int64_of actual) cfg.rpc.chain_id)
        (λ same.
          Ensures-pure tt (λ w h. (h, (eqb_ℤ_iff (p.int64_of actual) cfg.rpc.chain_id).0 same)))
        (λ other. record { at = λ w h. ap count_served h ∙ none })

  start_up-Ensures : Ensures (At es) (start_up p) (λ s w. IsVerified p es s (events w)) Unserved
  unfolding start_up new_eth_client
  start_up-Ensures = Ensures-bind (Ensures-map_err _ load-Ensures) (λ cfg. Ensures-given (λ usable.
      Ensures-bind (new_db-Ensures cfg) (λ _.
        Ensures-bind
          (Ensures-map_err _
            (added-Ensures (λ _. migrated) (pinged ∷ es) p.auto_migrate refl records.migrate_adds))
          (λ _.
            Ensures-bind
              (Ensures-map_err _ (kept-Ensures (migrated ∷ pinged ∷ es) _ refl records.sql_keeps))
              (λ _.
                Ensures-bind
                  (Ensures-map_err _ (
                    Ensures-map_err _ (
                      kept-Ensures (migrated ∷ pinged ∷ es) _ refl
                        (records.dial_keeps cfg.rpc.rpc_url))))
                  (λ _.
                    Ensures-bind
                      (Ensures-map_err _ (
                        added-Ensures named (migrated ∷ pinged ∷ es)
                          (p.chain_id cfg.rpc.timeout_seconds) refl
                          (records.chain_adds cfg.rpc.timeout_seconds)))
                      (λ actual.
                        Ensures-bind
                          (check_chain-Ensures cfg actual (named actual ∷ migrated ∷ pinged ∷ es)
                            refl)
                          (λ _. Ensures-given (λ same. Ensures-pure (serving cfg) (λ w h. record {
                            usable = usable;
                            actual = actual;
                            same_chain = same;
                            history = h;
                          }))))))))))

  -- What follows the start.
  abbrev served_run : Serving → Io W (Unit {0})
  served_run s = act (p.serve s) >> context "shutdown http server: " (p.shutdown (pos 5))

  run-Outcome :
      (r : Result Serving) (w : W)
      → Ends (λ s w. IsVerified p es s (events w)) Unserved r w
      → Outcome p es (continue r served_run w).0 (events (continue r served_run w).1)
  run-Outcome (ok s) w verified = inr (
    s,
    events w,
    verified,
    (records.shutdown_keeps (pos 5)).at (p.serve s w) ∙ records.serve_adds s w,
  )
  run-Outcome (err e) w none = inl ((e, refl), none)

-- On a machine that keeps a record of the answered pings, of the tables made, of the chain ids named by
-- the node and of the runs of the server: `Run` fails and has not run the server, or it has run it once,
-- with a usable configuration, and then what the machine has seen before that since the call is, in this
-- order, an answered ping, the tables made, and the node naming the configured chain.
pub run-IsVerified :
    {W : Type 0} (p : Platform W) (events : W → List Event) (w : W)
    → Records p events
    → let (r, w') = run p w in Outcome p (events w) r (events w')
unfolding run
run-IsVerified p events w records =
    run-Outcome p events records (events w) (start_up p w).0 (start_up p w).1
      ((start_up-Ensures p events records (events w)).at w refl)
