-- ===== src/Examples/Startup.antt =====
-- The start of the program on a machine where all is well, and on one whose node is of another chain.
use block_explorer_backend.Prelude.{◌≡◌, refl, List, [], ◌∷◌}
use block_explorer_backend.Prelude.Int.{ℤ, pos, eqb_ℤ}
use block_explorer_backend.Text.{text_eq}
use block_explorer_backend.Effect.{ok, pure}
use block_explorer_backend.Config.{load, check_config, with_defaults}
use block_explorer_backend.Db.{new_db}
use block_explorer_backend.App.Startup.{Platform, serving, start_up, run}
use block_explorer_backend.App.Startup.Verified.{
  Event, pinged, migrated, named, served, count_served, Records, Outcome, run-IsVerified,
}
use block_explorer_backend.Examples.Common.{given}

-- The world is the record of the events.
abbrev machine : ℤ → Platform (List Event)
machine chain = record {
  read_file = λ path. pure [];
  unmarshal = λ bytes. ok given;
  driver = record {
    open_db = λ dsn. pure tt;
    sql_db = pure tt;
    set_pool = λ opened idle lifetime es. es;
    ping = λ es. (ok tt, pinged ∷ es);
  };
  auto_migrate = λ es. (ok tt, migrated ∷ es);
  dial = λ url. pure tt;
  chain_id = λ seconds es. (ok chain, named chain ∷ es);
  int64_of = λ n. n;
  serve = λ s es. served s ∷ es;
  shutdown = λ seconds. pure tt;
}

machine-Records : (chain : ℤ) → Records (machine chain) (λ es. es)
machine-Records chain = record {
  read_keeps = λ path. record { at = λ es. refl };
  open_keeps = λ dsn. record { at = λ es. refl };
  sql_keeps = record { at = λ es. refl };
  pool_keeps = λ opened idle lifetime. record { at = λ es. refl };
  dial_keeps = λ url. record { at = λ es. refl };
  shutdown_keeps = λ seconds. record { at = λ es. refl };
  ping_adds = λ es. refl;
  migrate_adds = λ es. refl;
  chain_adds = λ seconds es. refl;
  serve_adds = λ s es. refl;
}

run-IsVerified_example : let (r, es) = run (machine (pos 1)) [] in Outcome (machine (pos 1)) [] r es
run-IsVerified_example = run-IsVerified (machine (pos 1)) (λ es. es) [] (machine-Records (pos 1))

-- One run of the server, and none.
serves :
    run (machine (pos 1)) []
    ≡ (ok tt, served (serving (with_defaults given)) ∷ named (pos 1) ∷ migrated ∷ pinged ∷ [])
unfolding run start_up load check_config text_eq new_db eqb_ℤ
serves = refl

refuses : count_served (run (machine (pos 5)) []).1 ≡ 0
unfolding run start_up load check_config text_eq new_db eqb_ℤ
refuses = refl
