-- ===== src/Config/Checks.antt =====
-- Which configurations `Load` accepts, and what it returns for them.
use block_explorer_backend.Prelude.{
  ◌≡◌, ◌≢◌, ◌↔◌, refl, ◌⊎◌, inl, inr, true, false, [], ◌∷◌, arith, is_empty,
}
use block_explorer_backend.Prelude.Int.{ℤ, pos, leb_ℤ, ltb_ℤ}
use block_explorer_backend.Text.{Text, codes, text_eq_iff}
use block_explorer_backend.Effect.{ok}
use block_explorer_backend.Config.{
  Config, text_or, positive_or, with_defaults, unknown_target, check_config,
}

abbrev pub IsPositive : ℤ → Type 0
IsPositive n = ltb_ℤ (pos 0) n ≡ true

abbrev pub IsTarget : Text → Type 0
IsTarget t = (t ≡ codes "latest") ⊎ (t ≡ codes "safe") ⊎ (t ≡ codes "finalized")

-- What the program can rely on.
pub record IsUsable (c : Config) : Type 0 where
  pub has_port : c.server.port ≢ []
  pub chain_positive : IsPositive c.rpc.chain_id
  pub has_url : c.rpc.rpc_url ≢ []
  pub timeout_positive : IsPositive c.rpc.timeout_seconds
  pub has_dsn : c.db.dsn ≢ []
  pub interval_positive : IsPositive c.indexer.interval_seconds
  pub run_timeout_positive : IsPositive c.indexer.run_timeout_seconds
  pub known_target : IsTarget c.indexer.sync_target

text_or-ne-nil : (d s : Text) → d ≢ [] → text_or d s ≢ []
text_or-ne-nil d [] h = h
text_or-ne-nil d (c ∷ s) h = λ e. cc

is_empty-ne-nil : (s : Text) → is_empty s ≡ false → s ≢ []
is_empty-ne-nil [] h = λ e. cc
is_empty-ne-nil (c ∷ s) h = λ e. cc

positive_or-IsPositive : (d n : ℤ) → IsPositive d → IsPositive (positive_or d n)
positive_or-IsPositive d n h = ground arith

unknown_target_iff : (t : Text) → (unknown_target t ≡ false) ↔ IsTarget t
unknown_target_iff t = ground (
  arith,
  text_eq_iff t (codes "latest"),
  text_eq_iff t (codes "safe"),
  text_eq_iff t (codes "finalized"),
)

is_empty_iff : (s : Text) → (is_empty s ≡ false) ↔ (s ≢ [])
is_empty_iff [] = (λ h. absurd cc, λ h. absurd (h refl))
is_empty_iff (c ∷ s) = (λ h e. cc, λ h. refl)

unknown_target-text_or :
    (t : Text) → (unknown_target (text_or (codes "safe") t) ≡ false) ↔ ((t ≡ []) ⊎ IsTarget t)
unknown_target-text_or [] =
    (λ h. inl refl, λ h. (unknown_target_iff (codes "safe")).1 (inr (inl refl)))
unknown_target-text_or (c ∷ s) = ground (arith, unknown_target_iff (c ∷ s))

-- What a configuration file has to give.
pub record IsGiven (c : Config) : Type 0 where
  pub chain_positive : IsPositive c.rpc.chain_id
  pub has_url : c.rpc.rpc_url ≢ []
  pub has_dsn : c.db.dsn ≢ []
  pub known_target : (c.indexer.sync_target ≡ []) ⊎ IsTarget c.indexer.sync_target

leb_ℤ-zero_iff : (n : ℤ) → (leb_ℤ n (pos 0) ≡ false) ↔ IsPositive n
leb_ℤ-zero_iff n = ground arith

-- The checks return a configuration exactly if the file gives a positive chain id, an RPC address, a
-- database and no unknown target, and then it is the given one with the defaults filled in.
pub check_config_iff :
    (c c' : Config) → (check_config c ≡ ok c') ↔ (IsGiven c × (c' ≡ with_defaults c))
unfolding check_config
check_config_iff c c' =
    let url = is_empty_iff c.rpc.rpc_url in
    let dsn = is_empty_iff c.db.dsn in
    let target = unknown_target-text_or c.indexer.sync_target in
    let chain = leb_ℤ-zero_iff c.rpc.chain_id in
    (
      λ h. (
        record {
          chain_positive = chain.0 (ground arith);
          has_url = url.0 (ground arith);
          has_dsn = dsn.0 (ground arith);
          known_target = target.0 (ground arith);
        },
        ground arith,
      ),
      λ (given, e).
          rw
            (
              chain.1 given.chain_positive,
              url.1 given.has_url,
              dsn.1 given.has_dsn,
              target.1 given.known_target,
              e,
            )
            refl,
    )

with_defaults-IsUsable : (c : Config) → IsGiven c → IsUsable (with_defaults c)
with_defaults-IsUsable c given = record {
  has_port = text_or-ne-nil (codes "8080") c.server.port (λ e. cc);
  chain_positive = given.chain_positive;
  has_url = given.has_url;
  timeout_positive = positive_or-IsPositive (pos 10) c.rpc.timeout_seconds refl;
  has_dsn = given.has_dsn;
  interval_positive = positive_or-IsPositive (pos 2) c.indexer.interval_seconds refl;
  run_timeout_positive = positive_or-IsPositive (pos 3) c.indexer.run_timeout_seconds refl;
  known_target =
      (unknown_target_iff (text_or (codes "safe") c.indexer.sync_target)).0
        ((unknown_target-text_or c.indexer.sync_target).1 given.known_target);
}

-- A configuration that passes the checks has a port, an RPC address, a database, a positive chain id,
-- positive periods and one of the three targets.
pub check_config-IsUsable : (c c' : Config) → check_config c ≡ ok c' → IsUsable c'
check_config-IsUsable c c' h =
    let (given, e) = (check_config_iff c c').0 h in rw e (with_defaults-IsUsable c given)
