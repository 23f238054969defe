-- ===== src/Controllers/Debug.antt =====
-- internal/controller/debug_controller.go. The statistics of the connections are a parameter.
use block_explorer_backend.Prelude.{ℕ}
use block_explorer_backend.Db.{SqlStats, DbStats, get_stats}

-- The status and the body.
unfoldable pub db_stats : {W : Type 0} → (W → SqlStats) → W → (ℕ × DbStats) × W
unfolding get_stats
db_stats stats w = ((200, get_stats stats w), w)
