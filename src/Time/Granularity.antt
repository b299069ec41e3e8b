-- ===== src/Time/Granularity.antt =====
-- utils/time.rs: the arithmetic of blocks of minutes.
use parseable.Prelude.{ℕ, ◌+◌, ◌*◌, ◌/◌, ◌%◌, ◌≤◌, ◌<◌, ◌≡◌, arith}

module _ (g : ℕ) (g_pos : 0 < g) where
  pub block-mul-div : (b : ℕ) → b * g / g ≡ b
  block-mul-div b = grind arith

  pub block-le : (m : ℕ) → m / g * g ≤ m
  block-le m = grind arith

  pub lt-block_end : (m : ℕ) → m < (m / g + 1) * g
  lt-block_end m = grind arith

  pub div_mono : (m n : ℕ) → m ≤ n → m / g ≤ n / g
  div_mono m n h = grind arith

  pub div-le_self : (m : ℕ) → m / g ≤ m
  div-le_self m = grind arith

  pub div-lt_of_lt-mul : (m b : ℕ) → m < b * g → m / g < b
  div-lt_of_lt-mul m b h = grind arith

  pub blocks_of_hour : 60 % g ≡ 0 → 60 / g * g ≡ 60
  blocks_of_hour h = grind arith
