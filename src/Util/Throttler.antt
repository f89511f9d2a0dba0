-- ===== src/Util/Throttler.antt =====
-- The throttler of src/util.c, between the locking and the unlocking of each call.
use sizigy.Base.{ℕ}

-- `start` is what `clock` counted.
pub record Throttler : Type 0 where
  pub us : ℕ
  pub start : ℕ

unfoldable pub init_throttler : Throttler
init_throttler = record { us = 0; start = 0 }

unfoldable pub throttler_set_us : ℕ → ℕ → Throttler → Throttler
throttler_set_us clock us t = record { us = us; start = clock }

unfoldable pub throttler_get_us : Throttler → ℕ
throttler_get_us t = t.us

unfoldable pub throttler_get_start : Throttler → ℕ
throttler_get_start t = t.start
