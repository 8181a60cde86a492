-- ===== src/Firmware/Device.antt =====
-- Memory-mapped registers: the hardware behind `volatile` accesses of 32 bits, which is not code
-- of the repository and so a parameter. A read may change it.
use sharak.Prelude.{ℕ}

pub record Device (D : Type 0) : Type 0 where
  pub read32 : D → ℕ → ℕ × D
  pub write32 : D → ℕ → ℕ → D
