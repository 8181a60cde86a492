-- ===== src/Firmware/Bus.antt =====
-- `i2c_bus_t` and `i2c_status_t` of firmware/i2c.h: the seam between the driver and its backends.
use sharak.Prelude.{ℕ, zero, List, ℤ, pos, negsuc, Ptr, Run, Bool, true, false}

abbrev pub i2c_ok : ℤ
i2c_ok = pos 0

abbrev pub i2c_err_nack : ℤ
i2c_err_nack = negsuc 0

abbrev pub i2c_err_bus : ℤ
i2c_err_bus = negsuc 1

abbrev pub i2c_err_param : ℤ
i2c_err_param = negsuc 2

-- `rc == 0`
abbrev pub is_ok : ℤ → Bool
is_ok (pos zero) = true
is_ok _ = false

-- The methods take what `ctx` points to and give it back changed; a read also gives back the
-- buffer that it filled.
abbrev pub Write : Type 0 → Type 0
Write S = S → ℕ → Ptr (List ℕ) → ℕ → Run (ℤ × S)

abbrev pub WriteRead : Type 0 → Type 0
WriteRead S = S → ℕ → Ptr (List ℕ) → ℕ → Ptr (List ℕ) → ℕ → Run (ℤ × Ptr (List ℕ) × S)

-- Either function pointer may be NULL.
pub record Bus (S : Type 0) : Type 0 where
  pub write : Ptr (Write S)
  pub write_read : Ptr (WriteRead S)
