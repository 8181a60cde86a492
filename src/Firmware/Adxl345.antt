-- ===== src/Firmware/Adxl345.antt =====
-- The ADXL345 driver of firmware/adxl345.c, over any bus.
pub mod Decode
pub mod Errors
pub mod Selftest
pub mod Chip
pub mod OnSim
pub mod OnStellaris
mod Tests
use sharak.Prelude.{
  ℕ, zero, suc, ◌+◌, ◌*◌, ◌/◌, List, [], ◌∷◌, ℤ, pos, negsuc, Ptr, Run, none, some, ◌>>=◌, load,
  ◌==◌, if◌then◌else◌, ◌&&◌, Bool, true, false, u16, ◌<<<◌, bit_or, u_to_i16,
}
use sharak.Firmware.Bus.{Bus, Write, WriteRead, is_ok}

abbrev pub i2c_addr : ℕ
i2c_addr = 0x53

abbrev pub reg_devid : ℕ
reg_devid = 0x00

abbrev pub reg_bw_rate : ℕ
reg_bw_rate = 0x2c

abbrev pub reg_power_ctl : ℕ
reg_power_ctl = 0x2d

abbrev pub reg_data_format : ℕ
reg_data_format = 0x31

abbrev pub reg_datax0 : ℕ
reg_datax0 = 0x32

abbrev pub devid_value : ℕ
devid_value = 0xe5

abbrev pub power_ctl_measure : ℕ
power_ctl_measure = 0x08

abbrev pub rate_100hz : ℕ
rate_100hz = 0x0a

abbrev data_format_full_res : ℕ
data_format_full_res = 0x08

abbrev range_16g : ℕ
range_16g = 0x03

abbrev pub data_format_config : ℕ
data_format_config = bit_or data_format_full_res range_16g

abbrev pub mg_num : ℕ
mg_num = 125

abbrev pub mg_den : ℕ
mg_den = 32

-- `adxl345_status_t`
abbrev pub adxl345_ok : ℤ
adxl345_ok = pos 0

abbrev pub e_param : ℤ
e_param = negsuc 0

abbrev pub e_bus : ℤ
e_bus = negsuc 1

abbrev pub e_wrong_devid : ℤ
e_wrong_devid = negsuc 2

-- `adxl345_accel_t`
pub record Accel : Type 0 where
  pub x_mg : ℤ
  pub y_mg : ℤ
  pub z_mg : ℤ

-- -n
abbrev pub neg : ℕ → ℤ
neg zero = pos 0
neg (suc n) = negsuc n

-- `v * ADXL345_MG_NUM / ADXL345_MG_DEN`: C's division cuts towards zero.
unfoldable pub to_mg : ℤ → ℤ
to_mg (pos n) = pos (n * mg_num / mg_den)
to_mg (negsuc n) = neg (suc n * mg_num / mg_den)

-- One axis: two bytes, low byte first, read as a signed 16-bit count.
pub axis : List ℕ → ℕ → Run ℤ
unfolding to_mg
axis raw i = do
  lo ← load raw i
  hi ← load raw (i + 1)
  some (to_mg (u_to_i16 (u16 (bit_or lo (hi <<< 8)))))

unfoldable pub adxl345_decode : List ℕ → Run Accel
unfolding axis
adxl345_decode raw = do
  x ← axis raw 0
  y ← axis raw 2
  z ← axis raw 4
  some (record { x_mg = x; y_mg = y; z_mg = z })

-- Whether a pointer to a method is there.
pub is_set {ℓ} : {A : Type ℓ} → Ptr A → Bool
is_set none = false
is_set (some x) = true

module _ {S : Type 0} where
  pub bus_ok : Ptr (Bus S) → Bool
  unfolding is_set
  bus_ok none = false
  bus_ok (some bus) = is_set bus.write && is_set bus.write_read

  -- A call through a NULL method is a fault.
  pub reg_write : Ptr (Bus S) → ℕ → ℕ → S → Run (ℤ × S)
  reg_write bus reg val s = do
    b ← bus
    write ← b.write
    (rc, s') ← write s i2c_addr (some (reg ∷ val ∷ [])) 2
    some ((if is_ok rc then adxl345_ok else e_bus), s')

  -- The register's value is what is then in the one-byte buffer.
  pub reg_read : Ptr (Bus S) → ℕ → ℕ → S → Run (ℤ × ℕ × S)
  reg_read bus reg val s = do
    b ← bus
    write_read ← b.write_read
    (rc, rdata, s') ← write_read s i2c_addr (some (reg ∷ [])) 1 (some (val ∷ [])) 1
    buf ← rdata
    v ← load buf 0
    some ((if is_ok rc then adxl345_ok else e_bus), v, s')

  -- The three configuration writes, in order, up to the first that fails.
  pub configure : Ptr (Bus S) → S → Run (ℤ × S)
  unfolding reg_write
  configure bus s = do
    (rc1, s1) ← reg_write bus reg_data_format data_format_config s
    if is_ok rc1
        then (do
          (rc2, s2) ← reg_write bus reg_bw_rate rate_100hz s1
          if is_ok rc2 then reg_write bus reg_power_ctl power_ctl_measure s2 else some (rc2, s2))
        else some (rc1, s1)

  unfoldable pub adxl345_init : Ptr (Bus S) → S → Run (ℤ × S)
  unfolding bus_ok reg_read configure
  adxl345_init bus s =
      if bus_ok bus
      then (do
        (rc, devid, s1) ← reg_read bus reg_devid 0 s
        if is_ok rc
            then (if devid == devid_value then configure bus s1 else some (e_wrong_devid, s1))
            else some (rc, s1))
      else some (e_param, s)

  -- `raw` holds whatever the stack holds before the burst; `out` may be NULL.
  unfoldable pub adxl345_read : Ptr (Bus S) → List ℕ → Ptr Accel → S → Run (ℤ × Ptr Accel × S)
  unfolding bus_ok adxl345_decode
  adxl345_read bus raw none s = some (e_param, none, s)
  adxl345_read bus raw (some out) s =
      if bus_ok bus
      then (do
        b ← bus
        write_read ← b.write_read
        (rc, rdata, s') ← write_read s i2c_addr (some (reg_datax0 ∷ [])) 1 (some raw) 6
        if is_ok rc
            then (do buf ← rdata; a ← adxl345_decode buf; some (adxl345_ok, some a, s'))
            else some (e_bus, some out, s'))
      else some (e_param, some out, s)

  unfoldable pub adxl345_selftest : Ptr (Bus S) → S → Run (ℤ × S)
  unfolding bus_ok reg_read
  adxl345_selftest bus s =
      if bus_ok bus
      then (do
        (rc, devid, s1) ← reg_read bus reg_devid 0 s
        if is_ok rc
            then some ((if devid == devid_value then adxl345_ok else e_wrong_devid), s1)
            else some (rc, s1))
      else some (e_param, s)
