-- ===== src/Firmware/Adxl345/Chip.antt =====
-- A chip behind a bus, as the driver needs it, and what the driver makes of any such chip.
use sharak.Prelude.{
  ℕ, ◌<◌, ◌≡◌, ◌≢◌, ◌⊎◌, inl, inr, refl, ◌∙◌, arith, [], ◌∷◌, some, IsU8, ◌==◌, ==_iff, Bool-cases,
}
use sharak.Firmware.Bus.{Bus, Write, WriteRead, i2c_ok}
use sharak.Firmware.Adxl345.{
  i2c_addr, reg_devid, devid_value, reg_data_format, data_format_config, reg_bw_rate, rate_100hz,
  reg_power_ctl, power_ctl_measure, adxl345_ok, e_wrong_devid, adxl345_init, adxl345_selftest,
}
use sharak.Firmware.Adxl345.Errors.{adxl345_init_lem, adxl345_selftest_lem}

-- A chip that answers: `Identifies id s` if it has the identification `id` to send; `Reads` and
-- `Sets` are what a read of that register and a write of a register do to the bus and the chip.
pub record Chip {S : Type 0} (write : Write S) (write_read : WriteRead S) : Type 1 where
  pub IsReady : S → Type 0
  pub Identifies : ℕ → S → Type 0
  pub Reads : S → S → Type 0
  pub Sets : ℕ → ℕ → S → S → Type 0
  pub read_id :
      (s : S) (id old : ℕ)
      → IsReady s
      → Identifies id s
      → (s' : S) × (write_read s i2c_addr (some (reg_devid ∷ [])) 1 (some (old ∷ [])) 1
          ≡ some (i2c_ok, some (id ∷ []), s'))
        × Reads s s'
        × IsReady s'
  pub set_register :
      (s : S) (reg val : ℕ)
      → IsReady s
      → reg < 0x39
      → IsU8 val
      → (s' : S) × (write s i2c_addr (some (reg ∷ val ∷ [])) 2 ≡ some (i2c_ok, s'))
        × Sets reg val s s'
        × IsReady s'

module _ {S : Type 0} (write : Write S) (write_read : WriteRead S)
    (chip : Chip write write_read) where
  abbrev pub chip_bus : Bus S
  chip_bus = record { write = some write; write_read = some write_read }

  -- The three writes that configure the chip, from one state to another.
  abbrev pub Configures : S → S → Type 0
  Configures s s' =
      (s1 : S) × (s2 : S) × chip.Sets reg_data_format data_format_config s s1
      × chip.Sets reg_bw_rate rate_100hz s1 s2
      × chip.Sets reg_power_ctl power_ctl_measure s2 s'

  -- With any chip that answers, both start with one read of its identification. If that is 0xE5, the
  -- self test returns ADXL345_OK, and `adxl345_init` goes on to set DATA_FORMAT, BW_RATE and
  -- POWER_CTL, in this order, and returns ADXL345_OK; if not, both return ADXL345_E_WRONG_DEVID, and
  -- nothing is set.
  pub adxl345_on_chip :
      (s : S) (id : ℕ)
      → chip.IsReady s
      → chip.Identifies id s
      → (s1 : S) × chip.Reads s s1
        × (((id ≡ devid_value)
              × (adxl345_selftest (some chip_bus) s ≡ some (adxl345_ok, s1))
              × ((s' : S) × (adxl345_init (some chip_bus) s ≡ some (adxl345_ok, s'))
                  × Configures s1 s'
                  × chip.IsReady s'))
            ⊎ ((id ≢ devid_value)
                × (adxl345_selftest (some chip_bus) s ≡ some (e_wrong_devid, s1))
                × (adxl345_init (some chip_bus) s ≡ some (e_wrong_devid, s1))))
  adxl345_on_chip s id ready identifies =
      let (s1, read, reads, ready1) = chip.read_id s id 0 ready identifies in
      let (s2, first, set1, ready2) =
        chip.set_register s1 reg_data_format data_format_config ready1 (omega arith)
          (omega arith) in
      let (s3, second, set2, ready3) =
        chip.set_register s2 reg_bw_rate rate_100hz ready2 (omega arith) (omega arith) in
      let (s4, third, set3, ready4) =
        chip.set_register s3 reg_power_ctl power_ctl_measure ready3 (omega arith) (omega arith) in
      let tested = adxl345_selftest_lem write write_read s s1 i2c_ok id read in
      let started =
        adxl345_init_lem write write_read s s1 s2 s3 s4 i2c_ok id i2c_ok i2c_ok i2c_ok read first
          second third in
      (
        s1,
        reads,
        elim (Bool-cases (id == devid_value)) [
          | inl same ↦ inl (
            (==_iff id devid_value).0 same,
            tested ∙ rw same refl,
            (s4, started ∙ rw same refl, (s2, s3, set1, set2, set3), ready4),
          )
          | inr other ↦
              inr (λ e. absurd (ground arith), tested ∙ rw other refl, started ∙ rw other refl)
        ],
      )
