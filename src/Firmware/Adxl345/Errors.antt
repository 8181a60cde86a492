-- ===== src/Firmware/Adxl345/Errors.antt =====
-- What the driver does with each answer of the bus.
use sharak.Prelude.{
  ℕ, ◌≡◌, refl, ◌∙◌, [], ◌∷◌, some, bind_some, ℤ, Bool-cases, inl, inr, if◌then◌else◌, ◌==◌, List,
  ◌++◌, IsI16, i_to_u16,
}
use sharak.Firmware.Bus.{Bus, Write, WriteRead, is_ok}
use sharak.Firmware.Adxl345.{
  adxl345_selftest, i2c_addr, reg_devid, devid_value, reg_data_format, data_format_config,
  reg_bw_rate, rate_100hz, reg_power_ctl, power_ctl_measure, Accel, reg_datax0, to_mg, adxl345_read,
  adxl345_decode, adxl345_ok, e_bus, e_wrong_devid, reg_read, reg_write, configure, adxl345_init,
}
use sharak.Protocol.Payload.{le16}
use sharak.Firmware.Adxl345.Decode.{adxl345_decode-counts}

-- `adxl345_init`'s outcome, from the answers that the bus gives: to the read of DEVID, and to the
-- three writes. The first failure decides.
abbrev pub init_outcome :
    {S : Type 0} → (read : ℤ) → (id : ℕ) → S → (w1 : ℤ) → S → (w2 : ℤ) → S → (w3 : ℤ) → S → ℤ × S
init_outcome read id s1 w1 s2 w2 s3 w3 s4 =
    if is_ok read
    then (if id == devid_value
        then (if is_ok w1
            then (if is_ok w2
                then (if is_ok w3 then (adxl345_ok, s4) else (e_bus, s4))
                else (e_bus, s3))
            else (e_bus, s2))
        else (e_wrong_devid, s1))
    else (e_bus, s1)

module _ {S : Type 0} (write : Write S) (write_read : WriteRead S) where
  abbrev bus : Bus S
  bus = record { write = some write; write_read = some write_read }

  abbrev status : ℤ → ℤ
  status rc = if is_ok rc then adxl345_ok else e_bus

  reg_write-bus :
      (reg val : ℕ) (s s' : S) (rc : ℤ)
      → write s i2c_addr (some (reg ∷ val ∷ [])) 2 ≡ some (rc, s')
      → reg_write (some bus) reg val s ≡ some (status rc, s')
  unfolding reg_write
  reg_write-bus reg val s s' rc h = bind_some _ h refl

  reg_read-bus :
      (reg val id : ℕ) (s s' : S) (rc : ℤ)
      → write_read s i2c_addr (some (reg ∷ [])) 1 (some (val ∷ [])) 1
        ≡ some (rc, some (id ∷ []), s')
      → reg_read (some bus) reg val s ≡ some (status rc, id, s')
  unfolding reg_read
  reg_read-bus reg val id s s' rc h = bind_some _ h refl

  configure-bus :
      (s1 s2 s3 s4 : S) (w1 w2 w3 : ℤ)
      → write s1 i2c_addr (some (reg_data_format ∷ data_format_config ∷ [])) 2 ≡ some (w1, s2)
      → write s2 i2c_addr (some (reg_bw_rate ∷ rate_100hz ∷ [])) 2 ≡ some (w2, s3)
      → write s3 i2c_addr (some (reg_power_ctl ∷ power_ctl_measure ∷ [])) 2 ≡ some (w3, s4)
      → configure (some bus) s1
        ≡ some (
            if is_ok w1
            then (if is_ok w2
                then (if is_ok w3 then (adxl345_ok, s4) else (e_bus, s4))
                else (e_bus, s3))
            else (e_bus, s2))
  unfolding configure
  configure-bus s1 s2 s3 s4 w1 w2 w3 h1 h2 h3 =
      let first = reg_write-bus reg_data_format data_format_config s1 s2 w1 h1 in
      let second = reg_write-bus reg_bw_rate rate_100hz s2 s3 w2 h2 in
      let third = reg_write-bus reg_power_ctl power_ctl_measure s3 s4 w3 h3 in
      bind_some _ first (elim (Bool-cases (is_ok w1)) [
        | inl works ↦ rw works (
            bind_some _ second (elim (Bool-cases (is_ok w2)) [
              | inl works2 ↦ rw works2 (
                  third ∙ elim (Bool-cases (is_ok w3)) [
                    | inl works3 ↦ rw works3 refl
                    | inr fails3 ↦ rw fails3 refl
                  ])
              | inr fails2 ↦ rw fails2 refl
            ]))
        | inr fails ↦ rw fails refl
      ])

  -- Over any bus that has both methods: whatever the bus answers to the read of DEVID and to the
  -- three configuration writes, `adxl345_init` returns the outcome that the first failure decides,
  -- with the bus as the last call up to it left it.
  pub adxl345_init_lem :
      (s s1 s2 s3 s4 : S) (read : ℤ) (id : ℕ) (w1 w2 w3 : ℤ)
      → write_read s i2c_addr (some (reg_devid ∷ [])) 1 (some (0 ∷ [])) 1
        ≡ some (read, some (id ∷ []), s1)
      → write s1 i2c_addr (some (reg_data_format ∷ data_format_config ∷ [])) 2 ≡ some (w1, s2)
      → write s2 i2c_addr (some (reg_bw_rate ∷ rate_100hz ∷ [])) 2 ≡ some (w2, s3)
      → write s3 i2c_addr (some (reg_power_ctl ∷ power_ctl_measure ∷ [])) 2 ≡ some (w3, s4)
      → adxl345_init (some bus) s ≡ some (init_outcome read id s1 w1 s2 w2 s3 w3 s4)
  unfolding adxl345_init
  adxl345_init_lem s s1 s2 s3 s4 read id w1 w2 w3 h h1 h2 h3 =
      let configured = configure-bus s1 s2 s3 s4 w1 w2 w3 h1 h2 h3 in
      bind_some _ (reg_read-bus reg_devid 0 id s s1 read h) (elim (Bool-cases (is_ok read)) [
        | inl works ↦ rw works (elim (Bool-cases (id == devid_value)) [
          | inl same ↦ rw same configured
          | inr other ↦ rw other refl
        ])
        | inr fails ↦ rw fails refl
      ])

  -- The self test returns what it is told about the identification register.
  pub adxl345_selftest_lem :
      (s s1 : S) (read : ℤ) (id : ℕ)
      → write_read s i2c_addr (some (reg_devid ∷ [])) 1 (some (0 ∷ [])) 1
        ≡ some (read, some (id ∷ []), s1)
      → adxl345_selftest (some bus) s
        ≡ some (
            if is_ok read
            then ((if id == devid_value then adxl345_ok else e_wrong_devid), s1)
            else (e_bus, s1))
  unfolding adxl345_selftest
  adxl345_selftest_lem s s1 read id h =
      bind_some _ (reg_read-bus reg_devid 0 id s s1 read h)
        (elim (Bool-cases (is_ok read)) [ inl works ↦ rw works refl | inr fails ↦ rw fails refl ])

  burst-bus :
      (s s' : S) (raw bytes : List ℕ) (out a : Accel) (rc : ℤ)
      → write_read s i2c_addr (some (reg_datax0 ∷ [])) 1 (some raw) 6 ≡ some (rc, some bytes, s')
      → adxl345_decode bytes ≡ some a
      → adxl345_read (some bus) raw (some out) s
        ≡ some (if is_ok rc then (adxl345_ok, some a, s') else (e_bus, some out, s'))
  unfolding adxl345_read
  burst-bus s s' raw bytes out a rc h decoded = bind_some _ h (elim (Bool-cases (is_ok rc)) [
    | inl works ↦ rw works (bind_some _ decoded refl)
    | inr fails ↦ rw fails refl
  ])

  -- Over any bus that has both methods: `adxl345_read` makes one burst of six bytes from DATAX0. If
  -- the bus answers it with I2C_OK, whatever three counts of 16 bits the bytes are, low byte first,
  -- the result is ADXL345_OK with the counts in milli-g; with any other answer it is ADXL345_E_BUS,
  -- and the sample of the caller stays as it was.
  pub adxl345_read_lem :
      (s s' : S) (raw : List ℕ) (out : Accel) (rc x y z : ℤ)
      → IsI16 x
      → IsI16 y
      → IsI16 z
      → write_read s i2c_addr (some (reg_datax0 ∷ [])) 1 (some raw) 6
        ≡ some (rc, some (le16 (i_to_u16 x) ++ (le16 (i_to_u16 y) ++ le16 (i_to_u16 z))), s')
      → adxl345_read (some bus) raw (some out) s
        ≡ some (
            if is_ok rc
            then (adxl345_ok, some (record { x_mg = to_mg x; y_mg = to_mg y; z_mg = to_mg z }), s')
            else (e_bus, some out, s'))
  adxl345_read_lem s s' raw out rc x y z hx hy hz h =
      burst-bus s s' raw _ out _ rc h (adxl345_decode-counts x y z hx hy hz)
