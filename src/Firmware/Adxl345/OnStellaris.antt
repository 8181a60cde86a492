-- ===== src/Firmware/Adxl345/OnStellaris.antt =====
-- The driver on the hardware bus: what it makes of a chip that acknowledges, and which registers of
-- the master it goes through.
use sharak.Prelude.{
  inl, inr, refl, ℕ, ◌<◌, ◌≡◌, ap, ◌∙◌, arith, List, [], ◌∷◌, ◌++◌, append-nil, append_assoc, ℤ,
  some, IsI16, i_to_u16, length, drop, drop_all,
}
use sharak.Protocol.Payload.{le16}
use sharak.Firmware.Bus.{Bus, i2c_ok}
use sharak.Firmware.Device.{Device}
use sharak.Firmware.Adxl345.{Accel, adxl345_ok, to_mg, adxl345_init, adxl345_read}
use sharak.Firmware.Adxl345.Chip.{Chip, adxl345_on_chip}
use sharak.Firmware.Adxl345.Errors.{adxl345_read_lem}
use sharak.Firmware.Stellaris.{i2c_mcs, stellaris_write, stellaris_write_read, i2c_stellaris_init}
use sharak.Firmware.Stellaris.Wire.{IsAcknowledged, acknowledging, stellaris_write-acknowledged}
use sharak.Firmware.Stellaris.Combined.{IsSending, stellaris_write_read-acknowledged}
use sharak.Firmware.Stellaris.Registers.{
  select, burst, set_register, select_six, select_one, set_two, i2c_stellaris_init-bound,
}

module _ {D : Type 0} (dev : Device D) (bound : ℕ) (slave : IsAcknowledged dev bound)
    (sending : IsSending dev bound (λ log. i2c_ok) (acknowledging slave)) where
  -- On the bus that `i2c_stellaris_init` has bound, with a chip that acknowledges everything and
  -- sends three counts of 16 bits next, low byte first, and with more polls than the master is ever
  -- busy for: `adxl345_read` returns ADXL345_OK and the counts in milli-g, by one burst of six bytes
  -- from register 0x32, and takes no more than them.
  pub adxl345_read_on_stellaris :
      (fuel : ℕ) (b : Bus D) (d0 d : D) (raw more : List ℕ) (out : Accel) (x y z : ℤ)
      → bound < fuel
      → length raw ≡ 6
      → IsI16 x
      → IsI16 y
      → IsI16 z
      → sending.supply d ≡ (le16 (i_to_u16 x) ++ (le16 (i_to_u16 y) ++ le16 (i_to_u16 z))) ++ more
      → (d' : D) × (adxl345_read (i2c_stellaris_init dev fuel (some b) d0).0 raw (some out) d
          ≡ some (adxl345_ok, some (record { x_mg = to_mg x; y_mg = to_mg y; z_mg = to_mg z }), d'))
        × (slave.log d' ≡ slave.log d ++ (select 0x32 ++ burst))
        × (sending.supply d' ≡ more)
  unfolding le16
  adxl345_read_on_stellaris fuel b d0 d raw more out x y z enough six hx hy hz supplies =
      let bs = le16 (i_to_u16 x) ++ (le16 (i_to_u16 y) ++ le16 (i_to_u16 z)) in
      let (d', run, logged, left) =
        stellaris_write_read-acknowledged dev bound slave sending fuel 0x53 1 (0x32 ∷ []) raw bs
          more d (omega arith) (omega arith) (omega arith) (omega (arith, six)) supplies enough in
      let none_left : bs ++ drop 6 raw ≡ bs =
        ap (λ t. bs ++ t) (drop_all 6 raw (omega (arith, six))) ∙ append-nil bs in
      (
        d',
        ap (λ t. adxl345_read t raw (some out) d) (i2c_stellaris_init-bound dev fuel b d0)
            ∙ adxl345_read_lem (stellaris_write dev fuel) (stellaris_write_read dev fuel) d d' raw
                out i2c_ok x y z hx hy hz (run ∙ ap (λ t. some (i2c_ok, some t, d')) none_left),
        logged ∙ (append_assoc (slave.log d) _ _ ∙ ap (λ t. slave.log d ++ t) (select_six 0x32)),
        left,
      )

  pub set_register-written :
      (fuel : ℕ) (reg val : ℕ) (d : D)
      → bound < fuel
      → (d' : D) × (stellaris_write dev fuel d 0x53 (some (reg ∷ val ∷ [])) 2 ≡ some (i2c_ok, d'))
        × (slave.log d' ≡ slave.log d ++ set_register reg val)
  set_register-written fuel reg val d enough =
      let (d', run, logged) =
        stellaris_write-acknowledged dev bound slave fuel (reg ∷ val ∷ []) 2 0x53 d (omega arith)
          (omega arith) enough in
      (d', run, logged ∙ ap (λ t. slave.log d ++ t) (set_two reg val))

  pub read_id-read :
      (fuel : ℕ) (d : D) (id old : ℕ) (more : List ℕ)
      → bound < fuel
      → sending.supply d ≡ id ∷ more
      → (d' : D) × (stellaris_write_read dev fuel d 0x53 (some (0 ∷ [])) 1 (some (old ∷ [])) 1
          ≡ some (i2c_ok, some (id ∷ []), d'))
        × (slave.log d' ≡ slave.log d ++ (select 0x00 ++ ((i2c_mcs, 7) ∷ [])))
  read_id-read fuel d id old more enough supplies =
      let (d', run, logged, left) =
        stellaris_write_read-acknowledged dev bound slave sending fuel 0x53 1 (0 ∷ []) (old ∷ [])
          (id ∷ []) more d (omega arith) (omega arith) (omega arith) (omega arith) supplies
          enough in
      (
        d',
        run,
        logged ∙ (append_assoc (slave.log d) _ _ ∙ ap (λ t. slave.log d ++ t) (select_one 0x00)),
      )

  -- A chip that acknowledges everything, behind the controller, is one that answers.
  abbrev pub stellaris_chip :
      (fuel : ℕ) → bound < fuel → Chip (stellaris_write dev fuel) (stellaris_write_read dev fuel)
  stellaris_chip fuel enough = record {
    IsReady = λ d. Unit;
    Identifies = λ id d. (more : List ℕ) × (sending.supply d ≡ id ∷ more);
    Reads = λ d d'. slave.log d' ≡ slave.log d ++ (select 0x00 ++ ((i2c_mcs, 7) ∷ []));
    Sets = λ reg val d d'. slave.log d' ≡ slave.log d ++ set_register reg val;
    read_id = λ d id old _ (more, supplies).
        let (d', run, logged) = read_id-read fuel d id old more enough supplies in
        (d', run, logged, tt);
    set_register = λ d reg val _ _ _.
        let (d', run, logged) = set_register-written fuel reg val d enough in (d', run, logged, tt);
  }

  -- On the bus that `i2c_stellaris_init` has bound, with a chip that acknowledges everything and
  -- sends 0xE5 next, and with more polls than the master is ever busy for: `adxl345_init` returns
  -- ADXL345_OK, and the master has read register 0x00 and then set 0x31 to 0x0B, 0x2C to 0x0A and
  -- 0x2D to 0x08, in this order, and nothing else.
  pub adxl345_init_on_stellaris :
      (fuel : ℕ) (b : Bus D) (d0 d : D) (more : List ℕ)
      → bound < fuel
      → sending.supply d ≡ 0xe5 ∷ more
      → (d' : D) × (adxl345_init (i2c_stellaris_init dev fuel (some b) d0).0 d
          ≡ some (adxl345_ok, d'))
        × (slave.log d'
            ≡ (((slave.log d ++ (select 0x00 ++ ((i2c_mcs, 7) ∷ []))) ++ set_register 0x31 0x0b)
                ++ set_register 0x2c 0x0a)
              ++ set_register 0x2d 0x08)
  adxl345_init_on_stellaris fuel b d0 d more enough supplies =
      let (d1, reads, outcome) =
        adxl345_on_chip (stellaris_write dev fuel) (stellaris_write_read dev fuel)
          (stellaris_chip fuel enough) d 0xe5 tt (more, supplies) in
      elim outcome [
        | inl (_, _, (d4, run, (d2, d3, log2, log3, log4), _)) ↦ (
          d4,
          ap (λ t. adxl345_init t d) (i2c_stellaris_init-bound dev fuel b d0) ∙ run,
          log4
              ∙ ap (λ t. t ++ set_register 0x2d 0x08)
                  (log3
                    ∙ ap (λ t. t ++ set_register 0x2c 0x0a)
                        (log2 ∙ ap (λ t. t ++ set_register 0x31 0x0b) reads)),
        )
        | inr (other, _, _) ↦ absurd (other refl)
      ]
