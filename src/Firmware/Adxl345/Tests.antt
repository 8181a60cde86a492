-- ===== src/Firmware/Adxl345/Tests.antt =====
-- The driver on concrete data.
use sharak.Prelude.{
  ◌⊎◌, ◌≢◌, Ptr, inr, ◌>>=◌, List, map, ◌%◌, none, if◌then◌else◌, ℕ, ◌+◌, ◌*◌, ◌^◌, ◌≡◌, ◌≤◌, ◌<◌,
  refl, arith, [], ◌∷◌, ◌++◌, ℤ, pos, negsuc, some, replicate, load, u32, i_to_u16,
}
use sharak.Firmware.Adxl345.{
  mg_num, Accel, e_bus, to_mg, adxl345_decode, adxl345_init, adxl345_read, adxl345_ok, Write,
  WriteRead, e_param, configure, adxl345_selftest, devid_value, e_wrong_devid,
}
use sharak.Firmware.Bus.{Bus, i2c_err_bus, is_ok, Write, WriteRead, i2c_ok, i2c_err_nack}
use sharak.Firmware.Stellaris.{i2c_stellaris_init, i2c_mcs}
use sharak.Firmware.Stellaris.Registers.{select, burst, set_register}
use sharak.Firmware.Stellaris.Source.{Source, source, source_slave, source_sending}
use sharak.Firmware.Adxl345.OnStellaris.{adxl345_read_on_stellaris, adxl345_init_on_stellaris}
use sharak.Firmware.Sim.{Sim, sim_write, wobble, sim_write_read}
use sharak.Firmware.Sim.Access.{IsValid, powered, i2c_sim_init_ok}
use sharak.Firmware.Adxl345.OnSim.{
  sim_chip, sim_bus, configured, adxl345_init_on_sim, adxl345_read_on_sim,
}
use sharak.Firmware.Adxl345.Chip.{Configures, adxl345_on_chip}
use sharak.Firmware.Adxl345.Selftest.{adxl345_refuses, adxl345_init-adxl345_selftest}
use sharak.Firmware.Adxl345.Errors.{adxl345_read_lem, adxl345_init_lem, init_outcome}
use sharak.Protocol.Payload.{le16}
use sharak.Firmware.Sim.Burst.{IsMeasuring, sampled}
use sharak.Firmware.Adxl345.Decode.{to_mg-IsScaled, abs}

-- -1 count is -3 mg: -3.9 cut towards zero.
one_down :
    adxl345_decode (0xff ∷ 0xff ∷ 0 ∷ 1 ∷ 0 ∷ 0 ∷ [])
    ≡ some (record { x_mg = negsuc 2; y_mg = pos 1000; z_mg = pos 0 })
unfolding adxl345_decode
one_down = refl

to_mg-IsScaled_example :
    ((m : ℕ) × (to_mg (negsuc 32766) ≡ negsuc m)
      × ((m + 1) * 32 ≤ (32766 + 1) * 125)
      × ((32766 + 1) * 125 < (m + 2) * 32))
    × (abs (to_mg (negsuc 32766)) ≤ 128000)
    × (abs (negsuc 32766) * mg_num < 2 ^ 31)
to_mg-IsScaled_example = to_mg-IsScaled (negsuc 32766) (omega arith)

adxl345_init_on_sim_example :
    (adxl345_init (some sim_bus) (some powered) ≡ some (adxl345_ok, some (configured powered)))
    × IsMeasuring (configured powered)
adxl345_init_on_sim_example = adxl345_init_on_sim powered (i2c_sim_init_ok powered refl).1 refl

ready : IsMeasuring (configured powered)
ready = (adxl345_init_on_sim powered (i2c_sim_init_ok powered refl).1 refl).1

adxl345_read_on_sim_example :
    (x : ℤ) × (y : ℤ) × (load wobble (0 % 16) ≡ some x)
    × (load wobble (u32 (0 + 4) % 16) ≡ some y)
    × (adxl345_read
          (some sim_bus)
          (replicate 6 0)
          (some (record { x_mg = pos 1; y_mg = pos 2; z_mg = pos 3 }))
          (some (configured powered))
        ≡ some (
          adxl345_ok,
          some (record { x_mg = to_mg x; y_mg = to_mg y; z_mg = pos 1000 }),
          some (sampled (configured powered) x y),
        ))
adxl345_read_on_sim_example =
    adxl345_read_on_sim (configured powered) (replicate 6 0)
      (record { x_mg = pos 1; y_mg = pos 2; z_mg = pos 3 }) ready refl

-- A bus that identifies itself, whose writes are not acknowledged; it counts its calls.
abbrev nack_write : Write ℕ
nack_write calls addr bytes len = some (i2c_err_nack, calls + 1)

abbrev identify : WriteRead ℕ
identify calls addr wdata wlen rdata rlen = some (i2c_ok, some (0xe5 ∷ []), calls + 1)

adxl345_init_lem_example :
    adxl345_init (some (record { write = some nack_write; write_read = some identify })) 0
    ≡ some (init_outcome i2c_ok 0xe5 1 i2c_err_nack 2 i2c_err_nack 3 i2c_err_nack 4)
adxl345_init_lem_example =
    adxl345_init_lem nack_write identify 0 1 2 3 4 i2c_ok 0xe5 i2c_err_nack i2c_err_nack
      i2c_err_nack refl refl refl refl

-- A bus whose burst fails with lost arbitration after it has filled the buffer.
abbrev no_burst : WriteRead ℕ
no_burst calls addr wdata wlen rdata rlen = some (
  i2c_err_bus,
  some
      (le16 (i_to_u16 (negsuc 0)) ++ (le16 (i_to_u16 (pos 256)) ++ le16 (i_to_u16 (negsuc 32767)))),
  calls + 1,
)

abbrev previous : Accel
previous = record { x_mg = pos 1; y_mg = pos 2; z_mg = pos 3 }

adxl345_read_lem_example :
    adxl345_read
      (some (record { write = some nack_write; write_read = some no_burst }))
      (replicate 6 0)
      (some previous)
      0
    ≡ some (
        if is_ok i2c_err_bus
        then (
          adxl345_ok,
          some (record {
            x_mg = to_mg (negsuc 0);
            y_mg = to_mg (pos 256);
            z_mg = to_mg (negsuc 32767);
          }),
          1,
        )
        else (e_bus, some previous, 1))
adxl345_read_lem_example =
    adxl345_read_lem nack_write no_burst 0 1 (replicate 6 0) previous i2c_err_bus (negsuc 0)
      (pos 256) (negsuc 32767) (omega arith) (omega arith) (omega arith) refl

-- The hardware bus before it is bound, and a chip with some bytes to send.
abbrev unbound : Bus Source
unbound = record { write = none; write_read = none }

abbrev chip : List ℕ → Source
chip bytes = record { polls = 0; writes = []; bytes = bytes }

adxl345_read_on_stellaris_example :
    (d' : Source) × (adxl345_read
        (i2c_stellaris_init source 2 (some unbound) (chip [])).0
        (replicate 6 0)
        (some previous)
        (chip (0xff ∷ 0xff ∷ 0 ∷ 1 ∷ 4 ∷ 0 ∷ 9 ∷ []))
      ≡ some (
        adxl345_ok,
        some (record { x_mg = to_mg (negsuc 0); y_mg = to_mg (pos 256); z_mg = to_mg (pos 4) }),
        d',
      ))
    × (d'.writes ≡ [] ++ (select 0x32 ++ burst))
    × (map (λ b. b % 256) d'.bytes ≡ 9 ∷ [])
unfolding le16
adxl345_read_on_stellaris_example =
    adxl345_read_on_stellaris source 1 source_slave source_sending 2 unbound (chip [])
      (chip (0xff ∷ 0xff ∷ 0 ∷ 1 ∷ 4 ∷ 0 ∷ 9 ∷ [])) (replicate 6 0) (9 ∷ []) previous (negsuc 0)
      (pos 256) (pos 4) (omega arith) refl (omega arith) (omega arith) (omega arith) refl

adxl345_init_on_stellaris_example :
    (d' : Source) × (adxl345_init
        (i2c_stellaris_init source 2 (some unbound) (chip [])).0
        (chip (0xe5 ∷ []))
      ≡ some (adxl345_ok, d'))
    × (d'.writes
        ≡ ((([] ++ (select 0x00 ++ ((i2c_mcs, 7) ∷ []))) ++ set_register 0x31 0x0b)
            ++ set_register 0x2c 0x0a)
          ++ set_register 0x2d 0x08)
adxl345_init_on_stellaris_example =
    adxl345_init_on_stellaris source 1 source_slave source_sending 2 unbound (chip [])
      (chip (0xe5 ∷ [])) [] (omega arith) refl

-- A bus that can only write.
abbrev half : Bus (Ptr Sim)
half = record { write = some sim_write; write_read = none }

adxl345_refuses_example :
    let old : Ptr Accel = some (record { x_mg = pos 1; y_mg = pos 2; z_mg = pos 3 }) in
    (adxl345_init (some half) (some powered) ≡ some (e_param, some powered))
    × (adxl345_read (some half) (replicate 6 0) old (some powered)
        ≡ some (e_param, old, some powered))
    × (adxl345_selftest (some half) (some powered) ≡ some (e_param, some powered))
    × (adxl345_read (some sim_bus) (replicate 6 0) none (some powered)
        ≡ some (e_param, none, some powered))
adxl345_refuses_example =
    adxl345_refuses (some half) (some sim_bus) (replicate 6 0)
      (some (record { x_mg = pos 1; y_mg = pos 2; z_mg = pos 3 })) (some powered) (inr refl)

adxl345_init-adxl345_selftest_example : adxl345_init (some sim_bus) (some powered) ≡ (do
  (r, s1) ← adxl345_selftest (some sim_bus) (some powered)
  if is_ok r then configure (some sim_bus) s1 else some (r, s1))
adxl345_init-adxl345_selftest_example = adxl345_init-adxl345_selftest (some sim_bus) (some powered)

-- A simulated chip with another identification.
abbrev stranger : Sim
stranger = record { regs = 0xe4 ∷ replicate 57 0; ptr = 9; phase = 3 }

stranger-IsValid : IsValid stranger
stranger-IsValid = record {
  size = refl;
  bytes = ground arith;
  pointer = omega arith;
  phase = omega arith;
}

adxl345_on_chip_example :
    (p1 : Ptr Sim) × sim_chip.Reads (some stranger) p1
    × (((0xe4 ≡ devid_value)
          × (adxl345_selftest (some sim_bus) (some stranger) ≡ some (adxl345_ok, p1))
          × ((p' : Ptr Sim) × (adxl345_init (some sim_bus) (some stranger) ≡ some (adxl345_ok, p'))
              × Configures sim_write sim_write_read sim_chip p1 p'
              × sim_chip.IsReady p'))
        ⊎ ((0xe4 ≢ devid_value)
            × (adxl345_selftest (some sim_bus) (some stranger) ≡ some (e_wrong_devid, p1))
            × (adxl345_init (some sim_bus) (some stranger) ≡ some (e_wrong_devid, p1))))
adxl345_on_chip_example =
    adxl345_on_chip sim_write sim_write_read sim_chip (some stranger) 0xe4
      (stranger, refl, stranger-IsValid) (stranger, refl, refl)
