-- ===== src/Firmware/Stellaris/Registers.antt =====
-- The register writes of the transfers that the driver makes, in numbers, and the bus that
-- `i2c_stellaris_init` binds.
use sharak.Prelude.{ℕ, ◌≡◌, refl, List, [], ◌∷◌, ◌++◌, some}
use sharak.Firmware.Bus.{Bus}
use sharak.Firmware.Device.{Device}
use sharak.Firmware.Stellaris.{
  i2c_msa, i2c_mcs, i2c_mdr, with_bit, write_command, pointer_command, read_command,
  stellaris_write, stellaris_write_read, i2c_stellaris_init,
}
use sharak.Firmware.Stellaris.Wire.{byte_writes}
use sharak.Firmware.Stellaris.Combined.{pointer_writes, read_writes}

-- The register writes that select register `reg` for a read: the chip's address for transmission, the
-- number with START and RUN, the address for reception.
abbrev pub select : ℕ → List (ℕ × ℕ)
select reg = (i2c_msa, 0xa6) ∷ (i2c_mdr, reg) ∷ (i2c_mcs, 3) ∷ (i2c_msa, 0xa7) ∷ []

-- The commands that read six bytes: START, RUN and ACK, then RUN and ACK, at last RUN and STOP.
abbrev pub burst : List (ℕ × ℕ)
burst =
    (i2c_mcs, 11) ∷ (i2c_mcs, 9) ∷ (i2c_mcs, 9) ∷ (i2c_mcs, 9) ∷ (i2c_mcs, 9) ∷ (i2c_mcs, 5) ∷ []

-- The register writes that set register `reg` to `val`.
abbrev pub set_register : ℕ → ℕ → List (ℕ × ℕ)
set_register reg val =
    (i2c_msa, 0xa6) ∷ (i2c_mdr, reg) ∷ (i2c_mcs, 3) ∷ (i2c_mdr, val) ∷ (i2c_mcs, 5) ∷ []

pub select_six :
    (reg : ℕ)
    → ((i2c_msa, 0xa6) ∷ pointer_writes 0 (reg ∷ [])) ++ ((i2c_msa, 0xa7) ∷ read_writes 6 0 6)
      ≡ select reg ++ burst
unfolding pointer_command read_command with_bit
select_six reg = refl

pub select_one :
    (reg : ℕ)
    → ((i2c_msa, 0xa6) ∷ pointer_writes 0 (reg ∷ [])) ++ ((i2c_msa, 0xa7) ∷ read_writes 1 0 1)
      ≡ select reg ++ ((i2c_mcs, 7) ∷ [])
unfolding pointer_command read_command with_bit
select_one reg = refl

pub set_two :
    (reg val : ℕ) → (i2c_msa, 0xa6) ∷ byte_writes 2 0 (reg ∷ val ∷ []) ≡ set_register reg val
unfolding write_command with_bit
set_two reg val = refl

pub i2c_stellaris_init-bound :
    {D : Type 0} (dev : Device D) (fuel : ℕ) (b : Bus D) (d : D)
    → (i2c_stellaris_init dev fuel (some b) d).0
      ≡ some (record {
        write = some (stellaris_write dev fuel);
        write_read = some (stellaris_write_read dev fuel);
      })
unfolding i2c_stellaris_init
i2c_stellaris_init-bound dev fuel b d = refl
