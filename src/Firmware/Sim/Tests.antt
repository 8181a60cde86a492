-- ===== src/Firmware/Sim/Tests.antt =====
-- The simulated chip on concrete transfers.
use sharak.Prelude.{
  ◌≢◌, Ptr, List, ℕ, ◌+◌, ◌%◌, ◌≡◌, ◌≤◌, ◌<◌, ◌⊎◌, refl, arith, [], ◌∷◌, ◌++◌, ℤ, none, some,
  replicate, load, u32, IsI16,
}
use sharak.Firmware.Bus.{i2c_ok, i2c_err_nack, i2c_err_param}
use sharak.Firmware.Sim.{
  Sim, nregs, sim_addr, reg_datax0, wobble, sim_write, sim_write_read, i2c_sim_init,
}
use sharak.Firmware.Sim.Access.{IsValid, powered, sim_write_range, i2c_sim_init_ok}
use sharak.Firmware.Sim.Sample.{counts}
use sharak.Firmware.Sim.Refused.{IsMissing, sim_write_read_fails}
use sharak.Firmware.Sim.Burst.{IsMeasuring, sampled, burst_read}

-- Memory that was never initialised.
abbrev fresh : Sim
fresh = record { regs = replicate 58 0xaa; ptr = 77; phase = 5 }

-- A chip that measures, with the phase one step before its wrap-around.
abbrev measuring : Sim
measuring = record {
  regs = 0xe5 ∷ (replicate 44 0 ++ (8 ∷ replicate 12 0));
  ptr = 0;
  phase = 0xffffffff;
}

powered-IsValid : IsValid powered
powered-IsValid = (i2c_sim_init_ok fresh refl).1

measuring-IsMeasuring : IsMeasuring measuring
measuring-IsMeasuring = record {
  valid = record { size = refl; bytes = ground arith; pointer = omega arith; phase = omega arith };
  control = 8;
  has_control = refl;
  bit_set = refl;
}

i2c_sim_init_ok_example : (i2c_sim_init (some fresh) ≡ some (some powered)) × IsValid powered
i2c_sim_init_ok_example = i2c_sim_init_ok fresh refl

-- Register 0x3A does not exist.
sim_write_range_example :
    ((0x3a < nregs)
      × ((s' : Sim) × (sim_write (some powered) sim_addr (some (0x3a ∷ 1 ∷ [])) 2
            ≡ some (i2c_ok, some s'))
          × IsValid s'
          × (s'.phase ≡ 0)))
    ⊎ ((nregs ≤ 0x3a) × (sim_write (some powered) sim_addr (some (0x3a ∷ 1 ∷ [])) 2 ≡ none))
sim_write_range_example =
    sim_write_range powered (0x3a ∷ 1 ∷ []) 2 0x3a powered-IsValid refl (omega arith) (omega arith)
      (omega arith, (omega arith, tt))

burst_read_example :
    (x : ℤ) × (y : ℤ) × (load wobble (0xffffffff % 16) ≡ some x)
    × (load wobble (u32 (0xffffffff + 4) % 16) ≡ some y)
    × IsI16 x
    × IsI16 y
    × (sim_write_read (some measuring) sim_addr (some (reg_datax0 ∷ [])) 1 (some (replicate 6 0)) 6
        ≡ some (i2c_ok, some (counts x y), some (sampled measuring x y)))
burst_read_example = burst_read measuring (replicate 6 0) measuring-IsMeasuring refl

-- Another chip's address.
sim_write_read_fails_example :
    (◌≡◌ {A = Ptr (List ℕ)} (some (replicate 6 1)) (some (replicate 6 1)))
    × (◌≡◌ {A = Ptr Sim} (some powered) (some powered))
    × (((i2c_err_nack ≡ i2c_err_nack) × (0x1d ≢ sim_addr))
        ⊎ ((i2c_err_nack ≡ i2c_err_param)
            × (IsMissing (some powered) (some (0x32 ∷ [])) 1
                ⊎ IsMissing (some powered) (some (replicate 6 1)) 6)))
unfolding sim_write_read
sim_write_read_fails_example =
    sim_write_read_fails (some powered) 0x1d (some (0x32 ∷ [])) 1 (some (replicate 6 1)) 6
      i2c_err_nack (some (replicate 6 1)) (some powered) refl refl
