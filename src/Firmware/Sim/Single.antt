-- ===== src/Firmware/Sim/Single.antt =====
-- Accesses of a single register of the chip.
use sharak.Prelude.{
  ℕ, ◌+◌, ◌<◌, ◌≡◌, refl, ap, arith, [], ◌∷◌, some, bind_some, load, set, store-set, IsU8, false,
  length-set, All-set, ◌∙◌,
}
use sharak.Firmware.Bus.{i2c_ok}
use sharak.Firmware.Sim.{
  Sim, nregs, sim_addr, reg_datax0, sim_write, sim_write_read, write_phase, write_loop, read_phase,
  read_loop, snapshot, sim_touches_data,
}
use sharak.Firmware.Sim.Access.{IsValid, next-below}

-- A write of one register, on a well-formed chip.
abbrev pub put : ℕ → ℕ → Sim → Sim
put reg val s = record s { regs = set s.regs reg val; ptr = reg + 1 }

pub sim_write-put :
    (s : Sim) (reg val : ℕ)
    → IsValid s
    → reg + 1 < nregs
    → sim_write (some s) sim_addr (some (reg ∷ val ∷ [])) 2 ≡ some (i2c_ok, some (put reg val s))
unfolding sim_write write_phase write_loop
sim_write-put s reg val v h =
    bind_some _
      (bind_some _ (store-set s.regs reg val (omega (arith, v.size)))
        (ap (λ p. some (record s { regs = set s.regs reg val; ptr = p })) (next-below reg h)))
      refl

pub put-IsValid :
    (s : Sim) (reg val : ℕ) → IsValid s → reg + 1 < nregs → IsU8 val → IsValid (put reg val s)
put-IsValid s reg val v h byte = record {
  size = length-set s.regs reg val ∙ v.size;
  bytes = All-set IsU8 s.regs reg val v.bytes byte;
  pointer = h;
  phase = v.phase;
}

not-touching : (reg : ℕ) → reg < reg_datax0 → sim_touches_data reg 1 ≡ false
unfolding sim_touches_data
not-touching reg h = ground arith

-- A read of one register in front of the data registers.
pub sim_read-one :
    (s : Sim) (reg val old : ℕ)
    → load s.regs reg ≡ some val
    → reg < reg_datax0
    → sim_write_read (some s) sim_addr (some (reg ∷ [])) 1 (some (old ∷ [])) 1
      ≡ some (i2c_ok, some (val ∷ []), some (record s { ptr = reg + 1 }))
unfolding sim_write_read write_phase write_loop read_phase snapshot read_loop
sim_read-one s reg val old read h =
    let start : Sim = record s { ptr = reg } in
    let still : snapshot 1 start ≡ some start = rw (not-touching reg h) refl in
    let out : read_loop 1 0 (old ∷ []) start ≡ some (val ∷ [], record s { ptr = reg + 1 }) =
      bind_some _ read
        (ap (λ p. some (val ∷ [], record s { ptr = p })) (next-below reg (omega arith))) in
    let phase : read_phase (some (old ∷ [])) 1 start
        ≡ some (some (val ∷ []), record s { ptr = reg + 1 }) =
      bind_some _ still (bind_some _ out refl) in
    bind_some _ phase refl
