-- ===== src/Firmware/Sim.antt =====
-- The simulated ADXL345 of firmware/i2c_sim.c: a register file with an auto-incrementing pointer,
-- and a vibration generator behind the six data registers.
pub mod Sample
pub mod Access
pub mod Burst
pub mod Single
pub mod Refused
mod Tests
use sharak.Prelude.{
  ℕ, zero, suc, ◌+◌, ◌-◌, List, [], ◌∷◌, ◌++◌, ℤ, pos, negsuc, Ptr, Run, none, some, ◌>>=◌, load,
  store, store_all, ltb, leb, ◌==◌, if◌then◌else◌, ◌&&◌, ◌||◌, Bool, true, false, replicate, u8,
  u32, bit_and, i_to_u16,
}
use sharak.Protocol.Payload.{le16}
use sharak.Firmware.Bus.{Bus, i2c_ok, i2c_err_nack, i2c_err_param}

abbrev pub sim_addr : ℕ
sim_addr = 0x53

abbrev pub nregs : ℕ
nregs = 0x3a

abbrev pub reg_devid : ℕ
reg_devid = 0x00

abbrev pub reg_power_ctl : ℕ
reg_power_ctl = 0x2d

abbrev pub reg_datax0 : ℕ
reg_datax0 = 0x32

abbrev pub reg_dataz1 : ℕ
reg_dataz1 = 0x37

abbrev pub devid_value : ℕ
devid_value = 0xe5

abbrev pub power_ctl_measure : ℕ
power_ctl_measure = 0x08

-- `i2c_sim_t`
pub record Sim : Type 0 where
  pub regs : List ℕ
  pub ptr : ℕ
  pub phase : ℕ

pub sim_next_ptr : ℕ → ℕ
sim_next_ptr ptr = let next = u8 (ptr + 1) in if leb nregs next then 0 else next

abbrev pub wobble : List ℤ
wobble =
    pos 0
    ∷ pos 4
    ∷ pos 8
    ∷ pos 12
    ∷ pos 16
    ∷ pos 12
    ∷ pos 8
    ∷ pos 4
    ∷ pos 0
    ∷ negsuc 3
    ∷ negsuc 7
    ∷ negsuc 11
    ∷ negsuc 15
    ∷ negsuc 11
    ∷ negsuc 7
    ∷ negsuc 3
    ∷ []

-- `sim_refresh_sample`: the six data registers are packed low byte first, and the phase goes on.
pub sim_refresh_sample : Sim → Run Sim
unfolding le16
sim_refresh_sample s = do
  x ← load wobble (bit_and s.phase 15)
  y ← load wobble (bit_and (u32 (s.phase + 4)) 15)
  regs ←
      store_all s.regs reg_datax0
        (le16 (i_to_u16 x) ++ (le16 (i_to_u16 y) ++ le16 (i_to_u16 (pos 256))))
  some (record s { regs = regs; phase = u32 (s.phase + 1) })

pub sim_touches_data : ℕ → ℕ → Bool
sim_touches_data ptr rlen = leb ptr reg_dataz1 && ltb reg_datax0 (u32 (ptr + u32 rlen))

-- `regs[ptr] = data[i]`, at index `i` with `len - i` rounds left.
pub write_loop : List ℕ → ℕ → ℕ → Sim → Run Sim
unfolding sim_next_ptr
write_loop bytes zero i s = some s
write_loop bytes (suc left) i s = do
  b ← load bytes i
  regs ← store s.regs s.ptr b
  write_loop bytes left (i + 1) (record s { regs = regs; ptr = sim_next_ptr s.ptr })

-- The first of `len` bytes sets the register pointer, the rest are written.
pub write_phase : List ℕ → ℕ → Sim → Run Sim
unfolding write_loop
write_phase bytes len s = do p ← load bytes 0; write_loop bytes (len - 1) 1 (record s { ptr = p })

-- `sim_write`; the context may be NULL.
unfoldable pub sim_write : Ptr Sim → ℕ → Ptr (List ℕ) → ℕ → Run (ℤ × Ptr Sim)
unfolding write_phase
sim_write none addr bytes len = some (i2c_err_param, none)
sim_write (some s) addr bytes len =
    if addr == sim_addr
    then (if len == 0 then some (i2c_ok, some s) else elim bytes [
      | none ↦ some (i2c_err_param, some s)
      | some bs ↦ do s' ← write_phase bs len s; some (i2c_ok, some s')
    ])
    else some (i2c_err_nack, some s)

-- `rdata[i] = regs[ptr]`, at index `i` with `rlen - i` rounds left.
pub read_loop : ℕ → ℕ → List ℕ → Sim → Run (List ℕ × Sim)
unfolding sim_next_ptr
read_loop zero i out s = some (out, s)
read_loop (suc left) i out s = do
  v ← load s.regs s.ptr
  out' ← store out i v
  read_loop left (i + 1) out' (record s { ptr = sim_next_ptr s.ptr })

-- A read that overlaps the data registers of a measuring chip takes a new sample first.
pub snapshot : ℕ → Sim → Run Sim
unfolding sim_touches_data sim_refresh_sample
snapshot rlen s =
    if ltb 0 rlen && sim_touches_data s.ptr rlen
    then (do
      v ← load s.regs reg_power_ctl
      if bit_and v power_ctl_measure == 0 then some s else sim_refresh_sample s)
    else some s

-- The read phase: `rdata` is only touched if there is something to read.
pub read_phase : Ptr (List ℕ) → ℕ → Sim → Run (Ptr (List ℕ) × Sim)
unfolding snapshot read_loop
read_phase rdata zero s = do s' ← snapshot zero s; some (rdata, s')
read_phase rdata (suc n) s = do
  s' ← snapshot (suc n) s
  out ← rdata
  (out', s'') ← read_loop (suc n) 0 out s'
  some (some out', s'')

pub is_null : Ptr (List ℕ) → Bool
is_null none = true
is_null (some x) = false

-- `sim_write_read`
unfoldable pub sim_write_read :
    Ptr Sim → ℕ → Ptr (List ℕ) → ℕ → Ptr (List ℕ) → ℕ → Run (ℤ × Ptr (List ℕ) × Ptr Sim)
unfolding write_phase read_phase is_null
sim_write_read none addr wdata wlen rdata rlen = some (i2c_err_param, rdata, none)
sim_write_read (some s) addr wdata wlen rdata rlen =
    if addr == sim_addr
    then (if ltb 0 wlen && is_null wdata || ltb 0 rlen && is_null rdata
        then some (i2c_err_param, rdata, some s)
        else (do
          s1 ← (if ltb 0 wlen then (do bs ← wdata; write_phase bs wlen s) else some s)
          (out, s2) ← read_phase rdata rlen s1
          some (i2c_ok, out, some s2)))
    else some (i2c_err_nack, rdata, some s)

-- The clearing loop of `i2c_sim_init`, at index `i` with `left` rounds left.
pub clear_loop : ℕ → ℕ → List ℕ → Run (List ℕ)
clear_loop zero i regs = some regs
clear_loop (suc left) i regs = do regs' ← store regs i 0; clear_loop left (i + 1) regs'

unfoldable pub i2c_sim_init : Ptr Sim → Run (Ptr Sim)
unfolding clear_loop
i2c_sim_init none = some none
i2c_sim_init (some s) = do
  cleared ← clear_loop nregs 0 s.regs
  regs ← store cleared reg_devid devid_value
  some (some (record { regs = regs; ptr = 0; phase = 0 }))

-- `i2c_sim_bind`, without the context, which the methods take as an argument.
unfoldable pub i2c_sim_bind : Ptr (Bus (Ptr Sim)) → Ptr (Bus (Ptr Sim))
unfolding sim_write sim_write_read
i2c_sim_bind none = none
i2c_sim_bind (some bus) = some (record { write = some sim_write; write_read = some sim_write_read })
