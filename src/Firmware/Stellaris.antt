-- ===== src/Firmware/Stellaris.antt =====
-- The hardware I2C backend of firmware/i2c_stellaris.c, over any device.
pub mod Master
pub mod Bytes
pub mod Wire
pub mod Errors
pub mod Combined
pub mod Phases
pub mod Refused
pub mod Registers
pub mod Source
mod Tests
use sharak.Prelude.{
  ◌*◌, ◌/◌, ℕ, zero, suc, ◌+◌, ◌-◌, List, [], ◌∷◌, ℤ, Ptr, Run, none, some, ◌>>=◌, load, store,
  ◌==◌, if◌then◌else◌, not, bit_and, bit_or, u8, ◌<<<◌, Bool, true, false,
}
use sharak.Firmware.Bus.{Bus, i2c_ok, i2c_err_nack, i2c_err_bus, i2c_err_param, is_ok}
use sharak.Firmware.Device.{Device}

abbrev pub i2c_base : ℕ
i2c_base = 0x40020000

abbrev pub i2c_msa : ℕ
i2c_msa = i2c_base + 0x000

abbrev pub i2c_mcs : ℕ
i2c_mcs = i2c_base + 0x004

abbrev pub i2c_mdr : ℕ
i2c_mdr = i2c_base + 0x008

abbrev pub mcs_run : ℕ
mcs_run = 0x01

abbrev pub mcs_start : ℕ
mcs_start = 0x02

abbrev pub mcs_stop : ℕ
mcs_stop = 0x04

abbrev pub mcs_ack : ℕ
mcs_ack = 0x08

abbrev pub mcs_busy : ℕ
mcs_busy = 0x01

-- `MCS_ERROR | MCS_ADRACK | MCS_DATACK`
abbrev pub mcs_nack_bits : ℕ
mcs_nack_bits = bit_or (bit_or 0x02 0x04) 0x08

abbrev pub mcs_arblst : ℕ
mcs_arblst = 0x10

abbrev i2c_mtpr : ℕ
i2c_mtpr = i2c_base + 0x00c

abbrev i2c_mcr : ℕ
i2c_mcr = i2c_base + 0x020

abbrev i2c_mcr_mfe : ℕ
i2c_mcr_mfe = 0x10

-- `(I2C_SYSCLK_HZ / (20u * I2C_SCL_HZ)) - 1u`
abbrev i2c_tpr : ℕ
i2c_tpr = 12000000 / (20 * 100000) - 1

abbrev sysctl_base : ℕ
sysctl_base = 0x400fe000

abbrev sysctl_rcgc1 : ℕ
sysctl_rcgc1 = sysctl_base + 0x104

abbrev sysctl_rcgc2 : ℕ
sysctl_rcgc2 = sysctl_base + 0x108

abbrev rcgc1_i2c0 : ℕ
rcgc1_i2c0 = 0x1000

abbrev rcgc2_gpiob : ℕ
rcgc2_gpiob = 0x02

abbrev gpiob_base : ℕ
gpiob_base = 0x40005000

abbrev gpiob_afsel : ℕ
gpiob_afsel = gpiob_base + 0x420

abbrev gpiob_odr : ℕ
gpiob_odr = gpiob_base + 0x50c

abbrev gpiob_den : ℕ
gpiob_den = gpiob_base + 0x51c

abbrev pb2 : ℕ
pb2 = 0x04

abbrev pb3 : ℕ
pb3 = 0x08

pub mcs_to_status : ℕ → ℤ
mcs_to_status status =
    if bit_and status mcs_arblst == 0
    then (if bit_and status mcs_nack_bits == 0 then i2c_ok else i2c_err_nack)
    else i2c_err_bus

-- `cmd |= bit` under a test.
pub with_bit : Bool → ℕ → ℕ → ℕ
with_bit on bit cmd = if on then bit_or cmd bit else cmd

-- The command of byte `i` of `len` in a write, in the write phase of a combined transfer, and in
-- its read phase.
pub write_command : ℕ → ℕ → ℕ
unfolding with_bit
write_command i len = with_bit (i == len - 1) mcs_stop (with_bit (i == 0) mcs_start mcs_run)

pub pointer_command : ℕ → ℕ
unfolding with_bit
pointer_command i = with_bit (i == 0) mcs_start mcs_run

pub read_command : ℕ → ℕ → ℕ
unfolding with_bit
read_command i len =
    let cmd = with_bit (i == 0) mcs_start mcs_run in
    if i == len - 1 then bit_or cmd mcs_stop else bit_or cmd mcs_ack

module _ {D : Type 0} (dev : Device D) (fuel : ℕ) where
  -- The polls of `i2c_wait`, at most `left`; `none` is a master that stayed busy.
  pub poll : ℕ → D → Run D
  poll zero d = none
  poll (suc left) d =
      let (status, d') = dev.read32 d i2c_mcs in
      let again = poll left d' in if bit_and status mcs_busy == 0 then some d' else again

  pub i2c_wait : D → Run (ℤ × D)
  unfolding poll mcs_to_status
  i2c_wait d = do
    d1 ← poll fuel d
    let (status, d2) = dev.read32 d1 i2c_mcs
    some (mcs_to_status status, d2)

  -- One byte out: data, command, wait; on an error the bus is released.
  pub send_byte : ℕ → ℕ → D → Run (ℤ × D)
  unfolding i2c_wait
  send_byte b cmd d = do
    (st, d') ← i2c_wait (dev.write32 (dev.write32 d i2c_mdr b) i2c_mcs cmd)
    some (st, (if is_ok st then d' else dev.write32 d' i2c_mcs mcs_stop))

  -- The loop of `stellaris_write` at index `i`, with `left` of `len` rounds left.
  pub stellaris_write_loop : List ℕ → ℕ → ℕ → ℕ → D → Run (ℤ × D)
  unfolding send_byte write_command
  stellaris_write_loop bytes len zero i d = some (i2c_ok, d)
  stellaris_write_loop bytes len (suc left) i d = do
    b ← load bytes i
    (st, d') ← send_byte b (write_command i len) d
    let rest = stellaris_write_loop bytes len left (i + 1) d'
    if is_ok st then rest else some (st, d')

  unfoldable pub stellaris_write : D → ℕ → Ptr (List ℕ) → ℕ → Run (ℤ × D)
  unfolding stellaris_write_loop
  stellaris_write d addr none len = some (i2c_err_param, d)
  stellaris_write d addr (some bytes) len =
      if len == 0
      then some (i2c_err_param, d)
      else stellaris_write_loop bytes len len 0 (dev.write32 d i2c_msa (bit_and (addr <<< 1) 0xfe))

  -- The two loops of `stellaris_write_read`.
  pub pointer_loop : List ℕ → ℕ → ℕ → D → Run (ℤ × D)
  unfolding send_byte pointer_command
  pointer_loop bytes zero i d = some (i2c_ok, d)
  pointer_loop bytes (suc left) i d = do
    b ← load bytes i
    (st, d') ← send_byte b (pointer_command i) d
    let rest = pointer_loop bytes left (i + 1) d'
    if is_ok st then rest else some (st, d')

  pub receive_loop : ℕ → ℕ → ℕ → List ℕ → D → Run (ℤ × List ℕ × D)
  unfolding i2c_wait read_command
  receive_loop len zero i out d = some (i2c_ok, out, d)
  receive_loop len (suc left) i out d = do
    (st, d1) ← i2c_wait (dev.write32 d i2c_mcs (read_command i len))
    if is_ok st
        then (do
          let (word, d2) = dev.read32 d1 i2c_mdr
          out' ← store out i (u8 (bit_and word 0xff))
          receive_loop len left (i + 1) out' d2)
        else some (st, out, dev.write32 d1 i2c_mcs mcs_stop)

  unfoldable pub stellaris_write_read :
      D → ℕ → Ptr (List ℕ) → ℕ → Ptr (List ℕ) → ℕ → Run (ℤ × Ptr (List ℕ) × D)
  unfolding pointer_loop receive_loop
  stellaris_write_read d addr none wlen rdata rlen = some (i2c_err_param, rdata, d)
  stellaris_write_read d addr (some bytes) wlen none rlen = some (i2c_err_param, none, d)
  stellaris_write_read d addr (some bytes) wlen (some out) rlen =
      if wlen == 0
      then some (i2c_err_param, some out, d)
      else (if rlen == 0 then some (i2c_err_param, some out, d) else (do
        (st, d1) ← pointer_loop bytes wlen 0 (dev.write32 d i2c_msa (bit_and (addr <<< 1) 0xfe))
        if is_ok st
            then (do
              (st', out', d2) ←
                  receive_loop rlen rlen 0 out
                    (dev.write32 d1 i2c_msa (bit_or (bit_and (addr <<< 1) 0xfe) 0x01))
              some (st', some out', d2))
            else some (st, some out, d1)))

  -- `reg |= mask`
  set_bits : ℕ → ℕ → D → D
  set_bits reg mask d = let (old, d') = dev.read32 d reg in dev.write32 d' reg (bit_or old mask)

  -- `ctx` is set to NULL: the state behind the methods is the device itself.
  pub i2c_stellaris_init : Ptr (Bus D) → D → Ptr (Bus D) × D
  unfolding set_bits
  i2c_stellaris_init none d = (none, d)
  i2c_stellaris_init (some bus) d =
      let d1 = set_bits sysctl_rcgc2 rcgc2_gpiob (set_bits sysctl_rcgc1 rcgc1_i2c0 d) in
      let (ready, d2) = dev.read32 d1 sysctl_rcgc2 in
      let d3 = set_bits gpiob_afsel (bit_or pb2 pb3) d2 in
      let d4 = set_bits gpiob_den (bit_or pb2 pb3) (set_bits gpiob_odr pb3 d3) in
      let d5 = dev.write32 (dev.write32 d4 i2c_mcr i2c_mcr_mfe) i2c_mtpr i2c_tpr in
      (some (record { write = some stellaris_write; write_read = some stellaris_write_read }), d5)
