-- ===== src/Firmware/Stellaris/Wire.antt =====
-- What a write puts into the master's registers.
use sharak.Prelude.{
  ℕ, ◌+◌, ◌-◌, ◌≤◌, ◌<◌, ◌≡◌, refl, ap, ◌∙◌, arith, List, [], ◌∷◌, ◌++◌, append_assoc, some, length,
  drop, ◌==◌, false, true, bit_and, ◌<<<◌, take, Bool-cases, inl, inr, not,
}
use sharak.Firmware.Bus.{i2c_ok}
use sharak.Firmware.Device.{Device}
use sharak.Firmware.Stellaris.{
  i2c_mcs, i2c_msa, mcs_busy, mcs_to_status, write_command, stellaris_write_loop, stellaris_write,
  mcs_start, mcs_stop, mcs_run,
}
use sharak.Firmware.Stellaris.Master.{IsAnswering}
use sharak.Firmware.Stellaris.Bytes.{command_writes, IsByteLoop, loop_accepted}

-- A slave that acknowledges everything: `log` are the writes to the registers, in order; the
-- master is busy for some number of polls, at most `bound` after a write, and each poll leaves one
-- less; when it is not, its status word says that there was no error.
pub record IsAcknowledged {D : Type 0} (dev : Device D) (bound : ℕ) : Type 0 where
  pub log : D → List (ℕ × ℕ)
  pub busy : D → ℕ
  pub poll_ready : (d : D) → busy d ≡ 0 → (bit_and (dev.read32 d i2c_mcs).0 mcs_busy == 0) ≡ true
  pub poll_again : (d : D) → 0 < busy d → (bit_and (dev.read32 d i2c_mcs).0 mcs_busy == 0) ≡ false
  pub poll_busy : (d : D) → busy (dev.read32 d i2c_mcs).1 ≡ busy d - 1
  pub poll_log : (d : D) → log (dev.read32 d i2c_mcs).1 ≡ log d
  pub no_error : (d : D) → busy d ≡ 0 → mcs_to_status (dev.read32 d i2c_mcs).0 ≡ i2c_ok
  pub write_log : (d : D) (reg v : ℕ) → log (dev.write32 d reg v) ≡ log d ++ ((reg, v) ∷ [])
  pub write_busy : (d : D) (reg v : ℕ) → busy (dev.write32 d reg v) ≤ bound

-- The register writes of the bytes from index `i` on, of `len` in all.
abbrev pub byte_writes : ℕ → ℕ → List ℕ → List (ℕ × ℕ)
byte_writes len i bs = command_writes (λ k. write_command k len) i bs

pub write_loop-IsByteLoop :
    {D : Type 0} (dev : Device D) (fuel : ℕ) (bytes : List ℕ) (len : ℕ)
    → IsByteLoop dev fuel bytes (λ k. write_command k len) (stellaris_write_loop dev fuel bytes len)
unfolding stellaris_write_loop
write_loop-IsByteLoop dev fuel bytes len = record { over = λ i d. refl; more = λ left i d. refl }

-- Such a slave answers every write with I2C_OK.
abbrev pub acknowledging :
    {D : Type 0} {dev : Device D} {bound : ℕ}
    → IsAcknowledged dev bound
    → IsAnswering dev bound (λ log. i2c_ok)
acknowledging slave = record {
  log = slave.log;
  busy = slave.busy;
  poll_ready = slave.poll_ready;
  poll_again = slave.poll_again;
  poll_busy = slave.poll_busy;
  poll_log = slave.poll_log;
  answers = slave.no_error;
  write_log = slave.write_log;
  write_busy = slave.write_busy;
}

module _ {D : Type 0} (dev : Device D) (bound : ℕ) (slave : IsAcknowledged dev bound) where
  write_loop-acknowledged :
      (fuel : ℕ) (bytes : List ℕ) (len left i : ℕ) (d : D)
      → i + left ≤ length bytes
      → bound < fuel
      → (d' : D) × (stellaris_write_loop dev fuel bytes len left i d ≡ some (i2c_ok, d'))
        × (slave.log d' ≡ slave.log d ++ byte_writes len i (take left (drop i bytes)))
  write_loop-acknowledged fuel bytes len left i d fits h =
      let (d', run, logged, _) =
        loop_accepted dev bound (λ log. i2c_ok) (acknowledging slave) fuel h bytes
          (λ k. write_command k len) (stellaris_write_loop dev fuel bytes len)
          (write_loop-IsByteLoop dev fuel bytes len) {X = Unit} (λ d. tt) (λ d. refl)
          (λ d reg v. refl) left i d fits (λ k lt. refl) in
      (d', run, logged)

  -- On a slave that acknowledges everything, with more polls than the master is ever busy for, a
  -- write of at least one byte returns I2C_OK, and the registers have been written exactly so: the
  -- shifted address, then each byte with its command.
  pub stellaris_write-acknowledged :
      (fuel : ℕ) (bytes : List ℕ) (len addr : ℕ) (d : D)
      → 0 < len
      → len ≤ length bytes
      → bound < fuel
      → (d' : D) × (stellaris_write dev fuel d addr (some bytes) len ≡ some (i2c_ok, d'))
        × (slave.log d'
            ≡ slave.log d
              ++ ((i2c_msa, bit_and (addr <<< 1) 0xfe) ∷ byte_writes len 0 (take len bytes)))
  unfolding stellaris_write
  stellaris_write-acknowledged fuel bytes len addr d pos fits h =
      let some_bytes : (len == 0) ≡ false = ground arith in
      let target = bit_and (addr <<< 1) 0xfe in
      let (d', run, logged) =
        write_loop-acknowledged fuel bytes len len 0 (dev.write32 d i2c_msa target) (omega arith)
          h in
      (
        d',
        rw some_bytes run,
        logged
            ∙ (ap (λ t. t ++ byte_writes len 0 (take len bytes)) (slave.write_log d i2c_msa target)
                ∙ append_assoc (slave.log d) ((i2c_msa, target) ∷ [])
                    (byte_writes len 0 (take len bytes))),
      )

-- The commands of a write: START only with the first byte, STOP only with the last, RUN always.
pub write_command-bits :
    (i len : ℕ)
    → i < len
    → ((bit_and (write_command i len) mcs_start == 0) ≡ not (i == 0))
      × ((bit_and (write_command i len) mcs_stop == 0) ≡ not (i == len - 1))
      × (bit_and (write_command i len) mcs_run ≡ 1)
unfolding write_command
write_command-bits i len h = elim (Bool-cases (i == 0)) [
  | inl e ↦ elim (Bool-cases (i == len - 1)) [
    | inl f ↦ rw (e, f) (refl, refl, refl)
    | inr f ↦ rw (e, f) (refl, refl, refl)
  ]
  | inr e ↦ elim (Bool-cases (i == len - 1)) [
    | inl f ↦ rw (e, f) (refl, refl, refl)
    | inr f ↦ rw (e, f) (refl, refl, refl)
  ]
]
