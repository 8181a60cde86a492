-- ===== src/Firmware/Stellaris/Errors.antt =====
-- What a write does when a byte is refused.
use sharak.Prelude.{
  ℕ, suc, ◌≤◌, ◌<◌, ◌≡◌, ap, ◌∙◌, arith, List, [], ◌∷◌, ◌++◌, append_assoc, some, ℤ, length, take,
  true, false, bit_and, ◌<<<◌, ◌==◌,
}
use sharak.Firmware.Bus.{is_ok}
use sharak.Firmware.Device.{Device}
use sharak.Firmware.Stellaris.{
  i2c_msa, i2c_mcs, mcs_stop, write_command, stellaris_write_loop, stellaris_write,
}
use sharak.Firmware.Stellaris.Master.{IsAnswering}
use sharak.Firmware.Stellaris.Bytes.{loop_refused}
use sharak.Firmware.Stellaris.Wire.{byte_writes, write_loop-IsByteLoop}

module _ {D : Type 0} (dev : Device D) (bound : ℕ) (answer : List (ℕ × ℕ) → ℤ)
    (slave : IsAnswering dev bound answer) where
  -- A write whose bytes before byte `j` are accepted, by the answers to the register writes up to
  -- each, and whose byte `j` is refused, with more polls than the master is ever busy for, returns the
  -- answer to byte `j`. The registers have been written as by a write that succeeds up to that byte,
  -- then a STOP; nothing is sent after it.
  pub stellaris_write-refused :
      (fuel : ℕ) (bytes : List ℕ) (len j addr : ℕ) (d : D)
      → len ≤ length bytes
      → j < len
      → bound < fuel
      → let upto = λ (k : ℕ).
        slave.log d
        ++ ((i2c_msa, bit_and (addr <<< 1) 0xfe) ∷ byte_writes len 0 (take (suc k) bytes)) in
        ((k : ℕ) → k < j → is_ok (answer (upto k)) ≡ true)
        → is_ok (answer (upto j)) ≡ false
        → (d' : D) × (stellaris_write dev fuel d addr (some bytes) len ≡ some (answer (upto j), d'))
          × (slave.log d' ≡ upto j ++ ((i2c_mcs, mcs_stop) ∷ []))
  unfolding stellaris_write
  stellaris_write-refused fuel bytes len j addr d fits lt h before after =
      let some_bytes : (len == 0) ≡ false = ground arith in
      let target = bit_and (addr <<< 1) 0xfe in
      let d1 = dev.write32 d i2c_msa target in
      let start : (k : ℕ)
          → slave.log d1 ++ byte_writes len 0 (take (suc k) bytes)
            ≡ slave.log d ++ ((i2c_msa, target) ∷ byte_writes len 0 (take (suc k) bytes)) =
        λ k.
          ap (λ t. t ++ byte_writes len 0 (take (suc k) bytes)) (slave.write_log d i2c_msa target)
          ∙ append_assoc (slave.log d) ((i2c_msa, target) ∷ [])
              (byte_writes len 0 (take (suc k) bytes)) in
      let (d', run, logged) =
        loop_refused dev bound answer slave fuel h bytes (λ k. write_command k len)
          (stellaris_write_loop dev fuel bytes len) (write_loop-IsByteLoop dev fuel bytes len) len 0
          j d1 (omega arith) lt (λ k lt_k. ap (λ t. is_ok (answer t)) (start k) ∙ before k lt_k)
          (ap (λ t. is_ok (answer t)) (start j) ∙ after) in
      (
        d',
        rw some_bytes (run ∙ ap (λ t. some (answer t, d')) (start j)),
        logged ∙ ap (λ t. t ++ ((i2c_mcs, mcs_stop) ∷ [])) (start j),
      )
