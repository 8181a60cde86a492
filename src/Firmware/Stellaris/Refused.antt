-- ===== src/Firmware/Stellaris/Refused.antt =====
-- What a combined transfer does when a byte of its read phase is refused.
use sharak.Prelude.{
  ◌-◌, ℕ, zero, suc, ◌+◌, ◌≤◌, ◌<◌, ◌≡◌, refl, ap, sym, ◌∙◌, arith, List, [], ◌∷◌, ◌++◌,
  append_assoc, ℤ, some, bind_some, if_else, ◌==◌, length, drop, take, true, false, bit_and, bit_or,
  ◌<<<◌,
}
use sharak.Firmware.Bus.{is_ok}
use sharak.Firmware.Device.{Device}
use sharak.Firmware.Stellaris.{
  i2c_msa, i2c_mcs, mcs_stop, read_command, receive_loop, stellaris_write_read,
}
use sharak.Firmware.Stellaris.Master.{IsAnswering, i2c_wait-answered}
use sharak.Firmware.Stellaris.Combined.{
  IsSending, pointer_writes, read_writes, write_phase, receive_accepted,
}

-- One command more at the end.
read_writes-suc :
    (len i k : ℕ)
    → read_writes len i (suc k) ≡ read_writes len i k ++ ((i2c_mcs, read_command (i + k) len) ∷ [])
read_writes-suc len i zero =
    let same : i ≡ i + 0 = omega arith in ap (λ t. (i2c_mcs, read_command t len) ∷ []) same
read_writes-suc len i (suc k) =
    let same : i + 1 + k ≡ i + suc k = omega arith in
    ap (λ t. (i2c_mcs, read_command i len) ∷ t)
      (read_writes-suc len (i + 1) k
        ∙ ap (λ t. read_writes len (i + 1) k ++ ((i2c_mcs, read_command t len) ∷ [])) same)

module _ {D : Type 0} (dev : Device D) (bound : ℕ) (answer : List (ℕ × ℕ) → ℤ)
    (slave : IsAnswering dev bound answer) (fuel : ℕ) (enough : bound < fuel) where
  -- A byte that is refused: the bus is released, and nothing is stored.
  receive_refused :
      (len left i : ℕ) (out : List ℕ) (d : D)
      → let log = slave.log d ++ ((i2c_mcs, read_command i len) ∷ []) in
        is_ok (answer log) ≡ false
        → (d' : D) × (receive_loop dev fuel len (suc left) i out d ≡ some (answer log, out, d'))
          × (slave.log d' ≡ log ++ ((i2c_mcs, mcs_stop) ∷ []))
  unfolding receive_loop
  receive_refused len left i out d bad =
      let cmd = read_command i len in
      let d1 = dev.write32 d i2c_mcs cmd in
      let logged = slave.write_log d i2c_mcs cmd in
      let (d2, waited, same, _) =
        i2c_wait-answered dev bound answer slave {X = Unit} (λ d. tt) (λ d. refl) fuel d1
          (slave.write_busy d i2c_mcs cmd) enough in
      let d3 = dev.write32 d2 i2c_mcs mcs_stop in
      let fails : is_ok (answer (slave.log d1)) ≡ false = ap (λ t. is_ok (answer t)) logged ∙ bad in
      (
        d3,
        bind_some _ waited (if_else _ fails (ap (λ t. some (answer t, out, d3)) logged)),
        slave.write_log d2 i2c_mcs mcs_stop
            ∙ ap (λ t. t ++ ((i2c_mcs, mcs_stop) ∷ [])) (same ∙ logged),
      )

  -- A combined transfer whose write phase is accepted, and whose read phase is refused at its byte
  -- `j` after the `j` bytes `bs` have come in, by the answers to the register writes up to each, with
  -- more polls than the master is ever busy for, returns the answer to that byte. The buffer has
  -- `bs` at its front and is as it was behind them. The registers have been written as by a transfer
  -- that succeeds up to that byte, then a STOP.
  pub stellaris_write_read-refused :
      (sending : IsSending dev bound answer slave) (addr wlen rlen : ℕ) (bytes out bs more : List ℕ)
      (d : D)
      → 0 < wlen
      → wlen ≤ length bytes
      → length bs < rlen
      → rlen ≤ length out
      → sending.supply d ≡ bs ++ more
      → let target = bit_and (addr <<< 1) 0xfe in
        let wrote =
          λ (k : ℕ). slave.log d ++ ((i2c_msa, target) ∷ pointer_writes 0 (take k bytes)) in
        let reads =
          λ (k : ℕ). wrote wlen ++ ((i2c_msa, bit_or target 0x01) ∷ read_writes rlen 0 k) in
        ((k : ℕ) → k < wlen → is_ok (answer (wrote (suc k))) ≡ true)
        → ((k : ℕ) → k < length bs → is_ok (answer (reads (suc k))) ≡ true)
        → is_ok (answer (reads (suc (length bs)))) ≡ false
        → (d' : D) × (stellaris_write_read dev fuel d addr (some bytes) wlen (some out) rlen
            ≡ some (answer (reads (suc (length bs))), some (bs ++ drop (length bs) out), d'))
          × (slave.log d' ≡ reads (suc (length bs)) ++ ((i2c_mcs, mcs_stop) ∷ []))
  unfolding stellaris_write_read
  stellaris_write_read-refused sending addr wlen rlen bytes out bs more d some_out fits some_in room
        supplies wrote_ok reads_ok bad =
      let some_bytes : (wlen == 0) ≡ false = ground arith in
      let some_room : (rlen == 0) ≡ false = ground arith in
      let target = bit_and (addr <<< 1) 0xfe in
      let receive = bit_or target 0x01 in
      let wrote = slave.log d ++ ((i2c_msa, target) ∷ pointer_writes 0 (take wlen bytes)) in
      let (d1, run1, log1, same1) =
        write_phase dev bound answer slave sending fuel enough addr wlen bytes d fits wrote_ok in
      let d1' = dev.write32 d1 i2c_msa receive in
      let reads = λ (k : ℕ). wrote ++ ((i2c_msa, receive) ∷ read_writes rlen 0 k) in
      let from : (k : ℕ) → slave.log d1' ++ read_writes rlen 0 k ≡ reads k = λ k.
        ap (λ t. t ++ read_writes rlen 0 k) log1
        ∙ append_assoc wrote ((i2c_msa, receive) ∷ []) (read_writes rlen 0 k) in
      let (d2, go, log2, _) =
        receive_accepted dev bound answer slave sending fuel enough rlen 0 bs more [] out d1' refl
          (omega arith) (same1 ∙ supplies)
          (λ k lt. ap (λ t. is_ok (answer t)) (from (suc k)) ∙ reads_ok k lt) in
      let last : slave.log d2 ++ ((i2c_mcs, read_command (0 + length bs) rlen) ∷ [])
          ≡ reads (suc (length bs)) =
        ap (λ t. t ++ ((i2c_mcs, read_command (0 + length bs) rlen) ∷ [])) log2
        ∙ (append_assoc (slave.log d1') (read_writes rlen 0 (length bs))
              ((i2c_mcs, read_command (0 + length bs) rlen) ∷ [])
            ∙ (ap (λ t. slave.log d1' ++ t) (sym (read_writes-suc rlen 0 (length bs)))
                ∙ from (suc (length bs)))) in
      let left = rlen - length bs - 1 in
      let (d3, run3, log3) =
        receive_refused rlen left (0 + length bs) (bs ++ drop (length bs) out) d2
          (ap (λ t. is_ok (answer t)) last ∙ bad) in
      let rounds : rlen ≡ length bs + suc left = omega arith in
      let run2 : receive_loop dev fuel rlen rlen 0 out d1'
          ≡ some (answer (reads (suc (length bs))), bs ++ drop (length bs) out, d3) =
        ap (λ (l : ℕ). receive_loop dev fuel rlen l 0 out d1') rounds
        ∙ (go (suc left)
            ∙ (run3 ∙ ap (λ t. some (answer t, bs ++ drop (length bs) out, d3)) last)) in
      (
        d3,
        rw (some_bytes, some_room) (bind_some _ run1 (bind_some _ run2 refl)),
        log3 ∙ ap (λ t. t ++ ((i2c_mcs, mcs_stop) ∷ [])) last,
      )
