-- ===== src/Firmware/Stellaris/Combined.antt =====
-- A combined transfer: a write, a repeated START, and a read.
use sharak.Prelude.{
  ◌*◌, ap₂, ℕ, zero, suc, ◌+◌, ◌/◌, ◌%◌, ◌^◌, ◌≤◌, ◌<◌, ◌≡◌, refl, ap, sym, ◌∙◌, arith, List, [],
  ◌∷◌, ◌++◌, append_assoc, append-nil, some, bind_some, store, store-append, length, length-append,
  drop, take, false, bit_and, bit_or, ◌<<<◌, ◌==◌, u8, ℤ, true, if_then,
}
use sharak.Prelude.Bits.{bit_and_field}
use sharak.Firmware.Bus.{i2c_ok, is_ok}
use sharak.Firmware.Device.{Device}
use sharak.Firmware.Stellaris.{
  i2c_msa, i2c_mcs, i2c_mdr, pointer_command, read_command, pointer_loop, receive_loop,
  stellaris_write_read,
}
use sharak.Firmware.Stellaris.Master.{IsAnswering, i2c_wait-answered}
use sharak.Firmware.Stellaris.Bytes.{command_writes, IsByteLoop, loop_accepted}
use sharak.Firmware.Stellaris.Wire.{IsAcknowledged, acknowledging}

-- What a slave has still to send: a read of the data register takes the next byte, in the low
-- byte of the word; nothing else takes any.
pub record IsSending {D : Type 0} (dev : Device D) (bound : ℕ) (answer : List (ℕ × ℕ) → ℤ)
    (slave : IsAnswering dev bound answer) : Type 0 where
  pub supply : D → List ℕ
  pub poll_supply : (d : D) → supply (dev.read32 d i2c_mcs).1 ≡ supply d
  pub write_supply : (d : D) (reg v : ℕ) → supply (dev.write32 d reg v) ≡ supply d
  pub read_byte :
      (d : D) (b : ℕ) (bs : List ℕ) → supply d ≡ b ∷ bs → (dev.read32 d i2c_mdr).0 % 2 ^ 8 ≡ b
  pub read_supply :
      (d : D) (b : ℕ) (bs : List ℕ) → supply d ≡ b ∷ bs → supply (dev.read32 d i2c_mdr).1 ≡ bs
  pub read_log : (d : D) → slave.log (dev.read32 d i2c_mdr).1 ≡ slave.log d

-- The register writes of the write phase from index `i` on, and those of the read phase, of
-- `left` bytes from index `i` on, of `len` in all.
abbrev pub pointer_writes : ℕ → List ℕ → List (ℕ × ℕ)
pointer_writes i bs = command_writes pointer_command i bs

abbrev pub read_writes : ℕ → ℕ → ℕ → List (ℕ × ℕ)
read_writes len i zero = []
read_writes len i (suc left) = (i2c_mcs, read_command i len) ∷ read_writes len (i + 1) left

low_byte : (w : ℕ) → u8 (bit_and w 0xff) ≡ w % 2 ^ 8
low_byte w =
    let field = bit_and_field 8 (w / 2 ^ 8) (w % 2 ^ 8) (omega arith) in
    let whole : w / 2 ^ 8 * 2 ^ 8 + w % 2 ^ 8 ≡ w = omega arith in
    let low : bit_and w 0xff ≡ w % 2 ^ 8 = ap (λ t. bit_and t 0xff) (sym whole) ∙ field in
    ap u8 low ∙ omega arith

pub pointer_loop-IsByteLoop :
    {D : Type 0} (dev : Device D) (fuel : ℕ) (bytes : List ℕ)
    → IsByteLoop dev fuel bytes pointer_command (pointer_loop dev fuel bytes)
unfolding pointer_loop
pointer_loop-IsByteLoop dev fuel bytes = record { over = λ i d. refl; more = λ left i d. refl }

module _ {D : Type 0} (dev : Device D) (bound : ℕ) (answer : List (ℕ × ℕ) → ℤ)
    (slave : IsAnswering dev bound answer) (sending : IsSending dev bound answer slave) (fuel : ℕ)
    (enough : bound < fuel) where
  -- A byte that is accepted is stored at index `i`, and the loop goes on.
  receive_one :
      (len i b r : ℕ) (more done rest : List ℕ) (d : D)
      → i ≡ length done
      → sending.supply d ≡ b ∷ more
      → is_ok (answer (slave.log d ++ ((i2c_mcs, read_command i len) ∷ []))) ≡ true
      → (d' : D) × ((left : ℕ)
          → receive_loop dev fuel len (suc left) i (done ++ (r ∷ rest)) d
            ≡ receive_loop dev fuel len left (i + 1) ((done ++ (b ∷ [])) ++ rest) d')
        × (slave.log d' ≡ slave.log d ++ ((i2c_mcs, read_command i len) ∷ []))
        × (sending.supply d' ≡ more)
  unfolding receive_loop
  receive_one len i b r more done rest d at supplies good =
      let cmd = read_command i len in
      let d1 = dev.write32 d i2c_mcs cmd in
      let (d2, waited, same, supply2) =
        i2c_wait-answered dev bound answer slave sending.supply sending.poll_supply fuel d1
          (slave.write_busy d i2c_mcs cmd) enough in
      let logged = slave.write_log d i2c_mcs cmd in
      let works : is_ok (answer (slave.log d1)) ≡ true = ap (λ t. is_ok (answer t)) logged ∙ good in
      let ready : sending.supply d2 ≡ b ∷ more =
        supply2 ∙ (sending.write_supply d i2c_mcs cmd ∙ supplies) in
      let (word, d3) = dev.read32 d2 i2c_mdr in
      let byte : u8 (bit_and word 0xff) ≡ b = low_byte word ∙ sending.read_byte d2 b more ready in
      let stored : store (done ++ (r ∷ rest)) i (u8 (bit_and word 0xff))
          ≡ some ((done ++ (b ∷ [])) ++ rest) =
        ap₂ (λ k v. store (done ++ (r ∷ rest)) k v) at byte
        ∙ (store-append done r rest b ∙ ap some (sym (append_assoc done (b ∷ []) rest))) in
      (
        d3,
        λ left. bind_some _ waited (if_then _ works (bind_some _ stored refl)),
        sending.read_log d2 ∙ (same ∙ logged),
        sending.read_supply d2 b more ready,
      )

  pub receive_accepted :
      (len i : ℕ) (bs more done rest : List ℕ) (d : D)
      → i ≡ length done
      → length bs ≤ length rest
      → sending.supply d ≡ bs ++ more
      → ((k : ℕ) → k < length bs → is_ok (answer (slave.log d ++ read_writes len i (suc k))) ≡ true)
      → (d' : D) × ((left : ℕ)
          → receive_loop dev fuel len (length bs + left) i (done ++ rest) d
            ≡ receive_loop dev fuel len left
                (i + length bs)
                (done ++ (bs ++ drop (length bs) rest))
                d')
        × (slave.log d' ≡ slave.log d ++ read_writes len i (length bs))
        × (sending.supply d' ≡ more)
  receive_accepted len i [] more done rest d at fits supplies good =
      let no_index : i ≡ i + 0 = omega arith in
      (
        d,
        λ left.
            let same_left : 0 + left ≡ left = omega arith in
            ap₂ (λ (l k : ℕ). receive_loop dev fuel len l k (done ++ rest) d) same_left no_index,
        sym (append-nil (slave.log d)),
        supplies,
      )
  receive_accepted len i (b ∷ bs) more done [] d at fits supplies good = absurd (omega arith)
  receive_accepted len i (b ∷ bs) more done (r ∷ rest) d at fits supplies good =
      let (d1, one, logged, supply1) =
        receive_one len i b r (bs ++ more) done rest d at supplies (good 0 (omega arith)) in
      let further : (k : ℕ)
          → slave.log d1 ++ read_writes len (i + 1) k ≡ slave.log d ++ read_writes len i (suc k) =
        λ k.
          ap (λ t. t ++ read_writes len (i + 1) k) logged
          ∙ append_assoc (slave.log d) ((i2c_mcs, read_command i len) ∷ [])
              (read_writes len (i + 1) k) in
      let (d', run, logged', left_over) =
        receive_accepted len (i + 1) bs more (done ++ (b ∷ [])) rest d1
          (omega (arith, length-append done (b ∷ []), at)) (omega arith) supply1
          (λ k lt. ap (λ t. is_ok (answer t)) (further (suc k)) ∙ good (suc k) (omega arith)) in
      (
        d',
        λ left.
            let rounds : suc (length bs) + left ≡ suc (length bs + left) = omega arith in
            let index : i + 1 + length bs ≡ i + suc (length bs) = omega arith in
            ap (λ (l : ℕ). receive_loop dev fuel len l i (done ++ (r ∷ rest)) d) rounds
            ∙ (one (length bs + left)
                ∙ (run left
                    ∙ ap₂ (λ (k : ℕ) (t : List ℕ). receive_loop dev fuel len left k t d') index
                        (append_assoc done (b ∷ []) (bs ++ drop (length bs) rest)))),
        logged' ∙ further (length bs),
        left_over,
      )

  -- The write phase, all of it accepted, and the address of the read phase.
  pub write_phase :
      (addr wlen : ℕ) (bytes : List ℕ) (d : D)
      → wlen ≤ length bytes
      → let target = bit_and (addr <<< 1) 0xfe in
        let wrote =
          λ (k : ℕ). slave.log d ++ ((i2c_msa, target) ∷ pointer_writes 0 (take k bytes)) in
        ((k : ℕ) → k < wlen → is_ok (answer (wrote (suc k))) ≡ true)
        → (d1 : D) × (pointer_loop dev fuel bytes wlen 0 (dev.write32 d i2c_msa target)
            ≡ some (i2c_ok, d1))
          × (slave.log (dev.write32 d1 i2c_msa (bit_or target 0x01))
              ≡ wrote wlen ++ ((i2c_msa, bit_or target 0x01) ∷ []))
          × (sending.supply (dev.write32 d1 i2c_msa (bit_or target 0x01)) ≡ sending.supply d)
  write_phase addr wlen bytes d fits good =
      let target = bit_and (addr <<< 1) 0xfe in
      let receive = bit_or target 0x01 in
      let d0 = dev.write32 d i2c_msa target in
      let wrote = λ (k : ℕ). slave.log d ++ ((i2c_msa, target) ∷ pointer_writes 0 (take k bytes)) in
      let from : (k : ℕ) → slave.log d0 ++ pointer_writes 0 (take k bytes) ≡ wrote k = λ k.
        ap (λ t. t ++ pointer_writes 0 (take k bytes)) (slave.write_log d i2c_msa target)
        ∙ append_assoc (slave.log d) ((i2c_msa, target) ∷ []) (pointer_writes 0 (take k bytes)) in
      let (d1, run, logged, same) =
        loop_accepted dev bound answer slave fuel enough bytes pointer_command
          (pointer_loop dev fuel bytes) (pointer_loop-IsByteLoop dev fuel bytes) sending.supply
          sending.poll_supply sending.write_supply wlen 0 d0 (omega arith)
          (λ k lt. ap (λ t. is_ok (answer t)) (from (suc k)) ∙ good k lt) in
      (
        d1,
        run,
        slave.write_log d1 i2c_msa receive
            ∙ ap (λ t. t ++ ((i2c_msa, receive) ∷ [])) (logged ∙ from wlen),
        sending.write_supply d1 i2c_msa receive ∙ (same ∙ sending.write_supply d i2c_msa target),
      )

module _ {D : Type 0} (dev : Device D) (bound : ℕ) (slave : IsAcknowledged dev bound)
    (sending : IsSending dev bound (λ log. i2c_ok) (acknowledging slave)) where
  -- On a slave that acknowledges everything and has the bytes `bs` to send next, with more polls than
  -- the master is ever busy for, a combined transfer of at least one byte each way returns I2C_OK and
  -- puts `bs` at the front of the buffer. The registers have been written exactly so: the shifted
  -- address, each byte of the write with its command, the address with the receive bit, and the
  -- commands of the bytes that are read.
  pub stellaris_write_read-acknowledged :
      (fuel addr wlen : ℕ) (bytes out bs more : List ℕ) (d : D)
      → 0 < wlen
      → wlen ≤ length bytes
      → 0 < length bs
      → length bs ≤ length out
      → sending.supply d ≡ bs ++ more
      → bound < fuel
      → (d' : D) × (stellaris_write_read dev fuel d addr (some bytes) wlen (some out) (length bs)
          ≡ some (i2c_ok, some (bs ++ drop (length bs) out), d'))
        × (slave.log d'
            ≡ (slave.log d
                ++ ((i2c_msa, bit_and (addr <<< 1) 0xfe) ∷ pointer_writes 0 (take wlen bytes)))
              ++ ((i2c_msa, bit_or (bit_and (addr <<< 1) 0xfe) 0x01)
                  ∷ read_writes (length bs) 0 (length bs)))
        × (sending.supply d' ≡ more)
  unfolding stellaris_write_read
  stellaris_write_read-acknowledged fuel addr wlen bytes out bs more d some_out fits some_in room
        supplies h =
      let some_bytes : (wlen == 0) ≡ false = ground arith in
      let some_room : (length bs == 0) ≡ false = ground arith in
      let target = bit_and (addr <<< 1) 0xfe in
      let receive = bit_or target 0x01 in
      let (d1, run1, log1, same1) =
        write_phase dev bound (λ log. i2c_ok) (acknowledging slave) sending fuel h addr wlen bytes d
          fits (λ k lt. refl) in
      let d1' = dev.write32 d1 i2c_msa receive in
      let (d2, go, log2, left) =
        receive_accepted dev bound (λ log. i2c_ok) (acknowledging slave) sending fuel h (length bs)
          0 bs more [] out d1' refl room (same1 ∙ supplies) (λ k lt. refl) in
      let rounds : length bs ≡ length bs + 0 = omega arith in
      let run2 : receive_loop dev fuel (length bs) (length bs) 0 out d1'
          ≡ some (i2c_ok, bs ++ drop (length bs) out, d2) =
        ap (λ (l : ℕ). receive_loop dev fuel (length bs) l 0 out d1') rounds ∙ go 0 in
      let wrote = slave.log d ++ ((i2c_msa, target) ∷ pointer_writes 0 (take wlen bytes)) in
      (
        d2,
        rw (some_bytes, some_room) (bind_some _ run1 (bind_some _ run2 refl)),
        log2
            ∙ (ap (λ t. t ++ read_writes (length bs) 0 (length bs)) log1
                ∙ append_assoc wrote ((i2c_msa, receive) ∷ [])
                    (read_writes (length bs) 0 (length bs))),
        left,
      )
