-- ===== src/Firmware/Stellaris/Phases.antt =====
-- A combined transfer on the wire, in the numbers that the data sheet gives the bits of the command
-- register: RUN is 1, START 2, STOP 4 and ACK 8.
use sharak.Prelude.{
  ◌-◌, ℕ, zero, suc, ◌+◌, ◌≤◌, ◌<◌, ◌≡◌, refl, ap, ap₂, ◌∙◌, arith, List, [], ◌∷◌, ◌++◌, some,
  length, drop, take, bit_and, bit_or, ◌<<<◌, append_assoc, ◌==◌, false, true,
}
use sharak.Firmware.Bus.{i2c_ok}
use sharak.Firmware.Device.{Device}
use sharak.Firmware.Stellaris.{
  i2c_msa, i2c_mcs, i2c_mdr, with_bit, pointer_command, read_command, stellaris_write_read,
}
use sharak.Firmware.Stellaris.Wire.{IsAcknowledged, acknowledging}
use sharak.Firmware.Stellaris.Combined.{
  IsSending, pointer_writes, read_writes, stellaris_write_read-acknowledged,
}

-- The bytes that are sent: START goes with the first of them only, and STOP with none.
abbrev pub sent_further : List ℕ → List (ℕ × ℕ)
sent_further [] = []
sent_further (b ∷ bs) = (i2c_mdr, b) ∷ (i2c_mcs, 1) ∷ sent_further bs

abbrev pub sent_phase : List ℕ → List (ℕ × ℕ)
sent_phase [] = []
sent_phase (b ∷ bs) = (i2c_mdr, b) ∷ (i2c_mcs, 3) ∷ sent_further bs

-- The `n` bytes that are read: START goes with the first of them, ACK with all but the last, and
-- STOP with the last. A single byte is the first and the last.
abbrev pub read_further : ℕ → List (ℕ × ℕ)
read_further zero = (i2c_mcs, 5) ∷ []
read_further (suc n) = (i2c_mcs, 9) ∷ read_further n

abbrev pub read_phase : ℕ → List (ℕ × ℕ)
read_phase zero = []
read_phase (suc zero) = (i2c_mcs, 7) ∷ []
read_phase (suc (suc n)) = (i2c_mcs, 11) ∷ read_further n

-- The register writes of a whole transfer.
abbrev pub transfer : ℕ → List ℕ → ℕ → List (ℕ × ℕ)
transfer addr sent n =
    ((i2c_msa, bit_and (addr <<< 1) 0xfe) ∷ sent_phase sent)
    ++ ((i2c_msa, bit_or (bit_and (addr <<< 1) 0xfe) 0x01) ∷ read_phase n)

pointer_command_further : (i : ℕ) → 0 < i → pointer_command i ≡ 1
unfolding pointer_command with_bit
pointer_command_further i h = let later : (i == 0) ≡ false = ground arith in rw later refl

pointer_writes_further : (bs : List ℕ) (i : ℕ) → 0 < i → pointer_writes i bs ≡ sent_further bs
pointer_writes_further [] i h = refl
pointer_writes_further (b ∷ bs) i h =
    ap₂ (λ (c : ℕ) (t : List (ℕ × ℕ)). (i2c_mdr, b) ∷ (i2c_mcs, c) ∷ t)
      (pointer_command_further i h) (pointer_writes_further bs (i + 1) (omega arith))

pointer_writes-sent_phase : (bs : List ℕ) → pointer_writes 0 bs ≡ sent_phase bs
unfolding pointer_command with_bit
pointer_writes-sent_phase [] = refl
pointer_writes-sent_phase (b ∷ bs) =
    ap (λ (t : List (ℕ × ℕ)). (i2c_mdr, b) ∷ (i2c_mcs, 3) ∷ t)
      (pointer_writes_further bs 1 (omega arith))

read_command_last : (i len : ℕ) → 0 < i → len ≡ i + 1 → read_command i len ≡ 5
unfolding read_command with_bit
read_command_last i len h e =
    let later : (i == 0) ≡ false = ground arith in
    let last : (i == len - 1) ≡ true = ground arith in rw (later, last) refl

read_command_middle : (i len : ℕ) → 0 < i → i + 1 < len → read_command i len ≡ 9
unfolding read_command with_bit
read_command_middle i len h lt =
    let later : (i == 0) ≡ false = ground arith in
    let inside : (i == len - 1) ≡ false = ground arith in rw (later, inside) refl

read_command_first : (len : ℕ) → 1 < len → read_command 0 len ≡ 11
unfolding read_command with_bit
read_command_first len lt = let inside : (◌==◌ 0 (len - 1)) ≡ false = ground arith in rw inside refl

read_writes_further :
    (n len i : ℕ) → 0 < i → len ≡ i + suc n → read_writes len i (suc n) ≡ read_further n
read_writes_further zero len i h e =
    ap (λ (c : ℕ). (i2c_mcs, c) ∷ []) (read_command_last i len h (omega arith))
read_writes_further (suc n) len i h e =
    ap₂ (λ (c : ℕ) (t : List (ℕ × ℕ)). (i2c_mcs, c) ∷ t) (read_command_middle i len h (omega arith))
      (read_writes_further n len (i + 1) (omega arith) (omega arith))

read_writes-read_phase : (n : ℕ) → read_writes n 0 n ≡ read_phase n
unfolding read_command with_bit
read_writes-read_phase zero = refl
read_writes-read_phase (suc zero) = refl
read_writes-read_phase (suc (suc n)) =
    ap₂ (λ (c : ℕ) (t : List (ℕ × ℕ)). (i2c_mcs, c) ∷ t)
      (read_command_first (suc (suc n)) (omega arith))
      (read_writes_further n (suc (suc n)) 1 (omega arith) (omega arith))

module _ {D : Type 0} (dev : Device D) (bound : ℕ) (slave : IsAcknowledged dev bound)
    (sending : IsSending dev bound (λ log. i2c_ok) (acknowledging slave)) where
  -- On a slave that acknowledges everything and has the bytes `bs` to send next, with more polls than
  -- the master is ever busy for, a combined transfer of at least one byte each way returns I2C_OK and
  -- puts `bs` at the front of the buffer. The registers have been written exactly so: the address for
  -- transmission; each byte of the write, the first with START and RUN (3), the others with RUN (1),
  -- and no STOP; the address for reception; then a command for each byte that is read: START, RUN and
  -- ACK (11) for the first, RUN and ACK (9) for the others, RUN and STOP (5) for the last, and START,
  -- RUN and STOP (7) for a single byte.
  pub stellaris_write_read-transfer :
      (fuel addr wlen : ℕ) (bytes out bs more : List ℕ) (d : D)
      → 0 < wlen
      → wlen ≤ length bytes
      → 0 < length bs
      → length bs ≤ length out
      → sending.supply d ≡ bs ++ more
      → bound < fuel
      → (d' : D) × (stellaris_write_read dev fuel d addr (some bytes) wlen (some out) (length bs)
          ≡ some (i2c_ok, some (bs ++ drop (length bs) out), d'))
        × (slave.log d' ≡ slave.log d ++ transfer addr (take wlen bytes) (length bs))
        × (sending.supply d' ≡ more)
  stellaris_write_read-transfer fuel addr wlen bytes out bs more d some_out fits some_in room
        supplies h =
      let (d', run, logged, left) =
        stellaris_write_read-acknowledged dev bound slave sending fuel addr wlen bytes out bs more d
          some_out fits some_in room supplies h in
      let target = bit_and (addr <<< 1) 0xfe in
      let whole = λ (w r : List (ℕ × ℕ)).
        (slave.log d ++ ((i2c_msa, target) ∷ w)) ++ ((i2c_msa, bit_or target 0x01) ∷ r) in
      (
        d',
        run,
        logged
            ∙ (ap₂ whole (pointer_writes-sent_phase (take wlen bytes))
                  (read_writes-read_phase (length bs))
                ∙ append_assoc (slave.log d) ((i2c_msa, target) ∷ sent_phase (take wlen bytes))
                    ((i2c_msa, bit_or target 0x01) ∷ read_phase (length bs))),
        left,
      )
