-- ===== src/Firmware/Node.antt =====
-- `main` of firmware/main.c: what stands in front of its loop, and one round of the loop, over the
-- UART's device and the static variables. The pacing delay has no effect and is left out.
pub mod Sending
pub mod Start
pub mod Runs
pub mod Stream
pub mod Station
mod Tests
use sharak.Prelude.{
  ◌==◌, ℕ, zero, suc, ◌+◌, List, [], ◌∷◌, ℤ, pos, negsuc, Ptr, Run, none, some, ◌>>=◌,
  if◌then◌else◌, u16, take, ltb, Bool, true, false, replicate,
}
use sharak.Firmware.Sim.{i2c_sim_bind, Sim, i2c_sim_init, sim_write, sim_write_read, nregs}
use sharak.Firmware.Bus.{Bus, is_ok}
use sharak.Firmware.Adxl345.{Accel, adxl345_init, adxl345_read}
use sharak.Firmware.Device.{Device}
use sharak.Firmware.Uart.{uart_init, uart_puts, uart_write}
use sharak.Protocol.Wire.{payload_len, frame_max}
use sharak.Protocol.Payload.{sk_payload_pack}
use sharak.Protocol.Frame.{sk_frame_encode}

-- The variables of `main`, with what the bus and the UART hold.
pub record Node (S : Type 0) (D : Type 0) : Type 0 where
  pub bus_state : S
  pub sample : Accel
  pub payload : List ℕ
  pub frame_buf : List ℕ
  pub seq : ℕ
  pub device : D

-- How a round ends: with the next one, or in the endless loop behind a failed read.
pub data Round (S : Type 0) (D : Type 0) : Type 0 where
  next : Node S D → Round S D
  halted : Node S D → Round S D

-- "ERROR: ADXL345 read failed; halting\r\n", with its NUL.
abbrev pub read_failed : List ℕ
read_failed =
    69 ∷ 82 ∷ 82 ∷ 79 ∷ 82 ∷ 58 ∷ 32 ∷ 65 ∷ 68 ∷ 88 ∷ 76 ∷ 51 ∷ 52 ∷ 53 ∷ 32 ∷ 114 ∷ 101 ∷ 97 ∷ 100
    ∷ 32 ∷ 102 ∷ 97 ∷ 105 ∷ 108 ∷ 101 ∷ 100 ∷ 59 ∷ 32 ∷ 104 ∷ 97 ∷ 108 ∷ 116 ∷ 105 ∷ 110 ∷ 103 ∷ 13
    ∷ 10 ∷ 0 ∷ []

-- "Sharak node online\r\n", with its NUL.
abbrev pub online : List ℕ
online =
    83 ∷ 104 ∷ 97 ∷ 114 ∷ 97 ∷ 107 ∷ 32 ∷ 110 ∷ 111 ∷ 100 ∷ 101 ∷ 32 ∷ 111 ∷ 110 ∷ 108 ∷ 105 ∷ 110
    ∷ 101 ∷ 13 ∷ 10 ∷ 0 ∷ []

-- "ERROR: ADXL345 init failed; halting\r\n", with its NUL.
abbrev pub init_failed : List ℕ
init_failed =
    69 ∷ 82 ∷ 82 ∷ 79 ∷ 82 ∷ 58 ∷ 32 ∷ 65 ∷ 68 ∷ 88 ∷ 76 ∷ 51 ∷ 52 ∷ 53 ∷ 32 ∷ 105 ∷ 110 ∷ 105 ∷ 116
    ∷ 32 ∷ 102 ∷ 97 ∷ 105 ∷ 108 ∷ 101 ∷ 100 ∷ 59 ∷ 32 ∷ 104 ∷ 97 ∷ 108 ∷ 116 ∷ 105 ∷ 110 ∷ 103 ∷ 13
    ∷ 10 ∷ 0 ∷ []

module _ {S : Type 0} {D : Type 0} (bus : Bus S) (dev : Device D) (fuel : ℕ) where
  -- `if (flen > 0) uart_write(frame, flen)`
  pub send_frame : ℤ → List ℕ → D → Run D
  unfolding uart_write
  send_frame (pos (suc n)) frame d = uart_write dev fuel frame (suc n) d
  send_frame _ frame d = some d

  -- `if (plen == (int)SK_PAYLOAD_LEN) { ... }`
  pub send_payload : ℤ → Node S D → Run (Node S D)
  unfolding send_frame
  send_payload (negsuc e) n = some n
  send_payload (pos plen) n =
      if plen == payload_len
      then (do
        (flen, out) ← sk_frame_encode (some n.payload) plen (some n.frame_buf) frame_max
        frame ← out
        d ← send_frame flen frame n.device
        some (record n { frame_buf = frame; device = d }))
      else some n

  -- A round of the loop. `raw` holds whatever the stack holds in `adxl345_read`.
  unfoldable pub main_round : List ℕ → Node S D → Run (Round S D)
  unfolding send_payload adxl345_read sk_payload_pack uart_puts
  main_round raw n = do
    (rc, sample, s) ← adxl345_read (some bus) raw (some n.sample) n.bus_state
    a ← sample
    let n1 = record n { bus_state = s; sample = a }
    if is_ok rc
        then (do
          (plen, packed) ← sk_payload_pack (some n1.payload) payload_len n1.seq a.x_mg a.y_mg a.z_mg
          payload ← packed
          n2 ← send_payload plen (record n1 { payload = payload })
          some (next (record n2 { seq = u16 (n2.seq + 1) })))
        else (do
          d ← uart_puts dev fuel read_failed n1.device
          some (halted (record n1 { device = d })))

-- What stands in front of the loop: `sim` and `bus` are the static variables of `main`, and `n` has
-- the others. The bus state is the simulated chip that the bus is bound to.
pub main_start :
    {D : Type 0}
    → Device D
    → (fuel : ℕ) → Ptr (Bus (Ptr Sim))
    → Ptr Sim
    → Node (Ptr Sim) D
    → Run (Round (Ptr Sim) D × Ptr (Bus (Ptr Sim)))
main_start dev fuel bus sim n = do
  d1 ← uart_puts dev fuel online (uart_init dev n.device)
  sim1 ← i2c_sim_init sim
  let bound = i2c_sim_bind bus
  (rc, sim2) ← adxl345_init bound sim1
  let n1 = record n { bus_state = sim2; seq = 0; device = d1 }
  if is_ok rc then some (next n1, bound) else (do
    d2 ← uart_puts dev fuel init_failed n1.device
    some (halted (record n1 { device = d2 }), bound))
