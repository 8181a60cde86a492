-- ===== src/Firmware/Node/Sending.antt =====
-- What a round of the main loop sends.
use mathlib.Core.Path.{subst}
use sharak.Prelude.{
  length-drop, ℕ, ◌+◌, ◌%◌, ◌^◌, ◌≤◌, ◌<◌, ◌≡◌, refl, ap, sym, ◌∙◌, arith, List, ◌++◌, ℤ, pos, some,
  bind_some, Ptr, load, All, All-append_iff, IsU8, length, take, drop, take-append-drop,
  take-append_self, u16, u32, length-append, All-append,
}
use sharak.Protocol.Wire.{payload_len, frame_max}
use sharak.Protocol.Payload.Pack.{accel_message}
use sharak.Protocol.Payload.Whole.{length-accel_message, accel_message-IsU8, sk_payload_pack_whole}
use sharak.Protocol.Frame.{sk_frame_encode}
use sharak.Protocol.Frame.Stuff.{frame, frame-IsU8}
use sharak.Protocol.Frame.Encode.{frame_bounds}
use sharak.Protocol.Frame.Whole.{sk_frame_encode_whole}
use sharak.Firmware.Bus.{Bus}
use sharak.Firmware.Sim.{Sim, wobble}
use sharak.Firmware.Sim.Burst.{IsMeasuring, sampled}
use sharak.Firmware.Adxl345.{Accel, to_mg, adxl345_read}
use sharak.Firmware.Adxl345.OnSim.{sim_bus, adxl345_read_on_sim}
use sharak.Firmware.Device.{Device}
use sharak.Firmware.Uart.Transmit.{IsTransmitter, uart_write-sent}
use sharak.Firmware.Node.{Node, next, send_frame, send_payload, main_round}

module _ {S : Type 0} {D : Type 0} (bus : Bus S) (dev : Device D) (bound : ℕ)
    (line : IsTransmitter dev bound) where
  send_frame-frame :
      (fuel : ℕ) (msg rest : List ℕ) (d : D)
      → line.busy d ≤ bound
      → bound < fuel
      → All IsU8 msg
      → All IsU8 rest
      → (d' : D) × (send_frame bus dev fuel (pos (length (frame msg))) (frame msg ++ rest) d
          ≡ some d')
        × (line.busy d' ≤ bound)
        × (line.sent d' ≡ line.sent d ++ frame msg)
  unfolding send_frame frame
  send_frame-frame fuel msg rest d h enough hm hr =
      let (d', run, h', sent) =
        uart_write-sent dev bound line fuel (frame msg ++ rest) (length (frame msg)) d
          (omega (arith, length-append (frame msg) rest)) h enough
          (All-append IsU8 (frame msg) rest (frame-IsU8 msg hm) hr) in
      (d', run, h', sent ∙ ap (λ t. line.sent d ++ t) (take-append_self (frame msg) rest))

  send_payload-message :
      (fuel : ℕ) (n : Node S D) (seq : ℕ) (x y z : ℤ)
      → n.payload ≡ accel_message seq x y z
      → length n.frame_buf ≡ frame_max
      → All IsU8 n.frame_buf
      → line.busy n.device ≤ bound
      → bound < fuel
      → (buf : List ℕ) × (d' : D) × (send_payload bus dev fuel (pos 16) n
          ≡ some (record n { frame_buf = buf; device = d' }))
        × (length buf ≡ frame_max)
        × All IsU8 buf
        × (line.busy d' ≤ bound)
        × (line.sent d' ≡ line.sent n.device ++ frame (accel_message seq x y z))
  unfolding send_payload
  send_payload-message fuel n seq x y z at_p size hb h enough =
      let m = accel_message seq x y z in
      let f = frame m in
      let rest = drop (length f) n.frame_buf in
      let short : length f ≤ frame_max =
        (frame_bounds m (omega (arith, length-accel_message seq x y z))
          (omega (arith, length-accel_message seq x y z))).1 in
      let encoded : sk_frame_encode (some n.payload) 16 (some n.frame_buf) frame_max
          ≡ some (pos (length f), some (f ++ rest)) =
        ap (λ t. sk_frame_encode (some t) 16 (some n.frame_buf) frame_max) at_p
        ∙ sk_frame_encode_whole m n.frame_buf (length-accel_message seq x y z) size in
      let clean =
        (All-append_iff IsU8 (take (length f) n.frame_buf) rest
          (subst (All IsU8) (sym (take-append-drop (length f) n.frame_buf)) hb)).1 in
      let (d', run, h', sent) =
        send_frame-frame fuel m rest n.device h enough (accel_message-IsU8 seq x y z) clean in
      let kept : length (f ++ rest) ≡ frame_max =
        omega (arith, length-append f rest, length-drop (length f) n.frame_buf, size) in
      (
        f ++ rest,
        d',
        bind_some _ encoded (bind_some _ run refl),
        kept,
        All-append IsU8 f rest (frame-IsU8 m (accel_message-IsU8 seq x y z)) clean,
        h',
        sent,
      )

-- The static buffers of `main`.
pub record HasBuffers {S : Type 0} {D : Type 0} (n : Node S D) : Type 0 where
  pub payload_size : length n.payload ≡ payload_len
  pub frame_size : length n.frame_buf ≡ frame_max
  pub frame_bytes : All IsU8 n.frame_buf

-- A round of the main loop, as below, which leaves the buffers in their sizes.
pub main_round_lem :
    {D : Type 0} (dev : Device D) (bound fuel : ℕ) (line : IsTransmitter dev bound)
    (n : Node (Ptr Sim) D) (s : Sim) (raw : List ℕ)
    → n.bus_state ≡ some s
    → IsMeasuring s
    → length raw ≡ 6
    → HasBuffers n
    → line.busy n.device ≤ bound
    → bound < fuel
    → (x : ℤ) × (y : ℤ) × (n' : Node (Ptr Sim) D) × (load wobble (s.phase % 16) ≡ some x)
      × (load wobble (u32 (s.phase + 4) % 16) ≡ some y)
      × (main_round sim_bus dev fuel raw n ≡ some (next n'))
      × (n'.bus_state ≡ some (sampled s x y))
      × (n'.seq ≡ (n.seq + 1) % 2 ^ 16)
      × HasBuffers n'
      × (line.busy n'.device ≤ bound)
      × (line.sent n'.device
          ≡ line.sent n.device ++ frame (accel_message n.seq (to_mg x) (to_mg y) (pos 1000)))
unfolding main_round
main_round_lem dev bound fuel line n s raw at_s m six buffers h enough =
    let (x, y, at_x, at_y, read) = adxl345_read_on_sim s raw n.sample m six in
    let sample : Accel = record { x_mg = to_mg x; y_mg = to_mg y; z_mg = pos 1000 } in
    let msg = accel_message n.seq (to_mg x) (to_mg y) (pos 1000) in
    let n1 = record n { bus_state = some (sampled s x y); sample = sample; payload = msg } in
    let packed =
      sk_payload_pack_whole n.payload n.seq (to_mg x) (to_mg y) (pos 1000) buffers.payload_size in
    let (buf, d', sending, kept, bytes, h', sent) =
      send_payload-message sim_bus dev bound line fuel n1 n.seq (to_mg x) (to_mg y) (pos 1000) refl
        buffers.frame_size buffers.frame_bytes h enough in
    let n2 = record n1 { frame_buf = buf; device = d'; seq = u16 (n.seq + 1) } in
    let reading = ap (λ t. adxl345_read (some sim_bus) raw (some n.sample) t) at_s ∙ read in
    (
      x,
      y,
      n2,
      at_x,
      at_y,
      bind_some _ reading (bind_some _ packed (bind_some _ sending refl)),
      refl,
      refl,
      record {
        payload_size = length-accel_message n.seq (to_mg x) (to_mg y) (pos 1000);
        frame_size = kept;
        frame_bytes = bytes;
      },
      h',
      sent,
    )

-- On a measuring simulated chip and a line whose FIFO drains within the polls: a round of the main
-- loop goes on with the next one, and the line has carried one more frame, of the message with the
-- round's sequence number and the chip's sample in milli-g; the sequence number goes on by one,
-- modulo 2^16, and the chip's phase by one.
pub main_round-sends :
    {D : Type 0} (dev : Device D) (bound fuel : ℕ) (line : IsTransmitter dev bound)
    (n : Node (Ptr Sim) D) (s : Sim) (raw : List ℕ)
    → n.bus_state ≡ some s
    → IsMeasuring s
    → length raw ≡ 6
    → length n.payload ≡ payload_len
    → length n.frame_buf ≡ frame_max
    → All IsU8 n.frame_buf
    → line.busy n.device ≤ bound
    → bound < fuel
    → (x : ℤ) × (y : ℤ) × (n' : Node (Ptr Sim) D) × (load wobble (s.phase % 16) ≡ some x)
      × (load wobble (u32 (s.phase + 4) % 16) ≡ some y)
      × (main_round sim_bus dev fuel raw n ≡ some (next n'))
      × (n'.bus_state ≡ some (sampled s x y))
      × (n'.seq ≡ (n.seq + 1) % 2 ^ 16)
      × (line.busy n'.device ≤ bound)
      × (line.sent n'.device
          ≡ line.sent n.device ++ frame (accel_message n.seq (to_mg x) (to_mg y) (pos 1000)))
main_round-sends dev bound fuel line n s raw at_s m six size fsize hb h enough =
    let buffers : HasBuffers n = record {
      payload_size = size;
      frame_size = fsize;
      frame_bytes = hb;
    } in
    let (x, y, n', at_x, at_y, run, at_s', at_seq, kept, busy, sent) =
      main_round_lem dev bound fuel line n s raw at_s m six buffers h enough in
    (x, y, n', at_x, at_y, run, at_s', at_seq, busy, sent)
