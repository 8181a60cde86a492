-- ===== src/Firmware/Node/Station.antt =====
-- From the simulated chip to the station: what a receiver of the node's line reads.
use sharak.Prelude.{
  ℕ, zero, suc, ◌+◌, ◌%◌, ◌^◌, ◌≤◌, ◌<◌, ◌≡◌, refl, ap, sym, ◌∙◌, arith, List, [], ◌∷◌, ◌++◌, ℤ,
  pos, negsuc, some, Ptr, length, map, map-append, All, All-append, IsI16, IsI32, load_in, value_or,
}
use mathlib.Core.Path.{subst}
use sharak.Protocol.Wire.{payload_max, frame_inner}
use sharak.Protocol.Payload.Values.{Values, InRange, message_of, unpack_all, unpack_all-message_of}
use sharak.Protocol.Decoder.{Decoder, sk_decoder_init}
use sharak.Protocol.Decoder.Feed.{feed_all}
use sharak.Protocol.Decoder.Received.{received}
use sharak.Firmware.Device.{Device}
use sharak.Firmware.Sim.{Sim, nregs, wobble}
use sharak.Firmware.Sim.Sample.{wobble-IsI16}
use sharak.Firmware.Adxl345.{to_mg}
use sharak.Firmware.Adxl345.Decode.{abs, to_mg-IsScaled}
use sharak.Firmware.Uart.Transmit.{IsTransmitter}
use sharak.Firmware.Uart.Text.{IsQuiet}
use sharak.Firmware.Node.{Node, next}
use sharak.Firmware.Node.Sending.{HasBuffers}
use sharak.Firmware.Node.Runs.{Initial, Runs, message_at, messages, wobble_at}
use sharak.Firmware.Node.Stream.{Runs-received}

-- What the node measures in round `k`: the chip's vibration at the phase `k`, in milli-g.
unfoldable pub reading_at : ℕ → Values
reading_at k = record {
  seq = k % 2 ^ 16;
  x_mg = to_mg (wobble_at k);
  y_mg = to_mg (wobble_at (k + 4));
  z_mg = pos 1000;
}

unfoldable pub readings : ℕ → List Values
readings zero = []
readings (suc k) = readings k ++ (reading_at k ∷ [])

abs-IsI32 : (z : ℤ) → abs z ≤ 128000 → IsI32 z
abs-IsI32 (pos n) h = omega arith
abs-IsI32 (negsuc n) h = omega arith

wobble_at-IsI32 : (k : ℕ) → IsI32 (to_mg (wobble_at k))
wobble_at-IsI32 k =
    let (x, at_x, small) = load_in IsI16 wobble (k % 16) wobble-IsI16 (omega arith) in
    let same : x ≡ wobble_at k = sym (ap (value_or (pos 0)) at_x) in
    abs-IsI32 (to_mg (wobble_at k)) ((to_mg-IsScaled (wobble_at k) (subst IsI16 same small)).1)

readings-InRange : (k : ℕ) → All InRange (readings k)
unfolding readings reading_at
readings-InRange zero = tt
readings-InRange (suc k) =
    All-append InRange (readings k) (reading_at k ∷ []) (readings-InRange k)
      ((omega arith, wobble_at-IsI32 k, wobble_at-IsI32 (k + 4), omega arith), tt)

messages-readings : (k : ℕ) → messages k ≡ map message_of (readings k)
unfolding messages message_at readings reading_at
messages-readings zero = refl
messages-readings (suc k) =
    ap (λ t. t ++ (message_at k ∷ [])) (messages-readings k)
    ∙ sym (map-append message_of (readings k) (reading_at k ∷ []))

module _ {D : Type 0} (dev : Device D) (bound fuel : ℕ) (line : IsTransmitter dev bound) where
  -- From the chip to the station. Whatever the node's memory held at the reset: a decoder that
  -- `sk_decoder_init` has set up, whatever it held, and that is fed all that the line has carried up
  -- to the end of any number `k` of rounds, makes no access out of range, and what it hands over is
  -- unpacked, each with the return value 0, to the readings of the `k` rounds, in order, each once:
  -- the sequence number `i` modulo 2^16, and the vibration of the simulated chip at the phase `i` in
  -- milli-g.
  pub Runs-readings :
      (i : Initial D) (k : ℕ) (n : Node (Ptr Sim) D) (st : Decoder) (out : List ℕ) (cap : ℕ)
      → bound < fuel
      → IsQuiet dev bound line
      → length i.sim.regs ≡ nregs
      → HasBuffers i.node
      → line.busy i.node.device ≤ bound
      → line.sent i.node.device ≡ []
      → Runs dev fuel i k (next n)
      → length st.buf ≡ frame_inner
      → payload_max ≤ cap
      → cap ≤ length out
      → (fresh : Decoder) × (st' : Decoder) × (rs : List (ℤ × Ptr (List ℕ))) × (sk_decoder_init
            (some st)
          ≡ some fresh)
        × (feed_all (some fresh) (line.sent n.device) (some out) cap ≡ some (rs, some st'))
        × (unpack_all (received rs) ≡ some (map (λ v. (pos 0, v)) (readings k)))
  Runs-readings i k n st out cap enough quiet regs buffers drains empty runs acc room len =
      let (fresh, st', rs, init, fed, got) =
        Runs-received dev bound fuel line i k n st out cap enough quiet regs buffers drains empty
          runs acc room len in
      (
        fresh,
        st',
        rs,
        init,
        fed,
        ap unpack_all (got ∙ messages-readings k)
            ∙ unpack_all-message_of (readings k) (readings-InRange k),
      )
