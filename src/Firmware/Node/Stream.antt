-- ===== src/Firmware/Node/Stream.antt =====
-- What a station at the other end of the line receives of the node's life.
use sharak.Prelude.{
  ℕ, zero, suc, ◌+◌, ◌%◌, ◌^◌, ◌≤◌, ◌<◌, ◌≡◌, refl, ap, ◌∙◌, arith, List, [], ◌∷◌, ◌++◌, ℤ, pos,
  some, Ptr, All, All-append, IsU8, length,
}
use sharak.Protocol.Wire.{payload_max, frame_inner}
use sharak.Protocol.Payload.Whole.{length-accel_message, accel_message-IsU8}
use sharak.Protocol.Decoder.{Decoder, sk_decoder_init}
use sharak.Protocol.Decoder.Machine.{hunting, event, step, events, after}
use sharak.Protocol.Decoder.Refine.{init-Simulates}
use sharak.Protocol.Decoder.Stream.{IsMessage, delivered, delivered-append, events-append, frames}
use sharak.Protocol.Decoder.Resync.{frames-delivered_hunting}
use sharak.Protocol.Decoder.Feed.{feed_all, trace, feed_all_refines}
use sharak.Protocol.Decoder.Received.{received, received-trace, frames-IsU8}
use sharak.Firmware.Sim.{Sim, nregs}
use sharak.Firmware.Adxl345.{to_mg}
use sharak.Firmware.Device.{Device}
use sharak.Firmware.Uart.Transmit.{IsTransmitter}
use sharak.Firmware.Uart.Text.{IsQuiet}
use sharak.Firmware.Node.{Node, next}
use sharak.Firmware.Node.Sending.{HasBuffers}
use sharak.Firmware.Node.Start.{banner}
use sharak.Firmware.Node.Runs.{
  Initial, Runs, message_at, messages, wobble_at, Runs-IsRunning, next-injective,
}

-- The banner has no flag: it leaves the machine where it was and delivers nothing.
banner-delivered : (delivered (events hunting banner) ≡ []) × (after hunting banner ≡ hunting)
unfolding delivered events after event step
banner-delivered = (refl, refl)

banner-IsU8 : All IsU8 banner
banner-IsU8 = ground arith

messages-IsMessage : (k : ℕ) → All IsMessage (messages k)
unfolding messages message_at
messages-IsMessage zero = tt
messages-IsMessage (suc k) =
    All-append IsMessage (messages k) (message_at k ∷ []) (messages-IsMessage k) (
      (
        omega (
          arith,
          length-accel_message (k % 2 ^ 16) (to_mg (wobble_at k)) (to_mg (wobble_at (k + 4)))
              (pos 1000),
        ),
        omega (
          arith,
          length-accel_message (k % 2 ^ 16) (to_mg (wobble_at k)) (to_mg (wobble_at (k + 4)))
              (pos 1000),
        ),
      ),
      tt,
    )

messages-IsU8 : (k : ℕ) → All (All IsU8) (messages k)
unfolding messages message_at
messages-IsU8 zero = tt
messages-IsU8 (suc k) = All-append (All IsU8) (messages k) (message_at k ∷ []) (messages-IsU8 k) (
  accel_message-IsU8 (k % 2 ^ 16) (to_mg (wobble_at k)) (to_mg (wobble_at (k + 4))) (pos 1000),
  tt,
)

-- The bytes of a node's life deliver its messages.
life-delivered : (k : ℕ) → delivered (events hunting (banner ++ frames (messages k))) ≡ messages k
life-delivered k =
    let (none_yet, still) = banner-delivered in
    ap delivered (events-append hunting banner (frames (messages k)))
    ∙ (delivered-append (events hunting banner)
          (events (after hunting banner) (frames (messages k)))
        ∙ rw (none_yet, still) (frames-delivered_hunting (messages k) (messages-IsMessage k)))

module _ {D : Type 0} (dev : Device D) (bound fuel : ℕ) (line : IsTransmitter dev bound) where
  -- From the reset of the node to the station: a decoder that `sk_decoder_init` has set up, whatever
  -- it held, and that is fed all that the line has carried since the start of a node, up to the end
  -- of any number `k` of rounds, makes no access out of range and hands over exactly the messages of
  -- the `k` rounds, in order, each once.
  pub Runs-received :
      (i : Initial D) (k : ℕ) (n : Node (Ptr Sim) D) (st : Decoder) (out : List ℕ) (cap : ℕ)
      → bound < fuel
      → IsQuiet dev bound line
      → length i.sim.regs ≡ nregs
      → HasBuffers i.node
      → line.busy i.node.device ≤ bound
      → line.sent i.node.device ≡ []
      → Runs dev fuel i k (next n)
      → length st.buf ≡ frame_inner
      → payload_max ≤ cap
      → cap ≤ length out
      → (fresh : Decoder) × (st' : Decoder) × (rs : List (ℤ × Ptr (List ℕ))) × (sk_decoder_init
            (some st)
          ≡ some fresh)
        × (feed_all (some fresh) (line.sent n.device) (some out) cap ≡ some (rs, some st'))
        × (received rs ≡ messages k)
  Runs-received i k n st out cap enough quiet regs buffers drains empty runs acc room len =
      let (m, same, v) =
        Runs-IsRunning dev bound fuel line enough i quiet regs buffers drains k (next n) runs in
      let (fresh, init, sim) = init-Simulates st acc in
      let life = banner ++ frames (messages k) in
      let bytes =
        All-append IsU8 banner (frames (messages k)) banner-IsU8
          (frames-IsU8 (messages k) (messages-IsU8 k)) in
      let (st', run, _) = feed_all_refines fresh hunting life out cap sim bytes room len in
      let carried : line.sent n.device ≡ life =
        ap (λ t. line.sent t.device) (next-injective n m same)
        ∙ (v.sent ∙ ap (λ t. (t ++ banner) ++ frames (messages k)) empty) in
      (
        fresh,
        st',
        trace (events hunting life) out,
        init,
        ap (λ t. feed_all (some fresh) t (some out) cap) carried ∙ run,
        received-trace hunting life out tt bytes ∙ life-delivered k,
      )
