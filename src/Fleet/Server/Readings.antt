-- ===== src/Fleet/Server/Readings.antt =====
-- What a client of the fleet server reads.
use mathlib.Core.Path.{subst}
use sharak.Prelude.{
  ℕ, zero, suc, ◌+◌, ◌%◌, ◌^◌, ◌≤◌, ◌≡◌, refl, ap, sym, ◌∙◌, arith, List, [], ◌∷◌, ◌++◌, ℤ, pos,
  some, Ptr, length, map, map-append, All, All-append, IsI32, load_in, value_or,
}
use sharak.Protocol.Wire.{payload_max, frame_inner}
use sharak.Protocol.Payload.Values.{Values, InRange, message_of, unpack_all, unpack_all-message_of}
use sharak.Protocol.Decoder.{Decoder, sk_decoder_init}
use sharak.Protocol.Decoder.Feed.{feed_all}
use sharak.Protocol.Decoder.Received.{received}
use sharak.Fleet.{wobble}
use sharak.Fleet.Sent.{wobble-IsI32}
use sharak.Fleet.Server.{Os, Options, serving, parse_args, fleet_main}
use sharak.Fleet.Server.Serving.{IsStack}
use sharak.Fleet.Server.Client.{IsWilling, client_receives}
use sharak.Fleet.Server.Messages.{IsSystem, wobble_at, fleet_message, fleet_messages}

-- The signal at a phase, and at `k` phases from `phase` on, which wraps at 32 bits.
unfoldable pub fleet_reading : ℕ → Values
fleet_reading phase = record {
  seq = phase % 2 ^ 16;
  x_mg = wobble_at phase;
  y_mg = wobble_at (phase + 2);
  z_mg = pos 1000;
}

unfoldable pub fleet_readings : ℕ → ℕ → List Values
fleet_readings phase zero = []
fleet_readings phase (suc k) = fleet_readings phase k ++ (fleet_reading ((phase + k) % 2 ^ 32) ∷ [])

wobble_at-IsI32 : (k : ℕ) → IsI32 (wobble_at k)
wobble_at-IsI32 k =
    let (x, at_x, small) = load_in IsI32 wobble (k % 8) wobble-IsI32 (omega arith) in
    subst IsI32 (sym (ap (value_or (pos 0)) at_x)) small

fleet_readings-InRange : (phase k : ℕ) → All InRange (fleet_readings phase k)
unfolding fleet_readings fleet_reading
fleet_readings-InRange phase zero = tt
fleet_readings-InRange phase (suc k) =
    let now = (phase + k) % 2 ^ 32 in
    All-append InRange (fleet_readings phase k) (fleet_reading now ∷ [])
      (fleet_readings-InRange phase k)
      ((omega arith, wobble_at-IsI32 now, wobble_at-IsI32 (now + 2), omega arith), tt)

fleet_messages-readings :
    (phase k : ℕ) → fleet_messages phase k ≡ map message_of (fleet_readings phase k)
unfolding fleet_messages fleet_message fleet_readings fleet_reading
fleet_messages-readings phase zero = refl
fleet_messages-readings phase (suc k) =
    let now = (phase + k) % 2 ^ 32 in
    ap (λ t. t ++ (fleet_message now ∷ [])) (fleet_messages-readings phase k)
    ∙ sym (map-append message_of (fleet_readings phase k) (fleet_reading now ∷ []))

-- Unpacking the server's messages gives the signal back.
pub unpack_all-fleet_messages :
    (phase k : ℕ)
    → unpack_all (fleet_messages phase k) ≡ some (map (λ v. (pos 0, v)) (fleet_readings phase k))
unpack_all-fleet_messages phase k =
    ap unpack_all (fleet_messages-readings phase k)
    ∙ unpack_all-message_of (fleet_readings phase k) (fleet_readings-InRange phase k)

module _ {W : Type 0} (os : Os W) (system : IsSystem os) (willing : IsWilling os) where
  -- From the signal to the client. With arguments that `main` takes and calls that succeed: after its
  -- first round and any number `n` of further rounds, `main` serves a client. A decoder that
  -- `sk_decoder_init` has set up, whatever it held, and that is fed all that the client has been sent
  -- makes no access out of range, and what it hands over is unpacked, each with the return value 0,
  -- to the samples of the phases 0 to `n - 1`, in order, each once, however few bytes each write took.
  pub client_reads :
      (args : List (List ℕ)) (o : Options) (first : List ℕ × List ℕ)
      (stacks : List (List ℕ × List ℕ)) (w : W) (st : Decoder) (out : List ℕ) (cap : ℕ)
      → parse_args args (record { port = 5555; rate = 100 }) ≡ some o
      → All IsStack stacks
      → length st.buf ≡ frame_inner
      → payload_max ≤ cap
      → cap ≤ length out
      → (cli : ℤ) × (w' : W) × (fresh : Decoder) × (st' : Decoder) × (rs : List (ℤ × Ptr (List ℕ)))
        × (fleet_main os args (first ∷ stacks) w ≡ some (serving cli (length stacks % 2 ^ 32) w'))
        × (sk_decoder_init (some st) ≡ some fresh)
        × (feed_all (some fresh) (system.carried w' cli) (some out) cap ≡ some (rs, some st'))
        × (unpack_all (received rs)
            ≡ some (map (λ v. (pos 0, v)) (fleet_readings 0 (length stacks))))
  client_reads args o first stacks w st out cap parsed sizes acc room len =
      let (cli, w', fresh, st', rs, runs, init, fed, got) =
        client_receives os system willing args o first stacks w st out cap parsed sizes acc room
          len in
      (
        cli,
        w',
        fresh,
        st',
        rs,
        runs,
        init,
        fed,
        ap unpack_all got ∙ unpack_all-fleet_messages 0 (length stacks),
      )
