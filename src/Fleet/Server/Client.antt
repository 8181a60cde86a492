-- ===== src/Fleet/Server/Client.antt =====
-- What a client of the fleet server makes of what it is sent.
use sharak.Prelude.{
  ℕ, zero, suc, ◌+◌, ◌%◌, ◌^◌, ◌≤◌, ◌≡◌, refl, ap, ◌∙◌, arith, List, [], ◌∷◌, ℤ, pos, Ptr, some,
  All, All-append, IsU8, length, bind_some, u32, inl, inr, false, ◌<◌, ◌/◌,
}
use sharak.Protocol.Wire.{payload_max, frame_inner}
use sharak.Protocol.Payload.Whole.{length-accel_message, accel_message-IsU8}
use sharak.Protocol.Decoder.{Decoder, sk_decoder_init}
use sharak.Protocol.Decoder.Machine.{hunting, events}
use sharak.Protocol.Decoder.Refine.{init-Simulates}
use sharak.Protocol.Decoder.Stream.{IsMessage, frames}
use sharak.Protocol.Decoder.Resync.{frames-delivered_hunting}
use sharak.Protocol.Decoder.Feed.{feed_all, trace, feed_all_refines}
use sharak.Protocol.Decoder.Received.{received, received-trace, frames-IsU8}
use sharak.Fleet.Server.{
  Os, Options, listening, serving, is_negative, count, parse_args, make_server, server_round,
  accept_round, serve, start_server, fleet_main,
}
use sharak.Fleet.Server.Messages.{IsSystem, wobble_at, fleet_message, fleet_messages}
use sharak.Fleet.Server.Serving.{IsStack, one_more, stream_round_outcome}

fleet_message-IsMessage : (phase : ℕ) → IsMessage (fleet_message phase)
unfolding fleet_message
fleet_message-IsMessage phase =
    let size =
      length-accel_message (phase % 2 ^ 16) (wobble_at phase) (wobble_at (phase + 2)) (pos 1000) in
    (omega (arith, size), omega (arith, size))

fleet_message-IsU8 : (phase : ℕ) → All IsU8 (fleet_message phase)
unfolding fleet_message
fleet_message-IsU8 phase =
    accel_message-IsU8 (phase % 2 ^ 16) (wobble_at phase) (wobble_at (phase + 2)) (pos 1000)

-- What holds of the message of each phase holds of those of several.
fleet_messages-All :
    (P : List ℕ → Type 0)
    → ((phase : ℕ) → P (fleet_message phase))
    → (q k : ℕ) → All P (fleet_messages q k)
unfolding fleet_messages
fleet_messages-All P each q zero = tt
fleet_messages-All P each q (suc k) =
    All-append P (fleet_messages q k) (fleet_message ((q + k) % 2 ^ 32) ∷ [])
      (fleet_messages-All P each q k) (each ((q + k) % 2 ^ 32), tt)

-- A decoder that is fed frames of the server from their start.
frames-received :
    (q k : ℕ) (st : Decoder) (out : List ℕ) (cap : ℕ)
    → length st.buf ≡ frame_inner
    → payload_max ≤ cap
    → cap ≤ length out
    → (fresh : Decoder) × (st' : Decoder) × (rs : List (ℤ × Ptr (List ℕ))) × (sk_decoder_init
          (some st)
        ≡ some fresh)
      × (feed_all (some fresh) (frames (fleet_messages q k)) (some out) cap ≡ some (rs, some st'))
      × (received rs ≡ fleet_messages q k)
frames-received q k st out cap acc room len =
    let msgs = fleet_messages q k in
    let (fresh, init, sim) = init-Simulates st acc in
    let bytes = frames-IsU8 msgs (fleet_messages-All (All IsU8) fleet_message-IsU8 q k) in
    let (st', run, _) = feed_all_refines fresh hunting (frames msgs) out cap sim bytes room len in
    (
      fresh,
      st',
      trace (events hunting (frames msgs)) out,
      init,
      run,
      received-trace hunting (frames msgs) out tt bytes
          ∙ frames-delivered_hunting msgs
              (fleet_messages-All IsMessage fleet_message-IsMessage q k),
    )

-- Calls that succeed: each socket and each client is there, and each write of some bytes takes one of
-- them at least.
pub record IsWilling {W : Type 0} (os : Os W) : Type 0 where
  pub sockets : (w : W) → is_negative (os.socket w).0 ≡ false
  pub binds : (w : W) (fd : ℤ) (port : ℕ) → is_negative (os.bind w fd port).0 ≡ false
  pub listens : (w : W) (fd : ℤ) → is_negative (os.listen w fd).0 ≡ false
  pub accepts : (w : W) (srv : ℤ) → is_negative (os.accept w srv).0 ≡ false
  pub writes : (w : W) (fd : ℤ) (b : ℕ) (bs : List ℕ) → 0 < count (os.write w fd (b ∷ bs)).0

module _ {W : Type 0} (os : Os W) (system : IsSystem os) (willing : IsWilling os) where
  -- The client stays: every round sends it a frame.
  serve-willing :
      (srv : ℤ) (period : ℕ) (stacks : List (List ℕ × List ℕ)) (cli : ℤ) (k phase : ℕ) (w : W)
      → All IsStack stacks
      → phase ≡ k % 2 ^ 32
      → system.carried w cli ≡ frames (fleet_messages 0 k)
      → (w' : W) × (serve os srv period stacks (serving cli phase w)
          ≡ some (serving cli ((k + length stacks) % 2 ^ 32) w'))
        × (system.carried w' cli ≡ frames (fleet_messages 0 (k + length stacks)))
  unfolding serve server_round
  serve-willing srv period [] cli k phase w sizes at sent =
      let none_left : phase ≡ (k + 0) % 2 ^ 32 = omega (arith, at) in
      let same : k ≡ k + 0 = omega arith in
      (
        w,
        ap (λ t. some (serving cli t w)) none_left,
        sent ∙ ap (λ t. frames (fleet_messages 0 t)) same,
      )
  serve-willing srv period ((payload, buf) ∷ stacks) cli k phase w (size, sizes) at sent =
      elim (stream_round_outcome os system period payload buf cli phase w size) [
        | inl (w1, run, _, carried) ↦
            let (w', more, all) =
              serve-willing srv period stacks cli (suc k) (u32 (phase + 1)) w1 sizes
                (omega (arith, at))
                (carried ∙ one_more 0 k phase (system.carried w cli) (omega (arith, at)) sent) in
            let count_lem : suc k + length stacks ≡ k + suc (length stacks) = omega arith in
            (
              w',
              bind_some _ run (more ∙ ap (λ (t : ℕ). some (serving cli (t % 2 ^ 32) w')) count_lem),
              all ∙ ap (λ t. frames (fleet_messages 0 t)) count_lem,
            )
        | inr (_, _, _, (w1, b, bs, refused)) ↦
            let taken = willing.writes w1 cli b bs in absurd (ground arith)
      ]

  make_server-willing : (port : ℕ) (w : W) → is_negative (make_server os port w).0 ≡ false
  unfolding make_server
  make_server-willing port w =
      let (fd, w1) = os.socket w in
      let w2 = os.set_reuse w1 fd in
      let (bound, w3) = os.bind w2 fd port in
      rw (willing.sockets w, willing.binds w2 fd port, willing.listens w3 fd) (willing.sockets w)

  start_server-willing :
      (o : Options) (stacks : List (List ℕ × List ℕ)) (w : W)
      → let (srv, w1) = make_server os o.port w in
        start_server os (some o) stacks w ≡ serve os srv (1000000 / o.rate) stacks (listening 0 w1)
  unfolding start_server
  start_server-willing o stacks w = rw (make_server-willing o.port w) refl

  -- The first round accepts a client.
  serve_first :
      (srv : ℤ) (period : ℕ) (first : List ℕ × List ℕ) (stacks : List (List ℕ × List ℕ)) (phase : ℕ)
      (w : W)
      → let (cli, w1) = os.accept w srv in
        serve os srv period (first ∷ stacks) (listening phase w)
        ≡ serve os srv period stacks (serving cli phase w1)
  unfolding serve server_round accept_round
  serve_first srv period (payload, buf) stacks phase w = rw (willing.accepts w srv) refl

  -- With arguments that `main` takes and calls that succeed: after its first round and any number `n`
  -- of further rounds, `main` serves a client. A decoder that `sk_decoder_init` has set up, whatever
  -- it held, and that is fed all that the client has been sent makes no access out of range and hands
  -- over exactly the messages of the phases 0 to `n - 1`, in order, each once, however few bytes each
  -- write took.
  pub client_receives :
      (args : List (List ℕ)) (o : Options) (first : List ℕ × List ℕ)
      (stacks : List (List ℕ × List ℕ)) (w : W) (st : Decoder) (out : List ℕ) (cap : ℕ)
      → parse_args args (record { port = 5555; rate = 100 }) ≡ some o
      → All IsStack stacks
      → length st.buf ≡ frame_inner
      → payload_max ≤ cap
      → cap ≤ length out
      → (cli : ℤ) × (w' : W) × (fresh : Decoder) × (st' : Decoder) × (rs : List (ℤ × Ptr (List ℕ)))
        × (fleet_main os args (first ∷ stacks) w ≡ some (serving cli (length stacks % 2 ^ 32) w'))
        × (sk_decoder_init (some st) ≡ some fresh)
        × (feed_all (some fresh) (system.carried w' cli) (some out) cap ≡ some (rs, some st'))
        × (received rs ≡ fleet_messages 0 (length stacks))
  unfolding fleet_main
  client_receives args o first stacks w st out cap parsed sizes acc room len =
      let (srv, w1) = make_server os o.port w in
      let (cli, w2) = os.accept w1 srv in
      let accepted = willing.accepts w1 srv in
      let (w', run, sent) =
        serve-willing srv (1000000 / o.rate) stacks cli 0 0 w2 sizes (omega arith)
          (system.accept_fresh w1 srv accepted ∙ unfold frames fleet_messages in refl) in
      let (fresh, st', rs, init, fed, got) =
        frames-received 0 (length stacks) st out cap acc room len in
      let zero_count : 0 + length stacks ≡ length stacks = omega arith in
      (
        cli,
        w',
        fresh,
        st',
        rs,
        ap (λ t. start_server os t (first ∷ stacks) w) parsed
            ∙ (start_server-willing o (first ∷ stacks) w
                ∙ (serve_first srv (1000000 / o.rate) first stacks 0 w1
                    ∙ (run ∙ ap (λ (t : ℕ). some (serving cli (t % 2 ^ 32) w')) zero_count))),
        init,
        ap (λ t. feed_all (some fresh) t (some out) cap)
              (sent ∙ ap (λ t. frames (fleet_messages 0 t)) zero_count)
            ∙ fed,
        got,
      )
