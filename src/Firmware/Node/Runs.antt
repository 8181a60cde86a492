-- ===== src/Firmware/Node/Runs.antt =====
-- The life of the node: its start and any number of rounds, with what holds at every point of it.
use sharak.Prelude.{
  value_or, replicate, ℕ, zero, suc, ◌+◌, ◌%◌, ◌^◌, ◌≤◌, ◌<◌, ◌≡◌, refl, ap, ap₂, sym, ◌∙◌, arith,
  List, [], ◌∷◌, ◌++◌, append_assoc, append-nil, ℤ, pos, some, none, Ptr, Run, load, length,
}
use sharak.Protocol.Decoder.Stream.{frames-append, frames}
use sharak.Protocol.Payload.Pack.{accel_message}
use sharak.Protocol.Frame.Stuff.{frame}
use sharak.Firmware.Bus.{Bus}
use sharak.Firmware.Sim.{Sim, nregs, wobble}
use sharak.Firmware.Sim.Access.{powered}
use sharak.Firmware.Sim.Burst.{IsMeasuring, sampled, sampled-IsMeasuring}
use sharak.Firmware.Adxl345.{to_mg}
use sharak.Firmware.Adxl345.OnSim.{sim_bus, configured}
use sharak.Firmware.Device.{Device}
use sharak.Firmware.Uart.Transmit.{IsTransmitter}
use sharak.Firmware.Uart.Text.{IsQuiet}
use sharak.Firmware.Node.{Node, Round, next, halted, main_start, main_round}
use sharak.Firmware.Node.Sending.{HasBuffers, main_round_lem}
use sharak.Firmware.Node.Start.{banner, main_start-next}

-- What the static variables, the stack and the device hold at the start.
pub record Initial (D : Type 0) : Type 0 where
  pub bus : Bus (Ptr Sim)
  pub sim : Sim
  pub node : Node (Ptr Sim) D

-- `Runs dev fuel i k r`: `main` starts from `i`, and `r` is how its first `k` rounds end. Each round
-- finds some bytes on the stack.
pub data Runs {D : Type 0} (dev : Device D) (fuel : ℕ) (i : Initial D)
    : ℕ → Round (Ptr Sim) D → Type 0 where
  started :
      {r : Round (Ptr Sim) D}
      → main_start dev fuel (some i.bus) (some i.sim) i.node ≡ some (r, some sim_bus)
      → Runs dev fuel i zero r
  round :
      {k : ℕ} {n : Node (Ptr Sim) D} {r : Round (Ptr Sim) D}
      → Runs dev fuel i k (next n)
      → (raw : List ℕ) → length raw ≡ 6
      → main_round sim_bus dev fuel raw n ≡ some r
      → Runs dev fuel i (suc k) r

-- The wobble of the simulated chip, by the number of the round.
abbrev pub wobble_at : ℕ → ℤ
wobble_at k = value_or (pos 0) (load wobble (k % 16))

-- The message of round `k`, and those of the first `k` rounds.
unfoldable pub message_at : ℕ → List ℕ
message_at k =
    accel_message (k % 2 ^ 16) (to_mg (wobble_at k)) (to_mg (wobble_at (k + 4))) (pos 1000)

unfoldable pub messages : ℕ → List (List ℕ)
messages zero = []
messages (suc k) = messages k ++ (message_at k ∷ [])

-- At the start of round `k`.
pub record IsRunning {D : Type 0} {dev : Device D} {bound : ℕ} (line : IsTransmitter dev bound)
    (before : List ℕ) (k : ℕ) (n : Node (Ptr Sim) D) : Type 0 where
  pub chip : Sim
  pub on_bus : n.bus_state ≡ some chip
  pub measures : IsMeasuring chip
  pub at_phase : chip.phase ≡ k % 2 ^ 32
  pub at_seq : n.seq ≡ k % 2 ^ 16
  pub buffers : HasBuffers n
  pub drains : line.busy n.device ≤ bound
  pub sent : line.sent n.device ≡ before ++ frames (messages k)

at_wobble : (i : ℕ) (x : ℤ) → load wobble (i % 16) ≡ some x → x ≡ wobble_at i
at_wobble i x e = sym (ap (value_or (pos 0)) e)

at_message :
    (k seq : ℕ) (x y : ℤ)
    → seq ≡ k % 2 ^ 16
    → x ≡ wobble_at k
    → y ≡ wobble_at (k + 4)
    → accel_message seq (to_mg x) (to_mg y) (pos 1000) ≡ message_at k
unfolding message_at
at_message k seq x y at_seq at_x at_y =
    ap (λ t. accel_message t (to_mg x) (to_mg y) (pos 1000)) at_seq
    ∙ ap₂ (λ u v. accel_message (k % 2 ^ 16) (to_mg u) (to_mg v) (pos 1000)) at_x at_y

round_of : {A B : Type 0} → A → Run (A × B) → A
round_of d none = d
round_of d (some (a, b)) = a

out_of : {D : Type 0} → Round (Ptr Sim) D → Node (Ptr Sim) D
out_of (next n) = n
out_of (halted n) = n

pub next-injective : {D : Type 0} (m n : Node (Ptr Sim) D) → next m ≡ next n → m ≡ n
unfolding out_of
next-injective m n e = ap out_of e

module _ {D : Type 0} (dev : Device D) (bound fuel : ℕ) (line : IsTransmitter dev bound)
    (enough : bound < fuel) where
  -- A round goes from one point to the next.
  main_round-IsRunning :
      (before raw : List ℕ) (k : ℕ) (n : Node (Ptr Sim) D)
      → IsRunning line before k n
      → length raw ≡ 6
      → (n' : Node (Ptr Sim) D) × (main_round sim_bus dev fuel raw n ≡ some (next n'))
        × IsRunning line before (suc k) n'
  unfolding messages
  main_round-IsRunning before raw k n v six =
      let s = v.chip in
      let (x, y, n', at_x, at_y, run, on_bus, at_seq, buffers, drains, sent) =
        main_round_lem dev bound fuel line n s raw v.on_bus v.measures six v.buffers v.drains
          enough in
      let same_x : x ≡ wobble_at k =
        at_wobble k x (ap (load wobble) (omega (arith, v.at_phase)) ∙ at_x) in
      let same_y : y ≡ wobble_at (k + 4) =
        at_wobble (k + 4) y (ap (load wobble) (omega (arith, v.at_phase)) ∙ at_y) in
      let same : accel_message n.seq (to_mg x) (to_mg y) (pos 1000) ≡ message_at k =
        at_message k n.seq x y v.at_seq same_x same_y in
      (
        n',
        run,
        record {
          chip = sampled s x y;
          on_bus = on_bus;
          measures = sampled-IsMeasuring s x y v.measures;
          at_phase = omega (arith, v.at_phase);
          at_seq = omega (arith, at_seq, v.at_seq);
          buffers = buffers;
          drains = drains;
          sent =
              sent
              ∙ (ap₂ (λ t m. t ++ frame m) v.sent same
                  ∙ (append_assoc before (frames (messages k)) (frame (message_at k))
                      ∙ ap (λ t. before ++ t) (sym (frames-append (messages k) (message_at k)))));
        },
      )

  module _ (i : Initial D) (quiet : IsQuiet dev bound line) (regs : length i.sim.regs ≡ nregs)
      (buffers : HasBuffers i.node) (drains : line.busy i.node.device ≤ bound) where
    -- What is on the line in front of the first frame.
    abbrev head_of : List ℕ
    head_of = line.sent i.node.device ++ banner

    main_start-IsRunning :
        (n : Node (Ptr Sim) D) × (main_start dev fuel (some i.bus) (some i.sim) i.node
          ≡ some (next n, some sim_bus))
        × IsRunning line head_of 0 n
    main_start-IsRunning =
        let (d, run, measures, drained, sent) =
          main_start-next dev bound fuel line i.bus i.sim i.node quiet regs drains enough in
        (
          record i.node { bus_state = some (configured powered); seq = 0; device = d },
          run,
          record {
            chip = configured powered;
            on_bus = refl;
            measures = measures;
            at_phase = refl;
            at_seq = refl;
            buffers = record {
              payload_size = buffers.payload_size;
              frame_size = buffers.frame_size;
              frame_bytes = buffers.frame_bytes;
            };
            drains = drained;
            sent = sent ∙ unfold messages frames in sym (append-nil head_of);
          },
        )

    -- The node never halts and never faults on what the buses and buffers hold: after any number
    -- `k` of rounds the next one is due, the chip measures at phase `k`, the sequence number is `k`,
    -- each by its width, and the line has carried the banner and the frames of the messages of the
    -- rounds so far, in order, and nothing else.
    pub Runs-IsRunning :
        (k : ℕ) (r : Round (Ptr Sim) D)
        → Runs dev fuel i k r
        → (n : Node (Ptr Sim) D) × (r ≡ next n) × IsRunning line head_of k n
    unfolding round_of
    Runs-IsRunning _ r (started run) =
        let (n, run', v) = main_start-IsRunning in (n, ap (round_of (next n)) (sym run ∙ run'), v)
    Runs-IsRunning (suc k) r (round {n = m} runs raw six run) =
        let (m', same, v) = Runs-IsRunning k (next m) runs in
        let (n, run', v') = main_round-IsRunning head_of raw k m' v six in
        (
          n,
          ap (value_or (next n))
              (sym run ∙ (ap (main_round sim_bus dev fuel raw) (next-injective m m' same) ∙ run')),
          v',
        )

    -- The node goes on for ever: there is a run of every number of rounds.
    pub Runs_live :
        (k : ℕ) → (n : Node (Ptr Sim) D) × Runs dev fuel i k (next n) × IsRunning line head_of k n
    Runs_live zero = let (n, start, v) = main_start-IsRunning in (n, started start, v)
    Runs_live (suc k) =
        let (n, runs, v) = Runs_live k in
        let (n', run, v') = main_round-IsRunning head_of (replicate 6 0) k n v refl in
        (n', round runs (replicate 6 0) refl run, v')
