-- ===== src/Firmware/Node/Tests.antt =====
-- The life of a node on a line that remembers what it carries.
use sharak.Prelude.{
  map, ◌≢◌, ℕ, ◌≡◌, refl, arith, List, [], ◌∷◌, ◌++◌, ℤ, pos, some, Ptr, replicate, if◌then◌else◌,
  ◌==◌, none,
}
use sharak.Firmware.Node.Sending.{HasBuffers}
use sharak.Firmware.Node.{Node, next}
use sharak.Protocol.Decoder.{Decoder, sk_decoder_init}
use sharak.Protocol.Decoder.Feed.{feed_all}
use sharak.Protocol.Decoder.Received.{received}
use sharak.Firmware.Uart.{uart_dr}
use sharak.Firmware.Uart.Text.{IsQuiet}
use sharak.Firmware.Node.Start.{banner}
use sharak.Firmware.Node.Runs.{Initial, Runs, IsRunning, Runs-IsRunning, Runs_live}
use sharak.Firmware.Node.Station.{Runs-readings, readings}
use sharak.Protocol.Payload.Values.{unpack_all}
use sharak.Firmware.Sim.{Sim}
use sharak.Firmware.Device.{Device}
use sharak.Firmware.Uart.Transmit.{IsTransmitter}

-- A line that carries what is written to the data register, and nothing else.
abbrev serial : Device (List ℕ)
serial = record {
  read32 = λ d reg. (0, d);
  write32 = λ d reg c. if reg == uart_dr then d ++ (c ∷ []) else d;
}

abbrev serial_line : IsTransmitter serial 0
serial_line = record {
  sent = λ d. d;
  busy = λ d. 0;
  poll_ready = λ d e. refl;
  poll_full = λ d h. absurd (omega arith);
  poll_busy = λ d. refl;
  poll_sent = λ d. refl;
  push_sent = λ d c e. refl;
  push_busy = λ d c e. omega arith;
}

not_dr :
    (reg c : ℕ) (d : List ℕ) → reg ≢ uart_dr → (if reg == uart_dr then d ++ (c ∷ []) else d) ≡ d
not_dr reg c d ne = ground arith

serial-IsQuiet : IsQuiet serial 0 serial_line
serial-IsQuiet = record {
  read_sent = λ d reg ne. refl;
  read_busy = λ d reg ne. omega arith;
  write_sent = λ d reg c ne. not_dr reg c d ne;
  write_busy = λ d reg c ne. omega arith;
}

-- A decoder in the middle of a frame.
abbrev used : Decoder
used = record { in_frame = 1; esc = 1; overflow = 0; count = 7; buf = replicate 18 9 }

-- Memory that holds something of everything, with no method in the bus.
abbrev blank : Initial (List ℕ)
blank = record {
  bus = record { write = none; write_read = none };
  sim = record { regs = replicate 58 7; ptr = 200; phase = 9 };
  node = record {
    bus_state = none;
    sample = record { x_mg = pos 1; y_mg = pos 2; z_mg = pos 3 };
    payload = replicate 16 5;
    frame_buf = replicate 38 6;
    seq = 0xffff;
    device = [];
  };
}

blank-HasBuffers : HasBuffers blank.node
blank-HasBuffers = record { payload_size = refl; frame_size = refl; frame_bytes = ground arith }

one_round :
    (n : Node (Ptr Sim) (List ℕ)) × Runs serial 1 blank 1 (next n)
    × IsRunning serial_line banner 1 n
one_round =
    Runs_live serial 0 1 serial_line (omega arith) blank serial-IsQuiet refl blank-HasBuffers
      (omega arith) 1

Runs_live_example :
    (n : Node (Ptr Sim) (List ℕ)) × Runs serial 1 blank 3 (next n)
    × IsRunning serial_line banner 3 n
Runs_live_example =
    Runs_live serial 0 1 serial_line (omega arith) blank serial-IsQuiet refl blank-HasBuffers
      (omega arith) 3

Runs-IsRunning_example :
    (n : Node (Ptr Sim) (List ℕ)) × (next one_round.0 ≡ next n) × IsRunning serial_line banner 1 n
Runs-IsRunning_example =
    Runs-IsRunning serial 0 1 serial_line (omega arith) blank serial-IsQuiet refl blank-HasBuffers
      (omega arith) 1 (next one_round.0) one_round.1

Runs-readings_example :
    (fresh : Decoder) × (st' : Decoder) × (rs : List (ℤ × Ptr (List ℕ))) × (sk_decoder_init
        (some used)
      ≡ some fresh)
    × (feed_all (some fresh) one_round.0.device (some (replicate 16 0)) 16 ≡ some (rs, some st'))
    × (unpack_all (received rs) ≡ some (map (λ v. (pos 0, v)) (readings 1)))
Runs-readings_example =
    Runs-readings serial 0 1 serial_line blank 1 one_round.0 used (replicate 16 0) 16 (omega arith)
      serial-IsQuiet refl blank-HasBuffers (omega arith) refl one_round.1 refl (omega arith)
      (omega arith)
